-- ===== src/Util.antt =====
-- libs/core/src/util.cpp
use mapit.Base.{
  Str, ℕ, zero, suc, List, [], ◌∷◌, true, false, if◌then◌else◌, str_eq, ◌≡◌, refl, Bool,
}
use mapit.Outcome.{Outcome, returned, running}

-- `protobufContains`, on fuel for the rounds of its loop, which does not move the iterator.
unfoldable pub protobuf_contains : ℕ → List Str → Str → Outcome Bool
unfolding str_eq
protobuf_contains zero field str = running
protobuf_contains (suc fuel) [] str = returned false
protobuf_contains (suc fuel) (x ∷ field) str =
    let again = protobuf_contains fuel (x ∷ field) str in
    if str_eq x str then returned true else again

found_first :
    (fuel : ℕ) (x : Str) (field : List Str) (str : Str)
    → str_eq x str ≡ false
    → protobuf_contains fuel (x ∷ field) str ≡ running
unfolding protobuf_contains
found_first zero x field str h = refl
found_first (suc fuel) x field str h = rw h (found_first fuel x field str h)

-- The test for an element finds it in the first place and answers for a field without elements; for any
-- other field it does not end, however long it runs, whether the element is in the field or not.
pub protobuf_contains-first :
    (fuel : ℕ) (x : Str) (field : List Str) (str : Str)
    → (protobuf_contains (suc fuel) [] str ≡ returned false)
      × (str_eq x str ≡ true → protobuf_contains (suc fuel) (x ∷ field) str ≡ returned true)
      × (str_eq x str ≡ false → protobuf_contains fuel (x ∷ field) str ≡ running)
unfolding protobuf_contains
protobuf_contains-first fuel x field str =
    (refl, λ h. rw h refl, λ h. found_first fuel x field str h)

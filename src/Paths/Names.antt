-- ===== src/Paths/Names.antt =====
-- The names in a path: never empty, never with a slash, and read back from the canonical text.
use mapit.Base.{Str, ℕ, false, List, [], ◌∷◌, ◌++◌, ◌==◌}
use mapit.Base.{◌≡◌, ◌↔◌, refl, sym, ap, ◌∙◌, append_assoc, append-nil, Bool-cases, inl, inr}
use mapit.Paths.{slash, prepare_path}
use mapit.Paths.Canonical.{
  components, components_from, canonical, join, flush, prepare_path-canonical,
}

abbrev pub NoSlash : Str → Type 0
NoSlash [] = Unit
NoSlash (c ∷ s) = ((c == slash) ≡ false) × NoSlash s

abbrev pub IsName : Str → Type 0
IsName [] = ⊥
IsName (c ∷ s) = NoSlash (c ∷ s)

abbrev pub AreNames : List Str → Type 0
AreNames [] = Unit
AreNames (c ∷ cs) = IsName c × AreNames cs

pub NoSlash-append : (s t : Str) → NoSlash s → NoSlash t → NoSlash (s ++ t)
NoSlash-append [] t h k = k
NoSlash-append (c ∷ s) t h k = (h.0, NoSlash-append s t h.1 k)

flush-AreNames : (s : Str) (cs : List Str) → NoSlash s → AreNames cs → AreNames (flush s cs)
flush-AreNames [] cs h k = k
flush-AreNames (c ∷ s) cs h k = (h, k)

components_from-AreNames : (s seg : Str) → NoSlash seg → AreNames (components_from s seg)
unfolding components_from
components_from-AreNames [] seg h = flush-AreNames seg [] h tt
components_from-AreNames (c ∷ s) seg h = elim (Bool-cases (c == slash)) [
  | inl e ↦ rw e (flush-AreNames seg _ h (components_from-AreNames s [] tt))
  | inr e ↦
      rw e (components_from-AreNames s (seg ++ c ∷ []) (NoSlash-append seg (c ∷ []) h (e, tt)))
]

pub components-AreNames : (p : Str) → AreNames (components p)
unfolding components
components-AreNames p = components_from-AreNames p [] tt

components_from-name :
    (n seg rest : Str)
    → NoSlash n
    → components_from (n ++ slash ∷ rest) seg ≡ flush (seg ++ n) (components_from rest [])
unfolding components_from
components_from-name [] seg rest h = rw append-nil
components_from-name (c ∷ n) seg rest h =
    rw (h.0, components_from-name n (seg ++ c ∷ []) rest h.1, append_assoc seg (c ∷ []) n)

pub components-join : (cs : List Str) → AreNames cs → components (join cs) ≡ cs
unfolding components join
components-join [] h = unfold components_from in refl
components-join ([] ∷ cs) h = elim h.0 [ ]
components-join ((c ∷ n) ∷ cs) h =
    components_from-name (c ∷ n) [] (join cs) h.0 ∙ ap (λ t. (c ∷ n) ∷ t) (components-join cs h.1)

pub components-canonical : (cs : List Str) → AreNames cs → components (canonical cs) ≡ cs
unfolding canonical
components-canonical [] h = unfold components components_from in refl
components-canonical (c ∷ cs) h = components-join (c ∷ cs) h

-- The names of a prepared path are those of the path.
pub components-prepare_path :
    (c : ℕ) (r : Str) → components (prepare_path (c ∷ r)) ≡ components (c ∷ r)
components-prepare_path c r =
    rw (prepare_path-canonical c r) (components-canonical _ (components-AreNames (c ∷ r)))

canonical_twice : (cs : List Str) → AreNames cs → prepare_path (canonical cs) ≡ canonical cs
unfolding canonical join
canonical_twice [] h = prepare_path-canonical slash [] ∙ unfold components components_from in refl
canonical_twice ([] ∷ cs) h = elim h.0 [ ]
canonical_twice ((c ∷ n) ∷ cs) h =
    prepare_path-canonical c _ ∙ ap canonical (components-join ((c ∷ n) ∷ cs) h)

-- `preparePath` changes nothing when it is applied again.
pub prepare_path_twice :
    (c : ℕ) (r : Str) → prepare_path (prepare_path (c ∷ r)) ≡ prepare_path (c ∷ r)
prepare_path_twice c r =
    rw (prepare_path-canonical c r) (canonical_twice _ (components-AreNames (c ∷ r)))

-- Two paths that are not empty are prepared to the same text exactly when they hold the same names
-- in the same order.
pub prepare_path-eq_iff :
    (c d : ℕ) (r s : Str)
    → (prepare_path (c ∷ r) ≡ prepare_path (d ∷ s)) ↔ (components (c ∷ r) ≡ components (d ∷ s))
prepare_path-eq_iff c d r s = (
  λ e. sym (components-prepare_path c r) ∙ ap components e ∙ components-prepare_path d s,
  λ e. prepare_path-canonical c r ∙ ap canonical e ∙ sym (prepare_path-canonical d s),
)

-- ===== src/Paths/Canonical.antt =====
-- `preparePath` against the names that a path holds.
use mapit.Base.{Str, ℕ, zero, suc, ◌≤◌, Bool, true, false, Option, none, some, List, [], ◌∷◌}
use mapit.Base.{
  ◌==◌, if◌then◌else◌, length, ◌≡◌, refl, ◌∙◌, ap, arith, ◌++◌, append_assoc, Bool-cases, inl, inr,
  sym, ==_iff,
}
use mapit.Paths.{slash, strip_leading, add_trailing, replace_first, collapse, finish, prepare_path}

abbrev pub flush : Str → List Str → List Str
flush [] rest = rest
flush (c ∷ s) rest = (c ∷ s) ∷ rest

-- The non-empty names between slashes; `seg` holds the bytes since the last slash.
unfoldable pub components_from : Str → Str → List Str
components_from [] seg = flush seg []
components_from (c ∷ r) seg =
    let next = components_from r [] in
    let inside = components_from r (seg ++ c ∷ []) in if c == slash then flush seg next else inside

unfoldable pub components : Str → List Str
unfolding components_from
components p = components_from p []

-- Each name followed by a slash.
unfoldable pub join : List Str → Str
join [] = []
join (c ∷ cs) = c ++ (slash ∷ join cs)

-- The form that the rest of the code expects: no leading slash, a trailing one, no empty name.
unfoldable pub canonical : List Str → Str
unfolding join
canonical [] = slash ∷ []
canonical (c ∷ cs) = join (c ∷ cs)

-- Runs of slashes shortened to one.
squeeze : Str → Str
squeeze [] = []
squeeze (c ∷ []) = c ∷ []
squeeze (c ∷ d ∷ r) =
    let rest = squeeze (d ∷ r) in
    if c == slash then (if d == slash then rest else c ∷ rest) else c ∷ rest

-- Whether a text begins with the byte.
abbrev head_is : ℕ → Str → Bool
head_is d [] = false
head_is d (c ∷ t) = c == d

head-replace_first : (d : ℕ) (r t : Str) → replace_first (d ∷ r) ≡ some t → head_is d t ≡ true
unfolding replace_first
head-replace_first d [] t h = ground arith
head-replace_first d (e ∷ r) [] h = ground arith
head-replace_first d (e ∷ r) (x ∷ t) h = ground arith

squeeze-cons :
    (c d : ℕ) (r t : Str)
    → head_is d t ≡ true
    → squeeze t ≡ squeeze (d ∷ r)
    → squeeze (c ∷ t) ≡ squeeze (c ∷ d ∷ r)
unfolding squeeze
squeeze-cons c d r [] h e = ground arith
squeeze-cons c d r (x ∷ t) h e = ground arith

squeeze-replace_first : (p t : Str) → replace_first p ≡ some t → squeeze t ≡ squeeze p
unfolding replace_first squeeze
squeeze-replace_first [] t h = ground arith
squeeze-replace_first (c ∷ []) t h = ground arith
squeeze-replace_first (c ∷ d ∷ r) [] h = ground arith
squeeze-replace_first (c ∷ d ∷ r) (x ∷ t) h =
    ground (arith, squeeze-replace_first (d ∷ r) t, head-replace_first d r t, squeeze-cons c d r t)

squeeze-replace_first-none : (p : Str) → replace_first p ≡ none → squeeze p ≡ p
unfolding replace_first squeeze
squeeze-replace_first-none [] h = refl
squeeze-replace_first-none (c ∷ []) h = refl
squeeze-replace_first-none (c ∷ d ∷ r) h = ground (arith, squeeze-replace_first-none (d ∷ r))

length-replace_first : (p t : Str) → replace_first p ≡ some t → suc (length t) ≡ length p
unfolding replace_first
length-replace_first [] t h = ground arith
length-replace_first (c ∷ []) t h = ground arith
length-replace_first (c ∷ d ∷ r) [] h = ground arith
length-replace_first (c ∷ d ∷ r) (x ∷ t) h = ground (arith, length-replace_first (d ∷ r) t)

collapse_step :
    (fuel : ℕ) (p : Str) (o : Option Str)
    → replace_first p ≡ o
    → ((t : Str) → replace_first p ≡ some t → collapse fuel t ≡ squeeze t)
    → collapse (suc fuel) p ≡ squeeze p
unfolding collapse
collapse_step fuel p none e ih = rw (e, collapse) (sym (squeeze-replace_first-none p e))
collapse_step fuel p (some t) e ih = rw (e, collapse) (ih t e ∙ squeeze-replace_first p t e)

-- As many rounds as the text has bytes are enough.
collapse-eq-squeeze : (fuel : ℕ) (p : Str) → length p ≤ fuel → collapse fuel p ≡ squeeze p
unfolding collapse squeeze
collapse-eq-squeeze zero [] h = refl
collapse-eq-squeeze zero (c ∷ p) h = elim h [ ]
collapse-eq-squeeze (suc fuel) p h =
    collapse_step fuel p (replace_first p) refl
      λ t e. collapse-eq-squeeze fuel t (omega (arith, length-replace_first p t e))

-- What stands between the bytes since the last slash and the rest.
abbrev gap : Str → Str → Str
gap [] rest = slash ∷ rest
gap (c ∷ s) rest = if c == slash then slash ∷ rest else rest

join-components_from :
    (s : Str) (x : ℕ) (xs : Str)
    → join (components_from s (x ∷ xs)) ≡ (x ∷ xs) ++ gap s (join (components_from s []))
unfolding join components_from
join-components_from [] x xs = refl
join-components_from (c ∷ s) x xs = elim (Bool-cases (c == slash)) [
  | inl e ↦ rw e refl
  | inr e ↦
      rw (e, join-components_from s x (xs ++ c ∷ []), join-components_from s c [])
        (ap (λ t. x ∷ t) (append_assoc xs (c ∷ []) _))
]

squeeze_step :
    (c d : ℕ) (t : Str)
    → head_is d t ≡ true
    → squeeze (c ∷ t)
      ≡ (if c == slash then (if d == slash then squeeze t else c ∷ squeeze t) else c ∷ squeeze t)
unfolding squeeze
squeeze_step c d [] h = ground arith
squeeze_step c d (x ∷ t) h = ground arith

head-add_trailing : (d : ℕ) (r : Str) → head_is d (add_trailing (d ∷ r)) ≡ true
unfolding add_trailing
head-add_trailing d [] = ground arith
head-add_trailing d (e ∷ r) = ground arith

components_from-slash :
    (c : ℕ) (r : Str) → c == slash ≡ true → components_from (c ∷ r) [] ≡ components_from r []
unfolding components_from
components_from-slash c r e = rw e

join-components_from_cons :
    (c : ℕ) (r : Str)
    → c == slash ≡ false
    → join (components_from (c ∷ r) []) ≡ c ∷ gap r (join (components_from r []))
unfolding components_from
join-components_from_cons c r e = rw e (join-components_from r c [])

squeeze-add_trailing :
    (c : ℕ) (r : Str)
    → squeeze (add_trailing (c ∷ r)) ≡ (
        if c == slash
        then slash ∷ join (components_from (c ∷ r) [])
        else join (components_from (c ∷ r) []))
unfolding add_trailing
squeeze-add_trailing c [] = elim (Bool-cases (c == slash)) [
  | inl e ↦
      rw (e, components_from-slash c [] e) (unfold squeeze join components_from in ground arith)
  | inr e ↦
      rw (e, join-components_from_cons c [] e) (unfold squeeze join components_from in ground arith)
]
squeeze-add_trailing c (d ∷ r) = elim (Bool-cases (c == slash)) [
  | inl e ↦
      rw
        (
          squeeze_step c d (add_trailing (d ∷ r)) (head-add_trailing d r),
          e,
          components_from-slash c (d ∷ r) e,
        )
        (ground (arith, squeeze-add_trailing d r))
  | inr e ↦
      rw
        (
          squeeze_step c d (add_trailing (d ∷ r)) (head-add_trailing d r),
          e,
          join-components_from_cons c (d ∷ r) e,
        )
        (ground (arith, squeeze-add_trailing d r))
]

canonical-components_from :
    (s : Str) (x : ℕ) (xs : Str)
    → canonical (components_from s (x ∷ xs)) ≡ join (components_from s (x ∷ xs))
unfolding canonical components_from
canonical-components_from [] x xs = refl
canonical-components_from (c ∷ s) x xs = elim (Bool-cases (c == slash)) [
  | inl e ↦ rw e
  | inr e ↦ rw e (canonical-components_from s x (xs ++ c ∷ []))
]

-- The branch that does not return from inside the loop.
prepare_relative :
    (c : ℕ) (r : Str)
    → c == slash ≡ false
    → collapse (length (add_trailing (c ∷ r))) (add_trailing (c ∷ r))
      ≡ canonical (components (c ∷ r))
unfolding components
prepare_relative c r e =
    rw
      (
        collapse-eq-squeeze (length (add_trailing (c ∷ r))) (add_trailing (c ∷ r)) (omega arith),
        squeeze-add_trailing c r,
        e,
      )
      (unfold components_from in sym (canonical-components_from r c []))

strip_leading-slash :
    (c d : ℕ) (r : Str) → c == slash ≡ true → strip_leading (c ∷ d ∷ r) ≡ strip_leading (d ∷ r)
unfolding strip_leading
strip_leading-slash c d r e = rw e

pub components-slash : (c : ℕ) (r : Str) → c == slash ≡ true → components (c ∷ r) ≡ components r
unfolding components
components-slash c r e = components_from-slash c r e

finish-strip_leading :
    (c : ℕ) (r : Str) → finish (strip_leading (c ∷ r)) ≡ canonical (components (c ∷ r))
unfolding finish
finish-strip_leading c [] = elim (Bool-cases (c == slash)) [
  | inl e ↦
      unfold strip_leading components components_from canonical in
      rw e (ap (λ (x : ℕ). x ∷ []) ((==_iff c slash).0 e))
  | inr e ↦ unfold strip_leading in rw e (prepare_relative c [] e)
]
finish-strip_leading c (d ∷ r) = elim (Bool-cases (c == slash)) [
  | inl e ↦
      rw (strip_leading-slash c d r e, components-slash c (d ∷ r) e) (finish-strip_leading d r)
  | inr e ↦ unfold strip_leading in rw e (prepare_relative c (d ∷ r) e)
]

-- On a path that is not empty, `preparePath` computes the canonical text of the names that the path
-- holds: they depend on no leading, trailing or repeated slash.
pub prepare_path-canonical :
    (c : ℕ) (r : Str) → prepare_path (c ∷ r) ≡ canonical (components (c ∷ r))
unfolding prepare_path
prepare_path-canonical c r = finish-strip_leading c r

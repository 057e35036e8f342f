-- ===== src/Paths/Filename.antt =====
-- `preparePathFilename` against `preparePath`: both keep the names of a path.
use mapit.Base.{
  Str, ℕ, [], ◌∷◌, ◌++◌, ◌==◌, if◌then◌else◌, ◌≡◌, refl, ap, ◌∙◌, Bool-cases, inl, inr,
}
use mapit.Paths.{slash, drop_leading, drop_trailing, prepare_path_filename}
use mapit.Paths.Canonical.{components, components_from, flush}

components-drop_leading : (p : Str) → components_from (drop_leading p) [] ≡ components_from p []
unfolding drop_leading components_from
components-drop_leading [] = refl
components-drop_leading (c ∷ r) = elim (Bool-cases (c == slash)) [
  | inl e ↦ rw (drop_leading, e, components_from) (components-drop_leading r)
  | inr e ↦ rw (drop_leading, e, components_from, e) refl
]

components-trailing :
    (c : ℕ) (r t seg : Str)
    → ((s : Str) → components_from t s ≡ components_from r s)
    → components_from (elim t [ [] ↦ (if c == slash then [] else c ∷ []) | d ∷ u ↦ c ∷ d ∷ u ]) seg
      ≡ components_from (c ∷ r) seg
unfolding components_from
components-trailing c r [] seg h = elim (Bool-cases (c == slash)) [
  | inl e ↦ rw e (ap (flush seg) (h []))
  | inr e ↦ rw (e, components_from, e) (h (seg ++ c ∷ []))
]
components-trailing c r (d ∷ t) seg h = elim (Bool-cases (c == slash)) [
  | inl e ↦ rw e (ap (flush seg) (h []))
  | inr e ↦ rw e (h (seg ++ c ∷ []))
]

components-drop_trailing :
    (p seg : Str) → components_from (drop_trailing p) seg ≡ components_from p seg
unfolding drop_trailing
components-drop_trailing [] seg = refl
components-drop_trailing (c ∷ r) seg =
    components-trailing c r (drop_trailing r) seg (components-drop_trailing r)

-- A prepared file name holds the names of the path, in order.
pub components-prepare_path_filename :
    (p : Str) → components (prepare_path_filename p) ≡ components p
unfolding components prepare_path_filename
components-prepare_path_filename p =
    components-drop_trailing (drop_leading p) [] ∙ components-drop_leading p

-- ===== src/EntityLibrary/Names.antt =====
-- What a layer type is turned into before it is part of a file name.
use mapit.Base.{Str, ℕ, [], ◌∷◌, ◌++◌, Bool, true, false, ◌||◌, ◌==◌, if◌then◌else◌}
use mapit.Base.{◌≡◌, refl, sym, ap, ◌∙◌, arith}
use mapit.EntityLibrary.{remove, remove_all, illegal_characters, layertype_name}

-- Whether a byte is one of a list.
abbrev pub is_among : ℕ → Str → Bool
is_among c [] = false
is_among c (d ∷ s) = c == d || is_among c s

-- The bytes that are not among `cs`, in order.
abbrev pub others : Str → Str → Str
others cs [] = []
others cs (d ∷ s) = if is_among d cs then others cs s else d ∷ others cs s

others-nil : (s : Str) → others [] s ≡ s
others-nil [] = refl
others-nil (d ∷ s) = ap (λ t. d ∷ t) (others-nil s)

others-remove : (c : ℕ) (cs s : Str) → others cs (remove c s) ≡ others (c ∷ cs) s
unfolding remove
others-remove c cs [] = refl
others-remove c cs (d ∷ s) = ground (arith, others-remove c cs s)

remove_all-others : (cs s : Str) → remove_all cs s ≡ others cs s
unfolding remove_all
remove_all-others [] s = sym (others-nil s)
remove_all-others (c ∷ cs) s = remove_all-others cs (remove c s) ∙ others-remove c cs s

-- The name is what is left of the layer type when the eight characters are taken out, in one pass.
pub layertype_name-others : (type : Str) → layertype_name type ≡ others illegal_characters type
unfolding layertype_name
layertype_name-others type = remove_all-others illegal_characters type

is_among-others : (c : ℕ) (cs s : Str) → is_among c cs ≡ true → is_among c (others cs s) ≡ false
is_among-others c cs [] h = refl
is_among-others c cs (d ∷ s) h = ground (arith, is_among-others c cs s)

-- A layer type cannot lead out of the directory of the libraries: its name has no dot, no slash and no
-- backslash; but a colon, which stands behind the `\0` in the list of the illegal characters, stays
-- wherever it stands in the type.
pub layertype_name-IsSafe :
    (type rest : Str)
    → (is_among 46 (layertype_name type) ≡ false)
      × (is_among 47 (layertype_name type) ≡ false)
      × (is_among 92 (layertype_name type) ≡ false)
      × (is_among 58 (layertype_name (type ++ (58 ∷ rest))) ≡ true)
layertype_name-IsSafe type rest = (
  rw (layertype_name-others type) (is_among-others 46 illegal_characters type refl),
  rw (layertype_name-others type) (is_among-others 47 illegal_characters type refl),
  rw (layertype_name-others type) (is_among-others 92 illegal_characters type refl),
  rw (layertype_name-others (type ++ (58 ∷ rest))) (colon type),
)
  where
    colon : (s : Str) → is_among 58 (others illegal_characters (s ++ (58 ∷ rest))) ≡ true
    colon [] = refl
    colon (d ∷ s) = ground (arith, colon s)

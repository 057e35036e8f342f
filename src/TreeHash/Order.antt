-- ===== src/TreeHash/Order.antt =====
-- `operator<` of `std::string` is a strict total order.
use mapit.Base.{Str, [], ◌∷◌, true, false, ◌≡◌, refl, arith}
use mapit.TreeHash.{str_lt}

pub str_lt_irrefl : (s : Str) → str_lt s s ≡ false
unfolding str_lt
str_lt_irrefl [] = refl
str_lt_irrefl (a ∷ s) = ground (arith, str_lt_irrefl s)

pub str_lt_asymm : (s t : Str) → str_lt s t ≡ true → str_lt t s ≡ false
unfolding str_lt
str_lt_asymm [] [] h = refl
str_lt_asymm [] (b ∷ t) h = refl
str_lt_asymm (a ∷ s) [] h = ground arith
str_lt_asymm (a ∷ s) (b ∷ t) h = ground (arith, str_lt_asymm s t)

pub str_lt_trans : (s t u : Str) → str_lt s t ≡ true → str_lt t u ≡ true → str_lt s u ≡ true
unfolding str_lt
str_lt_trans [] [] u h k = k
str_lt_trans [] (b ∷ t) [] h k = ground arith
str_lt_trans [] (b ∷ t) (c ∷ u) h k = refl
str_lt_trans (a ∷ s) [] u h k = ground arith
str_lt_trans (a ∷ s) (b ∷ t) [] h k = ground arith
str_lt_trans (a ∷ s) (b ∷ t) (c ∷ u) h k = ground (arith, str_lt_trans s t u)

-- Two keys that `std::map` takes for equivalent are equal.
pub str_lt_connex : (s t : Str) → str_lt s t ≡ false → str_lt t s ≡ false → s ≡ t
unfolding str_lt
str_lt_connex [] [] h k = refl
str_lt_connex [] (b ∷ t) h k = ground arith
str_lt_connex (a ∷ s) [] h k = ground arith
str_lt_connex (a ∷ s) (b ∷ t) h k = ground (arith, str_lt_connex s t)

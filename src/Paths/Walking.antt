-- ===== src/Paths/Walking.antt =====
-- Invariants of `forEachPathSegment`.
use mapit.Base.{Str, List, [], ◌∷◌, Bool}
use mapit.Outcome.{if_both}
use mapit.Paths.{Segment, walk, segments, for_each_path_segment}

module _ {ℓ κ} {S : Type ℓ} (P : S → Type κ) (before after : Segment → S → Bool × S)
    (down : (g : Segment) (s : S) → P s → P (before g s).1)
    (up : (g : Segment) (s : S) → P s → P (after g s).1) where
  walk_inv : (gs : List Segment) (s : S) → P s → P (walk before after gs s).1
  unfolding walk
  walk_inv [] s h = h
  walk_inv (g ∷ gs) s h =
      let h₁ = down g s h in
      let h₂ = walk_inv gs (before g s).1 h₁ in
      if_both (λ (r : Bool × S). P r.1) (before g s).0 _ _
        (if_both (λ (r : Bool × S). P r.1) (walk before after gs (before g s).1).0 _ _ (up g _ h₂)
          h₂)
        h₁

  -- What both callbacks keep, the walk keeps.
  pub for_each_path_segment_inv :
      (path : Str) (s : S) → P s → P (for_each_path_segment before after path s).1
  unfolding for_each_path_segment
  for_each_path_segment_inv path s h = walk_inv (segments path) s h

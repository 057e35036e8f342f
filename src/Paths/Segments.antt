-- ===== src/Paths/Segments.antt =====
-- What `forEachPathSegment` visits on a prepared path.
use mapit.Base.{Str, ℕ, ◌+◌, true, false, List, [], ◌∷◌, ◌++◌, ◌==◌, length}
use mapit.Base.{◌≡◌, refl, ap, ◌∙◌, arith, append_assoc, append-nil}
use mapit.Paths.{slash, prepare_path, Segment, segments, segments_from}
use mapit.Paths.Canonical.{components, canonical, join, prepare_path-canonical}
use mapit.Paths.Names.{NoSlash, IsName, AreNames, components-AreNames}

-- One segment for each name, with the position behind its slash; only the last is marked.
unfoldable pub numbered : ℕ → List Str → List Segment
numbered pos [] = []
numbered pos (n ∷ []) = record { name = n; idx = pos + length n + 1; is_last = true } ∷ []
numbered pos (n ∷ m ∷ ns) =
    record { name = n; idx = pos + length n + 1; is_last = false }
    ∷ numbered (pos + length n + 1) (m ∷ ns)

name-NoSlash : (n : Str) → IsName n → NoSlash n
name-NoSlash [] h = tt
name-NoSlash (c ∷ n) h = h

-- What follows a name and its slash.
after_slash : Str → ℕ → Str → List Segment
after_slash n i [] = record { name = n; idx = i; is_last = true } ∷ []
after_slash n i (c ∷ r) = record { name = n; idx = i; is_last = false } ∷ segments_from (c ∷ r) [] i

at_slash :
    (seg : Str) (pos : ℕ) (rest : Str)
    → segments_from (slash ∷ rest) seg pos ≡ after_slash seg (pos + 1) rest
unfolding segments_from after_slash
at_slash seg pos [] = refl
at_slash seg pos (c ∷ r) = refl

in_name :
    (c : ℕ) (n rest seg : Str) (pos : ℕ)
    → (c == slash) ≡ false
    → segments_from ((c ∷ n) ++ slash ∷ rest) seg pos
      ≡ segments_from (n ++ slash ∷ rest) (seg ++ c ∷ []) (pos + 1)
unfolding segments_from
in_name c [] rest seg pos h = rw h
in_name c (d ∷ n) rest seg pos h = rw h

segments_from-name :
    (n seg rest : Str) (pos : ℕ)
    → NoSlash n
    → segments_from (n ++ slash ∷ rest) seg pos ≡ after_slash (seg ++ n) (pos + length n + 1) rest
segments_from-name [] seg rest pos h =
    at_slash seg pos rest ∙ rw append-nil (ap (λ i. after_slash seg i rest) (omega arith))
segments_from-name (c ∷ n) seg rest pos h =
    in_name c n rest seg pos h.0
    ∙ segments_from-name n (seg ++ c ∷ []) rest (pos + 1) h.1
    ∙ rw (append_assoc seg (c ∷ []) n) (ap (λ i. after_slash (seg ++ c ∷ n) i rest) (omega arith))

segments_from-join :
    (n : Str) (ns : List Str) (pos : ℕ)
    → AreNames (n ∷ ns)
    → segments_from (join (n ∷ ns)) [] pos ≡ numbered pos (n ∷ ns)
unfolding join numbered after_slash
segments_from-join n [] pos h = segments_from-name n [] [] pos (name-NoSlash n h.0)
segments_from-join n ([] ∷ ns) pos h = elim h.1.0 [ ]
segments_from-join n ((c ∷ m) ∷ ns) pos h =
    segments_from-name n [] (join ((c ∷ m) ∷ ns)) pos (name-NoSlash n h.0)
    ∙ ap (λ t. record { name = n; idx = pos + length n + 1; is_last = false } ∷ t)
        (segments_from-join (c ∷ m) ns (pos + length n + 1) h.1)

-- The segments of a prepared path: those of its names, or the empty one of the root.
unfoldable pub path_segments : List Str → List Segment
path_segments [] = record { name = []; idx = 1; is_last = true } ∷ []
path_segments (n ∷ ns) = numbered 0 (n ∷ ns)

pub segments-canonical : (cs : List Str) → AreNames cs → segments (canonical cs) ≡ path_segments cs
unfolding path_segments canonical segments
segments-canonical [] h = unfold segments_from in refl
segments-canonical (n ∷ ns) h = segments_from-join n ns 0 h

-- On a prepared path `forEachPathSegment` visits the names in order, each with the position behind
-- its slash, and marks the last; of the root it visits one empty segment.
pub segments-prepare_path :
    (c : ℕ) (r : Str) → segments (prepare_path (c ∷ r)) ≡ path_segments (components (c ∷ r))
segments-prepare_path c r =
    rw (prepare_path-canonical c r) (segments-canonical _ (components-AreNames (c ∷ r)))

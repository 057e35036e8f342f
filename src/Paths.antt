-- ===== src/Paths.antt =====
-- The path helpers of WorkspaceImpl (libs/core/src/versioning/workspaceimpl.cpp):
-- `preparePath`, `preparePathFilename` and the segments that `forEachPathSegment` visits.
pub mod Canonical
pub mod Filename
pub mod Names
pub mod Segments
pub mod Walking
use mapit.Base.{
  Str, codes, ℕ, zero, suc, ◌+◌, Bool, true, false, Option, none, some, List, [], ◌∷◌, ◌++◌,
}
use mapit.Base.{◌==◌, if◌then◌else◌, length}

-- '/'
abbrev pub slash : ℕ
slash = 47

-- `while(p[0] == '/') { if(p.length() == 1) return p; p = p.substr(1); }`.
-- The flag says that the function returned from inside the loop.
unfoldable pub strip_leading : Str → Bool × Str
strip_leading [] = (false, [])
strip_leading (c ∷ []) = (c == slash, c ∷ [])
strip_leading (c ∷ d ∷ r) =
    let rest = strip_leading (d ∷ r) in if c == slash then rest else (false, c ∷ d ∷ r)

-- `if(p.length() != 0 && p[p.length()-1] != '/') p += "/"`
unfoldable pub add_trailing : Str → Str
add_trailing [] = []
add_trailing (c ∷ []) = if c == slash then c ∷ [] else c ∷ slash ∷ []
add_trailing (c ∷ d ∷ r) = c ∷ add_trailing (d ∷ r)

-- One round of the loop below: `f = p.find("//")`, and `p.replace(f, 2, "/")` where it is found.
unfoldable pub replace_first : Str → Option Str
replace_first [] = none
replace_first (c ∷ []) = none
replace_first (c ∷ d ∷ r) =
    let rest = replace_first (d ∷ r) in
    if (c == slash)
    then (if (d == slash)
        then some (slash ∷ r)
        else elim rest [ none ↦ none | some t ↦ some (c ∷ t) ])
    else elim rest [ none ↦ none | some t ↦ some (c ∷ t) ]

-- `while (std::string::npos != f)`, on fuel.
unfoldable pub collapse : ℕ → Str → Str
collapse zero p = p
collapse (suc fuel) p = elim (replace_first p) [ none ↦ p | some q ↦ collapse fuel q ]

-- The rest of `preparePath` where the first loop did not return.
unfoldable pub finish : Bool × Str → Str
finish (true, p) = p
finish (false, p) = let q = add_trailing p in collapse (length q) q

-- The code asserts that the path is not empty; a build without assertions returns "" for "".
unfoldable pub prepare_path : Str → Str
unfolding strip_leading add_trailing replace_first collapse finish
prepare_path path = finish (strip_leading path)

-- `while(p[0] == '/') p = p.substr(1)`, where `p[0]` of an empty string is the terminator.
unfoldable pub drop_leading : Str → Str
drop_leading [] = []
drop_leading (c ∷ r) = let rest = drop_leading r in if c == slash then rest else c ∷ r

-- `while(p.length() != 0 && p[p.length()-1] == '/') p = p.substr(0, p.length()-1)`
unfoldable pub drop_trailing : Str → Str
drop_trailing [] = []
drop_trailing (c ∷ r) = elim (drop_trailing r) [
  | [] ↦ (if c == slash then [] else c ∷ [])
  | d ∷ t ↦ c ∷ d ∷ t
]

unfoldable pub prepare_path_filename : Str → Str
unfolding drop_leading drop_trailing
prepare_path_filename path = drop_trailing (drop_leading path)

-- What `forEachPathSegment` hands to its callbacks: the segment, `nextSlash + 1` and `isLast`.
pub record Segment : Type 0 where
  pub name : Str
  pub idx : ℕ
  pub is_last : Bool

-- `nextSlash == npos` ends the path, with `nextSlash + 1` wrapping around to 0; a slash at the last
-- position ends it too. `seg` holds the bytes since the last slash, and `pos` where the rest begins.
unfoldable pub segments_from : Str → Str → ℕ → List Segment
segments_from [] seg pos = record { name = seg; idx = 0; is_last = true } ∷ []
segments_from (c ∷ []) seg pos =
    if c == slash
    then record { name = seg; idx = pos + 1; is_last = true } ∷ []
    else record { name = seg ++ c ∷ []; idx = 0; is_last = true } ∷ []
segments_from (c ∷ d ∷ r) seg pos =
    let inside = segments_from (d ∷ r) (seg ++ c ∷ []) (pos + 1) in
    let next = segments_from (d ∷ r) [] (pos + 1) in
    if c == slash then record { name = seg; idx = pos + 1; is_last = false } ∷ next else inside

unfoldable pub segments : Str → List Segment
unfolding segments_from
segments path = segments_from path [] 0

-- `forEachPathSegment`: the callbacks share the state `S` that they capture by reference. `before`
-- runs on the way down, `after` on the way up, and the first `false` ends the walk.
module _ {ℓ} {S : Type ℓ} (before after : Segment → S → Bool × S) where
  unfoldable pub walk : List Segment → S → Bool × S
  walk [] s = (true, s)
  walk (g ∷ gs) s =
      let (go_on, s') = before g s in
      let (done, s'') = walk gs s' in
      if go_on then (if done then after g s'' else (false, s'')) else (false, s')

  unfoldable pub for_each_path_segment : Str → S → Bool × S
  unfolding segments walk
  for_each_path_segment path s = walk (segments path) s

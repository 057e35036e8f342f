-- ===== src/TreeHash.antt =====
-- libs/core/src/serialization/hash.h, and the `std::map` that it and the depth-first search sort
-- the references of a tree with.
pub mod Order
pub mod Reorder
use mapit.Base.{Str, codes, ℕ, List, [], ◌∷◌, ◌++◌, Bool, true, false, ◌&&◌, ◌||◌}
use mapit.Base.{if◌then◌else◌, ltb, ◌==◌}
use mapit.Messages.{ObjectReference, Refs, Tree, Entity, Commit, Codec}

-- `operator<` of `std::string`.
unfoldable pub str_lt : Str → Str → Bool
str_lt [] [] = false
str_lt [] (b ∷ t) = true
str_lt (a ∷ s) [] = false
str_lt (a ∷ s) (b ∷ t) = ltb a b || (a == b && str_lt s t)

-- `std::map::insert`: a key that is there keeps its value.
unfoldable pub sorted_insert : Str → ObjectReference → Refs → Refs
sorted_insert k v [] = (k, v) ∷ []
sorted_insert k v ((j, w) ∷ m) =
    if str_lt k j
    then (k, v) ∷ (j, w) ∷ m
    else if str_lt j k
    then (j, w) ∷ sorted_insert k v m
    else (j, w) ∷ m

-- The loop that fills the sorted map.
unfoldable pub sort_into : Refs → Refs → Refs
sort_into sorted [] = sorted
sort_into sorted ((k, v) ∷ refs) = sort_into (sorted_insert k v sorted) refs

unfoldable pub sort_refs : Refs → Refs
unfolding sort_into sorted_insert str_lt
sort_refs refs = sort_into [] refs

module _ (codec : Codec) where
  -- `manualSerializeAsString`
  unfoldable pub serialize_refs : Refs → Str
  serialize_refs [] = []
  serialize_refs ((k, v) ∷ refs) = k ++ (codec.serialize_reference v ++ (10 ∷ serialize_refs refs))

  unfoldable pub hash_tree : Tree → Str
  unfolding sort_refs serialize_refs
  hash_tree t = codec.sha256 (serialize_refs (sort_refs t.refs))

  -- The template, at the messages that have no map.
  unfoldable pub hash_entity : Entity → Str
  hash_entity e = codec.sha256 (codec.serialize_entity e)

  unfoldable pub hash_commit : Commit → Str
  hash_commit c = codec.sha256 (codec.serialize_commit c)

  unfoldable pub hash_string : Str → Str
  hash_string s = codec.sha256 s

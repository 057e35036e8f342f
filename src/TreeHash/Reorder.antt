-- ===== src/TreeHash/Reorder.antt =====
-- The hash of a tree does not depend on the order in which protobuf iterates over its map, and what
-- its text leaves ambiguous.
use mapit.Base.{Str, [], ◌∷◌, ◌++◌, true, ◌≡◌, ◌≢◌, refl, ap, ◌∙◌, arith, append_assoc}
use mapit.Messages.{ObjectReference, Refs, Codec}
use mapit.TreeHash.{str_lt, sorted_insert, sort_into, sort_refs, serialize_refs, hash_tree}
use mapit.TreeHash.Order.{str_lt_asymm, str_lt_trans, str_lt_connex}

-- Two iteration orders of one map: neighbours with different keys change places.
pub data Reorder : Refs → Refs → Type 0 where
  same : (m : Refs) → Reorder m m
  swap :
      (j k : Str) (v w : ObjectReference) (m : Refs)
      → j ≢ k
      → Reorder ((j, v) ∷ (k, w) ∷ m) ((k, w) ∷ (j, v) ∷ m)
  skip :
      (k : Str) (v : ObjectReference) {m n : Refs} → Reorder m n → Reorder ((k, v) ∷ m) ((k, v) ∷ n)
  join : {l m n : Refs} → Reorder l m → Reorder m n → Reorder l n

insert_swap :
    (j k : Str) (v w : ObjectReference) (m : Refs)
    → j ≢ k
    → sorted_insert k w (sorted_insert j v m) ≡ sorted_insert j v (sorted_insert k w m)
unfolding sorted_insert
insert_swap j k v w [] h = ground (arith, str_lt_asymm j k, str_lt_asymm k j, str_lt_connex j k)
insert_swap j k v w ((i, x) ∷ m) h = ground (
  arith,
  str_lt_asymm j k,
  str_lt_asymm k j,
  str_lt_connex j k,
  str_lt_connex i j,
  str_lt_connex i k,
  str_lt_asymm i j,
  str_lt_asymm i k,
  str_lt_trans i j k,
  str_lt_trans i k j,
  str_lt_trans j k i,
  str_lt_trans k j i,
  str_lt_trans j i k,
  str_lt_trans k i j,
  insert_swap j k v w m h,
)

sort_into-Reorder : (acc : Refs) {m n : Refs} → Reorder m n → sort_into acc m ≡ sort_into acc n
unfolding sort_into
sort_into-Reorder acc (same m) = refl
sort_into-Reorder acc (swap j k v w m h) = rw (insert_swap j k v w acc h)
sort_into-Reorder acc (skip k v r) = sort_into-Reorder (sorted_insert k v acc) r
sort_into-Reorder acc (join r s) = sort_into-Reorder acc r ∙ sort_into-Reorder acc s

pub sort_refs-Reorder : {m n : Refs} → Reorder m n → sort_refs m ≡ sort_refs n
unfolding sort_refs
sort_refs-Reorder r = sort_into-Reorder [] r

-- Trees whose maps have the same entries, in whatever iteration order, have the same object id.
pub hash_tree-Reorder :
    (codec : Codec) (m n : Refs)
    → Reorder m n
    → hash_tree codec (record { refs = m }) ≡ hash_tree codec (record { refs = n })
unfolding hash_tree
hash_tree-Reorder codec m n r =
    ap (λ s. codec.sha256 (serialize_refs codec s)) (sort_refs-Reorder r)

-- The name of the one entry whose text is that of two entries.
abbrev pub fused : Codec → Str → ObjectReference → Str → Str
fused codec j v k = j ++ (codec.serialize_reference v ++ (10 ∷ k))

sort_two :
    (j k : Str) (v w : ObjectReference)
    → str_lt j k ≡ true
    → sort_into [] ((j, v) ∷ (k, w) ∷ []) ≡ (j, v) ∷ (k, w) ∷ []
unfolding sort_into sorted_insert
sort_two j k v w h = ground (arith, str_lt_asymm j k h)

-- The hashed text has no delimiter between a name and its reference: a tree with two entries and a
-- tree with one, under the fused name, have the same object id, whatever the hash function is.
pub hash_tree-fused :
    (codec : Codec) (j k : Str) (v w : ObjectReference)
    → str_lt j k ≡ true
    → hash_tree codec (record { refs = (j, v) ∷ (k, w) ∷ [] })
      ≡ hash_tree codec (record { refs = (fused codec j v k, w) ∷ [] })
unfolding hash_tree
hash_tree-fused codec j k v w h =
    ap (λ s. codec.sha256 (serialize_refs codec s)) (sort_two j k v w h)
    ∙ ap codec.sha256 (simp append_assoc)

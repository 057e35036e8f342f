-- ===== src/Ancestors.antt =====
-- The history behind a commit, as libs/core/src/breadthFirstSearch.cpp and
-- libs/core/src/depthfirstsearch.cpp follow it.
use mapit.Base.{Str, List, ◌∷◌, some, Bool, ◌≡◌}
use mapit.Messages.{Commit, Codec}
use mapit.Serializer.Disk.{Disk}
use mapit.Serializer.Objects

-- An element of a list.
pub data Among {ℓ} {A : Type ℓ} (a : A) : List A → Type ℓ where
  first : {rest : List A} → Among a (a ∷ rest)
  later : {b : A} {rest : List A} → Among a rest → Among a (b ∷ rest)

-- The commits that are reached from `start` over the stored parents, each with its id.
pub data Ancestor (codec : Codec) (d : Disk) (start_id : Str) (start : Commit)
    : Str → Commit → Type 0 where
  itself : Ancestor codec d start_id start start_id start
  parent :
      {id parent_id : Str} {c p : Commit}
      → Ancestor codec d start_id start id c
      → Among parent_id c.parentcommitids
      → Objects.get_commit codec parent_id d ≡ some p
      → Ancestor codec d start_id start parent_id p

-- The callbacks for the commits of a history. They share and change the state that they capture.
pub record CommitVisitor {ℓ} (S : Type ℓ) : Type ℓ where
  pub before_commit : Commit → Str → S → Bool × S
  pub after_commit : Commit → Str → S → Bool × S

-- Both callbacks keep `P` at every commit of the history of `start`.
pub record KeepsAt {ℓ κ} {S : Type ℓ} (codec : Codec) (d : Disk) (start_id : Str) (start : Commit)
    (P : S → Type κ) (visitor : CommitVisitor S) : Type (ℓ ⊔ κ) where
  pub before :
      (c : Commit) (id : Str) (s : S)
      → Ancestor codec d start_id start id c
      → P s
      → P (visitor.before_commit c id s).1
  pub after :
      (c : Commit) (id : Str) (s : S)
      → Ancestor codec d start_id start id c
      → P s
      → P (visitor.after_commit c id s).1

-- ===== src/Messages.antt =====
-- The protobuf messages that the core reads and writes, with the fields that it uses. A `map` field
-- is the list of its entries in iteration order; an absent submessage is `none`.
use mapit.Base.{Str, ℕ, List, [], ◌∷◌, Option, none, some}
use mapit.Base.{if◌then◌else◌, str_eq}

-- A reference is to a stored object by its id, or to a transient one by its internal path.
pub record ObjectReference : Type 0 where
  pub id : Str
  pub path : Str

abbrev pub null_ref : ObjectReference
null_ref = record { id = []; path = [] }

abbrev pub Refs : Type 0
Refs = List (Str × ObjectReference)

pub record Tree : Type 0 where
  pub refs : Refs

abbrev pub new_tree : Tree
new_tree = record { refs = [] }

pub record Entity : Type 0 where
  pub type : Str
  pub dataid : Str
  pub frame_id : Str

pub record Time : Type 0 where
  pub sec : ℕ
  pub nsec : ℕ

pub record Commit : Type 0 where
  pub root : Option ObjectReference
  pub parentcommitids : List Str
  pub commitmessage : Str
  pub author : Str
  pub stamp : Time

abbrev pub new_commit : Commit
new_commit = record {
  root = none;
  parentcommitids = [];
  commitmessage = [];
  author = [];
  stamp = record { sec = 0; nsec = 0 };
}

-- `commit.root()`, which is the default instance where the field is absent.
abbrev pub root_of : Option ObjectReference → ObjectReference
root_of none = null_ref
root_of (some r) = r

pub record Branch : Type 0 where
  pub commitid : Str

pub record WorkspaceObj : Type 0 where
  pub rollingcommit : Commit
  pub transientoidstoorigin : List (Str × Str)

pub data MessageType : Type 0 where
  message_empty message_tree message_entity message_commit message_branch message_workspace :
      MessageType

-- What a `GenericEntry` carries beside its type.
pub data Content : Type 0 where
  nothing : Content
  of_tree : Tree → Content
  of_entity : Entity → Content
  of_commit : Commit → Content
  of_branch : Branch → Content
  of_workspace : WorkspaceObj → Content

pub record GenericEntry : Type 0 where
  pub type : MessageType
  pub content : Content

-- The functions of protobuf and of the SHA-256 code that the core calls.
pub record Codec : Type 0 where
  pub sha256 : Str → Str
  pub serialize_reference : ObjectReference → Str
  pub serialize_entity : Entity → Str
  pub serialize_commit : Commit → Str
  pub serialize_entry : GenericEntry → Str
  pub parse_entry : Str → GenericEntry

-- The operations of a protobuf map: `find`, `erase`, and `insert`, which keeps an entry that is there.
module _ {ℓ} {V : Type ℓ} where
  unfoldable pub lookup : Str → List (Str × V) → Option V
  lookup k [] = none
  lookup k ((j, v) ∷ m) = if str_eq j k then some v else lookup k m

  unfoldable pub erase : Str → List (Str × V) → List (Str × V)
  erase k [] = []
  erase k ((j, v) ∷ m) = let rest = erase k m in if str_eq j k then rest else (j, v) ∷ rest

  unfoldable pub insert : Str → V → List (Str × V) → List (Str × V)
  insert k v [] = (k, v) ∷ []
  insert k v ((j, w) ∷ m) = if str_eq j k then (j, w) ∷ m else (j, w) ∷ insert k v m

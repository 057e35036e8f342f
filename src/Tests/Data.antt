-- ===== src/Tests/Data.antt =====
-- A codec, objects and workspaces that the tests use.
use mapit.Base.{codes, [], ◌∷◌, ◌++◌}
use mapit.Messages.{Entity, new_commit, Codec, message_empty, nothing}
use mapit.Serializer.Disk.{empty_disk}
use mapit.Outcome.{Outcome, returned}
use mapit.Workspace.{Workspace}
use mapit.Workspace.Delete.{store_entity}

-- A hash that keeps its text, without slashes.
abbrev pub codec : Codec
codec = record {
  sha256 = λ s. 35 ∷ s;
  serialize_reference = λ r. r.id ++ (63 ∷ r.path);
  serialize_entity = λ e. e.type ++ (63 ∷ (e.dataid ++ (63 ∷ e.frame_id)));
  serialize_commit = λ c. c.commitmessage ++ c.author;
  serialize_entry = λ ge. [];
  parse_entry = λ s. record { type = message_empty; content = nothing };
}

abbrev pub cloud : Entity
cloud = record { type = codes "pc"; dataid = []; frame_id = codes "w" }

abbrev pub pose : Entity
pose = record { type = codes "tf"; dataid = []; frame_id = codes "m" }

abbrev pub fresh : Workspace
fresh = record {
  name = codes "ws";
  branchname = codes "master";
  obj = record { rollingcommit = new_commit; transientoidstoorigin = [] };
  disk = empty_disk;
}

-- The value of a call that returns one.
abbrev pub value_of {ℓ} : {A : Type ℓ} → A → Outcome A → A
value_of a (returned b) = b
value_of a o = a

-- The workspace with an entity `a`.
abbrev pub filled : Workspace
filled = (value_of (0, fresh) (store_entity codec (codes "a") cloud fresh)).1

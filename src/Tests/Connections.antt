-- ===== src/Tests/Connections.antt =====
-- A connection between a requester and a responder that the tests use, and the repository behind it.
use mapit.Base.{Str, ℕ, codes, [], ◌∷◌, none, some, true, ◌≡◌, refl}
use mapit.Serializer.Disk.{
  path_eq, objectid_to_workspace_fs_path, Disk, empty_disk, FsPath, raw, data_path, update,
}
use mapit.Outcome.{Outcome}
use mapit.Workspace.{Workspace}
use mapit.Workspace.Delete.{store_entity}
use mapit.Network.Exec.{ok}
use mapit.Network.Messages.{Kind, Msg, ask_hierarchy}
use mapit.Network.Node.{Key, Wire, at, key_from_desc}
use mapit.Network.Server.{Host}
use mapit.Network.Link.Steps.{Setup, IsWorking}
use mapit.Network.Link.Ranks.{rank}
use mapit.Network.Link.Registration.{IsWire, connected, connected-IsWorking}
use mapit.Tests.Data.{codec, cloud, value_of}
use mapit.Serializer.Objects
use mapit.Serializer.Transient
use mapit.Paths.Canonical.{components}
use mapit.Repository.{get_workspace, resolve, create_workspace, new_workspace_obj}

-- What goes over the connection keeps what it was made of.
pub data Part : Type 0 where
  header : Key → Part
  message : Msg → Part
  bytes : Str → Part

abbrev header_of : Part → Key
header_of (header k) = k
header_of p = (0, 0)

abbrev message_of : Part → Msg
message_of (message m) = m
message_of p = ask_hierarchy

abbrev bytes_in : Part → Str
bytes_in (bytes b) = b
bytes_in p = []

abbrev pub wire : Wire Part
wire = record {
  serialize_header = header;
  parse_header = header_of;
  serialize = message;
  parse = λ kind p. message_of p;
  from_bytes = bytes;
  to_bytes = bytes_in;
  descriptor =
      λ kind. record { comp_type = true; comp_id = some (at 7); msg_type = some (at (rank kind)) };
}

abbrev pub key : Kind → Key
key kind = (7, rank kind)

keyed : (k : Kind) → key_from_desc (wire.descriptor k) ≡ ok (key k)
unfolding key_from_desc
keyed Kind.request_workspace = refl
keyed Kind.request_entitydata = refl
keyed Kind.request_hierarchy = refl
keyed Kind.request_hierarchy_plain = refl
keyed Kind.request_list_workspaces = refl
keyed Kind.request_operator_execution = refl
keyed Kind.request_generic_entry = refl
keyed Kind.request_store_entity = refl
keyed Kind.request_delete_entity = refl
keyed Kind.request_delete_tree = refl
keyed Kind.reply_workspace = refl
keyed Kind.reply_entitydata = refl
keyed Kind.reply_hierarchy = refl
keyed Kind.reply_hierarchy_plain = refl
keyed Kind.reply_list_workspaces = refl
keyed Kind.reply_operator_execution = refl
keyed Kind.reply_generic_entry = refl
keyed Kind.reply_store_entity = refl
keyed Kind.reply_store_tree = refl
keyed Kind.reply_delete_entity = refl
keyed Kind.reply_delete_tree = refl

pub wire-IsWire : IsWire wire key
wire-IsWire = record {
  header = λ k. refl;
  body = λ m. refl;
  bytes = λ b. refl;
  keyed = keyed;
  own = λ j k. refl;
}

abbrev pub host : Host
host = record {
  codec = codec;
  loads = λ type. true;
  directories = λ d. some ((codes "ws", true) ∷ []);
  install_operators = [];
  debug = [];
  dlopen = λ name. none;
  fuel = 5;
}

abbrev pub up : Setup Part
up = connected wire key 9 host 80 (codes "tcp://localhost:80")

pub works : IsWorking up
works = connected-IsWorking wire key 9 host 80 (codes "tcp://localhost:80") wire-IsWire

-- The repository with a workspace `ws`, which holds an entity `a` with some data.
abbrev with_workspace : Disk
with_workspace =
    (create_workspace codec (codes "master") (codes "ws")
      (Objects.create_branch codec (record { commitid = [] }) (codes "master") empty_disk).1).1

abbrev empty_workspace : Workspace
empty_workspace = record {
  name = codes "ws";
  branchname = [];
  obj = new_workspace_obj codec [];
  disk = with_workspace;
}

abbrev with_entity : Workspace
with_entity =
    (value_of (0, empty_workspace) (store_entity codec (codes "a") cloud empty_workspace)).1

abbrev pub data_file : FsPath
data_file = data_path (codes "ws/a")

abbrev pub repository : Disk
repository = update with_entity.disk data_file (some (raw (codes "hello")))

abbrev pub opened : Workspace
opened = record with_entity { disk = repository }

-- A status, and a workspace whose files are as before.
abbrev pub left : Outcome (ℕ × Workspace) → ℕ × Workspace
left = value_of (0, opened)

pub opens : get_workspace codec (codes "ws") repository ≡ some opened
unfolding get_workspace resolve Transient.get_workspace_commit path_eq objectid_to_workspace_fs_path
    components store_entity create_workspace Objects.create_branch
opens = refl

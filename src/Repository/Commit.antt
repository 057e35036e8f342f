-- ===== src/Repository/Commit.antt =====
-- `commit` of libs/core/src/versioning/repositoryimpl.cpp: the objects of a workspace are stored, and then
-- a commit with their root.
use mapit.Base.{
  Str, codes, ℕ, List, [], ◌∷◌, ◌++◌, Option, none, some, Bool, true, false, ◌&&◌, ◌||◌, not, ◌+◌,
}
use mapit.Base.{if◌then◌else◌, str_eq, ◌==◌}
use mapit.Messages.{
  ObjectReference, null_ref, root_of, Refs, Tree, Entity, Commit, new_commit, WorkspaceObj, Codec,
  lookup, insert, message_empty,
}
use mapit.Paths.{slash, drop_trailing}
use mapit.Search.{Visitor, Source, all, depth_first_search, is_empty}
use mapit.Serializer.Disk.{Disk, split_slash, is_some}
use mapit.Serializer.Objects
use mapit.Serializer.Transient
use mapit.Workspace
use mapit.Workspace.{Workspace, get_root}
use mapit.Outcome.{Outcome, returned, thrown, running, ◌>>=◌}
use mapit.Time.{Stamp, to_msg}

-- What the callbacks of `commit` share: the disk, `oldPathsToNewOids` and `logStatsFileChanged`.
pub record Committing : Type 0 where
  pub disk : Disk
  pub old_paths_to_new_oids : List (Str × Str)
  pub files_changed : ℕ

-- `childPath.substr(childPath.find_first_of("/"), …)`, and no trailing slash.
unfoldable pub path_below : Str → Option Str
unfolding split_slash drop_trailing
path_below path = elim (split_slash path) [
  | none ↦ none
  | some (name, rest) ↦ some (drop_trailing rest)
]

-- `set_id(newId); clear_path()`. The assertions fail where the id is unknown or empty.
unfoldable pub new_reference : ObjectReference → Option Str → Outcome ObjectReference
new_reference ref none = thrown
new_reference ref (some id) =
    if is_empty id
    then thrown
    else if str_eq id ref.id
    then returned ref
    else returned (record { id = id; path = [] })

-- One reference of a tree: a stored one stays, a transient one gets the id of the new object.
unfoldable pub persist_reference : List (Str × Str) → ObjectReference → Outcome ObjectReference
unfolding path_below new_reference lookup
persist_reference oids ref =
    if is_empty ref.path
    then (if is_empty ref.id then thrown else returned ref)
    else elim (path_below ref.path) [
      | none ↦ thrown
      | some child ↦ new_reference ref (lookup child oids)
    ]

unfoldable pub persist_references : List (Str × Str) → Refs → Outcome Refs
unfolding persist_reference
persist_references oids [] = returned []
persist_references oids ((name, ref) ∷ refs) = do
  ref' ← persist_reference oids ref
  refs' ← persist_references oids refs
  returned ((name, ref') ∷ refs')

module _ (codec : Codec) (fuel : ℕ) where
  -- The callback after a tree.
  unfoldable pub commit_tree :
      Tree → ObjectReference → Str → Outcome Committing → Bool × Outcome Committing
  unfolding persist_references Objects.store_tree Transient.remove_tree_transient
  commit_tree t ref path o = (
    true,
    do
      s ← o
      refs ← persist_references s.old_paths_to_new_oids t.refs
      let ((status, oid), d) = Objects.store_tree codec (record { refs = refs }) s.disk
      returned (record s {
        disk = (Transient.remove_tree_transient ref.path d).1;
        old_paths_to_new_oids = insert path oid s.old_paths_to_new_oids;
      }),
  )

  -- `persistTransientEntitydata` where there is data, and the id that the entity gets.
  unfoldable pub commit_data : Entity → Str → Disk → Outcome (Bool × Entity × Disk)
  unfolding Transient.persist_transient_entitydata
  commit_data e path d = do
    ((status, id), d') ← Transient.persist_transient_entitydata codec fuel path d
    returned (
        if not (is_empty id) && not (str_eq e.dataid id)
        then (true, record e { dataid = id }, d')
        else (false, e, d'))

  -- The entity is stored if it is transient or has got new data.
  unfoldable pub commit_object :
      Bool → Entity → ObjectReference → Str → Committing → Disk → Committing
  unfolding Objects.store_entity Transient.remove_entity_transient
  commit_object false e ref path s d = record s {
    disk = d;
    old_paths_to_new_oids = insert path ref.id s.old_paths_to_new_oids;
  }
  commit_object true e ref path s d =
      let ((status, oid), d') = Objects.store_entity codec e d in
      record {
        disk = (Transient.remove_entity_transient ref.path d').1;
        old_paths_to_new_oids = insert path oid s.old_paths_to_new_oids;
        files_changed = s.files_changed + 1;
      }

  -- The callback after an entity.
  unfoldable pub commit_entity :
      Entity → ObjectReference → Str → Outcome Committing → Bool × Outcome Committing
  unfolding commit_data commit_object Transient.exists_stream_provider_transient
  commit_entity e ref path o = (
    true,
    do
      s ← o
      let transient = not (is_empty ref.path)
      let exists = transient && is_some (Transient.get_entity_transient codec ref.path s.disk)
      let has_data = transient && Transient.exists_stream_provider_transient ref.path s.disk
      (changed, e', d) ←
          (if has_data then commit_data e ref.path s.disk else returned (false, e, s.disk))
      returned (commit_object (exists || changed) e' ref path s d),
  )

  -- The search asks the workspace whose files are being committed.
  abbrev pub at_disk : Workspace → Committing → Workspace
  at_disk w s = record w { disk = s.disk }

  abbrev pub committed_source : Workspace → Source (Outcome Committing)
  committed_source w = record {
    type_of_object = λ key o. elim o [
      | returned s ↦ Workspace.type_of_object codec key (at_disk w s)
      | thrown ↦ message_empty
      | running ↦ message_empty
    ];
    get_tree = λ key o. elim o [
      | returned s ↦ Workspace.get_tree codec key (at_disk w s)
      | thrown ↦ none
      | running ↦ none
    ];
    get_entity = λ key o. elim o [
      | returned s ↦ Workspace.get_entity codec key (at_disk w s)
      | thrown ↦ none
      | running ↦ none
    ];
  }

  abbrev pub committer : Visitor (Outcome Committing)
  committer = record {
    before_tree = all;
    after_tree = commit_tree;
    before_entity = all;
    after_entity = commit_entity;
  }

  -- The search over the workspace. A status that is not ok is only logged.
  unfoldable pub commit_objects : Workspace → Outcome Committing
  unfolding depth_first_search commit_tree commit_entity get_root
  commit_objects w = do
    let start : Committing = record { disk = w.disk; old_paths_to_new_oids = []; files_changed = 0 }
    (status, o) ←
        depth_first_search committer (committed_source w) fuel (get_root codec w) null_ref
          (slash ∷ []) (returned start)
    o

  -- `if(msg.find_last_of('\n') != msg.length()-1) msg += "\n"`. Of the empty message both sides are
  -- `npos`.
  unfoldable pub end_line : Str → Str
  end_line [] = []
  end_line (c ∷ []) = if c == 10 then c ∷ [] else c ∷ 10 ∷ []
  end_line (c ∷ d ∷ r) = c ∷ end_line (d ∷ r)

  -- The root of the new commit: the new root tree, or what the workspace has.
  unfoldable pub new_root : Option Str → Option ObjectReference → Option ObjectReference
  new_root none old = old
  new_root (some id) old = some (record { id = id; path = [] })

  -- The commit that is stored.
  unfoldable pub new_commit_of : Workspace → Committing → Str → Str → Str → Stamp → Commit
  unfolding end_line new_root lookup to_msg
  new_commit_of w s msg author email stamp = record {
    root = new_root (lookup (slash ∷ []) s.old_paths_to_new_oids) w.obj.rollingcommit.root;
    parentcommitids = w.obj.rollingcommit.parentcommitids;
    commitmessage = end_line msg;
    author = author ++ (codes " <" ++ (email ++ codes ">"));
    stamp = to_msg stamp;
  }

  -- The workspace starts over from the new commit.
  abbrev pub next_obj : Str → Commit → WorkspaceObj
  next_obj ref_id c = record {
    rollingcommit = record new_commit {
      root = some (record { id = (root_of c.root).id; path = [] });
      parentcommitids = ref_id ∷ [];
    };
    transientoidstoorigin = [];
  }

  -- The code asserts that the commit can be read and that its root has no path.
  unfoldable pub restart : Str → Workspace → Option Commit → Disk → Outcome (Str × Workspace)
  unfolding Transient.store_workspace_commit
  restart ref_id w none d = thrown
  restart ref_id w (some c) d =
      let obj = next_obj ref_id c in
      let d' = (Transient.store_workspace_commit obj w.name d).1 in
      if is_empty (root_of c.root).path
      then returned (ref_id, record w { obj = obj; disk = d' })
      else thrown

  unfoldable pub commit : Workspace → Str → Str → Str → Stamp → Outcome (Str × Workspace)
  unfolding commit_objects new_commit_of restart Objects.create_commit Objects.get_commit
  commit w msg author email stamp = do
    s ← commit_objects w
    let ((status, ref_id), d) =
        Objects.create_commit codec (new_commit_of w s msg author email stamp) s.disk
    restart ref_id w (Objects.get_commit codec ref_id d) d

-- ===== src/Workspace.antt =====
-- WorkspaceImpl (libs/core/src/versioning/workspaceimpl.cpp, workspaceimpl.h) over FSSerializer: the
-- state of a workspace, and what it reads.
pub mod Walk
pub mod Create
pub mod Delete
pub mod Resolve
pub mod History
pub mod Operations
pub mod Files
pub mod Fresh
pub mod StoreFresh
pub mod Below
use mapit.Base.{Str, codes, ℕ, List, [], ◌∷◌, ◌++◌, Option, none, some, Bool, true, false, ◌&&◌}
use mapit.Base.{if◌then◌else◌, str_eq}
use mapit.Messages.{
  ObjectReference, null_ref, root_of, Refs, Tree, Entity, Branch, WorkspaceObj, MessageType, Codec,
  lookup, message_empty,
}
use mapit.Paths.{slash, prepare_path, prepare_path_filename, Segment, for_each_path_segment}
use mapit.Search.{is_empty, Source}
use mapit.Serializer.Disk.{Disk}
use mapit.Serializer.Objects
use mapit.Serializer.Transient
use mapit.Outcome.{Outcome, returned, thrown}

-- `m_name`, `m_branchname` and `m_workspace`, and the disk that the serializer works on.
pub record Workspace : Type 0 where
  pub name : Str
  pub branchname : Str
  pub obj : WorkspaceObj
  pub disk : Disk

-- `m_name + "/" + p`
abbrev pub internal : Str → Str → Str
internal name p = name ++ (slash ∷ p)

-- `rollingcommit().root()`
abbrev pub root_ref : Workspace → ObjectReference
root_ref w = root_of w.obj.rollingcommit.root

abbrev pub is_null : ObjectReference → Bool
is_null r = is_empty r.id && is_empty r.path

-- `objectReferenceOfChild`: an unset reference where the name is not found.
abbrev pub or_null : Option ObjectReference → ObjectReference
or_null none = null_ref
or_null (some r) = r

unfoldable pub object_reference_of_child : Tree → Str → ObjectReference
unfolding lookup
object_reference_of_child t name = or_null (lookup name t.refs)

-- What the callbacks of `objectReferenceForPath` share: `ref` and `current`.
pub record Cursor : Type 0 where
  pub ref : ObjectReference
  pub current : Option Tree

-- The callback that runs on the way up only fails an assertion.
abbrev pub never_up : Segment → Cursor → Bool × Cursor
never_up seg c = (false, c)

module _ (codec : Codec) where
  -- The overloads by reference: a transient object by its path, any other by its id.
  unfoldable pub get_tree_by_ref : ObjectReference → Disk → Option Tree
  get_tree_by_ref ref d =
      if is_empty ref.path
      then (if is_empty ref.id then none else Objects.get_tree codec ref.id d)
      else Transient.get_tree_transient codec ref.path d

  unfoldable pub get_root : Workspace → Option Tree
  unfolding get_tree_by_ref
  get_root w = get_tree_by_ref (root_ref w) w.disk

  -- The callback that runs on the way down; in a tree, and where there is none.
  unfoldable pub look_at : Disk → Tree → Segment → Cursor → Bool × Cursor
  unfolding get_tree_by_ref object_reference_of_child
  look_at d t seg c =
      let ref = object_reference_of_child t seg.name in
      if is_empty seg.name
      then (false, c)
      else if is_null ref
      then (false, record { ref = ref; current = some t })
      else if seg.is_last
      then (false, record { ref = ref; current = some t })
      else (true, record { ref = ref; current = get_tree_by_ref ref d })

  unfoldable pub look : Disk → Segment → Cursor → Bool × Cursor
  unfolding look_at
  look d seg c = elim c.current [ none ↦ (false, c) | some t ↦ look_at d t seg c ]

  unfoldable pub object_reference_for_path : Str → Workspace → ObjectReference
  unfolding prepare_path for_each_path_segment look get_tree_by_ref
  object_reference_for_path path w =
      let start : Cursor = record {
        ref = root_ref w;
        current = get_tree_by_ref (root_ref w) w.disk;
      } in
      if is_null (root_ref w)
      then null_ref
      else (for_each_path_segment (look w.disk) never_up (prepare_path path) start).1.ref

  -- A transient object first, then the repository by the reference of the path.
  by_reference {ℓ} : {A : Type ℓ} → (Str → Disk → Option A) → Workspace → ObjectReference → Option A
  by_reference get w ref = if is_empty ref.id then none else get ref.id w.disk

  unfoldable pub get_tree : Str → Workspace → Option Tree
  unfolding prepare_path object_reference_for_path by_reference
  get_tree path w =
      let p = prepare_path path in
      let stored = by_reference (Objects.get_tree codec) w (object_reference_for_path p w) in
      if is_empty p
      then none
      else elim (Transient.get_tree_transient codec (internal w.name p) w.disk) [
        | some t ↦ some t
        | none ↦ stored
      ]

  unfoldable pub get_entity : Str → Workspace → Option Entity
  unfolding prepare_path object_reference_for_path by_reference
  get_entity path w =
      let p = prepare_path path in
      let stored = by_reference (Objects.get_entity codec) w (object_reference_for_path p w) in
      if is_empty p
      then none
      else elim (Transient.get_entity_transient codec (internal w.name p) w.disk) [
        | some e ↦ some e
        | none ↦ stored
      ]

  abbrev pub is_message_empty : MessageType → Bool
  is_message_empty message_empty = true
  is_message_empty _ = false

  unfoldable pub type_of_object : Str → Workspace → MessageType
  unfolding prepare_path object_reference_for_path
  type_of_object path w =
      let p = prepare_path path in
      let type = Transient.type_of_object_transient codec (internal w.name p) w.disk in
      let ref = object_reference_for_path p w in
      if is_empty p
      then message_empty
      else if is_message_empty type
      then (if is_empty ref.id then message_empty else Objects.type_of_object codec ref.id w.disk)
      else type

  -- What the depth-first search asks a workspace for.
  abbrev pub source : Source Workspace
  source = record { type_of_object = type_of_object; get_tree = get_tree; get_entity = get_entity }

  -- `getEntity` and `typeOfObject` by reference. They fail an assertion on an unset reference.
  unfoldable pub get_entity_by_ref : ObjectReference → Disk → Outcome (Option Entity)
  unfolding Objects.get_entity Transient.get_entity_transient
  get_entity_by_ref ref d =
      if is_empty ref.path
      then (if is_empty ref.id then thrown else returned (Objects.get_entity codec ref.id d))
      else returned (Transient.get_entity_transient codec ref.path d)

  unfoldable pub type_of_object_by_ref : ObjectReference → Disk → Outcome MessageType
  unfolding Objects.type_of_object Transient.type_of_object_transient
  type_of_object_by_ref ref d =
      if is_empty ref.path
      then (if is_empty ref.id then thrown else returned (Objects.type_of_object codec ref.id d))
      else returned (Transient.type_of_object_transient codec ref.path d)

  -- `getParentBranch` and `getParentCommitIds`
  unfoldable pub get_parent_branch : Workspace → Option Branch
  unfolding Objects.get_branch
  get_parent_branch w =
      if is_empty w.branchname then none else Objects.get_branch codec w.branchname w.disk

abbrev pub get_parent_commit_ids : Workspace → List Str
get_parent_commit_ids w = w.obj.rollingcommit.parentcommitids

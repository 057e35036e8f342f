-- ===== src/Workspace/Delete.antt =====
-- Storing and deleting trees and entities: the callers of `createPath` in
-- libs/core/src/versioning/workspaceimpl.cpp, and the two instances of `deleteObject`.
use mapit.Base.{Str, ℕ, Option, none, some, Bool, true, false, if◌then◌else◌}
use mapit.Messages.{ObjectReference, null_ref, Tree, Entity, Codec, message_empty}
use mapit.Paths.{prepare_path}
use mapit.Search.{Visitor, Source, all, depth_first_search, is_empty}
use mapit.Serializer.Transient
use mapit.Workspace.{Workspace, internal, get_tree, get_entity, type_of_object}
use mapit.Workspace.Walk.{no_leaf, tree_leaf, entity_leaf, but_last}
use mapit.Workspace.Create.{create_path}
use mapit.Outcome.{Outcome, returned, thrown, running, ◌>>=◌}
use mapit.Status

-- `deleteObject<Entity>`; `createPath` does not read its status.
unfoldable pub delete_entity_object : Str → Workspace → Outcome Workspace
unfolding but_last Transient.remove_entity_transient
delete_entity_object path w = returned (record w {
  disk = (Transient.remove_entity_transient (internal w.name (but_last path)) w.disk).1;
})

module _ (codec : Codec) where
  -- `deleteEntity`: the status of `createPath` is dropped.
  unfoldable pub delete_entity : Str → Workspace → Outcome (ℕ × Workspace)
  unfolding create_path delete_entity_object prepare_path
  delete_entity path w =
      let deleted = create_path codec delete_entity_object path no_leaf true w >>= λ (status, w').
      returned (Status.ok, w') in
      if is_empty (prepare_path path)
      then (if is_empty path then thrown else returned (Status.error, w))
      else deleted

  -- The state of the search in `deleteObject<Tree>` is the workspace, or how a callback ended.
  unfoldable pub remove_tree :
      Tree → ObjectReference → Str → Outcome Workspace → Bool × Outcome Workspace
  unfolding prepare_path Transient.remove_tree_transient
  remove_tree t ref path (returned w) =
      let p = prepare_path path in
      let d = (Transient.remove_tree_transient (internal w.name p) w.disk).1 in
      if is_empty p then (false, returned w) else (true, returned (record w { disk = d }))
  remove_tree t ref path o = (false, o)

  unfoldable pub remove_entity :
      Entity → ObjectReference → Str → Outcome Workspace → Bool × Outcome Workspace
  unfolding delete_entity
  remove_entity e ref path (returned w) =
      (true, delete_entity path w >>= λ (status, w'). returned w')
  remove_entity e ref path o = (false, o)

  abbrev pub remover : Visitor (Outcome Workspace)
  remover = record {
    before_tree = all;
    after_tree = remove_tree;
    before_entity = all;
    after_entity = remove_entity;
  }

  -- The questions of the search, to a workspace that is still there.
  abbrev pub remaining : Source (Outcome Workspace)
  remaining = record {
    type_of_object = λ key o. elim o [
      | returned w ↦ type_of_object codec key w
      | thrown ↦ message_empty
      | running ↦ message_empty
    ];
    get_tree =
        λ key o. elim o [ returned w ↦ get_tree codec key w | thrown ↦ none | running ↦ none ];
    get_entity =
        λ key o. elim o [ returned w ↦ get_entity codec key w | thrown ↦ none | running ↦ none ];
  }

  -- `deleteObject<Tree>`, with fuel for the depth of the search.
  unfoldable pub delete_tree_object : ℕ → Str → Workspace → Outcome Workspace
  unfolding remove_tree remove_entity depth_first_search get_tree get_entity type_of_object
  delete_tree_object fuel path w =
      depth_first_search remover remaining fuel (get_tree codec path w) null_ref path (returned w)
      >>= λ (status, o). o

  -- `deleteTree`
  unfoldable pub delete_tree : ℕ → Str → Workspace → Outcome (ℕ × Workspace)
  unfolding create_path delete_tree_object prepare_path
  delete_tree fuel path w =
      let deleted =
        create_path codec (delete_tree_object fuel) path no_leaf true w >>= λ (status, w').
        returned (Status.ok, w') in
      if is_empty (prepare_path path)
      then (if is_empty path then thrown else returned (Status.error, w))
      else deleted

  -- `storeEntity` and `storeTree`. Neither deletes, so `deleteObject` is not called.
  unfoldable pub store_entity : Str → Entity → Workspace → Outcome (ℕ × Workspace)
  unfolding create_path delete_entity_object
  store_entity path e w = create_path codec delete_entity_object path (entity_leaf e) false w

  unfoldable pub store_tree : ℕ → Str → Option Tree → Workspace → Outcome (ℕ × Workspace)
  unfolding create_path delete_tree_object
  store_tree fuel path none w = create_path codec (delete_tree_object fuel) path no_leaf false w
  store_tree fuel path (some t) w =
      create_path codec (delete_tree_object fuel) path (tree_leaf t) false w

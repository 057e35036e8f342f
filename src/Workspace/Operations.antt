-- ===== src/Workspace/Operations.antt =====
-- The operations of a workspace keep the history.
use mapit.Base.{Str, ℕ, Option, none, some, Bool, true, false}
use mapit.Messages.{ObjectReference, null_ref, Tree, Entity, Codec}
use mapit.Paths.{prepare_path}
use mapit.Outcome.{Outcome, returned, thrown, running, Ends, Ends-bind, Ends-map, if_both}
use mapit.Search.{is_empty}
use mapit.Search.Invariant.{depth_first_search-keeps}
use mapit.Serializer.Disk.{Disk}
use mapit.Serializer.Steps.{here, next, no_entity, no_tree}
use mapit.Serializer.History.{Preserves, history_immutable}
use mapit.Workspace.{Workspace, internal, get_tree}
use mapit.Workspace.Walk.{no_leaf, tree_leaf, entity_leaf, but_last}
use mapit.Workspace.Delete.{
  delete_entity_object, delete_entity, remove_tree, remove_entity, remover, remaining,
  delete_tree_object, delete_tree, store_entity, store_tree,
}
use mapit.Status
use mapit.Workspace.History.{Moved, MovedTo, create_path-Moved}

module _ (codec : Codec) (origin : Disk) where
  delete_entity_object-Moved :
      (path : Str) (w : Workspace)
      → Moved codec origin w
      → Ends (Moved codec origin) (delete_entity_object path w)
  unfolding delete_entity_object
  delete_entity_object-Moved path w h = next h (no_entity (internal w.name (but_last path)) w.disk)

  pub delete_entity-Moved :
      (path : Str) (w : Workspace)
      → Moved codec origin w
      → Ends (MovedTo codec origin) (delete_entity codec path w)
  unfolding delete_entity
  delete_entity-Moved path w h =
      if_both (Ends (MovedTo codec origin)) (is_empty (prepare_path path)) _ _
        (if_both (Ends (MovedTo codec origin)) (is_empty path) thrown (returned (Status.error, w))
          tt h)
        (Ends-bind (MovedTo codec origin) (MovedTo codec origin) _ _
          (create_path-Moved codec origin delete_entity_object delete_entity_object-Moved path
            no_leaf true w h)
          (λ (n, w') k. k))

  abbrev Going : Outcome Workspace → Type 0
  Going = Ends (Moved codec origin)

  remove_tree-Going :
      (t : Tree) (ref : ObjectReference) (path : Str) (o : Outcome Workspace)
      → Going o
      → Going (remove_tree codec t ref path o).1
  unfolding remove_tree
  remove_tree-Going t ref path (returned w) h =
      if_both (λ (r : Bool × Outcome Workspace). Going r.1) (is_empty (prepare_path path)) _ _ h
        (next h (no_tree (internal w.name (prepare_path path)) w.disk))
  remove_tree-Going t ref path thrown h = h
  remove_tree-Going t ref path running h = h

  remove_entity-Going :
      (e : Entity) (ref : ObjectReference) (path : Str) (o : Outcome Workspace)
      → Going o
      → Going (remove_entity codec e ref path o).1
  unfolding remove_entity
  remove_entity-Going e ref path (returned w) h =
      Ends-bind (MovedTo codec origin) (Moved codec origin) _ _ (delete_entity-Moved path w h)
        (λ (n, w') k. k)
  remove_entity-Going e ref path thrown h = h
  remove_entity-Going e ref path running h = h

  delete_tree_object-Moved :
      (fuel : ℕ) (path : Str) (w : Workspace)
      → Moved codec origin w
      → Ends (Moved codec origin) (delete_tree_object codec fuel path w)
  unfolding delete_tree_object
  delete_tree_object-Moved fuel path w h =
      Ends-bind (λ r. Going r.1) (Moved codec origin) _ _
        (depth_first_search-keeps Going (remover codec) (remaining codec)
          (record {
            before_tree = λ t r p s k. k;
            after_tree = remove_tree-Going;
            before_entity = λ e r p s k. k;
            after_entity = remove_entity-Going;
          })
          fuel (get_tree codec path w) null_ref path (returned w) h)
        (λ (n, o) k. k)

  pub delete_tree-Moved :
      (fuel : ℕ) (path : Str) (w : Workspace)
      → Moved codec origin w
      → Ends (MovedTo codec origin) (delete_tree codec fuel path w)
  unfolding delete_tree
  delete_tree-Moved fuel path w h =
      if_both (Ends (MovedTo codec origin)) (is_empty (prepare_path path)) _ _
        (if_both (Ends (MovedTo codec origin)) (is_empty path) thrown (returned (Status.error, w))
          tt h)
        (Ends-bind (MovedTo codec origin) (MovedTo codec origin) _ _
          (create_path-Moved codec origin (delete_tree_object codec fuel)
            (delete_tree_object-Moved fuel) path no_leaf true w h)
          (λ (n, w') k. k))

  pub store_entity-Moved :
      (path : Str) (e : Entity) (w : Workspace)
      → Moved codec origin w
      → Ends (MovedTo codec origin) (store_entity codec path e w)
  unfolding store_entity
  store_entity-Moved path e w h =
      create_path-Moved codec origin delete_entity_object delete_entity_object-Moved path
        (entity_leaf e) false w h

  store_tree-Moved :
      (fuel : ℕ) (path : Str) (o : Option Tree) (w : Workspace)
      → Moved codec origin w
      → Ends (MovedTo codec origin) (store_tree codec fuel path o w)
  unfolding store_tree
  store_tree-Moved fuel path none w h =
      create_path-Moved codec origin (delete_tree_object codec fuel) (delete_tree_object-Moved fuel)
        path no_leaf false w h
  store_tree-Moved fuel path (some t) w h =
      create_path-Moved codec origin (delete_tree_object codec fuel) (delete_tree_object-Moved fuel)
        path (tree_leaf t) false w h

-- Storing and deleting in a workspace, at whatever path and wherever it ends with a value, leaves
-- every stored tree, entity, commit and branch as it was.
pub workspace_keeps_history :
    (codec : Codec) (fuel : ℕ) (path : Str) (e : Entity) (o : Option Tree) (w : Workspace)
    → Ends (λ r. Preserves codec w.disk r.1.disk) (store_entity codec path e w)
      × Ends (λ r. Preserves codec w.disk r.1.disk) (store_tree codec fuel path o w)
      × Ends (λ r. Preserves codec w.disk r.1.disk) (delete_entity codec path w)
      × Ends (λ r. Preserves codec w.disk r.1.disk) (delete_tree codec fuel path w)
workspace_keeps_history codec fuel path e o w = (
  kept _ (store_entity-Moved codec w.disk path e w here),
  kept _ (store_tree-Moved codec w.disk fuel path o w here),
  kept _ (delete_entity-Moved codec w.disk path w here),
  kept _ (delete_tree-Moved codec w.disk fuel path w here),
)
  where
    kept :
        (x : Outcome (ℕ × Workspace))
        → Ends (MovedTo codec w.disk) x
        → Ends (λ (r : ℕ × Workspace). Preserves codec w.disk r.1.disk) x
    kept x = Ends-map (MovedTo codec w.disk) _ x (λ r. history_immutable codec)

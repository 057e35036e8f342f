-- ===== src/Workspace/Create.antt =====
-- `createPath` of libs/core/src/versioning/workspaceimpl.h: the objects on a path are made transient,
-- and its last one is created, overwritten or taken out.
use mapit.Base.{Str, ℕ, [], ◌∷◌, Option, none, some, Bool, true, false, ◌&&◌, not, if◌then◌else◌}
use mapit.Messages.{ObjectReference, Tree, new_tree, Codec}
use mapit.Paths.{prepare_path, Segment, for_each_path_segment}
use mapit.Search.{is_empty}
use mapit.Serializer.Objects
use mapit.Serializer.Transient
use mapit.Workspace.{Workspace, root_ref, is_null, object_reference_of_child}
use mapit.Workspace.Walk.{
  Leaf, Walk, take, start, start_at, hook_root, root_missing, root_not_transient, internal_at,
  wants_tree, with_origin, enter, put_leaf, at_missing, in_workspace, after, close,
}
use mapit.Outcome.{Outcome, returned, thrown, running, ◌>>=◌}

module _ (codec : Codec) where
  -- Step 1: the root is created, copied from the repository, or read where it is transient.
  unfoldable pub open_root : Workspace → Outcome Walk
  unfolding root_missing root_not_transient
  open_root w =
      if root_missing w
      then returned (start (hook_root [] w) new_tree)
      else if root_not_transient w
      then start_at (hook_root (root_ref w).id w) (Objects.get_tree codec (root_ref w).id w.disk)
      else start_at w (Transient.get_tree_transient codec (root_ref w).path w.disk)

  -- Cases 9, 5 and 6: the object is stored in the repository, and is copied.
  unfoldable pub at_stored :
      Str → Leaf → Bool → ObjectReference → Segment → Walk → Bool × Outcome Walk
  unfolding put_leaf enter
  at_stored p leaf delete_leaf ref seg s =
      if seg.is_last && delete_leaf
      then (true, returned s)
      else if wants_tree leaf seg
      then enter (Objects.get_tree codec ref.id s.workspace.disk) s
          (with_origin (internal_at p seg s) ref.id s)
      else put_leaf leaf (internal_at p seg s) (with_origin (internal_at p seg s) ref.id s)

  module _ (delete_object : Str → Workspace → Outcome Workspace) (p : Str) (leaf : Leaf)
      (delete_leaf : Bool) where
    -- Cases 8, 3 and 4: the object is transient.
    unfoldable pub at_transient : ObjectReference → Segment → Walk → Bool × Outcome Walk
    unfolding put_leaf enter
    at_transient ref seg s =
        if seg.is_last && delete_leaf
        then in_workspace s (delete_object (take seg.idx p) s.workspace)
        else if wants_tree leaf seg
        then enter (Transient.get_tree_transient codec ref.path s.workspace.disk) s s
        else put_leaf leaf (internal_at p seg s) (with_origin (internal_at p seg s) [] s)

    unfoldable pub at_reference : ObjectReference → Segment → Walk → Bool × Outcome Walk
    unfolding at_missing at_transient at_stored
    at_reference ref seg s =
        if is_null ref
        then at_missing p leaf delete_leaf seg s
        else if is_empty ref.id && not (is_empty ref.path)
        then at_transient ref seg s
        else at_stored p leaf delete_leaf ref seg s

    -- A segment below what is no tree, or an empty one, ends the walk.
    unfoldable pub below : Option Tree → Segment → Walk → Bool × Outcome Walk
    unfolding at_reference object_reference_of_child
    below none seg s = (false, returned s)
    below (some t) seg s =
        if is_empty seg.name
        then (false, returned s)
        else at_reference (object_reference_of_child t seg.name) seg s

    -- The callback on the way down.
    unfoldable pub before : Segment → Outcome Walk → Bool × Outcome Walk
    unfolding below
    before seg (returned s) = below s.current seg s
    before seg thrown = (false, thrown)
    before seg running = (false, running)

  -- Step 2. The result of the walk is not looked at. The code asserts that the path is not empty.
  unfoldable pub create_path :
      (Str → Workspace → Outcome Workspace)
      → Str
      → Leaf
      → Bool
      → Workspace
      → Outcome (ℕ × Workspace)
  unfolding open_root before after close prepare_path for_each_path_segment
  create_path delete_object [] leaf delete_leaf w = thrown
  create_path delete_object (c ∷ path) leaf delete_leaf w =
      let p = prepare_path (c ∷ path) in
      open_root w >>= λ s.
      close
        (for_each_path_segment (before delete_object p leaf delete_leaf) (after p delete_leaf) p
          (returned s)).1

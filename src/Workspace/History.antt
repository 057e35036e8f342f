-- ===== src/Workspace/History.antt =====
-- What a workspace does to the disk is a sequence of the serializer's operations: no operation of a
-- workspace changes the history.
use mapit.Base.{Str, ℕ, List, [], ◌∷◌, Option, none, some, Bool, true, false, if◌then◌else◌}
use mapit.Messages.{ObjectReference, Tree, Codec}
use mapit.Paths.{Segment, prepare_path}
use mapit.Paths.Walking.{for_each_path_segment_inv}
use mapit.Outcome.{Outcome, returned, thrown, running, Ends, Ends-bind, if_both}
use mapit.Serializer.Disk.{Disk}
use mapit.Serializer.Steps.{Reach, next, tree_transient, entity_transient, workspace}
use mapit.Workspace.{Workspace, internal}
use mapit.Workspace.Walk.{
  Leaf, no_leaf, tree_leaf, entity_leaf, Walk, start_at, store_object, enter, put_leaf, track,
  at_missing, hook_parent, store_back, up, after, close_root, close, in_workspace, internal_at,
  but_last,
}
use mapit.Workspace.Create.{
  open_root, at_transient, at_stored, at_reference, below, before, create_path,
}

module _ (codec : Codec) (origin : Disk) where
  abbrev pub Moved : Workspace → Type 0
  Moved w = Reach codec origin w.disk

  -- What the walk keeps. Records, so that the branches of a test can be proved one by one.
  record Held (o : Outcome Walk) : Type 0 where
    holds : Ends (λ s. Moved s.workspace) o

  record HeldBy (r : Bool × Outcome Walk) : Type 0 where
    holds : Ends (λ s. Moved s.workspace) r.1

  Held-returned : (s : Walk) → Moved s.workspace → Held (returned s)
  Held-returned s h = record { holds = h }

  HeldBy-returned : (b : Bool) (s : Walk) → Moved s.workspace → HeldBy (b, returned s)
  HeldBy-returned b s h = record { holds = h }

  Held-if : (b : Bool) (x y : Outcome Walk) → Held x → Held y → Held (if b then x else y)
  Held-if b x y = if_both Held b x y

  HeldBy-if :
      (b : Bool) (x y : Bool × Outcome Walk) → HeldBy x → HeldBy y → HeldBy (if b then x else y)
  HeldBy-if b x y = if_both HeldBy b x y

  store_object-Moved :
      (leaf : Leaf) (path : Str) (w : Workspace) → Moved w → Moved (store_object leaf path w).1
  unfolding store_object
  store_object-Moved no_leaf path w h = h
  store_object-Moved (tree_leaf t) path w h = next h (tree_transient t path w.disk)
  store_object-Moved (entity_leaf e) path w h = next h (entity_transient e (but_last path) w.disk)

  enter-HeldBy :
      (o : Option Tree) (failed s : Walk)
      → Moved failed.workspace
      → Moved s.workspace
      → HeldBy (enter o failed s)
  unfolding enter
  enter-HeldBy none failed s h k = record { holds = h }
  enter-HeldBy (some t) failed s h k = record { holds = k }

  track-HeldBy : (r : Bool × Outcome Walk) → HeldBy r → HeldBy (track r)
  unfolding track
  track-HeldBy (true, returned s) h = record { holds = h.holds }
  track-HeldBy (true, thrown) h = record { holds = h.holds }
  track-HeldBy (true, running) h = record { holds = h.holds }
  track-HeldBy (false, o) h = record { holds = h.holds }

  in_workspace-HeldBy :
      (s : Walk) (o : Outcome Workspace) → Ends Moved o → HeldBy (in_workspace s o)
  in_workspace-HeldBy s (returned w) h = record { holds = h }
  in_workspace-HeldBy s thrown h = record { holds = h }
  in_workspace-HeldBy s running h = record { holds = h }

  put_leaf-HeldBy :
      (leaf : Leaf) (path : Str) (s : Walk) → Moved s.workspace → HeldBy (put_leaf leaf path s)
  unfolding put_leaf
  put_leaf-HeldBy leaf path s h =
      search (HeldBy-if, HeldBy-returned, store_object-Moved leaf path s.workspace h)

  at_missing-HeldBy :
      (p : Str) (leaf : Leaf) (b : Bool) (seg : Segment) (s : Walk)
      → Moved s.workspace
      → HeldBy (at_missing p leaf b seg s)
  unfolding at_missing
  at_missing-HeldBy p leaf b seg s h =
      search (HeldBy-if, HeldBy-returned, track-HeldBy, put_leaf-HeldBy)

  at_stored-HeldBy :
      (p : Str) (leaf : Leaf) (b : Bool) (ref : ObjectReference) (seg : Segment) (s : Walk)
      → Moved s.workspace
      → HeldBy (at_stored codec p leaf b ref seg s)
  unfolding at_stored
  at_stored-HeldBy p leaf b ref seg s h =
      search (HeldBy-if, HeldBy-returned, enter-HeldBy, put_leaf-HeldBy)

  hook_parent-HeldBy :
      (path : Option Str) (seg : Segment) (s : Walk) (ts : List Tree)
      → Moved s.workspace
      → HeldBy (hook_parent path seg s ts)
  unfolding hook_parent
  hook_parent-HeldBy path seg s [] h = record { holds = h }
  hook_parent-HeldBy path seg s (t ∷ ts) h = record { holds = h }

  store_back-HeldBy :
      (p : Str) (seg : Segment) (s : Walk) (ts : List Tree)
      → Moved s.workspace
      → HeldBy (store_back p seg s ts)
  unfolding store_back
  store_back-HeldBy p seg s [] h = record { holds = tt }
  store_back-HeldBy p seg s (t ∷ ts) h =
      hook_parent-HeldBy (some (internal_at p seg s)) seg _ ts
        (next h (tree_transient t (internal_at p seg s) s.workspace.disk))

  after-HeldBy :
      (p : Str) (b : Bool) (seg : Segment) (o : Outcome Walk) → Held o → HeldBy (after p b seg o)
  unfolding after up
  after-HeldBy p b seg (returned s) k =
      let h = k.holds in search (HeldBy-if, hook_parent-HeldBy, store_back-HeldBy)
  after-HeldBy p b seg thrown h = record { holds = tt }
  after-HeldBy p b seg running h = record { holds = tt }

  abbrev pub MovedTo : ℕ × Workspace → Type 0
  MovedTo r = Moved r.1

  close_root-Moved :
      (s : Walk) (ts : List Tree) → Moved s.workspace → Ends MovedTo (close_root s ts)
  unfolding close_root
  close_root-Moved s [] h = tt
  close_root-Moved s (t ∷ ts) h =
      next (next h (tree_transient t (internal s.workspace.name []) s.workspace.disk))
        (workspace s.workspace.obj s.workspace.name _)

  start_at-Held : (w : Workspace) (o : Option Tree) → Moved w → Held (start_at w o)
  start_at-Held w none h = record { holds = tt }
  start_at-Held w (some t) h = record { holds = h }

  open_root-Held : (w : Workspace) → Moved w → Held (open_root codec w)
  unfolding open_root
  open_root-Held w h = search (Held-if, Held-returned, start_at-Held)

  module _ (delete_object : Str → Workspace → Outcome Workspace)
      (deletes : (path : Str) (w : Workspace) → Moved w → Ends Moved (delete_object path w)) where
    at_transient-HeldBy :
        (p : Str) (leaf : Leaf) (b : Bool) (ref : ObjectReference) (seg : Segment) (s : Walk)
        → Moved s.workspace
        → HeldBy (at_transient codec delete_object p leaf b ref seg s)
    unfolding at_transient
    at_transient-HeldBy p leaf b ref seg s h =
        search (HeldBy-if, in_workspace-HeldBy, deletes, enter-HeldBy, put_leaf-HeldBy)

    below-HeldBy :
        (p : Str) (leaf : Leaf) (b : Bool) (o : Option Tree) (seg : Segment) (s : Walk)
        → Moved s.workspace
        → HeldBy (below codec delete_object p leaf b o seg s)
    unfolding below at_reference
    below-HeldBy p leaf b none seg s h = record { holds = h }
    below-HeldBy p leaf b (some t) seg s h =
        search
          (HeldBy-if, HeldBy-returned, at_missing-HeldBy, at_transient-HeldBy, at_stored-HeldBy)

    before-HeldBy :
        (p : Str) (leaf : Leaf) (b : Bool) (seg : Segment) (o : Outcome Walk)
        → Held o
        → HeldBy (before codec delete_object p leaf b seg o)
    unfolding before
    before-HeldBy p leaf b seg (returned s) h = below-HeldBy p leaf b s.current seg s h.holds
    before-HeldBy p leaf b seg thrown h = record { holds = tt }
    before-HeldBy p leaf b seg running h = record { holds = tt }

    pub create_path-Moved :
        (path : Str) (leaf : Leaf) (b : Bool) (w : Workspace)
        → Moved w
        → Ends MovedTo (create_path codec delete_object path leaf b w)
    unfolding create_path close
    create_path-Moved [] leaf b w h = tt
    create_path-Moved (c ∷ path) leaf b w h =
        let p = prepare_path (c ∷ path) in
        Ends-bind (λ s. Moved s.workspace) MovedTo (open_root codec w) _ (open_root-Held w h).holds
          λ s k.
            Ends-bind (λ s. Moved s.workspace) MovedTo _ _
              (for_each_path_segment_inv Held (before codec delete_object p leaf b) (after p b)
                (λ g o x. record { holds = (before-HeldBy p leaf b g o x).holds })
                (λ g o x. record { holds = (after-HeldBy p b g o x).holds }) p (returned s)
                (record { holds = k })).holds
              λ s' k'. close_root-Moved s' s'.transient_tree_path k'

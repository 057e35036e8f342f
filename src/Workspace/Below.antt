-- ===== src/Workspace/Below.antt =====
-- Storing below an entity: `createPath` of libs/core/src/versioning/workspaceimpl.h.
use mapit.Base.{Str, ℕ, List, [], ◌∷◌, none, some, false, ◌≡◌, refl, ◌∙◌, ap}
use mapit.Messages.{ObjectReference, Tree, Entity, Codec}
use mapit.Paths.{prepare_path, for_each_path_segment, walk}
use mapit.Paths.Canonical.{components}
use mapit.Paths.Segments.{numbered, path_segments, segments-prepare_path}
use mapit.Outcome.{returned}
use mapit.Serializer.Transient
use mapit.Workspace.{Workspace, internal, root_ref, object_reference_of_child}
use mapit.Workspace.Walk.{
  entity_leaf, enter, push, start, root_missing, root_not_transient, close, close_root, after,
}
use mapit.Workspace.Create.{before, below, at_reference, at_transient, create_path, open_root}
use mapit.Workspace.Delete.{delete_entity_object, store_entity}
use mapit.Status

-- A reference to a transient object.
abbrev pub transient_at : ℕ → Str → ObjectReference
transient_at c path = record { id = []; path = c ∷ path }

module _ (codec : Codec) (p : Str) (e : Entity) (i : ℕ) (n : Str) (j : ℕ) (k m : Str)
    (ns : List Str) (w : Workspace) (t u : Tree) (b : ℕ) (q : Str) (c : ℕ) (r : Str) where
  walk-stops :
      object_reference_of_child t (i ∷ n) ≡ transient_at b q
      → Transient.get_tree_transient codec (b ∷ q) w.disk ≡ some u
      → object_reference_of_child u (j ∷ k) ≡ transient_at c r
      → Transient.get_tree_transient codec (c ∷ r) w.disk ≡ none
      → walk
          (before codec delete_entity_object p (entity_leaf e) false)
          (after p false)
          (path_segments ((i ∷ n) ∷ (j ∷ k) ∷ m ∷ ns))
          (returned (start w t))
        ≡ (false, returned (push u (start w t)))
  unfolding path_segments numbered walk before below at_reference at_transient enter
  walk-stops h g h' g' = rw (h, g, h', g') refl

opens :
    (codec : Codec) (w : Workspace) (id : Str) (t : Tree) (o : ℕ) (root : Str)
    → root_ref w ≡ record { id = id; path = o ∷ root }
    → Transient.get_tree_transient codec (o ∷ root) w.disk ≡ some t
    → open_root codec w ≡ returned (start w t)
unfolding open_root root_missing root_not_transient
opens codec w [] t o root h g = rw (h, g) refl
opens codec w (x ∷ id) t o root h g = rw (h, g) refl

-- An entity that is stored below another entity, which stands in a directory of the root, with all three transient, is
-- not stored, although the call succeeds: it only writes the directory over the root of the workspace, and saves the
-- workspace as it is.
pub store_entity-below :
    (codec : Codec) (a : ℕ) (path : Str) (e : Entity) (i : ℕ) (n : Str) (j : ℕ) (k m : Str)
    (ns : List Str) (w : Workspace) (id : Str) (t u : Tree) (o b c : ℕ) (root q r : Str)
    → components (a ∷ path) ≡ (i ∷ n) ∷ (j ∷ k) ∷ m ∷ ns
    → root_ref w ≡ record { id = id; path = o ∷ root }
    → Transient.get_tree_transient codec (o ∷ root) w.disk ≡ some t
    → object_reference_of_child t (i ∷ n) ≡ transient_at b q
    → Transient.get_tree_transient codec (b ∷ q) w.disk ≡ some u
    → object_reference_of_child u (j ∷ k) ≡ transient_at c r
    → Transient.get_tree_transient codec (c ∷ r) w.disk ≡ none
    → store_entity codec (a ∷ path) e w
      ≡ returned (
        Status.ok,
        record w {
          disk =
              (Transient.store_workspace_commit w.obj w.name
                (Transient.store_tree_transient u (internal w.name []) w.disk).1).1;
        },
      )
unfolding store_entity create_path for_each_path_segment close close_root
    Transient.store_workspace_commit
store_entity-below codec a path e i n j k m ns w id t u o b c root q r names is_root h g f g' f' =
    let p = prepare_path (a ∷ path) in
    let stops =
      ap
        (λ gs.
          walk (before codec delete_entity_object p (entity_leaf e) false) (after p false) gs
            (returned (start w t)))
        (segments-prepare_path a path ∙ ap path_segments names)
      ∙ walk-stops codec p e i n j k m ns w t u b q c r g f g' f' in
    rw (opens codec w id t o root is_root h, stops) refl

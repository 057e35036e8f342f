-- ===== src/Workspace/StoreFresh.antt =====
-- `storeEntity` in a workspace that holds no object yet, and `getEntity` after it.
use mapit.Base.{Str, ℕ, suc, [], ◌∷◌, ◌++◌, List, some, Bool, true, false, length}
use mapit.Base.{◌≡◌, refl, ap, subst, ◌∙◌, arith}
use mapit.Messages.{
  Tree, new_tree, Entity, Codec, message_entity, message_tree, message_workspace, of_entity,
  of_tree, of_workspace,
}
use mapit.Paths.{prepare_path, for_each_path_segment, segments}
use mapit.Search.{is_empty}
use mapit.Paths.Canonical.{components, join, canonical, prepare_path-canonical}
use mapit.Paths.Names.{NoSlash, AreNames, components-AreNames}
use mapit.Paths.Segments.{numbered, path_segments, segments-prepare_path}
use mapit.Outcome.{Outcome, returned, thrown, running, Returns, Returns-map}
use mapit.Serializer.Disk.{FsPath, entry, entry_path, path_eq, fs_write}
use mapit.Serializer.Objects.{read_as}
use mapit.Serializer.RoundTrip.{fs_write-overwrites}
use mapit.Serializer.Transient
use mapit.Workspace.{Workspace, internal, get_entity}
use mapit.Workspace.Walk.{
  Walk, entity_leaf, but_last, hook_root, root_missing, close, close_root, after,
}
use mapit.Workspace.Create.{before, create_path, open_root}
use mapit.Workspace.Delete.{delete_entity_object, store_entity}
use mapit.Workspace.Files.{
  but_last-internal, without_slash-internal, leaf_file, leaf_file-tree, leaf_file-workspace,
}
use mapit.Workspace.Fresh.{fresh, Written, walk-names}
use mapit.Status

canonical-last : (pre : List Str) (m : Str) → canonical (pre ++ m ∷ []) ≡ join (pre ++ m ∷ [])
unfolding canonical
canonical-last [] m = refl
canonical-last (n ∷ pre) m = refl

path_segments-last :
    (pre : List Str) (m : Str) → path_segments (pre ++ m ∷ []) ≡ numbered 0 (pre ++ m ∷ [])
unfolding path_segments
path_segments-last [] m = refl
path_segments-last (n ∷ pre) m = refl

join-is_empty :
    (pre : List Str) (m : Str) → AreNames (pre ++ m ∷ []) → is_empty (join (pre ++ m ∷ [])) ≡ false
unfolding join
join-is_empty [] [] h = absurd h.0
join-is_empty [] (c ∷ m) h = refl
join-is_empty ([] ∷ pre) m h = absurd h.0
join-is_empty ((c ∷ n) ∷ pre) m h = refl

-- The call succeeded and left the entity in its file.
abbrev Kept : Entity → Str → FsPath → ℕ × Workspace → Type 0
Kept e name F (status, w) =
    (status ≡ Status.ok)
    × (w.name ≡ name)
    × (w.disk F ≡ some (entry (record { type = message_entity; content = of_entity e })))

module _ (codec : Codec) (e : Entity) (name p : Str) (F : FsPath) where
  close_root-Kept :
      (k : ℕ) (s : Walk) (ts : List Tree)
      → path_eq (entry_path (internal name [])) F ≡ false
      → path_eq (entry_path name) F ≡ false
      → s.workspace.name ≡ name
      → s.workspace.disk F ≡ some (entry (record { type = message_entity; content = of_entity e }))
      → length ts ≡ suc k
      → Returns (Kept e name F) (close_root s ts)
  unfolding close_root Transient.store_tree_transient Transient.store_workspace_commit
  close_root-Kept k s [] hr hw h d l = absurd (omega (arith, l))
  close_root-Kept k s (t ∷ ts) hr hw h d l =
      let w = s.workspace in
      let root = entry_path (internal w.name []) in
      (
        refl,
        h,
        fs_write-overwrites (entry_path w.name) F (of_workspace w.obj) message_workspace
              (fs_write root (of_tree t) message_tree true w.disk)
            ∙ rw (h, hw)
                (fs_write-overwrites (entry_path (internal name [])) F (of_tree t) message_tree
                    w.disk
                  ∙ rw hr d),
      )

  close-Kept :
      (k : ℕ) (r : Bool × Outcome Walk)
      → path_eq (entry_path (internal name [])) F ≡ false
      → path_eq (entry_path name) F ≡ false
      → Written codec delete_entity_object e name p F (suc k) r
      → Returns (Kept e name F) (close r.1)
  unfolding close
  close-Kept k (true, returned s) hr hw h =
      close_root-Kept k s s.transient_tree_path hr hw h.0 h.1 h.2
  close-Kept k (true, thrown) hr hw h = absurd h
  close-Kept k (true, running) hr hw h = absurd h
  close-Kept k (false, o) hr hw h = absurd h

create_path-missing :
    (codec : Codec) (c : ℕ) (path : Str) (e : Entity) (w : Workspace)
    → root_missing w ≡ true
    → store_entity codec (c ∷ path) e w
      ≡ close
          (for_each_path_segment
            (before codec delete_entity_object (prepare_path (c ∷ path)) (entity_leaf e) false)
            (after (prepare_path (c ∷ path)) false)
            (prepare_path (c ∷ path))
            (returned (fresh (hook_root [] w) (new_tree ∷ [])))).1
unfolding store_entity create_path open_root
create_path-missing codec c path e w h = rw h

module _ (codec : Codec) (e : Entity) (c : ℕ) (r : Str) (pre : List Str) (m : Str) (w : Workspace)
    (hn : NoSlash w.name) (hp : components (c ∷ r) ≡ pre ++ m ∷ []) where
  names-last : AreNames (pre ++ m ∷ [])
  names-last = subst AreNames hp (components-AreNames (c ∷ r))

  abbrev file : FsPath
  file = leaf_file w.name pre m hn names-last

  prepare_path-last : prepare_path (c ∷ r) ≡ join (pre ++ m ∷ [])
  prepare_path-last = prepare_path-canonical c r ∙ ap canonical hp ∙ canonical-last pre m

  segments-last : segments (prepare_path (c ∷ r)) ≡ numbered 0 (pre ++ m ∷ [])
  segments-last = segments-prepare_path c r ∙ ap path_segments hp ∙ path_segments-last pre m

  walk-Written : Written codec delete_entity_object e w.name (prepare_path (c ∷ r)) file 1 (
      for_each_path_segment
        (before codec delete_entity_object (prepare_path (c ∷ r)) (entity_leaf e) false)
        (after (prepare_path (c ∷ r)) false)
        (prepare_path (c ∷ r))
        (returned (fresh (hook_root [] w) (new_tree ∷ []))))
  unfolding for_each_path_segment join
  walk-Written = rw segments-last (
      walk-names codec delete_entity_object e w.name (prepare_path (c ∷ r)) file [] pre m
        (hook_root [] w) new_tree [] refl prepare_path-last tt names-last
        (λ cs k l. leaf_file-tree w.name pre m hn names-last cs k (omega (arith, l)))
        (ap entry_path (
          ap (λ s. but_last (internal w.name s)) prepare_path-last
          ∙ but_last-internal w.name pre m)))

  store_entity-Kept :
      root_missing w ≡ true → Returns (Kept e w.name file) (store_entity codec (c ∷ r) e w)
  unfolding join
  store_entity-Kept h = rw (create_path-missing codec c r e w h) (
      close-Kept codec e w.name (prepare_path (c ∷ r)) file 0 _
        (leaf_file-tree w.name pre m hn names-last [] tt (omega arith))
        (leaf_file-workspace w.name pre m hn names-last) walk-Written)

get_entity-Kept :
    (codec : Codec) (e : Entity) (c : ℕ) (r : Str) (d : ℕ) (q : Str) (pre : List Str) (m : Str)
    (w : Workspace) (hn : NoSlash w.name) (hp : components (c ∷ r) ≡ pre ++ m ∷ [])
    (x : ℕ × Workspace)
    → components (d ∷ q) ≡ components (c ∷ r)
    → Kept e w.name (file codec e c r pre m w hn hp) x
    → (x.0 ≡ Status.ok) × (get_entity codec (d ∷ q) x.1 ≡ some e)
unfolding get_entity Transient.get_entity_transient read_as
get_entity-Kept codec e c r d q pre m w hn hp (status, w') hq (ok, h, kept) =
    let names = names-last codec e c r pre m w hn hp in
    let prepared = prepare_path-last codec e d q pre m w hn (hq ∙ hp) in
    (
      ok,
      rw (prepared, join-is_empty pre m names, h, without_slash-internal w.name pre m, kept) refl,
    )

-- Where the root of a workspace is unset and its name has no slash, an entity that is stored on a path
-- with a name in it is stored with success, and `getEntity` finds it on every text of the same names.
pub store_entity-fresh :
    (codec : Codec) (e : Entity) (c : ℕ) (r : Str) (d : ℕ) (q : Str) (pre : List Str) (m : Str)
    (w : Workspace)
    → NoSlash w.name
    → root_missing w ≡ true
    → components (c ∷ r) ≡ pre ++ m ∷ []
    → components (d ∷ q) ≡ components (c ∷ r)
    → Returns
        (λ x. (x.0 ≡ Status.ok) × (get_entity codec (d ∷ q) x.1 ≡ some e))
        (store_entity codec (c ∷ r) e w)
store_entity-fresh codec e c r d q pre m w hn hm hp hq =
    Returns-map _ _ (store_entity codec (c ∷ r) e w)
      (λ x k. get_entity-Kept codec e c r d q pre m w hn hp x hq k)
      (store_entity-Kept codec e c r pre m w hn hp hm)

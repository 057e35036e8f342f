-- ===== src/Workspace/Walk.antt =====
-- The state of `createPath` (libs/core/src/versioning/workspaceimpl.h) and the steps of its callbacks
-- that read nothing from the repository.
use mapit.Base.{
  Str, ℕ, zero, suc, List, [], ◌∷◌, Option, none, some, Bool, true, false, ◌&&◌, ◌||◌, not,
}
use mapit.Base.{if◌then◌else◌}
use mapit.Messages.{Tree, new_tree, Entity, erase, insert}
use mapit.Paths.{Segment}
use mapit.Search.{is_empty}
use mapit.Serializer.Transient
use mapit.Workspace.{Workspace, internal, root_ref, is_null}
use mapit.Outcome.{Outcome, returned, thrown, running, ◌>>=◌}
use mapit.Status

-- `createLeaf`, for the two instances of the template, and `nullptr`.
pub data Leaf : Type 0 where
  no_leaf : Leaf
  tree_leaf : Tree → Leaf
  entity_leaf : Entity → Leaf

-- The variables that the two callbacks capture; the last tree of `transientTreePath` comes first.
pub record Walk : Type 0 where
  pub workspace : Workspace
  pub current : Option Tree
  pub transient_tree_path : List Tree
  pub leaf_was_stored : Bool
  pub leaf_path_internal : Str

-- `path.substr(0, idx)`
abbrev pub take : ℕ → Str → Str
take zero s = []
take (suc n) [] = []
take (suc n) (c ∷ s) = c ∷ take n s

-- `s.substr(0, s.size() - 1)`
unfoldable pub but_last : Str → Str
but_last [] = []
but_last (c ∷ []) = []
but_last (c ∷ d ∷ r) = c ∷ but_last (d ∷ r)

-- `transientoidstoorigin.insert(...)`
abbrev pub set_origin : Str → Str → Workspace → Workspace
set_origin path origin w = record w {
  obj = record (w.obj) { transientoidstoorigin = insert path origin w.obj.transientoidstoorigin };
}

-- `mutable_root()->set_path(...)`, which leaves the id of the root alone.
abbrev pub set_root_path : Str → Workspace → Workspace
set_root_path path w = record w {
  obj = record (w.obj) {
    rollingcommit = record (w.obj.rollingcommit) {
      root = some (record { id = (root_ref w).id; path = path });
    };
  };
}

-- `storeObject`: an entity is stored without the trailing slash.
unfoldable pub store_object : Leaf → Str → Workspace → (ℕ × Str) × Workspace
unfolding but_last Transient.store_tree_transient Transient.store_entity_transient
store_object no_leaf path w = ((Status.error, path), w)
store_object (tree_leaf t) path w =
    let (status_path, d) = Transient.store_tree_transient t path w.disk in
    (status_path, record w { disk = d })
store_object (entity_leaf e) path w =
    let (status_path, d) = Transient.store_entity_transient e (but_last path) w.disk in
    (status_path, record w { disk = d })

-- Step 1 of `createPath`: what it finds of the root.
unfoldable pub root_missing : Workspace → Bool
root_missing w = is_null (root_ref w)

unfoldable pub root_not_transient : Workspace → Bool
unfolding root_missing
root_not_transient w =
    not (root_missing w) && (not (is_empty (root_ref w).id) && is_empty (root_ref w).path)

-- The root becomes transient; its origin is the id that it was stored under.
abbrev pub hook_root : Str → Workspace → Workspace
hook_root origin w = set_origin (internal w.name []) origin (set_root_path (internal w.name []) w)

abbrev pub start : Workspace → Tree → Walk
start w t = record {
  workspace = w;
  current = some t;
  transient_tree_path = t ∷ [];
  leaf_was_stored = false;
  leaf_path_internal = [];
}

-- A root that cannot be read is a null pointer, which the code stores at the end.
abbrev pub start_at : Workspace → Option Tree → Outcome Walk
start_at w none = thrown
start_at w (some t) = returned (start w t)

-- `m_name + "/" + p.substr(0,idx)`
abbrev pub internal_at : Str → Segment → Walk → Str
internal_at p seg s = internal s.workspace.name (take seg.idx p)

abbrev pub is_no_leaf : Leaf → Bool
is_no_leaf no_leaf = true
is_no_leaf _ = false

-- Whether the segment is a directory to go through or to end in.
abbrev pub wants_tree : Leaf → Segment → Bool
wants_tree leaf seg = not seg.is_last || is_no_leaf leaf

-- `transientTreePath.push_back(tree); current = tree`
abbrev pub push : Tree → Walk → Walk
push t s = record s { transient_tree_path = t ∷ s.transient_tree_path; current = some t }

abbrev pub with_origin : Str → Str → Walk → Walk
with_origin path origin s = record s { workspace = set_origin path origin s.workspace }

-- A segment that should be a tree and is none ends the walk.
unfoldable pub enter : Option Tree → Walk → Walk → Bool × Outcome Walk
enter none failed s = (false, returned failed)
enter (some t) failed s = (true, returned (push t s))

-- Cases 2, 4 and 6: the leaf is stored.
unfoldable pub put_leaf : Leaf → Str → Walk → Bool × Outcome Walk
unfolding store_object
put_leaf leaf path s =
    let ((status, stored), w) = store_object leaf path s.workspace in
    if Status.is_ok status
    then (
      true,
      returned (record s { workspace = w; leaf_path_internal = stored; leaf_was_stored = true }),
    )
    else (false, returned (record s { workspace = w }))

-- `insert` of the stored path, after case 2.
unfoldable pub track : Bool × Outcome Walk → Bool × Outcome Walk
track (true, returned s) = (true, returned (with_origin s.leaf_path_internal [] s))
track (go_on, o) = (go_on, o)

-- Cases 7, 1 and 2: no object has the name.
unfoldable pub at_missing : Str → Leaf → Bool → Segment → Walk → Bool × Outcome Walk
unfolding put_leaf track
at_missing p leaf delete_leaf seg s =
    if seg.is_last && delete_leaf
    then (true, returned s)
    else if wants_tree leaf seg
    then (true, returned (push new_tree (with_origin (internal_at p seg s) [] s)))
    else track (put_leaf leaf (internal_at p seg s) s)

-- How `deleteObject` ended.
abbrev pub in_workspace : Walk → Outcome Workspace → Bool × Outcome Walk
in_workspace s (returned w) = (true, returned (record s { workspace = w }))
in_workspace s thrown = (false, thrown)
in_workspace s running = (false, running)

-- The new reference of the parent, or none where the leaf is taken out.
unfoldable pub hook : Option Str → Str → Tree → Tree
unfolding insert erase
hook none name t = record { refs = erase name t.refs }
hook (some path) name t = record {
  refs = insert name (record { id = []; path = path }) (erase name t.refs);
}

unfoldable pub hook_parent : Option Str → Segment → Walk → List Tree → Bool × Outcome Walk
unfolding hook
hook_parent path seg s [] = (false, returned s)
hook_parent path seg s (parent ∷ rest) =
    (true, returned (record s { transient_tree_path = hook path seg.name parent ∷ rest }))

-- The tree of the segment is stored, and its parent refers to it.
unfoldable pub store_back : Str → Segment → Walk → List Tree → Bool × Outcome Walk
unfolding hook_parent Transient.store_tree_transient
store_back p seg s [] = (false, thrown)
store_back p seg s (t ∷ rest) =
    let path = internal_at p seg s in
    let d = (Transient.store_tree_transient t path s.workspace.disk).1 in
    let s' : Walk = record s {
      workspace = record (s.workspace) { disk = d };
      current = some t;
      transient_tree_path = rest;
    } in
    hook_parent (some path) seg s' rest

unfoldable pub up : Str → Bool → Segment → Walk → Bool × Outcome Walk
unfolding store_back hook_parent
up p delete_leaf seg s =
    if seg.is_last && delete_leaf
    then hook_parent none seg s s.transient_tree_path
    else if s.leaf_was_stored && seg.is_last
    then hook_parent (some s.leaf_path_internal) seg s s.transient_tree_path
    else store_back p seg s s.transient_tree_path

-- The callback on the way up.
unfoldable pub after : Str → Bool → Segment → Outcome Walk → Bool × Outcome Walk
unfolding up
after p delete_leaf seg (returned s) = up p delete_leaf seg s
after p delete_leaf seg thrown = (false, thrown)
after p delete_leaf seg running = (false, running)

-- The root is stored, whatever the walk said, and then the workspace.
unfoldable pub close_root : Walk → List Tree → Outcome (ℕ × Workspace)
unfolding Transient.store_tree_transient Transient.store_workspace_commit
close_root s [] = thrown
close_root s (root ∷ rest) =
    let w = s.workspace in
    let d = (Transient.store_tree_transient root (internal w.name []) w.disk).1 in
    let (status, d') = Transient.store_workspace_commit w.obj w.name d in
    returned (status, record w { disk = d' })

unfoldable pub close : Outcome Walk → Outcome (ℕ × Workspace)
unfolding close_root
close o = o >>= λ s. close_root s s.transient_tree_path

-- ===== src/Serializer/Steps.antt =====
-- The operations of FSSerializer that change files, and what each changes of the history.
use mapit.Base.{
  Str, ℕ, [], ◌∷◌, ◌++◌, Option, none, some, Bool, true, false, ◌||◌, ◌≡◌, ◌⊎◌, inl, inr, refl, sym,
  ap, ◌∙◌,
}
use mapit.Base.{arith, str_eq, Bool-cases}
use mapit.Messages.{
  Tree, Entity, Commit, Branch, WorkspaceObj, Content, MessageType, Codec, message_tree,
  message_entity, message_commit, message_branch, of_tree, of_entity, of_commit, of_branch,
}
use mapit.TreeHash.{hash_tree, hash_entity, hash_commit, hash_string}
use mapit.Serializer.Prefix
use mapit.Outcome.{Outcome, returned, thrown, running}
use mapit.Serializer.Disk.{
  Disk, FsPath, File, entry, update, path_eq, path_eq→eq, fs_write, exists, object_path, entry_path,
  data_path, split_slash, workspace_path, objectid_to_workspace_fs_path,
}
use mapit.Serializer.Objects.{store_tree, store_entity, create_commit, create_branch}
use mapit.Serializer.Transient.{
  store_tree_transient, store_entity_transient, remove_tree_transient, remove_entity_transient,
  store_workspace_commit, create_workspace_commit, remove_workspace, persist_transient_entitydata,
  persist_bytes, persist_file, move_file,
}

-- The operations that change files.
pub data Step (codec : Codec) : Disk → Disk → Type 0 where
  tree : (t : Tree) (d : Disk) → Step codec d (store_tree codec t d).1
  entity : (e : Entity) (d : Disk) → Step codec d (store_entity codec e d).1
  commit : (c : Commit) (d : Disk) → Step codec d (create_commit codec c d).1
  branch : (b : Branch) (name : Str) (d : Disk) → Step codec d (create_branch codec b name d).1
  tree_transient : (t : Tree) (id : Str) (d : Disk) → Step codec d (store_tree_transient t id d).1
  entity_transient :
      (e : Entity) (id : Str) (d : Disk) → Step codec d (store_entity_transient e id d).1
  no_tree : (id : Str) (d : Disk) → Step codec d (remove_tree_transient id d).1
  no_entity : (id : Str) (d : Disk) → Step codec d (remove_entity_transient id d).1
  workspace :
      (w : WorkspaceObj) (name : Str) (d : Disk) → Step codec d (store_workspace_commit w name d).1
  new_workspace :
      (w : WorkspaceObj) (name : Str) (d : Disk) → Step codec d (create_workspace_commit w name d).1
  no_workspace : (name : Str) (d : Disk) → Step codec d (remove_workspace name d).1
  persist :
      (fuel : ℕ) (path : Str) (d d' : Disk) (r : ℕ × Str)
      → persist_transient_entitydata codec fuel path d ≡ returned (r, d')
      → Step codec d d'

pub data Reach (codec : Codec) (d : Disk) : Disk → Type 0 where
  here : Reach codec d d
  next : {e f : Disk} → Reach codec d e → Step codec e f → Reach codec d f

-- The part of the disk that is the history.
unfoldable pub is_stored : FsPath → Bool
unfolding str_eq
is_stored [] = false
is_stored (a ∷ p) =
    str_eq a Prefix.trees
    || str_eq a Prefix.entities
    || str_eq a Prefix.commits
    || str_eq a Prefix.branches

pub workspace_path-is_stored :
    (id : Str) (o : Option (Str × Str)) (r : FsPath) → is_stored (workspace_path id o ++ r) ≡ false
unfolding is_stored workspace_path
workspace_path-is_stored id none r = refl
workspace_path-is_stored id (some (n, t)) r = refl

pub entry_path-is_stored : (id : Str) → is_stored (entry_path id) ≡ false
unfolding objectid_to_workspace_fs_path
entry_path-is_stored id = workspace_path-is_stored id (split_slash id) (Prefix.generic_entry ∷ [])

pub data_path-is_stored : (id : Str) → is_stored (data_path id) ≡ false
unfolding objectid_to_workspace_fs_path
data_path-is_stored id = workspace_path-is_stored id (split_slash id) (Prefix.entity_data ∷ [])

-- A stored file, where it stands and what it holds.
pub data Written (codec : Codec) (q : FsPath) (f : Option File) : Type 0 where
  a_tree :
      (t : Tree)
      → q ≡ object_path Prefix.trees (hash_tree codec t)
      → f ≡ some (entry (record { type = message_tree; content = of_tree t }))
      → Written codec q f
  an_entity :
      (e : Entity)
      → q ≡ object_path Prefix.entities (hash_entity codec e)
      → f ≡ some (entry (record { type = message_entity; content = of_entity e }))
      → Written codec q f
  a_commit :
      (c : Commit)
      → q ≡ object_path Prefix.commits (hash_commit codec c)
      → f ≡ some (entry (record { type = message_commit; content = of_commit c }))
      → Written codec q f
  a_branch :
      (b : Branch) (name : Str)
      → q ≡ object_path Prefix.branches name
      → f ≡ some (entry (record { type = message_branch; content = of_branch b }))
      → Written codec q f

pub update-outside :
    (d : Disk) (p q : FsPath) (v : Option File)
    → is_stored p ≡ false
    → is_stored q ≡ true
    → update d p v q ≡ d q
update-outside d p q v h k = elim (Bool-cases (path_eq p q)) [
  | inl e ↦ cc (ap is_stored (path_eq→eq p q e))
  | inr e ↦ rw e
]

pub fs_write-outside :
    (d : Disk) (p q : FsPath) (c : Content) (m : MessageType) (o : Bool)
    → is_stored p ≡ false
    → is_stored q ≡ true
    → fs_write p c m o d q ≡ d q
unfolding fs_write
fs_write-outside d p q c m o h k =
    ground (arith, update-outside d p q (some (entry (record { type = m; content = c }))) h k)

-- A file that is written without `overwrite` is new, or nothing changes.
fs_write-new :
    (d : Disk) (p q : FsPath) (c : Content) (m : MessageType)
    → (fs_write p c m false d q ≡ d q)
      ⊎ ((p ≡ q)
          × (d q ≡ none)
          × (fs_write p c m false d q ≡ some (entry (record { type = m; content = c }))))
unfolding fs_write
fs_write-new d p q c m = ground (arith, path_eq→eq p q)

-- The disk after a call, which is the old one where the call does not return.
abbrev disk_after : Disk → Outcome ((ℕ × Str) × Disk) → Disk
disk_after d (returned (r, e)) = e
disk_after d _ = d

move_file-outside :
    (codec : Codec) (path : Str) (f : File) (d : Disk) (o : Outcome Str) (q : FsPath)
    → is_stored q ≡ true
    → disk_after d (move_file codec path f d o) q ≡ d q
unfolding move_file
move_file-outside codec path f d (returned s) q k =
    update-outside (update d (data_path path) none)
      (object_path Prefix.entities_data (hash_string codec s)) q (some f) (unfold is_stored in refl)
      k
    ∙ update-outside d (data_path path) q none (data_path-is_stored path) k
move_file-outside codec path f d thrown q k = refl
move_file-outside codec path f d running q k = refl

persist_file-outside :
    (codec : Codec) (fuel : ℕ) (path : Str) (o : Option File) (d : Disk) (q : FsPath)
    → is_stored q ≡ true
    → disk_after d (persist_file codec fuel path o d) q ≡ d q
unfolding persist_file persist_bytes
persist_file-outside codec fuel path none d q k = refl
persist_file-outside codec fuel path (some f) d q k = move_file-outside codec path f d _ q k

persist-outside :
    (codec : Codec) (fuel : ℕ) (path : Str) (d : Disk) (q : FsPath)
    → is_stored q ≡ true
    → disk_after d (persist_transient_entitydata codec fuel path d) q ≡ d q
unfolding persist_transient_entitydata
persist-outside codec fuel [] d q k = refl
persist-outside codec fuel (c ∷ path) d q k = persist_file-outside codec fuel (c ∷ path) _ d q k

pub step-change :
    (codec : Codec) {d d' : Disk} (q : FsPath)
    → Step codec d d'
    → is_stored q ≡ true
    → (d' q ≡ d q) ⊎ ((d q ≡ none) × Written codec q (d' q))
unfolding store_tree store_entity create_commit create_branch
step-change codec q (tree t d) k =
    elim (fs_write-new d (object_path Prefix.trees (hash_tree codec t)) q (of_tree t)
      message_tree) [ inl e ↦ inl e | inr (pq, n, w) ↦ inr (n, a_tree t (sym pq) w) ]
step-change codec q (entity x d) k =
    elim (fs_write-new d (object_path Prefix.entities (hash_entity codec x)) q (of_entity x)
      message_entity) [ inl e ↦ inl e | inr (pq, n, w) ↦ inr (n, an_entity x (sym pq) w) ]
step-change codec q (commit x d) k =
    elim (fs_write-new d (object_path Prefix.commits (hash_commit codec x)) q (of_commit x)
      message_commit) [ inl e ↦ inl e | inr (pq, n, w) ↦ inr (n, a_commit x (sym pq) w) ]
step-change codec q (branch b name d) k =
    elim (Bool-cases (exists (object_path Prefix.branches name) d)) [
      | inl e ↦ inl (rw (e, create_branch))
      | inr e ↦
          rw (e, create_branch)
            (elim (fs_write-new d (object_path Prefix.branches name) q (of_branch b)
              message_branch) [
                | inl x ↦ inl x
                | inr (pq, n, w) ↦ inr (n, a_branch b name (sym pq) w)
              ])
    ]
step-change codec q (tree_transient t id d) k = inl (
    unfold store_tree_transient in
    fs_write-outside d (entry_path id) q _ _ true (entry_path-is_stored id) k)
step-change codec q (entity_transient e id d) k = inl (
    unfold store_entity_transient in
    fs_write-outside d (entry_path id) q _ _ true (entry_path-is_stored id) k)
step-change codec q (no_tree id d) k = inl (
    unfold remove_tree_transient in
    update-outside d (entry_path id) q none (entry_path-is_stored id) k)
step-change codec q (no_entity id d) k = inl (
    unfold remove_entity_transient in
    update-outside (update d (entry_path id) none) (data_path id) q none (data_path-is_stored id) k
    ∙ update-outside d (entry_path id) q none (entry_path-is_stored id) k)
step-change codec q (workspace w name d) k = inl (
    unfold store_workspace_commit in
    fs_write-outside d (entry_path name) q _ _ true (entry_path-is_stored name) k)
step-change codec q (new_workspace w name d) k = inl (
    unfold create_workspace_commit in
    fs_write-outside d (entry_path name) q _ _ false (entry_path-is_stored name) k)
step-change codec q (no_workspace name d) k = inl (
    unfold remove_workspace in
    update-outside d (entry_path name) q none (entry_path-is_stored name) k)
step-change codec q (persist fuel path d d' r h) k =
    inl (sym (ap (λ o. disk_after d o q) h) ∙ persist-outside codec fuel path d q k)

-- ===== src/Serializer/History.antt =====
-- What FSSerializer stores in the repository is never changed, and stands under its hash.
use mapit.Base.{
  Str, [], ◌∷◌, Option, none, some, Bool, true, false, str_eq, ◌≡◌, inl, inr, refl, sym, ap, ◌∙◌,
}
use mapit.Paths.Canonical.{components}
use mapit.Messages.{Tree, Entity, Commit, Branch, Content, MessageType, Codec}
use mapit.TreeHash.{hash_tree, hash_entity, hash_commit}
use mapit.Serializer.Prefix
use mapit.Serializer.Disk.{Disk, FsPath, File, empty_disk, object_path}
use mapit.Serializer.Objects.{
  get_tree, get_entity, get_commit, get_branch, read_as, tree_of, entity_of, commit_of, branch_of,
}
use mapit.Serializer.Steps.{
  Step, Reach, here, next, is_stored, Written, a_tree, an_entity, a_commit, a_branch, step-change,
}

-- A stored file stays as it is.
step-keeps :
    (codec : Codec) {d d' : Disk} (q : FsPath) (f : File)
    → Step codec d d'
    → is_stored q ≡ true
    → d q ≡ some f
    → d' q ≡ some f
step-keeps codec q f st k h = elim (step-change codec q st k) [ inl e ↦ e ∙ h | inr (n, w) ↦ cc ]

pub Reach-keeps :
    (codec : Codec) {d d' : Disk} (q : FsPath) (f : File)
    → Reach codec d d'
    → is_stored q ≡ true
    → d q ≡ some f
    → d' q ≡ some f
Reach-keeps codec q f here k h = h
Reach-keeps codec q f (next r st) k h = step-keeps codec q f st k (Reach-keeps codec q f r k h)

read_as-keeps {ℓ} :
    {A : Type ℓ} (codec : Codec) (of : MessageType → Content → Option A) (o o' : Option File)
    (a : A)
    → ((f : File) → o ≡ some f → o' ≡ some f)
    → read_as codec of o ≡ some a
    → read_as codec of o' ≡ some a
unfolding read_as
read_as-keeps codec of none o' a h e = cc
read_as-keeps codec of (some f) o' a h e = rw (h f refl) e

-- What the serializer returns for an id or a name at first, it returns in the end.
abbrev pub Preserves : Codec → Disk → Disk → Type 0
Preserves codec d d' =
    (oid : Str)
    → ((t : Tree) → get_tree codec oid d ≡ some t → get_tree codec oid d' ≡ some t)
      × ((e : Entity) → get_entity codec oid d ≡ some e → get_entity codec oid d' ≡ some e)
      × ((c : Commit) → get_commit codec oid d ≡ some c → get_commit codec oid d' ≡ some c)
      × ((b : Branch) → get_branch codec oid d ≡ some b → get_branch codec oid d' ≡ some b)

-- Every stored file is still there, as it was.
abbrev pub Kept : Disk → Disk → Type 0
Kept d d' = (q : FsPath) (f : File) → is_stored q ≡ true → d q ≡ some f → d' q ≡ some f

pub Kept-Preserves : (codec : Codec) (d d' : Disk) → Kept d d' → Preserves codec d d'
unfolding get_tree get_entity get_commit get_branch is_stored
Kept-Preserves codec d d' h oid = (
  λ t. read_as-keeps codec tree_of _ _ t (λ f. h (object_path Prefix.trees oid) f refl),
  λ e. read_as-keeps codec entity_of _ _ e (λ f. h (object_path Prefix.entities oid) f refl),
  λ c. read_as-keeps codec commit_of _ _ c (λ f. h (object_path Prefix.commits oid) f refl),
  λ b. read_as-keeps codec branch_of _ _ b (λ f. h (object_path Prefix.branches oid) f refl),
)

-- History is immutable: whatever operations follow, a tree, an entity, a commit or a branch that the
-- serializer returns for an id or a name, it returns ever after.
pub history_immutable : (codec : Codec) {d d' : Disk} → Reach codec d d' → Preserves codec d d'
history_immutable codec r = Kept-Preserves codec _ _ (λ q f. Reach-keeps codec q f r)

-- Every stored file is an object of its directory, and stands under the object's hash.
abbrev pub IsAddressed : Codec → Disk → Type 0
IsAddressed codec d =
    (q : FsPath) (f : File) → is_stored q ≡ true → d q ≡ some f → Written codec q (some f)

Reach-IsAddressed :
    (codec : Codec) {d d' : Disk} → IsAddressed codec d → Reach codec d d' → IsAddressed codec d'
Reach-IsAddressed codec h here = h
Reach-IsAddressed codec h (next r st) = λ q f k e. elim (step-change codec q st k) [
  | inl s ↦ Reach-IsAddressed codec h r q f k (sym s ∙ e)
  | inr (n, w) ↦ rw e at w
]

abbrev in_directory : Str → FsPath → Bool
in_directory prefix [] = false
in_directory prefix (a ∷ p) = str_eq a prefix

abbrev below : FsPath → FsPath
below [] = []
below (a ∷ p) = p

-- The object of a stored file, by the directory that it stands in.
Written-tree :
    (codec : Codec) (oid : Str) (o : Option File) (x : Tree)
    → Written codec (object_path Prefix.trees oid) o
    → read_as codec tree_of o ≡ some x
    → components oid ≡ components (hash_tree codec x)
unfolding read_as tree_of str_eq
Written-tree codec oid o x (a_tree u pq f) h =
    let same : some u ≡ some x = sym (ap (read_as codec tree_of) f) ∙ h in
    ap below pq ∙ ap (λ y. components (hash_tree codec y)) (cc same)
Written-tree codec oid o x (an_entity u pq f) h = absurd (cc)
Written-tree codec oid o x (a_commit u pq f) h = absurd (cc)
Written-tree codec oid o x (a_branch u name pq f) h = absurd (cc)

Written-entity :
    (codec : Codec) (oid : Str) (o : Option File) (x : Entity)
    → Written codec (object_path Prefix.entities oid) o
    → read_as codec entity_of o ≡ some x
    → components oid ≡ components (hash_entity codec x)
unfolding read_as entity_of str_eq
Written-entity codec oid o x (a_tree u pq f) h = absurd (cc)
Written-entity codec oid o x (an_entity u pq f) h =
    let same : some u ≡ some x = sym (ap (read_as codec entity_of) f) ∙ h in
    ap below pq ∙ ap (λ y. components (hash_entity codec y)) (cc same)
Written-entity codec oid o x (a_commit u pq f) h = absurd (cc)
Written-entity codec oid o x (a_branch u name pq f) h = absurd (cc)

Written-commit :
    (codec : Codec) (oid : Str) (o : Option File) (x : Commit)
    → Written codec (object_path Prefix.commits oid) o
    → read_as codec commit_of o ≡ some x
    → components oid ≡ components (hash_commit codec x)
unfolding read_as commit_of str_eq
Written-commit codec oid o x (a_tree u pq f) h = absurd (cc)
Written-commit codec oid o x (an_entity u pq f) h = absurd (cc)
Written-commit codec oid o x (a_commit u pq f) h =
    let same : some u ≡ some x = sym (ap (read_as codec commit_of) f) ∙ h in
    ap below pq ∙ ap (λ y. components (hash_commit codec y)) (cc same)
Written-commit codec oid o x (a_branch u name pq f) h = absurd (cc)

read_some {ℓ} :
    {A : Type ℓ} (codec : Codec) (of : MessageType → Content → Option A) (o : Option File) (a : A)
    (Q : Option File → Type 0)
    → ((f : File) → o ≡ some f → Q (some f))
    → read_as codec of o ≡ some a
    → Q o
unfolding read_as
read_some codec of none a Q h e = absurd (cc)
read_some codec of (some f) a Q h e = h f refl

-- In a repository that started out empty, whatever operations followed, a tree, an entity or a commit
-- that is read by an id hashes to that id, up to the way a path may be written.
pub stored_under_hash :
    (codec : Codec) (d : Disk) (oid : Str)
    → Reach codec empty_disk d
    → ((t : Tree) → get_tree codec oid d ≡ some t → components oid ≡ components (hash_tree codec t))
      × ((e : Entity)
          → get_entity codec oid d ≡ some e
          → components oid ≡ components (hash_entity codec e))
      × ((c : Commit)
          → get_commit codec oid d ≡ some c
          → components oid ≡ components (hash_commit codec c))
unfolding get_tree get_entity get_commit is_stored
stored_under_hash codec d oid r =
    let addressed = Reach-IsAddressed codec (λ q f k e. absurd (cc)) r in
    (
      λ t h.
          Written-tree codec oid _ t
            (read_some codec tree_of _ t (Written codec (object_path Prefix.trees oid))
              (λ f. addressed _ f refl) h)
            h,
      λ e h.
          Written-entity codec oid _ e
            (read_some codec entity_of _ e (Written codec (object_path Prefix.entities oid))
              (λ f. addressed _ f refl) h)
            h,
      λ c h.
          Written-commit codec oid _ c
            (read_some codec commit_of _ c (Written codec (object_path Prefix.commits oid))
              (λ f. addressed _ f refl) h)
            h,
    )

-- ===== src/Workspace/Files.antt =====
-- The files of the objects on a path of a workspace, told apart by the lengths of their paths.
use mapit.Base.{Str, ◌+◌, ◌<◌, [], ◌∷◌, ◌++◌, List, none, some, false, ◌==◌, length}
use mapit.Base.{
  ◌≡◌, ◌≢◌, refl, sym, ap, ◌∙◌, arith, Bool-cases, inl, inr, append_assoc, length-append,
}
use mapit.Paths.{slash}
use mapit.Paths.Canonical.{components, components_from, join, flush, components-slash}
use mapit.Paths.Names.{NoSlash, AreNames, components-join}
use mapit.Serializer.Transient.{without_slash}
use mapit.Serializer.Disk.{
  FsPath, path_eq, path_eq→eq, split_slash, workspace_path, objectid_to_workspace_fs_path,
  entry_path,
}
use mapit.Serializer.Prefix
use mapit.Workspace.{internal}
use mapit.Workspace.Walk.{take, but_last}

join-append : (xs ys : List Str) → join (xs ++ ys) ≡ join xs ++ join ys
unfolding join
join-append [] ys = refl
join-append (c ∷ xs) ys = rw (join-append xs ys, append_assoc c (slash ∷ join xs) (join ys))

take-append : (s t : Str) → take (length s) (s ++ t) ≡ s
take-append [] t = refl
take-append (c ∷ s) t = ap (λ r. c ∷ r) (take-append s t)

join-last : (done : List Str) (n : Str) → join (done ++ n ∷ []) ≡ (join done ++ n) ++ slash ∷ []
unfolding join
join-last done n = join-append done (n ∷ []) ∙ sym (append_assoc (join done) n (slash ∷ []))

pub length-join_last :
    (done : List Str) (n : Str) → length (join (done ++ n ∷ [])) ≡ length (join done) + length n + 1
length-join_last done n =
    ap length (join-last done n)
    ∙ length-append (join done ++ n) (slash ∷ [])
    ∙ ap (λ k. k + 1) (length-append (join done) n)

-- Up to the slash behind a name, a path holds the names so far.
pub take-join :
    (done : List Str) (n : Str) (ns : List Str)
    → take (length (join done) + length n + 1) (join (done ++ n ∷ ns)) ≡ join (done ++ n ∷ [])
take-join done n ns =
    ap (λ p. take (length (join done) + length n + 1) p)
      (ap join (sym (append_assoc done (n ∷ []) ns)) ∙ join-append (done ++ n ∷ []) ns)
    ∙ ap (λ k. take k (join (done ++ n ∷ []) ++ join ns)) (sym (length-join_last done n))
    ∙ take-append (join (done ++ n ∷ [])) (join ns)

but_last-slash : (s : Str) → but_last (s ++ slash ∷ []) ≡ s
unfolding but_last
but_last-slash [] = refl
but_last-slash (c ∷ []) = refl
but_last-slash (c ∷ d ∷ s) = ap (λ r. c ∷ r) (but_last-slash (d ∷ s))

without_slash-slash : (s : Str) → without_slash (s ++ slash ∷ []) ≡ s
unfolding without_slash
without_slash-slash [] = refl
without_slash-slash (c ∷ []) = refl
without_slash-slash (c ∷ d ∷ s) = ap (λ r. c ∷ r) (without_slash-slash (d ∷ s))

components-trailing_slash :
    (s seg : Str) → components_from (s ++ slash ∷ []) seg ≡ components_from s seg
unfolding components_from
components-trailing_slash [] seg = refl
components-trailing_slash (c ∷ s) seg = elim (Bool-cases (c == slash)) [
  | inl e ↦ rw e (ap (flush seg) (components-trailing_slash s []))
  | inr e ↦ rw e (components-trailing_slash s (seg ++ c ∷ []))
]

split_slash-name : (n x : Str) → NoSlash n → split_slash (n ++ slash ∷ x) ≡ some (n, slash ∷ x)
unfolding split_slash
split_slash-name [] x h = refl
split_slash-name (c ∷ n) x h = rw (h.0, split_slash-name n x h.1) refl

split_slash-none : (n : Str) → NoSlash n → split_slash n ≡ none
unfolding split_slash
split_slash-none [] h = refl
split_slash-none (c ∷ n) h = rw (h.0, split_slash-none n h.1) refl

-- How long the paths of the files are.
pub length-entry_path :
    (n x : Str)
    → NoSlash n
    → length (entry_path (internal n x)) ≡ length (components n) + 3 + length (components x)
unfolding objectid_to_workspace_fs_path workspace_path
length-entry_path n x h =
    let ge = Prefix.generic_entry ∷ [] in
    let below = Prefix.root ∷ components (slash ∷ x) in
    rw (split_slash-name n x h) (
      omega (
        arith,
        length-append (components n ++ below) ge,
        length-append (components n) below,
        ap length (components-slash slash x refl),
      ))

pub length-entry_path_name :
    (n : Str) → NoSlash n → length (entry_path n) ≡ length (components n) + 2
unfolding objectid_to_workspace_fs_path workspace_path
length-entry_path_name n h =
    rw (split_slash-none n h)
      (omega (arith, length-append (components n) (Prefix.generic_entry ∷ [])))

-- The id of the entity at the end of a path, as it is stored and as it is read.
internal-last :
    (n : Str) (done : List Str) (m : Str)
    → internal n (join (done ++ m ∷ [])) ≡ internal n (join done ++ m) ++ slash ∷ []
internal-last n done m =
    ap (internal n) (join-last done m)
    ∙ sym (append_assoc n (slash ∷ (join done ++ m)) (slash ∷ []))

pub but_last-internal :
    (n : Str) (done : List Str) (m : Str)
    → but_last (internal n (join (done ++ m ∷ []))) ≡ internal n (join done ++ m)
but_last-internal n done m =
    ap but_last (internal-last n done m) ∙ but_last-slash (internal n (join done ++ m))

pub without_slash-internal :
    (n : Str) (done : List Str) (m : Str)
    → without_slash (internal n (join (done ++ m ∷ []))) ≡ internal n (join done ++ m)
without_slash-internal n done m =
    ap without_slash (internal-last n done m) ∙ without_slash-slash (internal n (join done ++ m))

components-leaf :
    (done : List Str) (m : Str)
    → AreNames (done ++ m ∷ [])
    → components (join done ++ m) ≡ done ++ m ∷ []
unfolding components
components-leaf done m h =
    sym (components-trailing_slash (join done ++ m) [])
    ∙ ap (λ s. components_from s []) (sym (join-last done m))
    ∙ components-join (done ++ m ∷ []) h

path_eq-length : (p q : FsPath) → length p ≢ length q → path_eq p q ≡ false
path_eq-length p q h = elim (Bool-cases (path_eq p q)) [
  | inl e ↦ absurd (h (ap length (path_eq→eq p q e)))
  | inr e ↦ e
]

module _ (n : Str) (done : List Str) (m : Str) (hn : NoSlash n)
    (h : AreNames (done ++ m ∷ [])) where
  -- The file of the entity at the end of a path.
  abbrev pub leaf_file : FsPath
  leaf_file = entry_path (internal n (join done ++ m))

  length-leaf_file : length leaf_file ≡ length (components n) + 3 + (length done + 1)
  length-leaf_file =
      length-entry_path n (join done ++ m) hn
      ∙ ap (λ k. length (components n) + 3 + k)
          (ap length (components-leaf done m h) ∙ length-append done (m ∷ []))

  pub leaf_file-tree :
      (cs : List Str)
      → AreNames cs
      → length cs < length done + 1
      → path_eq (entry_path (internal n (join cs))) leaf_file ≡ false
  leaf_file-tree cs k l = path_eq-length (entry_path (internal n (join cs))) leaf_file (λ e. omega (
    arith,
    e,
    length-leaf_file,
    length-entry_path n (join cs) hn,
    ap length (components-join cs k),
    l,
  ))

  pub leaf_file-workspace : path_eq (entry_path n) leaf_file ≡ false
  leaf_file-workspace =
      path_eq-length (entry_path n) leaf_file
        (λ e. omega (arith, e, length-leaf_file, length-entry_path_name n hn))

-- ===== src/Workspace/Fresh.antt =====
-- `createPath` of an entity where nothing stands on the path yet.
use mapit.Base.{
  Str, ℕ, suc, ◌+◌, ◌<◌, [], ◌∷◌, ◌++◌, List, some, Bool, true, false, ◌&&◌, if◌then◌else◌, length,
}
use mapit.Base.{◌≡◌, refl, sym, ap, subst, ◌∙◌, arith, append_assoc, length-append}
use mapit.Messages.{
  Tree, new_tree, Entity, Codec, message_entity, message_tree, of_entity, of_tree, lookup,
}
use mapit.Paths.{Segment, walk}
use mapit.Paths.Canonical.{join}
use mapit.Paths.Names.{AreNames}
use mapit.Paths.Segments.{numbered}
use mapit.Outcome.{Outcome, returned, thrown, running}
use mapit.Serializer.Disk.{FsPath, entry, entry_path, path_eq, path_eq_refl, fs_write}
use mapit.Serializer.RoundTrip.{fs_write-overwrites}
use mapit.Serializer.Transient
use mapit.Workspace.{Workspace, internal, object_reference_of_child}
use mapit.Workspace.Walk.{
  Walk, entity_leaf, take, but_last, set_origin, put_leaf, track, at_missing, hook_parent,
  store_back, up, after, store_object,
}
use mapit.Workspace.Create.{before, below, at_reference}
use mapit.Workspace.Files.{take-join, length-join_last}

and_false : (b : Bool) → (b && false) ≡ false
and_false true = refl
and_false false = refl

AreNames-append : (xs ys : List Str) → AreNames xs → AreNames ys → AreNames (xs ++ ys)
AreNames-append [] ys h k = k
AreNames-append (x ∷ xs) ys h k = (h.0, AreNames-append xs ys h.1 k)

numbered-more :
    (pos : ℕ) (n : Str) (rest : List Str) (m : Str)
    → numbered pos (n ∷ (rest ++ m ∷ []))
      ≡ record { name = n; idx = pos + length n + 1; is_last = false }
        ∷ numbered (pos + length n + 1) (rest ++ m ∷ [])
unfolding numbered
numbered-more pos n [] m = refl
numbered-more pos n (x ∷ rest) m = refl

-- A walk that stands in a new tree.
abbrev pub fresh : Workspace → List Tree → Walk
fresh w ts = record {
  workspace = w;
  current = some new_tree;
  transient_tree_path = ts;
  leaf_was_stored = false;
  leaf_path_internal = [];
}

module _ (codec : Codec) (delete_object : Str → Workspace → Outcome Workspace) (e : Entity)
    (name p : Str) (F : FsPath) where
  -- The walk succeeded, the entity is in its file, and so many trees wait to be stored.
  abbrev pub Written : ℕ → Bool × Outcome Walk → Type 0
  Written k (true, returned s) =
      (s.workspace.name ≡ name)
      × (s.workspace.disk F
          ≡ some (entry (record { type = message_entity; content = of_entity e })))
      × (length s.transient_tree_path ≡ k)
  Written k (true, thrown) = ⊥
  Written k (true, running) = ⊥
  Written k (false, o) = ⊥

  fs_write-same :
      (q : FsPath) (w : Workspace)
      → q ≡ F
      → fs_write q (of_entity e) message_entity true w.disk F
        ≡ some (entry (record { type = message_entity; content = of_entity e }))
  fs_write-same q w h =
      fs_write-overwrites q F (of_entity e) message_entity w.disk ∙ rw (h, path_eq_refl F) refl

  fs_write-other :
      (q : FsPath) (t : Tree) (w : Workspace)
      → path_eq q F ≡ false
      → fs_write q (of_tree t) message_tree true w.disk F ≡ w.disk F
  fs_write-other q t w h = fs_write-overwrites q F (of_tree t) message_tree w.disk ∙ rw h refl

  store_back-Written :
      (k : ℕ) (seg : Segment) (s : Walk) (ts : List Tree)
      → s.workspace.name ≡ name
      → s.workspace.disk F ≡ some (entry (record { type = message_entity; content = of_entity e }))
      → length ts ≡ suc (suc k)
      → path_eq (entry_path (internal name (take seg.idx p))) F ≡ false
      → Written (suc k) (store_back p seg s ts)
  unfolding store_back hook_parent Transient.store_tree_transient
  store_back-Written k seg s [] h d l q = absurd (omega (arith, l))
  store_back-Written k seg s (t ∷ []) h d l q = absurd (omega (arith, l))
  store_back-Written k seg s (t ∷ u ∷ ts) h d l q = (
    h,
    fs_write-other (entry_path (internal s.workspace.name (take seg.idx p))) t s.workspace
          (subst (λ n. path_eq (entry_path (internal n (take seg.idx p))) F ≡ false) (sym h) q)
        ∙ d,
    omega (arith, l),
  )

  after-inner :
      (k : ℕ) (n : Str) (i : ℕ) (r : Bool × Outcome Walk)
      → path_eq (entry_path (internal name (take i p))) F ≡ false
      → Written (suc (suc k)) r
      → let seg : Segment = record { name = n; idx = i; is_last = false } in
        Written (suc k) (if r.0 then after p false seg r.1 else (false, r.1))
  unfolding after up
  after-inner k n i (true, returned s) q h = rw (and_false s.leaf_was_stored) (
      store_back-Written k (record { name = n; idx = i; is_last = false }) s s.transient_tree_path
        h.0 h.1 h.2 q)
  after-inner k n i (true, thrown) q h = absurd h
  after-inner k n i (true, running) q h = absurd h
  after-inner k n i (false, o) q h = absurd h

  walk-leaf :
      (c : ℕ) (n : Str) (i : ℕ) (w : Workspace) (t : Tree) (ts : List Tree)
      → w.name ≡ name
      → entry_path (but_last (internal name (take i p))) ≡ F
      → Written (suc (length ts)) (
          walk
            (before codec delete_object p (entity_leaf e) false)
            (after p false)
            (record { name = c ∷ n; idx = i; is_last = true } ∷ [])
            (returned (fresh w (t ∷ ts))))
  unfolding walk before below at_reference at_missing object_reference_of_child lookup track
      put_leaf store_object after up hook_parent Transient.store_entity_transient
  walk-leaf c n i w t ts h q = (
    h,
    fs_write-same (entry_path (but_last (internal w.name (take i p)))) w
        (ap (λ s. entry_path (but_last (internal s (take i p)))) h ∙ q),
    refl,
  )

  -- What a walk over some segments comes to.
  abbrev walked : List Segment → Walk → Bool × Outcome Walk
  walked gs s =
      walk (before codec delete_object p (entity_leaf e) false) (after p false) gs (returned s)

  walk-inner :
      (c : ℕ) (n : Str) (i : ℕ) (gs : List Segment) (w : Workspace) (ts : List Tree) (k : ℕ)
      → path_eq (entry_path (internal name (take i p))) F ≡ false
      → Written
          (suc (suc k))
          (walked gs (fresh (set_origin (internal w.name (take i p)) [] w) (new_tree ∷ ts)))
      → Written
          (suc k)
          (walked (record { name = c ∷ n; idx = i; is_last = false } ∷ gs) (fresh w ts))
  unfolding walk before below at_reference at_missing object_reference_of_child lookup
  walk-inner c n i gs w ts k q h =
      after-inner k (c ∷ n) i
        (walked gs (fresh (set_origin (internal w.name (take i p)) [] w) (new_tree ∷ ts))) q h

  pub walk-names :
      (done rest : List Str) (m : Str) (w : Workspace) (t : Tree) (ts : List Tree)
      → w.name ≡ name
      → p ≡ join (done ++ (rest ++ m ∷ []))
      → AreNames done
      → AreNames (rest ++ m ∷ [])
      → ((cs : List Str)
          → AreNames cs
          → length cs < length done + length rest + 1
          → path_eq (entry_path (internal name (join cs))) F ≡ false)
      → entry_path (but_last (internal name p)) ≡ F
      → Written
          (suc (length ts))
          (walked (numbered (length (join done)) (rest ++ m ∷ [])) (fresh w (t ∷ ts)))
  unfolding numbered
  walk-names done [] [] w t ts hw hp hd hr trees leaf = absurd hr.0
  walk-names done [] (c ∷ m) w t ts hw hp hd hr trees leaf =
      let i = length (join done) + length (c ∷ m) + 1 in
      walk-leaf c m i w t ts hw (
        ap (λ s. entry_path (but_last (internal name s)))
          (ap (take i) hp ∙ take-join done (c ∷ m) [] ∙ sym hp)
        ∙ leaf)
  walk-names done ([] ∷ rest) m w t ts hw hp hd hr trees leaf = absurd hr.0
  walk-names done ((c ∷ n) ∷ rest) m w t ts hw hp hd hr trees leaf =
      let i = length (join done) + length (c ∷ n) + 1 in
      let so_far = done ++ (c ∷ n) ∷ [] in
      let are_names = AreNames-append done ((c ∷ n) ∷ []) hd (hr.0, tt) in
      let at_i : take i p ≡ join so_far =
        ap (take i) hp ∙ take-join done (c ∷ n) (rest ++ m ∷ []) in
      let count = length-append done ((c ∷ n) ∷ []) in
      let w' = set_origin (internal w.name (take i p)) [] w in
      rw (numbered-more (length (join done)) (c ∷ n) rest m) (
        walk-inner c n i (numbered i (rest ++ m ∷ [])) w (t ∷ ts) (length ts)
          (subst (λ s. path_eq (entry_path (internal name s)) F ≡ false) (sym at_i)
            (trees so_far are_names (omega (arith, count))))
          (subst
            (λ k.
              Written (suc (suc (length ts)))
                (walked (numbered k (rest ++ m ∷ [])) (fresh w' (new_tree ∷ t ∷ ts))))
            (length-join_last done (c ∷ n))
            (walk-names so_far rest m w' new_tree (t ∷ ts) hw
              (hp ∙ ap join (sym (append_assoc done ((c ∷ n) ∷ []) (rest ++ m ∷ [])))) are_names
              hr.1 (λ cs k l. trees cs k (omega (arith, count, l))) leaf)))

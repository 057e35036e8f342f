-- ===== src/Workspace/Resolve.antt =====
-- What `objectReferenceForPath` finds.
use mapit.Base.{
  Str, ℕ, ◌+◌, List, [], ◌∷◌, ◌++◌, Option, none, some, Bool, true, false, if◌then◌else◌, ◌≡◌, refl,
  sym, ap, subst, ◌∙◌,
}
use mapit.Base.{arith, length}
use mapit.Messages.{ObjectReference, null_ref, Tree, Codec}
use mapit.Paths.{Segment, walk, for_each_path_segment}
use mapit.Paths.Canonical.{components}
use mapit.Paths.Names.{IsName, AreNames, components-AreNames}
use mapit.Paths.Segments.{numbered, path_segments, segments-prepare_path}
use mapit.Search.{is_empty}
use mapit.Serializer.Disk.{Disk}
use mapit.Workspace.{
  Workspace, Cursor, root_ref, is_null, object_reference_of_child, get_tree_by_ref, look, never_up,
  object_reference_for_path,
}

module _ (codec : Codec) (d : Disk) where
  -- From a reference down the names. The way ends at an object that is no tree, with the reference to
  -- that object, and at a name that its tree does not have, with an unset reference.
  unfoldable pub descend : ObjectReference → List Str → ObjectReference
  descend ref [] = ref
  descend ref (n ∷ ns) = elim (get_tree_by_ref codec ref d) [
    | none ↦ ref
    | some t ↦
        let rest = descend (object_reference_of_child t n) ns in
        if is_null (object_reference_of_child t n) then object_reference_of_child t n else rest
  ]

  is_empty_name : (n : Str) → IsName n → is_empty n ≡ false
  is_empty_name [] h = elim h [ ]
  is_empty_name (c ∷ n) h = refl

  abbrev at : ObjectReference → Cursor
  at ref = record { ref = ref; current = get_tree_by_ref codec ref d }

  abbrev walked : List Segment → ObjectReference → ObjectReference
  walked gs ref = (walk (look codec d) never_up gs (at ref)).1.ref

  walk_first :
      (g : Segment) (gs : List Segment) (ref : ObjectReference)
      → is_empty g.name ≡ false
      → g.is_last ≡ false
      → walked (g ∷ gs) ref ≡ elim (get_tree_by_ref codec ref d) [
        | none ↦ ref
        | some t ↦
            if is_null (object_reference_of_child t g.name)
            then object_reference_of_child t g.name
            else walked gs (object_reference_of_child t g.name)
      ]
  unfolding walk look
  walk_first g gs ref h k = ground arith

  -- Both continue with the child that is found.
  then_rest :
      (n : Str) (f g : ObjectReference → ObjectReference) (ref : ObjectReference) (o : Option Tree)
      → ((r : ObjectReference) → f r ≡ g r)
      → (elim o [
        | none ↦ ref
        | some t ↦
            if is_null (object_reference_of_child t n)
            then object_reference_of_child t n
            else f (object_reference_of_child t n)
      ])
        ≡ (elim o [
          | none ↦ ref
          | some t ↦
              if is_null (object_reference_of_child t n)
              then object_reference_of_child t n
              else g (object_reference_of_child t n)
        ])
  then_rest n f g ref none h = refl
  then_rest n f g ref (some t) h =
      ap (λ r. if is_null (object_reference_of_child t n) then object_reference_of_child t n else r)
        (h (object_reference_of_child t n))

  walk-descend :
      (pos : ℕ) (n : Str) (ns : List Str) (ref : ObjectReference)
      → AreNames (n ∷ ns)
      → walked (numbered pos (n ∷ ns)) ref ≡ descend ref (n ∷ ns)
  unfolding numbered walk look descend
  walk-descend pos n [] ref h = ground (arith, is_empty_name n h.0)
  walk-descend pos n (m ∷ ns) ref h =
      walk_first (record { name = n; idx = pos + length n + 1; is_last = false })
        (numbered (pos + length n + 1) (m ∷ ns)) ref (is_empty_name n h.0) refl
      ∙ then_rest n (walked (numbered (pos + length n + 1) (m ∷ ns))) (λ r. descend r (m ∷ ns)) ref
          (get_tree_by_ref codec ref d) (λ r. walk-descend (pos + length n + 1) m ns r h.1)

  walked-root :
      (ref : ObjectReference) (o : Option Tree)
      → (walk (look codec d) never_up (path_segments []) (record { ref = ref; current = o })).1.ref
        ≡ ref
  unfolding walk look path_segments
  walked-root ref none = refl
  walked-root ref (some t) = refl

  walked-path :
      (cs : List Str) (ref : ObjectReference)
      → AreNames cs
      → walked (path_segments cs) ref ≡ descend ref cs
  unfolding path_segments descend
  walked-path [] ref h = walked-root ref (get_tree_by_ref codec ref d)
  walked-path (n ∷ ns) ref h = walk-descend 0 n ns ref h

-- `objectReferenceForPath` of a path that is not empty is the unset reference where the workspace has
-- no root, and otherwise what the names of the path lead to from the root: each name is looked up in
-- the tree reached so far, a missing name gives the unset reference, and an object that is no tree
-- ends the way with the reference to that object.
pub object_reference_for_path-descend :
    (codec : Codec) (c : ℕ) (r : Str) (w : Workspace)
    → object_reference_for_path codec (c ∷ r) w ≡ (
        if is_null (root_ref w)
        then null_ref
        else descend codec w.disk (root_ref w) (components (c ∷ r)))
unfolding object_reference_for_path for_each_path_segment
object_reference_for_path-descend codec c r w = rw (segments-prepare_path c r) (
    ap (λ t. if is_null (root_ref w) then null_ref else t)
      (walked-path codec w.disk (components (c ∷ r)) (root_ref w) (components-AreNames (c ∷ r))))

module _ (codec : Codec) (d : Disk) where
  abbrev Stops : (ObjectReference → ObjectReference) → (ObjectReference → ObjectReference) → Type 0
  Stops f g = (r : ObjectReference) → get_tree_by_ref codec (f r) d ≡ none → g r ≡ f r

  stop_or_rest :
      (c : Bool) (r : ObjectReference) (f g : ObjectReference → ObjectReference)
      → Stops f g
      → get_tree_by_ref codec (if c then r else f r) d ≡ none
      → (if c then r else g r) ≡ (if c then r else f r)
  stop_or_rest true r f g k h = refl
  stop_or_rest false r f g k h = k r h

  stop_or_child :
      (n : Str) (ref : ObjectReference) (f g : ObjectReference → ObjectReference) (o : Option Tree)
      → Stops f g
      → get_tree_by_ref codec
          (elim o [
            | none ↦ ref
            | some t ↦
                if is_null (object_reference_of_child t n)
                then object_reference_of_child t n
                else f (object_reference_of_child t n)
          ])
          d
        ≡ none
      → (elim o [
        | none ↦ ref
        | some t ↦
            if is_null (object_reference_of_child t n)
            then object_reference_of_child t n
            else g (object_reference_of_child t n)
      ])
        ≡ (elim o [
          | none ↦ ref
          | some t ↦
              if is_null (object_reference_of_child t n)
              then object_reference_of_child t n
              else f (object_reference_of_child t n)
        ])
  stop_or_child n ref f g none k h = refl
  stop_or_child n ref f g (some t) k h =
      stop_or_rest (is_null (object_reference_of_child t n)) (object_reference_of_child t n) f g k h

  descend-none :
      (ref : ObjectReference) (ms : List Str)
      → get_tree_by_ref codec ref d ≡ none
      → descend codec d ref ms ≡ ref
  unfolding descend
  descend-none ref [] h = refl
  descend-none ref (m ∷ ms) h = rw (descend, h) refl

  descend-append :
      (ns ms : List Str) (ref : ObjectReference)
      → get_tree_by_ref codec (descend codec d ref ns) d ≡ none
      → descend codec d ref (ns ++ ms) ≡ descend codec d ref ns
  unfolding descend
  descend-append [] ms ref h = descend-none ref ms h
  descend-append (n ∷ ns) ms ref h =
      stop_or_child n ref (λ r. descend codec d r ns) (λ r. descend codec d r (ns ++ ms))
        (get_tree_by_ref codec ref d) (λ r k. descend-append ns ms r k) h

-- A path that goes on below an object that is no tree, such as an entity, resolves to that object.
pub object_reference_for_path-below :
    (codec : Codec) (w : Workspace) (p q : ℕ × Str) (ms : List Str)
    → components (q.0 ∷ q.1) ≡ components (p.0 ∷ p.1) ++ ms
    → get_tree_by_ref codec (object_reference_for_path codec (p.0 ∷ p.1) w) w.disk ≡ none
    → object_reference_for_path codec (q.0 ∷ q.1) w ≡ object_reference_for_path codec (p.0 ∷ p.1) w
object_reference_for_path-below codec w p q ms e h =
    let root = root_ref w in
    let ns = components (p.0 ∷ p.1) in
    let at_p = object_reference_for_path-descend codec p.0 p.1 w in
    object_reference_for_path-descend codec q.0 q.1 w
    ∙ rw e (
        stop_or_rest codec w.disk (is_null root) null_ref (λ _. descend codec w.disk root ns)
          (λ _. descend codec w.disk root (ns ++ ms))
          (λ _ k. descend-append codec w.disk ns ms root k)
          (subst (λ r. get_tree_by_ref codec r w.disk ≡ none) at_p h))
    ∙ sym at_p

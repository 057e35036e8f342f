-- ===== src/Repository/References.antt =====
-- The references of a tree that `commit` stores.
use mapit.Base.{
  Str, List, [], ◌∷◌, Option, none, some, Bool, true, false, ◌||◌, ◌≡◌, ◌↔◌, refl, ap, sym, subst,
}
use mapit.Messages.{ObjectReference, Refs, lookup}
use mapit.Outcome.{returned, thrown, Ends, Ends-bind}
use mapit.Search.{is_empty}
use mapit.Repository.Commit.{path_below, new_reference, persist_reference, persist_references}

-- A reference has an id or a path, never both.
abbrev pub IsReference : ObjectReference → Type 0
IsReference r = (is_empty r.id || is_empty r.path) ≡ true

abbrev pub All : (ObjectReference → Type 0) → Refs → Type 0
All P [] = Unit
All P ((name, ref) ∷ refs) = P ref × All P refs

-- A reference, and what is stored for it: a stored one as it is; a transient one with the id that its object
-- has got, which is found by the path below the workspace, and without the path.
pub data IsStored (oids : List (Str × Str)) : ObjectReference → ObjectReference → Type 0 where
  kept :
      (id : Str)
      → is_empty id ≡ false
      → IsStored oids (record { id = id; path = [] }) (record { id = id; path = [] })
  moved :
      (id path child : Str)
      → is_empty path ≡ false
      → path_below path ≡ some child
      → lookup child oids ≡ some id
      → is_empty id ≡ false
      → IsStored oids (record { id = []; path = path }) (record { id = id; path = [] })

-- The same for every reference of a tree, under the same names in the same order.
pub data AreStored (oids : List (Str × Str)) : Refs → Refs → Type 0 where
  no_more : AreStored oids [] []
  one_more :
      {ref new : ObjectReference} {refs news : Refs} (name : Str)
      → IsStored oids ref new
      → AreStored oids refs news
      → AreStored oids ((name, ref) ∷ refs) ((name, new) ∷ news)

new_reference-IsStored :
    (oids : List (Str × Str)) (path child : Str) (o : Option Str)
    → is_empty path ≡ false
    → path_below path ≡ some child
    → lookup child oids ≡ o
    → let old : ObjectReference = record { id = []; path = path } in
      Ends (IsStored oids old) (new_reference old o)
unfolding new_reference
new_reference-IsStored oids path child none h k l = tt
new_reference-IsStored oids path child (some []) h k l = tt
new_reference-IsStored oids path child (some (c ∷ id)) h k l =
    unfold mapit.Base.str_eq in IsStored.moved (c ∷ id) path child h k l refl

persist_reference-IsStored :
    (oids : List (Str × Str)) (id path : Str)
    → IsReference (record { id = id; path = path })
    → let old : ObjectReference = record { id = id; path = path } in
      Ends (IsStored oids old) (persist_reference oids old)
unfolding persist_reference
persist_reference-IsStored oids [] [] h = tt
persist_reference-IsStored oids (c ∷ id) [] h = IsStored.kept (c ∷ id) refl
persist_reference-IsStored oids (c ∷ id) (e ∷ path) h = absurd (cc)
persist_reference-IsStored oids [] (c ∷ path) h = below (path_below (c ∷ path)) refl
  where
    below :
        (o : Option Str)
        → path_below (c ∷ path) ≡ o
        → Ends (IsStored oids (record { id = []; path = c ∷ path })) (elim o [
          | none ↦ thrown
          | some child ↦ new_reference (record { id = []; path = c ∷ path }) (lookup child oids)
        ])
    below none k = tt
    below (some child) k =
        new_reference-IsStored oids (c ∷ path) child (lookup child oids) refl k refl

persist_references-AreStored :
    (oids : List (Str × Str)) (refs : Refs)
    → All IsReference refs
    → Ends (AreStored oids refs) (persist_references oids refs)
unfolding persist_references
persist_references-AreStored oids [] h = AreStored.no_more
persist_references-AreStored oids ((name, ref) ∷ refs) h =
    Ends-bind (IsStored oids ref) (AreStored oids ((name, ref) ∷ refs)) _ _
      (persist_reference-IsStored oids ref.id ref.path h.0)
      λ r k.
        Ends-bind (AreStored oids refs) (AreStored oids ((name, ref) ∷ refs)) _ _
          (persist_references-AreStored oids refs h.1) λ news l. AreStored.one_more name k l

stored_reference :
    (oids : List (Str × Str)) (ref new : ObjectReference)
    → IsStored oids ref new
    → persist_reference oids ref ≡ returned new
unfolding persist_reference new_reference
stored_reference oids _ _ (IsStored.kept id h) = rw h refl
stored_reference oids _ _ (IsStored.moved [] path child h k l m) = absurd (cc)
stored_reference oids _ _ (IsStored.moved (c ∷ id) path child h k l m) =
    unfold mapit.Base.str_eq in rw (h, k, l) refl

stored_references :
    (oids : List (Str × Str)) (refs news : Refs)
    → AreStored oids refs news
    → persist_references oids refs ≡ returned news
unfolding persist_references
stored_references oids _ _ AreStored.no_more = refl
stored_references oids _ _ (AreStored.one_more {ref} {new} {refs} {news} name k l) =
    rw (stored_reference oids ref new k, stored_references oids refs news l) refl

-- Of references that have an id or a path, never both, the new tree of a commit is returned exactly if every
-- reference is a stored one, which stays, or a transient one whose path below the workspace has got an id; it
-- has that id then and no path. The names stay, in their order.
pub persist_references-IsStored :
    (oids : List (Str × Str)) (refs news : Refs)
    → All IsReference refs
    → (persist_references oids refs ≡ returned news) ↔ AreStored oids refs news
persist_references-IsStored oids refs news h = (
  λ e. subst (Ends (AreStored oids refs)) e (persist_references-AreStored oids refs h),
  stored_references oids refs news,
)

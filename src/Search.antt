-- ===== src/Search.antt =====
-- libs/core/src/depthfirstsearch.cpp: the search over the trees of a workspace or of a repository.
pub mod Invariant
use mapit.Base.{
  Str, codes, ℕ, zero, suc, List, [], ◌∷◌, ◌++◌, Option, none, some, Bool, true, false,
}
use mapit.Base.{if◌then◌else◌, str_eq}
use mapit.Messages.{
  ObjectReference, Refs, Tree, Entity, MessageType, message_empty, message_tree, message_entity,
  message_commit, message_branch, message_workspace,
}
use mapit.Paths.{slash}
use mapit.TreeHash.{sort_refs}
use mapit.Outcome.{Outcome, returned, thrown, running, ◌>>=◌}
use mapit.Status

abbrev pub is_empty : Str → Bool
is_empty [] = true
is_empty (c ∷ s) = false

-- `MAPIT_DATA_SOURCE`: the three methods that the template calls, over the state `S`.
pub record Source {ℓ} (S : Type ℓ) : Type ℓ where
  pub type_of_object : Str → S → MessageType
  pub get_tree : Str → S → Option Tree
  pub get_entity : Str → S → Option Entity

-- The four callbacks. They share and change the state that they capture.
pub record Visitor {ℓ} (S : Type ℓ) : Type ℓ where
  pub before_tree : Tree → ObjectReference → Str → S → Bool × S
  pub after_tree : Tree → ObjectReference → Str → S → Bool × S
  pub before_entity : Entity → ObjectReference → Str → S → Bool × S
  pub after_entity : Entity → ObjectReference → Str → S → Bool × S

-- `depthFirstSearchWorkspaceAll`
abbrev pub all {ℓ κ} : {A : Type ℓ} {S : Type κ} → A → ObjectReference → Str → S → Bool × S
all a ref path s = (true, s)

-- `(path=="/"?"":path) + "/" + iter->first`
unfoldable pub child_path : Str → Str → Str
unfolding str_eq
child_path path name = (if str_eq path (slash ∷ []) then [] else path) ++ (slash ∷ name)

-- A reference without a path is looked up by its id, any other by the path of the child.
unfoldable pub template_reference : ObjectReference → Str → Str
template_reference ref childpath = if is_empty ref.path then ref.id else childpath

module _ {ℓ} {S : Type ℓ} (visitor : Visitor S) where
  -- `depthFirstSearchGeneric` of an entity: `afterEntity` is called whatever `beforeEntity` says.
  unfoldable pub search_entity : Entity → ObjectReference → Str → S → Outcome (ℕ × S)
  search_entity e ref path s =
      let (go_on, s') = visitor.before_entity e ref path s in
      returned (Status.ok, (visitor.after_entity e ref path s').1)

  -- The code asserts that the entity is there.
  unfoldable pub search_entity_at : Option Entity → ObjectReference → Str → S → Outcome (ℕ × S)
  unfolding search_entity
  search_entity_at none ref path s = thrown
  search_entity_at (some e) ref path s = search_entity e ref path s

  module _ (source : Source S) where
    -- One child, by the type of its object. `visit` searches a tree. A commit fails an assertion.
    unfoldable pub search_child :
        (Option Tree → ObjectReference → Str → S → Outcome (ℕ × S))
        → MessageType
        → Str
        → ObjectReference
        → Str
        → S
        → Outcome (ℕ × S)
    unfolding search_entity_at
    search_child visit message_commit key ref path s = thrown
    search_child visit message_tree key ref path s = visit (source.get_tree key s) ref path s
    search_child visit message_entity key ref path s =
        search_entity_at (source.get_entity key s) ref path s
    search_child visit _ key ref path s = returned (Status.ok, s)

    -- `if(!mapitIsOk(s)) return s;`
    unfoldable pub or_stop : (S → Outcome (ℕ × S)) → ℕ × S → Outcome (ℕ × S)
    or_stop rest (status, s) =
        let o = rest s in if Status.is_ok status then o else returned (status, s)

    -- The loop over the sorted references ends at the first status that is not ok.
    unfoldable pub search_children :
        (Option Tree → ObjectReference → Str → S → Outcome (ℕ × S))
        → Refs
        → Str
        → S
        → Outcome (ℕ × S)
    unfolding search_child child_path template_reference or_stop
    search_children visit [] path s = returned (Status.ok, s)
    search_children visit ((name, ref) ∷ refs) path s =
        let childpath = child_path path name in
        let key = template_reference ref childpath in
        search_child visit (source.type_of_object key s) key ref childpath s
        >>= or_stop (λ s'. search_children visit refs path s')

    -- The end of a tree: `afterTree` is called where the children went well.
    unfoldable pub end_tree : Tree → ObjectReference → Str → ℕ × S → Outcome (ℕ × S)
    end_tree t ref path (status, s) =
        if Status.is_ok status
        then returned (Status.ok, (visitor.after_tree t ref path s).1)
        else returned (status, s)

    -- `depthFirstSearchGeneric` of a tree, on fuel for the depth.
    unfoldable pub depth_first_search :
        ℕ → Option Tree → ObjectReference → Str → S → Outcome (ℕ × S)
    unfolding search_children end_tree sort_refs
    depth_first_search zero t ref path s = running
    depth_first_search (suc fuel) none ref path s = returned (Status.error, s)
    depth_first_search (suc fuel) (some t) ref path s =
        let (go_on, s') = visitor.before_tree t ref path s in
        let searched =
          search_children (depth_first_search fuel) (sort_refs t.refs) path s'
          >>= end_tree t ref path in
        if go_on then searched else returned (Status.ok, (visitor.after_tree t ref path s').1)

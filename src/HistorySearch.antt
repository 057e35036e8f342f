-- ===== src/HistorySearch.antt =====
-- The entry points of libs/core/src/depthfirstsearch.cpp: the search of a workspace from a path, and the
-- search of a history from a commit.
pub mod Visits
use mapit.Base.{
  Str, ℕ, zero, suc, List, [], ◌∷◌, Option, none, some, Bool, true, false, if◌then◌else◌,
}
use mapit.Messages.{ObjectReference, null_ref, root_of, Tree, Commit, Codec}
use mapit.Paths.{slash}
use mapit.Ancestors.{CommitVisitor}
use mapit.Search.{Source, Visitor, is_empty, depth_first_search}
use mapit.Serializer.Disk.{Disk}
use mapit.Serializer.Objects
use mapit.Outcome.{Outcome, returned, thrown, running, ◌>>=◌}
use mapit.Status

-- `depthFirstSearchStop`
abbrev pub stop {ℓ κ} : {A : Type ℓ} {S : Type κ} → A → ObjectReference → Str → S → Bool × S
stop a ref path s = (false, s)

abbrev pub stopper {ℓ} : {S : Type ℓ} → Visitor S
stopper = record {
  before_tree = stop;
  after_tree = stop;
  before_entity = stop;
  after_entity = stop;
}

-- A repository as a source: it looks up ids, and what is stored does not depend on the state.
abbrev pub repository {ℓ} : {S : Type ℓ} → Codec → Disk → Source S
repository codec d = record {
  type_of_object = λ key s. Objects.type_of_object codec key d;
  get_tree = λ key s. Objects.get_tree codec key d;
  get_entity = λ key s. Objects.get_entity codec key d;
}

-- The overloads for a workspace: from its root with the empty path, or from the tree of a path. The
-- overload that they call has no `return`; the status is taken to be that of the search.
module _ {ℓ} {S : Type ℓ} (visitor : Visitor S) (source : Source S) (root : S → Option Tree)
    (fuel : ℕ) where
  unfoldable pub search_tree_at : Str → Option Tree → S → Outcome (ℕ × S)
  unfolding depth_first_search
  search_tree_at path none s = returned (Status.entity_not_found, s)
  search_tree_at path (some t) s = depth_first_search visitor source fuel (some t) null_ref path s

  unfoldable pub depth_first_search_workspace : Str → S → Outcome (ℕ × S)
  unfolding search_tree_at depth_first_search
  depth_first_search_workspace [] s = depth_first_search visitor source fuel (root s) null_ref [] s
  depth_first_search_workspace (c ∷ path) s =
      search_tree_at (c ∷ path) (source.get_tree (c ∷ path) s) s

module _ {ℓ} {S : Type ℓ} (codec : Codec) (d : Disk) (commit_visitor : CommitVisitor S) where
  -- The search of the root tree. The code asserts that its id is set and that it is stored.
  unfoldable pub search_root : Visitor S → ℕ → Str → Option Tree → S → Outcome (ℕ × S)
  unfolding depth_first_search
  search_root visitor fuel id none s = thrown
  search_root visitor fuel id (some t) s =
      if is_empty id
      then thrown
      else depth_first_search visitor (repository codec d) fuel (some t)
          (record { id = id; path = [] }) (slash ∷ []) s

  -- The loop over the parents: a parent is searched without callbacks for trees and entities, and the
  -- status of its search is dropped.
  unfoldable pub search_parents : (Str → S → Outcome (ℕ × S)) → List Str → S → Outcome S
  search_parents visit [] s = returned s
  search_parents visit (id ∷ ids) s =
      let skipped = search_parents visit ids s in
      let visited = visit id s >>= λ (status, s'). search_parents visit ids s' in
      if is_empty id then skipped else visited

  -- The end of a commit: a status that is not ok is returned at once.
  unfoldable pub search_on : (Str → S → Outcome (ℕ × S)) → Commit → Str → ℕ × S → Outcome (ℕ × S)
  unfolding search_parents
  search_on visit c id (status, s) =
      let rest = search_parents visit c.parentcommitids s >>= λ s'.
      returned (Status.ok, (commit_visitor.after_commit c id s').1) in
      if Status.is_ok status then rest else returned (status, s)

  unfoldable pub search_commit :
      (Str → S → Outcome (ℕ × S)) → Visitor S → ℕ → Str → Option Commit → S → Outcome (ℕ × S)
  unfolding search_root search_on
  search_commit visit visitor fuel id none s = thrown
  search_commit visit visitor fuel id (some c) s =
      let (go_on, s') = commit_visitor.before_commit c id s in
      let root_id = (root_of c.root).id in
      let searched =
        search_root visitor fuel root_id (Objects.get_tree codec root_id d) s'
        >>= search_on visit c id in
      if go_on then searched else returned (Status.ok, (commit_visitor.after_commit c id s').1)

  -- `depthFirstSearchHistory`, on fuel for the depth of the history and of each tree.
  unfoldable pub depth_first_search_history : ℕ → Visitor S → Str → S → Outcome (ℕ × S)
  unfolding search_commit
  depth_first_search_history zero visitor id s = running
  depth_first_search_history (suc fuel) visitor id s =
      search_commit (depth_first_search_history fuel stopper) visitor fuel id
        (Objects.get_commit codec id d) s

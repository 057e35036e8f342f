-- ===== src/BreadthFirst.antt =====
-- libs/core/src/breadthFirstSearch.cpp: the search over a history by the stamps of its commits.
pub mod Visits
pub mod Line
use mapit.Base.{
  Str, ℕ, zero, suc, List, [], ◌∷◌, ◌++◌, Option, none, some, Bool, true, false, if◌then◌else◌, ltb,
  ◌==◌,
}
use mapit.Messages.{Commit, Codec}
use mapit.Ancestors.{CommitVisitor}
use mapit.Search.{is_empty}
use mapit.Serializer.Disk.{Disk}
use mapit.Serializer.Objects
use mapit.Time.{Stamp, from_msg}
use mapit.Outcome.{Outcome, returned, thrown, running, ◌>>=◌}

-- `BreadthCommit`
abbrev pub BreadthCommit : Type 0
BreadthCommit = Str × Commit

-- `BreadthMap`, sorted by the stamps.
abbrev pub BreadthMap : Type 0
BreadthMap = List (Stamp × List BreadthCommit)

abbrev pub stamp_of : Commit → Stamp
stamp_of c = from_msg c.stamp

-- The entry of a stamp, created where there is none, gets one more commit.
unfoldable pub push_back : Stamp → BreadthCommit → BreadthMap → BreadthMap
push_back stamp x [] = (stamp, x ∷ []) ∷ []
push_back stamp x ((t, xs) ∷ queue) =
    let rest = push_back stamp x queue in
    if ltb stamp t
    then (stamp, x ∷ []) ∷ (t, xs) ∷ queue
    else if stamp == t
    then (t, xs ++ x ∷ []) ∷ queue
    else (t, xs) ∷ rest

-- `breadthQueue.erase(currentCommitIt)`
unfoldable pub erase_stamp : Stamp → BreadthMap → BreadthMap
erase_stamp stamp [] = []
erase_stamp stamp ((t, xs) ∷ queue) =
    let rest = erase_stamp stamp queue in if stamp == t then queue else (t, xs) ∷ rest

module _ (codec : Codec) (d : Disk) where
  -- The loop over the parents. The code asserts that each is stored.
  unfoldable pub push_parent : Str → Option Commit → BreadthMap → Outcome BreadthMap
  unfolding push_back from_msg
  push_parent id none queue = thrown
  push_parent id (some p) queue = returned (push_back (stamp_of p) (id, p) queue)

  unfoldable pub push_parents : List Str → BreadthMap → Outcome BreadthMap
  unfolding push_parent
  push_parents [] queue = returned queue
  push_parents (id ∷ ids) queue =
      let rest = push_parents ids queue in
      if is_empty id
      then rest
      else push_parent id (Objects.get_commit codec id d) queue >>= push_parents ids

  module _ {ℓ} {S : Type ℓ} (visitor : CommitVisitor S) where
    -- The loop over a copy of the commits of one stamp, with `continueSearchBefore`.
    unfoldable pub visit_commits :
        List BreadthCommit → Bool → BreadthMap → S → Outcome (Bool × BreadthMap × S)
    unfolding push_parents
    visit_commits [] go_on queue s = returned (go_on, queue, s)
    visit_commits ((id, c) ∷ commits) go_on queue s =
        let (go_on', s') = visitor.before_commit c id s in
        push_parents c.parentcommitids queue >>= λ queue'.
        visit_commits commits go_on' queue' (visitor.after_commit c id s').1

    -- The loop over the queue, on fuel.
    unfoldable pub search_queue : ℕ → Bool → BreadthMap → S → Outcome S
    unfolding visit_commits erase_stamp
    search_queue zero go_on queue s = running
    search_queue (suc fuel) false queue s = returned s
    search_queue (suc fuel) true [] s = returned s
    search_queue (suc fuel) true ((stamp, commits) ∷ queue) s =
        visit_commits commits true ((stamp, commits) ∷ queue) s >>= λ (go_on, queue', s').
        search_queue fuel go_on (erase_stamp stamp queue') s'

    -- `breadthFirstSearchHistory`, which always returns `MAPIT_STATUS_OK`.
    unfoldable pub breadth_first_search_history : ℕ → Str → Commit → S → Outcome S
    unfolding search_queue push_back from_msg
    breadth_first_search_history fuel commit_id commit s =
        search_queue fuel true (push_back (stamp_of commit) (commit_id, commit) []) s

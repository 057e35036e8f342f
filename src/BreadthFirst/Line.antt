-- ===== src/BreadthFirst/Line.antt =====
-- The search over a history without merges.
use mapit.Base.{Str, ℕ, zero, suc, ◌≤◌, List, [], ◌∷◌, some, true, false, length}
use mapit.Base.{◌≡◌, ◌≢◌, refl, arith, ◌∙◌}
use mapit.Messages.{Commit, Codec}
use mapit.Ancestors.{CommitVisitor}
use mapit.Search.{is_empty}
use mapit.Serializer.Disk.{Disk}
use mapit.Serializer.Objects
use mapit.Time.{Stamp}
use mapit.Outcome.{returned}
use mapit.BreadthFirst.{
  BreadthCommit, BreadthMap, stamp_of, push_back, erase_stamp, push_parent, push_parents,
  visit_commits, search_queue, breadth_first_search_history,
}

-- A line of commits: each has the next as its only parent, stored, with another stamp; the last has the
-- empty parent id of an initial commit.
abbrev pub IsLine : Codec → Disk → List BreadthCommit → Type 0
IsLine codec d [] = ⊥
IsLine codec d ((id, c) ∷ []) = c.parentcommitids ≡ [] ∷ []
IsLine codec d ((id, c) ∷ (j, p) ∷ rest) =
    (c.parentcommitids ≡ j ∷ [])
    × (is_empty j ≡ false)
    × (Objects.get_commit codec j d ≡ some p)
    × (stamp_of c ≢ stamp_of p)
    × IsLine codec d ((j, p) ∷ rest)

module _ {ℓ} {S : Type ℓ} (visitor : CommitVisitor S) where
  -- Both callbacks at one commit, and at each commit in turn.
  abbrev pub visit : BreadthCommit → S → S
  visit (id, c) s = (visitor.after_commit c id (visitor.before_commit c id s).1).1

  abbrev pub visit_all : List BreadthCommit → S → S
  visit_all [] s = s
  visit_all (x ∷ xs) s = visit_all xs (visit x s)

  -- The callbacks let the search go on at each commit in turn.
  abbrev pub GoesOn : List BreadthCommit → S → Type 0
  GoesOn [] s = Unit
  GoesOn ((id, c) ∷ xs) s = ((visitor.before_commit c id s).0 ≡ true) × GoesOn xs (visit (id, c) s)

  always-GoesOn :
      (xs : List BreadthCommit) (s : S)
      → ((c : Commit) (id : Str) (s' : S) → (visitor.before_commit c id s').0 ≡ true)
      → GoesOn xs s
  always-GoesOn [] s h = tt
  always-GoesOn ((id, c) ∷ xs) s h = (h c id s, always-GoesOn xs (visit (id, c) s) h)

  module _ (codec : Codec) (d : Disk) where
    erase_pushed :
        (t u : Stamp) (x y : BreadthCommit)
        → t ≢ u
        → erase_stamp t (push_back u y ((t, x ∷ []) ∷ [])) ≡ (u, y ∷ []) ∷ []
    unfolding erase_stamp push_back
    erase_pushed t u x y h = ground arith

    erase_only : (t : Stamp) (x : BreadthCommit) → erase_stamp t ((t, x ∷ []) ∷ []) ≡ []
    unfolding erase_stamp
    erase_only t x = ground arith

    push_initial :
        (ids : List Str) (queue : BreadthMap)
        → ids ≡ [] ∷ []
        → push_parents codec d ids queue ≡ returned queue
    unfolding push_parents
    push_initial ids queue h = rw h refl

    push_only :
        (ids : List Str) (j : Str) (p : Commit) (queue : BreadthMap)
        → ids ≡ j ∷ []
        → is_empty j ≡ false
        → Objects.get_commit codec j d ≡ some p
        → push_parents codec d ids queue ≡ returned (push_back (stamp_of p) (j, p) queue)
    unfolding push_parents push_parent
    push_only ids j p queue h k l = rw (h, k, l) refl

    abbrev waiting : BreadthCommit → BreadthMap
    waiting (id, c) = (stamp_of c, (id, c) ∷ []) ∷ []

    search-last :
        (fuel : ℕ) (id : Str) (c : Commit) (s : S)
        → c.parentcommitids ≡ [] ∷ []
        → (visitor.before_commit c id s).0 ≡ true
        → search_queue codec d visitor (suc (suc fuel)) true (waiting (id, c)) s
          ≡ returned (visit (id, c) s)
    unfolding search_queue visit_commits push_parents erase_stamp
    search-last fuel id c s h go_on =
        rw
          (
            push_initial c.parentcommitids (waiting (id, c)) h,
            go_on,
            erase_only (stamp_of c) (id, c),
          )
          refl

    search-next :
        (fuel : ℕ) (id j : Str) (c p : Commit) (s : S)
        → c.parentcommitids ≡ j ∷ []
        → is_empty j ≡ false
        → Objects.get_commit codec j d ≡ some p
        → stamp_of c ≢ stamp_of p
        → (visitor.before_commit c id s).0 ≡ true
        → search_queue codec d visitor (suc fuel) true (waiting (id, c)) s
          ≡ search_queue codec d visitor fuel true (waiting (j, p)) (visit (id, c) s)
    unfolding search_queue visit_commits push_parents push_parent
    search-next fuel id j c p s h k l m go_on =
        rw
          (
            push_only c.parentcommitids j p (waiting (id, c)) h k l,
            go_on,
            erase_pushed (stamp_of c) (stamp_of p) (id, c) (j, p) m,
          )
          refl

    search-line :
        (fuel : ℕ) (id : Str) (c : Commit) (rest : List BreadthCommit) (s : S)
        → IsLine codec d ((id, c) ∷ rest)
        → GoesOn ((id, c) ∷ rest) s
        → suc (suc (length rest)) ≤ fuel
        → search_queue codec d visitor fuel true (waiting (id, c)) s
          ≡ returned (visit_all ((id, c) ∷ rest) s)
    search-line zero id c rest s h g k = absurd (omega arith)
    search-line (suc zero) id c rest s h g k = absurd (omega arith)
    search-line (suc (suc fuel)) id c [] s h g k = search-last fuel id c s h g.0
    search-line (suc (suc fuel)) id c ((j, p) ∷ rest) s (h, k, l, m, n) g q =
        search-next (suc fuel) id j c p s h k l m g.0
        ∙ search-line (suc fuel) j p rest (visit (id, c) s) n g.1 (omega arith)

-- The same from the start, where the callbacks go on from the states that they meet.
pub search-line_from {ℓ} :
    {S : Type ℓ} (codec : Codec) (d : Disk) (visitor : CommitVisitor S) (fuel : ℕ) (id : Str)
    (c : Commit) (rest : List BreadthCommit) (s : S)
    → IsLine codec d ((id, c) ∷ rest)
    → GoesOn visitor ((id, c) ∷ rest) s
    → suc (suc (length rest)) ≤ fuel
    → breadth_first_search_history codec d visitor fuel id c s
      ≡ returned (visit_all visitor ((id, c) ∷ rest) s)
unfolding breadth_first_search_history push_back
search-line_from codec d visitor fuel id c rest s h g k =
    search-line visitor codec d fuel id c rest s h g k

-- In a history without merges, in which the stamps of neighbours differ, a search whose callbacks never
-- stop it visits every commit exactly once, from the commit it starts with to the initial one, and
-- ends; fuel for one round more than there are commits is enough.
pub breadth_first_search_history-line {ℓ} :
    {S : Type ℓ} (codec : Codec) (d : Disk) (visitor : CommitVisitor S) (fuel : ℕ) (id : Str)
    (c : Commit) (rest : List BreadthCommit) (s : S)
    → IsLine codec d ((id, c) ∷ rest)
    → ((c' : Commit) (id' : Str) (s' : S) → (visitor.before_commit c' id' s').0 ≡ true)
    → suc (suc (length rest)) ≤ fuel
    → breadth_first_search_history codec d visitor fuel id c s
      ≡ returned (visit_all visitor ((id, c) ∷ rest) s)
breadth_first_search_history-line codec d visitor fuel id c rest s h go_on k =
    search-line_from codec d visitor fuel id c rest s h
      (always-GoesOn visitor ((id, c) ∷ rest) s go_on) k

erase_same :
    (t : Stamp) (x y : BreadthCommit) → erase_stamp t (push_back t y ((t, x ∷ []) ∷ [])) ≡ []
unfolding erase_stamp push_back
erase_same t x y = ground arith

-- The only parent of a commit, stored with the very stamp of that commit, is never visited: the search
-- ends with the first commit, and all that lies behind is left out.
pub breadth_first_search_history-same_stamp {ℓ} :
    {S : Type ℓ} (codec : Codec) (d : Disk) (visitor : CommitVisitor S) (fuel : ℕ) (id j : Str)
    (c p : Commit) (s : S)
    → c.parentcommitids ≡ j ∷ []
    → is_empty j ≡ false
    → Objects.get_commit codec j d ≡ some p
    → stamp_of p ≡ stamp_of c
    → ((c' : Commit) (id' : Str) (s' : S) → (visitor.before_commit c' id' s').0 ≡ true)
    → breadth_first_search_history codec d visitor (suc (suc fuel)) id c s
      ≡ returned (visit visitor (id, c) s)
unfolding breadth_first_search_history search_queue visit_commits push_back
breadth_first_search_history-same_stamp codec d visitor fuel id j c p s h k l m go_on =
    rw
      (
        push_only visitor codec d c.parentcommitids j p (waiting visitor codec d (id, c)) h k l,
        m,
        go_on c id s,
        erase_same (stamp_of c) (id, c) (j, p),
      )
      refl

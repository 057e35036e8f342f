-- ===== src/BreadthFirst/Visits.antt =====
-- The search visits only commits of the history, each with its id.
use mapit.Base.{
  Str, ℕ, zero, suc, List, [], ◌∷◌, ◌++◌, Option, none, some, Bool, true, false, if◌then◌else◌, ltb,
  ◌==◌,
}
use mapit.Base.{◌≡◌, refl}
use mapit.Messages.{Commit, Codec}
use mapit.Ancestors.{Among, first, later, Ancestor, itself, parent, CommitVisitor, KeepsAt}
use mapit.Search.{is_empty}
use mapit.Serializer.Disk.{Disk}
use mapit.Serializer.Objects
use mapit.Time.{Stamp}
use mapit.Outcome.{Ends, Ends-bind, if_both}
use mapit.BreadthFirst.{
  BreadthCommit, BreadthMap, stamp_of, push_back, erase_stamp, push_parent, push_parents,
  visit_commits, search_queue, breadth_first_search_history,
}

module _ (codec : Codec) (d : Disk) (start_id : Str) (start : Commit) where
  abbrev Is : Str → Commit → Type 0
  Is = Ancestor codec d start_id start

  abbrev All : List BreadthCommit → Type 0
  All [] = Unit
  All ((id, c) ∷ xs) = Is id c × All xs

  -- Every commit that waits is one of the history. A record, so that branches can be taken one by one.
  abbrev Entries : BreadthMap → Type 0
  Entries [] = Unit
  Entries ((t, xs) ∷ queue) = All xs × Entries queue

  record Waits (queue : BreadthMap) : Type 0 where
    holds : Entries queue

  Waits-if : (b : Bool) (x y : BreadthMap) → Waits x → Waits y → Waits (if b then x else y)
  Waits-if b x y = if_both Waits b x y

  All-append :
      (xs : List BreadthCommit) (id : Str) (c : Commit)
      → All xs
      → Is id c
      → All (xs ++ (id, c) ∷ [])
  All-append [] id c h k = (k, tt)
  All-append ((j, e) ∷ xs) id c h k = (h.0, All-append xs id c h.1 k)

  push_back-Waits :
      (t : Stamp) (id : Str) (c : Commit) (queue : BreadthMap)
      → Is id c
      → Waits queue
      → Waits (push_back t (id, c) queue)
  unfolding push_back
  push_back-Waits t id c [] k h = record { holds = ((k, tt), tt) }
  push_back-Waits t id c ((u, xs) ∷ queue) k h =
      let rest = push_back-Waits t id c queue k (record { holds = h.holds.1 }) in
      Waits-if (ltb t u) _ _ (record { holds = ((k, tt), h.holds) })
        (Waits-if (t == u) _ _ (record { holds = (All-append xs id c h.holds.0 k, h.holds.1) })
          (record { holds = (h.holds.0, rest.holds) }))

  erase_stamp-Waits : (t : Stamp) (queue : BreadthMap) → Waits queue → Waits (erase_stamp t queue)
  unfolding erase_stamp
  erase_stamp-Waits t [] h = h
  erase_stamp-Waits t ((u, xs) ∷ queue) h =
      let rest = erase_stamp-Waits t queue (record { holds = h.holds.1 }) in
      Waits-if (t == u) _ _ (record { holds = h.holds.1 })
        (record { holds = (h.holds.0, rest.holds) })

  push_parent-Waits :
      (id : Str) (o : Option Commit) (queue : BreadthMap)
      → ((p : Commit) → o ≡ some p → Is id p)
      → Waits queue
      → Ends Waits (push_parent codec d id o queue)
  unfolding push_parent
  push_parent-Waits id none queue k h = tt
  push_parent-Waits id (some p) queue k h = push_back-Waits _ id p queue (k p refl) h

  push_parents-Waits :
      (ids : List Str) (queue : BreadthMap)
      → ((id : Str) (p : Commit) → Among id ids → Objects.get_commit codec id d ≡ some p → Is id p)
      → Waits queue
      → Ends Waits (push_parents codec d ids queue)
  unfolding push_parents
  push_parents-Waits [] queue k h = h
  push_parents-Waits (id ∷ ids) queue k h =
      if_both (Ends Waits) (is_empty id) _ _
        (push_parents-Waits ids queue (λ j p m. k j p (later m)) h)
        (Ends-bind Waits Waits _ _ (push_parent-Waits id _ queue (λ p e. k id p first e) h)
          (λ q h'. push_parents-Waits ids q (λ j p m. k j p (later m)) h'))

  module _ {ℓ} {S : Type ℓ} (P : S → Type 0) (visitor : CommitVisitor S)
      (keeps : KeepsAt codec d start_id start P visitor) where
    visit_commits-keeps :
        (xs : List BreadthCommit) (b : Bool) (queue : BreadthMap) (s : S)
        → All xs
        → Waits queue
        → P s
        → Ends
            (λ (r : Bool × BreadthMap × S). Waits r.1 × P r.2)
            (visit_commits codec d visitor xs b queue s)
    unfolding visit_commits
    visit_commits-keeps [] b queue s h k l = (k, l)
    visit_commits-keeps ((id, c) ∷ xs) b queue s h k l =
        Ends-bind Waits (λ (r : Bool × BreadthMap × S). Waits r.1 × P r.2) _ _
          (push_parents-Waits c.parentcommitids queue (λ j p m e. parent h.0 m e) k)
          (λ q k'.
            visit_commits-keeps xs _ q _ h.1 k'
              (keeps.after c id _ h.0 (keeps.before c id s h.0 l)))

    search_queue-keeps :
        (fuel : ℕ) (b : Bool) (queue : BreadthMap) (s : S)
        → Waits queue
        → P s
        → Ends P (search_queue codec d visitor fuel b queue s)
    unfolding search_queue
    search_queue-keeps zero b queue s h k = tt
    search_queue-keeps (suc fuel) false queue s h k = k
    search_queue-keeps (suc fuel) true [] s h k = k
    search_queue-keeps (suc fuel) true ((t, xs) ∷ queue) s h k =
        Ends-bind (λ (r : Bool × BreadthMap × S). Waits r.1 × P r.2) P _ _
          (visit_commits-keeps xs true ((t, xs) ∷ queue) s h.holds.0 h k)
          (λ (b, q, s') r.
            search_queue-keeps fuel b (erase_stamp t q) s' (erase_stamp-Waits t q r.0) r.1)

-- The breadth-first search calls back only for the commit it starts from and for stored commits that
-- are reached from it over their parents, each with its own id: what the callbacks keep at these
-- commits, the search keeps.
pub breadth_first_search_history-keeps {ℓ} :
    {S : Type ℓ} (codec : Codec) (d : Disk) (id : Str) (c : Commit) (P : S → Type 0)
    (visitor : CommitVisitor S)
    → KeepsAt codec d id c P visitor
    → (fuel : ℕ) (s : S) → P s
    → Ends P (breadth_first_search_history codec d visitor fuel id c s)
unfolding breadth_first_search_history
breadth_first_search_history-keeps codec d id c P visitor keeps fuel s h =
    search_queue-keeps codec d id c P visitor keeps fuel true _ s
      (push_back-Waits codec d id c (stamp_of c) id c [] itself (record { holds = tt })) h

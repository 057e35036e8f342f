-- ===== src/HistorySearch/Visits.antt =====
-- The search of a history visits only its commits.
use mapit.Base.{Str, ℕ, zero, suc, List, [], ◌∷◌, Option, none, some, ◌≡◌, refl, sym, subst, ◌∙◌}
use mapit.Messages.{root_of, Tree, Commit, Codec}
use mapit.Paths.{slash}
use mapit.Ancestors.{Among, first, later, Ancestor, itself, parent, CommitVisitor, KeepsAt}
use mapit.Search.{Visitor, is_empty}
use mapit.Search.Invariant.{Keeps, depth_first_search-keeps}
use mapit.Serializer.Disk.{Disk}
use mapit.Serializer.Objects
use mapit.Outcome.{Outcome, Ends, Ends-bind, if_both}
use mapit.HistorySearch.{
  stopper, repository, search_root, search_parents, search_on, search_commit,
  depth_first_search_history,
}
use mapit.Status

module _ {ℓ} {S : Type ℓ} (codec : Codec) (d : Disk) (start_id : Str) (start : Commit)
    (P : S → Type 0) (commit_visitor : CommitVisitor S)
    (keeps : KeepsAt codec d start_id start P commit_visitor) where
  abbrev Is : Str → Commit → Type 0
  Is = Ancestor codec d start_id start

  abbrev Then : Outcome (ℕ × S) → Type 0
  Then = Ends (λ (r : ℕ × S). P r.1)

  stopper-Keeps : Keeps P (stopper {S = S})
  stopper-Keeps = record {
    before_tree = λ t r p s h. h;
    after_tree = λ t r p s h. h;
    before_entity = λ e r p s h. h;
    after_entity = λ e r p s h. h;
  }

  search_root-Then :
      (visitor : Visitor S) (fuel : ℕ) (id : Str) (o : Option Tree) (s : S)
      → Keeps P visitor
      → P s
      → Then (search_root codec d commit_visitor visitor fuel id o s)
  unfolding search_root
  search_root-Then visitor fuel id none s k h = tt
  search_root-Then visitor fuel id (some t) s k h = if_both Then (is_empty id) _ _ tt (
      depth_first_search-keeps P visitor (repository codec d) k fuel (some t)
        (record { id = id; path = [] }) (slash ∷ []) s h)

  -- What the search of a commit of the history keeps.
  abbrev Visits : (Str → S → Outcome (ℕ × S)) → Type ℓ
  Visits visit =
      (id : Str) (s : S)
      → ((p : Commit) → Objects.get_commit codec id d ≡ some p → Is id p)
      → P s
      → Then (visit id s)

  search_parents-Then :
      (visit : Str → S → Outcome (ℕ × S)) (ids : List Str) (s : S)
      → Visits visit
      → ((id : Str) (p : Commit) → Among id ids → Objects.get_commit codec id d ≡ some p → Is id p)
      → P s
      → Ends P (search_parents codec d commit_visitor visit ids s)
  unfolding search_parents
  search_parents-Then visit [] s v k h = h
  search_parents-Then visit (id ∷ ids) s v k h =
      if_both (Ends P) (is_empty id) _ _
        (search_parents-Then visit ids s v (λ j p m. k j p (later m)) h)
        (Ends-bind (λ (r : ℕ × S). P r.1) P _ _ (v id s (λ p e. k id p first e) h)
          (λ r h'. search_parents-Then visit ids r.1 v (λ j p m. k j p (later m)) h'))

  search_on-Then :
      (visit : Str → S → Outcome (ℕ × S)) (c : Commit) (id : Str) (r : ℕ × S)
      → Visits visit
      → Is id c
      → P r.1
      → Then (search_on codec d commit_visitor visit c id r)
  unfolding search_on
  search_on-Then visit c id (status, s) v k h =
      if_both Then (Status.is_ok status) _ _
        (Ends-bind P (λ (r : ℕ × S). P r.1) _ _
          (search_parents-Then visit c.parentcommitids s v (λ j p m e. parent k m e) h)
          (λ s' h'. keeps.after c id s' k h'))
        h

  search_commit-Then :
      (visit : Str → S → Outcome (ℕ × S)) (visitor : Visitor S) (fuel : ℕ) (id : Str)
      (o : Option Commit) (s : S)
      → Visits visit
      → Keeps P visitor
      → ((p : Commit) → o ≡ some p → Is id p)
      → P s
      → Then (search_commit codec d commit_visitor visit visitor fuel id o s)
  unfolding search_commit
  search_commit-Then visit visitor fuel id none s v w k h = tt
  search_commit-Then visit visitor fuel id (some c) s v w k h =
      let at = k c refl in
      let h' = keeps.before c id s at h in
      if_both Then (commit_visitor.before_commit c id s).0 _ _
        (Ends-bind (λ (r : ℕ × S). P r.1) (λ (r : ℕ × S). P r.1)
          (search_root codec d commit_visitor visitor fuel (root_of c.root).id
            (Objects.get_tree codec (root_of c.root).id d) (commit_visitor.before_commit c id s).1)
          _ (search_root-Then visitor fuel (root_of c.root).id _ _ w h')
          (λ r h''. search_on-Then visit c id r v at h''))
        (keeps.after c id _ at h')

  history-Then :
      (fuel : ℕ) (visitor : Visitor S)
      → Keeps P visitor
      → Visits (depth_first_search_history codec d commit_visitor fuel visitor)
  unfolding depth_first_search_history
  history-Then zero visitor w id s k h = tt
  history-Then (suc fuel) visitor w id s k h =
      search_commit-Then _ visitor fuel id (Objects.get_commit codec id d) s
        (history-Then fuel stopper stopper-Keeps) w k h

-- The depth-first search of a history calls back only for the stored commit that it starts from and for
-- stored commits that are reached from it over their parents, each with its own id: what the callbacks
-- keep at these commits, and at all trees and entities, the search keeps.
pub depth_first_search_history-Keeps {ℓ} :
    {S : Type ℓ} (codec : Codec) (d : Disk) (id : Str) (c : Commit) (P : S → Type 0)
    (commit_visitor : CommitVisitor S) (visitor : Visitor S)
    → Objects.get_commit codec id d ≡ some c
    → KeepsAt codec d id c P commit_visitor
    → Keeps P visitor
    → (fuel : ℕ) (s : S) → P s
    → Ends
        (λ (r : ℕ × S). P r.1)
        (depth_first_search_history codec d commit_visitor fuel visitor id s)
depth_first_search_history-Keeps codec d id c P commit_visitor visitor e k w fuel s h =
    history-Then codec d id c P commit_visitor k fuel visitor w id s
      (λ p e'. subst (λ o. is_it o) (sym e ∙ e') itself) h
  where
    is_it : Option Commit → Type 0
    is_it none = ⊥
    is_it (some p) = Ancestor codec d id c id p

-- ===== src/Tests/HistoryFacts.antt =====
-- The theorems on the searches over a history at concrete inputs.
use mapit.Base.{
  Str, codes, ℕ, [], ◌∷◌, none, some, true, false, List, Option, ◌≡◌, ◌≢◌, refl, subst, arith,
}
use mapit.Messages.{Commit, new_commit}
use mapit.Ancestors.{CommitVisitor, KeepsAt, Ancestor, parent}
use mapit.TreeHash.{hash_commit}
use mapit.Outcome.{returned, Ends}
use mapit.Search.{is_empty}
use mapit.Search.Invariant.{Keeps}
use mapit.Serializer.Disk.{Disk, empty_disk, path_eq}
use mapit.Serializer.Objects
use mapit.Paths.Canonical.{components}
use mapit.BreadthFirst.{stamp_of, breadth_first_search_history}
use mapit.BreadthFirst.Visits.{breadth_first_search_history-keeps}
use mapit.BreadthFirst.Line.{visit_all, breadth_first_search_history-line}
use mapit.HistorySearch.{stopper, depth_first_search_history}
use mapit.HistorySearch.Visits.{depth_first_search_history-Keeps}
use mapit.Time.{from_msg}
use mapit.Tests.Data.{codec}

abbrev initial : Commit
initial = record new_commit {
  parentcommitids = [] ∷ [];
  commitmessage = codes "i";
  stamp = record { sec = 1; nsec = 0 };
}

abbrev with_initial : Disk
with_initial = (Objects.create_commit codec initial empty_disk).1

abbrev second : Commit
second = record new_commit {
  parentcommitids = codes "#i" ∷ [];
  commitmessage = codes "s";
  stamp = record { sec = 2; nsec = 0 };
}

abbrev hasty : Commit
hasty = record second { stamp = record { sec = 1; nsec = 0 } }

-- The ids of the commits, the last first.
abbrev collector : CommitVisitor (List Str)
collector = record { before_commit = λ c id s. (true, s); after_commit = λ c id s. (true, id ∷ s) }

stamps_differ : stamp_of second ≢ stamp_of initial
unfolding from_msg
stamps_differ e = omega (arith, e)

breadth_first_search_history-line_example :
    breadth_first_search_history codec with_initial collector 3 (codes "#s") second []
    ≡ returned (visit_all collector ((codes "#s", second) ∷ (codes "#i", initial) ∷ []) [])
unfolding Objects.create_commit path_eq components hash_commit Objects.get_commit
breadth_first_search_history-line_example =
    breadth_first_search_history-line codec with_initial collector 3 (codes "#s") second
      ((codes "#i", initial) ∷ []) [] (refl, refl, refl, stamps_differ, refl) (λ c id s. refl)
      (omega arith)

-- No collected id is empty.
abbrev AreIds : List Str → Type 0
AreIds [] = Unit
AreIds (id ∷ ids) = (is_empty id ≡ false) × AreIds ids

abbrev Missing : Option Commit → Type 0
Missing none = Unit
Missing (some c) = ⊥

Ancestor-id :
    (id : Str) (c : Commit)
    → Ancestor codec with_initial (codes "#i") initial id c
    → is_empty id ≡ false
unfolding Objects.create_commit path_eq components Objects.get_commit hash_commit
Ancestor-id [] c (parent a m e) = absurd (subst Missing e tt)
Ancestor-id (x ∷ id) c a = refl

collector-KeepsAt : KeepsAt codec with_initial (codes "#i") initial AreIds collector
collector-KeepsAt = record {
  before = λ c id s a h. h;
  after = λ c id s a h. (Ancestor-id id c a, h);
}

stopper-KeepsAreIds : Keeps AreIds (stopper {S = List Str})
stopper-KeepsAreIds = record {
  before_tree = λ t r p s h. h;
  after_tree = λ t r p s h. h;
  before_entity = λ e r p s h. h;
  after_entity = λ e r p s h. h;
}

breadth_first_search_history-keeps_example :
    Ends AreIds
      (breadth_first_search_history codec with_initial collector 3 (codes "#i") initial [])
breadth_first_search_history-keeps_example =
    breadth_first_search_history-keeps codec with_initial (codes "#i") initial AreIds collector
      collector-KeepsAt 3 [] tt

depth_first_search_history-Keeps_example :
    Ends
      (λ (r : ℕ × List Str). AreIds r.1)
      (depth_first_search_history codec with_initial collector 3 stopper (codes "#i") [])
unfolding Objects.create_commit path_eq components hash_commit Objects.get_commit
depth_first_search_history-Keeps_example =
    depth_first_search_history-Keeps codec with_initial (codes "#i") initial AreIds collector
      stopper refl collector-KeepsAt stopper-KeepsAreIds 3 [] tt

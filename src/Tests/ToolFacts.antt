-- ===== src/Tests/ToolFacts.antt =====
-- The theorems on the tools at concrete inputs.
use mapit.Base.{Str, suc, codes, [], ◌∷◌, ◌++◌, true, ◌≡◌, ◌≢◌, refl, length, arith}
use mapit.Messages.{Commit, new_commit}
use mapit.Serializer.Disk.{Disk, empty_disk, path_eq}
use mapit.Serializer.Objects
use mapit.Repository.Commit.{end_line}
use mapit.Outcome.{returned, running}
use mapit.Tools.Log.{print_message, get_history}
use mapit.Tools.Log.Lines.{indent, history_text, print_message-end_line, get_history-history_text}
use mapit.Paths.Canonical.{components}
use mapit.TreeHash.{hash_commit}
use mapit.BreadthFirst.{stamp_of}
use mapit.Time.{Stamp, from_msg}
use mapit.Tests.Data.{codec}

print_message-end_line_example :
    (print_message (suc (length (end_line codec 5 (codes "hi")))) (end_line codec 5 (codes "hi")) []
      ≡ returned ([] ++ indent true (end_line codec 5 (codes "hi"))))
    × (print_message 9 (codes "hi") [] ≡ running)
print_message-end_line_example =
    print_message-end_line codec 5 (codes "hi") [] (codes "i") 104 9 refl

-- A first commit, and one that follows it.
abbrev initial : Commit
initial = record new_commit {
  parentcommitids = [] ∷ [];
  commitmessage = codes "hi" ++ 10 ∷ [];
  stamp = record { sec = 1; nsec = 0 };
}

abbrev initial_id : Str
initial_id = codes "#hi" ++ 10 ∷ []

abbrev second : Commit
second = record new_commit {
  parentcommitids = initial_id ∷ [];
  commitmessage = codes "s" ++ 10 ∷ [];
  stamp = record { sec = 2; nsec = 0 };
}

abbrev with_initial : Disk
with_initial = (Objects.create_commit codec initial empty_disk).1

abbrev now : Stamp → Str
now stamp = codes "now"

stamps_differ : stamp_of second ≢ stamp_of initial
unfolding from_msg
stamps_differ e = omega (arith, e)

get_history-history_text_example :
    get_history now codec with_initial 3 (codes "c") second
    ≡ returned (returned (history_text now ((codes "c", second) ∷ (initial_id, initial) ∷ [])))
unfolding Objects.create_commit path_eq components hash_commit Objects.get_commit
get_history-history_text_example =
    get_history-history_text now codec with_initial 3 (codes "c") second
      ((initial_id, initial) ∷ []) (refl, refl, refl, stamps_differ, refl) refl (omega arith)

-- ===== src/Tools/Log.antt =====
-- `getHistory` of the tool that shows a history (tools/log/src/main.cpp): how it prints the message of a commit.
pub mod Lines
use mapit.Base.{
  Str, codes, List, ℕ, zero, suc, ◌+◌, ◌≤◌, ◌<◌, [], ◌∷◌, ◌++◌, Option, none, some, Bool, true,
  false, if◌then◌else◌, ◌==◌, length, ◌≡◌, refl, sym, ap, ◌∙◌, arith, Bool-cases, inl, inr,
  append_assoc, append-nil,
}
use mapit.Messages.{Codec, Commit}
use mapit.Time.{Stamp, from_msg}
use mapit.Ancestors.{Ancestor, CommitVisitor, KeepsAt}
use mapit.BreadthFirst.{breadth_first_search_history}
use mapit.BreadthFirst.Visits.{breadth_first_search_history-keeps}
use mapit.Serializer.Disk.{Disk}
use mapit.Serializer.Transient.{split_at}
use mapit.Repository.Commit.{end_line}
use mapit.Outcome.{Outcome, returned, thrown, running, ◌>>=◌, Ends, Returns}

abbrev pub newline : ℕ
newline = 10

abbrev pub tab : ℕ
tab = 9

-- `commitMsg.find("\n")`
unfoldable pub find_newline : Str → Option ℕ
find_newline [] = none
find_newline (c ∷ s) =
    let rest = find_newline s in
    if c == newline then some 0 else elim rest [ some i ↦ some (suc i) | none ↦ none ]

-- One is added to what `find` gives, also to `npos`, which is the greatest number there is.
unfoldable pub end_of_line : Str → ℕ
unfolding find_newline
end_of_line s = elim (find_newline s) [ some i ↦ suc i | none ↦ 0 ]

-- The loop over the message.
unfoldable pub print_message : ℕ → Str → Str → Outcome Str
unfolding end_of_line split_at
print_message zero commit_msg ret = running
print_message (suc fuel) [] ret = returned ret
print_message (suc fuel) (c ∷ commit_msg) ret =
    let (line, rest) = split_at (end_of_line (c ∷ commit_msg)) (c ∷ commit_msg) in
    print_message fuel rest (ret ++ (tab ∷ line))

-- `parentCommitID.substr(0, 7)` behind a blank, for every parent.
abbrev short_ids : List Str → Str
short_ids [] = []
short_ids (id ∷ ids) = (32 ∷ (split_at 7 id).0) ++ short_ids ids

unfoldable merge_line : List Str → Str
unfolding split_at
merge_line (a ∷ b ∷ ids) = codes "Merge:" ++ (short_ids (a ∷ b ∷ ids) ++ newline ∷ [])
merge_line ids = []

-- What is printed of a commit, with what `to_string_human` gives for a stamp. One round more than the message has
-- bytes is enough for a message that ends in a newline.
module _ (to_string_human : Stamp → Str) where
  unfoldable pub commit_head : Str → Commit → Str
  unfolding merge_line from_msg
  commit_head commit_id c =
      (27 ∷ codes "[38;5;208mcommit ")
      ++ (commit_id
          ++ ((codes " (<TODO, list REFs here>)" ++ (27 ∷ codes "[0m") ++ newline ∷ [])
              ++ (merge_line c.parentcommitids
                  ++ (codes "Author: "
                      ++ (c.author
                          ++ (newline ∷ codes "Date:   "
                              ++ (to_string_human (from_msg c.stamp) ++ newline ∷ [])))))))

  abbrev pub ended_by_newline : Str → Outcome Str
  ended_by_newline ret = returned (ret ++ newline ∷ [])

  -- The callback. Where the loop does not end, nothing follows.
  unfoldable pub print_commit : Commit → Str → Outcome Str → Bool × Outcome Str
  unfolding print_message commit_head
  print_commit c commit_id (returned ret) = (
    true,
    print_message (suc (length c.commitmessage)) c.commitmessage (ret ++ commit_head commit_id c)
        >>= ended_by_newline,
  )
  print_commit c commit_id o = (false, o)

  abbrev pub printer : CommitVisitor (Outcome Str)
  printer = record { before_commit = print_commit; after_commit = λ c commit_id o. (true, o) }

  -- `getHistory`: what goes to the standard output.
  unfoldable pub get_history : Codec → Disk → ℕ → Str → Commit → Outcome (Outcome Str)
  unfolding print_commit breadth_first_search_history
  get_history codec d fuel commit_id c =
      breadth_first_search_history codec d printer fuel commit_id c (returned [])

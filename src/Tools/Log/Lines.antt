-- ===== src/Tools/Log/Lines.antt =====
-- What the tool that shows a history (tools/log/src/main.cpp) prints, and where it does not end.
use mapit.Base.{
  Str, ℕ, zero, suc, ◌<◌, ◌≤◌, List, ◌&&◌, subst, [], ◌∷◌, ◌++◌, none, some, Bool, true, false,
  if◌then◌else◌, ◌==◌, length, ◌≡◌, refl, sym, ap, ◌∙◌, arith, Bool-cases, inl, inr, append_assoc,
  append-nil,
}
use mapit.Messages.{Codec, Commit}
use mapit.Time.{Stamp}
use mapit.BreadthFirst.{BreadthCommit}
use mapit.BreadthFirst.Line.{IsLine, GoesOn, visit_all, search-line_from}
use mapit.Serializer.Disk.{Disk}
use mapit.Serializer.Transient.{split_at}
use mapit.Repository.Commit.{end_line}
use mapit.Outcome.{Outcome, returned, running}
use mapit.Tools.Log.{
  newline, tab, find_newline, end_of_line, print_message, commit_head, print_commit, printer,
  get_history,
}

-- A tab before every line: before the first character, and behind every newline that more follows.
abbrev pub indent : Bool → Str → Str
indent starts [] = []
indent true (c ∷ s) = tab ∷ c ∷ indent (c == newline) s
indent false (c ∷ s) = c ∷ indent (c == newline) s

-- Nothing, or a text that ends in a newline.
abbrev pub is_ended : Str → Bool
is_ended [] = true
is_ended (c ∷ []) = c == newline
is_ended (c ∷ d ∷ s) = is_ended (d ∷ s)

abbrev pub is_one_line : Str → Bool
is_one_line [] = true
is_one_line (c ∷ s) = if c == newline then false else is_one_line s

-- The first line of a text that ends in a newline.
record Cut (s : Str) : Type 0 where
  at : ℕ
  found : find_newline s ≡ some at
  indented : indent false s ≡ (split_at (suc at) s).0 ++ indent true (split_at (suc at) s).1
  ended : is_ended (split_at (suc at) s).1 ≡ true
  shorter : length (split_at (suc at) s).1 < length s

cut : (c : ℕ) (s : Str) → is_ended (c ∷ s) ≡ true → Cut (c ∷ s)
unfolding find_newline split_at
cut c [] h = record {
  at = 0;
  found = rw h refl;
  indented = refl;
  ended = refl;
  shorter = omega arith;
}
cut c (d ∷ s) h =
    let next = cut d s h in
    elim (Bool-cases (c == newline)) [
      | inl e ↦ record {
        at = 0;
        found = rw e refl;
        indented = rw e refl;
        ended = h;
        shorter = omega arith;
      }
      | inr e ↦ record {
        at = suc next.at;
        found = rw (e, next.found) refl;
        indented = rw e (ap (λ t. c ∷ t) next.indented);
        ended = next.ended;
        shorter = omega (arith, next.shorter);
      }
    ]

-- One round of the loop, with `n` for the end of the line.
abbrev round : ℕ → Str → Str → ℕ → Outcome Str
round fuel msg ret n =
    let (line, rest) = split_at n msg in print_message fuel rest (ret ++ (tab ∷ line))

print_lines :
    (fuel : ℕ) (msg ret : Str)
    → is_ended msg ≡ true
    → length msg < fuel
    → print_message fuel msg ret ≡ returned (ret ++ indent true msg)
unfolding print_message end_of_line
print_lines zero msg ret h k = absurd (omega (arith, k))
print_lines (suc fuel) [] ret h k = ap (λ t. returned t) (sym (append-nil ret))
print_lines (suc fuel) (c ∷ s) ret h k =
    let first = cut c s h in
    let (line, rest) = split_at (suc first.at) (c ∷ s) in
    let eol : end_of_line (c ∷ s) ≡ suc first.at =
      ap (λ o. elim o [ some i ↦ suc i | none ↦ 0 ]) first.found in
    let printed =
      print_lines fuel rest (ret ++ (tab ∷ line)) first.ended (omega (arith, first.shorter, k)) in
    ap (round fuel (c ∷ s) ret) eol
    ∙ (printed
        ∙ ap (λ t. returned t)
            (append_assoc ret (tab ∷ line) (indent true rest)
              ∙ ap (λ t. ret ++ (tab ∷ t)) (sym first.indented)))

end_line-is_ended :
    (codec : Codec) (depth : ℕ) (msg : Str) → is_ended (end_line codec depth msg) ≡ true
unfolding end_line
end_line-is_ended codec depth [] = refl
end_line-is_ended codec depth (c ∷ []) = ground arith
end_line-is_ended codec depth (c ∷ d ∷ []) = ground arith
end_line-is_ended codec depth (c ∷ d ∷ e ∷ s) = end_line-is_ended codec depth (d ∷ e ∷ s)

neither : (b x : Bool) → (if b then false else x) ≡ true → (b ≡ false) × (x ≡ true)
neither true x h = absurd (ground arith)
neither false x h = (refl, h)

no_newline : (s : Str) → is_one_line s ≡ true → find_newline s ≡ none
unfolding find_newline
no_newline [] h = refl
no_newline (c ∷ s) h =
    let (other, later) = neither (c == newline) (is_one_line s) h in
    rw (other, no_newline s later) refl

unprinted :
    (fuel : ℕ) (c : ℕ) (s ret : Str)
    → is_one_line (c ∷ s) ≡ true
    → print_message fuel (c ∷ s) ret ≡ running
unfolding print_message end_of_line split_at
unprinted zero c s ret h = refl
unprinted (suc fuel) c s ret h =
    let eol : end_of_line (c ∷ s) ≡ 0 =
      ap (λ o. elim o [ some i ↦ suc i | none ↦ 0 ]) (no_newline (c ∷ s) h) in
    ap (round fuel (c ∷ s) ret) eol ∙ unprinted fuel c s (ret ++ (tab ∷ [])) h

-- The tool prints the message of every commit that `commit` made, with a tab before every line, in one
-- round more than the message has bytes at most. For a message of another origin that is one line
-- without its end the loop never ends.
pub print_message-end_line :
    (codec : Codec) (depth : ℕ) (msg ret s : Str) (c fuel : ℕ)
    → is_one_line (c ∷ s) ≡ true
    → (print_message (suc (length (end_line codec depth msg))) (end_line codec depth msg) ret
        ≡ returned (ret ++ indent true (end_line codec depth msg)))
      × (print_message fuel (c ∷ s) ret ≡ running)
print_message-end_line codec depth msg ret s c fuel h = (
  print_lines (suc (length (end_line codec depth msg))) (end_line codec depth msg) ret
      (end_line-is_ended codec depth msg) (omega arith),
  unprinted fuel c s ret h,
)

module _ (to_string_human : Stamp → Str) where
  -- What is printed of a commit, and of one commit after the other.
  abbrev pub commit_text : Str → Commit → Str
  commit_text id c =
      commit_head to_string_human id c ++ (indent true c.commitmessage ++ newline ∷ [])

  abbrev pub history_text : List BreadthCommit → Str
  history_text [] = []
  history_text ((id, c) ∷ rest) = commit_text id c ++ history_text rest

  abbrev pub are_ended : List BreadthCommit → Bool
  are_ended [] = true
  are_ended ((id, c) ∷ rest) = is_ended c.commitmessage && are_ended rest

  print_commit_lem :
      (c : Commit) (id ret : Str)
      → is_ended c.commitmessage ≡ true
      → print_commit to_string_human c id (returned ret)
        ≡ (true, returned (ret ++ commit_text id c))
  unfolding print_commit
  print_commit_lem c id ret h =
      let head = commit_head to_string_human id c in
      let msg = indent true c.commitmessage in
      rw (print_lines (suc (length c.commitmessage)) c.commitmessage (ret ++ head) h (omega arith))
        (ap (λ t. (true, returned t))
          (append_assoc (ret ++ head) msg (newline ∷ [])
            ∙ append_assoc ret head (msg ++ newline ∷ [])))

  both_true : (a b : Bool) → (a && b) ≡ true → (a ≡ true) × (b ≡ true)
  both_true true b h = (refl, h)
  both_true false b h = absurd (cc)

  print-GoesOn :
      (xs : List BreadthCommit) (ret : Str)
      → are_ended xs ≡ true
      → GoesOn (printer to_string_human) xs (returned ret)
        × (visit_all (printer to_string_human) xs (returned ret)
            ≡ returned (ret ++ history_text xs))
  print-GoesOn [] ret h = (tt, ap (λ t. returned t) (sym (append-nil ret)))
  print-GoesOn ((id, c) ∷ xs) ret h =
      let (first, later) = both_true (is_ended c.commitmessage) (are_ended xs) h in
      let step = print_commit_lem c id ret first in
      let (on, all) = print-GoesOn xs (ret ++ commit_text id c) later in
      (
        (
          ap (λ r. r.0) step,
          subst (GoesOn (printer to_string_human) xs) (sym (ap (λ r. r.1) step)) on,
        ),
        ap (λ r. visit_all (printer to_string_human) xs r.1) step
            ∙ (all ∙ ap (λ t. returned t) (append_assoc ret (commit_text id c) (history_text xs))),
      )

-- In a history without merges, in which the stamps of neighbours differ and every message is empty or ends in a
-- newline, as `commit` makes them, the tool ends, and prints for every commit, from the one it starts with to the
-- initial one, its head, its message with a tab before every line, and an empty line.
pub get_history-history_text :
    (to_string_human : Stamp → Str) (codec : Codec) (d : Disk) (fuel : ℕ) (id : Str) (c : Commit)
    (rest : List BreadthCommit)
    → IsLine codec d ((id, c) ∷ rest)
    → are_ended to_string_human ((id, c) ∷ rest) ≡ true
    → suc (suc (length rest)) ≤ fuel
    → get_history to_string_human codec d fuel id c
      ≡ returned (returned (history_text to_string_human ((id, c) ∷ rest)))
unfolding get_history
get_history-history_text to_string_human codec d fuel id c rest h e k =
    let (on, all) = print-GoesOn to_string_human ((id, c) ∷ rest) [] e in
    search-line_from codec d (printer to_string_human) fuel id c rest (returned []) h on k
    ∙ ap (λ o. returned o) all

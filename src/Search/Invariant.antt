-- ===== src/Search/Invariant.antt =====
-- What the callbacks of a depth-first search keep, the search keeps.
use mapit.Base.{Str, ℕ, zero, suc, [], ◌∷◌, Option, none, some, Bool, if◌then◌else◌}
use mapit.Messages.{
  ObjectReference, Refs, Tree, Entity, MessageType, message_tree, message_entity, message_commit,
}
use mapit.TreeHash.{sort_refs}
use mapit.Outcome.{Outcome, returned, ◌>>=◌, Ends, Ends-bind, if_both}
use mapit.Search.{
  Source, Visitor, search_entity, search_entity_at, search_child, search_children, end_tree,
  depth_first_search, child_path, template_reference, or_stop,
}
use mapit.Status

-- The four callbacks keep `P`.
pub record Keeps {ℓ κ} {S : Type ℓ} (P : S → Type κ) (visitor : Visitor S) : Type (ℓ ⊔ κ) where
  pub before_tree :
      (t : Tree) (r : ObjectReference) (p : Str) (s : S) → P s → P (visitor.before_tree t r p s).1
  pub after_tree :
      (t : Tree) (r : ObjectReference) (p : Str) (s : S) → P s → P (visitor.after_tree t r p s).1
  pub before_entity :
      (e : Entity) (r : ObjectReference) (p : Str) (s : S)
      → P s
      → P (visitor.before_entity e r p s).1
  pub after_entity :
      (e : Entity) (r : ObjectReference) (p : Str) (s : S)
      → P s
      → P (visitor.after_entity e r p s).1

module _ {ℓ κ} {S : Type ℓ} (P : S → Type κ) (visitor : Visitor S) (source : Source S)
    (keeps : Keeps P visitor) where
  record Kept (o : Outcome (ℕ × S)) : Type κ where
    holds : Ends (λ r. P r.1) o

  Kept-returned : (n : ℕ) (s : S) → P s → Kept (returned (n, s))
  Kept-returned n s h = record { holds = h }

  Kept-if : (b : Bool) (x y : Outcome (ℕ × S)) → Kept x → Kept y → Kept (if b then x else y)
  Kept-if b x y = if_both Kept b x y

  Kept-bind :
      (o : Outcome (ℕ × S)) (f : ℕ × S → Outcome (ℕ × S))
      → Kept o
      → ((r : ℕ × S) → P r.1 → Kept (f r))
      → Kept (o >>= f)
  Kept-bind o f h k = record {
    holds = Ends-bind (λ r. P r.1) (λ r. P r.1) o f h.holds (λ r x. (k r x).holds);
  }

  search_entity_at-Kept :
      (o : Option Entity) (ref : ObjectReference) (path : Str) (s : S)
      → P s
      → Kept (search_entity_at visitor o ref path s)
  unfolding search_entity_at search_entity
  search_entity_at-Kept none ref path s h = record { holds = tt }
  search_entity_at-Kept (some e) ref path s h =
      Kept-returned Status.ok _
        (keeps.after_entity e ref path _ (keeps.before_entity e ref path s h))

  end_tree-Kept :
      (t : Tree) (ref : ObjectReference) (path : Str) (r : ℕ × S)
      → P r.1
      → Kept (end_tree visitor source t ref path r)
  unfolding end_tree
  end_tree-Kept t ref path (n, s) h =
      let k = keeps.after_tree t ref path s h in search (Kept-if, Kept-returned)

  module _ (visit : Option Tree → ObjectReference → Str → S → Outcome (ℕ × S))
      (visits : (o : Option Tree) (ref : ObjectReference) (path : Str) (s : S)
        → P s
        → Kept (visit o ref path s)) where
    search_child-Kept :
        (m : MessageType) (key : Str) (ref : ObjectReference) (path : Str) (s : S)
        → P s
        → Kept (search_child visitor source visit m key ref path s)
    unfolding search_child
    search_child-Kept message_commit key ref path s h = record { holds = tt }
    search_child-Kept message_tree key ref path s h = visits _ ref path s h
    search_child-Kept message_entity key ref path s h = search_entity_at-Kept _ ref path s h
    search_child-Kept _ key ref path s h = Kept-returned _ s h

    or_stop-Kept :
        (rest : S → Outcome (ℕ × S))
        → ((s : S) → P s → Kept (rest s))
        → (r : ℕ × S) → P r.1
        → Kept (or_stop visitor source rest r)
    unfolding or_stop
    or_stop-Kept rest k (n, s) h = search (Kept-if, Kept-returned, k)

    search_children-Kept :
        (refs : Refs) (path : Str) (s : S)
        → P s
        → Kept (search_children visitor source visit refs path s)
    unfolding search_children
    search_children-Kept [] path s h = Kept-returned _ s h
    search_children-Kept ((name, ref) ∷ refs) path s h =
        Kept-bind _ _
          (search_child-Kept _ (template_reference ref (child_path path name)) ref
            (child_path path name) s h)
          (or_stop-Kept _ (search_children-Kept refs path))

  depth_first_search-Kept :
      (fuel : ℕ) (o : Option Tree) (ref : ObjectReference) (path : Str) (s : S)
      → P s
      → Kept (depth_first_search visitor source fuel o ref path s)
  unfolding depth_first_search
  depth_first_search-Kept zero o ref path s h = record { holds = tt }
  depth_first_search-Kept (suc fuel) none ref path s h = Kept-returned _ s h
  depth_first_search-Kept (suc fuel) (some t) ref path s h =
      let h' = keeps.before_tree t ref path s h in
      let inside : Kept (
          search_children visitor source (depth_first_search visitor source fuel) (sort_refs t.refs)
            path (visitor.before_tree t ref path s).1
          >>= end_tree visitor source t ref path) =
        Kept-bind _ _
          (search_children-Kept (depth_first_search visitor source fuel)
            (depth_first_search-Kept fuel) (sort_refs t.refs) path _ h')
          (end_tree-Kept t ref path) in
      let outside = keeps.after_tree t ref path _ h' in
      Kept-if (visitor.before_tree t ref path s).0 _ _ inside (Kept-returned Status.ok _ outside)

  pub depth_first_search-keeps :
      (fuel : ℕ) (o : Option Tree) (ref : ObjectReference) (path : Str) (s : S)
      → P s
      → Ends (λ r. P r.1) (depth_first_search visitor source fuel o ref path s)
  depth_first_search-keeps fuel o ref path s h = (depth_first_search-Kept fuel o ref path s h).holds

-- ===== src/Network/Link/Ranks.antt =====
-- The types of the messages of libs/networking_node in order, and those that are registered.
use mapit.Base.{
  ℕ, zero, suc, List, [], ◌∷◌, Bool, true, false, not, ◌&&◌, if◌then◌else◌, ◌==◌, ◌≡◌, refl, sym,
  ap, ◌∙◌, arith, ==_iff,
}
use mapit.Network.Messages.{Kind}
use mapit.Network.Responder
use mapit.Network.Link.Steps.{is_request, is_reply}

-- The place of a type in the list of all of them.
abbrev pub rank : Kind → ℕ
rank Kind.request_workspace = 0
rank Kind.request_entitydata = 1
rank Kind.request_hierarchy = 2
rank Kind.request_hierarchy_plain = 3
rank Kind.request_list_workspaces = 4
rank Kind.request_operator_execution = 5
rank Kind.request_generic_entry = 6
rank Kind.request_store_entity = 7
rank Kind.request_delete_entity = 8
rank Kind.request_delete_tree = 9
rank Kind.reply_workspace = 10
rank Kind.reply_entitydata = 11
rank Kind.reply_hierarchy = 12
rank Kind.reply_hierarchy_plain = 13
rank Kind.reply_list_workspaces = 14
rank Kind.reply_operator_execution = 15
rank Kind.reply_generic_entry = 16
rank Kind.reply_store_entity = 17
rank Kind.reply_store_tree = 18
rank Kind.reply_delete_entity = 19
rank Kind.reply_delete_tree = 20

abbrev kinds : List Kind
kinds =
    Kind.request_workspace ∷ Kind.request_entitydata ∷ Kind.request_hierarchy
    ∷ Kind.request_hierarchy_plain ∷ Kind.request_list_workspaces ∷ Kind.request_operator_execution
    ∷ Kind.request_generic_entry ∷ Kind.request_store_entity ∷ Kind.request_delete_entity
    ∷ Kind.request_delete_tree ∷ Kind.reply_workspace ∷ Kind.reply_entitydata ∷ Kind.reply_hierarchy
    ∷ Kind.reply_hierarchy_plain ∷ Kind.reply_list_workspaces ∷ Kind.reply_operator_execution
    ∷ Kind.reply_generic_entry ∷ Kind.reply_store_entity ∷ Kind.reply_store_tree
    ∷ Kind.reply_delete_entity ∷ Kind.reply_delete_tree ∷ []

abbrev nth : Kind → ℕ → List Kind → Kind
nth k n [] = k
nth k zero (j ∷ js) = j
nth k (suc n) (j ∷ js) = nth k n js

unrank-rank : (k : Kind) → nth Kind.request_workspace (rank k) kinds ≡ k
unrank-rank Kind.request_workspace = refl
unrank-rank Kind.request_entitydata = refl
unrank-rank Kind.request_hierarchy = refl
unrank-rank Kind.request_hierarchy_plain = refl
unrank-rank Kind.request_list_workspaces = refl
unrank-rank Kind.request_operator_execution = refl
unrank-rank Kind.request_generic_entry = refl
unrank-rank Kind.request_store_entity = refl
unrank-rank Kind.request_delete_entity = refl
unrank-rank Kind.request_delete_tree = refl
unrank-rank Kind.reply_workspace = refl
unrank-rank Kind.reply_entitydata = refl
unrank-rank Kind.reply_hierarchy = refl
unrank-rank Kind.reply_hierarchy_plain = refl
unrank-rank Kind.reply_list_workspaces = refl
unrank-rank Kind.reply_operator_execution = refl
unrank-rank Kind.reply_generic_entry = refl
unrank-rank Kind.reply_store_entity = refl
unrank-rank Kind.reply_store_tree = refl
unrank-rank Kind.reply_delete_entity = refl
unrank-rank Kind.reply_delete_tree = refl

pub rank_injective : (j k : Kind) → (rank j == rank k) ≡ true → j ≡ k
rank_injective j k h =
    sym (unrank-rank j)
    ∙ (ap (λ n. nth Kind.request_workspace n kinds) ((==_iff (rank j) (rank k)).0 h)
        ∙ unrank-rank k)

abbrev pub knows : Kind → List Kind → Bool
knows k [] = false
knows k (j ∷ js) = if rank j == rank k then true else knows k js

-- No type is there before, or comes twice.
abbrev pub fresh : List Kind → List Kind → Bool
fresh [] js = true
fresh (k ∷ ks) js = not (knows k js) && fresh ks (k ∷ js)

abbrev pub after : List Kind → List Kind → List Kind
after [] js = js
after (k ∷ ks) js = after ks (k ∷ js)

-- The types that are registered, the last one first.
abbrev pub handled : List Kind
handled = after Responder.receivable []

pub requests_known : (k : Kind) → is_request k ≡ true → knows k handled ≡ true
requests_known Kind.request_workspace h = refl
requests_known Kind.request_entitydata h = refl
requests_known Kind.request_hierarchy h = refl
requests_known Kind.request_hierarchy_plain h = refl
requests_known Kind.request_list_workspaces h = refl
requests_known Kind.request_operator_execution h = refl
requests_known Kind.request_generic_entry h = refl
requests_known Kind.request_store_entity h = refl
requests_known Kind.request_delete_entity h = refl
requests_known Kind.request_delete_tree h = refl
requests_known Kind.reply_workspace h = ground arith
requests_known Kind.reply_entitydata h = ground arith
requests_known Kind.reply_hierarchy h = ground arith
requests_known Kind.reply_hierarchy_plain h = ground arith
requests_known Kind.reply_list_workspaces h = ground arith
requests_known Kind.reply_operator_execution h = ground arith
requests_known Kind.reply_generic_entry h = ground arith
requests_known Kind.reply_store_entity h = ground arith
requests_known Kind.reply_store_tree h = ground arith
requests_known Kind.reply_delete_entity h = ground arith
requests_known Kind.reply_delete_tree h = ground arith

abbrev pub received : List Kind
received =
    Kind.reply_delete_tree ∷ Kind.reply_delete_entity ∷ Kind.reply_store_tree
    ∷ Kind.reply_store_entity ∷ Kind.reply_generic_entry ∷ Kind.reply_operator_execution
    ∷ Kind.reply_list_workspaces ∷ Kind.reply_hierarchy ∷ Kind.reply_entitydata
    ∷ Kind.reply_workspace ∷ []

pub replies_known : (k : Kind) → is_reply k ≡ true → knows k received ≡ true
replies_known Kind.request_workspace h = ground arith
replies_known Kind.request_entitydata h = ground arith
replies_known Kind.request_hierarchy h = ground arith
replies_known Kind.request_hierarchy_plain h = ground arith
replies_known Kind.request_list_workspaces h = ground arith
replies_known Kind.request_operator_execution h = ground arith
replies_known Kind.request_generic_entry h = ground arith
replies_known Kind.request_store_entity h = ground arith
replies_known Kind.request_delete_entity h = ground arith
replies_known Kind.request_delete_tree h = ground arith
replies_known Kind.reply_workspace h = refl
replies_known Kind.reply_entitydata h = refl
replies_known Kind.reply_hierarchy h = refl
replies_known Kind.reply_hierarchy_plain h = ground arith
replies_known Kind.reply_list_workspaces h = refl
replies_known Kind.reply_operator_execution h = refl
replies_known Kind.reply_generic_entry h = refl
replies_known Kind.reply_store_entity h = refl
replies_known Kind.reply_store_tree h = refl
replies_known Kind.reply_delete_entity h = refl
replies_known Kind.reply_delete_tree h = refl

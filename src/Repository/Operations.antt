-- ===== src/Repository/Operations.antt =====
-- `commit` only adds to the history.
use mapit.Base.{
  Str, ℕ, [], ◌∷◌, Option, none, some, Bool, true, false, ◌&&◌, ◌||◌, not, str_eq, ◌≡◌, refl,
}
use mapit.Messages.{ObjectReference, null_ref, Refs, Tree, Entity, Commit, Codec, root_of}
use mapit.Paths.{slash}
use mapit.Outcome.{Outcome, returned, thrown, running, Ends, Ends-bind, Ends-map, if_both}
use mapit.Search.{is_empty}
use mapit.Search.Invariant.{depth_first_search-keeps}
use mapit.Serializer.Disk.{Disk, is_some}
use mapit.Serializer.Steps
use mapit.Serializer.Steps.{Reach, here, next}
use mapit.Serializer.History.{Preserves, history_immutable}
use mapit.Serializer.Objects
use mapit.Serializer.Transient
use mapit.Time.{Stamp}
use mapit.Workspace.{Workspace, get_root}
use mapit.Repository.Commit.{
  Committing, persist_references, commit_tree, commit_data, commit_object, commit_entity, committer,
  committed_source, commit_objects, new_commit_of, restart, next_obj, commit,
}

module _ (codec : Codec) (fuel : ℕ) (origin : Disk) where
  abbrev At : Committing → Type 0
  At s = Reach codec origin s.disk

  abbrev Going : Outcome Committing → Type 0
  Going = Ends At

  commit_tree-Going :
      (t : Tree) (ref : ObjectReference) (path : Str) (o : Outcome Committing)
      → Going o
      → Going (commit_tree codec fuel t ref path o).1
  unfolding commit_tree
  commit_tree-Going t ref path o h = Ends-bind At At o _ h λ s k.
      Ends-bind (λ _. Unit {0}) At (persist_references s.old_paths_to_new_oids t.refs) _ (any _)
        λ refs _.
          next (next k (Steps.tree (record { refs = refs }) s.disk)) (Steps.no_tree ref.path _)
    where
      any : (x : Outcome Refs) → Ends (λ _. Unit {0}) x
      any (returned a) = tt
      any thrown = tt
      any running = tt

  persisted :
      (path : Str) (d : Disk) (x : Outcome ((ℕ × Str) × Disk))
      → Transient.persist_transient_entitydata codec fuel path d ≡ x
      → Reach codec origin d
      → Ends (λ (r : (ℕ × Str) × Disk). Reach codec origin r.1) x
  persisted path d (returned (r, d')) e h = next h (Steps.persist fuel path d d' r e)
  persisted path d thrown e h = tt
  persisted path d running e h = tt

  abbrev DataAt : Bool × Entity × Disk → Type 0
  DataAt r = Reach codec origin r.2

  commit_data-At :
      (e : Entity) (path : Str) (d : Disk)
      → Reach codec origin d
      → Ends DataAt (commit_data codec fuel e path d)
  unfolding commit_data
  commit_data-At e path d h =
      Ends-bind (λ (r : (ℕ × Str) × Disk). Reach codec origin r.1) DataAt _ _
        (persisted path d _ refl h)
        λ ((status, id), d') k.
          if_both DataAt (not (is_empty id) && not (str_eq e.dataid id)) _ _ k k

  commit_object-At :
      (b : Bool) (e : Entity) (ref : ObjectReference) (path : Str) (s : Committing) (d : Disk)
      → Reach codec origin d
      → At (commit_object codec fuel b e ref path s d)
  unfolding commit_object
  commit_object-At false e ref path s d h = h
  commit_object-At true e ref path s d h =
      next (next h (Steps.entity e d)) (Steps.no_entity ref.path _)

  commit_entity-Going :
      (e : Entity) (ref : ObjectReference) (path : Str) (o : Outcome Committing)
      → Going o
      → Going (commit_entity codec fuel e ref path o).1
  unfolding commit_entity
  commit_entity-Going e ref path o h = Ends-bind At At o _ h λ s k.
      Ends-bind DataAt At _ _
        (if_both (Ends DataAt)
          (not (is_empty ref.path) && Transient.exists_stream_provider_transient ref.path s.disk)
          (commit_data codec fuel e ref.path s.disk) (returned (false, e, s.disk))
          (commit_data-At e ref.path s.disk k) k)
        λ r k'.
          commit_object-At
            (not (is_empty ref.path)
                && is_some (Transient.get_entity_transient codec ref.path s.disk)
              || r.0)
            r.1 ref path s r.2 k'

  commit_objects-Going :
      (w : Workspace) → Reach codec origin w.disk → Going (commit_objects codec fuel w)
  unfolding commit_objects
  commit_objects-Going w h =
      Ends-bind (λ r. Going r.1) At _ _
        (depth_first_search-keeps Going (committer codec fuel) (committed_source codec fuel w)
          (record {
            before_tree = λ t r p s k. k;
            after_tree = commit_tree-Going;
            before_entity = λ e r p s k. k;
            after_entity = commit_entity-Going;
          })
          fuel (get_root codec w) null_ref (slash ∷ []) (returned _) h)
        (λ (n, o) k. k)

  restart-At :
      (ref_id : Str) (w : Workspace) (o : Option Commit) (d : Disk)
      → Reach codec origin d
      → Ends
          (λ (r : Str × Workspace). Reach codec origin r.1.disk)
          (restart codec fuel ref_id w o d)
  unfolding restart
  restart-At ref_id w none d h = tt
  restart-At ref_id w (some c) d h =
      if_both (Ends (λ (r : Str × Workspace). Reach codec origin r.1.disk))
        (is_empty (root_of c.root).path) _ _
        (next h (Steps.workspace (next_obj codec fuel ref_id c) w.name d)) tt

  commit-At :
      (w : Workspace) (msg author email : Str) (stamp : Stamp)
      → Reach codec origin w.disk
      → Ends
          (λ (r : Str × Workspace). Reach codec origin r.1.disk)
          (commit codec fuel w msg author email stamp)
  unfolding commit
  commit-At w msg author email stamp h =
      Ends-bind At (λ (r : Str × Workspace). Reach codec origin r.1.disk)
        (commit_objects codec fuel w) _ (commit_objects-Going w h)
        λ s k.
          restart-At _ w _ _
            (next k (Steps.commit (new_commit_of codec fuel w s msg author email stamp) s.disk))

-- Committing a workspace leaves every tree, entity, commit and branch that was stored before as it
-- was, whatever the workspace holds.
pub commit_keeps_history :
    (codec : Codec) (fuel : ℕ) (w : Workspace) (msg author email : Str) (stamp : Stamp)
    → Ends (λ r. Preserves codec w.disk r.1.disk) (commit codec fuel w msg author email stamp)
commit_keeps_history codec fuel w msg author email stamp =
    Ends-map (λ (r : Str × Workspace). Reach codec w.disk r.1.disk) _ _
      (λ r. history_immutable codec) (commit-At codec fuel w.disk w msg author email stamp here)

-- What a workspace and the repository are after a commit that returned an id.
pub record IsCommitted (codec : Codec) (name : Str) (ref_id : Str) (w : Workspace) : Type 0 where
  pub commit_obj : Commit
  pub stored : Objects.get_commit codec ref_id w.disk ≡ some commit_obj
  pub root_is_stored : is_empty (root_of commit_obj.root).path ≡ true
  pub same_root :
      w.obj.rollingcommit.root ≡ some (record { id = (root_of commit_obj.root).id; path = [] })
  pub only_parent : w.obj.rollingcommit.parentcommitids ≡ ref_id ∷ []
  pub none_tracked : w.obj.transientoidstoorigin ≡ []
  pub same_name : w.name ≡ name
  pub saved : Transient.get_workspace_commit codec name w.disk ≡ some w.obj

-- ===== src/Tests/CommitFacts.antt =====
-- The theorems on workspaces, commits and histories at concrete inputs.
use mapit.Base.{Str, codes, true, [], ◌∷◌, ◌++◌, none, some, ◌≡◌, ◌↔◌, refl}
use mapit.Messages.{Tree, new_tree, Commit, new_commit, WorkspaceObj, Refs}
use mapit.TreeHash.{hash_commit}
use mapit.Outcome.{returned, Ends, Returns}
use mapit.Serializer.Disk.{Disk, empty_disk, path_eq, objectid_to_workspace_fs_path}
use mapit.Serializer.Objects
use mapit.Serializer.Transient
use mapit.Serializer.History.{Preserves}
use mapit.Paths.Canonical.{components, components_from}
use mapit.Workspace.{Workspace, get_entity, object_reference_of_child}
use mapit.Workspace.Below.{store_entity-below}
use mapit.Workspace.Walk.{root_missing}
use mapit.Workspace.Delete.{store_entity, store_tree, delete_entity, delete_tree}
use mapit.Workspace.Operations.{workspace_keeps_history}
use mapit.Repository.{
  new_workspace_obj, resolve, create_workspace, get_workspace, delete_workspace_forced,
}
use mapit.Repository.Commit.{Committing, persist_references, commit_objects, commit}
use mapit.Repository.Operations.{commit_keeps_history}
use mapit.Repository.References.{AreStored, persist_references-IsStored}
use mapit.Repository.Lifecycle.{create_workspace-get}
use mapit.Status
use mapit.Tests.Data.{codec, cloud, pose, filled, fresh, value_of}
use mapit.Workspace.StoreFresh.{store_entity-fresh}

root_missing-fresh : root_missing fresh ≡ true
unfolding root_missing
root_missing-fresh = refl

workspace_keeps_history_example :
    Ends (λ r. Preserves codec filled.disk r.1.disk) (store_entity codec (codes "b/c") pose filled)
    × Ends
        (λ r. Preserves codec filled.disk r.1.disk)
        (store_tree codec 5 (codes "b/c") (some new_tree) filled)
    × Ends (λ r. Preserves codec filled.disk r.1.disk) (delete_entity codec (codes "b/c") filled)
    × Ends (λ r. Preserves codec filled.disk r.1.disk) (delete_tree codec 5 (codes "b/c") filled)
workspace_keeps_history_example =
    workspace_keeps_history codec 5 (codes "b/c") pose (some new_tree) filled

store_entity-fresh_example :
    Returns
      (λ x. (x.0 ≡ Status.ok) × (get_entity codec (97 ∷ codes "/b/") x.1 ≡ some pose))
      (store_entity codec (47 ∷ codes "a//b") pose fresh)
unfolding components components_from
store_entity-fresh_example =
    store_entity-fresh codec pose 47 (codes "a//b") 97 (codes "/b/") (codes "a" ∷ []) (codes "b")
      fresh (refl, (refl, tt)) root_missing-fresh refl refl

-- An entity in a directory.
abbrev nested : Workspace
nested = (value_of (0, fresh) (store_entity codec (codes "x/a") cloud fresh)).1

abbrev root_tree : Tree
root_tree = record { refs = (codes "x", record { id = []; path = codes "ws/x/" }) ∷ [] }

abbrev directory : Tree
directory = record { refs = (codes "a", record { id = []; path = codes "ws/x/a" }) ∷ [] }

store_entity-below_example :
    store_entity codec (codes "x/a/b") pose nested
    ≡ returned (
      Status.ok,
      record nested {
        disk =
            (Transient.store_workspace_commit nested.obj
              (codes "ws")
              (Transient.store_tree_transient directory (codes "ws/") nested.disk).1).1;
      },
    )
unfolding components components_from store_entity Transient.get_tree_transient path_eq
    objectid_to_workspace_fs_path object_reference_of_child
store_entity-below_example =
    store_entity-below codec 120 (codes "/a/b") pose 120 [] 97 [] (codes "b") [] nested [] root_tree
      directory 119 119 119 (codes "s/") (codes "s/x/") (codes "s/x/a") refl refl refl refl refl
      refl refl

commit_keeps_history_example :
    Ends
      (λ r. Preserves codec filled.disk r.1.disk)
      (commit codec 5 filled (codes "m") (codes "me") (codes "e") 7)
commit_keeps_history_example =
    commit_keeps_history codec 5 filled (codes "m") (codes "me") (codes "e") 7

abbrev gathered : Committing
gathered =
    value_of (record { disk = filled.disk; old_paths_to_new_oids = []; files_changed = 0 })
      (commit_objects codec 5 filled)

abbrev root_id : Str
root_id = codes "#a#pc??w?" ++ 10 ∷ []

abbrev made : Commit
made = record {
  root = some (record { id = root_id; path = [] });
  parentcommitids = filled.obj.rollingcommit.parentcommitids;
  commitmessage = codes "m" ++ 10 ∷ [];
  author = codes "me <e>";
  stamp = record { sec = 0; nsec = 7 };
}

abbrev next_start : WorkspaceObj
next_start = record {
  rollingcommit = record new_commit {
    root = some (record { id = root_id; path = [] });
    parentcommitids = hash_commit codec made ∷ [];
  };
  transientoidstoorigin = [];
}

abbrev transient_refs : Refs
transient_refs =
    (codes "a", record { id = []; path = codes "ws/a" })
    ∷ (codes "b", record { id = codes "7"; path = [] })
    ∷ []

abbrev stored_refs : Refs
stored_refs =
    (codes "a", record { id = codes "9"; path = [] })
    ∷ (codes "b", record { id = codes "7"; path = [] })
    ∷ []

persist_references-IsStored_example :
    (persist_references ((codes "/a", codes "9") ∷ []) transient_refs ≡ returned stored_refs)
    ↔ AreStored ((codes "/a", codes "9") ∷ []) transient_refs stored_refs
persist_references-IsStored_example =
    persist_references-IsStored ((codes "/a", codes "9") ∷ []) transient_refs stored_refs
      (refl, (refl, tt))

abbrev with_master : Disk
with_master = (Objects.create_branch codec (record { commitid = [] }) (codes "master") empty_disk).1

abbrev created : Disk
created = (create_workspace codec (codes "master") (codes "ws") with_master).1

create_workspace-get_example :
    let obj = new_workspace_obj codec [] in
    ((create_workspace codec (codes "master") (codes "ws") with_master).0
      ≡ some (record { name = codes "ws"; branchname = codes "master"; obj = obj; disk = created }))
    × (get_workspace codec (codes "ws") created
        ≡ some (record { name = codes "ws"; branchname = []; obj = obj; disk = created }))
    × (create_workspace codec (codes "other") (codes "ws") created ≡ (none, created))
    × ((delete_workspace_forced codec (codes "ws") created).0 ≡ Status.ok)
    × (get_workspace codec (codes "ws") (delete_workspace_forced codec (codes "ws") created).1
        ≡ none)
unfolding resolve Objects.create_branch path_eq objectid_to_workspace_fs_path components
create_workspace-get_example =
    create_workspace-get codec (codes "master") (codes "other") (codes "ws") [] (codes "master")
      with_master refl refl

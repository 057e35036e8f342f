-- ===== src/Repository/Returns.antt =====
-- When `commit` returns, and with what.
use mapit.Base.{Str, ℕ, suc, [], none, ◌≡◌, refl}
use mapit.Messages.{Commit, Codec}
use mapit.Outcome.{returned}
use mapit.Search.{depth_first_search}
use mapit.Serializer.Prefix
use mapit.Serializer.Disk.{Disk}
use mapit.Serializer.Objects
use mapit.Serializer.Transient
use mapit.Workspace.{Workspace, get_root}
use mapit.Repository.Commit.{commit_objects, next_obj}

module _ (codec : Codec) (fuel : ℕ) where
  -- The workspace after a commit on a disk.
  abbrev pub restarted : Workspace → Str → Commit → Disk → Workspace
  restarted w id c d =
      let obj = next_obj codec fuel id c in
      record w { obj = obj; disk = (Transient.store_workspace_commit obj w.name d).1 }

-- A workspace without a root has nothing to store, and the search for its objects ends at once.
pub commit_objects-no_root :
    (codec : Codec) (fuel : ℕ) (w : Workspace)
    → get_root codec w ≡ none
    → commit_objects codec (suc fuel) w
      ≡ returned (record { disk = w.disk; old_paths_to_new_oids = []; files_changed = 0 })
unfolding commit_objects depth_first_search
commit_objects-no_root codec fuel w h = rw (commit_objects, h) refl

-- ===== src/Serializer/Listing.antt =====
-- `listWorkspaceNames` and `listBranches` of
-- libs/core/src/serialization/file_system/fs_serializer.cpp. What the directory iterators give is a
-- parameter: the names or paths in their order, and whether the test on the status holds. A directory that
-- is not there is `none`.
use mapit.Base.{Str, List, [], ◌∷◌, Option, none, some, Bool, if◌then◌else◌}
use mapit.Messages.{Branch, Codec}
use mapit.Serializer.Disk.{Disk, FsPath}
use mapit.Serializer.Objects.{read_as, branch_of}

unfoldable pub directories_of : List (Str × Bool) → List Str
directories_of [] = []
directories_of ((name, is_directory) ∷ it) =
    let rest = directories_of it in if is_directory then name ∷ rest else rest

unfoldable pub list_workspace_names : Option (List (Str × Bool)) → List Str
unfolding directories_of
list_workspace_names none = []
list_workspace_names (some it) = directories_of it

module _ (codec : Codec) where
  abbrev push_back : Option Branch → List Branch → List Branch
  push_back none ret = ret
  push_back (some br) ret = br ∷ ret

  -- A file that is no branch is passed over.
  unfoldable pub branches_of : List (FsPath × Bool) → Disk → List Branch
  unfolding read_as branch_of
  branches_of [] d = []
  branches_of ((p, is_regular_file) ∷ it) d =
      let rest = branches_of it d in
      if is_regular_file then push_back (read_as codec branch_of (d p)) rest else rest

  unfoldable pub list_branches : Option (List (FsPath × Bool)) → Disk → List Branch
  unfolding branches_of
  list_branches none d = []
  list_branches (some it) d = branches_of it d

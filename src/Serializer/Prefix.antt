-- ===== src/Serializer/Prefix.antt =====
-- The prefixes of libs/core/src/serialization/file_system/fs_serializer.cpp, as elements of a path.
use mapit.Base.{Str, codes}

abbrev pub trees : Str
trees = codes "trees"

abbrev pub entities : Str
entities = codes "entities"

abbrev pub entities_data : Str
entities_data = codes "entities_data"

abbrev pub branches : Str
branches = codes "branches"

abbrev pub commits : Str
commits = codes "commits"

abbrev pub workspaces : Str
workspaces = codes "workspaces"

abbrev pub generic_entry : Str
generic_entry = codes ".generic_entry"

abbrev pub entity_data : Str
entity_data = codes "entity_data"

abbrev pub root : Str
root = codes "root"

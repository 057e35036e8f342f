-- ===== src/EntityLibrary.antt =====
-- libs/core/src/serialization/entitydatalibrarymanager.cpp: the library that handles a layer type.
pub mod Names
use mapit.Base.{Str, codes, ℕ, List, [], ◌∷◌, ◌++◌, Option, none, some, ◌==◌, if◌then◌else◌}

-- `std::remove` and `erase` of one character.
unfoldable pub remove : ℕ → Str → Str
remove c [] = []
remove c (d ∷ s) = let rest = remove c s in if d == c then rest else d ∷ rest

-- `illegalCharacters` as the loop sees it: `strlen` ends at the `\0` in the middle of the literal, and
-- what the literal holds behind it is not removed.
abbrev pub illegal_characters : Str
illegal_characters = codes ".\\/<>$!#"

-- The loop over the illegal characters.
unfoldable pub remove_all : Str → Str → Str
unfolding remove
remove_all [] s = s
remove_all (c ∷ cs) s = remove_all cs (remove c s)

unfoldable pub layertype_name : Str → Str
unfolding remove_all
layertype_name type = remove_all illegal_characters type

-- What the build sets: `MAPIT_INSTALL_ENTITYTYPES` and `DEBUG_POSTFIX`, which is empty in a release.
module _ (install_entitytypes debug : Str) where
  unfoldable pub library_name : Str → Str
  unfolding layertype_name
  library_name type =
      codes "lib" ++ (install_entitytypes ++ (layertype_name type ++ (debug ++ codes ".so")))

  -- `wrapEntityOfType`: `./libs/` first, then where the system looks. `dlopen` and what a library makes
  -- of a provider are given.
  module _ {ℓ κ} {P : Type ℓ} {E : Type κ} (dlopen : Str → Option (P → Option E)) where
    unfoldable pub wrap_entity_of_type : Str → P → Option E
    unfolding library_name
    wrap_entity_of_type type provider =
        let name = library_name type in
        elim (dlopen (codes "./libs/" ++ name)) [
          | some create ↦ create provider
          | none ↦ elim (dlopen name) [ some create ↦ create provider | none ↦ none ]
        ]

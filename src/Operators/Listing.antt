-- ===== src/Operators/Listing.antt =====
-- What the list of operators holds.
use mapit.Base.{
  Str, codes, List, [], ◌∷◌, ◌++◌, Option, none, some, Bool, true, false, ◌&&◌, not, if◌then◌else◌,
}
use mapit.Base.{◌≡◌, refl, sym, ap, ◌∙◌, append_assoc, append-nil}
use mapit.Paths.{add_trailing}
use mapit.Operators.{
  ModuleInfo, Library, Entry, Entries, directory, locked, file, at_end, and_then, starts_with,
  add_module, is_dots, add_entry, add_entries, add_operators_from_directory, list_operators,
}
use mapit.Operators.Runs.{module_of}

-- The paths of the files with the prefix, below a directory, in order.
unfoldable mutual
  unfolding add_trailing starts_with

  pub files_of : Str → Bool → Str → Entry → List Str
  files_of prefix recursive path (directory name entries) =
      let inside = files_in prefix recursive (add_trailing (path ++ name)) entries in
      if recursive && not (is_dots name) then inside else []
  files_of prefix recursive path (locked name) = []
  files_of prefix recursive path (file name) =
      if starts_with prefix name then (path ++ name) ∷ [] else []

  pub files_in : Str → Bool → Str → Entries → List Str
  files_in prefix recursive path at_end = []
  files_in prefix recursive path (and_then e rest) =
      files_of prefix recursive path e ++ files_in prefix recursive path rest

unfoldable pub files_below : Str → Bool → Str → Option Entries → List Str
unfolding files_in
files_below prefix recursive dirname none = []
files_below prefix recursive dirname (some entries) =
    files_in prefix recursive (add_trailing dirname) entries

abbrev pub listed {ℓ} : {W : Type ℓ} → Option (ModuleInfo W) → List (ModuleInfo W)
listed none = []
listed (some info) = info ∷ []

module _ {ℓ} {W : Type ℓ} (dlopen : Str → Option (Library W)) where
  -- The modules among some files.
  unfoldable pub modules_of : List Str → List (ModuleInfo W)
  modules_of [] = []
  modules_of (p ∷ ps) = listed (module_of (dlopen p)) ++ modules_of ps

  modules_of-append : (ps qs : List Str) → modules_of (ps ++ qs) ≡ modules_of ps ++ modules_of qs
  unfolding modules_of
  modules_of-append [] qs = refl
  modules_of-append (p ∷ ps) qs =
      rw (modules_of-append ps qs, append_assoc (listed (module_of (dlopen p))))

  modules_of-if :
      (c : Bool) (x vec : List (ModuleInfo W)) (ps : List Str)
      → x ≡ vec ++ modules_of ps
      → (if c then x else vec) ≡ vec ++ modules_of (if c then ps else [])
  unfolding modules_of
  modules_of-if true x vec ps h = h
  modules_of-if false x vec ps h = sym (append-nil vec)

  add_module-listed :
      (install debug : Str) (o : Option (Library W)) (vec : List (ModuleInfo W))
      → add_module install debug dlopen o vec ≡ vec ++ listed (module_of o)
  unfolding add_module
  add_module-listed install debug none vec = sym (append-nil vec)
  add_module-listed install debug (some lib) vec =
      elim lib.info
        as (λ o. (elim o [ none ↦ vec | some info ↦ vec ++ info ∷ [] ]) ≡ vec ++ listed o) [
          | none ↦ sym (append-nil vec)
          | some info ↦ refl
        ]

  module _ (install debug : Str) where
    abbrev prefix : Str
    prefix = codes "lib" ++ install

    mutual
      unfolding add_entry files_of modules_of

      add_entry-modules_of :
          (b : Bool) (path : Str) (e : Entry) (vec : List (ModuleInfo W))
          → add_entry install debug dlopen b path e vec
            ≡ vec ++ modules_of (files_of prefix b path e)
      add_entry-modules_of b path (directory name entries) vec =
          modules_of-if (b && not (is_dots name)) _ vec _
            (add_entries-modules_of b (add_trailing (path ++ name)) entries vec)
      add_entry-modules_of b path (locked name) vec = sym (append-nil vec)
      add_entry-modules_of b path (file name) vec =
          modules_of-if (starts_with prefix name) _ vec ((path ++ name) ∷ []) (
            add_module-listed install debug (dlopen (path ++ name)) vec
            ∙ ap (λ t. vec ++ t) (sym (append-nil (listed (module_of (dlopen (path ++ name)))))))

      add_entries-modules_of :
          (b : Bool) (path : Str) (es : Entries) (vec : List (ModuleInfo W))
          → add_entries install debug dlopen b path es vec
            ≡ vec ++ modules_of (files_in prefix b path es)
      add_entries-modules_of b path at_end vec = sym (append-nil vec)
      add_entries-modules_of b path (and_then e rest) vec =
          add_entries-modules_of b path rest (add_entry install debug dlopen b path e vec)
          ∙ ap (λ t. t ++ modules_of (files_in prefix b path rest))
              (add_entry-modules_of b path e vec)
          ∙ append_assoc vec _ _
          ∙ ap (λ t. vec ++ t)
              (sym (modules_of-append (files_of prefix b path e) (files_in prefix b path rest)))

    add_operators-modules_of :
        (b : Bool) (dirname : Str) (o : Option Entries) (vec : List (ModuleInfo W))
        → add_operators_from_directory install debug dlopen b dirname o vec
          ≡ vec ++ modules_of (files_below prefix b dirname o)
    unfolding add_operators_from_directory files_below modules_of
    add_operators-modules_of b dirname none vec = sym (append-nil vec)
    add_operators-modules_of b dirname (some es) vec =
        add_entries-modules_of b (add_trailing dirname) es vec

-- The operators are listed in the order in which their libraries are found: below `./libs/` at any
-- depth, then in the two system directories alone. Every library with the prefix that is a module is
-- listed, also where a module of the same name is in the list already.
pub list_operators-modules_of {ℓ} :
    {W : Type ℓ} (dlopen : Str → Option (Library W)) (install debug : Str)
    (here usr usr_local : Option Entries)
    → let prefix = codes "lib" ++ install in
      list_operators install debug dlopen here usr usr_local
      ≡ (modules_of dlopen (files_below prefix true (codes "./libs/") here)
          ++ modules_of dlopen (files_below prefix false (codes "/usr/lib/") usr))
        ++ modules_of dlopen (files_below prefix false (codes "/usr/local/lib/") usr_local)
unfolding list_operators
list_operators-modules_of dlopen install debug here usr usr_local = rw (
  add_operators-modules_of dlopen install debug true (codes "./libs/") here [],
  add_operators-modules_of dlopen install debug false (codes "/usr/lib/") usr,
  add_operators-modules_of dlopen install debug false (codes "/usr/local/lib/") usr_local,
)

-- ===== src/Operators.antt =====
-- libs/core/src/serialization/operatorlibrarymanager.cpp and libs/core/src/operationenvironmentimpl.cpp:
-- operators are loaded from libraries, run on a workspace, and listed.
pub mod Runs
pub mod Listing
use mapit.Base.{
  Str, codes, ℕ, suc, List, [], ◌∷◌, ◌++◌, Option, none, some, Bool, true, false, ◌&&◌, ◌||◌, not,
}
use mapit.Base.{◌==◌, if◌then◌else◌, str_eq}
use mapit.Paths.{add_trailing}
use mapit.Time.{decimal}
use mapit.Status

-- The fields of the messages that are used here.
pub record OperatorDescription : Type 0 where
  pub operatorname : Str
  pub operatorversion : ℕ

pub record OperationDescription : Type 0 where
  pub operator : OperatorDescription
  pub params : Str

abbrev pub no_description : OperationDescription
no_description = record {
  operator = record { operatorname = []; operatorversion = 0 };
  params = [];
}

-- `OperationEnvironmentImpl`, over the workspaces `W`.
pub record Environment {ℓ} (W : Type ℓ) : Type ℓ where
  pub operation_desc : OperationDescription
  pub workspace : W
  pub out_desc : OperationDescription

-- The constructor and `setWorkspace`.
abbrev pub new_environment {ℓ} : {W : Type ℓ} → OperationDescription → W → Environment W
new_environment desc w = record { operation_desc = desc; workspace = w; out_desc = no_description }

abbrev pub get_parameters {ℓ} : {W : Type ℓ} → Environment W → Str
get_parameters env = env.operation_desc.params

abbrev pub set_output_description {ℓ} : {W : Type ℓ} → Str → Environment W → Environment W
set_output_description out env = record env { out_desc = record (env.out_desc) { params = out } }

-- What the code uses of a module, and of an open library.
pub record ModuleInfo {ℓ} (W : Type ℓ) : Type ℓ where
  pub module_name : Str
  pub operate : Environment W → ℕ × Environment W

pub record Library {ℓ} (W : Type ℓ) : Type ℓ where
  pub info : Option (ModuleInfo W)
  pub closes : Bool

-- What a directory holds, in the order of `readdir`.
mutual
  pub data Entry : Type 0 where
    directory : Str → Entries → Entry
    locked : Str → Entry
    file : Str → Entry

  pub data Entries : Type 0 where
    at_end : Entries
    and_then : Entry → Entries → Entries

-- `!name.compare(0, prefix.length(), prefix)`
unfoldable pub starts_with : Str → Str → Bool
starts_with [] s = true
starts_with (c ∷ p) [] = false
starts_with (c ∷ p) (d ∷ s) = c == d && starts_with p s

abbrev pub is_dots : Str → Bool
is_dots name = str_eq name (codes ".") || str_eq name (codes "..")

-- What the build sets: `MAPIT_INSTALL_OPERATORS` and `DEBUG_POSTFIX`, which is empty in a release.
module _ (install_operators debug : Str) where
  abbrev pub version_suffix : ℕ → Str
  version_suffix n = if n == 0 then [] else codes "." ++ decimal (suc n) n

  unfoldable pub operator_library_name : OperatorDescription → Str
  unfolding decimal
  operator_library_name desc =
      codes "lib"
      ++ (install_operators
          ++ (desc.operatorname ++ (debug ++ (codes ".so" ++ version_suffix desc.operatorversion))))

  module _ {ℓ} {W : Type ℓ} (dlopen : Str → Option (Library W)) where
    -- `loadOperatorModule`: `./libs/` first, then where the system looks.
    unfoldable pub load_operator_module : OperatorDescription → Option (Library W)
    unfolding operator_library_name
    load_operator_module desc =
        let filenam = operator_library_name desc in
        elim (dlopen (codes "./libs/" ++ filenam)) [ some lib ↦ some lib | none ↦ dlopen filenam ]

    -- `_doOperation`
    unfoldable pub run_module :
        ModuleInfo W → OperationDescription → W → (ℕ × OperationDescription) × W
    run_module info desc w =
        let (result, env) = info.operate (new_environment desc w) in
        ((result, env.out_desc), env.workspace)

    unfoldable pub close_operator_module : Library W → ℕ
    close_operator_module lib = if lib.closes then Status.ok else Status.unknown

    -- `OperatorLibraryManager::doOperation`. The status of closing is only logged.
    unfoldable pub run_library :
        Option (Library W) → OperationDescription → W → (ℕ × OperationDescription) × W
    unfolding run_module close_operator_module
    run_library none desc w = ((Status.operator_not_found, no_description), w)
    run_library (some lib) desc w = elim lib.info [
      | none ↦ ((Status.operator_not_found, no_description), w)
      | some info ↦
          let (result, w') = run_module info desc w in
          let status = close_operator_module lib in (result, w')
    ]

    unfoldable pub do_operation : OperationDescription → W → (ℕ × OperationDescription) × W
    unfolding run_library load_operator_module
    do_operation desc w = run_library (load_operator_module desc.operator) desc w

    -- A file that is no library, or a library that is no module, is passed over. The flag `duplicate` is
    -- computed and never read.
    unfoldable pub add_module : Option (Library W) → List (ModuleInfo W) → List (ModuleInfo W)
    add_module none vec = vec
    add_module (some lib) vec = elim lib.info [ none ↦ vec | some info ↦ vec ++ info ∷ [] ]

    -- The loop of `addOperatorsFromDirectory`, whose `path` ends in a slash.
    unfoldable mutual
      unfolding add_trailing starts_with add_module

      pub add_entry : Bool → Str → Entry → List (ModuleInfo W) → List (ModuleInfo W)
      add_entry recursive path (directory name entries) vec =
          let inside = add_entries recursive (add_trailing (path ++ name)) entries vec in
          if recursive && not (is_dots name) then inside else vec
      add_entry recursive path (locked name) vec = vec
      add_entry recursive path (file name) vec =
          if starts_with (codes "lib" ++ install_operators) name
          then add_module (dlopen (path ++ name)) vec
          else vec

      pub add_entries : Bool → Str → Entries → List (ModuleInfo W) → List (ModuleInfo W)
      add_entries recursive path at_end vec = vec
      add_entries recursive path (and_then e rest) vec =
          add_entries recursive path rest (add_entry recursive path e vec)

    -- A directory that cannot be opened adds nothing.
    unfoldable pub add_operators_from_directory :
        Bool → Str → Option Entries → List (ModuleInfo W) → List (ModuleInfo W)
    unfolding add_trailing add_entries
    add_operators_from_directory recursive dirname none vec = vec
    add_operators_from_directory recursive dirname (some entries) vec =
        add_entries recursive (add_trailing dirname) entries vec

    -- `listOperators`, of the three directories.
    unfoldable pub list_operators :
        Option Entries → Option Entries → Option Entries → List (ModuleInfo W)
    unfolding add_operators_from_directory
    list_operators here usr usr_local =
        add_operators_from_directory false (codes "/usr/local/lib/") usr_local (
          add_operators_from_directory false (codes "/usr/lib/") usr
            (add_operators_from_directory true (codes "./libs/") here []))

-- `WorkspaceImpl::doUntraceableOperation`
unfoldable pub do_untraceable_operation {ℓ} :
    {W : Type ℓ}
    → OperationDescription
    → (Environment W → ℕ × Environment W)
    → W
    → (ℕ × OperationDescription) × W
do_untraceable_operation desc operate w =
    let (result, env) = operate (new_environment desc w) in ((result, env.out_desc), env.workspace)

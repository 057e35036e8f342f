-- ===== src/Operators/Runs.antt =====
-- What running an operator from a library comes to.
use mapit.Base.{Str, Option, none, some, ◌≡◌, refl}
use mapit.Operators.{
  OperationDescription, no_description, ModuleInfo, Library, load_operator_module, run_library,
  do_operation, do_untraceable_operation,
}
use mapit.Status

-- The module of a library, if there is one.
abbrev pub module_of {ℓ} : {W : Type ℓ} → Option (Library W) → Option (ModuleInfo W)
module_of none = none
module_of (some lib) = lib.info

run_library-module {ℓ} :
    {W : Type ℓ} (install debug : Str) (dlopen : Str → Option (Library W)) (o : Option (Library W))
    (desc : OperationDescription) (w : W)
    → run_library install debug dlopen o desc w ≡ (elim (module_of o) [
      | none ↦ ((Status.operator_not_found, no_description), w)
      | some info ↦ do_untraceable_operation desc info.operate w
    ])
unfolding run_library do_untraceable_operation
run_library-module install debug dlopen none desc w = refl
run_library-module install debug dlopen (some lib) desc w = elim lib.info [
  | none ↦ refl
  | some info ↦ refl
]

-- An operation that is run from a library does exactly what the same function does as an untraceable
-- operation: it gives the same status, description and workspace, and whether the library can be closed
-- makes no difference. Where neither `./libs/` nor the system has a library that is a module, the status
-- says so, and the workspace stays as it is.
pub do_operation-untraceable {ℓ} :
    {W : Type ℓ} (install debug : Str) (dlopen : Str → Option (Library W))
    (desc : OperationDescription) (w : W)
    → do_operation install debug dlopen desc w
      ≡ (elim (module_of (load_operator_module install debug dlopen desc.operator)) [
        | none ↦ ((Status.operator_not_found, no_description), w)
        | some info ↦ do_untraceable_operation desc info.operate w
      ])
unfolding do_operation
do_operation-untraceable install debug dlopen desc w =
    run_library-module install debug dlopen
      (load_operator_module install debug dlopen desc.operator) desc w

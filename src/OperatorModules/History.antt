-- ===== src/OperatorModules/History.antt =====
-- The operators `delete` and `copy` (libs/operator_modules_collection) keep the history.
use mapit.Base.{Str, ℕ, suc, List, [], ◌∷◌, Option, none, some, Bool, not, length}
use mapit.Messages.{ObjectReference, null_ref, Entity, Tree, Codec}
use mapit.Search.Invariant.{depth_first_search-keeps}
use mapit.Serializer.Disk.{Disk}
use mapit.Serializer.Steps.{here}
use mapit.Serializer.History.{Kept, Kept-Preserves, Preserves}
use mapit.Serializer.Transient.{read_chunks}
use mapit.Operators.{Environment}
use mapit.Workspace.{Workspace, get_tree, get_entity}
use mapit.Workspace.Delete.{store_entity, delete_entity, delete_tree, remaining}
use mapit.Workspace.History.{MovedTo}
use mapit.Workspace.Operations.{store_entity-Moved, delete_entity-Moved, delete_tree-Moved}
use mapit.EntityData.{
  Provider, start_read, start_write, get_entitydata_read_only, get_entitydata_for_read_write,
}
use mapit.EntityData.History.{
  Kept-refl, Kept-trans, KeptFrom, moved-Kept, IsWritable, for_write-IsWritable, loaded_by,
  start_write-Kept, end_write-Kept,
}
use mapit.Outcome.{Outcome, returned, thrown, running, ◌>>=◌, Ends, Ends-bind, Ends-map, if_both}
use mapit.OperatorModules.Delete.{
  Target, string, array, neither, checked, delete_tree_at, delete_entity_or_tree, delete_all,
  delete_target, operate_delete,
}
use mapit.OperatorModules.Copy.{
  replace_found, copy_data, copy_stored, copy_entity, goes_on, copy_to, copy_found, copier,
  copy_tree, copy_from, successful, operate_copy,
}
use mapit.Status

module _ (codec : Codec) (origin : Disk) where
  abbrev Held : Outcome (ℕ × Workspace) → Type 0
  Held = Ends (KeptFrom origin)

  -- A call that moves a workspace along the steps of the serializer.
  moved-Held :
      (w : Workspace) (o : Outcome (ℕ × Workspace))
      → Kept origin w.disk
      → Ends (MovedTo codec w.disk) o
      → Held o
  moved-Held w o h k =
      Ends-map (KeptFrom w.disk) (KeptFrom origin) o (λ r. Kept-trans origin w.disk r.1.disk h)
        (moved-Kept codec w o k)

  module _ (fuel : ℕ) where
    checked-Held : (o : Outcome (ℕ × Workspace)) → Held o → Held (o >>= checked codec fuel)
    checked-Held o h =
        Ends-bind (KeptFrom origin) (KeptFrom origin) o (checked codec fuel) h (λ (s, w) k.
          if_both Held (not (Status.is_ok s)) (returned (s, w)) (returned (Status.ok, w)) k k)

    delete_tree_at-Held :
        (name : Str) (t : Option Tree) (w : Workspace)
        → Kept origin w.disk
        → Held (delete_tree_at codec fuel name t w)
    unfolding delete_tree_at
    delete_tree_at-Held name none w h = h
    delete_tree_at-Held name (some t) w h = checked-Held (delete_tree codec fuel name w) (
        moved-Held w (delete_tree codec fuel name w) h
          (delete_tree-Moved codec w.disk fuel name w here))

    delete_entity_or_tree-Held :
        (name : Str) (w : Workspace)
        → Kept origin w.disk
        → Held (delete_entity_or_tree codec fuel name w)
    unfolding delete_entity_or_tree
    delete_entity_or_tree-Held name w h = there (get_entity codec name w)
      where
        there :
            (o : Option Entity)
            → Held (elim o as (λ _. Outcome (ℕ × Workspace)) [
              | some e ↦ delete_entity codec name w >>= checked codec fuel
              | none ↦ delete_tree_at codec fuel name (get_tree codec name w) w
            ])
        there none = delete_tree_at-Held name (get_tree codec name w) w h
        there (some e) = checked-Held (delete_entity codec name w) (
            moved-Held w (delete_entity codec name w) h
              (delete_entity-Moved codec w.disk name w here))

    delete_all-Held :
        (names : List Str) (w : Workspace)
        → Kept origin w.disk
        → Held (delete_all codec fuel names w)
    unfolding delete_all
    delete_all-Held [] w h = h
    delete_all-Held (name ∷ names) w h =
        Ends-bind (KeptFrom origin) (KeptFrom origin) (delete_entity_or_tree codec fuel name w) _
          (delete_entity_or_tree-Held name w h)
          (λ (s, w') k.
            if_both Held (not (Status.is_ok s)) (returned (s, w')) (delete_all codec fuel names w')
              k (delete_all-Held names w' k))

    delete_target-Held :
        (target : Target) (w : Workspace)
        → Kept origin w.disk
        → Held (delete_target codec fuel target w)
    unfolding delete_target
    delete_target-Held (string name) w h =
        checked-Held (delete_entity_or_tree codec fuel name w) (delete_entity_or_tree-Held name w h)
    delete_target-Held (array names) w h = delete_all-Held names w h
    delete_target-Held neither w h = h

  module _ (loads : Str → Bool) where
    copy_data-Held :
        (source target : Option Provider) (w : Workspace)
        → IsWritable target
        → Kept origin w.disk
        → Held (copy_data codec loads source target w)
    unfolding copy_data IsWritable
    copy_data-Held none target w outside h = tt
    copy_data-Held (some source) none w outside h = tt
    copy_data-Held (some source) (some target) w outside h =
        let (kept, written) = start_write-Kept target 0 0 w.disk outside in
        let (os, d) = start_write target 0 0 w.disk in
        let bytes = start_read codec source 0 0 d in
        Ends-bind (λ (s : Str). Unit {0}) (KeptFrom origin)
          (read_chunks (suc (length bytes)) 1024 bytes []) _
          (ended (read_chunks (suc (length bytes)) 1024 bytes []))
          (λ copied k.
            Kept-trans origin d _ (Kept-trans origin w.disk d h kept)
              (end_write-Kept copied os d written))
      where
        ended : (o : Outcome Str) → Ends (λ (s : Str). Unit {0}) o
        ended (returned s) = tt
        ended thrown = tt
        ended running = tt

    copy_entity-Held :
        (source target : Str) (o : Option Entity) (w : Workspace)
        → Kept origin w.disk
        → Held (copy_entity codec loads source target o w)
    unfolding copy_entity copy_stored
    copy_entity-Held source target none w h = h
    copy_entity-Held source target (some e) w h =
        Ends-bind (KeptFrom origin) (KeptFrom origin) (store_entity codec target e w)
          (copy_stored codec loads source target)
          (moved-Held w (store_entity codec target e w) h
            (store_entity-Moved codec w.disk target e w here))
          (λ (s, w') k.
            let from = get_entitydata_read_only codec (loaded_by loads) source w' in
            let to = get_entitydata_for_read_write codec (loaded_by loads) target w' in
            if_both Held (not (Status.is_ok s)) (returned (s, w'))
              (copy_data codec loads from to w') k
              (copy_data-Held from to w' (for_write-IsWritable codec loads target w') k))

    abbrev Going : Outcome Workspace → Type 0
    Going = Ends (λ w. Kept origin w.disk)

    goes_on-Going : (o : Outcome (ℕ × Workspace)) → Held o → Going (goes_on codec loads o).1
    goes_on-Going (returned (s, w)) h = h
    goes_on-Going thrown h = tt
    goes_on-Going running h = tt

    copy_found-Going :
        (source target : Str) (e : Entity) (ref : ObjectReference) (path : Str)
        (o : Outcome Workspace)
        → Going o
        → Going (copy_found codec loads source target e ref path o).1
    unfolding copy_found
    copy_found-Going source target e ref path (returned w) h =
        named (replace_found source target path)
      where
        named : (o : Option Str) → Going (copy_to codec loads path o e w).1
        named none = h
        named (some path_new) =
            goes_on-Going (copy_entity codec loads path path_new (some e) w)
              (copy_entity-Held path path_new (some e) w h)
    copy_found-Going source target e ref path thrown h = tt
    copy_found-Going source target e ref path running h = tt

    module _ (fuel : ℕ) where
      copy_tree-Going :
          (source target : Str) (o : Option Tree) (w : Workspace)
          → Kept origin w.disk
          → Going (copy_tree codec loads fuel source target o w)
      unfolding copy_tree
      copy_tree-Going source target none w h = h
      copy_tree-Going source target (some t) w h =
          Ends-bind (λ r. Going r.1) (λ w. Kept origin w.disk) _ _
            (depth_first_search-keeps Going (copier codec loads source target) (remaining codec)
              (record {
                before_tree = λ t r p s k. k;
                after_tree = λ t r p s k. k;
                before_entity = copy_found-Going source target;
                after_entity = λ e r p s k. k;
              })
              fuel (some t) null_ref source (returned w) h)
            (λ (n, o) k. k)

      copy_from-Going :
          (source target : Str) (o : Option Entity) (w : Workspace)
          → Kept origin w.disk
          → Going (copy_from codec loads fuel source target o w)
      unfolding copy_from
      copy_from-Going source target none w h =
          copy_tree-Going source target (get_tree codec source w) w h
      copy_from-Going source target (some e) w h =
          Ends-bind (KeptFrom origin) (λ w. Kept origin w.disk)
            (copy_entity codec loads source target (some e) w) _
            (copy_entity-Held source target (some e) w h) (λ r k. k)

      copied-Held :
          (o : Option (Str × Str)) (w : Workspace)
          → Kept origin w.disk
          → Held (elim o as (λ _. Outcome (ℕ × Workspace)) [
            | none ↦ returned (Status.invalid_argument, w)
            | some (source, target) ↦
                copy_from codec loads fuel source target (get_entity codec source w) w
                >>= successful codec loads fuel
          ])
      copied-Held none w h = h
      copied-Held (some (source, target)) w h =
          Ends-bind (λ w. Kept origin w.disk) (KeptFrom origin) _ (successful codec loads fuel)
            (copy_from-Going source target (get_entity codec source w) w h) (λ w k. k)

-- Whatever parameters they get, the operators `delete` and `copy` leave every stored tree, entity, commit and
-- branch as it was, on whatever workspace they run and wherever they end with a value.
pub operate_delete-operate_copy-keeps :
    (codec : Codec) (loads : Str → Bool) (fuel : ℕ) (target_of : Str → Target)
    (parse : Str → Option (Str × Str)) (env : Environment Workspace)
    → Ends
        (λ r. Preserves codec env.workspace.disk r.1.disk)
        (operate_delete codec fuel target_of env)
      × Ends
          (λ r. Preserves codec env.workspace.disk r.1.disk)
          (operate_copy codec loads fuel parse env)
unfolding operate_delete operate_copy
operate_delete-operate_copy-keeps codec loads fuel target_of parse env =
    let d = env.workspace.disk in
    (
      preserved (operate_delete codec fuel target_of env) (
          delete_target-Held codec d fuel (target_of env.operation_desc.params) env.workspace
            (Kept-refl d)),
      preserved (operate_copy codec loads fuel parse env) (
          copied-Held codec d loads fuel (parse env.operation_desc.params) env.workspace
            (Kept-refl d)),
    )
  where
    preserved :
        (o : Outcome (ℕ × Workspace))
        → Ends (KeptFrom env.workspace.disk) o
        → Ends (λ (r : ℕ × Workspace). Preserves codec env.workspace.disk r.1.disk) o
    preserved o =
        Ends-map (KeptFrom env.workspace.disk) _ o
          (λ r. Kept-Preserves codec env.workspace.disk r.1.disk)

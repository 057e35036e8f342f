-- ===== src/OperatorModules/Copy.antt =====
-- The operator `copy` (libs/operator_modules_collection/copy/src/main.cpp).
use mapit.Base.{
  Str, ℕ, suc, [], ◌∷◌, ◌++◌, Option, none, some, Bool, false, not, if◌then◌else◌, length,
}
use mapit.Messages.{ObjectReference, null_ref, Entity, Tree, Codec}
use mapit.Search.{Visitor, all, depth_first_search}
use mapit.Serializer.Transient.{read_chunks}
use mapit.Operators.{Environment, get_parameters, starts_with}
use mapit.Workspace.{Workspace, get_tree, get_entity}
use mapit.Workspace.Delete.{store_entity, remaining}
use mapit.EntityData.{
  Provider, drop, start_read, start_write, end_write, get_entitydata_read_only,
  get_entitydata_for_read_write,
}
use mapit.EntityData.History.{loaded_by}
use mapit.Outcome.{Outcome, returned, thrown, running, ◌>>=◌}
use mapit.Status

-- `pathNew.find(source)` and `pathNew.replace(f, source.length(), target)`.
unfoldable pub replace_found : Str → Str → Str → Option Str
unfolding starts_with
replace_found source target [] = if starts_with source [] then some target else none
replace_found source target (c ∷ path) =
    let rest = replace_found source target path in
    if starts_with source (c ∷ path)
    then some (target ++ drop (length source) (c ∷ path))
    else elim rest [ some r ↦ some (c ∷ r) | none ↦ none ]

module _ (codec : Codec) (loads : Str → Bool) where
  -- The streams of both, the target emptied first, and the loop from the one to the other.
  unfoldable pub copy_data : Option Provider → Option Provider → Workspace → Outcome (ℕ × Workspace)
  unfolding read_chunks
  copy_data (some source) (some target) w =
      let (os, d) = start_write target 0 0 w.disk in
      let bytes = start_read codec source 0 0 d in
      read_chunks (suc (length bytes)) 1024 bytes [] >>= λ copied.
      returned (Status.ok, record w { disk = end_write copied (os, d) })
  copy_data (some source) none w = thrown
  copy_data none target w = thrown

  unfoldable pub copy_stored : Str → Str → ℕ × Workspace → Outcome (ℕ × Workspace)
  unfolding copy_data get_entitydata_read_only get_entitydata_for_read_write
  copy_stored source target (s, w) =
      let copied =
        copy_data (get_entitydata_read_only codec (loaded_by loads) source w)
          (get_entitydata_for_read_write codec (loaded_by loads) target w) w in
      if not (Status.is_ok s) then returned (s, w) else copied

  unfoldable pub copy_entity : Str → Str → Option Entity → Workspace → Outcome (ℕ × Workspace)
  unfolding copy_stored store_entity
  copy_entity source target none w = returned (Status.error, w)
  copy_entity source target (some e) w = store_entity codec target e w >>= copy_stored source target

  -- What a callback has come to: whether the search goes on, and the workspace.
  abbrev pub goes_on : Outcome (ℕ × Workspace) → Bool × Outcome Workspace
  goes_on (returned (s, w)) = (Status.is_ok s, returned w)
  goes_on thrown = (false, thrown)
  goes_on running = (false, running)

  abbrev pub copy_to : Str → Option Str → Entity → Workspace → Bool × Outcome Workspace
  copy_to path none e w = (false, returned w)
  copy_to path (some path_new) e w = goes_on (copy_entity path path_new (some e) w)

  unfoldable pub copy_found :
      Str → Str → Entity → ObjectReference → Str → Outcome Workspace → Bool × Outcome Workspace
  unfolding replace_found copy_entity
  copy_found source target e ref path (returned w) =
      copy_to path (replace_found source target path) e w
  copy_found source target e ref path o = (false, o)

  abbrev pub copier : Str → Str → Visitor (Outcome Workspace)
  copier source target = record {
    before_tree = all;
    after_tree = all;
    before_entity = copy_found source target;
    after_entity = all;
  }

  module _ (fuel : ℕ) where
    unfoldable pub copy_tree : Str → Str → Option Tree → Workspace → Outcome Workspace
    unfolding copy_found depth_first_search
    copy_tree source target none w = returned w
    copy_tree source target (some t) w =
        depth_first_search (copier source target) (remaining codec) fuel (some t) null_ref source
          (returned w)
        >>= λ (status, o). o

    unfoldable pub copy_from : Str → Str → Option Entity → Workspace → Outcome Workspace
    unfolding copy_entity copy_tree
    copy_from source target (some e) w =
        copy_entity source target (some e) w >>= λ (s, w'). returned w'
    copy_from source target none w = copy_tree source target (get_tree codec source w) w

    abbrev pub successful : Workspace → Outcome (ℕ × Workspace)
    successful w = returned (Status.ok, w)

    -- The JSON of the parameters, which a library reads, gives the source and the target, or nothing where it
    -- cannot be read. The status of what is copied is only logged.
    unfoldable pub operate_copy :
        (Str → Option (Str × Str)) → Environment Workspace → Outcome (ℕ × Workspace)
    unfolding copy_from
    operate_copy parse env = elim (parse (get_parameters env)) [
      | none ↦ returned (Status.invalid_argument, env.workspace)
      | some (source, target) ↦
          copy_from source target (get_entity codec source env.workspace) env.workspace
          >>= successful
    ]

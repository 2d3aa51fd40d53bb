-- ===== src/CanisterConfig/Files.antt =====
-- schema.rs, and what schema/dscvr.rs reads and writes: the configuration in its files. The files
-- are texts by their path; every file can be created. `serde_json` prints and parses them.
pub mod Commit
pub mod Reading
mod Tests
use metamagic.Prelude.{
  ℕ, String, ◌<>◌, ◌≡◌, Bool, true, false, Option, none, some, List, [], ◌∷◌, ◌++◌, ◌==◌, string_eq,
  if◌then◌else◌, Outcome, ok, err, panic, ◌>>=◌,
}
use metamagic.Prelude.HashMap.{HashMap, lookup, insert, contains_key}
use metamagic.CanisterConfig.Schema as Schema
use metamagic.CanisterConfig.Schema.{
  CanisterInstance, DscvrConfig, local_network_name, production_network_name,
  default_dscvr_config_path,
}
use metamagic.CanisterConfig.Allocate.{add_available_canisters, register_available_canisters}
use metamagic.CanisterConfig.Persist.{
  generate_default_config, generate_local_config, merge, copy_production_instances_to_network,
}
use metamagic.CanisterConfig.Dfx as Dfx
use metamagic.CanisterConfig.Dfx.{DfxConfig, try_from_dscvr_for_network, CanisterIds, canister_ids}

-- `serde_json::to_writer` and `serde_json::from_reader` for a type
pub record Json (T : Type 0) : Type 0 where
  pub to_writer : T → String
  pub from_reader : String → Option T

-- What `serde_json` promises of a value.
abbrev pub ReadsBack : {T : Type 0} → Json T → T → Type 0
ReadsBack json t = json.from_reader (json.to_writer t) ≡ some t

-- The errors of the workflows, which are printed into one type of error.
pub data Error : Type 0 where
  json : Error
  dscvr : Schema.Error → Error
  dfx : Dfx.Error → Error

abbrev pub Files : Type 0
Files = HashMap String String

abbrev pub local_dscvr_config_path : String
local_dscvr_config_path = "./dscvr.local.json"

abbrev default_dfx_config_path : String
default_dfx_config_path = "./dfx.json"

abbrev default_canister_ids_path : String
default_canister_ids_path = "./canister_ids.json"

abbrev local_canister_ids_path : String
local_canister_ids_path = "./.dfx/local/canister_ids.json"

-- A file that is missing panics.
unfoldable pub get_config : {T : Type 0} → Json T → String → Files → Outcome Error T
get_config j path files = elim (lookup path files) [
  | none ↦ panic
  | some text ↦ elim (j.from_reader text) [ none ↦ err json | some t ↦ ok t ]
]

unfoldable pub write_config : {T : Type 0} → Json T → String → T → Files → Files
write_config j path config files = insert path (j.to_writer config) files

-- The error of one part as that of a workflow.
abbrev pub lift : {A E : Type 0} → (E → Error) → Outcome E A → Outcome Error A
lift f (ok a) = ok a
lift f (err e) = err (f e)
lift f panic = panic

module _ (dscvr_json : Json DscvrConfig) where
  -- `DSCVRConfig::write_config`: the configuration that was written, and the files.
  unfoldable pub commit : DscvrConfig → String → Files → DscvrConfig × Files
  commit cfg network files =
      if network == local_network_name
      then (let config_to_write = generate_local_config cfg in
          (config_to_write, write_config dscvr_json local_dscvr_config_path config_to_write files))
      else (let config_to_write = generate_default_config cfg in
          (
            config_to_write,
            write_config dscvr_json default_dscvr_config_path config_to_write files,
          ))

  -- The local file is made from the other one if it does not exist.
  unfoldable pub get_or_generate_local : Files → Outcome Error DscvrConfig × Files
  get_or_generate_local files =
      if contains_key local_dscvr_config_path files
      then (get_config dscvr_json local_dscvr_config_path files, files)
      else elim (get_config dscvr_json default_dscvr_config_path files)
          as (λ _. Outcome Error DscvrConfig × Files) [
            | ok config ↦
                let written =
                  commit (copy_production_instances_to_network (some local_network_name) config)
                    local_network_name files in
                (ok written.0, written.1)
            | err e ↦ (err e, files)
            | panic ↦ (panic, files)
          ]

  unfoldable pub try_new : String → Files → Outcome Error DscvrConfig × Files
  try_new network files =
      if network == local_network_name
      then get_or_generate_local files
      else (get_config dscvr_json default_dscvr_config_path files, files)

  unfoldable pub merge_local : DscvrConfig → Files → Outcome Error DscvrConfig × Files
  merge_local base_config files =
      let local_config = get_or_generate_local files in
      (local_config.0 >>= (λ l. ok (merge l base_config)), local_config.1)

  unfoldable pub generate_config_from_production : Files → Outcome Error DscvrConfig × Files
  generate_config_from_production files =
      let read = try_new production_network_name files in
      elim read.0 [
        | ok cfg ↦ merge_local cfg read.1
        | err e ↦ (err e, read.1)
        | panic ↦ (panic, read.1)
      ]

  -- The instances that were allocated are committed before the configuration for dfx is made: if
  -- that fails, they stay.
  unfoldable pub allocate_canisters :
      Json DfxConfig → String → String → ℕ → Files → Outcome Error (List CanisterInstance) × Files
  allocate_canisters dfx_json canister network count files =
      let read = try_new network files in
      elim read.0 [
        | ok cfg ↦
            let added = add_available_canisters canister network count cfg in
            elim (lift dscvr added.0) [
              | ok available_canisters ↦
                  let written = commit added.1 network read.1 in
                  elim (lift dfx (try_from_dscvr_for_network added.1 network)) [
                    | ok config ↦ (
                      ok available_canisters,
                      write_config dfx_json default_dfx_config_path config written.1,
                    )
                    | err e ↦ (err e, written.1)
                    | panic ↦ (panic, written.1)
                  ]
              | err e ↦ (err e, read.1)
              | panic ↦ (panic, read.1)
            ]
        | err e ↦ (err e, read.1)
        | panic ↦ (panic, read.1)
      ]

  -- The instances of `canister_ids.json`, each with its id on the network.
  abbrev instances_of_ids : String → CanisterIds → List CanisterInstance
  instances_of_ids network [] = []
  instances_of_ids network ((name, canister_map) ∷ ids) =
      record { name = name; id = lookup network canister_map } ∷ instances_of_ids network ids

  unfoldable pub augment_canister_ids :
      Json CanisterIds → String → String → Files → Outcome Error (Unit {0}) × Files
  augment_canister_ids ids_json canister network files =
      let canister_id_path =
        if network == local_network_name
        then local_canister_ids_path
        else default_canister_ids_path in
      let read = try_new network files in
      let configs : Outcome Error (DscvrConfig × CanisterIds) = (do
        cfg ← read.0
        ids ← get_config ids_json canister_id_path read.1
        ok (cfg, ids)) in
      elim configs as (λ _. Outcome Error (Unit {0}) × Files) [
        | ok (cfg, ids) ↦
            let registered =
              register_available_canisters canister network (instances_of_ids network ids) cfg in
            elim (lift dscvr registered.0) [
              | ok _ ↦ (ok tt, (commit registered.1 network read.1).1)
              | err e ↦ (err e, read.1)
              | panic ↦ (panic, read.1)
            ]
        | err e ↦ (err e, read.1)
        | panic ↦ (panic, read.1)
      ]

-- Both files for dfx, or neither.
unfoldable pub generate_dfx_config_for_network :
    Json DfxConfig
    → Json CanisterIds
    → DscvrConfig
    → String
    → Files
    → Outcome Error (Unit {0}) × Files
generate_dfx_config_for_network dfx_json ids_json dscvr_cfg network files =
    elim (lift dfx (try_from_dscvr_for_network dscvr_cfg network)) [
      | ok config ↦ (
        ok tt,
        write_config ids_json default_canister_ids_path (canister_ids dscvr_cfg)
            (write_config dfx_json default_dfx_config_path config files),
      )
      | err e ↦ (err e, files)
      | panic ↦ (panic, files)
    ]

-- ===== src/CanisterConfig/Tests.antt =====
-- A configuration with one canister, and what is done to it.
use metamagic.Prelude.{
  ◌+◌, ◌≡◌, ◌≢◌, refl, arith, true, String, none, some, List, [], ◌∷◌, ◌++◌, length, ok, string_eq,
  ==-false, if◌then◌else◌, ◌==◌,
}
use metamagic.Prelude.HashMap.{
  HashMap, lookup, NodupKeys, contains_key, remove, map_entries, retain, insert,
}
use metamagic.CanisterConfig.Schema.{
  CanisterInstance, CanisterNetwork, Canister, DscvrConfig, local_network_name,
  production_network_name, controller_eq,
}
use metamagic.CanisterConfig.Query.{instances_of, get_canister_network}
use metamagic.CanisterConfig.Allocate.{new_canisters, allocate}
use metamagic.CanisterConfig.Allocate.Numbering.{IsNumbered, allocate_lem}
use metamagic.CanisterConfig.Provision.{provision}
use metamagic.CanisterConfig.Provision.Moves.{backwards, provision_moves, provision_reissues}
use metamagic.CanisterConfig.Persist.{
  generate_default_config, generate_local_config, merge, remove_all, canisters_to_remove,
  only_local, strip_local,
}
use metamagic.CanisterConfig.Persist.Merge.{merge-generate}
use metamagic.CanisterConfig.Files.{Json, ReadsBack, commit, generate_config_from_production}
use metamagic.CanisterConfig.Files.Commit.{part_of, production-commit}
use metamagic.CanisterConfig.Dfx.{
  DfxConfig, canister_ids, try_from_dscvr_for_network, push_canisters, controllers_of,
  push_networks, push_instances, dfx_canister,
}
use metamagic.CanisterConfig.Dfx.Ids.{id_of, first_in_canisters, id_of-canister_ids}
use metamagic.CanisterConfig.Dfx.Names.{
  is_some, named_in_canisters, shared_in_canisters, try_from_lem,
}

abbrev instance_ : String → CanisterInstance
instance_ name = record { name = name; id = some name }

abbrev network : CanisterNetwork
network = record {
  provider = "http://localhost:8000";
  controllers = none;
  provisioned_instances = some (instance_ "a" ∷ []);
  available_instances = some (instance_ "b" ∷ instance_ "c" ∷ []);
  wallet = none;
}

abbrev empty_network : CanisterNetwork
empty_network = record network { provisioned_instances = none; available_instances = none }

abbrev canister : Canister
canister = record {
  networks = (local_network_name, network) ∷ (production_network_name, network) ∷ [];
  candid = "society.did";
  wasm = "society.wasm";
  build = "build society";
  supports_init_params = none;
  supports_stable_storage_backup_restore = some true;
}

abbrev config : DscvrConfig
config = record { canisters = ("society", canister) ∷ []; controller_groups = none }

config-NodupKeys : NodupKeys config.canisters
unfolding lookup
config-NodupKeys = (refl, tt)

no_instances-IsNumbered : IsNumbered "society" (instances_of empty_network)
no_instances-IsNumbered = record { distinct = tt; bounded = tt }

allocate_lem_example :
    (length (allocate "society" 2 empty_network).0 ≡ 2)
    × (instances_of (allocate "society" 2 empty_network).1
        ≡ [] ++ (allocate "society" 2 empty_network).0)
    × IsNumbered "society" (instances_of (allocate "society" 2 empty_network).1)
allocate_lem_example = allocate_lem "society" 2 empty_network no_instances-IsNumbered

provision_moves_example :
    (taken : List CanisterInstance) × (rest : List CanisterInstance) × (length taken ≡ 1)
    × (rest ++ backwards taken ≡ instance_ "b" ∷ instance_ "c" ∷ [])
    × (provision 1 (instance_ "b" ∷ instance_ "c" ∷ []) network ≡ (
      ok taken,
      record network {
        available_instances = some rest;
        provisioned_instances = some (instance_ "a" ∷ [] ++ taken);
      },
    ))
provision_moves_example =
    provision_moves 1 (instance_ "b" ∷ instance_ "c" ∷ []) (instance_ "a" ∷ []) network refl
      (omega arith)

abbrev one_left : CanisterNetwork
one_left = record empty_network {
  available_instances = some (new_canisters "society" 1 1);
  provisioned_instances = none;
}

provision_reissues_example :
    provision 2 (new_canisters "society" (1 + 2) 1) empty_network
    ≡ (ok (backwards (allocate "society" 2 one_left).0), one_left)
provision_reissues_example = provision_reissues "society" 1 2 empty_network refl

merge-generate_example :
    get_canister_network
      (merge (generate_local_config config) (generate_default_config config))
      "society"
      "local"
    ≡ get_canister_network config "society" "local"
merge-generate_example = merge-generate config "society" "local" config-NodupKeys

id_of-canister_ids_example :
    id_of (canister_ids config) "b" "ic" ≡ first_in_canisters "b" "ic" config.canisters
id_of-canister_ids_example = id_of-canister_ids config "b" "ic"

-- A printer that tells the two parts of the configuration apart, and its parser.
abbrev text_of : HashMap String CanisterNetwork → String
text_of [] = "none"
text_of (_ ∷ []) = "local"
text_of (_ ∷ _ ∷ _) = "all"

abbrev print : DscvrConfig → String
print cfg = elim (lookup "society" cfg.canisters) [ none ↦ "none" | some c ↦ text_of c.networks ]

abbrev json : Json DscvrConfig
json = record {
  to_writer = print;
  from_reader = λ text.
      if text == "local"
      then some (generate_local_config config)
      else some (generate_default_config config);
}

local-ReadsBack : ReadsBack json (generate_local_config config)
unfolding generate_local_config map_entries retain lookup string_eq
local-ReadsBack = refl

default-ReadsBack : ReadsBack json (generate_default_config config)
unfolding generate_default_config remove_all canisters_to_remove only_local contains_key remove
    strip_local map_entries lookup string_eq
default-ReadsBack = refl

ic-local : "ic" ≢ local_network_name
unfolding string_eq
ic-local = ==-false "ic" local_network_name refl

part-ReadsBack : ReadsBack json (part_of "local" config)
unfolding generate_local_config map_entries retain lookup string_eq
part-ReadsBack = refl

production-commit_example :
    (read : DscvrConfig) × (generate_config_from_production json
        (commit json config "ic" (commit json config local_network_name []).1).1
      ≡ (ok read, (commit json config "ic" (commit json config local_network_name []).1).1))
    × (get_canister_network read "society" "local" ≡ get_canister_network config "society" "local")
production-commit_example =
    production-commit json config "ic" [] "society" "local" ic-local config-NodupKeys
      local-ReadsBack default-ReadsBack

made : (dfx : DfxConfig) × (try_from_dscvr_for_network config "ic" ≡ ok dfx)
unfolding try_from_dscvr_for_network push_canisters controllers_of push_networks push_instances
    dfx_canister insert lookup string_eq
made = (_, refl)

try_from_lem_example :
    (is_some (lookup "b" made.0.canisters) ≡ named_in_canisters "b" "ic" config.canisters)
    × (is_some (lookup "b" made.0.networks) ≡ shared_in_canisters "b" config.canisters)
try_from_lem_example = try_from_lem config "ic" "b" made.0 made.1

abbrev registered : CanisterInstance
registered = record { name = "b"; id = some "aaaaa-aa" }

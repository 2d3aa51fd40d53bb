-- ===== src/CanisterConfig/Dfx.antt =====
-- schema/dfx.rs: the configuration and the canister ids of the dfx tool, made from the
-- multi-canister configuration.
pub mod Ids
pub mod Names
use metamagic.Prelude.{
  ℕ, String, ◌<>◌, ◌≡◌, Bool, true, false, Option, none, some, List, [], ◌∷◌, ◌++◌, ◌==◌, string_eq,
  if◌then◌else◌, Outcome, ok, err, panic, ◌>>=◌, ok_or,
}
use mathlib.Core.Option
use metamagic.Prelude.HashMap.{HashMap, lookup, insert, or_insert}
use metamagic.CanisterConfig.Schema.{
  ControllerType, controller_eq, IdentityFromFile, ControllerIdentityMap, ControllerGroup,
  CanisterInstance, CanisterNetwork, Canister, DscvrConfig, local_network_name,
}
use metamagic.CanisterConfig.Query.{or_nil, instances_of}

-- `DfxGenerationError`
pub data Error : Type 0 where
  controller_group_mismatch : String → String → Error
  controller_group_missing : String → Error

-- serde skips the name and `network_id_map`: `skipped` of Files/Reading.
pub record DfxCanister : Type 0 where
  pub name : String
  pub wasm : String
  pub candid : String
  pub supports_init_params : Bool
  pub supports_stable_storage_backup_restore : Bool
  pub network_id_map : HashMap String String
  pub wallet : Option (HashMap String String)
  pub controllers : Option (HashMap String ControllerIdentityMap)
  pub build : String

pub record DfxNetwork : Type 0 where
  pub name : String
  pub providers : Option (List String)
  pub bind : Option String

pub record DfxConfig : Type 0 where
  pub canisters : HashMap String DfxCanister
  pub networks : HashMap String DfxNetwork
  pub canister_setup_order : List String
  pub dfx : String

abbrev dfx_version : String
dfx_version = "0.14.1"

unfoldable pub get_controller : DfxCanister → String → ControllerType → Option IdentityFromFile
get_controller canister network_name controller_type =
    Option.bind canister.controllers
      (λ networks. Option.bind (lookup network_name networks) (lookup controller_type))

unfoldable pub get_all_controllers_for_network : DfxCanister → String → Option ControllerIdentityMap
get_all_controllers_for_network canister network_name =
    Option.bind canister.controllers (lookup network_name)

-- The controllers of a canister, network by network.
unfoldable pub controllers_of :
    Option (HashMap String ControllerGroup)
    → String
    → HashMap String CanisterNetwork
    → HashMap String ControllerIdentityMap
    → Outcome Error (HashMap String ControllerIdentityMap)
controllers_of groups canister_name [] controllers = ok controllers
controllers_of groups canister_name ((network_name, network) ∷ ns) controllers =
    elim network.controllers [
      | none ↦ controllers_of groups canister_name ns controllers
      | some group_name ↦ do
        gs ← ok_or groups (controller_group_missing canister_name)
        cg ← ok_or (lookup group_name gs) (controller_group_mismatch group_name canister_name)
        controllers_of groups canister_name ns (insert network_name cg.controllers controllers)
    ]

unfoldable pub dfx_canister :
    Canister
    → HashMap String ControllerIdentityMap
    → String
    → Option String
    → CanisterInstance
    → DfxCanister
dfx_canister canister controllers network_name wallet instance_ = record {
  name = instance_.name;
  wasm = canister.wasm;
  candid = canister.candid;
  supports_init_params = Option.get_or canister.supports_init_params false;
  supports_stable_storage_backup_restore =
      Option.get_or canister.supports_stable_storage_backup_restore false;
  network_id_map = [];
  wallet = some (elim wallet [ none ↦ [] | some w ↦ (network_name, w) ∷ [] ]);
  controllers = some controllers;
  build = canister.build;
}

-- The loop over the instances of a network.
unfoldable pub push_instances :
    (CanisterInstance → DfxCanister)
    → List CanisterInstance
    → HashMap String DfxCanister
    → HashMap String DfxCanister
push_instances make [] canisters = canisters
push_instances make (i ∷ is) canisters = push_instances make is (insert i.name (make i) canisters)

-- The loop over the networks of a canister: the instances of the wanted one, and every network but
-- the local one.
unfoldable pub push_networks :
    String
    → Canister
    → HashMap String ControllerIdentityMap
    → HashMap String CanisterNetwork
    → HashMap String DfxCanister × HashMap String DfxNetwork
    → HashMap String DfxCanister × HashMap String DfxNetwork
push_networks network canister controllers [] (canisters, networks) = (canisters, networks)
push_networks network canister controllers ((network_name, cfg) ∷ ns) (canisters, networks) =
    push_networks network canister controllers ns (
      if network_name == network
          then push_instances (dfx_canister canister controllers network_name cfg.wallet)
              (instances_of cfg) canisters
          else canisters,
      if network_name == local_network_name
          then networks
          else insert network_name
              (record {
                name = network_name;
                providers = some (cfg.provider ∷ []);
                bind = some cfg.provider;
              })
              networks,
    )

unfoldable pub push_canisters :
    Option (HashMap String ControllerGroup)
    → String
    → HashMap String Canister
    → HashMap String DfxCanister × HashMap String DfxNetwork
    → Outcome Error (HashMap String DfxCanister × HashMap String DfxNetwork)
push_canisters groups network [] pushed = ok pushed
push_canisters groups network ((canister_name, canister) ∷ cs) pushed = do
  controllers ← controllers_of groups canister_name canister.networks []
  push_canisters groups network cs
      (push_networks network canister controllers canister.networks pushed)

unfoldable pub try_from_dscvr_for_network : DscvrConfig → String → Outcome Error DfxConfig
try_from_dscvr_for_network root_file network = do
  pushed ← push_canisters root_file.controller_groups network root_file.canisters ([], [])
  ok (record {
    canisters = pushed.0;
    networks = pushed.1;
    canister_setup_order = [];
    dfx = dfx_version;
  })

-- `CanisterIds`: the name of an instance, then the network, to the id.
abbrev pub CanisterIds : Type 0
CanisterIds = HashMap String (HashMap String String)

abbrev pub or_default : Option (HashMap String String) → HashMap String String
or_default none = []
or_default (some inner) = inner

-- `ids.entry(can.name).or_default().entry(network_name).or_insert(id)`
unfoldable pub add_id : String → String → String → CanisterIds → CanisterIds
add_id name network_name id ids =
    insert name (or_insert network_name id (or_default (lookup name ids))) ids

unfoldable pub add_instances : String → List CanisterInstance → CanisterIds → CanisterIds
add_instances network_name [] ids = ids
add_instances network_name (can ∷ cans) ids =
    add_instances network_name cans
      (elim can.id [ none ↦ ids | some id ↦ add_id can.name network_name id ids ])

unfoldable pub add_networks : HashMap String CanisterNetwork → CanisterIds → CanisterIds
add_networks [] ids = ids
add_networks ((network_name, n) ∷ ns) ids = add_networks ns (
    add_instances network_name (or_nil n.available_instances)
      (add_instances network_name (or_nil n.provisioned_instances) ids))

unfoldable pub add_canisters : HashMap String Canister → CanisterIds → CanisterIds
add_canisters [] ids = ids
add_canisters ((_, canister) ∷ cs) ids = add_canisters cs (add_networks canister.networks ids)

unfoldable pub canister_ids : DscvrConfig → CanisterIds
canister_ids root = add_canisters root.canisters []

-- ===== src/CanisterConfig/Schema.antt =====
-- canister_init_arguments.rs and the data of schema.rs and schema/dscvr.rs.
use metamagic.Prelude.{String, ◌<>◌, Bool, Option, List, Eq, string_eq, Outcome, ◌>>=◌, ok_or}
use metamagic.Prelude.HashMap.{HashMap, lookup, modify}

pub data ControllerType : Type 0 where
  backup restore h_captcha_verify phone_verify gating mod_ owner event_producer : ControllerType
  event_router tx_log_consumer tx_log_producer : ControllerType

ControllerType-discrete : Discrete ControllerType
ControllerType-discrete = hlevel

instance unfoldable pub controller_eq : Eq ControllerType
unfolding ControllerType-discrete
controller_eq = record { dec = ControllerType-discrete }

-- `IdentityFromFile` of ic-identity-util: the path of a pem file.
pub record IdentityFromFile : Type 0 where
  pub path : String

abbrev pub ControllerIdentityMap : Type 0
ControllerIdentityMap = HashMap ControllerType IdentityFromFile

pub record ControllerGroup : Type 0 where
  pub controllers : ControllerIdentityMap

pub record CanisterInstance : Type 0 where
  pub name : String
  pub id : Option String

pub record CanisterNetwork : Type 0 where
  pub provider : String
  pub controllers : Option String
  pub provisioned_instances : Option (List CanisterInstance)
  pub available_instances : Option (List CanisterInstance)
  pub wallet : Option String

pub record Canister : Type 0 where
  pub networks : HashMap String CanisterNetwork
  pub candid : String
  pub wasm : String
  pub build : String
  pub supports_init_params : Option Bool
  pub supports_stable_storage_backup_restore : Option Bool

pub record DscvrConfig : Type 0 where
  pub canisters : HashMap String Canister
  pub controller_groups : Option (HashMap String ControllerGroup)

-- `DSCVRGenerationError`
pub data Error : Type 0 where
  canister_registration_error missing_element provision_error : String → Error
  no_available_canister_instances : String → String → String → Error

abbrev pub name_delimiter : String
name_delimiter = ":"

abbrev pub local_network_name : String
local_network_name = "local"

abbrev pub production_network_name : String
production_network_name = "ic"

abbrev pub default_dscvr_config_path : String
default_dscvr_config_path = "./dscvr.json"

-- `get_canister_for_network_mut`: the network that a caller then reads
unfoldable pub get_canister_for_network :
    String → String → DscvrConfig → Outcome Error CanisterNetwork
get_canister_for_network canister_name network cfg = do
  canister ← ok_or (lookup canister_name cfg.canisters) (missing_element canister_name)
  ok_or (lookup network canister.networks)
      (missing_element (canister_name <> "." <> network <> " "))

-- and what the caller's writes through that reference do to the configuration
unfoldable pub write_canister_for_network :
    String → String → CanisterNetwork → DscvrConfig → DscvrConfig
write_canister_for_network canister_name network n cfg = record cfg {
  canisters =
      modify canister_name (λ c. record c { networks = modify network (λ _. n) c.networks })
        cfg.canisters;
}

-- ===== src/CanisterConfig/Files/Reading.antt =====
-- schema/dfx.rs and the paths of ic-identity-util: the configuration of dfx read from its file,
-- with the canister ids of the files beside it. `join` joins paths, as the standard library does.
pub mod Order
use metamagic.Prelude.{
  String, ◌<>◌, ◌≡◌, refl, ap, sym, ◌∙◌, arith, Option, none, some, List, [], ◌∷◌, ◌++◌, map, ◌==◌,
  string_eq, if◌then◌else◌, Outcome, ok, err, panic, ◌>>=◌, ok_or, or_panic,
}
use mathlib.Core.Option
use metamagic.Prelude.HashMap.{
  HashMap, lookup, insert, or_insert, modify, map_entries, lookup-or_insert, lookup-modify,
}
use metamagic.CanisterConfig.Schema.{controller_eq, IdentityFromFile, ControllerIdentityMap}
use metamagic.CanisterConfig.Dfx.{DfxCanister, DfxNetwork, DfxConfig}
use metamagic.CanisterConfig.Dfx.Ids.{in_network, or_else}
use metamagic.CanisterConfig.Files.{Json, Files}

-- The dummy entry for the local network.
abbrev pub local_network : DfxNetwork
local_network = record { name = "local"; providers = none; bind = some "127.0.0.1:8000" }

-- What opens or parses no file.
pub data ReadError : Type 0 where
  no_file : ReadError
  no_json : ReadError

-- canister name → network name → id
abbrev pub CanisterIdMap : Type 0
CanisterIdMap = HashMap String (HashMap String String)

unfoldable pub read_json : {T : Type 0} → Json T → String → Files → Outcome ReadError T
read_json j path files = do
  text ← ok_or (lookup path files) no_file
  ok_or (j.from_reader text) no_json

-- `join_parent`, for the identity that has the path
unfoldable pub join_parent :
    (String → String → String) → String → IdentityFromFile → IdentityFromFile
join_parent join parent identity = record identity { path = join parent identity.path }

-- The identities of all controllers with the parent of the file before their paths.
unfoldable pub join_identities :
    (String → String → String) → String → HashMap String DfxCanister → HashMap String DfxCanister
join_identities join parent = map_entries (λ _ c. record c {
  controllers =
      Option.map (map_entries (λ _. map_entries (λ _. join_parent join parent))) c.controllers;
})

-- `update_names`: every canister and network is named by its key.
unfoldable pub update_names : DfxConfig → DfxConfig
update_names cfg = record cfg {
  canisters = map_entries (λ k c. record c { name = k }) cfg.canisters;
  networks = map_entries (λ k n. record n { name = k }) cfg.networks;
}

-- `entry(network_name).or_insert_with(|| id)`, for each of a file's networks
unfoldable pub add_network_ids :
    HashMap String String → HashMap String String → HashMap String String
add_network_ids [] ids = ids
add_network_ids ((network_name, id) ∷ val) ids = add_network_ids val (or_insert network_name id ids)

-- A canister with the ids that a file has for it.
abbrev pub extended : HashMap String String → DfxCanister → DfxCanister
extended val c = record c { network_id_map = add_network_ids val c.network_id_map }

unfoldable pub add_file_ids :
    CanisterIdMap → HashMap String DfxCanister → HashMap String DfxCanister
add_file_ids [] canisters = canisters
add_file_ids ((name, val) ∷ id_map) canisters =
    add_file_ids id_map (modify name (extended val) canisters)

-- The ids of a file that was read, if it could be.
abbrev pub add_read_ids :
    Outcome ReadError CanisterIdMap → DfxConfig → Outcome ReadError (Unit {0}) × DfxConfig
add_read_ids (err e) cfg = (err e, cfg)
add_read_ids panic cfg = (panic, cfg)
add_read_ids (ok id_map) cfg = (ok tt, record cfg { canisters = add_file_ids id_map cfg.canisters })

-- The configuration of a file before the ids are read: with its names, the local network, and the
-- paths of its identities.
unfoldable pub without_ids : (String → String → String) → String → DfxConfig → DfxConfig
without_ids join path_parent val =
    let named = update_names val in
    record named {
      networks = insert "local" local_network named.networks;
      canisters = join_identities join path_parent named.canisters;
    }

-- `#[serde(skip)]` on the names and on `network_id_map`: what a file has there is not read.
abbrev pub skipped_canister : DfxCanister → DfxCanister
skipped_canister c = record c { name = ""; network_id_map = [] }

unfoldable pub skipped : DfxConfig → DfxConfig
skipped cfg = record cfg {
  canisters = map_entries (λ _. skipped_canister) cfg.canisters;
  networks = map_entries (λ _ n. record n { name = "" }) cfg.networks;
}

module _ (join : String → String → String) (dfx_json : Json DfxConfig)
    (ids_json : Json CanisterIdMap) where
  -- The result, and the configuration.
  unfoldable pub process_canister_id_file :
      Files → String → DfxConfig → Outcome ReadError (Unit {0}) × DfxConfig
  process_canister_id_file files path cfg = add_read_ids (read_json ids_json path files) cfg

  -- The files of the networks; a file that cannot be read is passed over.
  unfoldable pub process_networks : Files → String → List String → DfxConfig → DfxConfig
  process_networks files dir [] cfg = cfg
  process_networks files dir (key ∷ network_keys) cfg =
      process_networks files dir network_keys
        (process_canister_id_file files (join (join (join dir ".dfx") key) "canister_ids.json")
          cfg).1

  unfoldable pub init_canister_id_map : Files → String → DfxConfig → DfxConfig
  init_canister_id_map files dir cfg =
      let cfg' = (process_canister_id_file files (join dir "canister_ids.json") cfg).1 in
      process_networks files dir (map (λ e. e.0) cfg'.networks) cfg'

  -- `parent` is that of paths.
  unfoldable pub new_from_file :
      (String → Option String) → Files → String → Outcome ReadError DfxConfig
  new_from_file parent files path = do
    path_parent ← or_panic (parent path)
    val ← read_json dfx_json path files
    ok (init_canister_id_map files path_parent (without_ids join path_parent (skipped val)))

  unfoldable pub new_from_default_file :
      (String → Option String) → Files → Outcome ReadError DfxConfig
  new_from_default_file parent files = new_from_file parent files "dfx.json"

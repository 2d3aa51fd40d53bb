-- ===== src/CanisterConfig/Files/Tests.antt =====
-- A configuration of dfx that is read, with its ids.
use mathlib.Core.Option
use metamagic.CanisterConfig.Files.Reading.Order.{with_id, id_in_files, id_files, new_from_file_lem}
use metamagic.CanisterConfig.Files.Reading.{
  CanisterIdMap, read_json, without_ids, update_names, new_from_file, skipped,
}
use metamagic.Prelude.{
  ◌≡◌, refl, true, String, none, some, [], ◌∷◌, ok, string_eq, if◌then◌else◌, ◌==◌, false, ◌<>◌,
}
use metamagic.Prelude.HashMap.{HashMap, lookup, map_entries, insert}
use metamagic.CanisterConfig.Schema.{controller_eq, owner}
use metamagic.CanisterConfig.Files.{Json}
use metamagic.CanisterConfig.Dfx.{DfxConfig}

-- A configuration of dfx in its file, and id files beside it and of the local network.
abbrev dfx_config : DfxConfig
dfx_config = record {
  canisters =
      (
        "b",
        record {
          name = "";
          wasm = "society.wasm";
          candid = "society.did";
          supports_init_params = false;
          supports_stable_storage_backup_restore = true;
          network_id_map = [];
          wallet = none;
          controllers = some (("ic", (owner, record { path = "id.pem" }) ∷ []) ∷ []);
          build = "build society";
        },
      )
      ∷ [];
  networks = [];
  canister_setup_order = [];
  dfx = "0.14.1";
}

abbrev dfx_files : HashMap String String
dfx_files =
    ("./dfx.json", "dfx")
    ∷ ("./canister_ids.json", "ic ids")
    ∷ ("./.dfx/local/canister_ids.json", "local ids")
    ∷ []

abbrev dfx_json : Json DfxConfig
dfx_json = record { to_writer = λ _. "dfx"; from_reader = λ _. some dfx_config }

abbrev ids_json : Json CanisterIdMap
ids_json = record {
  to_writer = λ _. "ic ids";
  from_reader = λ text.
      if text == "ic ids"
      then some (("b", ("ic", "aaaaa-aa") ∷ []) ∷ [])
      else some (("b", ("ic", "later") ∷ ("local", "bbbbb-bb") ∷ []) ∷ []);
}

abbrev join : String → String → String
join a b = a <> ("/" <> b)

reads_dfx : read_json dfx_json "./dfx.json" dfx_files ≡ ok dfx_config
unfolding read_json lookup string_eq
reads_dfx = refl

new_from_file_lem_example :
    (cfg : DfxConfig) × (new_from_file join dfx_json ids_json (λ _. some ".") dfx_files "./dfx.json"
      ≡ ok cfg)
    × (with_id "local" (lookup "b" cfg.canisters) none
        ≡ Option.bind (lookup "b" dfx_config.canisters) (λ _.
          id_in_files ids_json dfx_files
            (id_files join "." (without_ids join "." (skipped dfx_config)))
            "b"
            "local"))
new_from_file_lem_example =
    new_from_file_lem join dfx_json ids_json (λ _. some ".") dfx_files "./dfx.json" "." dfx_config
      "b" "local" refl reads_dfx

local_id :
    id_in_files ids_json dfx_files
      (id_files join "." (without_ids join "." (skipped dfx_config)))
      "b"
      "local"
    ≡ some "bbbbb-bb"
unfolding without_ids skipped update_names read_json lookup insert map_entries string_eq
local_id = refl

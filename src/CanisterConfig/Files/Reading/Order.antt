-- ===== src/CanisterConfig/Files/Reading/Order.antt =====
-- Which of the id files gives the id of a canister.
use metamagic.Prelude.{
  String, ◌≡◌, refl, ap, ◌∙◌, arith, Option, none, some, List, [], ◌∷◌, map, ◌==◌, string_eq,
  if◌then◌else◌, Outcome, ok, err, panic,
}
use mathlib.Core.Option
use metamagic.Prelude.HashMap.{
  HashMap, lookup, or_insert, modify, map_entries, lookup-or_insert, lookup-modify,
  lookup-map_entries,
}
use metamagic.CanisterConfig.Schema.{controller_eq}
use metamagic.CanisterConfig.Dfx.{DfxCanister, DfxConfig}
use metamagic.CanisterConfig.Dfx.Ids.{or_else}
use metamagic.CanisterConfig.Files.{Json, Files}
use metamagic.CanisterConfig.Files.Reading.{
  ReadError, CanisterIdMap, read_json, add_network_ids, extended, add_file_ids, add_read_ids,
  without_ids, process_canister_id_file, process_networks, init_canister_id_map, update_names,
  join_identities, new_from_file, skipped, skipped_canister,
}

-- The id that a canister has on a network, or else the new one; no canister has none.
abbrev pub with_id : String → Option DfxCanister → Option String → Option String
with_id network none new = none
with_id network (some c) new = or_else (lookup network c.network_id_map) new

-- The first id that the entries of a file have for a name on a network.
abbrev pub named_in : String → String → CanisterIdMap → Option String
named_in name network [] = none
named_in name network ((n, val) ∷ id_map) =
    if name == n
    then or_else (lookup network val) (named_in name network id_map)
    else named_in name network id_map

or_else_assoc : (a b c : Option String) → or_else (or_else a b) c ≡ or_else a (or_else b c)
or_else_assoc none b c = refl
or_else_assoc (some a) b c = refl

lookup-add_network_ids :
    (network : String) (val ids : HashMap String String)
    → lookup network (add_network_ids val ids) ≡ or_else (lookup network ids) (lookup network val)
unfolding add_network_ids lookup Option.get_or
lookup-add_network_ids network [] ids = ground arith
lookup-add_network_ids network ((n, id) ∷ val) ids = ground (
  arith,
  lookup-add_network_ids network val (or_insert n id ids),
  lookup-or_insert network n id ids,
)

with_id-extended :
    (network : String) (val : HashMap String String) (c : Option DfxCanister) (new : Option String)
    → with_id network (Option.map (extended val) c) new
      ≡ with_id network c (or_else (lookup network val) new)
unfolding Option.map
with_id-extended network val none new = refl
with_id-extended network val (some c) new =
    ap (λ t. or_else t new) (lookup-add_network_ids network val c.network_id_map)
    ∙ or_else_assoc (lookup network c.network_id_map) (lookup network val) new

with_id-add_file_ids :
    (name network : String) (id_map : CanisterIdMap) (cs : HashMap String DfxCanister)
    (new : Option String)
    → with_id network (lookup name (add_file_ids id_map cs)) new
      ≡ with_id network (lookup name cs) (or_else (named_in name network id_map) new)
unfolding add_file_ids
with_id-add_file_ids name network [] cs new = refl
with_id-add_file_ids name network ((n, val) ∷ id_map) cs new =
    let rest = or_else (named_in name network id_map) new in
    ground (
      arith,
      with_id-add_file_ids name network id_map (modify n (extended val) cs) new,
      lookup-modify name n (extended val) cs,
      with_id-extended network val (lookup name cs) rest,
      or_else_assoc (lookup network val) (named_in name network id_map) new,
    )

-- The id that one file has; a file that cannot be read has none.
abbrev pub id_in_file : Outcome ReadError CanisterIdMap → String → String → Option String
id_in_file (ok id_map) name network = named_in name network id_map
id_in_file (err e) name network = none
id_in_file panic name network = none

with_id-add_read_ids :
    (r : Outcome ReadError CanisterIdMap) (cfg : DfxConfig) (name network : String)
    (new : Option String)
    → with_id network (lookup name (add_read_ids r cfg).1.canisters) new
      ≡ with_id network (lookup name cfg.canisters) (or_else (id_in_file r name network) new)
with_id-add_read_ids (ok id_map) cfg name network new =
    with_id-add_file_ids name network id_map cfg.canisters new
with_id-add_read_ids (err e) cfg name network new = refl
with_id-add_read_ids panic cfg name network new = refl

networks-add_read_ids :
    (r : Outcome ReadError CanisterIdMap) (cfg : DfxConfig)
    → (add_read_ids r cfg).1.networks ≡ cfg.networks
networks-add_read_ids (ok id_map) cfg = refl
networks-add_read_ids (err e) cfg = refl
networks-add_read_ids panic cfg = refl

with_id-map :
    (network : String) (f : DfxCanister → DfxCanister) (c : Option DfxCanister)
    (new : Option String)
    → ((d : DfxCanister) → (f d).network_id_map ≡ d.network_id_map)
    → with_id network (Option.map f c) new ≡ with_id network c new
unfolding Option.map
with_id-map network f none new keeps = refl
with_id-map network f (some d) new keeps = ap (λ ids. or_else (lookup network ids) new) (keeps d)

with_id-map_entries :
    (name network : String) (f : String → DfxCanister → DfxCanister)
    (cs : HashMap String DfxCanister) (new : Option String)
    → ((k : String) (d : DfxCanister) → (f k d).network_id_map ≡ d.network_id_map)
    → with_id network (lookup name (map_entries f cs)) new ≡ with_id network (lookup name cs) new
with_id-map_entries name network f cs new keeps =
    ap (λ c. with_id network c new) (lookup-map_entries name f cs)
    ∙ with_id-map network (f name) (lookup name cs) new (keeps name)

with_id-named :
    (join : String → String → String) (dir : String) (cfg : DfxConfig) (name network : String)
    (new : Option String)
    → with_id network (lookup name (without_ids join dir cfg).canisters) new
      ≡ with_id network (lookup name cfg.canisters) new
unfolding without_ids join_identities update_names
with_id-named join dir cfg name network new =
    with_id-map_entries name network _ (map_entries (λ k c. record c { name = k }) cfg.canisters)
      new (λ k d. refl)
    ∙ with_id-map_entries name network _ cfg.canisters new (λ k d. refl)

-- The first id that the files have, in their order.
abbrev pub id_in_files : Json CanisterIdMap → Files → List String → String → String → Option String
id_in_files ids_json files [] name network = none
id_in_files ids_json files (path ∷ paths) name network =
    or_else (id_in_file (read_json ids_json path files) name network)
      (id_in_files ids_json files paths name network)

module _ (join : String → String → String) where
  abbrev network_file : String → String → String
  network_file dir key = join (join (join dir ".dfx") key) "canister_ids.json"

  -- The file beside the configuration, and then those of the networks.
  abbrev pub id_files : String → DfxConfig → List String
  id_files dir cfg =
      join dir "canister_ids.json" ∷ map (network_file dir) (map (λ e. e.0) cfg.networks)

module _ (join : String → String → String) (dfx_json : Json DfxConfig)
    (ids_json : Json CanisterIdMap) where
  with_id-process :
      (files : Files) (path : String) (cfg : DfxConfig) (name network : String)
      (new : Option String)
      → with_id network
          (lookup name (process_canister_id_file join dfx_json ids_json files path cfg).1.canisters)
          new
        ≡ with_id network
            (lookup name cfg.canisters)
            (or_else (id_in_file (read_json ids_json path files) name network) new)
  unfolding process_canister_id_file
  with_id-process files path cfg name network new =
      with_id-add_read_ids (read_json ids_json path files) cfg name network new

  networks-process :
      (files : Files) (path : String) (cfg : DfxConfig)
      → (process_canister_id_file join dfx_json ids_json files path cfg).1.networks ≡ cfg.networks
  unfolding process_canister_id_file
  networks-process files path cfg = networks-add_read_ids (read_json ids_json path files) cfg

  with_id-process_networks :
      (files : Files) (dir : String) (keys : List String) (cfg : DfxConfig) (name network : String)
      → with_id network
          (lookup name (process_networks join dfx_json ids_json files dir keys cfg).canisters)
          none
        ≡ with_id network
            (lookup name cfg.canisters)
            (id_in_files ids_json files (map (network_file join dir) keys) name network)
  unfolding process_networks
  with_id-process_networks files dir [] cfg name network = refl
  with_id-process_networks files dir (key ∷ keys) cfg name network =
      with_id-process_networks files dir keys
        (process_canister_id_file join dfx_json ids_json files (network_file join dir key) cfg).1
        name network
      ∙ with_id-process files (network_file join dir key) cfg name network
          (id_in_files ids_json files (map (network_file join dir) keys) name network)

  with_id-init :
      (files : Files) (dir : String) (cfg : DfxConfig) (name network : String)
      → with_id network
          (lookup name (init_canister_id_map join dfx_json ids_json files dir cfg).canisters)
          none
        ≡ with_id network
            (lookup name cfg.canisters)
            (id_in_files ids_json files (id_files join dir cfg) name network)
  unfolding init_canister_id_map
  with_id-init files dir cfg name network =
      let top = join dir "canister_ids.json" in
      let cfg' = (process_canister_id_file join dfx_json ids_json files top cfg).1 in
      with_id-process_networks files dir (map (λ e. e.0) cfg'.networks) cfg' name network
      ∙ with_id-process files top cfg name network (
          id_in_files ids_json files (map (network_file join dir) (map (λ e. e.0) cfg'.networks))
            name network)
      ∙ ap
          (λ ns. with_id network (lookup name cfg.canisters) (
            or_else (id_in_file (read_json ids_json top files) name network) (
              id_in_files ids_json files (map (network_file join dir) (map (λ e. e.0) ns)) name
                network)))
          (networks-process files top cfg)

  -- A canister of the file has no id, whatever the file has for it.
  with_id-skipped :
      (c : Option DfxCanister) (network : String) (new : Option String)
      → with_id network (Option.map skipped_canister c) new ≡ Option.bind c (λ _. new)
  unfolding Option.map Option.bind lookup
  with_id-skipped none network new = refl
  with_id-skipped (some c) network new = refl

  -- A configuration is read from a file that parses. The id on a network of a name that is a
  -- canister of the file is the first that the id files have for it: the one beside the
  -- configuration, then those of the networks, the local one included. What the file itself has for
  -- an id is not read, id files that cannot be read are passed over, and a name that is no canister
  -- of the file has no id.
  pub new_from_file_lem :
      (parent : String → Option String) (files : Files) (path dir : String) (parsed : DfxConfig)
      (name network : String)
      → parent path ≡ some dir
      → read_json dfx_json path files ≡ ok parsed
      → (cfg : DfxConfig) × (new_from_file join dfx_json ids_json parent files path ≡ ok cfg)
        × (with_id network (lookup name cfg.canisters) none
            ≡ Option.bind (lookup name parsed.canisters) (λ _.
              id_in_files ids_json files
                (id_files join dir (without_ids join dir (skipped parsed)))
                name
                network))
  unfolding new_from_file skipped
  new_from_file_lem parent files path dir parsed name network has_parent reads =
      let cfg = without_ids join dir (skipped parsed) in
      let ids = id_in_files ids_json files (id_files join dir cfg) name network in
      (
        init_canister_id_map join dfx_json ids_json files dir cfg,
        rw (has_parent, reads) refl,
        with_id-init files dir cfg name network
            ∙ with_id-named join dir (skipped parsed) name network ids
            ∙ ap (λ c. with_id network c ids)
                (lookup-map_entries name (λ _. skipped_canister) parsed.canisters)
            ∙ with_id-skipped (lookup name parsed.canisters) network ids,
      )

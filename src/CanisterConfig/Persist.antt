-- ===== src/CanisterConfig/Persist.antt =====
-- schema/dscvr/persist.rs, and the merge of the local configuration of schema/dscvr.rs.
pub mod Entries
pub mod Merge
use metamagic.Prelude.{
  ℕ, String, ◌≡◌, Bool, true, false, ◌&&◌, Option, none, some, List, [], ◌∷◌, length, ◌==◌,
  string_eq, nat_eq, if◌then◌else◌, eqb,
}
use mathlib.Core.Option
use metamagic.Prelude.HashMap.{
  HashMap, lookup, insert, remove, modify, map_entries, retain, contains_key,
}
use metamagic.CanisterConfig.Schema.{
  CanisterNetwork, Canister, DscvrConfig, local_network_name, production_network_name,
}

-- The canister has the local network and no other.
unfoldable pub only_local : Canister → Bool
only_local canister =
    eqb (length canister.networks) 1 && contains_key local_network_name canister.networks

-- The names pushed to `canisters_to_remove`.
unfoldable pub canisters_to_remove : HashMap String Canister → List String
canisters_to_remove [] = []
canisters_to_remove ((name, canister) ∷ cs) =
    let others = canisters_to_remove cs in if only_local canister then name ∷ others else others

unfoldable pub remove_all : List String → HashMap String Canister → HashMap String Canister
remove_all [] cs = cs
remove_all (name ∷ names) cs = remove_all names (remove name cs)

abbrev pub without_instances : CanisterNetwork → CanisterNetwork
without_instances n = record n { available_instances = none; provisioned_instances = none }

-- A local network loses its instances.
unfoldable pub strip_local : String → CanisterNetwork → CanisterNetwork
strip_local network_name network =
    if network_name == local_network_name then without_instances network else network

unfoldable pub generate_default_config : DscvrConfig → DscvrConfig
generate_default_config cfg = record cfg {
  canisters = remove_all (canisters_to_remove cfg.canisters) (
      map_entries (λ name c. record c { networks = map_entries strip_local c.networks })
        cfg.canisters);
}

unfoldable pub generate_local_config : DscvrConfig → DscvrConfig
generate_local_config cfg = record cfg {
  canisters =
      map_entries
        (λ name c. record c { networks = retain (λ k. k == local_network_name) c.networks })
        cfg.canisters;
}

-- One round of `merge_local`: a canister that the base has is given the local network, if there is
-- one; another is added.
unfoldable pub merge_canister :
    String → Canister → HashMap String Canister → HashMap String Canister
merge_canister can_name canister base = elim (lookup can_name base) [
  | some _ ↦ elim (lookup local_network_name canister.networks) [
    | some network ↦
        modify can_name (λ c. record c { networks = insert local_network_name network c.networks })
          base
    | none ↦ base
  ]
  | none ↦ insert can_name canister base
]

unfoldable pub merge_canisters :
    HashMap String Canister → HashMap String Canister → HashMap String Canister
merge_canisters [] base = base
merge_canisters ((can_name, canister) ∷ cs) base =
    merge_canisters cs (merge_canister can_name canister base)

unfoldable pub merge : DscvrConfig → DscvrConfig → DscvrConfig
merge local_config base_config = record base_config {
  canisters = merge_canisters local_config.canisters base_config.canisters;
}

-- The round for one network: it is the one named, or none is named.
unfoldable pub copy_instances :
    Option String → Option CanisterNetwork → String → CanisterNetwork → CanisterNetwork
copy_instances network_name production name network =
    let wanted : Bool = elim network_name [ none ↦ true | some n ↦ n == name ] in
    if wanted
    then record network {
      available_instances = Option.bind production (λ n. n.available_instances);
      provisioned_instances = Option.bind production (λ n. n.provisioned_instances);
    }
    else network

unfoldable pub copy_production_instances_to_network : Option String → DscvrConfig → DscvrConfig
copy_production_instances_to_network network_name cfg = record cfg {
  canisters =
      map_entries
        (λ name c. record c {
          networks =
              map_entries (copy_instances network_name (lookup production_network_name c.networks))
                c.networks;
        })
        cfg.canisters;
}

-- ===== src/CanisterConfig/Persist/Entries.antt =====
-- The entry of one canister in the files that a configuration is written to, and in their merge.
use metamagic.Prelude.{
  String, ◌≡◌, ◌≢◌, refl, ap, ◌∙◌, arith, Bool, true, false, Option, none, some, List, [], ◌∷◌,
  length, ◌==◌, string_eq, if◌then◌else◌, Option-cases, inl, inr,
}
use mathlib.Core.Option
use metamagic.Prelude.HashMap.{
  HashMap, lookup, insert, remove, map_entries, retain, contains_key, NodupKeys, lookup-insert,
  lookup-remove, lookup-modify, lookup-map_entries,
}
use metamagic.CanisterConfig.Schema.{CanisterNetwork, Canister, DscvrConfig, local_network_name}
use metamagic.CanisterConfig.Persist.{
  only_local, canisters_to_remove, remove_all, strip_local, generate_default_config,
  generate_local_config, merge_canister, merge_canisters,
}

-- The network of a name, of a canister that may be missing.
abbrev pub network_of : String → Option Canister → Option CanisterNetwork
network_of network none = none
network_of network (some c) = lookup network c.networks

-- A name is removed or not.
abbrev member : String → List String → Bool
member k [] = false
member k (j ∷ js) = if k == j then true else member k js

lookup-remove_all :
    (k : String) (names : List String) (m : HashMap String Canister)
    → lookup k (remove_all names m) ≡ (if member k names then none else lookup k m)
unfolding remove_all
lookup-remove_all k [] m = refl
lookup-remove_all k (j ∷ names) m =
    ground (arith, lookup-remove_all k names (remove j m), lookup-remove k j m)

-- In a map without double keys a canister is removed if and only if its one network is the local
-- one.
member-canisters_to_remove :
    (k : String) (cs : HashMap String Canister)
    → NodupKeys cs
    → member k (canisters_to_remove cs) ≡ Option.get_or (Option.map only_local (lookup k cs)) false
unfolding canisters_to_remove lookup
member-canisters_to_remove k [] d = refl
member-canisters_to_remove k ((j, c) ∷ cs) (fresh, d) =
    let absent : k ≡ j → lookup k cs ≡ none = λ e. ap (λ x. lookup x cs) e ∙ fresh in
    ground (arith, absent, member-canisters_to_remove k cs d)

-- A canister as it is written for the networks that are shared.
abbrev pub default_of : Option Canister → Option Canister
default_of none = none
default_of (some c) =
    if only_local c then none else some (record c { networks = map_entries strip_local c.networks })

-- A canister as it is written for the local network.
abbrev pub local_of : Canister → Canister
local_of c = record c { networks = retain (λ k. k == local_network_name) c.networks }

pub lookup-generate_default :
    (k : String) (cfg : DscvrConfig)
    → NodupKeys cfg.canisters
    → lookup k (generate_default_config cfg).canisters ≡ default_of (lookup k cfg.canisters)
unfolding generate_default_config
lookup-generate_default k cfg d = ground (
  arith,
  lookup-remove_all k (canisters_to_remove cfg.canisters) (
      map_entries (λ name c. record c { networks = map_entries strip_local c.networks })
        cfg.canisters),
  member-canisters_to_remove k cfg.canisters d,
  lookup-map_entries k
      (λ name (c : Canister). record c { networks = map_entries strip_local c.networks })
      cfg.canisters,
)

pub lookup-generate_local :
    (k : String) (cfg : DscvrConfig)
    → lookup k (generate_local_config cfg).canisters ≡ Option.map local_of (lookup k cfg.canisters)
unfolding generate_local_config
lookup-generate_local k cfg = lookup-map_entries k (λ name. local_of) cfg.canisters

-- What a merge makes of a canister of both files.
abbrev pub merged : Option Canister → Option Canister → Option Canister
merged none base = base
merged (some c) none = some c
merged (some c) (some b) = elim (lookup local_network_name c.networks) [
  | none ↦ some b
  | some network ↦ some (record b { networks = insert local_network_name network b.networks })
]

lookup-merge_canister :
    (k j : String) (c : Canister) (base : HashMap String Canister)
    → lookup k (merge_canister j c base)
      ≡ (if k == j then merged (some c) (lookup k base) else lookup k base)
unfolding merge_canister
lookup-merge_canister k j c base =
    let same : k ≡ j → lookup k base ≡ lookup j base = λ e. ap (λ x. lookup x base) e in
    elim (Option-cases (lookup local_network_name c.networks)) [
      | inl missing ↦ ground (arith, same, missing, lookup-insert k j c base)
      | inr (network, found) ↦ ground (
        arith,
        same,
        found,
        lookup-insert k j c base,
        lookup-modify k j
            (λ (b : Canister). record b { networks = insert local_network_name network b.networks })
            base,
      )
    ]

pub lookup-merge_canisters :
    (k : String) (cs base : HashMap String Canister)
    → NodupKeys cs
    → lookup k (merge_canisters cs base) ≡ merged (lookup k cs) (lookup k base)
unfolding merge_canisters lookup
lookup-merge_canisters k [] base d = refl
lookup-merge_canisters k ((j, c) ∷ cs) base (fresh, d) =
    let absent : k ≡ j → lookup k cs ≡ none = λ e. ap (λ x. lookup x cs) e ∙ fresh in
    ground (
      arith,
      absent,
      lookup-merge_canisters k cs (merge_canister j c base) d,
      lookup-merge_canister k j c base,
    )

one_entry :
    (j k : String) (m : HashMap String CanisterNetwork)
    → length m ≡ 1
    → contains_key j m ≡ true
    → k ≢ j
    → lookup k m ≡ none
unfolding contains_key lookup
one_entry j k [] len has other = absurd (omega arith)
one_entry j k ((i, n) ∷ []) len has other = ground arith
one_entry j k (e ∷ e' ∷ m) len has other = absurd (omega arith)

-- A canister whose one network is the local one has no other.
pub only_local-lookup :
    (c : Canister) (network : String)
    → only_local c ≡ true
    → network ≢ local_network_name
    → lookup network c.networks ≡ none
unfolding only_local
only_local-lookup c network e other =
    one_entry local_network_name network c.networks (ground arith) (ground arith) other

pub NodupKeys-map_entries :
    (f : String → Canister → Canister) (m : HashMap String Canister)
    → NodupKeys m
    → NodupKeys (map_entries f m)
unfolding map_entries
NodupKeys-map_entries f [] d = tt
NodupKeys-map_entries f ((k, c) ∷ m) (fresh, d) =
    (lookup-map_entries k f m ∙ ap (Option.map (f k)) fresh, NodupKeys-map_entries f m d)

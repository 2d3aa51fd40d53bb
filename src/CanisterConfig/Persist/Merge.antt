-- ===== src/CanisterConfig/Persist/Merge.antt =====
-- What the two files that a configuration is written to keep of it, and what merging them gives
-- back.
use metamagic.Prelude.{
  String, ◌≡◌, ◌≢◌, refl, ap, sym, ◌∙◌, arith, Bool, Option, none, some, [], ◌==◌, string_eq,
  if◌then◌else◌, Option-cases, inl, inr, Bool-cases, ap₂,
}
use mathlib.Core.Option
use metamagic.Prelude.HashMap.{
  lookup, map_entries, NodupKeys, lookup-insert, lookup-map_entries, lookup-retain,
}
use metamagic.CanisterConfig.Schema.{Canister, DscvrConfig, local_network_name}
use metamagic.CanisterConfig.Query.{get_canister_network, instances_of}
use metamagic.CanisterConfig.Persist.{
  only_local, strip_local, generate_default_config, generate_local_config, merge,
}
use metamagic.CanisterConfig.Persist.Entries.{
  network_of, default_of, local_of, lookup-generate_default, lookup-generate_local, merged,
  lookup-merge_canisters, only_local-lookup, NodupKeys-map_entries,
}

-- The two files keep every network between them.
network_kept :
    (network : String) (found : Option Canister)
    → network_of network (merged (Option.map local_of found) (default_of found))
      ≡ network_of network found
unfolding strip_local
network_kept network none = refl
network_kept network (some c) =
    let is_local : String → Bool = λ k. k == local_network_name in
    let kept = lookup-retain network is_local c.networks in
    let local = lookup-retain local_network_name is_local c.networks in
    let others = lookup-map_entries network strip_local c.networks in
    elim (Bool-cases (only_local c)) [
      | inl alone ↦ ground (arith, kept, only_local-lookup c network alone)
      | inr shared ↦ elim (Option-cases (lookup local_network_name c.networks)) [
        | inl missing ↦ ground (arith, local, others, missing, shared)
        | inr (n, found) ↦ ground (
          arith,
          local,
          others,
          found,
          shared,
          lookup-insert network local_network_name n (map_entries strip_local c.networks),
        )
      ]
    ]

get_canister_network-network_of :
    (cfg : DscvrConfig) (canister network : String)
    → get_canister_network cfg canister network ≡ network_of network (lookup canister cfg.canisters)
unfolding get_canister_network
get_canister_network-network_of cfg canister network = ground arith

-- A configuration that is written for the local network and for the others is given back by the
-- merge of the two files, network by network.
pub merge-generate :
    (cfg : DscvrConfig) (canister network : String)
    → NodupKeys cfg.canisters
    → get_canister_network
        (merge (generate_local_config cfg) (generate_default_config cfg))
        canister
        network
      ≡ get_canister_network cfg canister network
merge-generate cfg canister network d =
    let l = generate_local_config cfg in
    let b = generate_default_config cfg in
    let l-nodup : NodupKeys l.canisters =
      unfold generate_local_config in NodupKeys-map_entries (λ name. local_of) cfg.canisters d in
    let looked_up : lookup canister (merge l b).canisters
        ≡ merged (lookup canister l.canisters) (lookup canister b.canisters) =
      unfold merge in lookup-merge_canisters canister l.canisters b.canisters l-nodup in
    get_canister_network-network_of (merge l b) canister network
    ∙ ap (network_of network) (
        looked_up
        ∙ ap₂ merged (lookup-generate_local canister cfg) (lookup-generate_default canister cfg d))
    ∙ network_kept network (lookup canister cfg.canisters)
    ∙ sym (get_canister_network-network_of cfg canister network)

others_kept :
    (network : String) (found : Option Canister)
    → network ≢ local_network_name
    → network_of network (default_of found) ≡ network_of network found
unfolding strip_local
others_kept network none other = refl
others_kept network (some c) other = elim (Bool-cases (only_local c)) [
  | inl alone ↦ ground (arith, alone, only_local-lookup c network alone other)
  | inr shared ↦ ground (arith, shared, other, lookup-map_entries network strip_local c.networks)
]

local_kept :
    (network : String) (found : Option Canister)
    → network_of network (Option.map local_of found)
      ≡ (if network == local_network_name then network_of network found else none)
local_kept network none = ground arith
local_kept network (some c) = lookup-retain network (λ k. k == local_network_name) c.networks

stripped :
    (found : Option Canister)
    → Option.get_or (Option.map instances_of (network_of local_network_name (default_of found))) []
      ≡ []
unfolding strip_local
stripped none = refl
stripped (some c) = elim (Bool-cases (only_local c)) [
  | inl alone ↦ ground arith
  | inr shared ↦ elim (Option-cases (lookup local_network_name c.networks)) [
    | inl missing ↦
        ground
          (arith, shared, missing, lookup-map_entries local_network_name strip_local c.networks)
    | inr (m, found) ↦
        ground (arith, shared, found, lookup-map_entries local_network_name strip_local c.networks)
  ]
]

split_lem :
    (network : String) (found : Option Canister)
    → (if network == local_network_name
        then network_of network found
        else network_of network (default_of found))
      ≡ network_of network found
split_lem network found = elim (string_eq.dec network local_network_name) [
  | yes e ↦ ground arith
  | no other ↦ ground (arith, others_kept network found other)
]

-- The file for all networks keeps no instance of a local network, and every other network as it is;
-- the local file keeps the local network as it is, and no other.
pub generate_lem :
    (cfg : DscvrConfig) (canister network : String)
    → NodupKeys cfg.canisters
    → ((if network == local_network_name
          then get_canister_network cfg canister network
          else get_canister_network (generate_default_config cfg) canister network)
        ≡ get_canister_network cfg canister network)
      × (Option.get_or
            (Option.map instances_of
              (get_canister_network (generate_default_config cfg) canister local_network_name))
            []
          ≡ [])
      × (get_canister_network (generate_local_config cfg) canister network ≡ (
          if network == local_network_name
          then get_canister_network cfg canister network
          else none))
generate_lem cfg canister network d =
    let b = generate_default_config cfg in
    let base = lookup-generate_default canister cfg d in
    let at : (w : String)
        → get_canister_network b canister w
          ≡ network_of w (default_of (lookup canister cfg.canisters)) =
      λ w. get_canister_network-network_of b canister w ∙ ap (network_of w) base in
    let here = get_canister_network-network_of cfg canister network in
    (
      ap₂ (λ x y. if network == local_network_name then x else y) here (at network)
          ∙ split_lem network (lookup canister cfg.canisters)
          ∙ sym here,
      ap (λ x. Option.get_or (Option.map instances_of x) []) (at local_network_name)
          ∙ stripped (lookup canister cfg.canisters),
      get_canister_network-network_of (generate_local_config cfg) canister network
          ∙ ap (network_of network) (lookup-generate_local canister cfg)
          ∙ local_kept network (lookup canister cfg.canisters)
          ∙ sym (ap (λ x. if network == local_network_name then x else none) here),
    )

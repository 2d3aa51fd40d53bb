-- ===== src/CanisterConfig/Dfx/Ids.antt =====
-- The ids that are written for dfx are those of the instances.
use metamagic.Prelude.{
  String, ◌≡◌, refl, ap, arith, Option, none, some, List, [], ◌∷◌, ◌++◌, ◌==◌, string_eq,
  if◌then◌else◌, Option-cases, inl, inr,
}
use metamagic.Prelude.HashMap.{HashMap, lookup, or_insert, lookup-insert, lookup-or_insert}
use metamagic.CanisterConfig.Schema.{CanisterInstance, CanisterNetwork, Canister, DscvrConfig}
use metamagic.CanisterConfig.Query.{or_nil, instances_of}
use metamagic.CanisterConfig.Dfx.{
  CanisterIds, add_id, add_instances, add_networks, add_canisters, canister_ids,
}

abbrev pub in_network : String → Option (HashMap String String) → Option String
in_network network none = none
in_network network (some inner) = lookup network inner

abbrev pub id_of : CanisterIds → String → String → Option String
id_of ids name network = in_network network (lookup name ids)

-- The first of the two that is there.
abbrev pub or_else : Option String → Option String → Option String
or_else none b = b
or_else (some a) b = some a

-- The first id of an instance with the name.
abbrev pub first_id : String → List CanisterInstance → Option String
first_id name [] = none
first_id name (i ∷ is) =
    if name == i.name then or_else i.id (first_id name is) else first_id name is

abbrev pub first_in_networks : String → String → HashMap String CanisterNetwork → Option String
first_in_networks name network [] = none
first_in_networks name network ((w, n) ∷ ns) =
    if network == w
    then or_else (first_id name (instances_of n)) (first_in_networks name network ns)
    else first_in_networks name network ns

abbrev pub first_in_canisters : String → String → HashMap String Canister → Option String
first_in_canisters name network [] = none
first_in_canisters name network ((_, c) ∷ cs) =
    or_else (first_in_networks name network c.networks) (first_in_canisters name network cs)

id_of-add_id :
    (name network n w id : String) (ids : CanisterIds)
    → id_of (add_id n w id ids) name network ≡ (
        if name == n
        then (if network == w
            then or_else (id_of ids name network) (some id)
            else id_of ids name network)
        else id_of ids name network)
unfolding add_id lookup
id_of-add_id name network n w id ids =
    let same : name ≡ n → lookup name ids ≡ lookup n ids = λ e. ap (λ k. lookup k ids) e in
    elim (Option-cases (lookup n ids)) [
      | inl missing ↦ ground (
        arith,
        same,
        missing,
        lookup-insert name n (or_insert w id []) ids,
        lookup-or_insert network w id [],
      )
      | inr (inner, found) ↦ ground (
        arith,
        same,
        found,
        lookup-insert name n (or_insert w id inner) ids,
        lookup-or_insert network w id inner,
      )
    ]

id_of-add_instances :
    (name network w : String) (is : List CanisterInstance) (ids : CanisterIds)
    → id_of (add_instances w is ids) name network ≡ (
        if network == w
        then or_else (id_of ids name network) (first_id name is)
        else id_of ids name network)
unfolding add_instances
id_of-add_instances name network w [] ids = ground arith
id_of-add_instances name network w (i ∷ is) ids = elim (Option-cases i.id) [
  | inl missing ↦ ground (arith, missing, id_of-add_instances name network w is ids)
  | inr (id, known) ↦ ground (
    arith,
    known,
    id_of-add_instances name network w is (add_id i.name w id ids),
    id_of-add_id name network i.name w id ids,
  )
]

first_id-append :
    (name : String) (is js : List CanisterInstance)
    → first_id name (is ++ js) ≡ or_else (first_id name is) (first_id name js)
first_id-append name [] js = refl
first_id-append name (i ∷ is) js = ground (arith, first_id-append name is js)

id_of-add_networks :
    (name network : String) (ns : HashMap String CanisterNetwork) (ids : CanisterIds)
    → id_of (add_networks ns ids) name network
      ≡ or_else (id_of ids name network) (first_in_networks name network ns)
unfolding add_networks
id_of-add_networks name network [] ids = ground arith
id_of-add_networks name network ((w, n) ∷ ns) ids =
    let provisioned = or_nil n.provisioned_instances in
    let available = or_nil n.available_instances in
    let ids' = add_instances w provisioned ids in
    ground (
      arith,
      id_of-add_networks name network ns (add_instances w available ids'),
      id_of-add_instances name network w available ids',
      id_of-add_instances name network w provisioned ids,
      first_id-append name provisioned available,
    )

id_of-add_canisters :
    (name network : String) (cs : HashMap String Canister) (ids : CanisterIds)
    → id_of (add_canisters cs ids) name network
      ≡ or_else (id_of ids name network) (first_in_canisters name network cs)
unfolding add_canisters
id_of-add_canisters name network [] ids = ground arith
id_of-add_canisters name network ((_, c) ∷ cs) ids = ground (
  arith,
  id_of-add_canisters name network cs (add_networks c.networks ids),
  id_of-add_networks name network c.networks ids,
)

-- The id of an instance name on a network is the first one that the configuration has for it,
-- provisioned instances before available ones; there is none if no such instance has an id.
pub id_of-canister_ids :
    (cfg : DscvrConfig) (name network : String)
    → id_of (canister_ids cfg) name network ≡ first_in_canisters name network cfg.canisters
unfolding canister_ids lookup
id_of-canister_ids cfg name network = id_of-add_canisters name network cfg.canisters []

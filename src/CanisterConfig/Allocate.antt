-- ===== src/CanisterConfig/Allocate.antt =====
-- schema/dscvr/allocate.rs
pub mod Numbering
pub mod Registration
use metamagic.Prelude.{
  ℕ, zero, suc, ◌+◌, String, ◌<>◌, ◌≡◌, Option, none, some, List, [], ◌∷◌, ◌++◌, length, ◌==◌,
  string_eq, if◌then◌else◌, Outcome, ok, err, panic, ◌>>=◌, ok_or,
}
use metamagic.Prelude.Decimal.{decimal}
use metamagic.CanisterConfig.Schema.{
  CanisterInstance, CanisterNetwork, DscvrConfig, Error, no_available_canister_instances,
  name_delimiter, get_canister_for_network, write_canister_for_network,
}
use metamagic.CanisterConfig.Query.{or_nil}

-- `format!("{}{NAME_DELIMITER}{}", canister_name, n)`
unfoldable pub instance_name : String → ℕ → String
instance_name canister_name n = canister_name <> (name_delimiter <> decimal n)

-- The number that comes behind all instances.
unfoldable pub next_canister : CanisterNetwork → ℕ
next_canister n = elim n.provisioned_instances [
  | some provisioned ↦ elim n.available_instances [
    | some available ↦ length available + length provisioned + 1
    | none ↦ length provisioned + 1
  ]
  | none ↦ elim n.available_instances [ some available ↦ length available + 1 | none ↦ 1 ]
]

-- `while next_canister < total`, with the number of rounds left.
unfoldable pub new_canisters : String → ℕ → ℕ → List CanisterInstance
new_canisters canister_name zero next = []
new_canisters canister_name (suc k) next =
    record { name = instance_name canister_name next; id = none }
    ∷ new_canisters canister_name k (next + 1)

-- What is done to the network.
unfoldable pub allocate : String → ℕ → CanisterNetwork → List CanisterInstance × CanisterNetwork
unfolding next_canister
allocate canister_name count n =
    let news = new_canisters canister_name count (next_canister n) in
    (news, record n { available_instances = some (or_nil n.available_instances ++ news) })

unfoldable pub add_available_canisters :
    String → String → ℕ → DscvrConfig → Outcome Error (List CanisterInstance) × DscvrConfig
add_available_canisters canister_name network count cfg =
    elim (get_canister_for_network canister_name network cfg) [
      | ok n ↦
          let added = allocate canister_name count n in
          (ok added.0, write_canister_for_network canister_name network added.1 cfg)
      | err e ↦ (err e, cfg)
      | panic ↦ (panic, cfg)
    ]

-- The first instance with the name is given the id.
unfoldable pub set_id : CanisterInstance → List CanisterInstance → List CanisterInstance
set_id c [] = []
set_id c (i ∷ is) = if i.name == c.name then record i { id = c.id } ∷ is else i ∷ set_id c is

unfoldable pub register_all : List CanisterInstance → List CanisterInstance → List CanisterInstance
register_all [] available = available
register_all (c ∷ cs) available = register_all cs (set_id c available)

unfoldable pub register_available_canisters :
    String → String → List CanisterInstance → DscvrConfig → Outcome Error (Unit {0}) × DscvrConfig
register_available_canisters canister_name network canisters cfg =
    elim (get_canister_for_network canister_name network cfg) [
      | ok n ↦ elim n.available_instances [
        | none ↦ (err (no_available_canister_instances canister_name network "Register"), cfg)
        | some available ↦
            let n' = record n { available_instances = some (register_all canisters available) } in
            (ok tt, write_canister_for_network canister_name network n' cfg)
      ]
      | err e ↦ (err e, cfg)
      | panic ↦ (panic, cfg)
    ]

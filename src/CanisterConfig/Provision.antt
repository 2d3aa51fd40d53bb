-- ===== src/CanisterConfig/Provision.antt =====
-- schema/dscvr/provision.rs
pub mod Moves
use metamagic.Prelude.{
  ℕ, zero, suc, String, ◌≡◌, Option, none, some, List, [], ◌∷◌, ◌++◌, if◌then◌else◌, Outcome, ok,
  err, panic,
}
use mathlib.Core.Option
use metamagic.CanisterConfig.Schema.{
  CanisterInstance, CanisterNetwork, DscvrConfig, Error, no_available_canister_instances,
  provision_error, get_canister_for_network, write_canister_for_network,
}

-- `Vec::pop`: the last element, and the others.
unfoldable pub pop : List CanisterInstance → Option (CanisterInstance × List CanisterInstance)
pop [] = none
pop (i ∷ is) = elim (pop is) [ none ↦ some (i, []) | some (last, rest) ↦ some (last, i ∷ rest) ]

abbrev pub not_enough : Error
not_enough = provision_error "Not enough available canisters to provision"

-- The loop with the number of rounds left and the instances taken so far. What is left of the
-- available instances comes back with an error too, since they were popped in place.
unfoldable pub pop_all :
    ℕ
    → List CanisterInstance
    → List CanisterInstance
    → Outcome Error (List CanisterInstance) × List CanisterInstance
pop_all zero taken available = (ok taken, available)
pop_all (suc k) taken available = elim (pop available) [
  | none ↦ (err not_enough, available)
  | some (last, rest) ↦ pop_all k (taken ++ last ∷ []) rest
]

-- Where there is no list of provisioned instances, what is taken is appended to a temporary that is
-- dropped.
abbrev pub append_provisioned :
    Option (List CanisterInstance) → List CanisterInstance → Option (List CanisterInstance)
append_provisioned provisioned taken = Option.map (λ ps. ps ++ taken) provisioned

-- What the end of the loop, or the return from it, leaves.
unfoldable pub finish :
    CanisterNetwork
    → Outcome Error (List CanisterInstance) × List CanisterInstance
    → Outcome Error (List CanisterInstance) × CanisterNetwork
finish n (ok taken, rest) = (
  ok taken,
  record n {
    available_instances = some rest;
    provisioned_instances = append_provisioned n.provisioned_instances taken;
  },
)
finish n (err e, rest) = (err e, record n { available_instances = some rest })
finish n (panic, rest) = (panic, n)

unfoldable pub provision :
    ℕ
    → List CanisterInstance
    → CanisterNetwork
    → Outcome Error (List CanisterInstance) × CanisterNetwork
provision count available n = finish n (pop_all count [] available)

unfoldable pub provision_canisters :
    String → String → ℕ → DscvrConfig → Outcome Error (List CanisterInstance) × DscvrConfig
provision_canisters canister_name network count cfg =
    elim (get_canister_for_network canister_name network cfg) [
      | ok n ↦ elim n.available_instances [
        | none ↦ (err (no_available_canister_instances canister_name network "Provision"), cfg)
        | some available ↦
            let done = provision count available n in
            (done.0, write_canister_for_network canister_name network done.1 cfg)
      ]
      | err e ↦ (err e, cfg)
      | panic ↦ (panic, cfg)
    ]

-- ===== src/CanisterConfig/Query.antt =====
-- The queries of schema/dscvr.rs.
pub mod Finding
use metamagic.Prelude.{
  String, ◌<>◌, Bool, Option, none, some, List, [], ◌∷◌, ◌++◌, ◌==◌, string_eq, if◌then◌else◌,
  Outcome, ok, err, panic, ◌>>=◌, ok_or,
}
use mathlib.Core.Option
use metamagic.Prelude.HashMap.{lookup}
use metamagic.CanisterConfig.Schema.{
  ControllerType, controller_eq, IdentityFromFile, ControllerGroup, CanisterInstance,
  CanisterNetwork, Canister, DscvrConfig,
}

-- `iter().find`
unfoldable pub find : (CanisterInstance → Bool) → List CanisterInstance → Option CanisterInstance
find p [] = none
find p (i ∷ is) = if p i then some i else find p is

-- An instance with no id is compared as if its id were empty.
abbrev pub has_id : String → CanisterInstance → Bool
has_id instance_id i = Option.get_or i.id "" == instance_id

search : Option (List CanisterInstance) → Option String → Option String → Option CanisterInstance
search instances (some instance_name) _ =
    Option.bind instances (find (λ i. i.name == instance_name))
search instances none (some instance_id) = Option.bind instances (find (has_id instance_id))
search instances none none = none

unfoldable pub search_provisioned :
    CanisterNetwork → Option String → Option String → Option CanisterInstance
unfolding search
search_provisioned n = search n.provisioned_instances

unfoldable pub search_available :
    CanisterNetwork → Option String → Option String → Option CanisterInstance
unfolding search
search_available n = search n.available_instances

unfoldable pub find_instance :
    CanisterNetwork → Option String → Option String → Option CanisterInstance
unfolding search_provisioned search_available
find_instance n instance_name instance_id = elim (search_provisioned n instance_name instance_id) [
  | some i ↦ some i
  | none ↦ search_available n instance_name instance_id
]

abbrev pub or_nil : Option (List CanisterInstance) → List CanisterInstance
or_nil none = []
or_nil (some is) = is

-- `CanisterNetwork::get_all_instances`
abbrev pub instances_of : CanisterNetwork → List CanisterInstance
instances_of n = or_nil n.provisioned_instances ++ or_nil n.available_instances

unfoldable pub get_canister : DscvrConfig → String → Option Canister
get_canister cfg canister_name = lookup canister_name cfg.canisters

unfoldable pub get_canister_network : DscvrConfig → String → String → Option CanisterNetwork
unfolding get_canister
get_canister_network cfg canister_name network = elim (get_canister cfg canister_name) [
  | none ↦ none
  | some canister ↦ lookup network canister.networks
]

unfoldable pub get_all_provisioned_instances :
    DscvrConfig → String → String → Option (List CanisterInstance)
unfolding get_canister_network
get_all_provisioned_instances cfg canister network =
    elim (get_canister_network cfg canister network) [
      | none ↦ none
      | some n ↦ n.provisioned_instances
    ]

unfoldable pub get_all_instances : DscvrConfig → String → String → Option (List CanisterInstance)
unfolding get_canister_network
get_all_instances cfg canister network =
    Option.map instances_of (get_canister_network cfg canister network)

-- The errors are their messages.
unfoldable pub get_all_controllers_for_canister_network :
    DscvrConfig → String → String → Outcome String ControllerGroup
unfolding get_canister
get_all_controllers_for_canister_network cfg canister_name network = do
  canister ← ok_or (get_canister cfg canister_name) (canister_name <> " not found")
  n ←
      ok_or (lookup network canister.networks)
        ("Network " <> network <> " does not exist for canister " <> canister_name)
  controller_group ←
      ok_or n.controllers ("Controllers group not listed on " <> canister_name <> ":" <> network)
  groups ← ok_or cfg.controller_groups "No controller groups listed in document root"
  ok_or (lookup controller_group groups) (
      "No ControllerGroup found for " <> canister_name <> ":" <> network <> ":" <> controller_group)

unfoldable pub get_controller :
    DscvrConfig → String → String → ControllerType → Option IdentityFromFile
unfolding get_all_controllers_for_canister_network
get_controller cfg canister_name network controller =
    elim (get_all_controllers_for_canister_network cfg canister_name network) [
      | ok group ↦ lookup controller group.controllers
      | err _ ↦ none
      | panic ↦ none
    ]

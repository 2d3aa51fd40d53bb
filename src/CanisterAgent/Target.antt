-- ===== src/CanisterAgent/Target.antt =====
-- crates/dscvr-canister-agent/src/lib.rs: the agent for an instance that a configuration names.
-- Identities, principals and the connection to a replica are those of ic-agent and candid, and
-- parameters here.
use metamagic.Prelude.{
  String, ◌<>◌, ◌≡◌, ap, Option, none, some, Outcome, ok, ◌>>=◌, ok_or, string_eq,
}
use metamagic.Prelude.HashMap.{NodupKeys}
use metamagic.CanisterConfig.Schema.{
  ControllerType, controller_eq, IdentityFromFile, CanisterNetwork, DscvrConfig,
}
use metamagic.CanisterConfig.Query.{get_canister_network, find_instance, get_controller}
use metamagic.CanisterConfig.Persist.{generate_default_config, generate_local_config, merge}
use metamagic.CanisterConfig.Persist.Merge.{merge-generate}

pub record CanisterAgent (Connection P : Type 0) : Type 0 where
  pub agent : Connection
  pub canister_id : P

-- Every network has a provider.
abbrev pub get_url : CanisterNetwork → Option String
get_url network = some network.provider

module _ {Identity Connection P : Type 0} (connect : Identity → String → Outcome String Connection)
    (from_text : String → Outcome String P) where
  -- What is made of the network that was looked up.
  unfoldable pub agent_on :
      String
      → String
      → String
      → Identity
      → Option CanisterNetwork
      → Outcome String (CanisterAgent Connection P)
  agent_on canister instance_name network_name identity found = do
    network ← ok_or found (
        "Could not find canister "
        <> (canister <> (" in network " <> (network_name <> " within config file"))))
    canister_instance ←
        ok_or (find_instance network (some instance_name) none)
          ("Could not find canister instance " <> (instance_name <> " in network config"))
    id ←
        ok_or canister_instance.id
          ("Found canister " <> (canister_instance.name <> " but it has no associated id"))
    url ← ok_or (get_url network) ("Network " <> (network_name <> " has no providers"))
    agent ← connect identity url
    canister_id ← from_text id
    ok (record { agent = agent; canister_id = canister_id })

  unfoldable pub new_from_config_and_identity :
      DscvrConfig
      → String
      → String
      → String
      → Identity
      → Outcome String (CanisterAgent Connection P)
  new_from_config_and_identity config canister instance_name network_name identity =
      agent_on canister instance_name network_name identity
        (get_canister_network config canister network_name)

  -- `load` reads the identity of a controller from its file.
  unfoldable pub new_from_config :
      (IdentityFromFile → Outcome String Identity)
      → DscvrConfig
      → String
      → String
      → String
      → ControllerType
      → Outcome String (CanisterAgent Connection P)
  new_from_config load config canister instance_name network controller = do
    file ←
        ok_or (get_controller config canister network controller)
          ("Controller does not exist for canister " <> (canister <> (" on network " <> network)))
    identity ← load file
    new_from_config_and_identity config canister instance_name network identity

  -- The agent for an instance is the same from a configuration and from the merge of its two files:
  -- both name the same canister at the same provider, or fail with the same message.
  pub new_from_config-merge :
      (cfg : DscvrConfig) (canister instance_name network_name : String) (identity : Identity)
      → NodupKeys cfg.canisters
      → new_from_config_and_identity
          (merge (generate_local_config cfg) (generate_default_config cfg))
          canister
          instance_name
          network_name
          identity
        ≡ new_from_config_and_identity cfg canister instance_name network_name identity
  unfolding new_from_config_and_identity
  new_from_config-merge cfg canister instance_name network_name identity d =
      ap (agent_on canister instance_name network_name identity)
        (merge-generate cfg canister network_name d)

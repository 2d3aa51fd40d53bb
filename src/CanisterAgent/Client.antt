-- ===== src/CanisterAgent/Client.antt =====
-- crates/dscvr-canister-agent/src/lib.rs, stats.rs and module_hash.rs: the client of one canister,
-- over any agent.
pub mod Session
pub mod Storage
pub mod FileName
mod Tests
use metamagic.Prelude.{ℕ, ◌≡◌, ◌∙◌, ap, String, List, [], ◌∷◌, Outcome, ok, err, panic, ◌>>=◌}
use metamagic.CanisterAgent.AgentImpl.{AgentImpl}
use metamagic.CanisterAgent.Target.{CanisterAgent}

abbrev pub Reply : Type 0
Reply = Outcome String (List ℕ)

module _ {Agent World P : Type 0} (impl : AgentImpl Agent World P) where
  -- `CanisterAgent::update`
  unfoldable pub update : CanisterAgent Agent P → String → List ℕ → World → Reply × World
  update client method args = impl.update client.agent client.canister_id method args

  -- `CanisterAgent::query`
  unfoldable pub query : CanisterAgent Agent P → String → List ℕ → World → Reply × World
  query client method args = impl.query client.agent client.canister_id method args

  unfoldable pub clone_with_identity :
      CanisterAgent Agent P → Outcome String P → Outcome String (CanisterAgent Agent P)
  clone_with_identity client sender = do
    agent ← impl.clone_with_identity client.agent sender
    ok (record client { agent = agent })

  -- The result, and the client that is left: an identity with no principal leaves it as it was.
  unfoldable pub set_identity :
      CanisterAgent Agent P → Outcome String P → Outcome String (Unit {0}) × CanisterAgent Agent P
  set_identity client sender = elim (impl.clone_with_identity client.agent sender) [
    | ok agent ↦ (ok tt, record client { agent = agent })
    | err e ↦ (err e, client)
    | panic ↦ (panic, client)
  ]

  abbrev pub get_principal : CanisterAgent Agent P → Outcome String P
  get_principal client = impl.get_principal client.agent

  -- `canister_stats`; candid encodes no arguments, and decodes the reply.
  unfoldable pub canister_stats :
      {Stats : Type 0}
      → Outcome String (List ℕ)
      → (List ℕ → Outcome String Stats)
      → CanisterAgent Agent P
      → World
      → Outcome String Stats × World
  canister_stats encoded decode client world = elim encoded [
    | ok bytes ↦ let r = query client "stats" bytes world in ((do reply ← r.0; decode reply), r.1)
    | err e ↦ (err e, world)
    | panic ↦ (panic, world)
  ]

  -- `canister_module_hash`
  unfoldable pub canister_module_hash : CanisterAgent Agent P → World → Reply × World
  canister_module_hash client =
      impl.read_state_canister_info client.agent client.canister_id "module_hash"

-- ===== src/CanisterAgent/Constructors.antt =====
-- The other constructors of lib.rs. Connections, pem files and the texts of principals are those of
-- ic-agent and candid, and parameters.
use metamagic.Prelude.{◌≡◌, refl, ℕ, String, List, Outcome, ok, ◌>>=◌}
use metamagic.Prelude.Mutex.{Mutex}
use metamagic.Canister.Exports.{CanisterDefinition}
use metamagic.Canister.Embedded as Embedded
use metamagic.CanisterAgent.AgentImpl.StateMachine.{Library, WrappedStateMachine, machine_agent}
use metamagic.CanisterAgent.AgentImpl.Embedded.{embedded}
use metamagic.CanisterAgent.Target.{CanisterAgent}
use metamagic.CanisterAgent.Client.{get_principal}

module _ {Identity Connection P : Type 0} (connect : Identity → String → Outcome String Connection)
    (from_text : String → Outcome String P) where
  unfoldable pub new_replica :
      Identity → String → String → Outcome String (CanisterAgent Connection P)
  new_replica caller replica canister_id = do
    agent ← connect caller replica
    id ← from_text canister_id
    ok (record { agent = agent; canister_id = id })

  -- `CanisterAgent::new`; `create_identity_from_pem` reads the identity from a file.
  unfoldable pub new_from_pem :
      (String → Outcome String Identity)
      → String
      → String
      → String
      → Outcome String (CanisterAgent Connection P)
  new_from_pem create_identity_from_pem canister_id pem_file url = do
    identity ← create_identity_from_pem pem_file
    agent ← connect identity url
    id ← from_text canister_id
    ok (record { agent = agent; canister_id = id })

abbrev pub new_from_agent : {Agent P : Type 0} → Agent → P → CanisterAgent Agent P
new_from_agent agent canister_id = record { agent = agent; canister_id = canister_id }

-- `anonymous` is `Principal::anonymous()`.
unfoldable pub new_embedded_canister :
    {P State : Type 0}
    → P
    → P
    → CanisterDefinition P State
    → List ℕ
    → State
    → CanisterAgent (Embedded.Agent P State) P × Mutex State
new_embedded_canister anonymous caller canister init_arguments state =
    let made = Embedded.new caller canister init_arguments state in
    (record { agent = made.0; canister_id = anonymous }, made.1)

-- `path` is the environment's, as for the agent.
unfoldable pub new_state_machine :
    {Machine P : Type 0}
    → Library Machine P
    → Outcome String String
    → P
    → List ℕ
    → List ℕ
    → Outcome String (CanisterAgent (WrappedStateMachine P) P × Mutex Machine)
new_state_machine library path owner wasm init_arguments = do
  made ← machine_agent library path owner wasm init_arguments
  ok (record { agent = made.0.0; canister_id = made.0.1 }, made.1)

-- A client of an embedded canister speaks for its caller, and the canister has been initialised.
pub new_embedded_canister_lem :
    {P State : Type 0} (show : P → String) (anonymous caller : P)
    (canister : CanisterDefinition P State) (init_arguments : List ℕ) (state : State)
    → let made = new_embedded_canister anonymous caller canister init_arguments state in
      (get_principal (embedded show) made.0 ≡ ok caller)
      × (made.1 ≡ (Embedded.new caller canister init_arguments state).1)
unfolding new_embedded_canister Embedded.new
new_embedded_canister_lem show anonymous caller canister init_arguments state = (refl, refl)

-- ===== src/CanisterAgent/AgentImpl/StateMachine.antt =====
-- agent_impl/state_machine_impl.rs: an agent of the state machine of ic-test-state-machine-client,
-- whose functions are the parameter Library.
use metamagic.Prelude.{
  ℕ, ◌≡◌, refl, String, ◌<>◌, true, Option, some, List, Outcome, ok, err, ◌>>=◌, map_err, ap, sym,
  ok-injective, panic,
}
use metamagic.Prelude.Mutex.{Mutex, mutex_new, locked, locked-panic}
use metamagic.CanisterAgent.AgentImpl.{AgentImpl, IsLawful, locked-IsRefused}

pub data WasmResult : Type 0 where
  reply : List ℕ → WasmResult
  reject : String → WasmResult

-- `StateMachine`; each of its calls may panic, and an error of it is what `to_string` makes of it.
-- A query leaves the machine as it is.
pub record Library (Machine P : Type 0) : Type 0 where
  pub machine_new : String → Machine
  pub create_canister : Option P → Machine → P × Machine
  pub install_canister : P → List ℕ → List ℕ → Option P → Machine → Outcome String Machine
  pub query_call : P → P → String → List ℕ → Machine → Outcome String WasmResult
  pub update_call : P → P → String → List ℕ → Machine → Outcome String WasmResult × Machine

-- `WrappedStateMachine` less the machine, which is behind the mutex
pub record WrappedStateMachine (P : Type 0) : Type 0 where
  pub caller : P
  pub canister_id : P

-- The `match` on what a call gave.
unfoldable pub answer_of : Outcome String WasmResult → Outcome String (List ℕ)
answer_of result = do r ← result; elim r [ reply bytes ↦ ok bytes | reject message ↦ err message ]

module _ {P : Type 0} where
  unfoldable pub machine_clone :
      WrappedStateMachine P → Outcome String P → Outcome String (WrappedStateMachine P)
  machine_clone agent sender = do caller ← sender; ok (record agent { caller = caller })

module _ {Machine P : Type 0} (library : Library Machine P) where
  unfoldable pub machine_query :
      WrappedStateMachine P
      → P
      → String
      → List ℕ
      → Mutex Machine
      → Outcome String (List ℕ) × Mutex Machine
  machine_query agent canister_id method args machine =
      locked (λ m. (answer_of (library.query_call canister_id agent.caller method args m), m))
        machine

  unfoldable pub machine_update :
      WrappedStateMachine P
      → P
      → String
      → List ℕ
      → Mutex Machine
      → Outcome String (List ℕ) × Mutex Machine
  machine_update agent canister_id method args machine =
      locked
        (λ m.
          let r = library.update_call canister_id agent.caller method args m in
          (answer_of r.0, r.1))
        machine

  -- `new`: `path` is the environment's STATE_MACHINE_BINARY_PATH, or the message that it is
  -- missing.
  unfoldable pub machine_agent :
      Outcome String String
      → P
      → List ℕ
      → List ℕ
      → Outcome String ((WrappedStateMachine P × P) × Mutex Machine)
  machine_agent path caller wasm init_arguments = do
    binary ← map_err (λ e. "missing valid state machine binary path: " <> e) path
    let created = library.create_canister (some caller) (library.machine_new binary)
    machine ← library.install_canister created.0 wasm init_arguments (some caller) created.1
    ok ((record { caller = caller; canister_id = created.0 }, created.0), mutex_new machine)

  abbrev pub state_machine : AgentImpl (WrappedStateMachine P) (Mutex Machine) P
  state_machine = record {
    update = machine_update;
    query = machine_query;
    read_state_canister_info = λ agent canister_id prop world. (panic, world);
    clone_with_identity = machine_clone;
    get_principal = λ agent. ok agent.caller;
  }

  pub state_machine-IsLawful : IsLawful state_machine (λ m. m.poisoned ≡ true)
  unfolding machine_clone machine_query machine_update
  state_machine-IsLawful = record {
    clones = λ a p. (record a { caller = p }, refl);
    principal = λ a b p e. ap (λ x. ok x.caller) (sym (ok-injective e));
    last_counts = λ a b p sender e. ap (λ x. machine_clone x sender) (sym (ok-injective e));
    no_sender = λ a e. refl;
    sender_panics = λ a. refl;
    update_poisons = λ a c method args w h. locked-panic _ w h;
    query_poisons = λ a c method args w h. locked-panic _ w h;
    update_refused = λ a c method args w h. locked-IsRefused _ w h;
    query_refused = λ a c method args w h. locked-IsRefused _ w h;
  }

-- ===== src/CanisterAgent/Client/Tests.antt =====
-- Sessions with a canister that counts, in the process and in a state machine.
use metamagic.Prelude.HashMap.{lookup}
use metamagic.Prelude.{
  ℕ, ◌+◌, ◌≡◌, refl, true, String, List, [], ◌∷◌, ok, err, panic, string_eq, nat_eq, ◌==◌,
  if◌then◌else◌, All, inl, none,
}
use metamagic.Prelude.Mutex.{Mutex, mutex_new, locked, is_panic}
use metamagic.Canister.{CanisterUpdateMethod}
use metamagic.Canister.Exports.{CanisterDefinition}
use metamagic.Canister.Embedded as EmbeddedModule
use metamagic.CanisterAgent.AgentImpl.Embedded.{embedded, embedded-IsLawful}
use metamagic.CanisterAgent.AgentImpl.StateMachine.{
  reply, Library, WrappedStateMachine, state_machine, state_machine-IsLawful, machine_update,
  machine_query, machine_clone, answer_of,
}
use metamagic.CanisterAgent.AgentImpl.{IsLawful}
use metamagic.CanisterAgent.Target.{CanisterAgent}
use metamagic.CanisterAgent.Client.{Reply, update, set_identity, query}
use metamagic.CanisterAgent.Client.Session.{
  Action, become, to_update, to_query, Fails, session, by_clones, session_lem, session_after_panic,
}

-- The update adds the caller's number, and panics for 7.
abbrev add_caller : CanisterUpdateMethod ℕ ℕ
add_caller context args kind =
    (if context.system.caller == 7 then panic else ok [], context.state + context.system.caller)

abbrev counter : CanisterDefinition ℕ ℕ
counter = record {
  update_methods = ("add", add_caller) ∷ [];
  query_methods = ("read", λ context args. ok (context.state ∷ [])) ∷ [];
  init_method = λ context args kind. 0;
  pre_upgrade = λ context kind. context.state;
  post_upgrade = λ context kind. context.state;
  primary = true;
}

abbrev show : ℕ → String
show p = "p"

-- The client of the canister 0, in the process, and its caller.
abbrev client_of : ℕ → CanisterAgent (EmbeddedModule.Agent ℕ ℕ) ℕ
client_of caller = record {
  agent = record { canister = counter; caller = caller };
  canister_id = 0;
}

abbrev adds : List (Action ℕ)
adds =
    to_update "add" []
    ∷ become (ok 3)
    ∷ to_update "add" []
    ∷ become (err "no key")
    ∷ to_update "add" []
    ∷ to_query "read" []
    ∷ []

abbrev machine : Library ℕ ℕ
machine = record {
  machine_new = λ path. 0;
  create_canister = λ owner m. (5, m);
  install_canister = λ id wasm args owner m. ok m;
  query_call = λ id caller method args m. ok (reply (m ∷ []));
  update_call = λ id caller method args m. (ok (reply []), m + caller);
}

abbrev machine_client : CanisterAgent (WrappedStateMachine ℕ) ℕ
machine_client = record { agent = record { caller = 1; canister_id = 5 }; canister_id = 5 }

machine-session :
    session (state_machine machine) machine_client adds (mutex_new 10)
    ≡ (ok [] ∷ ok [] ∷ ok [] ∷ ok (17 ∷ []) ∷ [], mutex_new 17)
machine-session =
    unfold session set_identity update query machine_update machine_query machine_clone locked
      answer_of is_panic in
    refl

state_machine-IsLawful_example : IsLawful (state_machine machine) (λ m. m.poisoned ≡ true)
state_machine-IsLawful_example = state_machine-IsLawful machine

embedded-IsLawful_example : IsLawful (embedded {P = ℕ} {State = ℕ} show) (λ m. m.poisoned ≡ true)
embedded-IsLawful_example = embedded-IsLawful show

session_lem_example :
    session (state_machine machine) machine_client adds (mutex_new 10)
    ≡ by_clones (state_machine machine) machine_client none adds (mutex_new 10)
session_lem_example =
    session_lem (state_machine machine) (state_machine-IsLawful machine) machine_client adds
      (mutex_new 10)

-- What the caller 7 leaves.
abbrev crash : Reply × Mutex ℕ
crash = update (embedded show) (client_of 7) "add" [] (mutex_new 10)

session_after_panic_example :
    All Fails (session (embedded show) (client_of 1) adds crash.1).0
    × ((session (embedded show) (client_of 1) adds crash.1).1 ≡ crash.1)
unfolding string_eq nat_eq
session_after_panic_example =
    session_after_panic (embedded show) (embedded-IsLawful show) (client_of 7) (client_of 1) "add"
      [] adds (mutex_new 10) crash (inl refl) crashes
  where
    crashes : crash.0 ≡ panic
    crashes = unfold update EmbeddedModule.update locked lookup in refl

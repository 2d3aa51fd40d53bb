-- ===== src/Canister/Embedded.antt =====
-- agent_impl/embedded_canister_impl.rs: an agent whose canister is in the process. Agents that are
-- cloned share the state.
use metamagic.Prelude.{
  ℕ, ◌≡◌, refl, String, ◌<>◌, Option, none, some, List, [], ◌∷◌, Outcome, true, if◌then◌else◌, ok,
  err, panic, ◌>>=◌, ap, string_eq, Option-cases, Bool-cases, inl, inr,
}
use metamagic.Prelude.HashMap.{lookup}
use metamagic.Prelude.Mutex.{Mutex, mutex_new, is_panic, locked, locked-poisoned}
use metamagic.Canister.{primary, Context}
use metamagic.Canister.Exports.{CanisterDefinition}

-- `EmbeddedCanisterImpl` less the state, which is behind the mutex; `show` prints a principal.
pub record Agent (P State : Type 0) : Type 0 where
  pub canister : CanisterDefinition P State
  pub caller : P

module _ {P : Type 0} (show : P → String) where
  abbrev pub no_update : P → String → String
  no_update canister_id method =
      "Canister " <> (show canister_id <> (" does not have an update method named " <> method))

  abbrev pub no_query : P → String → String
  no_query canister_id method =
      "Canister " <> (show canister_id <> (" does not have an query method named " <> method))

module _ {P State : Type 0} where
  -- `Edge::new_with_caller_and_time(self.caller, None)`, with the locked state
  abbrev pub context : Agent P State → State → Context P State
  context agent state = record {
    state = state;
    system = record { caller = agent.caller; time = none };
  }

  -- `identity.sender()` gives the principal or an error.
  unfoldable pub clone_with_identity :
      Agent P State → Outcome String P → Outcome String (Agent P State)
  clone_with_identity agent sender = do caller ← sender; ok (record agent { caller = caller })

  -- `new`: the state after the init method, and the agent.
  unfoldable pub new : P → CanisterDefinition P State → List ℕ → State → Agent P State × Mutex State
  new caller canister init_arguments state =
      let agent : Agent P State = record { canister = canister; caller = caller } in
      (agent, mutex_new (canister.init_method (context agent state) init_arguments primary))

  -- A call of a method of the table, by a caller.
  abbrev pub call :
      CanisterDefinition P State
      → P
      → String
      → List ℕ
      → State
      → Option (Outcome String (List ℕ) × State)
  call canister caller method args state = elim (lookup method canister.update_methods) [
    | none ↦ none
    | some m ↦ some (
        m (record { state = state; system = record { caller = caller; time = none } }) args primary)
  ]

  -- The state that the calls leave by the table alone: those of no method leave it as it is, and
  -- none is made after one that panics.
  abbrev pub folded :
      CanisterDefinition P State → List (P × (String × List ℕ)) → State → Mutex State
  folded canister [] state = mutex_new state
  folded canister ((caller, (method, args)) ∷ calls) state =
      elim (call canister caller method args state) [
        | none ↦ folded canister calls state
        | some r ↦
            let rest = folded canister calls r.1 in
            if is_panic r.0 then record { inner = r.1; poisoned = true } else rest
      ]

module _ {P State : Type 0} (show : P → String) where
  -- A method that is not there is an error before the lock is taken.
  unfoldable pub update :
      Agent P State → P → String → List ℕ → Mutex State → Outcome String (List ℕ) × Mutex State
  update agent canister_id method args state = elim (lookup method agent.canister.update_methods) [
    | none ↦ (err (no_update show canister_id method), state)
    | some m ↦ locked (λ s. m (context agent s) args primary) state
  ]

  unfoldable pub query :
      Agent P State → P → String → List ℕ → Mutex State → Outcome String (List ℕ) × Mutex State
  query agent canister_id method args state = elim (lookup method agent.canister.query_methods) [
    | none ↦ (err (no_query show canister_id method), state)
    | some m ↦ locked (λ s. (m (context agent s) args, s)) state
  ]

  -- Updates by several callers, each through a clone of the agent with its identity, one after the
  -- other.
  unfoldable pub run :
      Agent P State
      → P
      → List (P × (String × List ℕ))
      → Mutex State
      → List (Outcome String (List ℕ)) × Mutex State
  run agent canister_id [] state = ([], state)
  run agent canister_id ((caller, (method, args)) ∷ calls) state =
      let r =
        (elim (clone_with_identity agent (ok caller))
          as (λ _. Outcome String (List ℕ) × Mutex State) [
            | ok clone ↦ update clone canister_id method args state
            | err e ↦ (err e, state)
            | panic ↦ (panic, state)
          ]) in
      let rs = run agent canister_id calls r.1 in (r.0 ∷ rs.0, rs.1)

  update-poisoned :
      (agent : Agent P State) (canister_id : P) (method : String) (args : List ℕ) (m : Mutex State)
      → m.poisoned ≡ true
      → (update agent canister_id method args m).1 ≡ m
  unfolding update
  update-poisoned agent canister_id method args m h =
      elim (Option-cases (lookup method agent.canister.update_methods)) [
        | inl missing ↦ rw (update, missing) refl
        | inr (f, found) ↦
            rw (update, found)
              (ap (λ r. r.1) (locked-poisoned (λ s. f (context agent s) args primary) m h))
      ]

  run-poisoned :
      (agent : Agent P State) (canister_id : P) (calls : List (P × (String × List ℕ)))
      (m : Mutex State)
      → m.poisoned ≡ true
      → (run agent canister_id calls m).1 ≡ m
  unfolding run clone_with_identity
  run-poisoned agent canister_id [] m h = refl
  run-poisoned agent canister_id ((caller, (method, args)) ∷ calls) m h =
      rw (update-poisoned (record agent { caller = caller }) canister_id method args m h)
        (run-poisoned agent canister_id calls m h)

  -- Clones of an agent act on one state, in the order of their calls and each as its own caller; a
  -- call of a method that is not there leaves the state alone, a method that answers with an error
  -- keeps what it wrote, and one that panics poisons the state, which no later call changes.
  pub run_lem :
      (agent : Agent P State) (canister_id : P) (calls : List (P × (String × List ℕ)))
      (state : State)
      → (run agent canister_id calls (mutex_new state)).1 ≡ folded agent.canister calls state
  unfolding run clone_with_identity update locked
  run_lem agent canister_id [] state = refl
  run_lem agent canister_id ((caller, (method, args)) ∷ calls) state =
      let clone : Agent P State = record agent { caller = caller } in
      elim (Option-cases (lookup method agent.canister.update_methods)) [
        | inl missing ↦ rw (update, folded, missing) (run_lem agent canister_id calls state)
        | inr (f, found) ↦
            let r = f (context clone state) args primary in
            elim (Bool-cases (is_panic r.0)) [
              | inl panics ↦
                  rw (update, folded, found, panics)
                    (run-poisoned agent canister_id calls (record { inner = r.1; poisoned = true })
                      refl)
              | inr returns ↦
                  rw (update, folded, found, returns) (run_lem agent canister_id calls r.1)
            ]
      ]

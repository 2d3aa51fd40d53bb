-- ===== src/CanisterAgent/AgentImpl.antt =====
-- agent_impl.rs: what a client may ask of an agent. `World` is what lies behind all agents that
-- are cloned of one, a canister in the process or a state machine.
pub mod Embedded
pub mod StateMachine
use metamagic.Prelude.{ℕ, ◌≡◌, ◌≢◌, String, List, Outcome, ok, err, panic, ap, sym, ◌∙◌, true}
use metamagic.Prelude.Mutex.{Mutex, locked, locked-poisoned}

-- The trait. An identity is what its `sender` gives.
pub record AgentImpl (Agent World P : Type 0) : Type 0 where
  pub update : Agent → P → String → List ℕ → World → Outcome String (List ℕ) × World
  pub query : Agent → P → String → List ℕ → World → Outcome String (List ℕ) × World
  pub read_state_canister_info : Agent → P → String → World → Outcome String (List ℕ) × World
  pub clone_with_identity : Agent → Outcome String P → Outcome String Agent
  pub get_principal : Agent → Outcome String P

-- A call that fails for good and leaves the world alone.
pub record IsRefused {World : Type 0} (w : World) (r : Outcome String (List ℕ) × World)
    : Type 0 where
  pub fails : (reply : List ℕ) → r.0 ≢ ok reply
  pub stays : r.1 ≡ w

pub locked-IsRefused :
    {S : Type 0} (act : S → Outcome String (List ℕ) × S) (m : Mutex S)
    → m.poisoned ≡ true
    → IsRefused m (locked act m)
locked-IsRefused act m h = record {
  fails = λ reply e. absurd (let clash = sym (ap (λ r. r.0) (locked-poisoned act m h)) ∙ e in cc);
  stays = ap (λ r. r.1) (locked-poisoned act m h);
}

-- What the client relies on. `IsPoisoned` holds of a world in which a call has panicked.
pub record IsLawful {Agent World P : Type 0} (impl : AgentImpl Agent World P)
    (IsPoisoned : World → Type 0) : Type 0 where
  -- an identity with a principal gives an agent for it, and the last identity counts
  pub clones : (a : Agent) (p : P) → (b : Agent) × (impl.clone_with_identity a (ok p) ≡ ok b)
  pub principal :
      (a b : Agent) (p : P) → impl.clone_with_identity a (ok p) ≡ ok b → impl.get_principal b ≡ ok p
  pub last_counts :
      (a b : Agent) (p : P) (sender : Outcome String P)
      → impl.clone_with_identity a (ok p) ≡ ok b
      → impl.clone_with_identity b sender ≡ impl.clone_with_identity a sender
  pub no_sender : (a : Agent) (e : String) → impl.clone_with_identity a (err e) ≡ err e
  pub sender_panics : (a : Agent) → impl.clone_with_identity a panic ≡ panic
  -- a panic poisons the world, and a poisoned world refuses every call
  pub update_poisons :
      (a : Agent) (c : P) (method : String) (args : List ℕ) (w : World)
      → (impl.update a c method args w).0 ≡ panic
      → IsPoisoned (impl.update a c method args w).1
  pub query_poisons :
      (a : Agent) (c : P) (method : String) (args : List ℕ) (w : World)
      → (impl.query a c method args w).0 ≡ panic
      → IsPoisoned (impl.query a c method args w).1
  pub update_refused :
      (a : Agent) (c : P) (method : String) (args : List ℕ) (w : World)
      → IsPoisoned w
      → IsRefused w (impl.update a c method args w)
  pub query_refused :
      (a : Agent) (c : P) (method : String) (args : List ℕ) (w : World)
      → IsPoisoned w
      → IsRefused w (impl.query a c method args w)

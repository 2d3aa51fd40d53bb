-- ===== src/Canister.antt =====
-- crates/dscvr-interface (the edge), dscvr-canister-context, dscvr-canister-exports and the
-- embedded canister of dscvr-canister-agent: a canister's methods, run in the client's own process.
pub mod Exports
pub mod Embedded
pub mod CommonState
pub mod System
mod Tests
use metamagic.Prelude.{ℕ, Option, List, Outcome, String}

-- `UpdateContext`; the payload of the last is the response to validate against.
pub data UpdateContext : Type 0 where
  primary secondary : UpdateContext
  secondary_with_validation : List ℕ → UpdateContext

-- `Edge`, the system interface that an embedded canister is given; with no time the clock is read.
pub record Edge (P : Type 0) : Type 0 where
  pub caller : P
  pub time : Option ℕ

-- `&dyn Interface` behind a context is an edge here.
pub record Context (P State : Type 0) : Type 0 where
  pub state : State
  pub system : Edge P

module _ (P State : Type 0) where
  -- A query method is given an `ImmutableContext`, the state to read.
  abbrev pub CanisterMethod : Type 0
  CanisterMethod = Context P State → List ℕ → Outcome String (List ℕ)

  -- An update method is given a `MutableContext`: it leaves a state, also when it answers with an
  -- error.
  abbrev pub CanisterUpdateMethod : Type 0
  CanisterUpdateMethod = Context P State → List ℕ → UpdateContext → Outcome String (List ℕ) × State

  abbrev pub CanisterInitMethod : Type 0
  CanisterInitMethod = Context P State → List ℕ → UpdateContext → State

  abbrev pub CanisterLifecycleMethod : Type 0
  CanisterLifecycleMethod = Context P State → UpdateContext → State

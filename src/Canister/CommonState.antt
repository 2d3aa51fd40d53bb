-- ===== src/Canister/CommonState.antt =====
-- crates/dscvr-canister-context: what the methods of a canister do with their contexts, and the
-- state that `define_v1_common_state_interface` keeps for them outside of a canister.
use metamagic.Prelude.{
  ◌≡◌, refl, true, List, [], ◌∷◌, map, Outcome, panic, if◌then◌else◌, Bool-cases, inl, inr,
}
use metamagic.Prelude.Mutex.{Mutex, mutex_new, is_panic}
use metamagic.Canister.{Context, Edge}

-- A context is immutable or mutable by what is done with it. What a function leaves of a state is
-- the second part of its result.
module _ {P State R : Type 0} where
  unfoldable pub read : (State → R) → Context P State → R
  read f context = f context.state

  unfoldable pub read_with_system : (State → Edge P → R) → Context P State → R
  read_with_system f context = f context.state context.system

  unfoldable pub mutate : (State → R × State) → Context P State → R × Context P State
  mutate f context = let r = f context.state in (r.0, record context { state = r.1 })

  unfoldable pub mutate_with_system :
      (State → Edge P → R × State) → Context P State → R × Context P State
  mutate_with_system f context =
      let r = f context.state context.system in (r.0, record context { state = r.1 })

-- What a program does with the state.
pub data Access (State E R : Type 0) : Type 0 where
  reads : (State → Outcome E R) → Access State E R
  mutates : (State → Outcome E R × State) → Access State E R

-- The `RwLock` of the macro: a writer that panics poisons it, a reader does not, and who comes to
-- a poisoned lock panics. A lock is one that knows whether it is poisoned, like a mutex.
module _ {State E R : Type 0} where
  unfoldable pub read_state : (State → Outcome E R) → Mutex State → Outcome E R
  read_state f lock = if lock.poisoned then panic else f lock.inner

  unfoldable pub mutate_state :
      (State → Outcome E R × State) → Mutex State → Outcome E R × Mutex State
  mutate_state f lock =
      if lock.poisoned
      then (panic, lock)
      else (let r = f lock.inner in (r.0, record { inner = r.1; poisoned = is_panic r.0 }))

  -- A program that reads and mutates the state.
  unfoldable pub accesses : List (Access State E R) → Mutex State → List (Outcome E R) × Mutex State
  accesses [] lock = ([], lock)
  accesses (reads f ∷ rest) lock =
      let others = accesses rest lock in (read_state f lock ∷ others.0, others.1)
  accesses (mutates f ∷ rest) lock =
      let r = mutate_state f lock in let others = accesses rest r.1 in (r.0 ∷ others.0, others.1)

  abbrev pub all_panic : List (Access State E R) → List (Outcome E R)
  all_panic xs = map (λ _. panic) xs

  -- The same with no lock: every access acts on the state that the one before it left, until a
  -- mutation panics.
  abbrev pub in_order : List (Access State E R) → State → List (Outcome E R) × Mutex State
  in_order [] state = ([], mutex_new state)
  in_order (reads f ∷ rest) state =
      let others = in_order rest state in (f state ∷ others.0, others.1)
  in_order (mutates f ∷ rest) state =
      let r = f state in
      let others = in_order rest r.1 in
      if is_panic r.0
      then (r.0 ∷ all_panic rest, record { inner = r.1; poisoned = true })
      else (r.0 ∷ others.0, others.1)

  read_state-poisoned :
      (f : State → Outcome E R) (lock : Mutex State)
      → lock.poisoned ≡ true
      → read_state f lock ≡ panic
  unfolding read_state
  read_state-poisoned f lock h = rw h refl

  mutate_state-poisoned :
      (f : State → Outcome E R × State) (lock : Mutex State)
      → lock.poisoned ≡ true
      → mutate_state f lock ≡ (panic, lock)
  unfolding mutate_state
  mutate_state-poisoned f lock h = rw h refl

  accesses-poisoned :
      (xs : List (Access State E R)) (lock : Mutex State)
      → lock.poisoned ≡ true
      → accesses xs lock ≡ (all_panic xs, lock)
  unfolding accesses
  accesses-poisoned [] lock h = refl
  accesses-poisoned (reads f ∷ rest) lock h =
      rw (read_state-poisoned f lock h, accesses-poisoned rest lock h) refl
  accesses-poisoned (mutates f ∷ rest) lock h =
      rw (mutate_state-poisoned f lock h, accesses-poisoned rest lock h) refl

  -- The accesses of a program to the common state act one after the other on one state; a read that
  -- panics leaves it usable, and after a mutation that panics every access panics and the state
  -- stays as that mutation left it.
  pub accesses_lem :
      (xs : List (Access State E R)) (state : State)
      → accesses xs (mutex_new state) ≡ in_order xs state
  unfolding accesses read_state mutate_state
  accesses_lem [] state = refl
  accesses_lem (reads f ∷ rest) state = rw (accesses_lem rest state) refl
  accesses_lem (mutates f ∷ rest) state =
      let r = f state in
      elim (Bool-cases (is_panic r.0)) [
        | inl panics ↦
            rw (panics, accesses-poisoned rest (record { inner = r.1; poisoned = true }) refl) refl
        | inr returns ↦ rw (returns, accesses_lem rest r.1) refl
      ]

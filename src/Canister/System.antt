-- ===== src/Canister/System.antt =====
-- crates/dscvr-interface: the system that a canister's methods are given, and its implementations.
-- The functions of ic_cdk are the parameter Api, and the clock and a principal's text are
-- arguments.
use metamagic.Prelude.{
  ℕ, ◌*◌, ◌%◌, ◌^◌, ◌<◌, ◌≡◌, refl, arith, String, Option, none, some, List, Outcome, ok, err,
  panic,
}
use mathlib.Core.Option
use metamagic.Canister.{Edge}

-- The trait; `Code` is ic_cdk's RejectionCode.
pub record Interface (P Code : Type 0) : Type 0 where
  pub time : ℕ
  pub caller : P
  pub canister_balance : ℕ
  pub call_canister : P → String → List ℕ → ℕ → Outcome (Code × String) (List ℕ)
  pub id : P
  pub get_memory_usage : ℕ
  pub performance_counter : ℕ → ℕ
  pub instruction_counter : ℕ
  pub stable64_size : ℕ

-- edge.rs; `now` is what the clock shows, in nanoseconds. `unimplemented!` panics.
abbrev pub edge_interface : {P Code : Type 0} → ℕ → Edge P → Interface P Code
edge_interface now edge = record {
  time = Option.get_or edge.time now;
  caller = edge.caller;
  canister_balance = 500;
  call_canister = λ canister_id method args payment. panic;
  id = edge.caller;
  get_memory_usage = 0;
  performance_counter = λ counter_type. 0;
  instruction_counter = 0;
  stable64_size = 0;
}

-- `Edge::default`
unfoldable pub edge_default : {P : Type 0} → (String → Option P) → Outcome ⊥ (Edge P)
edge_default from_text = elim (from_text "aaaaa-aa") [
  | none ↦ panic
  | some caller ↦ ok (record { caller = caller; time = none })
]

-- unit_test.rs; `management` is the principal of the text "aaaaa-aa".
abbrev pub unit_test : {P Code : Type 0} → ℕ → P → Interface P Code
unit_test now management = record {
  time = now;
  caller = management;
  canister_balance = 500;
  call_canister = λ canister_id method args payment. panic;
  id = management;
  get_memory_usage = 0;
  performance_counter = λ counter_type. 0;
  instruction_counter = 0;
  stable64_size = 0;
}

-- What internet_computer.rs uses of ic_cdk. `call_raw` is what a call has given when `spawn`
-- returns, which polls it once: nothing as long as it waits for the other canister.
pub record Api (P Code : Type 0) : Type 0 where
  pub time : ℕ
  pub caller : P
  pub canister_balance : ℕ
  pub call_raw : P → String → List ℕ → ℕ → Option (Outcome (Code × String) (List ℕ))
  pub canister_reject : Code
  pub id : P
  pub memory_size : ℕ
  pub performance_counter : ℕ → ℕ
  pub instruction_counter : ℕ
  pub stable64_size : ℕ

-- The cell starts with a failure, and the spawned future replaces it.
abbrev pub call_canister :
    {P Code : Type 0} → Api P Code → P → String → List ℕ → ℕ → Outcome (Code × String) (List ℕ)
call_canister api canister_id method args payment =
    Option.get_or (api.call_raw canister_id method args payment)
      (err (api.canister_reject, "spawn failed"))

-- A usize has 32 bits in a canister.
abbrev pub internet_computer : {P Code : Type 0} → Api P Code → Interface P Code
internet_computer api = record {
  time = api.time;
  caller = api.caller;
  canister_balance = api.canister_balance;
  call_canister = call_canister api;
  id = api.id;
  get_memory_usage = api.memory_size * 65536 % 2 ^ 32;
  performance_counter = api.performance_counter;
  instruction_counter = api.instruction_counter;
  stable64_size = api.stable64_size;
}

-- A call of another canister, which has no answer when `spawn` returns, is reported as failed,
-- and a memory short of its last page is reported with its size, a full one as empty.
pub internet_computer_lem :
    {P Code : Type 0} (api : Api P Code) (canister_id : P) (method : String) (args : List ℕ)
    (payment : ℕ)
    → (api.call_raw canister_id method args payment ≡ none
        → (internet_computer api).call_canister canister_id method args payment
          ≡ err (api.canister_reject, "spawn failed"))
      × (api.memory_size < 65536
          → (internet_computer api).get_memory_usage ≡ api.memory_size * 65536)
      × (api.memory_size ≡ 65536 → (internet_computer api).get_memory_usage ≡ 0)
internet_computer_lem api canister_id method args payment =
    ((λ pending. rw pending refl), (λ inside. omega arith), λ full. omega arith)

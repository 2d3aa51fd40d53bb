-- ===== src/Canister/Tests.antt =====
-- A canister that counts. Its last call finds the state poisoned.
use metamagic.Canister.CommonState.{
  Access, reads, mutates, accesses, in_order, accesses_lem, read_state, mutate_state,
}
use metamagic.Prelude.{
  ℕ, ◌+◌, ◌≡◌, true, String, List, [], ◌∷◌, ok, err, panic, string_eq, nat_eq, ◌==◌, if◌then◌else◌,
  refl,
}
use metamagic.Prelude.Mutex.{mutex_new, is_panic}
use metamagic.Canister.{CanisterUpdateMethod}
use metamagic.Canister.Exports.{CanisterDefinition}
use metamagic.Canister.Embedded.{run, folded, run_lem}

-- The update adds the caller's number, answers with an error for the caller 0 and panics for 7.
abbrev add_caller : CanisterUpdateMethod ℕ ℕ
add_caller context args kind = (
  if context.system.caller == 0
      then err "anonymous"
      else if context.system.caller == 7
      then panic
      else ok [],
  context.state + context.system.caller,
)

abbrev counter : CanisterDefinition ℕ ℕ
counter = record {
  update_methods = ("add", add_caller) ∷ [];
  query_methods = [];
  init_method = λ context args kind. 0;
  pre_upgrade = λ context kind. context.state;
  post_upgrade = λ context kind. context.state;
  primary = true;
}

abbrev calls : List (ℕ × (String × List ℕ))
calls = (3, ("add", [])) ∷ (4, ("remove", [])) ∷ (7, ("add", [])) ∷ (5, ("add", [])) ∷ []

run_lem_example :
    (run (λ (p : ℕ). "p") (record { canister = counter; caller = 1 }) 0 calls (mutex_new 10)).1
    ≡ folded counter calls 10
run_lem_example = run_lem (λ (p : ℕ). "p") (record { canister = counter; caller = 1 }) 0 calls 10

-- A program whose second mutation panics, with what it wrote kept.
abbrev program : List (Access ℕ String ℕ)
program =
    mutates (λ n. (ok n, n + 1))
    ∷ reads (λ n. panic)
    ∷ mutates (λ n. (panic, n + 5))
    ∷ reads (λ n. ok n)
    ∷ []

accesses_lem_example : accesses program (mutex_new 2) ≡ in_order program 2
accesses_lem_example = accesses_lem program 2

run-program :
    accesses program (mutex_new 2)
    ≡ (ok 2 ∷ panic ∷ panic ∷ panic ∷ [], record { inner = 8; poisoned = true })
run-program = unfold accesses read_state mutate_state is_panic in refl

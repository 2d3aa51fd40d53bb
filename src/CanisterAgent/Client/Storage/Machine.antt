-- ===== src/CanisterAgent/Client/Storage/Machine.antt =====
-- A state machine in which a canister with the methods of the storage is installed.
use metamagic.Prelude.{
  ℕ, ◌≡◌, refl, ap, ap₂, sym, ◌∙◌, String, Bool, false, Option, List, Outcome, ok, err, panic,
}
use metamagic.Prelude.Mutex.{Mutex, locked, is_panic}
use metamagic.StableStorage.Memory.{StableMemory}
use metamagic.StableStorage.Endpoints as Endpoints
use metamagic.StableStorage.Endpoints.{Candid, StorageCanister, settled, replied}
use metamagic.CanisterAgent.AgentImpl.StateMachine.{
  WasmResult, reply, reject, Library, WrappedStateMachine, answer_of, machine_query, machine_update,
  state_machine,
}
use metamagic.CanisterAgent.Target.{CanisterAgent}
use metamagic.CanisterAgent.Client.{update, query}
use metamagic.CanisterAgent.Client.Storage.Hosted.{Hosts, heard}
use metamagic.CanisterAgent.Client.Storage.Possible.{IsReliable}

-- A rejected call is an answer of the machine.
abbrev pub wasm_result : Outcome String (List ℕ) → Outcome String WasmResult
wasm_result (ok bytes) = ok (reply bytes)
wasm_result (err e) = ok (reject e)
wasm_result panic = ok (reject "trap")

module _ (M : StableMemory) (candid : Candid) (gunzip : List ℕ → Option (List ℕ)) {P : Type 0}
    (is_backup_service is_restore_service : P → Bool) where
  -- The calls that the client makes; how a canister is created and installed does not matter here.
  abbrev pub storage_machine : P → StorageCanister M → Library (StorageCanister M) P
  storage_machine id fresh = record {
    machine_new = λ path. fresh;
    create_canister = λ owner m. (id, m);
    install_canister = λ canister wasm args owner m. ok m;
    query_call = λ canister caller method args m. wasm_result (
        Endpoints.query_call M candid gunzip is_backup_service is_restore_service caller method args
          m);
    update_call = λ canister caller method args m.
        let r =
          Endpoints.update_call M candid gunzip is_backup_service is_restore_service caller method
            args m in
        (wasm_result r.0, r.1);
  }

  -- A query is answered as the canister replies, and never panics.
  answered-replied :
      (r : Outcome String (List ℕ))
      → let reply_is = replied M candid gunzip is_backup_service is_restore_service r in
        (answer_of (wasm_result reply_is) ≡ reply_is) × (is_panic reply_is ≡ false)
  unfolding answer_of is_panic
  answered-replied (ok bytes) = (refl, refl)
  answered-replied (err e) = (refl, refl)
  answered-replied panic = (refl, refl)

  -- An update is answered as the canister settles it, and never panics.
  answered-settled :
      (s : StorageCanister M) (r : Outcome String (StorageCanister M))
      → let done = settled M candid gunzip is_backup_service is_restore_service s r in
        (answer_of (wasm_result done.0) ≡ done.0)
        × (is_panic (answer_of (wasm_result done.0)) ≡ false)
  unfolding answer_of is_panic
  answered-settled s (ok s') = (refl, refl)
  answered-settled s (err e) = (refl, refl)
  answered-settled s panic = (refl, refl)

  under_lock :
      {E R S : Type 0} (act : S → Outcome E R × S) (m : Mutex S)
      → m.poisoned ≡ false
      → locked act m
        ≡ ((act m.inner).0, record { inner = (act m.inner).1; poisoned = is_panic (act m.inner).0 })
  unfolding locked
  under_lock act m up = rw up refl

  read_under_lock :
      {S : Type 0} (m : Mutex S) (ask : S → Outcome String WasmResult)
      (reply_is : Outcome String (List ℕ))
      → m.poisoned ≡ false
      → answer_of (ask m.inner) ≡ reply_is
      → is_panic reply_is ≡ false
      → locked (λ s. (answer_of (ask s), s)) m ≡ (reply_is, m)
  read_under_lock m ask reply_is up same fine =
      under_lock (λ s. (answer_of (ask s), s)) m up
      ∙ ap (λ a. (a, record { inner = m.inner; poisoned = is_panic a })) same
      ∙ ap (λ b. (reply_is, record { inner = m.inner; poisoned = b })) (fine ∙ sym up)

  query-replied :
      (caller : P) (method : String) (args : List ℕ) (s : StorageCanister M)
      → let reply_is =
          Endpoints.query_call M candid gunzip is_backup_service is_restore_service caller method
            args s in
        (answer_of (wasm_result reply_is) ≡ reply_is) × (is_panic reply_is ≡ false)
  unfolding Endpoints.query_call
  query-replied caller method args s = answered-replied _

  -- An update of a machine that is up is answered as its method runs, and leaves the machine up.
  update-settled :
      (id : P) (fresh : StorageCanister M) (client : CanisterAgent (WrappedStateMachine P) P)
      (method : String) (args : List ℕ) (w : Mutex (StorageCanister M))
      → w.poisoned ≡ false
      → let r = update (state_machine (storage_machine id fresh)) client method args w in
        ((r.0, r.1.inner)
          ≡ Endpoints.update_call M candid gunzip is_backup_service is_restore_service
              client.agent.caller method args w.inner)
        × (r.1.poisoned ≡ false)
  unfolding update machine_update Endpoints.update_call
  update-settled id fresh client method args w up =
      let fact = answered-settled w.inner _ in
      let runs = under_lock _ w up in
      (
        ap₂ (λ a b. (a, b)) (ap (λ x. x.0) runs ∙ fact.0) (ap (λ x. x.1.inner) runs),
        ap (λ x. x.1.poisoned) runs ∙ fact.1,
      )

  -- The agent of such a state machine reaches the storage's methods, as long as no call has
  -- panicked.
  pub storage_machine-Hosts :
      (id : P) (fresh : StorageCanister M) (client : CanisterAgent (WrappedStateMachine P) P)
      → Hosts M candid gunzip is_backup_service is_restore_service
          (state_machine (storage_machine id fresh))
          client
          client.agent.caller
          (λ m. m.poisoned ≡ false)
          (λ m. m.inner)
  unfolding query machine_query
  storage_machine-Hosts id fresh client = record {
    queried = λ method args w up.
        let fact = query-replied client.agent.caller method args w.inner in
        read_under_lock w _ _ up fact.0 fact.1;
    updates = λ method args w up.
        let fact = update-settled id fresh client method args w up in (heard fact.0, fact.1);
  }

  pub storage_machine-IsReliable :
      (id : P) (fresh : StorageCanister M) (client : CanisterAgent (WrappedStateMachine P) P)
      → IsReliable M candid gunzip is_backup_service is_restore_service
          (state_machine (storage_machine id fresh))
          client
          client.agent.caller
          (λ m. m.poisoned ≡ false)
          (λ m. m.inner)
  storage_machine-IsReliable id fresh client = record {
    answered = λ method args w up. (update-settled id fresh client method args w up).0;
  }

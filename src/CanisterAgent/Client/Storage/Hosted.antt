-- ===== src/CanisterAgent/Client/Storage/Hosted.antt =====
-- What it means that a client reaches a canister with the methods of the storage, and what its
-- calls then do.
use metamagic.Prelude.{
  ℕ, ◌≡◌, refl, ap, sym, ◌∙◌, String, Bool, true, Option, List, ◌⊎◌, inl, inr, Outcome, ok, err,
  subst,
}
use metamagic.StableStorage.Memory.{StableMemory}
use metamagic.StableStorage.Interface as Storage
use metamagic.StableStorage.Endpoints.{Candid, IsCandid, StorageCanister, query_call, update_call}
use metamagic.StableStorage.Endpoints.Calls.{
  Updates, updated, rejected, restore_call, init_call, flag_call,
}
use metamagic.CanisterAgent.AgentImpl.{AgentImpl}
use metamagic.CanisterAgent.Target.{CanisterAgent}
use metamagic.CanisterAgent.Client.{Reply, update, query}
use metamagic.CanisterAgent.Client.Storage.{call_init, call_restore, call_flag}

-- An update of a canister, `made` if its method runs: it is answered; or it is made and its answer
-- is lost; or it never gets there. The last two are errors of the agent.
pub data Delivered {S : Type 0} (s : S) (made left : Outcome String (List ℕ) × S) : Type 0 where
  heard : left ≡ made → Delivered s made left
  unheard : (e : String) → left ≡ (err e, made.1) → Delivered s made left
  undelivered : (e : String) → left ≡ (err e, s) → Delivered s made left

-- The client's agent speaks for `caller` to a canister that is seen through `view`, as long as
-- the world is up. Its updates may fail, or lose their answers.
pub record Hosts (M : StableMemory) (candid : Candid) (gunzip : List ℕ → Option (List ℕ))
    {P : Type 0} (is_backup_service is_restore_service : P → Bool) {Agent World : Type 0}
    (impl : AgentImpl Agent World P) (client : CanisterAgent Agent P) (caller : P)
    (IsUp : World → Type 0) (view : World → StorageCanister M) : Type 0 where
  pub queried :
      (method : String) (args : List ℕ) (w : World)
      → IsUp w
      → query impl client method args w ≡ (
        query_call M candid gunzip is_backup_service is_restore_service caller method args (view w),
        w,
      )
  pub updates :
      (method : String) (args : List ℕ) (w : World)
      → IsUp w
      → Delivered
          (view w)
          (update_call M candid gunzip is_backup_service is_restore_service caller method args
            (view w))
          ((update impl client method args w).0, view (update impl client method args w).1)
        × IsUp (update impl client method args w).1

module _ {M : StableMemory} {candid : Candid} {gunzip : List ℕ → Option (List ℕ)} {P : Type 0}
    {is_backup_service is_restore_service : P → Bool} {Agent World : Type 0}
    {impl : AgentImpl Agent World P} {client : CanisterAgent Agent P} {caller : P}
    {IsUp : World → Type 0} {view : World → StorageCanister M} (is : IsCandid candid)
    (hosts : Hosts M candid gunzip is_backup_service is_restore_service impl client caller IsUp
      view) where
  -- A call that changes the memory, and the canister before and behind it.
  pub record IsDone (act : M.Mem → Outcome ⊥ M.Mem) (s s' : StorageCanister M) : Type 0 where
    pub memory : act s.memory ≡ ok s'.memory
    pub thread : s'.thread ≡ s.thread

  abbrev Did :
      (M.Mem → Outcome ⊥ M.Mem)
      → StorageCanister M
      → Outcome String (List ℕ) × StorageCanister M
      → Type 0
  Did = Updates M candid is gunzip is_backup_service is_restore_service

  answered-IsDone :
      (act : M.Mem → Outcome ⊥ M.Mem) (s : StorageCanister M)
      (r : Outcome String (List ℕ) × StorageCanister M) (reply : List ℕ)
      → Did act s r
      → r.0 ≡ ok reply
      → IsDone act s r.1
  answered-IsDone act s r reply (updated m e) h = record { memory = e; thread = refl }
  answered-IsDone act s r reply (rejected e) h = absurd cc

  tried-IsDone :
      (act : M.Mem → Outcome ⊥ M.Mem) (s : StorageCanister M)
      (r : Outcome String (List ℕ) × StorageCanister M)
      → Did act s r
      → IsDone act s r.1 ⊎ (r.1 ≡ s)
  tried-IsDone act s r (updated m e) = inl (record { memory = e; thread = refl })
  tried-IsDone act s r (rejected e) = inr refl

  answered-heard :
      {s : StorageCanister M} {made left : Outcome String (List ℕ) × StorageCanister M}
      {reply : List ℕ}
      → Delivered s made left
      → left.0 ≡ ok reply
      → made ≡ left
  answered-heard (heard e) h = sym e
  answered-heard (unheard x e) h = absurd (let clash = sym h ∙ ap (λ x. x.0) e in cc)
  answered-heard (undelivered x e) h = absurd (let clash = sym h ∙ ap (λ x. x.0) e in cc)

  tried-made :
      {s : StorageCanister M} {made left : Outcome String (List ℕ) × StorageCanister M}
      → Delivered s made left
      → (made.1 ≡ left.1) ⊎ (left.1 ≡ s)
  tried-made (heard e) = inl (ap (λ x. x.1) (sym e))
  tried-made (unheard x e) = inl (ap (λ x. x.1) (sym e))
  tried-made (undelivered x e) = inr (ap (λ x. x.1) e)

  abbrev restore_made : ℕ → List ℕ → World → Outcome String (List ℕ) × StorageCanister M
  restore_made offset bytes w =
      update_call M candid gunzip is_backup_service is_restore_service caller
        "restore_stable_storage" (candid.placed.encode (offset, bytes)) (view w)

  restore-Delivered :
      (offset : ℕ) (bytes : List ℕ) (w : World)
      → IsUp w
      → Delivered (view w) (restore_made offset bytes w) (
        (call_restore impl candid client (offset, bytes) w).0,
        view (call_restore impl candid client (offset, bytes) w).1,
      )
  unfolding call_restore
  restore-Delivered offset bytes w up =
      (hosts.updates "restore_stable_storage" (candid.placed.encode (offset, bytes)) w up).0

  restore-Did :
      (offset : ℕ) (bytes : List ℕ) (w : World)
      → Did (Storage.restore_stable_storage M offset bytes) (view w) (restore_made offset bytes w)
  restore-Did offset bytes w =
      restore_call M candid is gunzip is_backup_service is_restore_service caller offset bytes
        (view w)

  pub restore_answered :
      (offset : ℕ) (bytes : List ℕ) (w : World) {w' : World} {reply : List ℕ}
      → IsUp w
      → call_restore impl candid client (offset, bytes) w ≡ (ok reply, w')
      → IsDone (Storage.restore_stable_storage M offset bytes) (view w) (view w')
  restore_answered offset bytes w {reply} up e =
      let act = Storage.restore_stable_storage M offset bytes in
      let same = answered-heard (restore-Delivered offset bytes w up) (ap (λ x. x.0) e) in
      subst (λ x. IsDone act (view w) (view x)) (ap (λ x. x.1) e)
        (answered-IsDone act (view w) _ reply
          (subst (Did act (view w)) same (restore-Did offset bytes w)) (ap (λ x. x.0) e))

  pub restore_tried :
      (offset : ℕ) (bytes : List ℕ) (w : World) {w' : World} {r : Reply}
      → IsUp w
      → call_restore impl candid client (offset, bytes) w ≡ (r, w')
      → IsDone (Storage.restore_stable_storage M offset bytes) (view w) (view w')
        ⊎ (view w' ≡ view w)
  restore_tried offset bytes w up e =
      let act = Storage.restore_stable_storage M offset bytes in
      subst (λ x. IsDone act (view w) (view x) ⊎ (view x ≡ view w)) (ap (λ x. x.1) e)
        (elim (tried-made (restore-Delivered offset bytes w up)) [
          | inl same ↦
              subst (λ s. IsDone act (view w) s ⊎ (s ≡ view w)) same
                (tried-IsDone act (view w) _ (restore-Did offset bytes w))
          | inr unchanged ↦ inr unchanged
        ])

  pub restore-IsUp :
      (c : ℕ × List ℕ) (w : World) {w' : World} {r : Reply}
      → IsUp w
      → call_restore impl candid client c w ≡ (r, w')
      → IsUp w'
  unfolding call_restore
  restore-IsUp (offset, bytes) w up e =
      let (_, still) =
        hosts.updates "restore_stable_storage" (candid.placed.encode (offset, bytes)) w up in
      subst IsUp (ap (λ x. x.1) e) still

  pub init_answered :
      (len : ℕ) (w : World) {w' : World} {reply : List ℕ}
      → IsUp w
      → call_init impl candid client len w ≡ (ok reply, w')
      → IsDone (Storage.init_stable_storage M len) (view w) (view w') × IsUp w'
  unfolding call_init
  init_answered len w {reply} up e =
      let (delivered, still) = hosts.updates "init_stable_storage" (candid.size.encode len) w up in
      let same = answered-heard delivered (ap (λ x. x.0) e) in
      let did =
        subst (Did (Storage.init_stable_storage M len) (view w)) same
          (init_call M candid is gunzip is_backup_service is_restore_service caller len (view w)) in
      (
        subst (λ x. IsDone (Storage.init_stable_storage M len) (view w) (view x)) (ap (λ x. x.1) e)
            (answered-IsDone _ (view w) _ reply did (ap (λ x. x.0) e)),
        subst IsUp (ap (λ x. x.1) e) still,
      )

  pub flag_answered :
      (w : World) {w' : World} {reply : List ℕ}
      → IsUp w
      → call_flag impl candid client w ≡ (ok reply, w')
      → view w'
        ≡ record (view w) { thread = Storage.set_restore_from_stable_storage true (view w).thread }
  unfolding call_flag
  flag_answered w up e =
      let (delivered, _) =
        hosts.updates "set_restore_from_stable_storage" (candid.flag.encode true) w up in
      let same = answered-heard delivered (ap (λ x. x.0) e) in
      elim (flag_call M candid is gunzip is_backup_service is_restore_service caller true
        (view w)) [
          | inl did ↦ ap (λ x. view x.1) (sym e) ∙ ap (λ x. x.1) (sym same) ∙ ap (λ x. x.1) did
          | inr (message, refused) ↦
              absurd (let clash = sym (ap (λ x. x.0) e) ∙ ap (λ x. x.0) (sym same ∙ refused) in cc)
        ]

-- ===== src/CanisterAgent/Client/Storage/Restores.antt =====
-- A restore that a client makes, and the upgrade of the canister behind it.
use metamagic.Prelude.{
  ℕ, ◌+◌, ◌^◌, ◌<◌, ◌≡◌, ◌≢◌, refl, ap, sym, ◌∙◌, Bool, true, Option, some, none, List, [], ◌∷◌,
  ◌++◌, length, inl, inr, ok, subst,
}
use metamagic.StableStorage.DataFormat.{DataFormatType, unknown}
use metamagic.StableStorage.Header.{Header, as_bytes, num_content_and_header_bytes}
use metamagic.StableStorage.Header.Codec.{IsValid}
use metamagic.StableStorage.Adapters.{Serde, ReadsBack, Formats, serde_of}
use metamagic.StableStorage.Memory.{StableMemory, IsLawful}
use metamagic.StableStorage.Interface.{
  Thread, set_restore_from_stable_storage, v2_save, v1_v2_restore,
}
use metamagic.StableStorage.Interface.Upgrade.{restored_thread}
use metamagic.StableStorage.Endpoints.{Candid, IsCandid, StorageCanister}
use metamagic.CanisterAgent.AgentImpl.{AgentImpl}
use metamagic.CanisterAgent.Target.{CanisterAgent}
use metamagic.CanisterAgent.Restore.{Chunk, Attempt, restore_chunks, Writes, Restores}
use metamagic.CanisterAgent.Restore.Upgrade.{stable_device, upgrade_after_restore}
use metamagic.CanisterAgent.Client.Storage.{Sends, sent, started, answered, tried, RestoresThrough}
use metamagic.CanisterAgent.Client.Storage.Hosted.{
  Hosts, restore_answered, restore_tried, restore-IsUp, init_answered, flag_answered,
}

module _ {M : StableMemory} {candid : Candid} {gunzip : List ℕ → Option (List ℕ)} {P : Type 0}
    {is_backup_service is_restore_service : P → Bool} {Agent World : Type 0}
    {impl : AgentImpl Agent World P} {client : CanisterAgent Agent P} {caller : P}
    {IsUp : World → Type 0} {view : World → StorageCanister M} (is : IsCandid candid)
    (hosts : Hosts M candid gunzip is_backup_service is_restore_service impl client caller IsUp
      view) where
  -- What the calls of a run leave.
  record Written (queue : List Chunk) (flight : List Attempt) (w w' : World) : Type 0 where
    pub memory : Writes M queue flight (view w).memory (view w').memory
    pub thread : (view w').thread ≡ (view w).thread
    pub up : IsUp w'

  Sends-Written :
      (queue : List Chunk) (flight : List Attempt) (w w' : World)
      → IsUp w
      → Sends impl candid client queue flight w w'
      → Written queue flight w w'
  Sends-Written queue flight w w' up (sent _) = record {
    memory = Writes.done _;
    thread = refl;
    up = up;
  }
  Sends-Written queue flight w w' up (started c others _ room run) =
      let rest = Sends-Written others (flight ++ (c, 6) ∷ []) w w' up run in
      record {
        memory = Writes.start c others flight room rest.memory;
        thread = rest.thread;
        up = rest.up;
      }
  Sends-Written queue flight w w' up (answered _ before after c left {w' = w₁} e run) =
      let step = restore_answered is hosts c.0 c.1 w up e in
      let rest = Sends-Written queue (before ++ after) w₁ w' (restore-IsUp is hosts c w up e) run in
      record {
        memory = Writes.finish queue before after c left step.memory rest.memory;
        thread = rest.thread ∙ step.thread;
        up = rest.up;
      }
  Sends-Written queue flight w w' up (tried _ before after c left {w' = w₁} e run) =
      let rest =
        Sends-Written queue (before ++ (c, left) ∷ after) w₁ w' (restore-IsUp is hosts c w up e)
          run in
      elim (restore_tried is hosts c.0 c.1 w up e) [
        | inl step ↦ record {
          memory = Writes.retry queue before after c left step.memory rest.memory;
          thread = rest.thread ∙ step.thread;
          up = rest.up;
        }
        | inr same ↦ record {
          memory = Writes.fail queue before after c left (
              subst (λ s. Writes M queue (before ++ (c, left) ∷ after) s.memory (view w').memory)
                same rest.memory);
          thread = rest.thread ∙ ap (λ s. s.thread) same;
          up = rest.up;
        }
      ]

  -- A restore from any offset that a client ends with success, through an agent whose updates may
  -- fail or lose their answers, is one of the memory of the canister, and it changes the thread of
  -- the canister by the flag that skips the next save alone. The calls that initialise the storage,
  -- write the header and set the flag are answered; a chunk's write that fails, or whose answer is
  -- lost, is tried again at most five times, with ten chunks under way at most.
  pub restored_through :
      (reader : List ℕ) (restore_offset : Option ℕ) (w w' : World)
      → IsUp w
      → RestoresThrough impl candid client reader restore_offset w w'
      → Restores M reader restore_offset (view w).memory (view w').memory
        × ((view w').thread ≡ set_restore_from_stable_storage true (view w).thread)
  restored_through reader restore_offset w w' up r =
      let (initialised, up₁) =
        init_answered is hosts (num_content_and_header_bytes r.header) w up r.initialised in
      let headed = restore_answered is hosts 0 (as_bytes r.header) r.w_init up₁ r.header_written in
      let up₂ = restore-IsUp is hosts (0, as_bytes r.header) r.w_init up₁ r.header_written in
      let written = Sends-Written _ [] r.w_header r.w_chunks up₂ r.chunks_written in
      let left = flag_answered is hosts r.w_chunks written.up r.flagged in
      (
        record {
          header = r.header;
          rest = r.rest;
          grown = (view r.w_init).memory;
          headed = (view r.w_header).memory;
          header_read = r.header_read;
          initialised = initialised.memory;
          header_written = headed.memory;
          chunks_read = r.chunks_read;
          chunks_written =
              subst
                (λ s.
                  Writes M (restore_chunks r.header restore_offset r.rest).1 []
                    (view r.w_header).memory s.memory)
                (sym left) written.memory;
        },
        ap (λ s. s.thread) left
            ∙ ap (set_restore_from_stable_storage true)
                (written.thread ∙ headed.thread ∙ initialised.thread),
      )

  -- Of a canister that the client's agent reaches: a backup with a valid header of a known format,
  -- and contents of the header's length that the format reads back, that a client restores is the
  -- state of the canister after its next upgrade, whatever the canister held. The save before the
  -- upgrade is skipped, whatever it is asked to save, and the restore behind it gives the contents,
  -- the header and the schema version of the backup. The updates of the agent may fail, or be made
  -- and lose their answers: in a restore that ends with success the first two calls and the last
  -- are answered, and a chunk's write is tried again at most five times, with ten chunks under way
  -- at most.
  pub moved_through :
      (L : IsLawful M) {T : Type 0} (formats : Formats T) (h : Header) (bytes : List ℕ) (t t' : T)
      (serde : Serde T) (w w' : World) (s' : Thread) (count post version : ℕ)
      (format : DataFormatType)
      → serde_of formats h.content_format ≡ some serde
      → ReadsBack serde h.content_schema_version t bytes
      → IsValid h
      → h.content_format ≢ unknown
      → length bytes ≡ h.content_length
      → 40 + h.content_length < 2 ^ 64
      → IsUp w
      → RestoresThrough impl candid client (as_bytes h ++ bytes) none w w'
      → (v2_save formats count (stable_device M (view w').memory) t' format version (view w').thread
          ≡ ok (stable_device M (view w').memory))
        × (v1_v2_restore formats post (stable_device M (view w').memory) s'
            ≡ (ok t, restored_thread post h))
  moved_through L formats h bytes t t' serde w w' s' count post version format known back valid
        named long small up r =
      let (restores, flagged) = restored_through (as_bytes h ++ bytes) none w w' up r in
      let (skips, gives) =
        upgrade_after_restore M L formats h bytes t t' serde (view w).memory (view w').memory
          (view w).thread s' count post version format known back valid named long small restores in
      (
        subst
            (λ s.
              v2_save formats count (stable_device M (view w').memory) t' format version s
              ≡ ok (stable_device M (view w').memory))
            (sym flagged) skips,
        gives,
      )

-- ===== src/CanisterAgent/Client/Storage/Possible.antt =====
-- A restore for which the memory of a canister can be initialised can be made through an agent.
use metamagic.Prelude.{
  ℕ, ◌+◌, ◌*◌, ◌^◌, ◌<◌, ◌≤◌, ◌≡◌, ◌≢◌, refl, ap, ◌∙◌, arith, String, Bool, true, Option, none,
  List, [], ◌∷◌, ◌++◌, length, ok, All,
}
use metamagic.StableStorage.Header.{Header, as_bytes, num_content_and_header_bytes}
use metamagic.StableStorage.DataFormat.{unknown}
use metamagic.StableStorage.Header.Codec.{IsValid}
use metamagic.StableStorage.Interface.Blocks.{restore_stable_storage-ok}
use metamagic.StableStorage.Memory.{StableMemory, IsLawful, page_size}
use metamagic.StableStorage.Interface as Storage
use metamagic.StableStorage.Endpoints.{Candid, IsCandid, StorageCanister, update_call}
use metamagic.StableStorage.Endpoints.Calls.{restore_call-ok, init_call-ok, flag_call-ok}
use metamagic.CanisterAgent.AgentImpl.{AgentImpl}
use metamagic.CanisterAgent.Target.{CanisterAgent}
use metamagic.CanisterAgent.Restore.{Chunk, restore_chunks}
use metamagic.CanisterAgent.Restore.Cycle.{restore-Begins}
use metamagic.CanisterAgent.Client.{Reply, update}
use metamagic.CanisterAgent.Client.Storage.{
  Sends, sent, started, answered, RestoresThrough, call_restore, call_init, call_flag,
}
use metamagic.CanisterAgent.Client.Storage.Hosted.{Hosts}

-- The agent loses no update: each is answered as the canister's method answers it.
pub record IsReliable (M : StableMemory) (candid : Candid) (gunzip : List ℕ → Option (List ℕ))
    {P : Type 0} (is_backup_service is_restore_service : P → Bool) {Agent World : Type 0}
    (impl : AgentImpl Agent World P) (client : CanisterAgent Agent P) (caller : P)
    (IsUp : World → Type 0) (view : World → StorageCanister M) : Type 0 where
  pub answered :
      (method : String) (args : List ℕ) (w : World)
      → IsUp w
      → ((update impl client method args w).0, view (update impl client method args w).1)
        ≡ update_call M candid gunzip is_backup_service is_restore_service caller method args
            (view w)

module _ {M : StableMemory} {candid : Candid} {gunzip : List ℕ → Option (List ℕ)} {P : Type 0}
    {is_backup_service is_restore_service : P → Bool} {Agent World : Type 0}
    {impl : AgentImpl Agent World P} {client : CanisterAgent Agent P} {caller : P}
    {IsUp : World → Type 0} {view : World → StorageCanister M} (is : IsCandid candid)
    (hosts : Hosts M candid gunzip is_backup_service is_restore_service impl client caller IsUp
      view)
    (reliable : IsReliable M candid gunzip is_backup_service is_restore_service impl client caller
      IsUp view)
    (allowed : is_restore_service caller ≡ true) where
  -- A call that is answered, and the canister that it leaves.
  pub record Answers (call : World → Reply × World) (w : World) (m : M.Mem) : Type 0 where
    pub left : World
    pub reply : List ℕ
    pub answer_is : call w ≡ (ok reply, left)
    pub memory : (view left).memory ≡ m
    pub up : IsUp left

  -- What the canister's method answers, the client's call does.
  update-Answers :
      (method : String) (args : List ℕ) (w : World) {reply : List ℕ} {s : StorageCanister M}
      → IsUp w
      → update_call M candid gunzip is_backup_service is_restore_service caller method args (view w)
        ≡ (ok reply, s)
      → Answers (update impl client method args) w s.memory
  update-Answers method args w {reply} up e =
      let same = reliable.answered method args w up ∙ e in
      let (_, still) = hosts.updates method args w up in
      record {
        left = (update impl client method args w).1;
        reply = reply;
        answer_is = ap (λ r. (r, (update impl client method args w).1)) (ap (λ x. x.0) same);
        memory = ap (λ x. x.memory) (ap (λ x. x.1) same);
        up = still;
      }

  pub restore-Answers :
      (c : Chunk) (w : World) (m m' : M.Mem)
      → IsUp w
      → (view w).memory ≡ m
      → Storage.restore_stable_storage M c.0 c.1 m ≡ ok m'
      → Answers (call_restore impl candid client c) w m'
  unfolding call_restore
  restore-Answers (offset, bytes) w m m' up same e =
      update-Answers "restore_stable_storage" (candid.placed.encode (offset, bytes)) w up (
        restore_call-ok M candid is gunzip is_backup_service is_restore_service caller (view w)
          allowed offset bytes m' (ap (Storage.restore_stable_storage M offset bytes) same ∙ e))

  -- Chunks that fit can be sent, one after the other.
  Sends-exist :
      (L : IsLawful M) (cs : List Chunk) (len : ℕ) (w : World)
      → IsUp w
      → len ≤ M.pages (view w).memory * page_size
      → All (λ c. c.0 + length c.1 ≤ len) cs
      → (w' : World) × Sends impl candid client cs [] w w' × IsUp w'
  Sends-exist L [] len w up fits inside = (w, sent w, up)
  Sends-exist L (c ∷ cs) len w up fits (here, inside) =
      let (m, e, p, _) = restore_stable_storage-ok M L c.0 c.1 (view w).memory (omega arith) in
      let a = restore-Answers c w (view w).memory m up refl e in
      let (w', run, still) =
        Sends-exist L cs len a.left a.up (omega (arith, p, ap M.pages a.memory)) inside in
      (w', started c cs [] (omega arith) (answered cs [] [] c 5 a.answer_is run), still)

  pub init-Answers :
      (len : ℕ) (w : World) (m : M.Mem)
      → IsUp w
      → Storage.init_stable_storage M len (view w).memory ≡ ok m
      → Answers (call_init impl candid client len) w m
  unfolding call_init
  init-Answers len w m up e = update-Answers "init_stable_storage" (candid.size.encode len) w up (
      init_call-ok M candid is gunzip is_backup_service is_restore_service caller (view w) allowed
        len m e)

  pub flag-Answers : (w : World) → IsUp w → Answers (call_flag impl candid client) w (view w).memory
  unfolding call_flag
  flag-Answers w up =
      update-Answers "set_restore_from_stable_storage" (candid.flag.encode true) w up (
        flag_call-ok M candid is gunzip is_backup_service is_restore_service caller (view w) allowed
          true)

  -- Where the memory of the canister can be initialised for a backup with a valid header of a known
  -- format and contents of the header's length, a client whose caller passes the guard, through an
  -- agent that reaches the canister and loses no update, can make a restore of the backup from its
  -- first call to its last, and it ends with success.
  pub restores_through :
      (L : IsLawful M) (h : Header) (bytes : List ℕ) (w : World) (grown : M.Mem)
      → IsValid h
      → h.content_format ≢ unknown
      → length bytes ≡ h.content_length
      → 40 + h.content_length < 2 ^ 64
      → Storage.init_stable_storage M (40 + h.content_length) (view w).memory ≡ ok grown
      → IsUp w
      → (w' : World) × RestoresThrough impl candid client (as_bytes h ++ bytes) none w w' × IsUp w'
  restores_through L h bytes w grown valid known long small e up =
      let b = restore-Begins M L h bytes (view w).memory grown valid known long small e in
      let first = init-Answers (num_content_and_header_bytes b.header) w b.grown up b.initialised in
      let second =
        restore-Answers (0, as_bytes b.header) first.left b.grown b.headed first.up first.memory
          b.header_written in
      let (w_chunks, run, up') =
        Sends-exist L (restore_chunks b.header none b.rest).1 b.len second.left second.up
          (omega (arith, b.fits, ap M.pages second.memory)) b.inside in
      let last = flag-Answers w_chunks up' in
      (
        last.left,
        record {
          header = b.header;
          rest = b.rest;
          w_init = first.left;
          w_header = second.left;
          w_chunks = w_chunks;
          reply_init = first.reply;
          reply_header = second.reply;
          reply_flag = last.reply;
          header_read = b.header_read;
          initialised = first.answer_is;
          header_written = second.answer_is;
          chunks_read = b.chunks_read;
          chunks_written = run;
          flagged = last.answer_is;
        },
        last.up,
      )

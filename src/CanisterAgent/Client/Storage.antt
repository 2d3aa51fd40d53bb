-- ===== src/CanisterAgent/Client/Storage.antt =====
-- stable_storage_restore_backup.rs once more, now with the calls as they are made: encoded by
-- candid and sent through the client's agent to a canister with the methods of the storage.
pub mod Hosted
pub mod Backups
pub mod Restores
pub mod Possible
pub mod Machine
pub mod Lossy
mod Tests
use metamagic.Prelude.{
  ℕ, suc, ◌<◌, ◌≡◌, Bool, length, true, Option, none, some, String, List, [], ◌∷◌, ◌++◌, Outcome,
  ok, err, panic, ◌>>=◌, map_err, ok_or,
}
use metamagic.StableStorage.Header as StorageHeader
use metamagic.StableStorage.Header.{Header, new_from_reader, as_bytes, num_content_and_header_bytes}
use metamagic.StableStorage.Transient.{Transient}
use metamagic.StableStorage.Endpoints.{Codec, Candid}
use metamagic.CanisterAgent.AgentImpl.{AgentImpl}
use metamagic.CanisterAgent.Target.{CanisterAgent}
use metamagic.CanisterAgent.Client.{Reply, update, query}
use metamagic.CanisterAgent.Backup as BackupModule
use metamagic.CanisterAgent.Backup.{Query}
use metamagic.CanisterAgent.Restore.{Chunk, Attempt, max_in_flight, max_attempts, restore_chunks}

-- A reply decoded; every failure is an error of the agent.
abbrev pub reply_of : {A : Type 0} → Codec A → Reply → Outcome BackupModule.Error A
reply_of c reply = do
  bytes ← map_err (λ _. BackupModule.agent) reply
  ok_or (c.decode bytes) BackupModule.agent

module _ {Agent World P : Type 0} (impl : AgentImpl Agent World P) (candid : Candid)
    (client : CanisterAgent Agent P) where
  unfoldable pub get_stable_storage_info : World → Outcome BackupModule.Error (Header × Transient)
  get_stable_storage_info world =
      reply_of candid.info
        (query impl client "stable_storage_info" (candid.nothing.encode tt) world).0

  -- The query of `backup_stable_storage_chunk`.
  unfoldable pub chunk_query : World → Query
  chunk_query world offset limit =
      reply_of candid.blob
        (query impl client "backup_stable_storage" (candid.range.encode (offset, limit)) world).0

  -- A backup of a canister that nothing else changes meanwhile: queries leave it as it is.
  unfoldable pub backup_through : World → Outcome BackupModule.Error (Unit {0}) × List ℕ
  backup_through world =
      BackupModule.backup_stable_storage (do (header, _) ← get_stable_storage_info world; ok header)
        (chunk_query world)

  unfoldable pub call_init : ℕ → World → Reply × World
  call_init len world = update impl client "init_stable_storage" (candid.size.encode len) world

  -- `restore`
  unfoldable pub call_restore : Chunk → World → Reply × World
  call_restore (offset, bytes) world =
      update impl client "restore_stable_storage" (candid.placed.encode (offset, bytes)) world

  unfoldable pub call_flag : World → Reply × World
  call_flag world =
      update impl client "set_restore_from_stable_storage" (candid.flag.encode true) world

  -- The calls that write the chunks, in a run in which each chunk is at last answered: `queue` is
  -- what the stream has yet to give, in its order, and `flight` is what is under way, of which any
  -- may be next. A call that gives an error takes one of the chunk's attempts. A call takes effect,
  -- if it does, before it returns.
  pub data Sends : List Chunk → List Attempt → World → World → Type 0 where
    sent : (w : World) → Sends [] [] w w
    started :
        (c : Chunk) (queue : List Chunk) (flight : List Attempt) {w w' : World}
        → length flight < max_in_flight
        → Sends queue (flight ++ (c, max_attempts) ∷ []) w w'
        → Sends (c ∷ queue) flight w w'
    answered :
        (queue : List Chunk) (before after : List Attempt) (c : Chunk) (left : ℕ) {reply : List ℕ}
        {w w' w'' : World}
        → call_restore c w ≡ (ok reply, w')
        → Sends queue (before ++ after) w' w''
        → Sends queue (before ++ (c, suc left) ∷ after) w w''
    tried :
        (queue : List Chunk) (before after : List Attempt) (c : Chunk) (left : ℕ) {e : String}
        {w w' w'' : World}
        → call_restore c w ≡ (err e, w')
        → Sends queue (before ++ (c, left) ∷ after) w' w''
        → Sends queue (before ++ (c, suc left) ∷ after) w w''

  -- `restore_stable_storage` from its first call to its last, where it succeeds.
  pub record RestoresThrough (reader : List ℕ) (restore_offset : Option ℕ) (w w' : World)
      : Type 0 where
    pub header : Header
    pub rest : List ℕ
    pub w_init : World
    pub w_header : World
    pub w_chunks : World
    pub reply_init : List ℕ
    pub reply_header : List ℕ
    pub reply_flag : List ℕ
    pub header_read : new_from_reader reader ≡ ok (header, rest)
    pub initialised : call_init (num_content_and_header_bytes header) w ≡ (ok reply_init, w_init)
    pub header_written : call_restore (0, as_bytes header) w_init ≡ (ok reply_header, w_header)
    pub chunks_read : (restore_chunks header restore_offset rest).0 ≡ ok tt
    pub chunks_written : Sends (restore_chunks header restore_offset rest).1 [] w_header w_chunks
    pub flagged : call_flag w_chunks ≡ (ok reply_flag, w')

-- ===== src/CanisterAgent/Restore.antt =====
-- stable_storage_restore_backup.rs: the restore of a canister's stable storage from a reader. The
-- updates that write chunks run ten at a time, in no fixed order, and are retried five times: a run
-- of them is a relation.
pub mod Chunks
pub mod Runs
pub mod RoundTrip
pub mod Cycle
pub mod Upgrade
use metamagic.Prelude.{
  ℕ, zero, suc, ◌+◌, ◌-◌, ◌*◌, ◌/◌, ◌<◌, ◌≡◌, min, Bool, true, false, Option, none, some, List, [],
  ◌∷◌, ◌++◌, length, Outcome, ok, err, panic,
}
use mathlib.Core.Option
use metamagic.Prelude.Word.{sub64}
use metamagic.StableStorage.Header as StorageHeader
use metamagic.StableStorage.Header.{
  Header, read_exact, new_from_reader, as_bytes, num_content_and_header_bytes,
}
use metamagic.StableStorage.Memory.{StableMemory}
use metamagic.StableStorage.Interface.{init_stable_storage, restore_stable_storage}

abbrev pub restore_chunk_size : ℕ
restore_chunk_size = 2096000

-- A chunk with the offset it is written at.
abbrev pub Chunk : Type 0
Chunk = ℕ × List ℕ

-- `(restore_offset..len).step_by(RESTORE_CHUNK_SIZE)` has so many offsets.
abbrev pub num_chunks : ℕ → ℕ → ℕ
num_chunks restore_offset len =
    (len - restore_offset + (restore_chunk_size - 1)) / restore_chunk_size

abbrev pub Stream : Type 0
Stream = Outcome StorageHeader.Error (Unit {0}) × List Chunk

-- A chunk that was read is followed by the others; an error ends the stream.
unfoldable pub chunk_then :
    (List ℕ → Stream) → ℕ → Outcome StorageHeader.Error (List ℕ × List ℕ) → Stream
chunk_then others offset (ok (buf, rest)) =
    let stream = others rest in (stream.0, (offset, buf) ∷ stream.1)
chunk_then others offset (err e) = (err e, [])
chunk_then others offset panic = (panic, [])

-- The stream of chunks: those that were read, and whether the reader gave out.
unfoldable pub chunks : ℕ → ℕ → ℕ → ℕ → List ℕ → Stream
chunks content_length header_bytes_len zero offset reader = (ok tt, [])
chunks content_length header_bytes_len (suc count) offset reader =
    let size = min restore_chunk_size (sub64 content_length (sub64 offset header_bytes_len)) in
    chunk_then (chunks content_length header_bytes_len count (offset + restore_chunk_size)) offset
      (read_exact size reader)

-- A chunk whose write is under way, with the attempts that are left for it.
abbrev pub Attempt : Type 0
Attempt = Chunk × ℕ

-- `try_buffer_unordered(10)`
abbrev pub max_in_flight : ℕ
max_in_flight = 10

-- `Retry::spawn` makes one attempt and, with `take(5)`, five more.
abbrev pub max_attempts : ℕ
max_attempts = 6

-- What the writes of the chunks do to the memory, in a run in which each of them is at last
-- answered: `queue` is what the stream has yet to give, in its order, and `flight` is what is under
-- way, of which any may be next. An attempt is answered; or it is made but its answer is lost; or
-- it fails. The last two take one of the chunk's attempts.
pub data Writes (M : StableMemory) : List Chunk → List Attempt → M.Mem → M.Mem → Type 0 where
  done : (m : M.Mem) → Writes M [] [] m m
  start :
      (c : Chunk) (queue : List Chunk) (flight : List Attempt) {m m' : M.Mem}
      → length flight < max_in_flight
      → Writes M queue (flight ++ (c, max_attempts) ∷ []) m m'
      → Writes M (c ∷ queue) flight m m'
  finish :
      (queue : List Chunk) (before after : List Attempt) (c : Chunk) (left : ℕ) {m m' m'' : M.Mem}
      → restore_stable_storage M c.0 c.1 m ≡ ok m'
      → Writes M queue (before ++ after) m' m''
      → Writes M queue (before ++ (c, suc left) ∷ after) m m''
  retry :
      (queue : List Chunk) (before after : List Attempt) (c : Chunk) (left : ℕ) {m m' m'' : M.Mem}
      → restore_stable_storage M c.0 c.1 m ≡ ok m'
      → Writes M queue (before ++ (c, left) ∷ after) m' m''
      → Writes M queue (before ++ (c, suc left) ∷ after) m m''
  fail :
      (queue : List Chunk) (before after : List Attempt) (c : Chunk) (left : ℕ) {m m' : M.Mem}
      → Writes M queue (before ++ (c, left) ∷ after) m m'
      → Writes M queue (before ++ (c, suc left) ∷ after) m m'

-- The chunks that a backup is restored in.
unfoldable pub restore_chunks : Header → Option ℕ → List ℕ → Stream
restore_chunks header restore_offset reader =
    let len = num_content_and_header_bytes header in
    let header_bytes_len = length (as_bytes header) in
    let start = Option.get_or restore_offset header_bytes_len in
    chunks header.content_length header_bytes_len (num_chunks start len) start reader

-- A restore that succeeds: the header is read, the storage is initialised, the header is written,
-- and the chunks are written in a run.
pub record Restores (M : StableMemory) (reader : List ℕ) (restore_offset : Option ℕ) (m m' : M.Mem)
    : Type 0 where
  pub header : Header
  pub rest : List ℕ
  pub grown : M.Mem
  pub headed : M.Mem
  pub header_read : new_from_reader reader ≡ ok (header, rest)
  pub initialised : init_stable_storage M (num_content_and_header_bytes header) m ≡ ok grown
  pub header_written : restore_stable_storage M 0 (as_bytes header) grown ≡ ok headed
  pub chunks_read : (restore_chunks header restore_offset rest).0 ≡ ok tt
  pub chunks_written : Writes M (restore_chunks header restore_offset rest).1 [] headed m'

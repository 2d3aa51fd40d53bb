-- ===== src/CanisterAgent/Backup.antt =====
-- stable_storage_restore_backup.rs: the backup of a canister's stable storage in chunks.
pub mod Chunks
use metamagic.Prelude.{
  ℕ, zero, suc, ◌+◌, ◌-◌, ◌*◌, ◌/◌, min, Bool, true, false, Option, none, some, List, [], ◌∷◌, ◌++◌,
  length, Outcome, ok, err, panic, ◌>>=◌, leb, eqb, if◌then◌else◌, ◌==◌,
}
use metamagic.Prelude.Word.{add64}
use metamagic.StableStorage.DataFormat.{DataFormatType, unknown, format_eq}
use metamagic.StableStorage.Header.{Header, num_all_fields_bytes}

abbrev pub backup_chunk_size : ℕ
backup_chunk_size = 1024 * 1024 * 5 / 2

-- `ErrorKind`, and the errors of the agent, which it boxes.
pub data Error : Type 0 where
  backup_length_mismatch : ℕ → ℕ → Error
  canister_stable_storage_not_initialized : Error
  agent : Error

-- The query `backup_stable_storage` of the canister with an offset and a limit, and its answer.
abbrev pub Query : Type 0
Query = ℕ → ℕ → Outcome Error (List ℕ)

unfoldable pub backup_stable_storage_chunk : Query → ℕ → ℕ → Outcome Error (List ℕ)
backup_stable_storage_chunk query offset len =
    if leb len offset then ok [] else query offset (min backup_chunk_size (len - offset))

-- The chunks `idx`, `idx + 1`, … are queried ten at a time and forwarded in their order; the first
-- error ends the stream. What was forwarded comes with the answer.
unfoldable pub forward : Query → ℕ → ℕ → ℕ → List ℕ → Outcome Error (Unit {0}) × List ℕ
forward query len zero idx written = (ok tt, written)
forward query len (suc count) idx written =
    elim (backup_stable_storage_chunk query (idx * backup_chunk_size) len) [
      | ok item ↦ forward query len count (idx + 1) (written ++ item)
      | err e ↦ (err e, written)
      | panic ↦ (panic, written)
    ]

-- The check after the stream.
unfoldable pub check_length :
    ℕ → Outcome Error (Unit {0}) × List ℕ → Outcome Error (Unit {0}) × List ℕ
check_length len (ok _, written) =
    if eqb (length written) len
    then (ok tt, written)
    else (err (backup_length_mismatch len (length written)), written)
check_length len (err e, written) = (err e, written)
check_length len (panic, written) = (panic, written)

-- The header is the answer to `stable_storage_info`; the writer is the bytes that it was given.
unfoldable pub backup_stable_storage :
    Outcome Error Header → Query → Outcome Error (Unit {0}) × List ℕ
backup_stable_storage (ok header) query =
    if header.content_format == unknown
    then (err canister_stable_storage_not_initialized, [])
    else (let len = add64 (num_all_fields_bytes header) header.content_length in
        check_length len (forward query len (len / backup_chunk_size + 1) 0 []))
backup_stable_storage (err e) query = (err e, [])
backup_stable_storage panic query = (panic, [])

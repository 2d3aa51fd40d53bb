-- ===== src/StableStorage/Interface.antt =====
-- interface.rs: the stable storage of a canister. A canister's thread holds the header, the
-- transient part and the schema version of migration.rs.
pub mod Save
pub mod Blocks
pub mod Upgrade
use metamagic.Prelude.{
  ℕ, ◌+◌, ◌-◌, ◌*◌, ◌/◌, Bool, true, false, List, [], ◌∷◌, length, Option, none, some, Outcome, ok,
  err, panic, ◌>>=◌, or_panic, ltb, if◌then◌else◌,
}
use metamagic.Prelude.Word.{add64}
use metamagic.CanisterIo.{Device}
use metamagic.StableStorage.DataFormat.{DataFormatType}
use metamagic.StableStorage.Header.{Header, default_header}
use metamagic.StableStorage.Errors.{Error}
use metamagic.StableStorage.Transient.{Transient, default_transient}
use metamagic.StableStorage.Adapters.{Formats}
use metamagic.StableStorage.V1
use metamagic.StableStorage.V2
use metamagic.StableStorage.Memory.{StableMemory, page_size}

-- The thread locals `HEADER`, `TRANSIENT` and `STORED_SCHEMA_VERSION`.
pub record Thread : Type 0 where
  pub header : Header
  pub transient : Transient
  pub stored_schema_version : ℕ

abbrev pub init : Thread
init = record { header = default_header; transient = default_transient; stored_schema_version = 0 }

unfoldable pub stable_storage_info : Thread → Header × Transient
stable_storage_info s = (s.header, s.transient)

pub set_restore_from_stable_storage : Bool → Thread → Thread
set_restore_from_stable_storage flag s = record s {
  transient = record s.transient { skip_next_save = flag };
}

-- The writer and the reader are `StableWriter` and `StableReader` at the start of stable memory. A
-- save gives the device that is left; it changes no thread local.
module _ {T : Type 0} (formats : Formats T) where
  pub v1_save : Device → T → Outcome Error Device
  v1_save = V1.save formats

  pub v2_save : ℕ → Device → T → DataFormatType → ℕ → Thread → Outcome Error Device
  v2_save count writer t format version s =
      V2.save formats count writer t
        (record s.header { content_format = format; content_schema_version = version }) s.transient

  -- What a restore leaves in the thread; a failed one keeps the header and the transient part.
  pub keep : Outcome Error (Header × Transient × T) → Thread → Outcome Error T × Thread
  keep (ok (header, transient, t)) s = (ok t, record s { header = header; transient = transient })
  keep (err e) s = (err e, s)
  keep panic s = (panic, s)

  pub v1_restore : ℕ → Device → Thread → Outcome Error T × Thread
  unfolding keep
  v1_restore count reader s = keep (V1.restore formats count reader s.stored_schema_version) s

  pub v2_restore : ℕ → Device → Thread → Outcome Error T × Thread
  unfolding keep
  v2_restore count reader s =
      let restored = V2.restore formats count reader s.stored_schema_version in
      keep restored.0 (record s { stored_schema_version = restored.1 })

  -- Any error of v2 is followed by v1, from the start of the storage; a panic is not.
  pub fall_back : ℕ → Device → Outcome Error T × Thread → Outcome Error T × Thread
  fall_back count reader (ok t, s) = (ok t, s)
  fall_back count reader (err e, s) = v1_restore count reader s
  fall_back count reader (panic, s) = (panic, s)

  pub v1_v2_restore : ℕ → Device → Thread → Outcome Error T × Thread
  unfolding fall_back
  v1_v2_restore count reader s = fall_back count reader (v2_restore count reader s)

module _ (M : StableMemory) where
  open M use {Mem, pages, grow, read, write}

  -- A trap is a panic.
  pub backup_stable_storage : ℕ → ℕ → Mem → Outcome ⊥ (List ℕ)
  backup_stable_storage offset limit m = or_panic (read offset limit m)

  unfoldable pub init_stable_storage : ℕ → Mem → Outcome ⊥ Mem
  init_stable_storage len m =
      let page_count = len / page_size + 1 in
      if ltb (pages m) page_count then or_panic (grow page_count m) else ok m

  pub restore_stable_storage : ℕ → List ℕ → Mem → Outcome ⊥ Mem
  restore_stable_storage offset bytes m = or_panic (write offset bytes m)

  -- `gunzip` is `GzDecoder` of the flate2 crate; its errors are unwrapped.
  pub restore_stable_storage_compressed :
      (List ℕ → Option (List ℕ)) → ℕ → List (List ℕ) → Mem → Outcome ⊥ Mem
  restore_stable_storage_compressed gunzip offset [] m = ok m
  restore_stable_storage_compressed gunzip offset (bytes ∷ rest) m = do
    read_buffer ← or_panic (gunzip bytes)
    m' ← restore_stable_storage offset read_buffer m
    restore_stable_storage_compressed gunzip (add64 offset (length read_buffer)) rest m'

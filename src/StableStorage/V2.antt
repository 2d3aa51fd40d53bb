-- ===== src/StableStorage/V2.antt =====
-- v2.rs: a header, and behind it the contents in the format that the header names.
pub mod RoundTrip
pub mod Frame
use metamagic.Prelude.{
  ℕ, ◌+◌, ◌-◌, Bool, Option, none, some, Outcome, ok, err, panic, ◌>>=◌, map_err, ok_or,
  if◌then◌else◌, length,
}
use metamagic.Prelude.Word.{add64, sub64}
use metamagic.CanisterIo.{Device, seek_start, write_all, remaining, advance}
use metamagic.StableStorage.DataFormat.{DataFormatType, unknown, msg_pack, bincode, as_u64}
use metamagic.StableStorage.Header
use metamagic.StableStorage.Header.{
  Header, invalid_content_format, new_from_reader, as_bytes, num_all_fields_bytes, u64_size,
}
use metamagic.StableStorage.Errors.{Error, header}
use metamagic.StableStorage.Transient.{Transient, default_transient}
use metamagic.StableStorage.Adapters.{
  Formats, msg_pack_serialize, msg_pack_deserialize, bincode_serialize, bincode_deserialize,
}

-- `Header::write`
write_header : Header → Device → Outcome Error Device
write_header h writer = ok_or (write_all (as_bytes h) writer) (header (Header.io))

-- `Header::new_from_reader` on a device: the position moves by the bytes that were taken.
read_header : Device → Outcome Error (Header × Device)
read_header reader = do
  (h, rest) ← map_err header (new_from_reader (remaining reader))
  ok (h, advance (length (remaining reader) - length rest) reader)

module _ {T : Type 0} (formats : Formats T) where
  serialize_content : DataFormatType → Device → T → Outcome Error Device
  serialize_content msg_pack writer t = msg_pack_serialize formats writer t
  serialize_content bincode writer t = bincode_serialize formats writer t
  serialize_content f writer t = err (header (invalid_content_format (as_u64 f)))

  deserialize_content : DataFormatType → Device → ℕ → Outcome Error (T × Device)
  deserialize_content msg_pack reader version = msg_pack_deserialize formats reader version
  deserialize_content bincode reader version = bincode_deserialize formats reader version
  deserialize_content f reader version = err (header (invalid_content_format (as_u64 f)))

  -- `count` is the reading of the instruction counter that goes into the header.
  pub save : ℕ → Device → T → Header → Transient → Outcome Error Device
  save count writer t h transient = if transient.skip_next_save then ok writer else (do
    let header_len = num_all_fields_bytes h
    let start_pos = writer.position
    content ← serialize_content h.content_format (seek_start (add64 start_pos header_len) writer) t
    write_header
        (record h {
          content_length = sub64 (sub64 content.position start_pos) header_len;
          pre_upgrade_instruction_count = count;
        })
        (seek_start start_pos content))

  -- What is restored once the header is read. A content length other than the header's is only
  -- warned of.
  restore_content : ℕ → Header × Device → Outcome Error (Header × Transient × T)
  restore_content count (h, reader) = do
    (t, _) ← deserialize_content h.content_format reader h.content_schema_version
    ok (h, record default_transient { post_upgrade_instruction_count = count }, t)

  -- The result, and the schema version that the thread holds afterwards: it is set as soon as the
  -- header is read, also where the contents are then refused.
  pub restore : ℕ → Device → ℕ → Outcome Error (Header × Transient × T) × ℕ
  restore count reader version = elim (read_header reader) [
    | ok read ↦ (restore_content count read, read.0.content_schema_version)
    | err e ↦ (err e, version)
    | panic ↦ (panic, version)
  ]

-- ===== src/StableStorage/Tests.antt =====
-- Runs of the stable storage on small inputs.
use metamagic.StableStorage.Errors.{Error}
use metamagic.StableStorage.Adapters.Bytes.{
  serde_serialize_bytes, serde_deserialize_bytes, serde_bytes_lem,
}
use metamagic.StableStorage.Header.Async.Pieces.{pieces, pieces-IsExact, Pieces}
use metamagic.StableStorage.Header.Async.{
  with_contents, new_from_reader_async, new_from_reader_async_lem,
}
use metamagic.Prelude.{
  ℕ, ◌+◌, ◌≡◌, refl, arith, false, none, some, List, [], ◌∷◌, ◌++◌, Outcome, ok, err, panic, ltb,
  if◌then◌else◌, drop, String, sym, append-nil, ◌/◌, ◌*◌, ◌≤◌, ◌⊎◌,
}
use metamagic.CanisterIo.{Device, seek_start, remaining}
use metamagic.StableStorage.DataFormat.{msg_pack, from_u64, unknown}
use metamagic.StableStorage.Header as HeaderModule
use metamagic.StableStorage.Header.{
  Header, default_header, new_from_reader, as_bytes, words, num_fields, invalid_content_format,
  invalid_header_length,
}
use metamagic.StableStorage.Header.Codec.{
  IsValid, new_from_reader-as_bytes, new_from_reader_unknown, new_from_reader_truncated,
}
use metamagic.StableStorage.Transient.{default_transient}
use metamagic.StableStorage.Adapters.{Serde, Formats}
use metamagic.StableStorage.V2
use metamagic.StableStorage.V2.RoundTrip.{restore-save}
use metamagic.StableStorage.Interface.{init, v1_save, v2_save, v1_v2_restore, init_stable_storage}
use metamagic.StableStorage.Interface.Save.{
  v1_v2_restore-v2_save, v1_v2_restore-v1_save, v1_v2_restore_panics,
}
use metamagic.StableStorage.Interface.Blocks.{init_stable_storage_lem}
use metamagic.StableStorage.Memory.{page_size, bytes_from}
use metamagic.StableStorage.Memory.Paged.{Pages, paged, paged-IsLawful}
use metamagic.StableStorage.Migration.{
  Deserialize, migration_error, deserialize_try_into_if_lt_version,
}
use metamagic.StableStorage.Migration.Upgrade.{Reads, try_converted}

-- A number as one byte.
abbrev one_byte : Serde ℕ
one_byte = record {
  encode = λ n. some (n ∷ []);
  decode = λ version bytes. elim bytes [ [] ↦ none | b ∷ _ ↦ some (b, 1) ];
}

abbrev formats : Formats ℕ
formats = record { rmp_serde = one_byte; bincode_crate = one_byte }

abbrev empty_device : Device
empty_device = record { bytes = []; position = 0; room = 100 }

abbrev a_header : Header
a_header = record {
  header_length = 4;
  content_length = 1;
  content_format = msg_pack;
  content_schema_version = 3;
  pre_upgrade_instruction_count = 9;
}

a_header-IsValid : IsValid a_header
a_header-IsValid = record {
  content_length = omega arith;
  content_schema_version = omega arith;
  pre_upgrade_instruction_count = omega arith;
}

new_from_reader-as_bytes_example :
    new_from_reader (as_bytes a_header ++ 7 ∷ []) ≡ ok (a_header, 7 ∷ [])
new_from_reader-as_bytes_example =
    new_from_reader-as_bytes a_header (7 ∷ []) a_header-IsValid (λ e. cc)

new_from_reader_unknown_example :
    new_from_reader (words (4 ∷ 0 ∷ 8 ∷ 2 ∷ 6 ∷ []) ++ []) ≡ err (invalid_content_format 6)
new_from_reader_unknown_example =
    new_from_reader_unknown 0 8 2 6 []
      (omega arith, (omega arith, (omega arith, (omega arith, tt)))) (unfold from_u64 in refl)

restore-save_example :
    (w' : Device) × (V2.save formats 9 empty_device 7
        (record a_header { content_length = 0 })
        default_transient
      ≡ ok w')
    × (V2.restore formats 11 (seek_start 0 w') 0 ≡ (
      ok (a_header, record { skip_next_save = false; post_upgrade_instruction_count = 11 }, 7),
      3,
    ))
restore-save_example =
    restore-save formats one_byte 7 (7 ∷ []) 9 11 0 empty_device
      (record a_header { content_length = 0 }) default_transient refl (refl, λ rest. refl) refl
      (omega arith) (omega arith) (omega arith) (omega arith)

v1_v2_restore-v2_save_example :
    (w' : Device) × (v2_save formats 9 empty_device 7 msg_pack 3 init ≡ ok w')
    × (v1_v2_restore formats 11 (seek_start 0 w') init ≡ (
      ok 7,
      record {
        header = a_header;
        transient = record { skip_next_save = false; post_upgrade_instruction_count = 11 };
        stored_schema_version = 3;
      },
    ))
v1_v2_restore-v2_save_example =
    v1_v2_restore-v2_save formats 9 11 3 empty_device 7 msg_pack init init one_byte (7 ∷ []) refl
      (refl, λ rest. refl) refl (omega arith) (omega arith) (omega arith) (omega arith)

-- One byte is too short for a header.
v1_v2_restore-v1_save_example :
    (w' : Device) × (v1_save formats empty_device 7 ≡ ok w')
    × (v1_v2_restore formats 11 (seek_start 0 w') init ≡ (
      ok 7,
      record init {
        header = record default_header { content_length = 1; content_format = msg_pack };
        transient = record { skip_next_save = false; post_upgrade_instruction_count = 11 };
      },
    ))
v1_v2_restore-v1_save_example =
    v1_v2_restore-v1_save formats 11 empty_device 7 init (7 ∷ []) HeaderModule.io
      (refl, λ rest. refl) (omega arith) too_short
  where
    too_short : new_from_reader (7 ∷ []) ≡ err HeaderModule.io
    too_short = new_from_reader_truncated (7 ∷ []) (omega arith)

v1_v2_restore_panics_example :
    v1_v2_restore formats 11 (record { bytes = words (1 ∷ 77 ∷ []); position = 0; room = 100 }) init
    ≡ (panic, init)
v1_v2_restore_panics_example =
    v1_v2_restore_panics formats 11
      (record { bytes = words (1 ∷ 77 ∷ []); position = 0; room = 100 }) init (77 ∷ []) [] rem
      (omega arith, tt) (omega arith)
  where
    rem :
        remaining (record { bytes = words (1 ∷ 77 ∷ []); position = 0; room = 100 })
        ≡ words (1 ∷ 77 ∷ []) ++ []
    rem = unfold remaining in sym (append-nil (words (1 ∷ 77 ∷ [])))

abbrev no_pages : Pages
no_pages = record { count = 0; cell = λ _. 0 }

abbrev one_page : Pages
one_page = record { count = 1; cell = λ _. 0 }

init_stable_storage_lem_example :
    (43 ≤ 1 * page_size)
    × (1 ≡ (if ltb 0 (43 / page_size + 1) then 0 + (43 / page_size + 1) else 0))
    × (bytes_from (λ _. 0) 0 (0 * page_size) ≡ bytes_from (λ _. 0) 0 (0 * page_size))
init_stable_storage_lem_example =
    init_stable_storage_lem paged paged-IsLawful 43 no_pages one_page grows
  where
    grows : init_stable_storage paged 43 no_pages ≡ ok one_page
    grows = unfold init_stable_storage in refl

abbrev write_byte : ℕ → List ℕ
write_byte n = n ∷ []

abbrev read_byte : Deserialize ℕ
read_byte [] = err "end of input"
read_byte (b ∷ rest) = ok (b, rest)

read_byte-Reads : Reads write_byte read_byte
read_byte-Reads a rest = refl

abbrev refuse : ℕ → Outcome String ℕ
refuse n = err "out of range"

try_converted_example :
    deserialize_try_into_if_lt_version 1 2 40 refuse read_byte read_byte (7 ∷ 9 ∷ [])
    ≡ err (migration_error 40 "out of range")
try_converted_example =
    try_converted write_byte write_byte read_byte read_byte read_byte-Reads read_byte-Reads 1 2 40
      refuse 7 8 (9 ∷ [])

-- The bytes of the header in two pieces.
abbrev header_pieces : Pieces
header_pieces = (4, 0 ∷ 0 ∷ []) ∷ (0, drop 4 (as_bytes a_header)) ∷ []

new_from_reader_async_lem_example :
    with_contents pieces.contents (new_from_reader_async pieces header_pieces)
    ≡ new_from_reader (pieces.contents header_pieces)
new_from_reader_async_lem_example = new_from_reader_async_lem pieces pieces-IsExact header_pieces

serde_bytes_lem_example :
    (serde_serialize_bytes formats 10 msg_pack 7 ≡ ok (7 ∷ []))
    × (serde_deserialize_bytes formats msg_pack (7 ∷ 5 ∷ []) 3 ≡ ok 7)
    × ((e : Error ⊎ String) × (serde_serialize_bytes formats 10 unknown 7 ≡ err e)
        × (serde_deserialize_bytes formats unknown (7 ∷ 5 ∷ []) 3 ≡ err e))
serde_bytes_lem_example =
    serde_bytes_lem formats msg_pack one_byte 7 (7 ∷ []) (5 ∷ []) 3 10 refl (refl, λ rest. refl)
      (omega arith)

-- ===== src/StableStorage/Header.antt =====
-- header.rs: the header that says how the contents are stored.
pub mod Codec
pub mod Async
use metamagic.Prelude.{
  ℕ, zero, suc, ◌+◌, ◌*◌, ◌%◌, ◌^◌, ◌<◌, Bool, true, false, Option, none, some, List, [], ◌∷◌, ◌++◌,
  length, get_elem?, take, drop, ltb, leb, if◌then◌else◌, Outcome, ok, err, panic, ◌>>=◌, or_panic,
  ◌==◌,
}
use metamagic.Prelude.Word.{IsU64, le_bytes, from_le_bytes, add64}
use metamagic.StableStorage.DataFormat.{DataFormatType, unknown, format_eq, from_u64, as_u64}

-- `Io` is what `read_exact` and `write_all` answer.
pub data Error : Type 0 where
  invalid_content_format : ℕ → Error
  io : Error
  invalid_header_length : ℕ → ℕ → Error

pub record Header : Type 0 where
  pub header_length : ℕ
  pub content_length : ℕ
  pub content_format : DataFormatType
  pub content_schema_version : ℕ
  pub pre_upgrade_instruction_count : ℕ

-- `Default`
abbrev pub default_header : Header
default_header = record {
  header_length = 0;
  content_length = 0;
  content_format = unknown;
  content_schema_version = 0;
  pre_upgrade_instruction_count = 0;
}

-- `enum FieldIndex`, as numbers
abbrev pub num_fields : ℕ
num_fields = 4

-- The fields in the order of `FieldIndex`.
abbrev pub fields_of : Header → List ℕ
fields_of h =
    h.content_length
    ∷ as_u64 h.content_format
    ∷ h.content_schema_version
    ∷ h.pre_upgrade_instruction_count
    ∷ []

abbrev pub u64_size : ℕ
u64_size = 8

pub new_from_format_and_schema : DataFormatType → ℕ → Header
new_from_format_and_schema format schema_version = record {
  header_length = num_fields;
  content_length = 0;
  content_format = format;
  content_schema_version = schema_version;
  pre_upgrade_instruction_count = 0;
}

-- `read_exact`: the next `n` bytes and the rest of the reader
unfoldable pub read_exact : ℕ → List ℕ → Outcome Error (List ℕ × List ℕ)
read_exact n bytes = if leb n (length bytes) then ok (take n bytes, drop n bytes) else err io

read_u64 : List ℕ → Outcome Error (ℕ × List ℕ)
read_u64 reader = do (bytes, rest) ← read_exact u64_size reader; ok (from_le_bytes bytes, rest)

bytes_to_u64 : List ℕ → ℕ → List ℕ
bytes_to_u64 bytes zero = []
bytes_to_u64 bytes (suc count) =
    from_le_bytes (take u64_size bytes) ∷ bytes_to_u64 (drop u64_size bytes) count

read_n_u64 : List ℕ → ℕ → Outcome Error (List ℕ × List ℕ)
read_n_u64 reader count = do
  (bytes, rest) ← read_exact (count * u64_size) reader
  ok (bytes_to_u64 bytes count, rest)

-- Each `fields[i]` panics out of bounds.
new_from_vec : List ℕ → Outcome Error Header
new_from_vec fields = do
  format ← or_panic (get_elem? fields 1)
  let content_format = from_u64 format
  if content_format == unknown
      then (do reported ← or_panic (get_elem? fields 3); err (invalid_content_format reported))
      else do
        content_length ← or_panic (get_elem? fields 0)
        content_schema_version ← or_panic (get_elem? fields 2)
        pre_upgrade_instruction_count ← or_panic (get_elem? fields 3)
        ok (record {
          header_length = length fields;
          content_length = content_length;
          content_format = content_format;
          content_schema_version = content_schema_version;
          pre_upgrade_instruction_count = pre_upgrade_instruction_count;
        })

-- The header, and what the reader has not yet given.
pub new_from_reader : List ℕ → Outcome Error (Header × List ℕ)
new_from_reader reader = do
  (header_length, reader') ← read_u64 reader
  if ltb num_fields header_length then err (invalid_header_length header_length num_fields) else do
    (fields, reader'') ← read_n_u64 reader' header_length
    header ← new_from_vec fields
    ok (header, reader'')

-- `flat_map(|v| v.to_le_bytes())`
pub words : List ℕ → List ℕ
words [] = []
words (v ∷ vs) = le_bytes u64_size v ++ words vs

pub as_bytes : Header → List ℕ
as_bytes h = words (num_fields ∷ fields_of h)

-- The fields and the header length itself.
pub num_all_fields_bytes : Header → ℕ
num_all_fields_bytes h = (num_fields + 1) * u64_size

pub num_content_and_header_bytes : Header → ℕ
num_content_and_header_bytes h =
    add64 (h.header_length * u64_size % 2 ^ 64 + u64_size) h.content_length

-- ===== src/StableStorage/Header/Codec.antt =====
-- What the header's bytes are, and what its reader accepts.
use metamagic.Prelude.{
  ℕ, ◌+◌, ◌*◌, ◌<◌, ◌≤◌, ◌≡◌, refl, ◌≢◌, sym, arith, List, [], ◌∷◌, ◌++◌, length, All,
  length-append, append_assoc, take-append, drop-append, ok, err, panic, ◌>>=◌, le→ltb, lt→ltb, ◌^◌,
}
use metamagic.Prelude.Word.{IsU64, le_bytes, length-le_bytes, from_le_bytes-le_bytes}
use metamagic.StableStorage.DataFormat.{DataFormatType, unknown, format_eq, from_u64, as_u64}
use metamagic.StableStorage.Header.{
  invalid_content_format, io, invalid_header_length, Header, num_fields, u64_size, read_exact,
  read_u64, read_n_u64, bytes_to_u64, words, fields_of, new_from_vec, new_from_reader, as_bytes,
  num_all_fields_bytes, num_content_and_header_bytes,
}

-- A header whose numbers are u64s.
pub record IsValid (h : Header) : Type 0 where
  pub content_length : IsU64 h.content_length
  pub content_schema_version : IsU64 h.content_schema_version
  pub pre_upgrade_instruction_count : IsU64 h.pre_upgrade_instruction_count

pub read_exact-front :
    (n : ℕ) (front rest : List ℕ)
    → n ≡ length front
    → read_exact n (front ++ rest) ≡ ok (front, rest)
unfolding read_exact
read_exact-front n front rest e =
    rw (take-append front rest n e, drop-append front rest n e)
      (ground (arith, length-append front rest))

read_u64-le_bytes :
    (n : ℕ) (rest : List ℕ) → IsU64 n → read_u64 (le_bytes 8 n ++ rest) ≡ ok (n, rest)
unfolding read_u64
read_u64-le_bytes n rest h =
    rw (read_exact-front 8 (le_bytes 8 n) rest (sym (length-le_bytes 8 n)))
      (rw (from_le_bytes-le_bytes 8 n h))

length-words : (vs : List ℕ) → length (words vs) ≡ length vs * 8
unfolding words
length-words [] = refl
length-words (v ∷ vs) =
    omega (arith, length-append (le_bytes 8 v) (words vs), length-le_bytes 8 v, length-words vs)

bytes_to_u64-words : (vs : List ℕ) → All IsU64 vs → bytes_to_u64 (words vs) (length vs) ≡ vs
unfolding words bytes_to_u64
bytes_to_u64-words [] h = refl
bytes_to_u64-words (v ∷ vs) (hv, hvs) =
    let e = sym (length-le_bytes 8 v) in
    rw (
      take-append (le_bytes 8 v) (words vs) 8 e,
      drop-append (le_bytes 8 v) (words vs) 8 e,
      from_le_bytes-le_bytes 8 v hv,
      bytes_to_u64-words vs hvs,
    )

read_n_u64-words :
    (vs : List ℕ) (rest : List ℕ)
    → All IsU64 vs
    → read_n_u64 (words vs ++ rest) (length vs) ≡ ok (vs, rest)
unfolding read_n_u64
read_n_u64-words vs rest h =
    rw (read_exact-front (length vs * 8) (words vs) rest (sym (length-words vs)))
      (rw (bytes_to_u64-words vs h))

-- Words behind their count are read as the fields of a header.
new_from_reader-words :
    (vs rest : List ℕ)
    → All IsU64 vs
    → length vs ≤ num_fields
    → new_from_reader (words (length vs ∷ vs) ++ rest)
      ≡ (do header ← new_from_vec vs; ok (header, rest))
unfolding words new_from_reader
new_from_reader-words vs rest h few = rw (append_assoc (le_bytes 8 (length vs)) (words vs) rest) (
    rw (read_u64-le_bytes (length vs) (words vs ++ rest) (omega arith))
      (rw (le→ltb num_fields (length vs) few, read_n_u64-words vs rest h)))

-- Every header has the same number of bytes, which is the number that `num_all_fields_bytes`
-- promises.
pub length-as_bytes : (h : Header) → length (as_bytes h) ≡ 40
unfolding as_bytes
length-as_bytes h = length-words (num_fields ∷ fields_of h)

pub num_all_fields_bytes-eq : (h : Header) → num_all_fields_bytes h ≡ 40
unfolding num_all_fields_bytes
num_all_fields_bytes-eq h = refl

-- The header length is not written: it is always the number of fields.
pub as_bytes-header_length :
    (h : Header) (n : ℕ) → as_bytes (record h { header_length = n }) ≡ as_bytes h
unfolding as_bytes
as_bytes-header_length h n = refl

pub num_content_and_header_bytes-fields :
    (h : Header)
    → 40 + h.content_length < 2 ^ 64
    → num_content_and_header_bytes (record h { header_length = num_fields }) ≡ 40 + h.content_length
unfolding num_content_and_header_bytes
num_content_and_header_bytes-fields h small = omega arith

as_u64-IsU64 : (f : DataFormatType) → IsU64 (as_u64 f)
unfolding as_u64
as_u64-IsU64 f = ground arith

pub from_u64-as_u64 : (f : DataFormatType) → from_u64 (as_u64 f) ≡ f
unfolding as_u64 from_u64
from_u64-as_u64 f = ground arith

new_from_vec-fields_of :
    (h : Header)
    → h.content_format ≢ unknown
    → new_from_vec (fields_of h) ≡ ok (record h { header_length = num_fields })
unfolding new_from_vec
new_from_vec-fields_of h known = rw (from_u64-as_u64 h.content_format) (ground arith)

fields_of-IsU64 : (h : Header) → IsValid h → All IsU64 (fields_of h)
fields_of-IsU64 h v = ground (arith, as_u64-IsU64 h.content_format)

-- A header whose format is known and whose numbers are u64s is read back from its bytes, and what
-- follows them is left in the reader. The header length that comes back is the number of fields.
pub new_from_reader-as_bytes :
    (h : Header) (rest : List ℕ)
    → IsValid h
    → h.content_format ≢ unknown
    → new_from_reader (as_bytes h ++ rest) ≡ ok (record h { header_length = num_fields }, rest)
unfolding as_bytes
new_from_reader-as_bytes h rest v known =
    rw (new_from_reader-words (fields_of h) rest (fields_of-IsU64 h v) (omega arith))
      (rw (new_from_vec-fields_of h known))

-- A stored header length above the number of fields is refused, whatever follows it.
pub new_from_reader_too_long :
    (n : ℕ) (rest : List ℕ)
    → IsU64 n
    → num_fields < n
    → new_from_reader (le_bytes 8 n ++ rest) ≡ err (invalid_header_length n num_fields)
unfolding new_from_reader
new_from_reader_too_long n rest fits long =
    rw (read_u64-le_bytes n rest fits) (rw (lt→ltb num_fields n long))

new_from_vec_short : (vs : List ℕ) → length vs < num_fields → new_from_vec vs ≡ panic
unfolding new_from_vec
new_from_vec_short [] few = refl
new_from_vec_short (a ∷ []) few = refl
new_from_vec_short (a ∷ b ∷ []) few = ground arith
new_from_vec_short (a ∷ b ∷ c ∷ []) few = ground arith
new_from_vec_short (a ∷ b ∷ c ∷ d ∷ vs) few = absurd (omega arith)

-- A stored header length below the number of fields, with its fields behind it, passes the length
-- test and then panics on an index out of bounds.
pub new_from_reader_short :
    (vs rest : List ℕ)
    → All IsU64 vs
    → length vs < num_fields
    → new_from_reader (words (length vs ∷ vs) ++ rest) ≡ panic
new_from_reader_short vs rest h few =
    rw (new_from_reader-words vs rest h (omega arith), new_from_vec_short vs few)

-- A header whose format is none that is known is refused, with the instruction count in the error
-- where the format is meant.
pub new_from_reader_unknown :
    (length' format version count : ℕ) (rest : List ℕ)
    → All IsU64 (length' ∷ format ∷ version ∷ count ∷ [])
    → from_u64 format ≡ unknown
    → new_from_reader (words (num_fields ∷ length' ∷ format ∷ version ∷ count ∷ []) ++ rest)
      ≡ err (invalid_content_format count)
new_from_reader_unknown length' format version count rest h e =
    rw (new_from_reader-words (length' ∷ format ∷ version ∷ count ∷ []) rest h (omega arith))
      (unfold new_from_vec in rw e (ground arith))

-- A reader with fewer bytes than a word is refused as an io error.
pub new_from_reader_truncated :
    (bytes : List ℕ) → length bytes < u64_size → new_from_reader bytes ≡ err io
unfolding new_from_reader read_u64 read_exact
new_from_reader_truncated bytes short = ground arith

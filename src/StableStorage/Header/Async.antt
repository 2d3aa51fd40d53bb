-- ===== src/StableStorage/Header/Async.antt =====
-- crates/ic-canister-stable-storage/src/header.rs: the async reader of a header. The stream is that
-- of the futures crate: a parameter, with the read that fills a buffer.
use metamagic.Prelude.{
  ℕ, ◌*◌, ◌≡◌, refl, ap, sym, ◌∙◌, List, Outcome, ok, err, panic, ◌>>=◌, ltb, if◌then◌else◌, Bool,
  true, false,
}
use metamagic.Prelude.Word.{from_le_bytes}
use metamagic.StableStorage.Header.{
  Error, invalid_header_length, Header, num_fields, u64_size, read_exact, read_u64, read_n_u64,
  bytes_to_u64, new_from_vec, new_from_reader,
}
pub mod Pieces
pub mod Writer

-- A stream: its `AsyncReadExt::read_exact`, and the bytes that it still has to give.
pub record AsyncRead (R : Type 0) : Type 0 where
  pub read_exact_async : ℕ → R → Outcome Error (List ℕ × R)
  pub contents : R → List ℕ

-- A result with the bytes that are left in place of the stream.
abbrev pub with_contents :
    {R A : Type 0} → (R → List ℕ) → Outcome Error (A × R) → Outcome Error (A × List ℕ)
with_contents contents (ok (a, r)) = ok (a, contents r)
with_contents contents (err e) = err e
with_contents contents panic = panic

-- The read fills its buffer with the next bytes of the stream, or fails if there are too few of
-- them.
abbrev pub IsExact : {R : Type 0} → AsyncRead R → Type 0
IsExact {R} stream =
    (n : ℕ) (r : R)
    → with_contents stream.contents (stream.read_exact_async n r) ≡ read_exact n (stream.contents r)

module _ {R : Type 0} (stream : AsyncRead R) where
  read_u64_async : R → Outcome Error (ℕ × R)
  read_u64_async reader = do
    (bytes, rest) ← stream.read_exact_async u64_size reader
    ok (from_le_bytes bytes, rest)

  read_n_u64_async : R → ℕ → Outcome Error (List ℕ × R)
  read_n_u64_async reader count = do
    (bytes, rest) ← stream.read_exact_async (count * u64_size) reader
    ok (bytes_to_u64 bytes count, rest)

  pub new_from_reader_async : R → Outcome Error (Header × R)
  new_from_reader_async reader = do
    (header_length, reader') ← read_u64_async reader
    if ltb num_fields header_length
        then err (invalid_header_length header_length num_fields)
        else do
          (fields, reader'') ← read_n_u64_async reader' header_length
          header ← new_from_vec fields
          ok (header, reader'')

module _ {R : Type 0} (contents : R → List ℕ) where
  with_contents->>= :
      {A B : Type 0} (m : Outcome Error (A × R)) (f : A × R → Outcome Error (B × R))
      (g : A × List ℕ → Outcome Error (B × List ℕ))
      → ((a : A) (r : R) → with_contents contents (f (a, r)) ≡ g (a, contents r))
      → with_contents contents (m >>= f) ≡ (with_contents contents m >>= g)
  with_contents->>= (ok (a, r)) f g same = same a r
  with_contents->>= (err e) f g same = refl
  with_contents->>= panic f g same = refl

  with_contents-if :
      {A : Type 0} (b : Bool) (e : Error) (m : Outcome Error (A × R))
      (m' : Outcome Error (A × List ℕ))
      → with_contents contents m ≡ m'
      → with_contents contents (if b then err e else m) ≡ (if b then err e else m')
  with_contents-if true e m m' same = refl
  with_contents-if false e m m' same = same

  -- What reads nothing leaves the stream as it is.
  with_contents-keep :
      {A : Type 0} (m : Outcome Error A) (r : R)
      → with_contents contents (m >>= (λ a. ok (a, r))) ≡ (m >>= (λ a. ok (a, contents r)))
  with_contents-keep (ok a) r = refl
  with_contents-keep (err e) r = refl
  with_contents-keep panic r = refl

module _ {R : Type 0} (stream : AsyncRead R) (exact : IsExact stream) where
  read_u64_async_lem :
      (r : R)
      → with_contents stream.contents (read_u64_async stream r) ≡ read_u64 (stream.contents r)
  unfolding read_u64_async read_u64
  read_u64_async_lem r =
      with_contents->>= stream.contents (stream.read_exact_async u64_size r) _
        (λ x. ok (from_le_bytes x.0, x.1)) (λ bytes rest. refl)
      ∙ ap (λ m. m >>= (λ x. ok (from_le_bytes x.0, x.1))) (exact u64_size r)

  read_n_u64_async_lem :
      (r : R) (count : ℕ)
      → with_contents stream.contents (read_n_u64_async stream r count)
        ≡ read_n_u64 (stream.contents r) count
  unfolding read_n_u64_async read_n_u64
  read_n_u64_async_lem r count =
      with_contents->>= stream.contents (stream.read_exact_async (count * u64_size) r) _
        (λ x. ok (bytes_to_u64 x.0 count, x.1)) (λ bytes rest. refl)
      ∙ ap (λ m. m >>= (λ x. ok (bytes_to_u64 x.0 count, x.1))) (exact (count * u64_size) r)

  -- What follows the length of the header.
  fields_async_lem :
      (n : ℕ) (r : R)
      → with_contents stream.contents
          (read_n_u64_async stream r n >>= (λ x. new_from_vec x.0 >>= (λ header. ok (header, x.1))))
        ≡ (read_n_u64 (stream.contents r) n
            >>= (λ x. new_from_vec x.0 >>= (λ header. ok (header, x.1))))
  fields_async_lem n r =
      with_contents->>= stream.contents (read_n_u64_async stream r n) _
        (λ x. new_from_vec x.0 >>= (λ header. ok (header, x.1)))
        (λ fields rest. with_contents-keep stream.contents (new_from_vec fields) rest)
      ∙ ap (λ m. m >>= (λ x. new_from_vec x.0 >>= (λ header. ok (header, x.1))))
          (read_n_u64_async_lem r n)

  -- Over a stream whose reads fill their buffers, the async reader gives the header, the error or
  -- the panic that the sync reader gives on the bytes of the stream, and leaves the same bytes.
  pub new_from_reader_async_lem :
      (r : R)
      → with_contents stream.contents (new_from_reader_async stream r)
        ≡ new_from_reader (stream.contents r)
  unfolding new_from_reader_async new_from_reader
  new_from_reader_async_lem r =
      with_contents->>= stream.contents (read_u64_async stream r) _
        (λ x.
          if ltb num_fields x.0
          then err (invalid_header_length x.0 num_fields)
          else (read_n_u64 x.1 x.0 >>= (λ y. new_from_vec y.0 >>= (λ header. ok (header, y.1)))))
        (λ n rest.
          with_contents-if stream.contents (ltb num_fields n) _ _ _ (fields_async_lem n rest))
      ∙ ap
          (λ m. m >>= (λ x.
            if ltb num_fields x.0
            then err (invalid_header_length x.0 num_fields)
            else (read_n_u64 x.1 x.0 >>= (λ y. new_from_vec y.0 >>= (λ header. ok (header, y.1))))))
          (read_u64_async_lem r)

-- ===== src/CanisterAgent/Restore/Chunks.antt =====
-- The chunks that a restore reads hold the stable storage, each at its place.
use metamagic.Prelude.{
  ℕ, zero, suc, ◌+◌, ◌-◌, ◌*◌, ◌^◌, ◌≤◌, ◌<◌, ◌≡◌, refl, ap, ◌∙◌, arith, min, List, [], ◌∷◌, length,
  take, drop, length-take, length-drop, Outcome, ok, All, inl, inr, Bool-cases, ltb, ltb→lt, ltb→le,
}
use metamagic.Prelude.Word.{sub64}
use metamagic.StableStorage.Header as StorageHeader
use metamagic.StableStorage.Header.{Header, read_exact}
use metamagic.StableStorage.Memory.{get_or}
use metamagic.CanisterAgent.Restore.{restore_chunk_size, Chunk, chunks, chunk_then}
use metamagic.CanisterAgent.Restore.Runs.{Agrees, Covers}

get_or-take : (xs : List ℕ) (n i d : ℕ) → i < n → get_or (take n xs) i d ≡ get_or xs i d
get_or-take xs zero i d h = absurd (omega arith)
get_or-take [] (suc n) i d h = refl
get_or-take (x ∷ xs) (suc n) zero d h = refl
get_or-take (x ∷ xs) (suc n) (suc i) d h = get_or-take xs n i d (omega arith)

get_or-drop : (xs : List ℕ) (n i d : ℕ) → get_or (drop n xs) i d ≡ get_or xs (n + i) d
get_or-drop xs zero i d = ap (λ k. get_or xs k d) (let e : i ≡ 0 + i = omega arith in e)
get_or-drop [] (suc n) i d = refl
get_or-drop (x ∷ xs) (suc n) i d =
    get_or-drop xs n i d
    ∙ ap (λ k. get_or (x ∷ xs) k d) (let e : suc (n + i) ≡ suc n + i = omega arith in e)

-- The reader has enough left.
read_exact-enough :
    (n : ℕ) (reader : List ℕ)
    → n ≤ length reader
    → read_exact n reader ≡ ok (take n reader, drop n reader)
unfolding read_exact
read_exact-enough n reader h = ground arith

-- A result that is a success with these chunks.
abbrev pub Read : List Chunk → Outcome StorageHeader.Error (Unit {0}) × List Chunk → Type 0
Read cs r = r ≡ (ok tt, cs)

chunks-step :
    (content_length header_bytes_len count offset size : ℕ) (reader : List ℕ) {cs : List Chunk}
    → min restore_chunk_size (sub64 content_length (sub64 offset header_bytes_len)) ≡ size
    → size ≤ length reader
    → Read cs (
        chunks content_length header_bytes_len count
          (offset + restore_chunk_size)
          (drop size reader))
    → Read
        ((offset, take size reader) ∷ cs)
        (chunks content_length header_bytes_len (suc count) offset reader)
unfolding chunks chunk_then
chunks-step content_length header_bytes_len count offset size reader e enough others =
    ap
      (λ n.
        chunk_then (chunks content_length header_bytes_len count (offset + restore_chunk_size))
          offset (read_exact n reader))
      e
    ∙ ap
        (chunk_then (chunks content_length header_bytes_len count (offset + restore_chunk_size))
          offset)
        (read_exact-enough size reader enough)
    ∙ ap (λ r. (r.0, (offset, take size reader) ∷ r.1)) others

module _ (target : ℕ → ℕ) (content_length header_bytes_len len : ℕ)
    (total : header_bytes_len + content_length ≡ len) (small : len < 2 ^ 64) where
  pub chunks_lem :
      (count offset : ℕ) (reader : List ℕ)
      → header_bytes_len ≤ offset
      → ((i d : ℕ) → i < length reader → offset + i < len → get_or reader i d ≡ target (offset + i))
      → len ≤ offset + length reader
      → len ≤ offset + count * restore_chunk_size
      → offset + count * restore_chunk_size < len + restore_chunk_size
      → (cs : List Chunk) × Read cs (chunks content_length header_bytes_len count offset reader)
        × All (Agrees target) cs
        × All (λ c. c.0 + length c.1 ≤ len) cs
        × ((i : ℕ) → offset ≤ i → i < len → Covers i cs)
  unfolding chunks
  chunks_lem zero offset reader from shows enough last most =
      ([], refl, tt, tt, λ i lo hi. absurd (omega arith))
  chunks_lem (suc count) offset reader from shows enough last most =
      let size : ℕ = min restore_chunk_size (len - offset) in
      let rest : List ℕ = drop size reader in
      let size' : min restore_chunk_size (sub64 content_length (sub64 offset header_bytes_len))
          ≡ size =
        omega arith in
      let taken : length (take size reader) ≡ size = omega (arith, length-take size reader) in
      let left = length-drop size reader in
      let shows' : (i d : ℕ)
          → i < length rest
          → offset + restore_chunk_size + i < len
          → get_or rest i d ≡ target (offset + restore_chunk_size + i) =
        λ i d lt inside.
          let at : offset + (size + i) ≡ offset + restore_chunk_size + i = omega arith in
          get_or-drop reader size i d
          ∙ shows (size + i) d (omega (arith, left)) (omega arith)
          ∙ ap target at in
      let agree : Agrees target (offset, take size reader) = λ i lo hi d.
        let at : offset + (i - offset) ≡ i = omega arith in
        get_or-take reader size (i - offset) d (omega (arith, taken))
        ∙ shows (i - offset) d (omega (arith, taken)) (omega (arith, taken))
        ∙ ap target at in
      let rec =
        chunks_lem count (offset + restore_chunk_size) rest (omega arith) shows'
          (omega (arith, left)) (omega arith) (omega arith) in
      (
        (offset, take size reader) ∷ rec.0,
        chunks-step content_length header_bytes_len count offset size reader size' (omega arith)
            rec.1,
        (agree, rec.2),
        (omega (arith, taken), rec.3),
        λ i lo hi. elim (Bool-cases (ltb i (offset + size))) [
          | inl here ↦ inl (lo, omega (arith, taken, ltb→lt i (offset + size) here))
          | inr beyond ↦ inr (rec.4 i (omega (arith, ltb→le i (offset + size) beyond)) hi)
        ],
      )

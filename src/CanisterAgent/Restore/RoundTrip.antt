-- ===== src/CanisterAgent/Restore/RoundTrip.antt =====
-- A backup that is restored is in the stable storage again.
use metamagic.Prelude.{
  ℕ, ◌+◌, ◌-◌, ◌^◌, ◌≤◌, ◌<◌, ◌≡◌, ◌≢◌, refl, ap, ap₂, sym, ◌∙◌, arith, List, [], ◌∷◌, ◌++◌, length,
  length-append, Option, none, ok, All, inl, inr, Bool-cases, ltb, ltb→lt, ltb→le, if◌then◌else◌,
  subst, ◌⊎◌, ok-injective,
}
use mathlib.Core.Option
use metamagic.StableStorage.DataFormat.{unknown}
use metamagic.StableStorage.Header.{Header, as_bytes, num_fields, num_content_and_header_bytes}
use metamagic.StableStorage.Header.Codec.{
  IsValid, length-as_bytes, new_from_reader-as_bytes, as_bytes-header_length,
  num_content_and_header_bytes-fields,
}
use metamagic.StableStorage.Memory.{StableMemory, IsLawful, bytes_from, get_or, overlay}
use metamagic.StableStorage.Memory.Overlay.{
  bytes_from_cong, bytes_from-overlay, get_or_inside, get_or-append_left, get_or-append_right,
}
use metamagic.StableStorage.Interface.{restore_stable_storage}
use metamagic.CanisterAgent.Restore.{Chunk, num_chunks, chunks, restore_chunks, Writes, Restores}
use metamagic.CanisterAgent.Restore.Runs.{
  Agrees, Covers, AnyOrder, write, nothing, AnyOrder-right, Writes-AnyOrder,
}
use metamagic.CanisterAgent.Restore.Chunks.{Read, chunks_lem}

-- What a restore writes: the header, and from the offset on what follows it in the reader.
abbrev pub target : List ℕ → List ℕ → ℕ → ℕ → ℕ
target header_bytes rest start i =
    if ltb i (length header_bytes) then get_or header_bytes i 0 else get_or rest (i - start) 0

-- With the offset behind the header the target is the reader's own bytes.
target_front :
    (header_bytes rest : List ℕ) (view : ℕ → ℕ) (i : ℕ)
    → length header_bytes ≡ 40
    → i < 40
    → target header_bytes rest 40 i ≡ overlay (header_bytes ++ rest) 0 view i
target_front header_bytes rest view i forty lt =
    let inside : i < length header_bytes = omega (arith, forty) in
    let at : i ≡ i - 0 = omega arith in
    let here : target header_bytes rest 40 i ≡ get_or header_bytes i 0 = ground arith in
    here
    ∙ get_or_inside header_bytes i 0 (view i) inside
    ∙ sym (get_or-append_left header_bytes rest i (view i) inside)
    ∙ ground (arith, ap (λ k. get_or (header_bytes ++ rest) k (view i)) at)

target_behind :
    (header_bytes rest : List ℕ) (view : ℕ → ℕ) (i : ℕ)
    → length header_bytes ≡ 40
    → 40 ≤ i
    → i < 40 + length rest
    → target header_bytes rest 40 i ≡ overlay (header_bytes ++ rest) 0 view i
target_behind header_bytes rest view i forty ge lt =
    let inside : i - 40 < length rest = omega arith in
    let at : length header_bytes + (i - 40) ≡ i - 0 = omega (arith, forty) in
    let here : target header_bytes rest 40 i ≡ get_or rest (i - 40) 0 = ground (arith, forty) in
    here
    ∙ get_or_inside rest (i - 40) 0 (view i) inside
    ∙ sym (get_or-append_right header_bytes rest (i - 40) (view i))
    ∙ ground (arith, ap (λ k. get_or (header_bytes ++ rest) k (view i)) at)

pub restore_chunks_lem :
    (header : Header) (restore_offset : Option ℕ) (rest : List ℕ) (start len : ℕ)
    → Option.get_or restore_offset (length (as_bytes header)) ≡ start
    → num_content_and_header_bytes header ≡ len
    → length (as_bytes header) + header.content_length ≡ len
    → len < 2 ^ 64
    → length (as_bytes header) ≤ start
    → start ≤ len
    → len ≤ start + length rest
    → (cs : List Chunk) × Read cs (restore_chunks header restore_offset rest)
      × All (Agrees (target (as_bytes header) rest start)) cs
      × All (λ c. c.0 + length c.1 ≤ len) cs
      × ((i : ℕ) → start ≤ i → i < len → Covers i cs)
unfolding restore_chunks
restore_chunks_lem header restore_offset rest start len begin bytes total small lo hi enough =
    let hb = length (as_bytes header) in
    let shows : (i d : ℕ)
        → i < length rest
        → start + i < len
        → get_or rest i d ≡ target (as_bytes header) rest start (start + i) =
      λ i d inside _.
        let at : start + i - start ≡ i = omega arith in
        get_or_inside rest i d 0 inside ∙ ground (arith, ap (λ k. get_or rest k 0) at) in
    let r =
      chunks_lem (target (as_bytes header) rest start) header.content_length hb len total small
        (num_chunks start len) start rest lo shows enough (omega arith) (omega arith) in
    let same : restore_chunks header restore_offset rest
        ≡ chunks header.content_length hb (num_chunks start len) start rest =
      ap₂ (λ s l. chunks header.content_length hb (num_chunks s l) s rest) begin bytes in
    (r.0, same ∙ r.1, r.2, r.3, r.4)

module _ (M : StableMemory) (L : IsLawful M) where
  open M use {Mem, pages, byte_at}

  -- The view that a restore with the header and the rest of the reader leaves.
  restored_view :
      (header : Header) (restore_offset : Option ℕ) (rest : List ℕ) (start len : ℕ)
      (grown headed m' : Mem)
      → Option.get_or restore_offset (length (as_bytes header)) ≡ start
      → num_content_and_header_bytes header ≡ len
      → length (as_bytes header) + header.content_length ≡ len
      → len < 2 ^ 64
      → length (as_bytes header) ≤ start
      → start ≤ len
      → len ≤ start + length rest
      → restore_stable_storage M 0 (as_bytes header) grown ≡ ok headed
      → Writes M (restore_chunks header restore_offset rest).1 [] headed m'
      → (i : ℕ) → (i < length (as_bytes header)) ⊎ ((start ≤ i) × (i < len))
      → byte_at m' i ≡ target (as_bytes header) rest start i
  restored_view header restore_offset rest start len grown headed m' begin bytes total small lo hi
        enough e run i h =
      let (cs, read, agree, inside, cover) =
        restore_chunks_lem header restore_offset rest start len begin bytes total small lo hi
          enough in
      let goal = target (as_bytes header) rest start in
      let run' : AnyOrder M cs headed m' =
        Writes-AnyOrder M cs headed m' (subst (λ r. Writes M r.1 [] headed m') read run) in
      AnyOrder-right M L goal cs headed m' run' agree i (elim h [
        | inl front ↦ inr (
            AnyOrder-right M L goal ((0, as_bytes header) ∷ []) grown headed
              (write [] [] (0, as_bytes header) e (nothing headed))
              (
                (λ k from to d.
                    let at : k - 0 ≡ k = omega arith in
                    let inside : k < length (as_bytes header) = omega arith in
                    ap (λ n. get_or (as_bytes header) n d) at
                    ∙ get_or_inside (as_bytes header) k d 0 inside
                    ∙ ground arith),
                tt,
              )
              i (inl (inl (omega arith, omega arith))))
        | inr (from, to) ↦ inl (cover i from to)
      ])

  -- What a restore of a backup leaves at each address: the header, and from the restore offset on
  -- the content from its first byte.
  pub restored_at :
      (h : Header) (content : List ℕ) (restore_offset : Option ℕ) (start : ℕ) (m m' : Mem)
      → IsValid h
      → h.content_format ≢ unknown
      → length content ≡ h.content_length
      → 40 + h.content_length < 2 ^ 64
      → Option.get_or restore_offset 40 ≡ start
      → 40 ≤ start
      → start ≤ 40 + h.content_length
      → Restores M (as_bytes h ++ content) restore_offset m m'
      → (i : ℕ) → (i < 40) ⊎ ((start ≤ i) × (i < 40 + h.content_length))
      → byte_at m' i ≡ target (as_bytes h) content start i
  restored_at h content restore_offset start m m' valid known long small begin lo hi r i inside =
      let h' : Header = record h { header_length = num_fields } in
      let p : (r.header, r.rest) ≡ (h', content) =
        ok-injective (sym r.header_read ∙ new_from_reader-as_bytes h content valid known) in
      let same : as_bytes r.header ≡ as_bytes h =
        ap (λ x. as_bytes x.0) p ∙ as_bytes-header_length h num_fields in
      let forty : length (as_bytes r.header) ≡ 40 = length-as_bytes r.header in
      let cl : r.header.content_length ≡ h.content_length = ap (λ x. x.0.content_length) p in
      let bytes : num_content_and_header_bytes r.header ≡ 40 + h.content_length =
        ap (λ x. num_content_and_header_bytes x.0) p
        ∙ num_content_and_header_bytes-fields h small in
      let rest : length r.rest ≡ h.content_length = ap (λ x. length x.1) p ∙ long in
      restored_view r.header restore_offset r.rest start (40 + h.content_length) r.grown r.headed m'
        (ap (Option.get_or restore_offset) forty ∙ begin) bytes (omega arith) small (omega arith) hi
        (omega arith) r.header_written r.chunks_written i
        (elim inside [ inl front ↦ inl (omega arith) | inr behind ↦ inr behind ])
      ∙ ap₂ (λ a b. target a b start i) same (ap (λ x. x.1) p)

  -- A backup that is restored from its start, with its chunks written in any run, is
  -- in the stable storage byte for byte.
  pub restored :
      (h : Header) (content : List ℕ) (m m' : Mem)
      → IsValid h
      → h.content_format ≢ unknown
      → length content ≡ h.content_length
      → 40 + h.content_length < 2 ^ 64
      → Restores M (as_bytes h ++ content) none m m'
      → bytes_from (byte_at m') 0 (40 + h.content_length) ≡ as_bytes h ++ content
  restored h content m m' valid known long small r =
      let file = as_bytes h ++ content in
      let forty = length-as_bytes h in
      let all : length file ≡ 40 + h.content_length =
        omega (arith, length-append (as_bytes h) content) in
      let at : (i : ℕ)
          → 0 ≤ i
          → i < 0 + (40 + h.content_length)
          → byte_at m' i ≡ overlay file 0 (λ _. 0) i =
        λ i _ hi. elim (Bool-cases (ltb i 40)) [
          | inl front ↦
              let lt = ltb→lt i 40 front in
              restored_at h content none 40 m m' valid known long small refl (omega arith)
                (omega arith) r i (inl lt)
              ∙ target_front (as_bytes h) content (λ _. 0) i forty lt
          | inr behind ↦
              let ge = ltb→le i 40 behind in
              restored_at h content none 40 m m' valid known long small refl (omega arith)
                (omega arith) r i (inr (ge, omega arith))
              ∙ target_behind (as_bytes h) content (λ _. 0) i forty ge (omega (arith, long))
        ] in
      bytes_from_cong (byte_at m') (overlay file 0 (λ _. 0)) (40 + h.content_length) 0 at
      ∙ ap (bytes_from (overlay file 0 (λ _. 0)) 0) (sym all)
      ∙ bytes_from-overlay file 0 (λ _. 0)

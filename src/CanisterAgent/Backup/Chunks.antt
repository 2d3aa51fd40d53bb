-- ===== src/CanisterAgent/Backup/Chunks.antt =====
-- The chunks of a backup, put together, are the stable storage.
use metamagic.Prelude.{
  ℕ, zero, suc, ◌+◌, ◌-◌, ◌*◌, ◌/◌, ◌≤◌, ◌<◌, ◌≡◌, ◌≢◌, refl, ap, ◌∙◌, arith, min, List, [], ◌++◌,
  length, append-nil, Outcome, ok, err, panic, leb, ◌==◌, Bool-cases, inl, inr, ap₂, ==_ne, ==_refl,
}
use metamagic.Prelude.Word.{add64}
use metamagic.StableStorage.DataFormat.{unknown, format_eq}
use metamagic.StableStorage.Header.{Header, num_all_fields_bytes}
use metamagic.StableStorage.Memory.{bytes_from}
use metamagic.StableStorage.Memory.Overlay.{bytes_from-append, length-bytes_from}
use metamagic.CanisterAgent.Backup.{
  backup_chunk_size, Error, Query, backup_stable_storage_chunk, forward, check_length,
  backup_stable_storage,
}

-- The query shows `len` bytes of a view, in blocks of at most a chunk.
abbrev pub Shows : (ℕ → ℕ) → ℕ → Query → Type 0
Shows view len query =
    (offset limit : ℕ)
    → limit ≤ backup_chunk_size
    → offset + limit ≤ len
    → query offset limit ≡ ok (bytes_from view offset limit)

chunk-Shows :
    (view : ℕ → ℕ) (len : ℕ) (query : Query) (offset : ℕ)
    → Shows view len query
    → backup_stable_storage_chunk query offset len
      ≡ ok (bytes_from view offset (min backup_chunk_size (len - offset)))
unfolding backup_stable_storage_chunk
chunk-Shows view len query offset shows = elim (Bool-cases (leb len offset)) [
  | inl beyond ↦
      let nothing : len ≤ offset → min backup_chunk_size (len - offset) ≡ 0 = λ h. omega arith in
      ground (arith, nothing, ap (bytes_from view offset) (nothing (ground arith)))
  | inr inside ↦
      let lt : offset < len = ground arith in
      ground
        (arith, shows offset (min backup_chunk_size (len - offset)) (omega arith) (omega arith))
]

forward-step :
    (query : Query) (len count idx : ℕ) (written : List ℕ) {item : List ℕ}
    → backup_stable_storage_chunk query (idx * backup_chunk_size) len ≡ ok item
    → forward query len (suc count) idx written
      ≡ forward query len count (idx + 1) (written ++ item)
unfolding forward
forward-step query len count idx written e = rw (e, forward)

-- A front of a view and the chunk behind it are the front up to the next chunk.
next_front :
    (view : ℕ → ℕ) (len idx : ℕ)
    → bytes_from view 0 (min (idx * backup_chunk_size) len)
        ++ bytes_from view
            (idx * backup_chunk_size)
            (min backup_chunk_size (len - idx * backup_chunk_size))
      ≡ bytes_from view 0 (min ((idx + 1) * backup_chunk_size) len)
next_front view len idx = elim (Bool-cases (leb len (idx * backup_chunk_size))) [
  | inl beyond ↦
      let le : len ≤ idx * backup_chunk_size = ground arith in
      let none_left : min backup_chunk_size (len - idx * backup_chunk_size) ≡ 0 = omega arith in
      let same : min (idx * backup_chunk_size) len ≡ min ((idx + 1) * backup_chunk_size) len =
        omega arith in
      ap₂ (λ a b. bytes_from view 0 a ++ bytes_from view (idx * backup_chunk_size) b) same none_left
      ∙ append-nil (bytes_from view 0 (min ((idx + 1) * backup_chunk_size) len))
  | inr inside ↦
      let lt : idx * backup_chunk_size < len = ground arith in
      let here : min (idx * backup_chunk_size) len ≡ idx * backup_chunk_size = omega arith in
      let start : idx * backup_chunk_size ≡ 0 + min (idx * backup_chunk_size) len = omega arith in
      let total : min (idx * backup_chunk_size) len
            + min backup_chunk_size (len - idx * backup_chunk_size)
          ≡ min ((idx + 1) * backup_chunk_size) len =
        omega arith in
      ap
        (λ o.
          bytes_from view 0 (min (idx * backup_chunk_size) len)
          ++ bytes_from view o (min backup_chunk_size (len - idx * backup_chunk_size)))
        start
      ∙ bytes_from-append view (min (idx * backup_chunk_size) len)
          (min backup_chunk_size (len - idx * backup_chunk_size)) 0
      ∙ ap (bytes_from view 0) total
]

forward-Shows :
    (view : ℕ → ℕ) (len : ℕ) (query : Query) (count idx : ℕ)
    → Shows view len query
    → forward query len count idx (bytes_from view 0 (min (idx * backup_chunk_size) len))
      ≡ (ok tt, bytes_from view 0 (min ((idx + count) * backup_chunk_size) len))
unfolding forward
forward-Shows view len query zero idx shows =
    ap (λ n. (ok tt, bytes_from view 0 n))
      (let e : min (idx * backup_chunk_size) len ≡ min ((idx + 0) * backup_chunk_size) len =
          omega arith in
        e)
forward-Shows view len query (suc count) idx shows =
    let more : min ((idx + 1 + count) * backup_chunk_size) len
        ≡ min ((idx + suc count) * backup_chunk_size) len =
      omega arith in
    forward-step query len count idx (bytes_from view 0 (min (idx * backup_chunk_size) len))
      (chunk-Shows view len query (idx * backup_chunk_size) shows)
    ∙ ap (forward query len count (idx + 1)) (next_front view len idx)
    ∙ forward-Shows view len query count (idx + 1) shows
    ∙ ap (λ n. (ok tt, bytes_from view 0 n)) more

forward-all :
    (view : ℕ → ℕ) (len : ℕ) (query : Query)
    → Shows view len query
    → forward query len (len / backup_chunk_size + 1) 0 [] ≡ (ok tt, bytes_from view 0 len)
forward-all view len query shows =
    let count = len / backup_chunk_size + 1 in
    let start : 0 ≡ min (0 * backup_chunk_size) len = omega arith in
    let enough : min ((0 + count) * backup_chunk_size) len ≡ len = omega arith in
    ap (λ n. forward query len count 0 (bytes_from view 0 n)) start
    ∙ forward-Shows view len query count 0 shows
    ∙ ap (λ n. (ok tt, bytes_from view 0 n)) enough

backup-known :
    (header : Header) (query : Query)
    → header.content_format ≢ unknown
    → backup_stable_storage (ok header) query ≡ (
        let len = add64 (num_all_fields_bytes header) header.content_length in
        check_length len (forward query len (len / backup_chunk_size + 1) 0 []))
unfolding backup_stable_storage
backup-known header query known = ground (arith, ==_ne header.content_format unknown known)

check_length-ok :
    (len : ℕ) (r : Outcome Error (Unit {0}) × List ℕ) (written : List ℕ)
    → check_length len r ≡ (ok tt, written)
    → length written ≡ len
unfolding check_length
check_length-ok len (ok _, bytes) written e = ground arith
check_length-ok len (err x, bytes) written e = absurd (ground arith)
check_length-ok len (panic, bytes) written e = absurd (ground arith)

-- A backup of an initialised storage is the header and the content, whatever the number of chunks:
-- if the canister shows that many bytes of a view, the writer is given just those, in order, and
-- the backup succeeds.
pub backup_lem :
    (header : Header) (query : Query) (view : ℕ → ℕ) (len : ℕ)
    → header.content_format ≢ unknown
    → add64 (num_all_fields_bytes header) header.content_length ≡ len
    → Shows view len query
    → backup_stable_storage (ok header) query ≡ (ok tt, bytes_from view 0 len)
unfolding check_length
backup_lem header query view len known total shows =
    let long = length-bytes_from view len 0 in
    backup-known header query known
    ∙ ap (λ n. check_length n (forward query n (n / backup_chunk_size + 1) 0 [])) total
    ∙ ap (check_length len) (forward-all view len query shows)
    ∙ ground arith

-- A backup that reports success has written as many bytes as the header says, whatever the canister
-- answered.
pub backup_checked :
    (header : Outcome Error Header) (query : Query) (written : List ℕ)
    → backup_stable_storage header query ≡ (ok tt, written)
    → (h : Header) × (header ≡ ok h)
      × (h.content_format ≢ unknown)
      × (length written ≡ add64 (num_all_fields_bytes h) h.content_length)
unfolding backup_stable_storage
backup_checked (ok h) query written e =
    let len = add64 (num_all_fields_bytes h) h.content_length in
    elim (Bool-cases (h.content_format == unknown)) [
      | inl missing ↦ absurd (ground arith)
      | inr known ↦ (
        h,
        refl,
        λ same. absurd (ground (arith, ==_refl h.content_format)),
        check_length-ok len (forward query len (len / backup_chunk_size + 1) 0 []) written
            (ground arith),
      )
    ]
backup_checked (err x) query written e = absurd (ground arith)
backup_checked panic query written e = absurd (ground arith)

-- ===== src/StableStorage/Interface/Blocks.antt =====
-- Blocks of stable memory that are written and read back.
use metamagic.Prelude.{
  ◌⊎◌, ltb→lt, ltb→le, ℕ, ◌+◌, ◌*◌, ◌/◌, ◌≤◌, ◌<◌, ◌^◌, ◌≡◌, refl, ap, sym, ◌∙◌, arith, List, [],
  ◌∷◌, ◌++◌, length, length-append, Option, none, some, ok, or_panic, ltb, if◌then◌else◌,
  Bool-cases, Option-cases, inl, inr,
}
use mathlib.Core.Option.{some-injective}
use metamagic.Prelude.Word.{add64}
use metamagic.StableStorage.Memory.{StableMemory, IsLawful, page_size, bytes_from, overlay}
use metamagic.StableStorage.Memory.Overlay.{
  overlay-append, overlay_cong, bytes_from-overlay, bytes_from_cong,
}
use metamagic.StableStorage.Interface.{
  backup_stable_storage, init_stable_storage, restore_stable_storage,
  restore_stable_storage_compressed,
}

-- The blocks after decompression, one behind the other; `none` if one of them is no gzip stream.
abbrev pub gunzip_all : (List ℕ → Option (List ℕ)) → List (List ℕ) → Option (List ℕ)
gunzip_all gunzip [] = some []
gunzip_all gunzip (z ∷ zs) = elim (gunzip z) [
  | none ↦ none
  | some plain ↦ elim (gunzip_all gunzip zs) [ none ↦ none | some rest ↦ some (plain ++ rest) ]
]

gunzip_all-cons :
    (gunzip : List ℕ → Option (List ℕ)) (z : List ℕ) (zs : List (List ℕ)) {plain : List ℕ}
    → gunzip_all gunzip (z ∷ zs) ≡ some plain
    → (a : List ℕ) × (rest : List ℕ) × (gunzip z ≡ some a)
      × (gunzip_all gunzip zs ≡ some rest)
      × (a ++ rest ≡ plain)
gunzip_all-cons gunzip z zs e = elim (Option-cases (gunzip z)) [
  | inl bad ↦ absurd (ground arith)
  | inr (a, unzipped) ↦ elim (Option-cases (gunzip_all gunzip zs)) [
    | inl bad ↦ absurd (ground arith)
    | inr (rest, others) ↦ (a, rest, unzipped, others, ground arith)
  ]
]

or_panic-eq-ok : {A : Type 0} (o : Option A) {a : A} → or_panic {E = ⊥} o ≡ ok a → o ≡ some a
or_panic-eq-ok none e = cc
or_panic-eq-ok (some b) e = cc

module _ (M : StableMemory) (L : IsLawful M) where
  open M use {Mem, pages, byte_at}

  init_cases :
      (len : ℕ) (m m' : Mem)
      → init_stable_storage M len m ≡ ok m'
      → ((pages m < len / page_size + 1) × (M.grow (len / page_size + 1) m ≡ some m'))
        ⊎ ((len / page_size + 1 ≤ pages m) × (m ≡ m'))
  unfolding init_stable_storage
  init_cases len m m' e = elim (Bool-cases (ltb (pages m) (len / page_size + 1))) [
    | inl less ↦ inl (ltb→lt _ _ less, or_panic-eq-ok _ (rw (less, init_stable_storage) at e))
    | inr enough ↦ inr (ltb→le _ _ enough, ground arith)
  ]

  -- Initialising for `len` bytes either panics, since the memory cannot grow, or leaves at least
  -- `len` bytes, with those that were there. A memory that had fewer pages than `len` needs is
  -- grown by that many pages, and not to that many; one that had enough is left alone.
  pub init_stable_storage_lem :
      (len : ℕ) (m m' : Mem)
      → init_stable_storage M len m ≡ ok m'
      → (len ≤ pages m' * page_size)
        × (pages m' ≡ (
            if ltb (pages m) (len / page_size + 1)
            then pages m + (len / page_size + 1)
            else pages m))
        × (bytes_from (byte_at m') 0 (pages m * page_size)
            ≡ bytes_from (byte_at m) 0 (pages m * page_size))
  init_stable_storage_lem len m m' e = elim (init_cases len m m' e) [
    | inl (less, grown) ↦
        let (p, v) = L.grow_adds (len / page_size + 1) m grown in
        (
          omega arith,
          ground arith,
          bytes_from_cong _ _ (pages m * page_size) 0 (λ i _ lt. v i (omega arith)),
        )
    | inr (enough, same) ↦
        let p : pages m' ≡ pages m = ap pages (sym same) in
        (
          omega arith,
          ground arith,
          ap (λ x. bytes_from (byte_at x) 0 (pages m * page_size)) (sym same),
        )
  ]

  pub restore_stable_storage-ok :
      (offset : ℕ) (bytes : List ℕ) (m : Mem)
      → offset + length bytes ≤ pages m * page_size
      → (m' : Mem) × (restore_stable_storage M offset bytes m ≡ ok m')
        × (pages m' ≡ pages m)
        × ((i : ℕ) → byte_at m' i ≡ overlay bytes offset (byte_at m) i)
  unfolding restore_stable_storage
  restore_stable_storage-ok offset bytes m h =
      let (m', w, p, v) = L.write_inside offset bytes m h in (m', rw w, p, v)

  -- A write that is answered lays its block over the memory.
  pub restore_stable_storage-written :
      (offset : ℕ) (bytes : List ℕ) (m m' : Mem)
      → restore_stable_storage M offset bytes m ≡ ok m'
      → (pages m' ≡ pages m) × ((i : ℕ) → byte_at m' i ≡ overlay bytes offset (byte_at m) i)
  unfolding restore_stable_storage
  restore_stable_storage-written offset bytes m m' e =
      let w : M.write offset bytes m ≡ some m' = or_panic-eq-ok _ e in
      elim (Bool-cases (ltb (pages m * page_size) (offset + length bytes))) [
        | inl outside ↦ absurd (ground (arith, L.write_outside offset bytes m (ltb→lt _ _ outside)))
        | inr inside ↦
            let (m₁, w₁, p, v) = L.write_inside offset bytes m (ltb→le _ _ inside) in
            let same : m₁ ≡ m' = some-injective _ _ (sym w₁ ∙ w) in
            (ap pages (sym same) ∙ p, λ i. ap (λ x. byte_at x i) (sym same) ∙ v i)
      ]

  pub backup_stable_storage-inside :
      (offset limit : ℕ) (m : Mem)
      → offset + limit ≤ pages m * page_size
      → backup_stable_storage M offset limit m ≡ ok (bytes_from (byte_at m) offset limit)
  unfolding backup_stable_storage
  backup_stable_storage-inside offset limit m h = rw (L.read_inside offset limit m h)

  -- A block that fits in the memory can be written, and is read back from where it was written.
  pub backup-restore :
      (offset : ℕ) (bytes : List ℕ) (m : Mem)
      → offset + length bytes ≤ pages m * page_size
      → (m' : Mem) × (restore_stable_storage M offset bytes m ≡ ok m')
        × (backup_stable_storage M offset (length bytes) m' ≡ ok bytes)
  unfolding backup_stable_storage
  backup-restore offset bytes m h =
      let (m', w, p, v) = restore_stable_storage-ok offset bytes m h in
      (
        m',
        w,
        rw (L.read_inside offset (length bytes) m' (omega arith)) (
            ap ok (
              bytes_from_cong _ _ (length bytes) offset (λ i lo hi. v i)
              ∙ bytes_from-overlay bytes offset (byte_at m))),
      )

  compressed-cons :
      (gunzip : List ℕ → Option (List ℕ)) (offset next : ℕ) (z a : List ℕ) (zs : List (List ℕ))
      (m m' : Mem)
      → gunzip z ≡ some a
      → restore_stable_storage M offset a m ≡ ok m'
      → add64 offset (length a) ≡ next
      → restore_stable_storage_compressed M gunzip offset (z ∷ zs) m
        ≡ restore_stable_storage_compressed M gunzip next zs m'
  unfolding restore_stable_storage_compressed
  compressed-cons gunzip offset next z a zs m m' unzipped written e =
      rw unzipped (rw written (ap (λ n. restore_stable_storage_compressed M gunzip n zs m') e))

  -- Compressed blocks are written one behind the other, as their decompressed concatenation would
  -- be in one block.
  pub restore_compressed_lem :
      (gunzip : List ℕ → Option (List ℕ)) (offset : ℕ) (blocks : List (List ℕ)) (plain : List ℕ)
      (m : Mem)
      → gunzip_all gunzip blocks ≡ some plain
      → offset + length plain ≤ pages m * page_size
      → pages m * page_size < 2 ^ 64
      → (m' : Mem) × (restore_stable_storage_compressed M gunzip offset blocks m ≡ ok m')
        × (pages m' ≡ pages m)
        × ((i : ℕ) → byte_at m' i ≡ overlay plain offset (byte_at m) i)
  restore_compressed_lem gunzip offset [] plain m e fits small =
      let p : [] ≡ plain = some-injective _ _ e in
      (m, unfold restore_stable_storage_compressed in refl, refl, λ i. rw (← p) (ground arith))
  restore_compressed_lem gunzip offset (z ∷ zs) plain m e fits small =
      let (a, rest, unzipped, others, joined) = gunzip_all-cons gunzip z zs e in
      let len : length plain ≡ length a + length rest =
        ap length (sym joined) ∙ length-append a rest in
      let (m₁, w₁, p₁, v₁) = restore_stable_storage-ok offset a m (omega arith) in
      let next : add64 offset (length a) ≡ offset + length a = omega arith in
      let (m₂, w₂, p₂, v₂) =
        restore_compressed_lem gunzip (offset + length a) zs rest m₁ others (omega arith)
          (omega arith) in
      (
        m₂,
        compressed-cons gunzip offset (offset + length a) z a zs m m₁ unzipped w₁ next ∙ w₂,
        p₂ ∙ p₁,
        λ i.
            v₂ i
            ∙ overlay_cong rest (offset + length a) v₁ i
            ∙ overlay-append a rest offset (byte_at m) i
            ∙ ap (λ (x : List ℕ). overlay x offset (byte_at m) i) joined,
      )

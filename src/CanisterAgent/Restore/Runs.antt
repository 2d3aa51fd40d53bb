-- ===== src/CanisterAgent/Restore/Runs.antt =====
-- What a run of writes leaves, in whatever order and however often they are made.
use metamagic.StableStorage.Interface.Blocks.{restore_stable_storage-written}
use metamagic.StableStorage.Memory.Overlay.{overlay_behind}
use metamagic.Prelude.{
  ℕ, ◌+◌, ◌-◌, ◌≤◌, ◌<◌, ◌≡◌, refl, ap, sym, subst, ◌∙◌, suc, arith, List, [], ◌∷◌, ◌++◌, length,
  ok, ◌⊎◌, inl, inr, All, Bool-cases, All-remove, ltb→lt, ltb→le, ltb,
}
use metamagic.StableStorage.Memory.{StableMemory, IsLawful, get_or}
use metamagic.StableStorage.Interface.{restore_stable_storage}
use metamagic.CanisterAgent.Restore.{Chunk, Attempt, Writes}

-- The chunk holds what the target shows at its place.
abbrev pub Agrees : (ℕ → ℕ) → Chunk → Type 0
Agrees target c =
    (i : ℕ) → c.0 ≤ i → i < c.0 + length c.1 → (d : ℕ) → get_or c.1 (i - c.0) d ≡ target i

-- The address is in one of the chunks.
abbrev pub Covers : ℕ → List Chunk → Type 0
Covers i [] = ⊥
Covers i (c ∷ cs) = ((c.0 ≤ i) × (i < c.0 + length c.1)) ⊎ Covers i cs

Covers-split :
    (i : ℕ) (before after : List Chunk) (c : Chunk)
    → Covers i (before ++ c ∷ after)
    → ((c.0 ≤ i) × (i < c.0 + length c.1)) ⊎ Covers i (before ++ after)
Covers-split i [] after c h = h
Covers-split i (b ∷ before) after c (inl here) = inr (inl here)
Covers-split i (b ∷ before) after c (inr there) = elim (Covers-split i before after c there) [
  | inl this ↦ inl this
  | inr other ↦ inr (inr other)
]

-- Writes without the bounds on what is under way and on the attempts: each is made once or more, in
-- any order.
pub data AnyOrder (M : StableMemory) : List Chunk → M.Mem → M.Mem → Type 0 where
  nothing : (m : M.Mem) → AnyOrder M [] m m
  write :
      (before after : List Chunk) (c : Chunk) {m m' m'' : M.Mem}
      → restore_stable_storage M c.0 c.1 m ≡ ok m'
      → AnyOrder M (before ++ after) m' m''
      → AnyOrder M (before ++ c ∷ after) m m''
  again :
      (before after : List Chunk) (c : Chunk) {m m' m'' : M.Mem}
      → restore_stable_storage M c.0 c.1 m ≡ ok m'
      → AnyOrder M (before ++ c ∷ after) m' m''
      → AnyOrder M (before ++ c ∷ after) m m''

under_way : List Attempt → List Chunk
under_way [] = []
under_way ((c, left) ∷ flight) = c ∷ under_way flight

under_way-append :
    (before after : List Attempt) (queue : List Chunk)
    → under_way (before ++ after) ++ queue ≡ under_way before ++ (under_way after ++ queue)
unfolding under_way
under_way-append [] after queue = refl
under_way-append ((c, left) ∷ before) after queue =
    ap (λ cs. c ∷ cs) (under_way-append before after queue)

module _ (M : StableMemory) where
  Writes-under_way :
      (queue : List Chunk) (flight : List Attempt) (m m' : M.Mem)
      → Writes M queue flight m m'
      → AnyOrder M (under_way flight ++ queue) m m'
  unfolding under_way
  Writes-under_way queue flight m m' (Writes.done _) = nothing m
  Writes-under_way queue flight m m' (Writes.start c others _ room r) =
      subst (λ cs. AnyOrder M cs m m') (under_way-append flight ((c, 6) ∷ []) others)
        (Writes-under_way others (flight ++ (c, 6) ∷ []) m m' r)
  Writes-under_way queue flight m m' (Writes.finish _ before after c left {m' = m₁} e r) =
      subst (λ cs. AnyOrder M cs m m') (sym (under_way-append before ((c, suc left) ∷ after) queue))
        (write (under_way before) (under_way after ++ queue) c e (
          subst (λ cs. AnyOrder M cs m₁ m') (under_way-append before after queue)
            (Writes-under_way queue (before ++ after) m₁ m' r)))
  Writes-under_way queue flight m m' (Writes.retry _ before after c left {m' = m₁} e r) =
      subst (λ cs. AnyOrder M cs m m') (sym (under_way-append before ((c, suc left) ∷ after) queue))
        (again (under_way before) (under_way after ++ queue) c e (
          subst (λ cs. AnyOrder M cs m₁ m') (under_way-append before ((c, left) ∷ after) queue)
            (Writes-under_way queue (before ++ (c, left) ∷ after) m₁ m' r)))
  Writes-under_way queue flight m m' (Writes.fail _ before after c left r) =
      subst (λ cs. AnyOrder M cs m m')
        (under_way-append before ((c, left) ∷ after) queue
          ∙ sym (under_way-append before ((c, suc left) ∷ after) queue))
        (Writes-under_way queue (before ++ (c, left) ∷ after) m m' r)

  pub Writes-AnyOrder : (cs : List Chunk) (m m' : M.Mem) → Writes M cs [] m m' → AnyOrder M cs m m'
  unfolding under_way
  Writes-AnyOrder cs m m' r = Writes-under_way cs [] m m' r

module _ (M : StableMemory) (L : IsLawful M) where
  open M use {Mem, pages, byte_at}

  module _ (target : ℕ → ℕ) where
    write_right :
        (c : Chunk) (m m' : Mem)
        → restore_stable_storage M c.0 c.1 m ≡ ok m'
        → Agrees target c
        → (i : ℕ) → ((c.0 ≤ i) × (i < c.0 + length c.1)) ⊎ (byte_at m i ≡ target i)
        → byte_at m' i ≡ target i
    write_right c m m' e agrees i (inl (lo, hi)) =
        let (p, v) = restore_stable_storage-written M L c.0 c.1 m m' e in
        ground (arith, v i, agrees i lo hi (byte_at m i))
    write_right c m m' e agrees i (inr right) =
        let (p, v) = restore_stable_storage-written M L c.0 c.1 m m' e in
        elim (Bool-cases (ltb i c.0)) [
          | inl below ↦ ground (arith, v i)
          | inr above ↦ elim (Bool-cases (ltb i (c.0 + length c.1))) [
            | inl inside ↦
                ground (arith, v i, agrees i (ltb→le _ _ above) (ltb→lt _ _ inside) (byte_at m i))
            | inr beyond ↦ v i ∙ overlay_behind c.1 c.0 (byte_at m) i (ltb→le _ _ beyond) ∙ right
          ]
        ]

    -- Writes of what a target shows: an address that is covered, or that was right, is right at the
    -- end.
    pub AnyOrder-right :
        (cs : List Chunk) (m m' : Mem)
        → AnyOrder M cs m m'
        → All (Agrees target) cs
        → (i : ℕ) → Covers i cs ⊎ (byte_at m i ≡ target i)
        → byte_at m' i ≡ target i
    AnyOrder-right cs m m' (nothing _) agrees i (inl covered) = absurd covered
    AnyOrder-right cs m m' (nothing _) agrees i (inr right) = right
    AnyOrder-right cs m m' (write before after c {m' = m₁} e r) agrees i h =
        let (this, others) = All-remove (Agrees target) before after c agrees in
        let step = write_right c m m₁ e this i in
        AnyOrder-right (before ++ after) m₁ m' r others i (elim h [
          | inl covered ↦ elim (Covers-split i before after c covered) [
            | inl here ↦ inr (step (inl here))
            | inr there ↦ inl there
          ]
          | inr right ↦ inr (step (inr right))
        ])
    AnyOrder-right cs m m' (again before after c {m' = m₁} e r) agrees i h =
        let (this, others) = All-remove (Agrees target) before after c agrees in
        AnyOrder-right (before ++ c ∷ after) m₁ m' r agrees i (elim h [
          | inl covered ↦ inl covered
          | inr right ↦ inr (write_right c m m₁ e this i (inr right))
        ])

-- ===== src/StableStorage/Memory.antt =====
-- `ic_cdk::api::stable`, which the interface calls: an interface with the laws that the Internet
-- Computer documents for stable memory.
pub mod Paged
pub mod Overlay
use metamagic.Prelude.{
  ℕ, zero, suc, ◌+◌, ◌-◌, ◌*◌, ◌≤◌, ◌<◌, ◌≡◌, List, [], ◌∷◌, length, Option, none, some, ltb,
  if◌then◌else◌,
}

-- `WASM_PAGE_SIZE_IN_BYTES`
abbrev pub page_size : ℕ
page_size = 64 * 1024

pub record StableMemory : Type 1 where
  pub Mem : Type 0
  -- `stable_size`
  pub pages : Mem → ℕ
  -- the byte at an address
  pub byte_at : Mem → ℕ → ℕ
  -- `stable_grow`, which adds pages and may fail
  pub grow : ℕ → Mem → Option Mem
  -- `stable_read` into a buffer of the given length, and `stable_write`; `none` is a trap.
  pub read : ℕ → ℕ → Mem → Option (List ℕ)
  pub write : ℕ → List ℕ → Mem → Option Mem

-- The `n` bytes of a view from address `o` on.
abbrev pub bytes_from : (ℕ → ℕ) → ℕ → ℕ → List ℕ
bytes_from view o zero = []
bytes_from view o (suc n) = view o ∷ bytes_from view (suc o) n

abbrev pub get_or : List ℕ → ℕ → ℕ → ℕ
get_or [] i d = d
get_or (x ∷ xs) zero d = x
get_or (x ∷ xs) (suc i) d = get_or xs i d

-- A view with `bs` laid over it from address `o` on.
abbrev pub overlay : List ℕ → ℕ → (ℕ → ℕ) → ℕ → ℕ
overlay bs o view i = if ltb i o then view i else get_or bs (i - o) (view i)

pub record IsLawful (M : StableMemory) : Type 0 where
  pub read_inside :
      (o n : ℕ) (m : M.Mem)
      → o + n ≤ M.pages m * page_size
      → M.read o n m ≡ some (bytes_from (M.byte_at m) o n)
  pub read_outside : (o n : ℕ) (m : M.Mem) → M.pages m * page_size < o + n → M.read o n m ≡ none
  pub write_inside :
      (o : ℕ) (bs : List ℕ) (m : M.Mem)
      → o + length bs ≤ M.pages m * page_size
      → (m' : M.Mem) × (M.write o bs m ≡ some m')
        × (M.pages m' ≡ M.pages m)
        × ((i : ℕ) → M.byte_at m' i ≡ overlay bs o (M.byte_at m) i)
  pub write_outside :
      (o : ℕ) (bs : List ℕ) (m : M.Mem)
      → M.pages m * page_size < o + length bs
      → M.write o bs m ≡ none
  pub grow_adds :
      (n : ℕ) (m : M.Mem) {m' : M.Mem}
      → M.grow n m ≡ some m'
      → (M.pages m' ≡ M.pages m + n)
        × ((i : ℕ) → i < M.pages m * page_size → M.byte_at m' i ≡ M.byte_at m i)

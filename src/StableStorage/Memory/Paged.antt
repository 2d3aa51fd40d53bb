-- ===== src/StableStorage/Memory/Paged.antt =====
-- A stable memory of a bounded number of pages, which meets the laws.
use metamagic.Prelude.{ℕ, ◌+◌, ◌*◌, refl, arith, length, none, some, leb, if◌then◌else◌}
use metamagic.StableStorage.Memory.{page_size, StableMemory, IsLawful, bytes_from, overlay}

pub record Pages : Type 0 where
  pub count : ℕ
  pub cell : ℕ → ℕ

abbrev max_pages : ℕ
max_pages = 65536

abbrev pub paged : StableMemory
paged = record {
  Mem = Pages;
  pages = λ m. m.count;
  byte_at = λ m. m.cell;
  grow =
      λ n m. if leb (m.count + n) max_pages then some (record m { count = m.count + n }) else none;
  read = λ o n m. if leb (o + n) (m.count * page_size) then some (bytes_from m.cell o n) else none;
  write = λ o bs m.
      if leb (o + length bs) (m.count * page_size)
      then some (record m { cell = overlay bs o m.cell })
      else none;
}

pub paged-IsLawful : IsLawful paged
paged-IsLawful = record {
  read_inside = λ o n m h. ground arith;
  read_outside = λ o n m h. ground arith;
  write_inside =
      λ o bs m h. (record m { cell = overlay bs o m.cell }, ground arith, refl, λ i. refl);
  write_outside = λ o bs m h. ground arith;
  grow_adds = λ n m h. (ground arith, λ i inside. ground arith);
}

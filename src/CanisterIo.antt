-- ===== src/CanisterIo.antt =====
-- crates/ic-canister-io: readers and writers that can be moved into a serializer. A `Device` is a
-- `Read + Write + Seek` of the standard library, such as a file or a cursor over a vector.
pub mod Laws
use metamagic.Prelude.{
  ℕ, zero, suc, ◌∷◌, ◌+◌, ◌-◌, ◌≤◌, List, [], ◌++◌, length, take, drop, replicate, leb,
  if◌then◌else◌, Option, none, some, Outcome, ok, err,
}

-- `room` is the size that the device can grow to; a write beyond it is an io error.
pub record Device : Type 0 where
  pub bytes : List ℕ
  pub position : ℕ
  pub room : ℕ

-- What a device holds up to `p`; a gap behind its end reads as zeros.
abbrev pub front : ℕ → List ℕ → List ℕ
front zero xs = []
front (suc p) [] = 0 ∷ front p []
front (suc p) (x ∷ xs) = x ∷ front p xs

-- `bs` written over `xs` from position `p` on.
unfoldable pub splice : List ℕ → ℕ → List ℕ → List ℕ
splice xs p bs = front p xs ++ (bs ++ drop (p + length bs) xs)

-- `Seek::seek(SeekFrom::Start(p))`
unfoldable pub seek_start : ℕ → Device → Device
seek_start p d = record d { position = p }

-- `Write::write_all`; `none` is the io error.
unfoldable pub write_all : List ℕ → Device → Option Device
write_all bs d =
    if leb (d.position + length bs) d.room
    then some (record d { bytes = splice d.bytes d.position bs; position = d.position + length bs })
    else none

-- The bytes that a reader has still to give.
unfoldable pub remaining : Device → List ℕ
remaining d = drop d.position d.bytes

-- The device after `n` more bytes were read.
unfoldable pub advance : ℕ → Device → Device
advance n d = record d { position = d.position + n }

-- `MovableReader` and `MovableWriter` hold a reference, so what is read and written through them
-- moves the device itself.
pub record Movable : Type 0 where
  pub inner : Device

pub new : Device → Movable
new d = record { inner = d }

pub movable_seek : ℕ → Movable → Movable
movable_seek p m = record m { inner = seek_start p m.inner }

pub movable_write : List ℕ → Movable → Option Movable
movable_write bs m = elim (write_all bs m.inner) [
  | none ↦ none
  | some d ↦ some (record m { inner = d })
]

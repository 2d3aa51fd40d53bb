-- ===== src/StableStorage/Adapters.antt =====
-- The adapters of data_format.rs over rmp_serde and bincode, which are parameters, and the choice
-- between them by the format.
pub mod Bytes
use metamagic.Prelude.{
  ℕ, ◌≡◌, String, ◌<>◌, List, ◌++◌, ◌⊎◌, inl, inr, length, Option, none, some, Outcome, ok, err,
  map_err, ok_or,
}
use metamagic.CanisterIo.{Device, write_all, remaining, advance}
use metamagic.StableStorage.DataFormat.{DataFormatType, unknown, msg_pack, bincode, display}
use metamagic.StableStorage.Errors.{
  Error, msg_pack_decode, msg_pack_encode, bincode as bincode_error,
}

-- A serde format for values of a type. `encode` gives the bytes that are written, or fails.
-- `decode` is given the stored schema version, which the `deserialize_with` functions of the type
-- read, and the bytes of the reader; it gives the value and how many bytes it took.
pub record Serde (T : Type 0) : Type 0 where
  pub encode : T → Option (List ℕ)
  pub decode : ℕ → List ℕ → Option (T × ℕ)

-- What the crates promise of a value at a schema version: its bytes are read back, whatever follows
-- them.
abbrev pub ReadsBack : {T : Type 0} → Serde T → ℕ → T → List ℕ → Type 0
ReadsBack s version t bytes =
    (s.encode t ≡ some bytes)
    × ((rest : List ℕ) → s.decode version (bytes ++ rest) ≡ some (t, length bytes))

pub record Formats (T : Type 0) : Type 0 where
  pub rmp_serde : Serde T
  pub bincode_crate : Serde T

module _ {T : Type 0} (formats : Formats T) where
  serialize : Serde T → Error → Device → T → Outcome Error Device
  serialize s e writer t = elim (s.encode t) [
    | none ↦ err e
    | some bytes ↦ ok_or (write_all bytes writer) e
  ]

  deserialize : Serde T → Error → Device → ℕ → Outcome Error (T × Device)
  deserialize s e reader version = elim (s.decode version (remaining reader)) [
    | none ↦ err e
    | some (t, n) ↦ ok (t, advance n reader)
  ]

  -- `MsgPackAdapter` and `BincodeAdapter`
  unfoldable pub msg_pack_serialize : Device → T → Outcome Error Device
  unfolding serialize
  msg_pack_serialize = serialize formats.rmp_serde msg_pack_encode

  unfoldable pub msg_pack_deserialize : Device → ℕ → Outcome Error (T × Device)
  unfolding deserialize
  msg_pack_deserialize = deserialize formats.rmp_serde msg_pack_decode

  unfoldable pub bincode_serialize : Device → T → Outcome Error Device
  unfolding serialize
  bincode_serialize = serialize formats.bincode_crate bincode_error

  unfoldable pub bincode_deserialize : Device → ℕ → Outcome Error (T × Device)
  unfolding deserialize
  bincode_deserialize = deserialize formats.bincode_crate bincode_error

  -- `DataFormatType::serde_serialize` and `serde_deserialize`; an error is its message.
  unfoldable pub serde_serialize : DataFormatType → Device → T → Outcome (Error ⊎ String) Device
  unfolding bincode_serialize msg_pack_serialize display
  serde_serialize bincode writer t = map_err inl (bincode_serialize writer t)
  serde_serialize msg_pack writer t = map_err inl (msg_pack_serialize writer t)
  serde_serialize f writer t = err (inr ("Incompatible format " <> display f))

  unfoldable pub serde_deserialize :
      DataFormatType → Device → ℕ → Outcome (Error ⊎ String) (T × Device)
  unfolding bincode_deserialize msg_pack_deserialize display
  serde_deserialize bincode reader version = map_err inl (bincode_deserialize reader version)
  serde_deserialize msg_pack reader version = map_err inl (msg_pack_deserialize reader version)
  serde_deserialize f reader version = err (inr ("Incompatible format " <> display f))

-- The serializer of a format; `unknown` has none.
abbrev pub serde_of : {T : Type 0} → Formats T → DataFormatType → Option (Serde T)
serde_of formats unknown = none
serde_of formats msg_pack = some formats.rmp_serde
serde_of formats bincode = some formats.bincode_crate

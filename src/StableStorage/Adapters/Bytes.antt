-- ===== src/StableStorage/Adapters/Bytes.antt =====
-- data_format.rs: values as bytes in memory.
use metamagic.Prelude.{
  ℕ, ◌+◌, ◌≤◌, ◌≡◌, refl, ap, ◌∙◌, arith, String, List, [], ◌++◌, ◌⊎◌, inl, inr, length, some,
  Outcome, ok, err, ◌>>=◌, append-nil, Option-cases, subst, sym,
}
use metamagic.CanisterIo.{remaining, splice, advance}
use metamagic.CanisterIo.Laws.{write_all-ok, drop-nil}
use metamagic.StableStorage.DataFormat.{DataFormatType, unknown, msg_pack, bincode}
use mathlib.Core.Option.{some-injective}
use metamagic.StableStorage.Errors.{
  Error, msg_pack_decode, msg_pack_encode, bincode as bincode_error,
}
use metamagic.StableStorage.Adapters.{
  Serde, ReadsBack, Formats, serde_of, serialize, deserialize, msg_pack_serialize,
  msg_pack_deserialize, bincode_serialize, bincode_deserialize, serde_serialize, serde_deserialize,
}

module _ {T : Type 0} (formats : Formats T) where
  -- `serde_serialize_bytes`: the writer is a vector, and `room` what memory can hold of one.
  unfoldable pub serde_serialize_bytes : ℕ → DataFormatType → T → Outcome (Error ⊎ String) (List ℕ)
  serde_serialize_bytes room format t = do
    writer ← serde_serialize formats format (record { bytes = []; position = 0; room = room }) t
    ok writer.bytes

  -- `serde_deserialize_bytes`: the reader is a cursor at the start of the bytes.
  unfoldable pub serde_deserialize_bytes : DataFormatType → List ℕ → ℕ → Outcome (Error ⊎ String) T
  serde_deserialize_bytes format bytes version = do
    (t, _) ←
        serde_deserialize formats format
          (record { bytes = bytes; position = 0; room = length bytes }) version
    ok t

  module _ (s : Serde T) (e : Error) (t : T) (bytes rest : List ℕ) (version room : ℕ)
      (back : ReadsBack s version t bytes) (fits : length bytes ≤ room) where
    spliced : splice [] 0 bytes ≡ bytes
    unfolding splice
    spliced = ap (λ tail. bytes ++ tail) (drop-nil (0 + length bytes)) ∙ append-nil bytes

    into_vector :
        serialize formats s e (record { bytes = []; position = 0; room = room }) t
        ≡ ok (record { bytes = splice [] 0 bytes; position = 0 + length bytes; room = room })
    unfolding serialize
    into_vector = elim (Option-cases (s.encode t)) [
      | inl none_is ↦ absurd (let clash = sym none_is ∙ back.0 in cc)
      | inr (b, some_is) ↦ ground (
        arith,
        back.0,
        write_all-ok bytes (record { bytes = []; position = 0; room = room }) (omega arith),
      )
    ]

    from_cursor :
        deserialize formats s e
          (record { bytes = bytes ++ rest; position = 0; room = length (bytes ++ rest) })
          version
        ≡ ok (
          t,
          advance
              (length bytes)
              (record { bytes = bytes ++ rest; position = 0; room = length (bytes ++ rest) }),
        )
    unfolding deserialize remaining
    from_cursor = rw (deserialize, back.1 rest) refl

  -- In a format that is known, a value that its crate reads back is serialized to the bytes of the
  -- crate, which give the value again at the same schema version, whatever follows them; in the
  -- unknown format both directions fail with the same message.
  pub serde_bytes_lem :
      (format : DataFormatType) (s : Serde T) (t : T) (bytes rest : List ℕ) (version room : ℕ)
      → serde_of formats format ≡ some s
      → ReadsBack s version t bytes
      → length bytes ≤ room
      → (serde_serialize_bytes room format t ≡ ok bytes)
        × (serde_deserialize_bytes format (bytes ++ rest) version ≡ ok t)
        × ((e : Error ⊎ String) × (serde_serialize_bytes room unknown t ≡ err e)
            × (serde_deserialize_bytes unknown (bytes ++ rest) version ≡ err e))
  unfolding serde_serialize_bytes serde_deserialize_bytes serde_serialize serde_deserialize
      msg_pack_serialize msg_pack_deserialize bincode_serialize bincode_deserialize
  serde_bytes_lem unknown s t bytes rest version room known back fits = cc
  serde_bytes_lem msg_pack s t bytes rest version room known back fits =
      let back' = subst (λ x. ReadsBack x version t bytes) (sym (some-injective _ _ known)) back in
      (
        rw (into_vector formats.rmp_serde msg_pack_encode t bytes rest version room back' fits) (
            ap ok (spliced formats.rmp_serde msg_pack_encode t bytes rest version room back' fits)),
        rw (from_cursor formats.rmp_serde msg_pack_decode t bytes rest version room back' fits)
            refl,
        (inr "Incompatible format Unknown", refl, refl),
      )
  serde_bytes_lem bincode s t bytes rest version room known back fits =
      let back' = subst (λ x. ReadsBack x version t bytes) (sym (some-injective _ _ known)) back in
      (
        rw (into_vector formats.bincode_crate bincode_error t bytes rest version room back' fits) (
            ap ok
              (spliced formats.bincode_crate bincode_error t bytes rest version room back' fits)),
        rw (from_cursor formats.bincode_crate bincode_error t bytes rest version room back' fits)
            refl,
        (inr "Incompatible format Unknown", refl, refl),
      )

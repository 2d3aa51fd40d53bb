-- ===== src/StableStorage/V2/Frame.antt =====
-- What a save leaves alone, and when it fails.
use metamagic.Prelude.{
  ℕ, ◌+◌, ◌≤◌, ◌<◌, ◌^◌, ◌≡◌, ◌≢◌, inl, inr, Option-cases, refl, ap, sym, ◌∙◌, arith, false, List,
  length, drop, take, none, some, ok, err, if◌then◌else◌,
}
use metamagic.Prelude.Word.{add64}
use metamagic.CanisterIo.{Device, splice, front, seek_start}
use metamagic.CanisterIo.Laws.{drop-drop, take-splice, front-splice, drop-splice_behind}
use metamagic.StableStorage.DataFormat.{DataFormatType, unknown, msg_pack, bincode, as_u64}
use metamagic.StableStorage.Header.{Header, invalid_content_format, as_bytes, num_all_fields_bytes}
use metamagic.StableStorage.Header.Codec.{length-as_bytes}
use metamagic.StableStorage.Errors.{Error, msg_pack_encode, bincode as bincode_error, header}
use metamagic.StableStorage.Transient.{Transient}
use metamagic.StableStorage.Adapters.{
  Serde, Formats, serde_of, msg_pack_serialize, bincode_serialize,
}
use metamagic.StableStorage.V2.{serialize_content, save}
use metamagic.StableStorage.V2.RoundTrip.{save-eq-saved, saved, stored_header}

drop_behind :
    (count : ℕ) (w : Device) (h : Header) (bytes : List ℕ)
    → drop (w.position + 40 + length bytes) (saved count w h bytes).bytes
      ≡ drop (w.position + 40 + length bytes) w.bytes
drop_behind count w h bytes =
    let stored = as_bytes (stored_header count h bytes) in
    let content = splice w.bytes (w.position + 40) bytes in
    sym (drop-drop (w.position + 40) (length bytes) (saved count w h bytes).bytes)
    ∙ ap (drop (length bytes)) header_part
    ∙ drop-drop (w.position + 40) (length bytes) content
    ∙ drop-splice_behind w.bytes (w.position + 40) bytes
  where
    header_part :
        drop (w.position + 40) (saved count w h bytes).bytes
        ≡ drop (w.position + 40) (splice w.bytes (w.position + 40) bytes)
    header_part = rw length-as_bytes at (
        drop-splice_behind (splice w.bytes (w.position + 40) bytes) w.position
          (as_bytes (stored_header count h bytes)))

module _ {T : Type 0} (formats : Formats T) where
  -- A save writes the header and the contents from where the device stands and nothing else: what
  -- lies before is kept, with zeros in a gap behind the device's end, and what lies behind the
  -- contents is kept. The device is left behind the header.
  pub save_frame :
      (count : ℕ) (w : Device) (t : T) (h : Header) (tr : Transient) (s : Serde T) (bytes : List ℕ)
      → serde_of formats h.content_format ≡ some s
      → s.encode t ≡ some bytes
      → tr.skip_next_save ≡ false
      → w.position + 40 + length bytes ≤ w.room
      → w.room < 2 ^ 64
      → (w' : Device) × (save formats count w t h tr ≡ ok w')
        × (take w.position w'.bytes ≡ front w.position w.bytes)
        × (drop (w.position + 40 + length bytes) w'.bytes
            ≡ drop (w.position + 40 + length bytes) w.bytes)
        × (w'.position ≡ w.position + 40)
  save_frame count w t h tr s bytes format encoded kept fits small = (
    saved count w h bytes,
    save-eq-saved formats count w t h tr s bytes format encoded kept fits small,
    take-splice _ w.position _
        ∙ front-splice w.position (w.position + 40) w.bytes bytes (omega arith),
    drop_behind count w h bytes,
    refl,
  )

-- What a failing encoder answers; for `unknown`, the refusal of the format itself.
abbrev pub encode_error : DataFormatType → Error
encode_error unknown = header (invalid_content_format 0)
encode_error msg_pack = msg_pack_encode
encode_error bincode = bincode_error

abbrev Encodes : {T : Type 0} → Formats T → DataFormatType → T → Type 0
Encodes formats unknown t = ⊥
Encodes formats msg_pack t = formats.rmp_serde.encode t ≢ none
Encodes formats bincode t = formats.bincode_crate.encode t ≢ none

module _ {T : Type 0} (formats : Formats T) where
  serialize_content_refused :
      (f : DataFormatType) (w : Device) (t : T)
      → ¬ Encodes formats f t
      → serialize_content formats f w t ≡ err (encode_error f)
  unfolding serialize_content msg_pack_serialize bincode_serialize as_u64
  serialize_content_refused unknown w t h = refl
  serialize_content_refused msg_pack w t h = elim (Option-cases (formats.rmp_serde.encode t)) [
    | inl e ↦ ground arith
    | inr (bytes, e) ↦ absurd (h (λ n. cc))
  ]
  serialize_content_refused bincode w t h = elim (Option-cases (formats.bincode_crate.encode t)) [
    | inl e ↦ ground arith
    | inr (bytes, e) ↦ absurd (h (λ n. cc))
  ]

  -- A save that is not skipped fails where the format is unknown or its encoder refuses the
  -- contents; the error names the format, or the encoder. A save that is skipped succeeds and
  -- leaves the device as it is.
  pub save_refused :
      (count : ℕ) (w : Device) (t : T) (h : Header) (tr : Transient)
      → ¬ Encodes formats h.content_format t
      → save formats count w t h tr
        ≡ (if tr.skip_next_save then ok w else err (encode_error h.content_format))
  unfolding save
  save_refused count w t h tr refused = rw (
      serialize_content_refused h.content_format
        (seek_start (add64 w.position (num_all_fields_bytes h)) w) t refused)

-- ===== src/StableStorage/V2/RoundTrip.antt =====
-- Saved state is restored, and what else a save writes.
use metamagic.Prelude.{
  drop-append, ℕ, ◌+◌, ◌-◌, ◌%◌, ◌≤◌, ◌<◌, ◌^◌, ◌≡◌, ◌≢◌, ap, sym, ◌∙◌, arith, true, false, List,
  ◌++◌, length, drop, length-append, some, ok, err, panic,
}
use metamagic.Prelude.Word.{IsU64, sub64}
use metamagic.CanisterIo.{Device, splice, seek_start, remaining, advance}
use metamagic.CanisterIo.Laws.{drop-drop, drop-splice, write_all-ok}
use metamagic.StableStorage.DataFormat.{DataFormatType, unknown, msg_pack, bincode}
use metamagic.StableStorage.Header as HeaderModule
use metamagic.StableStorage.Header.{
  Header, num_fields, as_bytes, num_all_fields_bytes, new_from_reader,
}
use metamagic.StableStorage.Header.Codec.{
  IsValid, length-as_bytes, num_all_fields_bytes-eq, new_from_reader-as_bytes,
}
use metamagic.StableStorage.Errors.{header}
use metamagic.StableStorage.Transient.{Transient, default_transient}
use metamagic.StableStorage.Adapters.{
  Serde, ReadsBack, Formats, serde_of, msg_pack_serialize, msg_pack_deserialize, bincode_serialize,
  bincode_deserialize,
}
use metamagic.StableStorage.V2.{
  write_header, read_header, serialize_content, deserialize_content, save, restore_content, restore,
}

module _ {T : Type 0} (formats : Formats T) where
  serialize_content-ok :
      (f : DataFormatType) (s : Serde T) (t : T) (bytes : List ℕ) (w : Device)
      → serde_of formats f ≡ some s
      → s.encode t ≡ some bytes
      → w.position + length bytes ≤ w.room
      → serialize_content formats f w t
        ≡ ok (record w {
          bytes = splice w.bytes w.position bytes;
          position = w.position + length bytes;
        })
  unfolding serialize_content msg_pack_serialize bincode_serialize
  serialize_content-ok unknown s t bytes w e k fits = cc
  serialize_content-ok msg_pack s t bytes w e k fits = ground (arith, write_all-ok bytes w fits)
  serialize_content-ok bincode s t bytes w e k fits = ground (arith, write_all-ok bytes w fits)

  deserialize_content-ok :
      (f : DataFormatType) (s : Serde T) (t : T) (n version : ℕ) (r : Device)
      → serde_of formats f ≡ some s
      → s.decode version (remaining r) ≡ some (t, n)
      → deserialize_content formats f r version ≡ ok (t, advance n r)
  unfolding deserialize_content msg_pack_deserialize bincode_deserialize
  deserialize_content-ok unknown s t n version r e k = cc
  deserialize_content-ok msg_pack s t n version r e k = ground arith
  deserialize_content-ok bincode s t n version r e k = ground arith

read_header-as_bytes :
    (h : Header) (rest : List ℕ) (r : Device)
    → IsValid h
    → h.content_format ≢ unknown
    → remaining r ≡ as_bytes h ++ rest
    → read_header r ≡ ok (record h { header_length = num_fields }, advance 40 r)
unfolding read_header
read_header-as_bytes h rest r v known e =
    rw (e, new_from_reader-as_bytes h rest v known)
      (ap (λ n. ok (record h { header_length = num_fields }, advance n r)) taken)
  where
    taken : length (as_bytes h ++ rest) - length rest ≡ 40
    taken = omega (arith, length-append (as_bytes h) rest, length-as_bytes h)

abbrev pub stored_header : ℕ → Header → List ℕ → Header
stored_header count h bytes = record h {
  content_length = length bytes;
  pre_upgrade_instruction_count = count;
}

-- What a save leaves on the device: the contents behind the place of the header, then the header.
abbrev pub saved : ℕ → Device → Header → List ℕ → Device
saved count w h bytes = record w {
  bytes =
      splice (splice w.bytes (w.position + 40) bytes) w.position
        (as_bytes (stored_header count h bytes));
  position = w.position + 40;
}

write_header-ok :
    (h : Header) (d : Device)
    → d.position + 40 ≤ d.room
    → write_header h d
      ≡ ok (record d { bytes = splice d.bytes d.position (as_bytes h); position = d.position + 40 })
unfolding write_header
write_header-ok h d room =
    rw (write_all-ok (as_bytes h) d (omega (arith, length-as_bytes h)), length-as_bytes h)

-- The content length is computed back from the positions.
measured : (p n : ℕ) → p + 40 + n < 2 ^ 64 → sub64 (sub64 (p + 40 + n) p) 40 ≡ n
measured p n small = omega arith

in_range : (p : ℕ) → p < 2 ^ 64 → p % 2 ^ 64 ≡ p
in_range p h = omega arith

module _ {T : Type 0} (formats : Formats T) (count : ℕ) (w : Device) (t : T) (h : Header)
    (tr : Transient) (s : Serde T) (bytes : List ℕ) where
  pub save-eq-saved :
      serde_of formats h.content_format ≡ some s
      → s.encode t ≡ some bytes
      → tr.skip_next_save ≡ false
      → w.position + 40 + length bytes ≤ w.room
      → w.room < 2 ^ 64
      → save formats count w t h tr ≡ ok (saved count w h bytes)
  unfolding save seek_start
  save-eq-saved format encoded kept fits small =
      let start = seek_start (w.position + 40) w in
      rw (kept, num_all_fields_bytes-eq h, in_range (w.position + 40) (omega arith))
        (rw (serialize_content-ok formats h.content_format s t bytes start format encoded fits) (
          rw (measured w.position (length bytes) (omega arith)) (
            write_header-ok (stored_header count h bytes)
              (seek_start w.position
                (record start { bytes = splice w.bytes (w.position + 40) bytes }))
              (omega arith))))

pub drop-saved :
    (count : ℕ) (w : Device) (h : Header) (bytes : List ℕ)
    → drop w.position (saved count w h bytes).bytes
      ≡ as_bytes (stored_header count h bytes)
        ++ (bytes ++ drop (w.position + 40 + length bytes) w.bytes)
drop-saved count w h bytes = rw (
  drop-splice (splice w.bytes (w.position + 40) bytes) w.position
      (as_bytes (stored_header count h bytes)),
  length-as_bytes (stored_header count h bytes),
  drop-splice w.bytes (w.position + 40) bytes,
)

-- What is left once the header is read.
remaining_contents :
    (r : Device) (h : Header) (tail : List ℕ)
    → remaining r ≡ as_bytes h ++ tail
    → remaining (advance 40 r) ≡ tail
unfolding remaining advance
remaining_contents r h tail e =
    sym (drop-drop r.position 40 r.bytes)
    ∙ rw e (drop-append (as_bytes h) tail 40 (sym (length-as_bytes h)))

module _ {T : Type 0} (formats : Formats T) (s : Serde T) (t : T) (bytes : List ℕ) where
  known : (f : DataFormatType) → serde_of formats f ≡ some s → f ≢ unknown
  known f e p = cc

  -- Storage that begins with a header and the contents it announces is restored.
  pub restore-read :
      (post version : ℕ) (r : Device) (h : Header) (rest : List ℕ)
      → serde_of formats h.content_format ≡ some s
      → ReadsBack s h.content_schema_version t bytes
      → IsValid h
      → remaining r ≡ as_bytes h ++ (bytes ++ rest)
      → restore formats post r version ≡ (
        ok (
          record h { header_length = num_fields },
          record default_transient { post_upgrade_instruction_count = post },
          t,
        ),
        h.content_schema_version,
      )
  unfolding restore restore_content
  restore-read post version r h rest format back valid here =
      let read : read_header r ≡ ok (record h { header_length = num_fields }, advance 40 r) =
        read_header-as_bytes h (bytes ++ rest) r valid (known h.content_format format) here in
      rw (read, restore)
        (rw (
          deserialize_content-ok formats h.content_format s t (length bytes)
            h.content_schema_version (advance 40 r) format
            (rw (remaining_contents r h (bytes ++ rest) here) (back.1 _))))

  pub restore-saved :
      (count post version : ℕ) (w : Device) (h : Header)
      → serde_of formats h.content_format ≡ some s
      → ReadsBack s h.content_schema_version t bytes
      → IsValid (stored_header count h bytes)
      → restore formats post (seek_start w.position (saved count w h bytes)) version ≡ (
        ok (
          record (stored_header count h bytes) { header_length = num_fields },
          record default_transient { post_upgrade_instruction_count = post },
          t,
        ),
        h.content_schema_version,
      )
  restore-saved count post version w h format back valid =
      restore-read post version (seek_start w.position (saved count w h bytes))
        (stored_header count h bytes) (drop (w.position + 40 + length bytes) w.bytes) format back
        valid (unfold remaining seek_start in drop-saved count w h bytes)

  -- A save that is not skipped, of contents that the format can encode and the storage can hold,
  -- succeeds, and a restore from where the save began gives back the contents, whatever schema
  -- version the thread held before. The header that comes back names the format and the version
  -- that were given, the true length of the contents and the instruction count of the save; the
  -- next save is not skipped, and the thread holds the version of the header.
  pub restore-save :
      (count post version : ℕ) (w : Device) (h : Header) (tr : Transient)
      → serde_of formats h.content_format ≡ some s
      → ReadsBack s h.content_schema_version t bytes
      → tr.skip_next_save ≡ false
      → IsU64 h.content_schema_version
      → IsU64 count
      → w.position + 40 + length bytes ≤ w.room
      → w.room < 2 ^ 64
      → (w' : Device) × (save formats count w t h tr ≡ ok w')
        × (restore formats post (seek_start w.position w') version ≡ (
          ok (
            record h {
              header_length = num_fields;
              content_length = length bytes;
              pre_upgrade_instruction_count = count;
            },
            record { skip_next_save = false; post_upgrade_instruction_count = post },
            t,
          ),
          h.content_schema_version,
        ))
  restore-save count post version w h tr format back kept v64 c64 fits small = (
    saved count w h bytes,
    save-eq-saved formats count w t h tr s bytes format back.0 kept fits small,
    restore-saved count post version w h format back (record {
      content_length = omega arith;
      content_schema_version = v64;
      pre_upgrade_instruction_count = c64;
    }),
  )

module _ {T : Type 0} (formats : Formats T) (count : ℕ) (r : Device) (version : ℕ) where
  -- A header that is refused leaves the schema version alone, and its error is the restore's.
  pub restore_refused :
      (e : HeaderModule.Error)
      → new_from_reader (remaining r) ≡ err e
      → restore formats count r version ≡ (err (header e), version)
  unfolding restore read_header
  restore_refused e refused = rw (refused, restore)

  pub restore_panics :
      new_from_reader (remaining r) ≡ panic → restore formats count r version ≡ (panic, version)
  unfolding restore read_header
  restore_panics e = rw (e, restore)

pub save_skipped :
    {T : Type 0} (formats : Formats T) (count : ℕ) (w : Device) (t : T) (h : Header)
    (tr : Transient)
    → tr.skip_next_save ≡ true
    → save formats count w t h tr ≡ ok w
unfolding save
save_skipped formats count w t h tr e = rw e

-- ===== src/StableStorage/Files.antt =====
-- file_util.rs: the v2 layout in files. A file is its bytes under its path; `room` is what the disk
-- can hold of one.
mod Tests
use metamagic.Prelude.{
  ℕ, ◌+◌, ◌*◌, ◌^◌, ◌≤◌, ◌<◌, ◌≡◌, ◌≢◌, refl, ap, sym, ◌∙◌, arith, String, Bool, true, false,
  Option, none, some, List, [], length, Outcome, ok, err, panic, ◌>>=◌, map_err, if◌then◌else◌,
  string_eq, ◌==◌, Option-cases,
}
use metamagic.Prelude.Word.{IsU64}
use metamagic.Prelude.HashMap.{HashMap, lookup, insert, lookup-insert}
use metamagic.CanisterIo.{Device, seek_start, remaining}
use metamagic.StableStorage.Header.{Header, num_fields, io, new_from_reader}
use metamagic.StableStorage.Header.Codec.{new_from_reader_truncated}
use metamagic.StableStorage.Errors
use metamagic.StableStorage.Transient.{Transient}
use metamagic.StableStorage.Adapters.{Serde, ReadsBack, Formats, serde_of}
use metamagic.StableStorage.V2.{save, restore}
use metamagic.StableStorage.V2.RoundTrip.{
  saved, stored_header, save-eq-saved, restore-saved, save_skipped, restore_refused,
}

-- An error of the layout, or of a file that is not there.
pub data FileError : Type 0 where
  no_file : FileError
  storage : Errors.Error → FileError

abbrev pub Files : Type 0
Files = HashMap String (List ℕ)

-- `Edge::default()` counts no instructions.
abbrev edge_count : ℕ
edge_count = 0

-- A file that is open at its start.
abbrev pub open_file : ℕ → List ℕ → Device
open_file room bytes = record { bytes = bytes; position = 0; room = room }

lookup_written :
    (file : String) (bytes : List ℕ) (files : Files)
    → lookup file (insert file bytes files) ≡ some bytes
lookup_written file bytes files = ground (arith, lookup-insert file file bytes files)

nothing_read : (room : ℕ) → new_from_reader (remaining (open_file room [])) ≡ err io
unfolding remaining
nothing_read room = new_from_reader_truncated [] (omega arith)

module _ {T : Type 0} (formats : Formats T) (room : ℕ) where
  -- The files, and the schema version that the thread holds, which is set before the save. The
  -- file can be opened, and is cut to nothing first; what a save that fails leaves in it is not
  -- modelled.
  unfoldable pub save_to_file :
      String → T → Header → Transient → Files → Outcome FileError Files × ℕ
  save_to_file file t header transient files = (
    do
      writer ← map_err storage (save formats edge_count (open_file room []) t header transient)
      ok (insert file writer.bytes files),
    header.content_schema_version,
  )

  unfoldable pub restore_from_file :
      String → Files → ℕ → Outcome FileError (Header × Transient × T) × ℕ
  restore_from_file file files version = elim (lookup file files) [
    | none ↦ (err no_file, version)
    | some bytes ↦
        let r = restore formats edge_count (open_file room bytes) version in
        (map_err storage r.0, r.1)
  ]

  restore_found :
      (file : String) (files : Files) (version : ℕ) (bytes : List ℕ)
      → lookup file files ≡ some bytes
      → restore_from_file file files version ≡ (
        map_err storage (restore formats edge_count (open_file room bytes) version).0,
        (restore formats edge_count (open_file room bytes) version).1,
      )
  unfolding restore_from_file
  restore_found file files version bytes found = rw (restore_from_file, found) refl

  -- A value that is saved to a file, with contents that the format can encode and the disk can
  -- hold, is restored from it with its header, whatever the file held before and whatever the other
  -- files hold. The header comes back with the true length of the contents and an instruction count
  -- of zero.
  pub restore_from_file-save_to_file :
      (file : String) (t : T) (h : Header) (tr : Transient) (files : Files) (version : ℕ)
      (s : Serde T) (bytes : List ℕ)
      → serde_of formats h.content_format ≡ some s
      → ReadsBack s h.content_schema_version t bytes
      → tr.skip_next_save ≡ false
      → IsU64 h.content_schema_version
      → 40 + length bytes ≤ room
      → room < 2 ^ 64
      → (files' : Files) × (save_to_file file t h tr files ≡ (ok files', h.content_schema_version))
        × (restore_from_file file files' version ≡ (
          ok (
            record h {
              header_length = num_fields;
              content_length = length bytes;
              pre_upgrade_instruction_count = 0;
            },
            record { skip_next_save = false; post_upgrade_instruction_count = 0 },
            t,
          ),
          h.content_schema_version,
        ))
        × ((other : String) → (other == file) ≡ false → lookup other files' ≡ lookup other files)
  unfolding save_to_file seek_start
  restore_from_file-save_to_file file t h tr files version s bytes format back kept v64 fits small =
      let w = open_file room [] in
      let bytes' = (saved 0 w h bytes).bytes in
      (
        insert file bytes' files,
        rw (save-eq-saved formats 0 w t h tr s bytes format back.0 kept fits small) refl,
        restore_found file (insert file bytes' files) version bytes'
              (lookup_written file bytes' files)
            ∙ ap (λ r. (map_err storage r.0, r.1))
                (unfold seek_start in
                  restore-saved formats s t bytes 0 0 version w h format back (record {
                    content_length = omega arith;
                    content_schema_version = v64;
                    pre_upgrade_instruction_count = omega arith;
                  })),
        λ other apart. rw (lookup-insert other file bytes' files, apart) refl,
      )

  -- A save that is to be skipped still empties the file: nothing can be restored from it.
  pub save_to_file_skipped :
      (file : String) (t : T) (h : Header) (tr : Transient) (files : Files) (version : ℕ)
      → tr.skip_next_save ≡ true
      → (files' : Files) × (save_to_file file t h tr files ≡ (ok files', h.content_schema_version))
        × (lookup file files' ≡ some [])
        × ((e : FileError) × (restore_from_file file files' version ≡ (err e, version)))
  unfolding save_to_file
  save_to_file_skipped file t h tr files version skipped = (
    insert file [] files,
    rw (save_skipped formats edge_count (open_file room []) t h tr skipped) refl,
    lookup_written file [] files,
    (
      storage (Errors.header io),
      restore_found file (insert file [] files) version [] (lookup_written file [] files)
          ∙ rw
              (restore_refused formats edge_count (open_file room []) version io
                (nothing_read room))
              refl,
    ),
  )

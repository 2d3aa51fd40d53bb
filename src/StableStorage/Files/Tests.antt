-- ===== src/StableStorage/Files/Tests.antt =====
-- Runs of file_util.rs on one file.
use metamagic.Prelude.{
  ℕ, none, ◌≡◌, refl, arith, String, true, false, some, [], ◌∷◌, ok, err, ◌==◌, string_eq,
}
use metamagic.Prelude.HashMap.{lookup}
use metamagic.StableStorage.DataFormat.{msg_pack}
use metamagic.StableStorage.Header.{Header, num_fields}
use metamagic.StableStorage.Transient.{Transient, default_transient}
use metamagic.StableStorage.Adapters.{Serde, Formats}
use metamagic.StableStorage.Files.{
  Files, FileError, save_to_file, restore_from_file, restore_from_file-save_to_file,
  save_to_file_skipped,
}

-- A number as one byte.
abbrev one_byte : Serde ℕ
one_byte = record {
  encode = λ n. some (n ∷ []);
  decode = λ version bytes. elim bytes [ [] ↦ none | b ∷ _ ↦ some (b, 1) ];
}

abbrev formats : Formats ℕ
formats = record { rmp_serde = one_byte; bincode_crate = one_byte }

abbrev a_header : Header
a_header = record {
  header_length = 4;
  content_length = 0;
  content_format = msg_pack;
  content_schema_version = 3;
  pre_upgrade_instruction_count = 9;
}

abbrev no_files : Files
no_files = []

abbrev to_skip : Transient
to_skip = record default_transient { skip_next_save = true }

restore_from_file-save_to_file_example :
    (files' : Files) × (save_to_file formats 100 "state" 7 a_header default_transient no_files
      ≡ (ok files', 3))
    × (restore_from_file formats 100 "state" files' 8 ≡ (
      ok (
        record a_header {
          header_length = num_fields;
          content_length = 1;
          pre_upgrade_instruction_count = 0;
        },
        record { skip_next_save = false; post_upgrade_instruction_count = 0 },
        7,
      ),
      3,
    ))
    × ((other : String) → (other == "state") ≡ false → lookup other files' ≡ lookup other no_files)
restore_from_file-save_to_file_example =
    restore_from_file-save_to_file formats 100 "state" 7 a_header default_transient no_files 8
      one_byte (7 ∷ []) refl (refl, λ rest. refl) refl (omega arith) (omega arith) (omega arith)

save_to_file_skipped_example :
    (files' : Files) × (save_to_file formats 100 "state" 7 a_header to_skip no_files
      ≡ (ok files', 3))
    × (lookup "state" files' ≡ some [])
    × ((e : FileError) × (restore_from_file formats 100 "state" files' 8 ≡ (err e, 8)))
save_to_file_skipped_example =
    save_to_file_skipped formats 100 "state" 7 a_header to_skip no_files 8 refl

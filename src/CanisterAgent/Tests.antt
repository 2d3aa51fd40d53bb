-- ===== src/CanisterAgent/Tests.antt =====
-- Backups and restores of a small storage.
use metamagic.Prelude.{ℕ, ◌≡◌, refl, arith, some, none, List, [], ◌∷◌, ◌++◌, ok}
use metamagic.Prelude.Word.{add64}
use metamagic.StableStorage.DataFormat.{msg_pack}
use metamagic.StableStorage.Header.{Header, as_bytes, num_all_fields_bytes}
use metamagic.StableStorage.Header.Codec.{IsValid, num_all_fields_bytes-eq}
use metamagic.StableStorage.Memory.{bytes_from}
use metamagic.StableStorage.Memory.Paged.{Pages, paged, paged-IsLawful}
use metamagic.StableStorage.Interface.{
  init, init_stable_storage, v1_v2_restore, stable_storage_info,
}
use metamagic.CanisterAgent.Backup.{Query, backup_stable_storage}
use metamagic.CanisterAgent.Backup.Chunks.{Shows, backup_lem}
use metamagic.CanisterAgent.Restore.{Restores}
use metamagic.CanisterAgent.Restore.Cycle.{query_of, restore_exists}
use metamagic.CanisterAgent.Restore.Upgrade.{stable_device, backup_restored}
use metamagic.StableStorage.Adapters.{Serde, Formats}

abbrev a_header : Header
a_header = record {
  header_length = 4;
  content_length = 2;
  content_format = msg_pack;
  content_schema_version = 3;
  pre_upgrade_instruction_count = 9;
}

a_header-IsValid : IsValid a_header
a_header-IsValid = record {
  content_length = omega arith;
  content_schema_version = omega arith;
  pre_upgrade_instruction_count = omega arith;
}

abbrev content : List ℕ
content = 7 ∷ 8 ∷ []

abbrev no_pages : Pages
no_pages = record { count = 0; cell = λ _. 0 }

abbrev one_page : Pages
one_page = record { count = 1; cell = λ _. 0 }

grows : init_stable_storage paged 42 no_pages ≡ ok one_page
unfolding init_stable_storage
grows = refl

-- A canister that shows zeros.
abbrev zeros : Query
zeros offset limit = ok (bytes_from (λ _. 0) offset limit)

zeros-Shows : Shows (λ _. 0) 42 zeros
zeros-Shows offset limit small inside = refl

a_total : add64 (num_all_fields_bytes a_header) 2 ≡ 42
a_total = omega (arith, num_all_fields_bytes-eq a_header)

a_backup : backup_stable_storage (ok a_header) zeros ≡ (ok tt, bytes_from (λ _. 0) 0 42)
a_backup = backup_lem a_header zeros (λ _. 0) 42 (λ e. cc) a_total zeros-Shows

restore_exists_example :
    (m' : Pages) × Restores paged (as_bytes a_header ++ content) none no_pages m'
restore_exists_example =
    restore_exists paged paged-IsLawful a_header content no_pages one_page a_header-IsValid
      (λ e. cc) refl (omega arith) grows

a_restore : (m' : Pages) × Restores paged (as_bytes a_header ++ content) none no_pages m'
a_restore =
    restore_exists paged paged-IsLawful a_header content no_pages one_page a_header-IsValid
      (λ e. cc) refl (omega arith) grows

-- Two numbers as two bytes.
abbrev two_bytes : Serde (ℕ × ℕ)
two_bytes = record {
  encode = λ p. some (p.0 ∷ p.1 ∷ []);
  decode = λ version bytes. elim bytes [
    | [] ↦ none
    | a ∷ tail ↦ elim tail [ [] ↦ none | b ∷ _ ↦ some ((a, b), 2) ]
  ];
}

abbrev formats : Formats (ℕ × ℕ)
formats = record { rmp_serde = two_bytes; bincode_crate = two_bytes }

backup_restored_example :
    backup_stable_storage
      (ok
        (stable_storage_info (v1_v2_restore formats 11 (stable_device paged a_restore.0) init).1).0)
      (query_of paged a_restore.0)
    ≡ (ok tt, as_bytes a_header ++ content)
backup_restored_example =
    backup_restored paged paged-IsLawful formats a_header content (7, 8) two_bytes no_pages
      a_restore.0 init 11 refl (refl, λ rest. refl) a_header-IsValid (λ e. cc) refl (omega arith)
      a_restore.1

-- ===== src/StableStorage/Interface/Upgrade.antt =====
-- An upgrade of a canister whose storage was put there from outside.
use metamagic.Prelude.{ℕ, ◌≡◌, true, List, ◌++◌, some, ok, false}
use metamagic.CanisterIo.{Device, remaining}
use metamagic.StableStorage.DataFormat.{DataFormatType}
use metamagic.StableStorage.Header.{Header, num_fields, as_bytes}
use metamagic.StableStorage.Header.Codec.{IsValid}
use metamagic.StableStorage.Adapters.{Serde, ReadsBack, Formats, serde_of}
use metamagic.StableStorage.V2.RoundTrip.{restore-read}
use metamagic.StableStorage.Interface.{
  Thread, set_restore_from_stable_storage, v2_save, v1_v2_restore, fall_back, keep,
}
use metamagic.StableStorage.Interface.Save.{v1_v2_restore-of, v2_save_skipped}

-- What the thread holds once a header and its contents are restored.
abbrev pub restored_thread : ℕ → Header → Thread
restored_thread post h = record {
  header = record h { header_length = num_fields };
  transient = record { skip_next_save = false; post_upgrade_instruction_count = post };
  stored_schema_version = h.content_schema_version;
}

module _ {T : Type 0} (formats : Formats T) where
  -- The save before the upgrade and the restore behind it.
  pub upgrade_skipped :
      (count post version : ℕ) (r : Device) (t t' : T) (format : DataFormatType) (s s' : Thread)
      (serde : Serde T) (h : Header) (bytes rest : List ℕ)
      → serde_of formats h.content_format ≡ some serde
      → ReadsBack serde h.content_schema_version t bytes
      → IsValid h
      → remaining r ≡ as_bytes h ++ (bytes ++ rest)
      → (v2_save formats count r t' format version (set_restore_from_stable_storage true s) ≡ ok r)
        × (v1_v2_restore formats post r s' ≡ (ok t, restored_thread post h))
  unfolding keep fall_back
  upgrade_skipped count post version r t t' format s s' serde h bytes rest known back valid here = (
    v2_save_skipped formats count version r t' format s,
    v1_v2_restore-of formats post r s' (
        restore-read formats serde t bytes post s'.stored_schema_version r h rest known back valid
          here),
  )

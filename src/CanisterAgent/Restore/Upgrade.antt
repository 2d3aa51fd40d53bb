-- ===== src/CanisterAgent/Restore/Upgrade.antt =====
-- What a restored canister makes of its storage when it is upgraded.
use metamagic.Prelude.{
  ℕ, ◌+◌, ◌-◌, ◌*◌, ◌^◌, ◌<◌, ◌≤◌, ◌≡◌, ◌≢◌, ap, sym, ◌∙◌, arith, true, List, ◌++◌, length, some,
  none, ok, append_assoc, Outcome,
}
use metamagic.CanisterIo.{Device, remaining}
use metamagic.StableStorage.DataFormat.{DataFormatType, unknown}
use metamagic.StableStorage.Header.{Header, as_bytes, num_fields, num_all_fields_bytes}
use metamagic.StableStorage.Header.Codec.{IsValid, num_all_fields_bytes-eq}
use metamagic.StableStorage.Adapters.{Serde, ReadsBack, Formats, serde_of}
use metamagic.StableStorage.Memory.{StableMemory, IsLawful, page_size, bytes_from}
use metamagic.StableStorage.Memory.Overlay.{bytes_from-append}
use metamagic.StableStorage.Interface.{
  Thread, set_restore_from_stable_storage, v2_save, v1_v2_restore, stable_storage_info,
}
use metamagic.StableStorage.Interface.Upgrade.{restored_thread, upgrade_skipped}
use metamagic.Prelude.Word.{add64}
use metamagic.StableStorage.Errors.{Error}
use metamagic.CanisterAgent.Backup.{backup_stable_storage}
use metamagic.CanisterAgent.Backup.Chunks.{backup_lem}
use metamagic.CanisterAgent.Restore.{Restores}
use metamagic.CanisterAgent.Restore.RoundTrip.{restored}
use metamagic.CanisterAgent.Restore.Cycle.{Restores-pages, query_of, query_of-Shows}

-- `StableReader` and `StableWriter` of ic_cdk: stable memory from its start.
abbrev pub stable_device : (M : StableMemory) → M.Mem → Device
stable_device M m = record {
  bytes = bytes_from (M.byte_at m) 0 (M.pages m * page_size);
  position = 0;
  room = M.pages m * page_size;
}

module _ (M : StableMemory) (L : IsLawful M) {T : Type 0} (formats : Formats T) where
  split_memory :
      (m : M.Mem) (n : ℕ)
      → n ≤ M.pages m * page_size
      → remaining (stable_device M m)
        ≡ bytes_from (M.byte_at m) 0 n ++ bytes_from (M.byte_at m) n (M.pages m * page_size - n)
  unfolding remaining
  split_memory m n fits =
      let total : M.pages m * page_size ≡ n + (M.pages m * page_size - n) = omega arith in
      let start : 0 + n ≡ n = omega arith in
      let left = M.pages m * page_size - n in
      ap (bytes_from (M.byte_at m) 0) total
      ∙ sym (bytes_from-append (M.byte_at m) n left 0)
      ∙ ap (λ k. bytes_from (M.byte_at m) 0 n ++ bytes_from (M.byte_at m) k left) start

  -- A backup that is restored into a canister, its chunks written in any run,
  -- is the state that the canister has after its next upgrade: with the flag that ends a restore
  -- the save before the upgrade changes nothing, whatever it is asked to save, and the restore
  -- behind it gives the contents of the backup, with its header and the version for the migrations.
  pub upgrade_after_restore :
      (h : Header) (bytes : List ℕ) (t t' : T) (serde : Serde T) (m m' : M.Mem) (s s' : Thread)
      (count post version : ℕ) (format : DataFormatType)
      → serde_of formats h.content_format ≡ some serde
      → ReadsBack serde h.content_schema_version t bytes
      → IsValid h
      → h.content_format ≢ unknown
      → length bytes ≡ h.content_length
      → 40 + h.content_length < 2 ^ 64
      → Restores M (as_bytes h ++ bytes) none m m'
      → (v2_save formats count
            (stable_device M m')
            t'
            format
            version
            (set_restore_from_stable_storage true s)
          ≡ ok (stable_device M m'))
        × (v1_v2_restore formats post (stable_device M m') s' ≡ (ok t, restored_thread post h))
  upgrade_after_restore h bytes t t' serde m m' s s' count post version format known back valid
        named long small r =
      let n = 40 + h.content_length in
      let rest = bytes_from (M.byte_at m') n (M.pages m' * page_size - n) in
      upgrade_skipped formats count post version (stable_device M m') t t' format s s' serde h bytes
        rest known back valid
        (split_memory m' n (Restores-pages M L h bytes m m' valid named small r)
          ∙ ap (λ file. file ++ rest) (restored M L h bytes m m' valid named long small r)
          ∙ append_assoc (as_bytes h) bytes rest)

  pub backup_restored :
      (h : Header) (bytes : List ℕ) (t : T) (serde : Serde T) (m m' : M.Mem) (s : Thread) (post : ℕ)
      → serde_of formats h.content_format ≡ some serde
      → ReadsBack serde h.content_schema_version t bytes
      → IsValid h
      → h.content_format ≢ unknown
      → length bytes ≡ h.content_length
      → 40 + h.content_length < 2 ^ 64
      → Restores M (as_bytes h ++ bytes) none m m'
      → backup_stable_storage
          (ok (stable_storage_info (v1_v2_restore formats post (stable_device M m') s).1).0)
          (query_of M m')
        ≡ (ok tt, as_bytes h ++ bytes)
  unfolding stable_storage_info
  backup_restored h bytes t serde m m' s post known back valid named long small r =
      let h' : Header = record h { header_length = num_fields } in
      let (_, gives) =
        upgrade_after_restore h bytes t t serde m m' s s 0 post 0 h.content_format known back valid
          named long small r in
      let total : add64 (num_all_fields_bytes h') h'.content_length ≡ 40 + h.content_length =
        omega (arith, num_all_fields_bytes-eq h') in
      ap (λ (x : Outcome Error T × Thread). backup_stable_storage (ok x.1.header) (query_of M m'))
        gives
      ∙ backup_lem h' (query_of M m') (M.byte_at m') (40 + h.content_length) named total (
          query_of-Shows M L m' (40 + h.content_length)
            (Restores-pages M L h bytes m m' valid named small r))
      ∙ ap (λ b. (ok tt, b)) (restored M L h bytes m m' valid named long small r)

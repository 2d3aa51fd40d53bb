-- ===== src/StableStorage/Endpoints/Calls.antt =====
-- What the calls of the storage's methods do, with arguments that candid has encoded.
use metamagic.Prelude.{
  ℕ, ◌≡◌, refl, String, Bool, true, false, Option, List, ◌⊎◌, inl, inr, Outcome, ok, err, panic,
  ◌>>=◌, string_eq,
}
use metamagic.Prelude.HashMap.{lookup}
use metamagic.StableStorage.Memory.{StableMemory}
use metamagic.StableStorage.Interface as Storage
use metamagic.StableStorage.Endpoints.{
  Candid, IsCandid, StorageCanister, guarded, trapped, info_method, backup_method,
  init_storage_method, restore_method, flag_method, query_call, update_call, settled, replied,
}

module _ (M : StableMemory) (candid : Candid) (is : IsCandid candid)
    (gunzip : List ℕ → Option (List ℕ)) {P : Type 0}
    (is_backup_service is_restore_service : P → Bool) where
  -- An update of the memory by a call: it is done, or the canister is as it was.
  pub data Updates (act : M.Mem → Outcome ⊥ M.Mem) (s : StorageCanister M)
      : Outcome String (List ℕ) × StorageCanister M → Type 0 where
    updated :
        (m : M.Mem)
        → act s.memory ≡ ok m
        → Updates act s (ok (candid.nothing.encode tt), record s { memory = m })
    rejected : (e : String) → Updates act s (err e, s)

  settled-Updates :
      (act : M.Mem → Outcome ⊥ M.Mem) (s : StorageCanister M) (allowed : Bool) (r : Outcome ⊥ M.Mem)
      → act s.memory ≡ r
      → Updates act s (
          settled M candid gunzip is_backup_service is_restore_service s
            (guarded allowed (do memory ← trapped r; ok (record s { memory = memory }))))
  settled-Updates act s false r e = rejected "guard"
  settled-Updates act s true (ok m) e = updated m e
  settled-Updates act s true (err _) e = rejected "trap"
  settled-Updates act s true panic e = rejected "trap"

  pub restore_call :
      (caller : P) (offset : ℕ) (bytes : List ℕ) (s : StorageCanister M)
      → Updates (Storage.restore_stable_storage M offset bytes) s (
          update_call M candid gunzip is_backup_service is_restore_service caller
            "restore_stable_storage"
            (candid.placed.encode (offset, bytes))
            s)
  unfolding update_call lookup string_eq restore_method
  restore_call caller offset bytes s = rw (is.placed (offset, bytes)) (
      settled-Updates (Storage.restore_stable_storage M offset bytes) s (is_restore_service caller)
        (Storage.restore_stable_storage M offset bytes s.memory) refl)

  pub init_call :
      (caller : P) (len : ℕ) (s : StorageCanister M)
      → Updates (Storage.init_stable_storage M len) s (
          update_call M candid gunzip is_backup_service is_restore_service caller
            "init_stable_storage"
            (candid.size.encode len)
            s)
  unfolding update_call lookup string_eq init_storage_method
  init_call caller len s = rw (is.size len) (
      settled-Updates (Storage.init_stable_storage M len) s (is_restore_service caller)
        (Storage.init_stable_storage M len s.memory) refl)

  settled-flag :
      (s s' : StorageCanister M) (allowed : Bool)
      → (settled M candid gunzip is_backup_service is_restore_service s (guarded allowed (ok s'))
          ≡ (ok (candid.nothing.encode tt), s'))
        ⊎ ((e : String) × (settled M candid gunzip is_backup_service is_restore_service s
                (guarded allowed (ok s'))
              ≡ (err e, s)))
  settled-flag s s' false = inr ("guard", refl)
  settled-flag s s' true = inl refl

  pub flag_call :
      (caller : P) (flag : Bool) (s : StorageCanister M)
      → let s' = record s { thread = Storage.set_restore_from_stable_storage flag s.thread } in
        let r =
          update_call M candid gunzip is_backup_service is_restore_service caller
            "set_restore_from_stable_storage"
            (candid.flag.encode flag)
            s in
        (r ≡ (ok (candid.nothing.encode tt), s')) ⊎ ((e : String) × (r ≡ (err e, s)))
  unfolding update_call lookup string_eq flag_method
  flag_call caller flag s = rw (is.flag flag) (
      settled-flag s (record s { thread = Storage.set_restore_from_stable_storage flag s.thread })
        (is_restore_service caller))

  pub info_call :
      (caller : P) (s : StorageCanister M)
      → is_backup_service caller ≡ true
      → query_call M candid gunzip is_backup_service is_restore_service caller "stable_storage_info"
          (candid.nothing.encode tt)
          s
        ≡ ok (candid.info.encode (Storage.stable_storage_info s.thread))
  unfolding query_call lookup string_eq info_method
  info_call caller s allowed = rw (allowed, is.nothing tt) refl

  pub backup_call :
      (caller : P) (offset limit : ℕ) (s : StorageCanister M)
      → is_backup_service caller ≡ true
      → query_call M candid gunzip is_backup_service is_restore_service caller
          "backup_stable_storage"
          (candid.range.encode (offset, limit))
          s
        ≡ replied M candid gunzip is_backup_service is_restore_service (do
          bytes ← trapped (Storage.backup_stable_storage M offset limit s.memory)
          ok (candid.blob.encode bytes))
  unfolding query_call lookup string_eq backup_method
  backup_call caller offset limit s allowed = rw (allowed, is.range (offset, limit)) refl

  -- With the guard passed, what the memory allows is done.
  module _ (caller : P) (s : StorageCanister M) (allowed : is_restore_service caller ≡ true) where
    pub restore_call-ok :
        (offset : ℕ) (bytes : List ℕ) (m : M.Mem)
        → Storage.restore_stable_storage M offset bytes s.memory ≡ ok m
        → update_call M candid gunzip is_backup_service is_restore_service caller
            "restore_stable_storage"
            (candid.placed.encode (offset, bytes))
            s
          ≡ (ok (candid.nothing.encode tt), record s { memory = m })
    unfolding update_call lookup string_eq restore_method
    restore_call-ok offset bytes m e = rw (is.placed (offset, bytes), allowed) (rw e refl)

    pub init_call-ok :
        (len : ℕ) (m : M.Mem)
        → Storage.init_stable_storage M len s.memory ≡ ok m
        → update_call M candid gunzip is_backup_service is_restore_service caller
            "init_stable_storage"
            (candid.size.encode len)
            s
          ≡ (ok (candid.nothing.encode tt), record s { memory = m })
    unfolding update_call lookup string_eq init_storage_method
    init_call-ok len m e = rw (is.size len, allowed) (rw e refl)

    pub flag_call-ok :
        (flag : Bool)
        → update_call M candid gunzip is_backup_service is_restore_service caller
            "set_restore_from_stable_storage"
            (candid.flag.encode flag)
            s
          ≡ (
            ok (candid.nothing.encode tt),
            record s { thread = Storage.set_restore_from_stable_storage flag s.thread },
          )
    unfolding update_call lookup string_eq flag_method
    flag_call-ok flag = rw (is.flag flag, allowed) refl

-- ===== src/CanisterAgent/Client/Storage/Backups.antt =====
-- A backup that a client makes.
use metamagic.Prelude.{
  ℕ, ◌+◌, ◌*◌, ◌^◌, ◌<◌, ◌≤◌, ◌≡◌, ◌≢◌, refl, arith, Bool, true, Option, List, ok,
}
use metamagic.StableStorage.DataFormat.{unknown}
use metamagic.StableStorage.Header.Codec.{num_all_fields_bytes-eq}
use metamagic.StableStorage.Memory.{StableMemory, IsLawful, page_size, bytes_from}
use metamagic.StableStorage.Interface as Storage
use metamagic.StableStorage.Interface.Blocks.{backup_stable_storage-inside}
use metamagic.StableStorage.Endpoints.{Candid, IsCandid, StorageCanister}
use metamagic.StableStorage.Endpoints.Calls.{info_call, backup_call}
use metamagic.CanisterAgent.AgentImpl.{AgentImpl}
use metamagic.CanisterAgent.Target.{CanisterAgent}
use metamagic.CanisterAgent.Backup.Chunks.{Shows, backup_lem}
use metamagic.CanisterAgent.Client.Storage.{get_stable_storage_info, chunk_query, backup_through}
use metamagic.CanisterAgent.Client.Storage.Hosted.{Hosts}

module _ {M : StableMemory} (L : IsLawful M) {candid : Candid} {gunzip : List ℕ → Option (List ℕ)}
    {P : Type 0} {is_backup_service is_restore_service : P → Bool} {Agent World : Type 0}
    {impl : AgentImpl Agent World P} {client : CanisterAgent Agent P} {caller : P}
    {IsUp : World → Type 0} {view : World → StorageCanister M} (is : IsCandid candid)
    (hosts : Hosts M candid gunzip is_backup_service is_restore_service impl client caller IsUp
      view)
    (allowed : is_backup_service caller ≡ true) (w : World) (up : IsUp w) where
  info-eq :
      get_stable_storage_info impl candid client w
      ≡ ok (Storage.stable_storage_info (view w).thread)
  unfolding get_stable_storage_info
  info-eq = rw (hosts.queried "stable_storage_info" (candid.nothing.encode tt) w up) (
      rw (info_call M candid is gunzip is_backup_service is_restore_service caller (view w) allowed)
        (rw (is.info (Storage.stable_storage_info (view w).thread)) refl))

  chunk_query-Shows :
      (len : ℕ)
      → len ≤ M.pages (view w).memory * page_size
      → Shows (M.byte_at (view w).memory) len (chunk_query impl candid client w)
  unfolding chunk_query
  chunk_query-Shows len fits offset limit small inside =
      rw (hosts.queried "backup_stable_storage" (candid.range.encode (offset, limit)) w up) (
        rw
          (backup_call M candid is gunzip is_backup_service is_restore_service caller offset limit
            (view w) allowed)
          (rw (backup_stable_storage-inside M L offset limit (view w).memory (omega arith))
            (rw (is.blob (bytes_from (M.byte_at (view w).memory) offset limit)) refl)))

  -- A client whose caller passes the guard of a canister that its agent reaches gets, call by call
  -- through the agent and candid, the bytes of the stable memory as far as the header that the
  -- canister holds says, where the header's format is known and the memory has as many bytes.
  pub backup_through_lem :
      (view w).thread.header.content_format ≢ unknown
      → 40 + (view w).thread.header.content_length < 2 ^ 64
      → 40 + (view w).thread.header.content_length ≤ M.pages (view w).memory * page_size
      → backup_through impl candid client w ≡ (
        ok tt,
        bytes_from (M.byte_at (view w).memory) 0 (40 + (view w).thread.header.content_length),
      )
  unfolding backup_through
  backup_through_lem named small fits =
      let h = (view w).thread.header in
      rw info-eq (
        unfold Storage.stable_storage_info in
        backup_lem h (chunk_query impl candid client w) (M.byte_at (view w).memory)
          (40 + h.content_length) named (omega (arith, num_all_fields_bytes-eq h))
          (chunk_query-Shows (40 + h.content_length) fits))

-- ===== src/StableStorage/Endpoints.antt =====
-- The macro `define_common_stable_storage_interface` of interface.rs: the methods of a canister
-- that give access to its stable storage. Candid is the parameter Candid, and the canister's guards
-- are the parameters of the section; that a call that traps is rejected, and leaves the canister as
-- it was, is the Internet Computer's.
pub mod Calls
use metamagic.Prelude.{
  ℕ, ◌≡◌, String, Bool, Option, none, some, List, [], ◌∷◌, Outcome, ok, err, panic, ◌>>=◌, ok_or,
  if◌then◌else◌, string_eq,
}
use metamagic.Prelude.HashMap.{HashMap, lookup}
use metamagic.StableStorage.Header.{Header}
use metamagic.StableStorage.Transient.{Transient}
use metamagic.StableStorage.Memory.{StableMemory}
use metamagic.StableStorage.Interface as Storage
use metamagic.StableStorage.Interface.{Thread}

pub record Codec (A : Type 0) : Type 0 where
  pub encode : A → List ℕ
  pub decode : List ℕ → Option A

abbrev pub IsFaithful : {A : Type 0} → Codec A → Type 0
IsFaithful {A} c = (a : A) → c.decode (c.encode a) ≡ some a

-- The arguments and the replies of the methods.
pub record Candid : Type 0 where
  pub nothing : Codec (Unit {0})
  pub info : Codec (Header × Transient)
  pub range : Codec (ℕ × ℕ)
  pub blob : Codec (List ℕ)
  pub size : Codec ℕ
  pub placed : Codec (ℕ × List ℕ)
  pub placed_all : Codec (ℕ × List (List ℕ))
  pub flag : Codec Bool

pub record IsCandid (candid : Candid) : Type 0 where
  pub nothing : IsFaithful candid.nothing
  pub info : IsFaithful candid.info
  pub range : IsFaithful candid.range
  pub blob : IsFaithful candid.blob
  pub size : IsFaithful candid.size
  pub placed : IsFaithful candid.placed
  pub flag : IsFaithful candid.flag

-- What a canister of the macro keeps.
pub record StorageCanister (M : StableMemory) : Type 0 where
  pub thread : Thread
  pub memory : M.Mem

abbrev pub guarded : {A : Type 0} → Bool → Outcome String A → Outcome String A
guarded allowed result = if allowed then result else err "guard"

-- A trap is a rejected call.
abbrev pub trapped : {A : Type 0} → Outcome ⊥ A → Outcome String A
trapped (ok a) = ok a
trapped (err _) = err "trap"
trapped panic = err "trap"

abbrev pub decoded : {A : Type 0} → Codec A → List ℕ → Outcome String A
decoded c args = ok_or (c.decode args) "arguments"

module _ (M : StableMemory) (candid : Candid) (gunzip : List ℕ → Option (List ℕ)) {P : Type 0}
    (is_backup_service is_restore_service : P → Bool) where
  abbrev pub QueryMethod : Type 0
  QueryMethod = P → List ℕ → StorageCanister M → Outcome String (List ℕ)

  -- The canister that a call leaves; the reply is empty.
  abbrev pub UpdateMethod : Type 0
  UpdateMethod = P → List ℕ → StorageCanister M → Outcome String (StorageCanister M)

  unfoldable pub info_method : QueryMethod
  info_method caller args s = guarded (is_backup_service caller) (do
    _ ← decoded candid.nothing args
    ok (candid.info.encode (Storage.stable_storage_info s.thread)))

  unfoldable pub backup_method : QueryMethod
  backup_method caller args s = guarded (is_backup_service caller) (do
    (offset, limit) ← decoded candid.range args
    bytes ← trapped (Storage.backup_stable_storage M offset limit s.memory)
    ok (candid.blob.encode bytes))

  unfoldable pub init_storage_method : UpdateMethod
  init_storage_method caller args s = guarded (is_restore_service caller) (do
    len ← decoded candid.size args
    memory ← trapped (Storage.init_stable_storage M len s.memory)
    ok (record s { memory = memory }))

  unfoldable pub restore_method : UpdateMethod
  restore_method caller args s = guarded (is_restore_service caller) (do
    (offset, bytes) ← decoded candid.placed args
    memory ← trapped (Storage.restore_stable_storage M offset bytes s.memory)
    ok (record s { memory = memory }))

  unfoldable pub restore_compressed_method : UpdateMethod
  restore_compressed_method caller args s = guarded (is_restore_service caller) (do
    (offset, blobs) ← decoded candid.placed_all args
    memory ← trapped (Storage.restore_stable_storage_compressed M gunzip offset blobs s.memory)
    ok (record s { memory = memory }))

  unfoldable pub flag_method : UpdateMethod
  flag_method caller args s = guarded (is_restore_service caller) (do
    flag ← decoded candid.flag args
    ok (record s { thread = Storage.set_restore_from_stable_storage flag s.thread }))

  abbrev pub storage_queries : HashMap String QueryMethod
  storage_queries =
      ("stable_storage_info", info_method) ∷ ("backup_stable_storage", backup_method) ∷ []

  abbrev pub storage_updates : HashMap String UpdateMethod
  storage_updates =
      ("init_stable_storage", init_storage_method)
      ∷ ("restore_stable_storage", restore_method)
      ∷ ("restore_stable_storage_compressed", restore_compressed_method)
      ∷ ("set_restore_from_stable_storage", flag_method)
      ∷ []

  -- The reply to a query.
  abbrev pub replied : Outcome String (List ℕ) → Outcome String (List ℕ)
  replied (ok bytes) = ok bytes
  replied (err e) = err e
  replied panic = err "trap"

  -- A call by name.
  unfoldable pub query_call : P → String → List ℕ → StorageCanister M → Outcome String (List ℕ)
  query_call caller method args s = replied (elim (lookup method storage_queries) [
    | none ↦ err "no query method"
    | some f ↦ f caller args s
  ])

  -- The reply to an update, and the canister that is left.
  abbrev pub settled :
      StorageCanister M
      → Outcome String (StorageCanister M)
      → Outcome String (List ℕ) × StorageCanister M
  settled s (ok s') = (ok (candid.nothing.encode tt), s')
  settled s (err e) = (err e, s)
  settled s panic = (err "trap", s)

  unfoldable pub update_call :
      P → String → List ℕ → StorageCanister M → Outcome String (List ℕ) × StorageCanister M
  update_call caller method args s = settled s (elim (lookup method storage_updates) [
    | none ↦ err "no update method"
    | some f ↦ f caller args s
  ])

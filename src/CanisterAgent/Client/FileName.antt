-- ===== src/CanisterAgent/Client/FileName.antt =====
-- stable_storage_restore_backup.rs: the name of a backup's file.
use metamagic.Prelude.{
  ℕ, zero, suc, ◌≡◌, ◌≢◌, refl, sym, ◌∙◌, ap, String, ◌<>◌, List, Outcome, ok, err, panic, ◌>>=◌,
}
use metamagic.Prelude.Mutex.{Mutex}
use metamagic.Canister.Embedded as EmbeddedModule
use metamagic.CanisterAgent.AgentImpl.{AgentImpl}
use metamagic.CanisterAgent.AgentImpl.Embedded.{embedded}
use metamagic.CanisterAgent.AgentImpl.StateMachine.{Library, WrappedStateMachine, state_machine}
use metamagic.CanisterAgent.Target.{CanisterAgent}
use metamagic.CanisterAgent.Client.{Reply, canister_stats, canister_module_hash}

pub record CanisterStats : Type 0 where
  pub now : ℕ
  pub memory_usage : ℕ
  pub cycles : ℕ
  pub stable_storage_usage_bytes : ℕ
  pub last_upgraded : ℕ
  pub version : String

-- The slice `[0..n]` of a text of ASCII characters, which panics where there are fewer.
unfoldable pub first_chars : ℕ → String → Outcome String String
first_chars zero s = ok ""
first_chars (suc n) String.[] = panic
first_chars (suc n) (String.◌∷◌ c s) = do rest ← first_chars n s; ok (String.◌∷◌ c rest)

-- Candid, the hex crate and the time crate are parameters.
module _ {Agent World P Date : Type 0} (impl : AgentImpl Agent World P)
    (encoded : Outcome String (List ℕ)) (decode : List ℕ → Outcome String CanisterStats)
    (hex : List ℕ → String) (from_unix_timestamp_nanos : ℕ → Outcome String Date)
    (format : Date → Outcome String String) where
  -- The name, from the stats and the hash of the module.
  unfoldable pub file_name : String → CanisterStats → Reply → Outcome String String
  file_name prefix stats hash = do
    bytes ← hash
    time ← from_unix_timestamp_nanos stats.last_upgraded
    digits ← first_chars 5 (hex bytes)
    date ← format time
    ok (prefix <> ("_" <> (digits <> ("_" <> date))))

  -- What follows the stats.
  unfoldable pub with_stats :
      String
      → CanisterAgent Agent P
      → Outcome String CanisterStats
      → World
      → Outcome String String × World
  with_stats prefix client (ok stats) world =
      let hash = canister_module_hash impl client world in (file_name prefix stats hash.0, hash.1)
  with_stats prefix client (err e) world = (err e, world)
  with_stats prefix client panic world = (panic, world)

  unfoldable pub get_default_stable_storage_backup_file_name :
      String → CanisterAgent Agent P → World → Outcome String String × World
  get_default_stable_storage_backup_file_name prefix client world =
      let stats = canister_stats impl encoded decode client world in
      with_stats prefix client stats.0 stats.1

  no_name :
      (prefix : String) (client : CanisterAgent Agent P) (stats : Outcome String CanisterStats)
      (world : World)
      → (canister_module_hash impl client world).0 ≡ panic
      → (name : String) → (with_stats prefix client stats world).0 ≢ ok name
  unfolding with_stats file_name
  no_name prefix client (ok stats) world no_hash name e =
      let clash = sym e ∙ ap (λ hash. file_name prefix stats hash) no_hash in absurd cc
  no_name prefix client (err message) world no_hash name e = absurd cc
  no_name prefix client panic world no_hash name e = absurd cc

module _ {Date : Type 0} (encoded : Outcome String (List ℕ))
    (decode : List ℕ → Outcome String CanisterStats) (hex : List ℕ → String)
    (from_unix_timestamp_nanos : ℕ → Outcome String Date) (format : Date → Outcome String String)
    (prefix : String) (name : String) where
  -- Neither an embedded canister nor one in a state machine has a file name for its backups:
  -- whatever the stats and the formats, the function never gives one, since neither agent can tell
  -- the hash of the module.
  pub no_file_name :
      {Machine State P : Type 0} (library : Library Machine P) (show : P → String)
      (in_machine : CanisterAgent (WrappedStateMachine P) P)
      (in_process : CanisterAgent (EmbeddedModule.Agent P State) P) (machine : Mutex Machine)
      (state : Mutex State)
      → ((get_default_stable_storage_backup_file_name
            (state_machine library)
            encoded
            decode
            hex
            from_unix_timestamp_nanos
            format
            prefix
            in_machine
            machine).0
          ≢ ok name)
        × ((get_default_stable_storage_backup_file_name
              (embedded show)
              encoded
              decode
              hex
              from_unix_timestamp_nanos
              format
              prefix
              in_process
              state).0
            ≢ ok name)
  unfolding get_default_stable_storage_backup_file_name canister_module_hash
  no_file_name library show in_machine in_process machine state = (
    no_name (state_machine library) encoded decode hex from_unix_timestamp_nanos format prefix
        in_machine (canister_stats (state_machine library) encoded decode in_machine machine).0
        (canister_stats (state_machine library) encoded decode in_machine machine).1 refl name,
    no_name (embedded show) encoded decode hex from_unix_timestamp_nanos format prefix in_process
        (canister_stats (embedded show) encoded decode in_process state).0
        (canister_stats (embedded show) encoded decode in_process state).1 refl name,
  )

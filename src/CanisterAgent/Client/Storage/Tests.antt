-- ===== src/CanisterAgent/Client/Storage/Tests.antt =====
-- A storage of one page in a state machine: it is restored, upgraded and backed up through an
-- agent, with numbers in place of candid's bytes.
use metamagic.Prelude.{
  ℕ, zero, suc, ◌≡◌, refl, ap, arith, Bool, true, false, Option, some, none, List, [], ◌∷◌, ◌++◌,
  ok,
}
use metamagic.Prelude.Mutex.{Mutex, mutex_new}
use metamagic.StableStorage.DataFormat.{msg_pack, from_u64, as_u64}
use metamagic.StableStorage.Header.{Header, as_bytes}
use metamagic.StableStorage.Header.Codec.{IsValid, from_u64-as_u64}
use metamagic.StableStorage.Transient.{Transient}
use metamagic.StableStorage.Adapters.{Serde, Formats}
use metamagic.StableStorage.Memory.{bytes_from}
use metamagic.StableStorage.Memory.Paged.{paged, paged-IsLawful}
use metamagic.StableStorage.Interface.{
  init, init_stable_storage, v2_save, v1_v2_restore, set_restore_from_stable_storage,
}
use metamagic.StableStorage.Interface.Upgrade.{restored_thread}
use metamagic.StableStorage.Endpoints.{Candid, IsCandid, StorageCanister}
use metamagic.CanisterAgent.AgentImpl.StateMachine.{WrappedStateMachine, state_machine}
use metamagic.CanisterAgent.Target.{CanisterAgent}
use metamagic.CanisterAgent.Restore.{Restores}
use metamagic.CanisterAgent.Restore.Upgrade.{stable_device}
use metamagic.CanisterAgent.Client.Storage.{RestoresThrough, backup_through}
use metamagic.CanisterAgent.Client.Storage.Hosted.{Hosts}
use metamagic.CanisterAgent.Client.Storage.Machine.{
  storage_machine, storage_machine-Hosts, storage_machine-IsReliable,
}
use metamagic.CanisterAgent.AgentImpl.{AgentImpl}
use metamagic.CanisterAgent.Restore.{restore_chunks}
use metamagic.CanisterAgent.Restore.Cycle.{Begins, restore-Begins}
use metamagic.CanisterAgent.Client.Storage.Lossy.{
  Fate, passes, lossy, lossy-Hosts, retried, lossy_restore,
}
use metamagic.CanisterAgent.Client.Storage.Backups.{backup_through_lem}
use metamagic.CanisterAgent.Client.Storage.Possible.{IsReliable, restores_through}
use metamagic.CanisterAgent.Client.Storage.Restores.{restored_through, moved_through}

bit : Bool → ℕ
bit true = 1
bit false = 0

unbit : ℕ → Bool
unbit zero = false
unbit (suc n) = true

info_encode : Header × Transient → List ℕ
info_encode (h, t) =
    h.header_length
    ∷ h.content_length
    ∷ as_u64 h.content_format
    ∷ h.content_schema_version
    ∷ h.pre_upgrade_instruction_count
    ∷ bit t.skip_next_save
    ∷ t.post_upgrade_instruction_count
    ∷ []

info_decode : List ℕ → Option (Header × Transient)
info_decode (a ∷ b ∷ c ∷ d ∷ e ∷ f ∷ g ∷ []) = some (
  record {
    header_length = a;
    content_length = b;
    content_format = from_u64 c;
    content_schema_version = d;
    pre_upgrade_instruction_count = e;
  },
  record { skip_next_save = unbit f; post_upgrade_instruction_count = g },
)
info_decode _ = none

unbit-bit : (b : Bool) → unbit (bit b) ≡ b
unfolding unbit bit
unbit-bit true = refl
unbit-bit false = refl

info_decode-info_encode : (p : Header × Transient) → info_decode (info_encode p) ≡ some p
unfolding info_decode info_encode
info_decode-info_encode (h, t) =
    rw (from_u64-as_u64 h.content_format, unbit-bit t.skip_next_save) refl

one_decode : List ℕ → Option ℕ
one_decode (n ∷ []) = some n
one_decode _ = none

range_decode : List ℕ → Option (ℕ × ℕ)
range_decode (n ∷ m ∷ []) = some (n, m)
range_decode _ = none

placed_decode : List ℕ → Option (ℕ × List ℕ)
placed_decode (n ∷ bytes) = some (n, bytes)
placed_decode _ = none

flag_decode : List ℕ → Option Bool
flag_decode (n ∷ []) = some (unbit n)
flag_decode _ = none

candid : Candid
candid = record {
  nothing = record { encode = λ _. []; decode = λ _. some tt };
  info = record { encode = info_encode; decode = info_decode };
  range = record { encode = λ r. r.0 ∷ r.1 ∷ []; decode = range_decode };
  blob = record { encode = λ bytes. bytes; decode = λ bytes. some bytes };
  size = record { encode = λ n. n ∷ []; decode = one_decode };
  placed = record { encode = λ r. r.0 ∷ r.1; decode = placed_decode };
  placed_all = record { encode = λ _. []; decode = λ _. none };
  flag = record { encode = λ b. bit b ∷ []; decode = flag_decode };
}

candid-IsCandid : IsCandid candid
unfolding candid one_decode range_decode placed_decode flag_decode
candid-IsCandid = record {
  nothing = λ _. refl;
  info = info_decode-info_encode;
  range = λ r. refl;
  blob = λ bytes. refl;
  size = λ n. refl;
  placed = λ r. refl;
  flag = λ b. ap some (unbit-bit b);
}

abbrev gunzip : List ℕ → Option (List ℕ)
gunzip bytes = none

abbrev everyone : ℕ → Bool
everyone p = true

abbrev client : CanisterAgent (WrappedStateMachine ℕ) ℕ
client = record { agent = record { caller = 1; canister_id = 5 }; canister_id = 5 }

abbrev a_header : Header
a_header = record {
  header_length = 4;
  content_length = 2;
  content_format = msg_pack;
  content_schema_version = 3;
  pre_upgrade_instruction_count = 9;
}

a_header-IsValid : IsValid a_header
a_header-IsValid = record {
  content_length = omega arith;
  content_schema_version = omega arith;
  pre_upgrade_instruction_count = omega arith;
}

abbrev content : List ℕ
content = 7 ∷ 8 ∷ []

abbrev empty : StorageCanister paged
empty = record { thread = init; memory = record { count = 0; cell = λ _. 0 } }

-- What the canister holds once it has been upgraded.
abbrev filled : StorageCanister paged
filled = record {
  thread = record init { header = a_header };
  memory = record { count = 1; cell = λ _. 0 };
}

machine-Hosts :
    Hosts paged candid gunzip everyone everyone
      (state_machine (storage_machine paged candid gunzip everyone everyone 5 empty))
      client
      1
      (λ m. m.poisoned ≡ false)
      (λ m. m.inner)
machine-Hosts = storage_machine-Hosts paged candid gunzip everyone everyone 5 empty client

backup_through_lem_example :
    backup_through
      (state_machine (storage_machine paged candid gunzip everyone everyone 5 empty))
      candid
      client
      (mutex_new filled)
    ≡ (ok tt, bytes_from (λ _. 0) 0 42)
backup_through_lem_example =
    backup_through_lem paged-IsLawful candid-IsCandid machine-Hosts refl (mutex_new filled) refl
      (λ e. cc) (omega arith) (omega arith)

machine-IsReliable :
    IsReliable paged candid gunzip everyone everyone
      (state_machine (storage_machine paged candid gunzip everyone everyone 5 empty))
      client
      1
      (λ m. m.poisoned ≡ false)
      (λ m. m.inner)
machine-IsReliable = storage_machine-IsReliable paged candid gunzip everyone everyone 5 empty client

abbrev Through : Mutex (StorageCanister paged) → Type 0
Through w' =
    RestoresThrough (state_machine (storage_machine paged candid gunzip everyone everyone 5 empty))
      candid client (as_bytes a_header ++ content) none (mutex_new empty) w'

restores_through_example : (w' : Mutex (StorageCanister paged)) × Through w' × (w'.poisoned ≡ false)
restores_through_example =
    restores_through candid-IsCandid machine-Hosts machine-IsReliable refl paged-IsLawful a_header
      content (mutex_new empty) (record { count = 1; cell = λ _. 0 }) a_header-IsValid (λ e. cc)
      refl (omega arith) (unfold init_stable_storage in refl) refl

abbrev machine : AgentImpl (WrappedStateMachine ℕ) (Mutex (StorageCanister paged)) ℕ
machine = state_machine (storage_machine paged candid gunzip everyone everyone 5 empty)

abbrev a_start : Begins paged paged-IsLawful (as_bytes a_header ++ content) empty.memory
a_start =
    restore-Begins paged paged-IsLawful a_header content empty.memory
      (record { count = 1; cell = λ _. 0 }) a_header-IsValid (λ e. cc) refl (omega arith)
      (unfold init_stable_storage in refl)

-- A restore whose only chunk is written three times: the first answer is lost, then the call.
abbrev script : List Fate
script = passes ∷ passes ∷ retried (restore_chunks a_start.header none a_start.rest).1 (passes ∷ [])

run-Through :
    (w' : Mutex (StorageCanister paged)) × RestoresThrough
      (lossy machine)
      candid
      client
      (as_bytes a_header ++ content)
      none
      (mutex_new empty, script)
      (w', [])
    × (w'.poisoned ≡ false)
run-Through =
    lossy_restore candid-IsCandid machine-Hosts machine-IsReliable refl paged-IsLawful
      (as_bytes a_header ++ content) (mutex_new empty) a_start refl

abbrev after : StorageCanister paged
after = run-Through.0.inner

lossy-machine-Hosts :
    Hosts paged candid gunzip everyone everyone
      (lossy machine)
      client
      1
      (λ m. m.0.poisoned ≡ false)
      (λ m. m.0.inner)
lossy-machine-Hosts = lossy-Hosts candid-IsCandid machine-Hosts machine-IsReliable

restored_through_example :
    Restores paged (as_bytes a_header ++ content) none empty.memory after.memory
    × (after.thread ≡ set_restore_from_stable_storage true init)
restored_through_example =
    restored_through candid-IsCandid lossy-machine-Hosts (as_bytes a_header ++ content) none
      (mutex_new empty, script) (run-Through.0, []) refl run-Through.1

-- Two numbers as two bytes.
abbrev two_bytes : Serde (ℕ × ℕ)
two_bytes = record {
  encode = λ p. some (p.0 ∷ p.1 ∷ []);
  decode = λ version bytes. elim bytes [
    | [] ↦ none
    | a ∷ tail ↦ elim tail [ [] ↦ none | b ∷ _ ↦ some ((a, b), 2) ]
  ];
}

abbrev formats : Formats (ℕ × ℕ)
formats = record { rmp_serde = two_bytes; bincode_crate = two_bytes }

moved_through_example :
    (v2_save formats 9 (stable_device paged after.memory) (0, 0) msg_pack 6 after.thread
      ≡ ok (stable_device paged after.memory))
    × (v1_v2_restore formats 11 (stable_device paged after.memory) init
        ≡ (ok (7, 8), restored_thread 11 a_header))
moved_through_example =
    moved_through candid-IsCandid lossy-machine-Hosts paged-IsLawful formats a_header content (7, 8)
      (0, 0) two_bytes (mutex_new empty, script) (run-Through.0, []) init 9 11 6 msg_pack refl
      (refl, λ rest. refl) a_header-IsValid (λ e. cc) refl (omega arith) refl run-Through.1

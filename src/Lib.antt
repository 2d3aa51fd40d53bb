-- ===== src/Lib.antt =====
-- metamagic: tools for canisters of the Internet Computer. This library models the crates that keep a
-- canister's state and the configuration of many canisters, and proves what they promise.
--
-- The parts and their files:
-- - Prelude: names of the libraries passed on, Boolean tests, lists over native numbers, results that
--   are a value, an error or a panic (Outcome), 64-bit words and their bytes, hash maps as lists of
--   entries, mutexes that a panic poisons, and decimal numerals.
-- - CanisterIo, crates/ic-canister-io: a device with bytes, a position and room; seeks, writes, and the
--   wrappers that can be moved into a serializer.
-- - StableStorage, crates/ic-canister-stable-storage/src: the header (header.rs) and its bytes, with the
--   async reader and writer over the streams AsyncRead, which Header/Async/Pieces is an example of, and
--   AsyncWrite; the formats and adapters (data_format.rs), with rmp_serde and bincode as the parameter
--   Formats; the layouts v1.rs and v2.rs; the canister's interface (interface.rs) with its thread locals as the state
--   Thread; stable memory as the interface record StableMemory with the laws IsLawful, which
--   Memory/Paged fills, and what an upgrade makes of storage that was put there from outside
--   (Interface/Upgrade); the macro of interface.rs with the methods of a canister (Endpoints), over
--   candid as the parameter Candid, the canister's guards, and what the Internet Computer does with a
--   call that traps; migrations (migration.rs) over deserializers that read a prefix of the input; saves
--   to files (file_util.rs, Files).
-- - CanisterConfig, crates/dscvr-canister-config/src: the data and queries of schema/dscvr.rs; allocation
--   (schema/dscvr/allocate.rs), provisioning (provision.rs), the parts that are written to files
--   (persist.rs) and their merge; the configuration and ids for dfx (schema/dfx.rs); the workflows of
--   schema.rs over a map from path to text, with serde_json as the parameter Json.
--   Files/Reading reads the configuration of dfx and the canister ids of the files beside it.
-- - CanisterAgent, crates/dscvr-canister-agent/src/stable_storage_restore_backup.rs: backups and restores
--   in chunks. Backup/Chunks is about the chunks that are queried; Restore has the stream of chunks and
--   the relation Writes, a run of the updates that write the chunks, ten under way at most, each tried
--   six times at most; Restore/Runs forgets these bounds; Restore/Cycle joins both
--   with the memory of the canister, and Restore/Upgrade with its next upgrade. Target has the agent
--   for an instance that a configuration names (lib.rs), and Constructors the other ones, with
--   identities and connections as parameters.
--   AgentImpl is the trait of agent_impl.rs as an interface with laws, which AgentImpl/Embedded and
--   AgentImpl/StateMachine (agent_impl/state_machine_impl.rs, over the functions of the state machine
--   library) fill. Client is the client of lib.rs, stats.rs and module_hash.rs over any such agent,
--   Client/Session what it may rely on, and Client/FileName the name of a backup's file. Client/Storage has the backups and restores with the calls as they are made,
--   through an agent and candid, to a canister with the endpoints: Hosted says what it is to reach
--   one, by an agent whose updates may fail or lose their answers, Possible when no update is lost, Machine
--   is an agent that reaches one, and Lossy one that fails as a script says.
-- - CandidGenerator, crates/dscvr-candid-generator/src/rust_canister_agent.rs: the types of candid,
--   the names that are written (Ident), the naming of inner types (Nominalize, with children for what is
--   written down, for its meaning, and for the recursion as the source has it), the code of types and functions (Printer), and the whole
--   (Generate). The checker and the analyses of the candid crates are parameters, tokens are
--   pieces of code, and an ordered map is a list of entries in its order.
-- - RcPrincipal, crates/ic-rc-principal: interned principals, with addresses of a heap for pointers.
-- - Canister, crates/dscvr-interface, dscvr-canister-context, dscvr-canister-exports and the embedded
--   canister of dscvr-canister-agent: method tables, agents that share one state behind a mutex, and the
--   common state of the context crate behind its lock (CommonState), and the system interfaces, over
--   ic_cdk as the parameter Api (System).
--
-- How the code is rendered: a function that may fail gives an Outcome, where panic stands for an index
-- out of bounds, an unwrap of nothing or a trap. A change through a mutable reference is a new value that
-- is returned. 64-bit arithmetic wraps (add64, sub64), as in a release build; counts of instances and
-- lists are natural numbers without a bound. A hash map is a list of entries whose order stands for the
-- order of iteration, which the program does not choose. Instruction counters are arguments. Every loop is
-- a recursion on a list or on the number of rounds that the source computes before it (new_canisters,
-- pop_all, forward, chunks). The recursion of nominalize, which calls itself with the type that it was
-- given, is written as one on the structure of types, and once more on fuel, as the source has it, in
-- Nominalize/Recursion; the fuel that is enough is depth, the calls that a type needs inside each other.
--
-- What is not modelled: an update whose effect comes after its call has given an error; logging, tracing and telemetry, and the wrapping of errors; the replica agent,
-- which only calls third-party crates; in the generator, the files of util.rs and the layout that prettyplease gives the code.
pub mod Prelude
pub mod CandidGenerator
pub mod CanisterIo
pub mod StableStorage
pub mod CanisterConfig
pub mod CanisterAgent
pub mod RcPrincipal
pub mod Canister

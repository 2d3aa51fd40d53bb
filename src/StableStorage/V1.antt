-- ===== src/StableStorage/V1.antt =====
-- v1.rs: the contents alone, as msgpack.
use metamagic.Prelude.{ℕ, Outcome, ok, ◌>>=◌}
use metamagic.CanisterIo.{Device}
use metamagic.StableStorage.DataFormat.{msg_pack}
use metamagic.StableStorage.Header.{Header, default_header}
use metamagic.StableStorage.Errors.{Error}
use metamagic.StableStorage.Transient.{Transient, default_transient}
use metamagic.StableStorage.Adapters.{Formats, msg_pack_serialize, msg_pack_deserialize}

module _ {T : Type 0} (formats : Formats T) where
  -- The instruction count is only logged.
  unfoldable pub save : Device → T → Outcome Error Device
  unfolding msg_pack_serialize
  save writer t = msg_pack_serialize formats writer t

  -- `count` is what the system's instruction counter shows after the contents were read, and
  -- `version` the schema version that the thread holds.
  unfoldable pub restore : ℕ → Device → ℕ → Outcome Error (Header × Transient × T)
  unfolding msg_pack_deserialize
  restore count reader version = do
    (t, reader') ← msg_pack_deserialize formats reader version
    ok (
      record default_header { content_length = reader'.position; content_format = msg_pack },
      record default_transient { post_upgrade_instruction_count = count },
      t,
    )

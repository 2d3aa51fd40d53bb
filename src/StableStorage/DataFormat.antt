-- ===== src/StableStorage/DataFormat.antt =====
-- data_format.rs: the format of the contents, and the choice of the serializer by it.
use metamagic.Prelude.{ℕ, String, eqb, if◌then◌else◌, Eq}

pub data DataFormatType : Type 0 where
  unknown msg_pack bincode : DataFormatType

unfoldable pub DataFormatType-discrete : Discrete DataFormatType
DataFormatType-discrete = hlevel

instance unfoldable pub format_eq : Eq DataFormatType
unfolding DataFormatType-discrete
format_eq = record { dec = DataFormatType-discrete }

-- `Default`
abbrev pub default_format : DataFormatType
default_format = unknown

-- `From<u64>`
unfoldable pub from_u64 : ℕ → DataFormatType
from_u64 value = if eqb value 1 then msg_pack else if eqb value 2 then bincode else unknown

-- `as u64`: the discriminants
unfoldable pub as_u64 : DataFormatType → ℕ
as_u64 unknown = 0
as_u64 msg_pack = 1
as_u64 bincode = 2

-- `Display`: the name of the variant
unfoldable pub display : DataFormatType → String
display unknown = "Unknown"
display msg_pack = "MsgPack"
display bincode = "Bincode"

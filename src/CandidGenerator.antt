-- ===== src/CandidGenerator.antt =====
-- crates/dscvr-candid-generator/src/rust_canister_agent.rs: the generator of Rust clients from
-- candid files. The types are those of the candid crate, as the exhaustive matches of the source
-- show them.
pub mod Ident
mod Tests
pub mod Printer
pub mod Generate
pub mod Nominalize
use metamagic.Prelude.{ℕ, zero, suc, ◌≡◌, String, Bool, true, false, Option, none, some, List}

-- The label of a field: its name, or a number that was written or that its position gives.
pub data Label : Type 0 where
  named : String → Label
  id unnamed : ℕ → Label

-- The types with no parts.
pub data Prim : Type 0 where
  null bool nat int nat8 nat16 nat32 nat64 int8 int16 int32 int64 float32 float64 : Prim
  text reserved empty principal : Prim

-- `TypeInner`, with its lists in the block. Of a function's modes only that of queries is read.
mutual
  pub data Ty : Type 0 where
    prim : Prim → Ty
    var : String → Ty
    opt vec : Ty → Ty
    record_ variant : Fields → Ty
    func : Bool → Types → Types → Ty
    service : Methods → Ty
    class : Types → Ty → Ty
    knot unknown future : Ty

  pub data Fields : Type 0 where
    no_fields : Fields
    field : Label → Ty → Fields → Fields

  pub data Types : Type 0 where
    no_types : Types
    a_type : Ty → Types → Types

  pub data Methods : Type 0 where
    no_methods : Methods
    method : String → Ty → Methods → Methods

-- `TypePath`: the way from a definition to one of its parts.
pub data TypePath : Type 0 where
  id record_field variant_field func : String → TypePath
  opt vec init : TypePath

-- What the generator calls of the candid and convert_case crates: the hash of a name, a label's
-- number and print, and the title case of a text. `escape_debug` is that of the standard library,
-- whose tables of characters are not part of the repository.
pub record Candid : Type 0 where
  pub idl_hash : String → ℕ
  pub get_id : Label → ℕ
  pub label_to_string : Label → String
  pub to_title_case : String → String
  pub escape_debug : String → String

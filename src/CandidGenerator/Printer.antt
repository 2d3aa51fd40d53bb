-- ===== src/CandidGenerator/Printer.antt =====
-- q_ty and its helpers: the code of types, fields and functions. A branch that the source marks as
-- unreachable panics.
pub mod Total
use metamagic.Prelude.{
  ℕ, suc, String, ◌<>◌, ◌≡◌, Bool, true, false, not, List, [], ◌∷◌, ◌++◌, map, Outcome, ok, err,
  panic, ◌>>=◌, ◌==◌, ◌||◌, string_eq, if◌then◌else◌,
}
use metamagic.Prelude.Decimal.{decimal}
use metamagic.CandidGenerator.{
  Label, Prim, Ty, Fields, Types, Methods, prim, var, opt, vec, record_, variant, func, service,
  class, knot, unknown, future, no_fields, field, no_types, a_type, no_methods, method, null, bool,
  nat, int, nat8, nat16, nat32, nat64, int8, int16, int32, int64, float32, float64, text, reserved,
  empty, principal, Candid,
}
use metamagic.CandidGenerator.Nominalize.{is_tuple}
use metamagic.CandidGenerator.Ident.{piece, literal, TokenStream, q_ident, q_label}

-- `BTreeSet<&str>`: the names of the recursive types.
abbrev pub contains : List String → String → Bool
contains [] name = false
contains (r ∷ recs) name = r == name || contains recs name

unfoldable pub q_prim : Prim → String
q_prim null = "()"
q_prim bool = "bool"
q_prim nat = "candid::Nat"
q_prim int = "candid::Int"
q_prim nat8 = "u8"
q_prim nat16 = "u16"
q_prim nat32 = "u32"
q_prim nat64 = "u64"
q_prim int8 = "i8"
q_prim int16 = "i16"
q_prim int32 = "i32"
q_prim int64 = "i64"
q_prim float32 = "f32"
q_prim float64 = "f64"
q_prim text = "String"
q_prim reserved = "candid::Reserved"
q_prim empty = "candid::Empty"
q_prim principal = "candid::Principal"

-- `#(#parts),*`
unfoldable pub separated : List TokenStream → TokenStream
separated [] = []
separated (t ∷ []) = t
separated (t ∷ u ∷ ts) = t ++ piece "," ∷ separated (u ∷ ts)

-- `pub #field`, for a part of a tuple that is a definition
abbrev pub q_pub : Bool → TokenStream → TokenStream
q_pub make_pub tokens = if make_pub then piece "pub " ∷ tokens else tokens

-- `(#(#fields),*)` and `{#(#fields),*}`
abbrev pub q_body : Bool → List TokenStream → TokenStream
q_body tuple fields =
    if tuple
    then piece "(" ∷ (separated fields ++ piece ")" ∷ [])
    else piece "{" ∷ (separated fields ++ piece "}" ∷ [])

module _ (candid : Candid) (recs : List String) where
  -- `pub #field_name : #type_`, or the type alone in a tuple
  abbrev pub q_field : Bool → Bool → Label → TokenStream → TokenStream
  q_field tuple make_pub l type_ =
      if tuple then q_pub make_pub type_ else piece "pub " ∷ (q_label candid l ++ piece ":" ∷ type_)

  unfoldable mutual
    unfolding q_prim

    pub q_ty : Ty → Outcome String TokenStream
    q_ty (prim p) = ok (piece (q_prim p) ∷ [])
    q_ty (var id) =
        let name = (q_ident candid id).0 in
        ok
          (if contains recs id then piece "Box<" ∷ piece name ∷ piece ">" ∷ [] else piece name ∷ [])
    q_ty (opt t) = do nested ← q_ty t; ok (piece "Option<" ∷ (nested ++ piece ">" ∷ []))
    q_ty (vec t) = do nested ← q_ty t; ok (piece "Vec<" ∷ (nested ++ piece ">" ∷ []))
    q_ty (record_ fs) = do
      fields ← q_fields (is_tuple candid.get_id fs) false fs
      ok (q_body (is_tuple candid.get_id fs) fields)
    q_ty (variant fs) = panic
    q_ty (func query args rets) = ok (piece "candid::Func" ∷ [])
    q_ty (service ms) = ok (piece "candid::Service" ∷ [])
    q_ty (class args t) = panic
    q_ty knot = panic
    q_ty unknown = panic
    q_ty future = panic

    pub q_fields : Bool → Bool → Fields → Outcome String (List TokenStream)
    q_fields tuple make_pub no_fields = ok []
    q_fields tuple make_pub (field l t fs) = do
      type_ ← q_ty t
      rest ← q_fields tuple make_pub fs
      ok (q_field tuple make_pub l type_ ∷ rest)

  unfoldable pub q_record_fields : Fields → Bool → Outcome String TokenStream
  unfolding q_ty
  q_record_fields fs make_pub = do
    fields ← q_fields (is_tuple candid.get_id fs) make_pub fs
    ok (q_body (is_tuple candid.get_id fs) fields)

  -- `#label(#field)`
  abbrev pub q_payload : Label → TokenStream → TokenStream
  q_payload l nested = q_label candid l ++ piece "(" ∷ (nested ++ piece ")" ∷ [])

  unfoldable pub q_variant_field : Label → Ty → Outcome String TokenStream
  unfolding q_ty q_record_fields
  q_variant_field l (prim null) = ok (q_label candid l)
  q_variant_field l (record_ fs) = do
    fields ← q_record_fields fs false
    ok (q_label candid l ++ fields)
  q_variant_field l t = do nested ← q_ty t; ok (q_payload l nested)

-- ===== src/CandidGenerator/Generate.antt =====
-- generate_types, q_function and generate: the code of a whole client. What the candid_parser crate
-- finds out about a program is a parameter; the file is written by prettyplease from the tokens.
pub mod Printable
pub mod Total
pub mod Served
pub mod Safe
pub mod Faults
use metamagic.Prelude.{
  ℕ, zero, suc, String, ◌<>◌, ◌≡◌, Bool, true, false, List, [], ◌∷◌, ◌++◌, map, Option, none, some,
  Outcome, ok, err, panic, ◌>>=◌, or_panic, ◌==◌, ◌||◌, string_eq, if◌then◌else◌,
}
use metamagic.Prelude.Decimal.{decimal}
use metamagic.Prelude.HashMap.{lookup}
use metamagic.CandidGenerator.{
  Label, Ty, Fields, Types, Methods, prim, var, opt, vec, record_, variant, func, service, class,
  knot, unknown, future, no_fields, field, no_types, a_type, Candid,
}
use metamagic.CandidGenerator.Nominalize.{TypeEnv, is_tuple, nominalize_all}
use metamagic.CandidGenerator.Ident.{piece, literal, TokenStream, q_ident}
use metamagic.CandidGenerator.Printer.{contains, separated, q_ty, q_record_fields, q_variant_field}

abbrev pub derive : String
derive =
    "#[derive(Debug, Clone, PartialEq, Eq, candid::CandidType, serde::Deserialize, serde::Serialize, deepsize::DeepSizeOf)]"

module _ (candid : Candid) where
  unfoldable pub is_result : Fields → Bool
  is_result no_fields = false
  is_result (field l t fs) =
      (candid.label_to_string l == "Ok" || candid.label_to_string l == "Err") || is_result fs

  unfoldable pub q_field_types : Fields → Outcome String (List TokenStream)
  q_field_types no_fields = ok []
  q_field_types (field l t fs) = do ret ← q_ty candid [] t; rets ← q_field_types fs; ok (ret ∷ rets)

  -- `#(#fields,)*`
  unfoldable pub q_variant_fields : List String → Fields → Outcome String TokenStream
  q_variant_fields recs no_fields = ok []
  q_variant_fields recs (field l t fs) = do
    first ← q_variant_field candid recs l t
    rest ← q_variant_fields recs fs
    ok (first ++ piece "," ∷ rest)

  -- A type that is neither a record nor a variant.
  unfoldable pub q_alias : List String → String → Ty → Outcome String TokenStream
  q_alias recs id ty = do
    let name = (q_ident candid id).0
    type_ ← q_ty candid recs ty
    ok (
        if contains recs id
        then piece derive
          ∷ piece "pub struct "
          ∷ piece name
          ∷ piece "(pub "
          ∷ (type_ ++ piece ");" ∷ [])
        else piece "type " ∷ piece name ∷ piece "=" ∷ (type_ ++ piece ";" ∷ []))

  -- The definition of one type.
  unfoldable pub q_definition : List String → String → Ty → Outcome String TokenStream
  q_definition recs id (record_ fs) = do
    let name = (q_ident candid id).0
    fields ← q_record_fields candid recs fs true
    let separator : TokenStream = if is_tuple candid.get_id fs then piece ";" ∷ [] else []
    ok (piece derive ∷ piece "pub struct " ∷ piece name ∷ (fields ++ separator))
  q_definition recs id (variant fs) =
      let name = (q_ident candid id).0 in
      if is_result fs
      then (do
        rets ← q_field_types fs
        ok (
            piece "pub type "
            ∷ piece name
            ∷ piece "= std::result::Result<"
            ∷ (separated rets ++ piece ">;" ∷ [])))
      else do
        fields ← q_variant_fields recs fs
        ok (piece derive ∷ piece "pub enum " ∷ piece name ∷ piece "{" ∷ (fields ++ piece "}" ∷ []))
  q_definition recs id ty = q_alias recs id ty

  -- A name that is not in the environment panics.
  unfoldable pub generate_types : TypeEnv → List String → List String → Outcome String TokenStream
  generate_types env [] recs = ok []
  generate_types env (id ∷ def_list) recs = do
    ty ← or_panic (lookup id env)
    tokens ← q_definition recs id ty
    ret ← generate_types env def_list recs
    ok (tokens ++ ret)

  unfoldable pub q_types : Types → Outcome String (List TokenStream)
  q_types no_types = ok []
  q_types (a_type t ts) = do first ← q_ty candid [] t; rest ← q_types ts; ok (first ∷ rest)

  -- `arg0`, `arg1`, … for as many arguments as there are
  abbrev pub arg_names : ℕ → List TokenStream → List String
  arg_names i [] = []
  arg_names i (t ∷ ts) = ("arg" <> decimal i) ∷ arg_names (suc i) ts

  abbrev pub typed_args : ℕ → List TokenStream → List TokenStream
  typed_args i [] = []
  typed_args i (t ∷ ts) = (piece ("arg" <> decimal i) ∷ piece ":" ∷ t) ∷ typed_args (suc i) ts

  unfoldable pub q_function : String → Bool → Types → Types → Outcome String TokenStream
  q_function id query func_args func_rets = do
    let name = (q_ident candid id).0
    args ← q_types func_args
    rets ← q_types func_rets
    let agent : TokenStream = piece "agent: &dscvr_canister_agent::CanisterAgent" ∷ []
    let call : TokenStream =
        piece (if query then "agent.query(" else "agent.update(")
        ∷ literal id
        ∷ piece ", args).await?.as_slice()"
        ∷ []
    ok (
        piece "#[tracing::instrument(skip_all)] pub async fn "
        ∷ piece name
        ∷ piece "("
        ∷ (separated (agent ∷ typed_args 0 args)
            ++ piece ") -> instrumented_error::Result<("
              ∷ (separated rets
                  ++ piece ")> { let args = candid::Encode!("
                    ∷ (separated (map (λ arg. piece "&" ∷ piece arg ∷ []) (arg_names 0 args))
                        ++ piece ")?; Ok(candid::Decode!("
                          ∷ (separated (call ∷ rets) ++ piece ")?) }" ∷ [])))))

-- `chase_actor`, `infer_rec`, `as_service` and `as_func`: the names that an actor needs, those that
-- are recursive, the methods of a service, and the function that a method's type stands for.
pub record Analysis : Type 0 where
  pub chase_actor : TypeEnv → Ty → Outcome String (List String)
  pub infer_rec : TypeEnv → List String → Outcome String (List String)
  pub as_service : TypeEnv → Ty → Outcome String (List (String × Ty))
  pub as_func : TypeEnv → Ty → Option (Bool × (Types × Types))

abbrev pub keys : TypeEnv → List String
keys env = map (λ d. d.0) env

module _ (candid : Candid) (analysis : Analysis) where
  unfoldable pub q_functions : TypeEnv → List (String × Ty) → Outcome String TokenStream
  q_functions env [] = ok []
  q_functions env ((id, func_type) ∷ serv) = do
    (query, (args, rets)) ← or_panic (analysis.as_func env func_type)
    tokens ← q_function candid id query args rets
    rest ← q_functions env serv
    ok (tokens ++ rest)

  -- The definitions that are written: those that the actor needs, or all.
  unfoldable pub definitions_of : TypeEnv → Option Ty → Outcome String (List String)
  definitions_of env none = ok (keys env)
  definitions_of env (some actor) = analysis.chase_actor env actor

  unfoldable pub service_of : TypeEnv → Option Ty → Outcome String (List (String × Ty))
  service_of env none = ok []
  service_of env (some actor) = analysis.as_service env actor

  -- `generate`, from the types and the actor of a checked file to the tokens of the client.
  unfoldable pub generate : TypeEnv → Option Ty → Outcome String TokenStream
  generate types actor = do
    let nominalized = nominalize_all candid types actor
    def_list ← definitions_of nominalized.0 nominalized.1
    recs ← analysis.infer_rec nominalized.0 def_list
    tokens ← generate_types candid nominalized.0 def_list recs
    serv ← service_of nominalized.0 nominalized.1
    functions ← q_functions nominalized.0 serv
    ok (tokens ++ functions)

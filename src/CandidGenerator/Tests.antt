-- ===== src/CandidGenerator/Tests.antt =====
-- A small candid program, and its client.
use metamagic.CandidGenerator.Printer.{q_record_fields, q_ty, separated}
use metamagic.Prelude.{
  ℕ, String, ◌≡◌, ◌≢◌, ◌↔◌, refl, arith, Bool, true, false, ◌&&◌, Option, none, some, List, [], ◌∷◌,
  ◌++◌, All, Outcome, ok, err, panic, ==-false, string_eq, nat_eq, subst, sym, ok-injective,
}
use metamagic.Prelude.Decimal.{decimal}
use metamagic.Prelude.HashMap.{lookup, insert, NodupKeys}
use metamagic.CandidGenerator.{
  Label, named, Ty, Fields, Types, Methods, prim, var, opt, record_, variant, func, service,
  no_fields, field, no_types, a_type, no_methods, method, nat, text, null, TypePath, Candid,
}
use metamagic.CandidGenerator.Nominalize.{
  TypeEnv, is_tuple, path_to_var, stays_record, stays_variant, nominalize, nominalize_defs,
  nominalize_all,
}
use metamagic.CandidGenerator.Nominalize.Writer.{nominal, new_defs}
use metamagic.CandidGenerator.Nominalize.Recursion.{with_fuel, depth}
use metamagic.CandidGenerator.Nominalize.Terminates.{with_fuel-nominalize}
use metamagic.CandidGenerator.Nominalize.Program.{
  all_defs, actor_defs, Stands, nominalize_all-Means,
}
use metamagic.CandidGenerator.Ident.{
  piece, TokenStream, is_reserved, q_ident, q_label, q_field_name, is_empty, bad_start, bad_char,
}
use metamagic.CandidGenerator.Ident.Valid.{IsWord, q_ident_lem}
use metamagic.CandidGenerator.Generate.{
  Analysis, keys, is_result, q_definition, generate, generate_types, derive,
}
use metamagic.CandidGenerator.Generate.Printable.{IsPlain, ArePlain, Definitions}
use metamagic.CandidGenerator.Generate.Total.{IsPlainActor, nominalize_all-Definitions}
use metamagic.CandidGenerator.Generate.Served.{
  StandsFor, here, methods_of, IsFunction, a_func, IsServedActor, a_service, lookup-All,
}
use metamagic.CandidGenerator.Generate.Safe.{IsSound, keys-found, generate-ne-panic}
use metamagic.CandidGenerator.Generate.Faults.{nominalize_collides, result_of_record}

-- Names have large hashes, and are their own title cases.
abbrev number : Label → ℕ
number (named s) = 1000
number (Label.id n) = n
number (Label.unnamed n) = n

abbrev label_name : Label → String
label_name (named s) = s
label_name (Label.id n) = "n"
label_name (Label.unnamed n) = "n"

abbrev candid : Candid
candid = record {
  idl_hash = λ _. 7;
  get_id = number;
  label_to_string = label_name;
  to_title_case = λ s. s;
  escape_debug = λ s. s;
}

-- record { street : text }
abbrev address : Fields
address = field (named "Street") (prim text) no_fields

-- type User = record { Name : text; Home : opt record { Street : text } }
abbrev user : Ty
user =
    record_
      (field (named "Name") (prim text) (field (named "Home") (opt (record_ address)) no_fields))

abbrev types : TypeEnv
types = ("User", user) ∷ []

-- service : { find : (nat) → (opt variant { None }) query }
abbrev find : Ty
find =
    func true (a_type (prim nat) no_types)
      (a_type (opt (variant (field (named "None") (prim null) no_fields))) no_types)

abbrev actor : Option Ty
actor = some (service (method "find" find no_methods))

-- The new names are those of the ways to the types.
names : keys (nominalize_all candid types actor).0 ≡ "UserHomeInner" ∷ "User" ∷ "findret0Inner" ∷ []
unfolding nominalize_all nominalize nominalize_defs stays_record stays_variant is_tuple path_to_var
    insert decimal nat_eq string_eq
names = refl

user_code :
    generate_types candid (nominalize_all candid types none).0 ("UserHomeInner" ∷ []) []
    ≡ ok (
        piece derive
        ∷ piece "pub struct "
        ∷ piece "UserHomeInner"
        ∷ piece "{"
        ∷ piece "pub "
        ∷ piece "Street"
        ∷ piece ":"
        ∷ piece "String"
        ∷ piece "}"
        ∷ [])
unfolding generate_types q_definition q_record_fields q_ty q_label q_field_name q_ident is_empty
    bad_start bad_char is_reserved separated nominalize_all nominalize nominalize_defs stays_record
    is_tuple path_to_var insert lookup nat_eq string_eq
user_code = refl

names-NodupKeys : NodupKeys (all_defs candid types ++ actor_defs candid actor)
unfolding nominal new_defs stays_record stays_variant is_tuple path_to_var lookup decimal nat_eq
    string_eq
names-NodupKeys = (refl, (refl, (refl, tt)))

nominalize_all-Means_example : Stands candid types actor (nominalize_all candid types actor)
nominalize_all-Means_example = nominalize_all-Means candid types actor names-NodupKeys

-- A record inside an option, which the recursion meets twice.
with_fuel-nominalize_example :
    with_fuel candid 3 [] (TypePath.id "User" ∷ []) (opt (record_ no_fields))
    ≡ some (nominalize candid [] (TypePath.id "User" ∷ []) (opt (record_ no_fields)))
unfolding depth
with_fuel-nominalize_example =
    with_fuel-nominalize candid [] (TypePath.id "User" ∷ []) (opt (record_ no_fields)) 3
      (omega arith)

q_ident_lem_example :
    IsWord (q_ident candid "created-at").0
    × (is_reserved (q_ident candid "created-at").0 ≡ false)
    × (((q_ident candid "created-at").1 ≡ false)
        ↔ (IsWord "created-at" × (is_reserved "created-at" ≡ false)))
    × ((q_ident candid "created-at").1 ≡ false → (q_ident candid "created-at").0 ≡ "created-at")
q_ident_lem_example = q_ident_lem candid "created-at"

-- An analysis that takes services as they are written.
abbrev func_of : Ty → Option (Bool × (Types × Types))
func_of (func query args rets) = some (query, (args, rets))
func_of _ = none

abbrev is_func : Ty → Bool
is_func (func query args rets) = true
is_func _ = false

abbrev all_funcs : Methods → Bool
all_funcs no_methods = true
all_funcs (method m t ms) = is_func t && all_funcs ms

abbrev checked : Bool → Methods → Outcome String (List (String × Ty))
checked true ms = ok (methods_of ms)
checked false ms = err "not a function"

abbrev service_methods : Ty → Outcome String (List (String × Ty))
service_methods (service ms) = checked (all_funcs ms) ms
service_methods _ = err "not a service"

abbrev analysis : Analysis
analysis = record {
  chase_actor = λ env _. ok (keys env);
  infer_rec = λ _ _. ok [];
  as_service = λ _ t. service_methods t;
  as_func = λ _ t. func_of t;
}

checked-eq-ok :
    (b : Bool) (ms : Methods) (serv : List (String × Ty))
    → checked b ms ≡ ok serv
    → (b ≡ true) × (serv ≡ methods_of ms)
checked-eq-ok true ms serv e = (refl, sym (ok-injective e))
checked-eq-ok false ms serv e = cc

service_methods-eq-ok :
    (t : Ty) (serv : List (String × Ty))
    → service_methods t ≡ ok serv
    → (ms : Methods) × (t ≡ service ms) × (all_funcs ms ≡ true) × (serv ≡ methods_of ms)
service_methods-eq-ok (service ms) serv e =
    let (funcs, same) = checked-eq-ok (all_funcs ms) ms serv e in (ms, refl, funcs, same)
service_methods-eq-ok (prim p) serv e = cc
service_methods-eq-ok _ serv e = cc

checked-ne-panic : (b : Bool) (ms : Methods) → checked b ms ≢ panic
checked-ne-panic true ms e = cc
checked-ne-panic false ms e = cc

service_methods-ne-panic : (t : Ty) → service_methods t ≢ panic
service_methods-ne-panic (service ms) e = checked-ne-panic (all_funcs ms) ms e
service_methods-ne-panic (prim p) e = cc
service_methods-ne-panic _ e = cc

func_of-StandsFor :
    (env : TypeEnv) (t : Ty) (f : Bool × (Types × Types))
    → func_of t ≡ some f
    → StandsFor env t (func f.0 f.1.0 f.1.1)
func_of-StandsFor env (func query args rets) f e =
    let same : (query, (args, rets)) ≡ f = cc in
    subst
      (λ (g : Bool × (Types × Types)). StandsFor env (func query args rets) (func g.0 g.1.0 g.1.1))
      same (here (func query args rets))
func_of-StandsFor env (prim p) f e = cc
func_of-StandsFor env _ f e = cc

-- A name stands for a function only if something in the environment does.
is_named : Ty → Bool
is_named (func query args rets) = true
is_named (var v) = true
is_named _ = false

IsFunction-is_named : (env : TypeEnv) {t : Ty} → IsFunction env t → is_named t ≡ true
unfolding is_named
IsFunction-is_named env (a_func query args rets) = refl
IsFunction-is_named env (IsFunction.named found rest) = refl

abbrev nominalized : TypeEnv
nominalized = (nominalize_all candid types actor).0

none-is_named : All (λ d. is_named d.1 ≡ false) nominalized
unfolding is_named nominalize_all nominalize nominalize_defs stays_record stays_variant is_tuple
    path_to_var insert decimal nat_eq string_eq
none-is_named = (refl, (refl, (refl, tt)))

func_of-IsFunction : (t : Ty) → IsFunction nominalized t → func_of t ≢ none
func_of-IsFunction t (a_func query args rets) e = cc
func_of-IsFunction t (IsFunction.named {v} {d} found rest) e =
    let data_ = lookup-All (λ v d. is_named d ≡ false) v d nominalized none-is_named found in
    let func_ = IsFunction-is_named nominalized rest in cc

analysis-IsSound : IsSound analysis nominalized
analysis-IsSound = record {
  chase_actor-found = λ t ids e.
      subst (All (λ id. lookup id nominalized ≢ none)) (ok-injective e) (keys-found nominalized);
  chase_actor-ne-panic = λ t e. cc;
  infer_rec-ne-panic = λ ids e. cc;
  as_service-ne-panic = λ t. service_methods-ne-panic t;
  as_service-StandsFor = λ t serv e.
      let (ms, is, funcs, same) = service_methods-eq-ok t serv e in
      (ms, subst (λ u. StandsFor nominalized u (service ms)) (sym is) (here (service ms)), same);
  as_func-known = func_of-IsFunction;
  as_func-StandsFor = func_of-StandsFor nominalized;
}

actor-IsServedActor : IsServedActor types actor
actor-IsServedActor = a_service _ (a_func _ _ _, tt)

types-IsPlain : All (λ d. IsPlain d.1) types
unfolding IsPlain
types-IsPlain = ((tt, ((tt, tt), tt)), tt)

actor-IsPlainActor : IsPlainActor candid actor
unfolding IsPlain
actor-IsPlainActor = (((tt, tt), ((tt, tt), tt)), tt)

nominalize_all-Definitions_example : Definitions candid (nominalize_all candid types actor).0
nominalize_all-Definitions_example =
    nominalize_all-Definitions candid types actor types-IsPlain actor-IsPlainActor

generate-ne-panic_example : generate candid analysis types actor ≢ panic
generate-ne-panic_example =
    generate-ne-panic candid analysis types actor types-IsPlain actor-IsPlainActor
      actor-IsServedActor names-NodupKeys analysis-IsSound

User-ne-UserInner : ◌≢◌ {A = String} "User" "UserInner"
unfolding string_eq
User-ne-UserInner = ==-false "User" "UserInner" refl

nominalize_collides_example :
    (lookup "User"
        (nominalize_all candid
          (("User", opt (record_ address)) ∷ ("UserInner", prim nat) ∷ [])
          none).0
      ≡ some (opt (var "UserInner")))
    × (lookup "UserInner"
          (nominalize_all candid
            (("User", opt (record_ address)) ∷ ("UserInner", prim nat) ∷ [])
            none).0
        ≡ some (prim nat))
unfolding path_to_var is_tuple nat_eq
nominalize_collides_example =
    nominalize_collides candid "User" (named "Street") text nat refl User-ne-UserInner

result_labelled : is_result candid (field (named "Ok") (record_ address) no_fields) ≡ true
unfolding is_result string_eq
result_labelled = refl

address-record : is_tuple candid.get_id address ≡ false
unfolding is_tuple nat_eq
address-record = refl

address-ArePlain : ArePlain address
unfolding IsPlain
address-ArePlain = (tt, tt)

no_fields-ArePlain : ArePlain no_fields
unfolding IsPlain
no_fields-ArePlain = tt

result_of_record_example :
    (tokens : TokenStream) × (q_definition candid [] "Found"
        (nominalize candid []
          (TypePath.id "Found" ∷ [])
          (variant (field (named "Ok") (record_ address) no_fields))).0
      ≡ ok (
          piece "pub type "
          ∷ piece (q_ident candid "Found").0
          ∷ piece "= std::result::Result<"
          ∷ piece "{"
          ∷ tokens))
result_of_record_example =
    result_of_record candid [] [] "Found" (named "Ok") address no_fields result_labelled
      address-record address-ArePlain no_fields-ArePlain

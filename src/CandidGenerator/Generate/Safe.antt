-- ===== src/CandidGenerator/Generate/Safe.antt =====
-- The whole generator does not panic.
use metamagic.Prelude.{
  String, ◌≡◌, ◌≢◌, refl, ap, subst, sym, ◌∙◌, Bool, Option, none, some, List, [], ◌∷◌, ◌++◌, All,
  Outcome, ok, err, panic, ◌>>=◌, string_eq, Option-cases, inl, inr, arith, ok-injective, ==_refl,
  All-imp,
}
use metamagic.Prelude.HashMap.{lookup, NodupKeys}
use metamagic.CandidGenerator.{
  Ty, Types, Methods, prim, func, service, class, no_types, a_type, no_methods, method, Candid,
}
use metamagic.CandidGenerator.Nominalize.{TypeEnv, nominalize_all}
use metamagic.CandidGenerator.Nominalize.Writer.{nominal}
use metamagic.CandidGenerator.Nominalize.Program.{
  nominal_actor, nominalize_all-extend, all_defs, actor_defs,
}
use metamagic.CandidGenerator.Generate.Served.{
  StandsFor, here, follow, made, methods_of, IsFunction, AreFunctions, IsServed, IsServedActor,
  served-AreFunctions, nominalize_all-IsServedActor,
}
use metamagic.CandidGenerator.Printer.Total.{
  IsPrintable, AllPrintable, AreMethods, IsDefinition, Succeeds, Succeeds->>=, Succeeds-ok,
  q_ty-Succeeds,
}
use metamagic.CandidGenerator.Generate.{
  generate_types, q_types, q_function, Analysis, q_functions, definitions_of, service_of, generate,
  keys,
}
use metamagic.CandidGenerator.Generate.Printable.{IsPlain, Definitions, nominal-IsDefinition}
use metamagic.CandidGenerator.Generate.Total.{
  IsPlainActor, nominalize_all-Definitions, lookup-IsDefinition, generate_types-Succeeds,
}

-- What the analysis of the candid crates promises of an environment: the names that it finds are
-- defined, a service is the one that the actor stands for, what stands for a function is found to
-- be one, and it panics nowhere.
pub record IsSound (analysis : Analysis) (env : TypeEnv) : Type 0 where
  pub chase_actor-found :
      (actor : Ty) (ids : List String)
      → analysis.chase_actor env actor ≡ ok ids
      → All (λ id. lookup id env ≢ none) ids
  pub chase_actor-ne-panic : (actor : Ty) → analysis.chase_actor env actor ≢ panic
  pub infer_rec-ne-panic : (ids : List String) → analysis.infer_rec env ids ≢ panic
  pub as_service-ne-panic : (actor : Ty) → analysis.as_service env actor ≢ panic
  pub as_service-StandsFor :
      (actor : Ty) (serv : List (String × Ty))
      → analysis.as_service env actor ≡ ok serv
      → (ms : Methods) × StandsFor env actor (service ms) × (serv ≡ methods_of ms)
  pub as_func-known : (t : Ty) → IsFunction env t → analysis.as_func env t ≢ none
  pub as_func-StandsFor :
      (t : Ty) (f : Bool × (Types × Types))
      → analysis.as_func env t ≡ some f
      → StandsFor env t (func f.0 f.1.0 f.1.1)

pub >>=-ne-panic :
    {A B : Type 0} (first : Outcome String A) (next : A → Outcome String B)
    → first ≢ panic
    → ((a : A) → first ≡ ok a → next a ≢ panic)
    → (first >>= next) ≢ panic
>>=-ne-panic (ok a) next h then_ e = then_ a refl e
>>=-ne-panic (err x) next h then_ e = cc
>>=-ne-panic panic next h then_ e = h refl

Succeeds-ne-panic : {A : Type 0} (r : Outcome String A) → Succeeds r → r ≢ panic
Succeeds-ne-panic r (a, done) e = cc

-- A definition, or a class that makes one.
abbrev IsTop : Ty → Type 0
IsTop (class args t) = IsDefinition t
IsTop t = IsDefinition t

IsDefinition-IsTop : (t : Ty) → IsDefinition t → IsTop t
unfolding IsPrintable
IsDefinition-IsTop (class args t) h = absurd h
IsDefinition-IsTop (prim p) h = h
IsDefinition-IsTop _ h = h

module _ (candid : Candid) (env : TypeEnv) (defs : Definitions candid env) where
  StandsFor-IsTop : {s t : Ty} → StandsFor env s t → IsTop s → IsTop t
  StandsFor-IsTop (here t) h = h
  StandsFor-IsTop (follow {v} {d} {t} found rest) h =
      StandsFor-IsTop rest (IsDefinition-IsTop d (lookup-IsDefinition candid v d env defs found))
  StandsFor-IsTop (made args {s} {t} rest) h = StandsFor-IsTop rest (IsDefinition-IsTop s h)

  q_types-Succeeds : (ts : Types) → AllPrintable ts → Succeeds (q_types candid ts)
  unfolding q_types IsPrintable
  q_types-Succeeds no_types h = Succeeds-ok _
  q_types-Succeeds (a_type t ts) (h, hs) =
      Succeeds->>= _ _ (q_ty-Succeeds candid [] t h)
        (λ a. Succeeds->>= _ _ (q_types-Succeeds ts hs) (λ b. Succeeds-ok _))

  q_function-Succeeds :
      (id : String) (query : Bool) (args rets : Types)
      → AllPrintable args
      → AllPrintable rets
      → Succeeds (q_function candid id query args rets)
  unfolding q_function
  q_function-Succeeds id query args rets ha hr =
      Succeeds->>= _ _ (q_types-Succeeds args ha)
        (λ a. Succeeds->>= _ _ (q_types-Succeeds rets hr) (λ b. Succeeds-ok _))

  module _ (analysis : Analysis) (sound : IsSound analysis env) where
    q_functions-Succeeds :
        (ms : Methods)
        → AreMethods ms
        → AreFunctions env ms
        → Succeeds (q_functions candid analysis env (methods_of ms))
    unfolding q_functions IsPrintable
    q_functions-Succeeds no_methods h known = Succeeds-ok _
    q_functions-Succeeds (method id t ms) (h, hs) (here_, known) =
        elim (Option-cases (analysis.as_func env t)) [
          | inl missing ↦ absurd (sound.as_func-known t here_ missing)
          | inr ((query, (args, rets)), found) ↦ rw found (
              let printable =
                StandsFor-IsTop (sound.as_func-StandsFor t (query, (args, rets)) found)
                  (IsDefinition-IsTop t h) in
              Succeeds->>= _ _ (q_function-Succeeds id query args rets printable.0 printable.1)
                (λ a. Succeeds->>= _ _ (q_functions-Succeeds ms hs known) (λ b. Succeeds-ok _)))
        ]

nominal_actor-IsTop :
    (candid : Candid) (t : Ty) → IsPlainActor candid (some t) → IsTop (nominal candid [] t)
unfolding nominal IsPlain
nominal_actor-IsTop candid (class args t) h = nominal-IsDefinition candid [] t tt h.1
nominal_actor-IsTop candid (prim p) h =
    IsDefinition-IsTop _ (nominal-IsDefinition candid [] (prim p) tt h)
nominal_actor-IsTop candid t h = IsDefinition-IsTop _ (nominal-IsDefinition candid [] t tt h)

actor-IsTop :
    (candid : Candid) (actor : Option Ty)
    → IsPlainActor candid actor
    → (t : Ty) → nominal_actor candid actor ≡ some t
    → IsTop t
actor-IsTop candid none h t e = cc
actor-IsTop candid (some a) h t e =
    let same : nominal candid [] a ≡ t = cc in subst IsTop same (nominal_actor-IsTop candid a h)

-- A name that is found in a map is found in a longer one.
found-cons :
    (id v : String) (t : Ty) (env : TypeEnv)
    → lookup id env ≢ none
    → lookup id ((v, t) ∷ env) ≢ none
unfolding lookup
found-cons id v t env h = ground (arith, h)

pub keys-found : (env : TypeEnv) → All (λ id. lookup id env ≢ none) (keys env)
unfolding lookup
keys-found [] = tt
keys-found ((v, t) ∷ env) = (
  ground (arith, ==_refl v),
  All-imp _ _ (λ id. found-cons id v t env) (keys env) (keys-found env),
)

module _ (candid : Candid) (analysis : Analysis) where
  functions-ne-panic :
      (env : TypeEnv) (actor : Ty) (serv : List (String × Ty))
      → IsSound analysis env
      → Definitions candid env
      → IsTop actor
      → IsServed env actor
      → analysis.as_service env actor ≡ ok serv
      → q_functions candid analysis env serv ≢ panic
  unfolding IsPrintable
  functions-ne-panic env actor serv sound defs top served found =
      let (ms, stands, same) = sound.as_service-StandsFor actor serv found in
      let methods = StandsFor-IsTop candid env defs stands top in
      let functions = served-AreFunctions env actor ms stands served in
      subst (λ l. q_functions candid analysis env l ≢ panic) (sym same)
        (Succeeds-ne-panic _
          (q_functions-Succeeds candid env defs analysis sound ms methods functions))

  definitions_of-found :
      (env : TypeEnv) (actor : Option Ty) (ids : List String)
      → IsSound analysis env
      → definitions_of candid analysis env actor ≡ ok ids
      → All (λ id. lookup id env ≢ none) ids
  unfolding definitions_of
  definitions_of-found env none ids sound e =
      subst (All (λ id. lookup id env ≢ none)) (ok-injective e) (keys-found env)
  definitions_of-found env (some actor) ids sound e = sound.chase_actor-found actor ids e

  definitions_of-ne-panic :
      (env : TypeEnv) (actor : Option Ty)
      → IsSound analysis env
      → definitions_of candid analysis env actor ≢ panic
  unfolding definitions_of
  definitions_of-ne-panic env none sound e = cc
  definitions_of-ne-panic env (some actor) sound e = sound.chase_actor-ne-panic actor e

  service_of-ne-panic :
      (env : TypeEnv) (actor : Option Ty)
      → IsSound analysis env
      → service_of candid analysis env actor ≢ panic
  unfolding service_of
  service_of-ne-panic env none sound e = cc
  service_of-ne-panic env (some actor) sound e = sound.as_service-ne-panic actor e

  served-ne-panic :
      (env : TypeEnv) (actor : Option Ty) (serv : List (String × Ty))
      → IsSound analysis env
      → Definitions candid env
      → ((t : Ty) → actor ≡ some t → IsTop t)
      → IsServedActor env actor
      → service_of candid analysis env actor ≡ ok serv
      → q_functions candid analysis env serv ≢ panic
  unfolding service_of
  served-ne-panic env none serv sound defs top functions served =
      subst (λ l. q_functions candid analysis env l ≢ panic) (ok-injective served)
        (unfold q_functions in λ e. cc)
  served-ne-panic env (some t) serv sound defs top functions served =
      functions-ne-panic env t serv sound defs (top t refl) functions served

  -- What `generate` does with the nominalized program.
  written-ne-panic :
      (env : TypeEnv) (actor : Option Ty)
      → IsSound analysis env
      → Definitions candid env
      → ((t : Ty) → actor ≡ some t → IsTop t)
      → IsServedActor env actor
      → (do
        def_list ← definitions_of candid analysis env actor
        recs ← analysis.infer_rec env def_list
        tokens ← generate_types candid env def_list recs
        serv ← service_of candid analysis env actor
        functions ← q_functions candid analysis env serv
        ok (tokens ++ functions))
        ≢ panic
  unfolding service_of q_functions
  written-ne-panic env actor sound defs top served_actor =
      >>=-ne-panic _ _ (definitions_of-ne-panic env actor sound) (λ def_list found.
        >>=-ne-panic _ _ (sound.infer_rec-ne-panic def_list) (λ recs _.
          >>=-ne-panic _ _
            (Succeeds-ne-panic _ (
              generate_types-Succeeds candid env def_list recs defs
                (definitions_of-found env actor def_list sound found)))
            (λ tokens _. >>=-ne-panic _ _ (service_of-ne-panic env actor sound) (λ serv served.
              >>=-ne-panic (q_functions candid analysis env serv)
                (λ functions. ok (tokens ++ functions))
                (served-ne-panic env actor serv sound defs top served_actor served)
                (λ functions _ e. cc)))))

  pub generate-ne-panic :
      (types : TypeEnv) (actor : Option Ty)
      → All (λ d. IsPlain d.1) types
      → IsPlainActor candid actor
      → IsServedActor types actor
      → NodupKeys (all_defs candid types ++ actor_defs candid actor)
      → IsSound analysis (nominalize_all candid types actor).0
      → generate candid analysis types actor ≢ panic
  unfolding generate
  generate-ne-panic types actor plain plain_actor served distinct sound =
      written-ne-panic (nominalize_all candid types actor).0 (nominalize_all candid types actor).1
        sound (nominalize_all-Definitions candid types actor plain plain_actor)
        (λ t e. actor-IsTop candid actor plain_actor t (
          sym (ap (λ (r : TypeEnv × Option Ty). r.1) (nominalize_all-extend candid types actor))
          ∙ e))
        (nominalize_all-IsServedActor candid types actor distinct served)

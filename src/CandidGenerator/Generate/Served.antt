-- ===== src/CandidGenerator/Generate/Served.antt =====
-- The methods of a checked program's service are functions, and nominalization keeps them so.
use metamagic.Prelude.{
  String, ◌≡◌, sym, ◌∙◌, subst, Bool, Option, none, some, List, [], ◌∷◌, ◌++◌, All, All-append_left,
  All-append_right, ◌==◌, string_eq, Bool-cases, inl, inr, arith,
}
use metamagic.Prelude.HashMap.{lookup, NodupKeys}
use metamagic.CandidGenerator.{
  Ty, Types, Methods, var, func, service, class, no_methods, method, TypePath, Candid,
}
use metamagic.CandidGenerator.Nominalize.{TypeEnv, Nodes, nominalize_all}
use metamagic.CandidGenerator.Nominalize.Writer.{extend, nominal, nominal_methods, new_defs}
use metamagic.CandidGenerator.Nominalize.Program.{
  all_defs, actor_defs, nominal_actor, extend-All, nominalize_all-extend,
}

-- A type stands for what its name is defined as; a class stands for what it makes.
pub data StandsFor (env : TypeEnv) : Ty → Ty → Type 0 where
  here : (t : Ty) → StandsFor env t t
  follow :
      {v : String} {d t : Ty} → lookup v env ≡ some d → StandsFor env d t → StandsFor env (var v) t
  made : (args : Types) {s t : Ty} → StandsFor env s t → StandsFor env (class args s) t

abbrev pub methods_of : Methods → List (String × Ty)
methods_of no_methods = []
methods_of (method m t ms) = (m, t) ∷ methods_of ms

-- A function, or a name that stands for one.
pub data IsFunction (env : TypeEnv) : Ty → Type 0 where
  a_func : (query : Bool) (args rets : Types) → IsFunction env (func query args rets)
  named : {v : String} {d : Ty} → lookup v env ≡ some d → IsFunction env d → IsFunction env (var v)

abbrev pub AreFunctions : TypeEnv → Methods → Type 0
AreFunctions env ms = All (λ m. IsFunction env m.1) (methods_of ms)

-- A service whose methods are functions, or what stands for one.
pub data IsServed (env : TypeEnv) : Ty → Type 0 where
  a_service : (ms : Methods) → AreFunctions env ms → IsServed env (service ms)
  aliased : {v : String} {d : Ty} → lookup v env ≡ some d → IsServed env d → IsServed env (var v)
  a_class : (args : Types) {t : Ty} → IsServed env t → IsServed env (class args t)

-- So is the actor of a program, if it has one.
abbrev pub IsServedActor : TypeEnv → Option Ty → Type 0
IsServedActor env none = Unit
IsServedActor env (some t) = IsServed env t

StandsFor-IsServed :
    (env : TypeEnv) {s t : Ty} → StandsFor env s t → IsServed env s → IsServed env t
StandsFor-IsServed env (here t) h = h
StandsFor-IsServed env (follow {v} {d} {t} found rest) (aliased {d = d'} found' h) =
    let e : ◌≡◌ {A = Option Ty} (some d') (some d) = sym found' ∙ found in
    StandsFor-IsServed env rest (subst (IsServed env) (cc) h)
StandsFor-IsServed env (made args rest) (a_class _ h) = StandsFor-IsServed env rest h

IsServed-AreFunctions :
    (env : TypeEnv) (ms : Methods) → IsServed env (service ms) → AreFunctions env ms
IsServed-AreFunctions env ms (a_service _ h) = h

-- The methods of the service that an actor stands for are functions.
pub served-AreFunctions :
    (env : TypeEnv) (t : Ty) (ms : Methods)
    → StandsFor env t (service ms)
    → IsServed env t
    → AreFunctions env ms
served-AreFunctions env t ms stands h =
    IsServed-AreFunctions env ms (StandsFor-IsServed env stands h)

-- What holds of all entries holds of what is found.
pub lookup-All :
    (Q : String → Ty → Type 0) (v : String) (d : Ty) (env : TypeEnv)
    → All (λ e. Q e.0 e.1) env
    → lookup v env ≡ some d
    → Q v d
unfolding lookup
lookup-All Q v d [] all found = cc
lookup-All Q v d ((w, u) ∷ env) (here_, all) found = elim (Bool-cases (v == w)) [
  | inl same ↦
      let e : ◌≡◌ {A = Option Ty} (some u) (some d) = rw same at found in
      let names : w ≡ v = ground (arith, same) in
      subst (λ (p : String × Ty). Q p.0 p.1) (let p : (w, u) ≡ (v, d) = cc in p) here_
  | inr other ↦ lookup-All Q v d env all (rw other at found)
]

module _ (candid : Candid) where
  module _ (types res : TypeEnv)
      (kept : (v : String) (d : Ty)
        → lookup v types ≡ some d
        → lookup v res ≡ some (nominal candid (TypePath.id v ∷ []) d)) where
    nominal-IsFunction :
        (path : Nodes) {t : Ty} → IsFunction types t → IsFunction res (nominal candid path t)
    unfolding nominal
    nominal-IsFunction path (a_func query args rets) = a_func query _ _
    nominal-IsFunction path (named {v} {d} found rest) =
        named (kept v d found) (nominal-IsFunction (TypePath.id v ∷ []) rest)

    nominal-AreFunctions :
        (path : Nodes) (ms : Methods)
        → AreFunctions types ms
        → AreFunctions res (nominal_methods candid path ms)
    unfolding nominal
    nominal-AreFunctions path no_methods h = tt
    nominal-AreFunctions path (method m t ms) (h, hs) =
        (nominal-IsFunction (TypePath.id m ∷ path) h, nominal-AreFunctions path ms hs)

    nominal-IsServed :
        (path : Nodes) {t : Ty} → IsServed types t → IsServed res (nominal candid path t)
    unfolding nominal
    nominal-IsServed path (a_service ms h) = a_service _ (nominal-AreFunctions path ms h)
    nominal-IsServed path (aliased {v} {d} found rest) =
        aliased (kept v d found) (nominal-IsServed (TypePath.id v ∷ []) rest)
    nominal-IsServed path (a_class args rest) = a_class _ (nominal-IsServed path rest)

  own-defs :
      (P : String → Ty → Type 0) (types : TypeEnv)
      → All (λ d. P d.0 d.1) (all_defs candid types)
      → All (λ d. P d.0 (nominal candid (TypePath.id d.0 ∷ []) d.1)) types
  own-defs P [] all = tt
  own-defs P ((id, t) ∷ types) all =
      let path = TypePath.id id ∷ [] in
      let (here_, rest) =
        All-append_right _ (new_defs candid path t)
          ((id, nominal candid path t) ∷ all_defs candid types) all in
      (here_, own-defs P types rest)

  IsServed-actor :
      (types : TypeEnv) (actor : Option Ty) (res : TypeEnv)
      → ((v : String) (d : Ty)
          → lookup v types ≡ some d
          → lookup v res ≡ some (nominal candid (TypePath.id v ∷ []) d))
      → IsServedActor types actor
      → IsServedActor res (nominal_actor candid actor)
  IsServed-actor types none res kept h = tt
  IsServed-actor types (some t) res kept h = nominal-IsServed types res kept [] h

  -- A program whose actor is a service with functions for methods has such an actor after
  -- nominalization, if the names that are made differ from each other and from the program's.
  pub nominalize_all-IsServedActor :
      (types : TypeEnv) (actor : Option Ty)
      → NodupKeys (all_defs candid types ++ actor_defs candid actor)
      → IsServedActor types actor
      → IsServedActor (nominalize_all candid types actor).0 (nominalize_all candid types actor).1
  nominalize_all-IsServedActor types actor distinct h =
      let defs = all_defs candid types ++ actor_defs candid actor in
      let res = extend defs [] in
      let all =
        own-defs (λ v t. lookup v res ≡ some t) types
          (All-append_left _ (all_defs candid types) (actor_defs candid actor)
            (extend-All defs [] distinct)) in
      subst (λ (r : TypeEnv × Option Ty). IsServedActor r.0 r.1)
        (sym (nominalize_all-extend candid types actor))
        (IsServed-actor types actor res
          (λ v d found.
            lookup-All (λ v t. lookup v res ≡ some (nominal candid (TypePath.id v ∷ []) t)) v d
              types all found)
          h)

-- ===== src/CandidGenerator/Generate/Total.antt =====
-- The generator reaches none of its unreachable branches.
use metamagic.Prelude.{
  String, ◌≡◌, ◌≢◌, subst, sym, Bool, true, false, Option, none, some, List, [], ◌∷◌, ◌++◌, All,
  All-append, Outcome, if◌then◌else◌, string_eq, ◌==◌, Bool-cases, inl, inr, Option-cases,
}
use metamagic.Prelude.HashMap.{lookup, insert}
use metamagic.CandidGenerator.{
  Ty, Fields, prim, var, opt, vec, record_, variant, func, service, class, knot, unknown, future,
  no_fields, field, TypePath, Candid,
}
use metamagic.CandidGenerator.Nominalize.{TypeEnv, nominalize_all}
use metamagic.CandidGenerator.Nominalize.Writer.{extend, init_node, nominal, new_defs}
use metamagic.CandidGenerator.Nominalize.Program.{all_defs, actor_defs, nominalize_all-extend}
use metamagic.CandidGenerator.Printer.Total.{
  IsPrintable, ArePrintable, IsDefinition, Succeeds, Succeeds->>=, Succeeds-ok, q_ty-Succeeds,
  q_record_fields-Succeeds, q_variant_field-Succeeds,
}
use metamagic.CandidGenerator.Generate.{
  is_result, q_field_types, q_variant_fields, q_alias, q_definition, generate_types,
}
use metamagic.CandidGenerator.Generate.Printable.{
  IsPlain, ArePlainTypes, Definitions, nominal-IsDefinition, new_defs-Definitions,
  new_defs_types-Definitions,
}

module _ (candid : Candid) where
  pub q_field_types-Succeeds : (fs : Fields) → ArePrintable fs → Succeeds (q_field_types candid fs)
  unfolding q_field_types IsPrintable
  q_field_types-Succeeds no_fields h = Succeeds-ok _
  q_field_types-Succeeds (field l t fs) (h, hs) =
      Succeeds->>= _ _ (q_ty-Succeeds candid [] t h)
        (λ a. Succeeds->>= _ _ (q_field_types-Succeeds fs hs) (λ b. Succeeds-ok _))

  q_variant_fields-Succeeds :
      (recs : List String) (fs : Fields)
      → ArePrintable fs
      → Succeeds (q_variant_fields candid recs fs)
  unfolding q_variant_fields IsPrintable
  q_variant_fields-Succeeds recs no_fields h = Succeeds-ok _
  q_variant_fields-Succeeds recs (field l t fs) (h, hs) =
      Succeeds->>= _ _ (q_variant_field-Succeeds candid recs l t h)
        (λ a. Succeeds->>= _ _ (q_variant_fields-Succeeds recs fs hs) (λ b. Succeeds-ok _))

  q_alias-Succeeds :
      (recs : List String) (id : String) (t : Ty)
      → IsPrintable t
      → Succeeds (q_alias candid recs id t)
  unfolding q_alias
  q_alias-Succeeds recs id t h =
      Succeeds->>= _ _ (q_ty-Succeeds candid recs t h) (λ a. Succeeds-ok _)

  Succeeds-if :
      {A : Type 0} (b : Bool) (x y : Outcome String A)
      → Succeeds x
      → Succeeds y
      → Succeeds (if b then x else y)
  Succeeds-if true x y hx hy = hx
  Succeeds-if false x y hx hy = hy

  q_definition-Succeeds :
      (recs : List String) (id : String) (t : Ty)
      → IsDefinition t
      → Succeeds (q_definition candid recs id t)
  unfolding q_definition IsPrintable
  q_definition-Succeeds recs id (record_ fs) h =
      Succeeds->>= _ _ (q_record_fields-Succeeds candid recs fs true h) (λ a. Succeeds-ok _)
  q_definition-Succeeds recs id (variant fs) h =
      Succeeds-if (is_result candid fs) _ _
        (Succeeds->>= _ _ (q_field_types-Succeeds fs h) (λ a. Succeeds-ok _))
        (Succeeds->>= _ _ (q_variant_fields-Succeeds recs fs h) (λ a. Succeeds-ok _))
  q_definition-Succeeds recs id (prim p) h = q_alias-Succeeds recs id (prim p) h
  q_definition-Succeeds recs id (var v) h = q_alias-Succeeds recs id (var v) h
  q_definition-Succeeds recs id (opt t) h = q_alias-Succeeds recs id (opt t) h
  q_definition-Succeeds recs id (vec t) h = q_alias-Succeeds recs id (vec t) h
  q_definition-Succeeds recs id (func query args rets) h =
      q_alias-Succeeds recs id (func query args rets) h
  q_definition-Succeeds recs id (service ms) h = q_alias-Succeeds recs id (service ms) h
  q_definition-Succeeds recs id (class args t) h = absurd h
  q_definition-Succeeds recs id knot h = absurd h
  q_definition-Succeeds recs id unknown h = absurd h
  q_definition-Succeeds recs id future h = absurd h

  insert-Definitions :
      (v : String) (t : Ty) (env : TypeEnv)
      → IsDefinition t
      → Definitions candid env
      → Definitions candid (insert v t env)
  unfolding insert
  insert-Definitions v t [] h hs = (h, tt)
  insert-Definitions v t ((w, u) ∷ env) h (hu, hs) = elim (Bool-cases (v == w)) [
    | inl same ↦ rw same (h, hs)
    | inr other ↦ rw other (hu, insert-Definitions v t env h hs)
  ]

  extend-Definitions :
      (defs env : TypeEnv)
      → Definitions candid defs
      → Definitions candid env
      → Definitions candid (extend defs env)
  unfolding extend
  extend-Definitions [] env h he = he
  extend-Definitions ((v, t) ∷ defs) env (h, hs) he =
      extend-Definitions defs (insert v t env) hs (insert-Definitions v t env h he)

  pub lookup-IsDefinition :
      (v : String) (t : Ty) (env : TypeEnv)
      → Definitions candid env
      → lookup v env ≡ some t
      → IsDefinition t
  unfolding lookup
  lookup-IsDefinition v t [] hs found = cc
  lookup-IsDefinition v t ((w, u) ∷ env) (hu, hs) found = elim (Bool-cases (v == w)) [
    | inl same ↦
        let e : ◌≡◌ {A = Option Ty} (some u) (some t) = rw same at found in
        subst IsDefinition (cc) hu
    | inr other ↦ lookup-IsDefinition v t env hs (rw other at found)
  ]

  pub generate_types-Succeeds :
      (env : TypeEnv) (def_list recs : List String)
      → Definitions candid env
      → All (λ id. lookup id env ≢ none) def_list
      → Succeeds (generate_types candid env def_list recs)
  unfolding generate_types
  generate_types-Succeeds env [] recs hs known = Succeeds-ok _
  generate_types-Succeeds env (id ∷ def_list) recs hs (here, known) =
      elim (Option-cases (lookup id env)) [
        | inl missing ↦ absurd (here missing)
        | inr (t, found) ↦ rw found (
            Succeeds->>= _ _
              (q_definition-Succeeds recs id t (lookup-IsDefinition id t env hs found))
              (λ a.
                Succeeds->>= _ _ (generate_types-Succeeds env def_list recs hs known)
                  (λ b. Succeeds-ok _)))
      ]

  -- The actor of a checked file: a service, or a class that makes one.
  abbrev pub IsPlainActor : Option Ty → Type 0
  IsPlainActor none = Unit
  IsPlainActor (some (class args t)) = ArePlainTypes args × IsPlain t
  IsPlainActor (some t) = IsPlain t

  all_defs-Definitions :
      (env : TypeEnv) → All (λ d. IsPlain d.1) env → Definitions candid (all_defs candid env)
  all_defs-Definitions [] h = tt
  all_defs-Definitions ((id, t) ∷ env) (h, hs) =
      let path = TypePath.id id ∷ [] in
      All-append _ (new_defs candid path t) ((id, nominal candid path t) ∷ all_defs candid env)
        (new_defs-Definitions candid path t h)
        (nominal-IsDefinition candid path t tt h, all_defs-Definitions env hs)

  actor_defs-Definitions :
      (actor : Option Ty) → IsPlainActor actor → Definitions candid (actor_defs candid actor)
  unfolding new_defs
  actor_defs-Definitions none h = tt
  actor_defs-Definitions (some (class args t)) h =
      All-append _ _ (new_defs candid [] t)
        (new_defs_types-Definitions candid init_node 0 [] args h.0)
        (new_defs-Definitions candid [] t h.1)
  actor_defs-Definitions (some t) h = new_defs-Definitions candid [] t h

  -- Where the definitions and the actor of a program have only types that a file can have, every
  -- definition of the nominalized program is one that can be written: a record or a variant with no
  -- variant inside, or another type with none. The actor may be a class that makes a service.
  pub nominalize_all-Definitions :
      (types : TypeEnv) (actor : Option Ty)
      → All (λ d. IsPlain d.1) types
      → IsPlainActor actor
      → Definitions candid (nominalize_all candid types actor).0
  nominalize_all-Definitions types actor plain plain_actor =
      let defs = all_defs candid types ++ actor_defs candid actor in
      let all =
        All-append _ (all_defs candid types) (actor_defs candid actor)
          (all_defs-Definitions types plain) (actor_defs-Definitions actor plain_actor) in
      subst (λ (r : TypeEnv × Option Ty). Definitions candid r.0)
        (sym (nominalize_all-extend candid types actor)) (extend-Definitions defs [] all tt)

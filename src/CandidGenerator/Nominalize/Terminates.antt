-- ===== src/CandidGenerator/Nominalize/Terminates.antt =====
-- The recursion of the source ends, with what the structural recursion gives.
use metamagic.Prelude.{
  ℕ, zero, suc, ◌≤◌, String, ◌<>◌, ◌≡◌, refl, ap, ◌∙◌, arith, Bool, true, false, ◌||◌, Option, some,
  [], ◌∷◌, if◌then◌else◌, string_eq, nat_eq,
}
use mathlib.Core.Option
use metamagic.Prelude.Decimal.{decimal}
use metamagic.CandidGenerator.{
  Ty, Fields, Types, Methods, prim, var, opt, vec, record_, variant, func, service, class, knot,
  unknown, future, no_fields, field, no_types, a_type, no_methods, method, TypePath, Candid,
}
use metamagic.CandidGenerator.Nominalize.{
  TypeEnv, Nodes, is_tuple, path_to_var, stays_record, stays_variant, base, settle, nominalize,
  nominalize_fields, nominalize_types, nominalize_methods,
}
use metamagic.CandidGenerator.Nominalize.Recursion.{
  is_record_place, is_variant_place, each_field, each_type, each_method, in_place, defined, once,
  with_fuel, depth, depth_fields, depth_types, depth_methods,
}

module _ (candid : Candid) where
  is_record_place-stays :
      (path : Nodes) (fs : Fields)
      → (is_record_place path || is_tuple candid.get_id fs) ≡ stays_record candid path fs
  unfolding stays_record
  is_record_place-stays [] fs = refl
  is_record_place-stays (TypePath.id v ∷ path) fs = refl
  is_record_place-stays (TypePath.variant_field f ∷ path) fs = refl
  is_record_place-stays (TypePath.record_field f ∷ path) fs = refl
  is_record_place-stays (TypePath.opt ∷ path) fs = refl
  is_record_place-stays (TypePath.vec ∷ path) fs = refl
  is_record_place-stays (TypePath.func f ∷ path) fs = refl
  is_record_place-stays (TypePath.init ∷ path) fs = refl

  is_variant_place-stays : (path : Nodes) → is_variant_place path ≡ stays_variant candid path
  unfolding stays_variant
  is_variant_place-stays [] = refl
  is_variant_place-stays (TypePath.id v ∷ path) = refl
  is_variant_place-stays (TypePath.variant_field f ∷ path) = refl
  is_variant_place-stays (TypePath.record_field f ∷ path) = refl
  is_variant_place-stays (TypePath.opt ∷ path) = refl
  is_variant_place-stays (TypePath.vec ∷ path) = refl
  is_variant_place-stays (TypePath.func f ∷ path) = refl
  is_variant_place-stays (TypePath.init ∷ path) = refl

  -- Two steps that both succeed.
  bind-bind :
      {A B C : Type 0} (x : Option (A × TypeEnv)) (a : A) (env : TypeEnv)
      (next : TypeEnv → Option (B × TypeEnv)) (b : B × TypeEnv) (make : A → B → C)
      → x ≡ some (a, env)
      → next env ≡ some b
      → Option.bind {B = C × TypeEnv} x
          (λ r. Option.bind {B = C × TypeEnv} (next r.1) (λ rs. some (make r.0 rs.0, rs.1)))
        ≡ some (make a b.0, b.1)
  unfolding Option.bind
  bind-bind x a env next b make first second = rw (first, second) refl

  bind-some :
      {A C : Type 0} (x : Option (A × TypeEnv)) (a : A × TypeEnv) (make : A → C)
      → x ≡ some a
      → Option.bind {B = C × TypeEnv} x (λ r. some (make r.0, r.1)) ≡ some (make a.0, a.1)
  unfolding Option.bind
  bind-some x a make e = rw e refl

  -- A type that is read in place, or nominalized under its new name, is settled.
  settle-defined :
      (node : String → TypePath) (make : Fields → Ty) (stays : Bool) (fuel : ℕ) (env : TypeEnv)
      (path : Nodes) (fs : Fields)
      → each_field candid (with_fuel candid (suc fuel)) node env path fs
        ≡ some (nominalize_fields candid node env path fs)
      → (let here = TypePath.id (path_to_var candid path) ∷ [] in
          with_fuel candid (suc fuel) env here (make fs)
          ≡ some (
            make (nominalize_fields candid node env here fs).0,
            (nominalize_fields candid node env here fs).1,
          ))
      → (if stays
          then in_place candid (with_fuel candid (suc fuel)) node make env path fs
          else defined candid (with_fuel candid (suc fuel)) env path (make fs))
        ≡ (let r = nominalize_fields candid node env (base candid stays path) fs in
            some (settle candid stays path (make r.0, r.1)))
  unfolding in_place defined Option.bind
  settle-defined node make true fuel env path fs inside again =
      bind-some _ (nominalize_fields candid node env path fs) make inside
  settle-defined node make false fuel env path fs inside again = rw again refl

  mutual
    unfolding nominalize once with_fuel each_field each_type each_method in_place depth Option.bind

    with_fuel-enough :
        (t : Ty) (fuel : ℕ) (env : TypeEnv) (path : Nodes)
        → depth t ≤ fuel
        → with_fuel candid fuel env path t ≡ some (nominalize candid env path t)
    with_fuel-enough (opt t) zero env path enough = absurd (omega (arith, enough))
    with_fuel-enough (opt t) (suc fuel) env path enough =
        bind-some _ _ opt
          (with_fuel-enough t fuel env (TypePath.opt ∷ path) (omega (arith, enough)))
    with_fuel-enough (vec t) zero env path enough = absurd (omega (arith, enough))
    with_fuel-enough (vec t) (suc fuel) env path enough =
        bind-some _ _ vec
          (with_fuel-enough t fuel env (TypePath.opt ∷ path) (omega (arith, enough)))
    with_fuel-enough (record_ fs) zero env path enough = absurd (omega (arith, enough))
    with_fuel-enough (record_ fs) (suc zero) env path enough = absurd (omega (arith, enough))
    with_fuel-enough (record_ fs) (suc (suc fuel)) env path enough =
        let here = TypePath.id (path_to_var candid path) ∷ [] in
        ap
          (λ b.
            if b
            then in_place candid (with_fuel candid (suc fuel)) TypePath.record_field record_ env
                path fs
            else defined candid (with_fuel candid (suc fuel)) env path (record_ fs))
          (is_record_place-stays path fs)
        ∙ settle-defined TypePath.record_field record_ (stays_record candid path fs) fuel env path
            fs (fields-enough fs TypePath.record_field (suc fuel) env path (omega (arith, enough)))
            (bind-some _ _ record_
              (fields-enough fs TypePath.record_field fuel env here (omega (arith, enough))))
    with_fuel-enough (variant fs) zero env path enough = absurd (omega (arith, enough))
    with_fuel-enough (variant fs) (suc zero) env path enough = absurd (omega (arith, enough))
    with_fuel-enough (variant fs) (suc (suc fuel)) env path enough =
        let here = TypePath.id (path_to_var candid path) ∷ [] in
        ap
          (λ b.
            if b
            then in_place candid (with_fuel candid (suc fuel)) TypePath.variant_field variant env
                path fs
            else defined candid (with_fuel candid (suc fuel)) env path (variant fs))
          (is_variant_place-stays path)
        ∙ settle-defined TypePath.variant_field variant (stays_variant candid path) fuel env path fs
            (fields-enough fs TypePath.variant_field (suc fuel) env path (omega (arith, enough)))
            (bind-some _ _ variant
              (fields-enough fs TypePath.variant_field fuel env here (omega (arith, enough))))
    with_fuel-enough (func query args rets) zero env path enough = absurd (omega (arith, enough))
    with_fuel-enough (func query args rets) (suc fuel) env path enough =
        let arg : ℕ → TypePath = λ i. TypePath.func ("arg" <> decimal i) in
        let ret : ℕ → TypePath = λ i. TypePath.func ("ret" <> decimal i) in
        let r = nominalize_types candid arg 0 env path args in
        bind-bind _ r.0 r.1 _ (nominalize_types candid ret 0 r.1 path rets) (func query)
          (types-enough args arg 0 fuel env path (omega (arith, enough)))
          (types-enough rets ret 0 fuel r.1 path (omega (arith, enough)))
    with_fuel-enough (service ms) zero env path enough = absurd (omega (arith, enough))
    with_fuel-enough (service ms) (suc fuel) env path enough =
        bind-some _ _ service (methods-enough ms fuel env path (omega (arith, enough)))
    with_fuel-enough (class args t) zero env path enough = absurd (omega (arith, enough))
    with_fuel-enough (class args t) (suc fuel) env path enough =
        let r = nominalize_types candid (λ _. TypePath.init) 0 env path args in
        bind-bind _ r.0 r.1 _ (nominalize candid r.1 path t) class
          (types-enough args (λ _. TypePath.init) 0 fuel env path (omega (arith, enough)))
          (with_fuel-enough t fuel r.1 path (omega (arith, enough)))
    with_fuel-enough (prim p) zero env path enough = absurd (omega (arith, enough))
    with_fuel-enough (prim p) (suc fuel) env path enough = refl
    with_fuel-enough (var v) zero env path enough = absurd (omega (arith, enough))
    with_fuel-enough (var v) (suc fuel) env path enough = refl
    with_fuel-enough knot zero env path enough = absurd (omega (arith, enough))
    with_fuel-enough knot (suc fuel) env path enough = refl
    with_fuel-enough unknown zero env path enough = absurd (omega (arith, enough))
    with_fuel-enough unknown (suc fuel) env path enough = refl
    with_fuel-enough future zero env path enough = absurd (omega (arith, enough))
    with_fuel-enough future (suc fuel) env path enough = refl

    fields-enough :
        (fs : Fields) (node : String → TypePath) (fuel : ℕ) (env : TypeEnv) (path : Nodes)
        → depth_fields fs ≤ fuel
        → each_field candid (with_fuel candid fuel) node env path fs
          ≡ some (nominalize_fields candid node env path fs)
    fields-enough no_fields node fuel env path enough = refl
    fields-enough (field l t fs) node fuel env path enough =
        let r = nominalize candid env (node (candid.label_to_string l) ∷ path) t in
        bind-bind _ r.0 r.1 _ (nominalize_fields candid node r.1 path fs) (field l)
          (with_fuel-enough t fuel env (node (candid.label_to_string l) ∷ path)
            (omega (arith, enough)))
          (fields-enough fs node fuel r.1 path (omega (arith, enough)))

    types-enough :
        (ts : Types) (node : ℕ → TypePath) (i : ℕ) (fuel : ℕ) (env : TypeEnv) (path : Nodes)
        → depth_types ts ≤ fuel
        → each_type candid (with_fuel candid fuel) node i env path ts
          ≡ some (nominalize_types candid node i env path ts)
    types-enough no_types node i fuel env path enough = refl
    types-enough (a_type t ts) node i fuel env path enough =
        let r = nominalize candid env (node i ∷ path) t in
        bind-bind _ r.0 r.1 _ (nominalize_types candid node (suc i) r.1 path ts) a_type
          (with_fuel-enough t fuel env (node i ∷ path) (omega (arith, enough)))
          (types-enough ts node (suc i) fuel r.1 path (omega (arith, enough)))

    methods-enough :
        (ms : Methods) (fuel : ℕ) (env : TypeEnv) (path : Nodes)
        → depth_methods ms ≤ fuel
        → each_method candid (with_fuel candid fuel) env path ms
          ≡ some (nominalize_methods candid env path ms)
    methods-enough no_methods fuel env path enough = refl
    methods-enough (method m t ms) fuel env path enough =
        let r = nominalize candid env (TypePath.id m ∷ path) t in
        bind-bind _ r.0 r.1 _ (nominalize_methods candid r.1 path ms) (method m)
          (with_fuel-enough t fuel env (TypePath.id m ∷ path) (omega (arith, enough)))
          (methods-enough ms fuel r.1 path (omega (arith, enough)))

  -- The recursion of the source ends, although it calls itself with the record or variant that it
  -- was given: with as many calls inside each other as `depth` counts in the type, or more, it
  -- gives what the structural recursion gives, at every path and in every environment.
  pub with_fuel-nominalize :
      (env : TypeEnv) (path : Nodes) (t : Ty) (fuel : ℕ)
      → depth t ≤ fuel
      → with_fuel candid fuel env path t ≡ some (nominalize candid env path t)
  with_fuel-nominalize env path t fuel enough = with_fuel-enough t fuel env path enough

-- ===== src/CandidGenerator/Nominalize/Recursion.antt =====
-- The recursion of `nominalize` as the source has it, which calls itself with the record or variant
-- that it was given, under the path of its new definition.
use metamagic.Prelude.{
  ℕ, zero, suc, ◌+◌, String, ◌<>◌, Bool, true, false, ◌||◌, Option, none, some, [], ◌∷◌,
  if◌then◌else◌, string_eq, nat_eq,
}
use mathlib.Core.Option
use metamagic.Prelude.Decimal.{decimal}
use metamagic.Prelude.HashMap.{insert}
use metamagic.CandidGenerator.{
  Ty, Fields, Types, Methods, prim, var, opt, vec, record_, variant, func, service, class, knot,
  unknown, future, no_fields, field, no_types, a_type, no_methods, method, TypePath, Candid,
}
use metamagic.CandidGenerator.Nominalize.{TypeEnv, Nodes, is_tuple, path_to_var}

-- A call of `nominalize`; nothing if the fuel ran out.
abbrev pub Call : Type 0
Call = TypeEnv → Nodes → Ty → Option (Ty × TypeEnv)

-- `None | Some(TypePath::VariantField(_)) | Some(TypePath::Id(_))`
abbrev pub is_record_place : Nodes → Bool
is_record_place [] = true
is_record_place (TypePath.variant_field _ ∷ _) = true
is_record_place (TypePath.id _ ∷ _) = true
is_record_place _ = false

-- `None | Some(TypePath::Id(_))`
abbrev pub is_variant_place : Nodes → Bool
is_variant_place [] = true
is_variant_place (TypePath.id _ ∷ _) = true
is_variant_place _ = false

module _ (candid : Candid) where
  -- One call of `nominalize`, whose own calls are `again`.
  module _ (again : Call) where
    unfoldable pub each_field :
        (String → TypePath) → TypeEnv → Nodes → Fields → Option (Fields × TypeEnv)
    each_field node env path no_fields = some (no_fields, env)
    each_field node env path (field l t fs) =
        Option.bind (again env (node (candid.label_to_string l) ∷ path) t)
          (λ r. Option.bind (each_field node r.1 path fs) (λ rs. some (field l r.0 rs.0, rs.1)))

    unfoldable pub each_type :
        (ℕ → TypePath) → ℕ → TypeEnv → Nodes → Types → Option (Types × TypeEnv)
    each_type node i env path no_types = some (no_types, env)
    each_type node i env path (a_type t ts) =
        Option.bind (again env (node i ∷ path) t) (λ r.
          Option.bind (each_type node (suc i) r.1 path ts) (λ rs. some (a_type r.0 rs.0, rs.1)))

    unfoldable pub each_method : TypeEnv → Nodes → Methods → Option (Methods × TypeEnv)
    each_method env path no_methods = some (no_methods, env)
    each_method env path (method m t ms) =
        Option.bind (again env (TypePath.id m ∷ path) t)
          (λ r. Option.bind (each_method r.1 path ms) (λ rs. some (method m r.0 rs.0, rs.1)))

    unfoldable pub in_place :
        (String → TypePath) → (Fields → Ty) → TypeEnv → Nodes → Fields → Option (Ty × TypeEnv)
    in_place node make env path fs =
        Option.bind (each_field node env path fs) (λ r. some (make r.0, r.1))

    -- The type itself is nominalized under its new name, inserted, and its name left in its place.
    unfoldable pub defined : TypeEnv → Nodes → Ty → Option (Ty × TypeEnv)
    defined env path t =
        let new_var = path_to_var candid path in
        Option.bind (again env (TypePath.id new_var ∷ []) t)
          (λ r. some (var new_var, insert new_var r.0 r.1))

    unfoldable pub once : Call
    once env path (opt t) =
        Option.bind (again env (TypePath.opt ∷ path) t) (λ r. some (opt r.0, r.1))
    once env path (vec t) =
        Option.bind (again env (TypePath.opt ∷ path) t) (λ r. some (vec r.0, r.1))
    once env path (record_ fs) =
        if is_record_place path || is_tuple candid.get_id fs
        then in_place TypePath.record_field record_ env path fs
        else defined env path (record_ fs)
    once env path (variant fs) =
        if is_variant_place path
        then in_place TypePath.variant_field variant env path fs
        else defined env path (variant fs)
    once env path (func query args rets) =
        Option.bind (each_type (λ i. TypePath.func ("arg" <> decimal i)) 0 env path args) (λ r.
          Option.bind (each_type (λ i. TypePath.func ("ret" <> decimal i)) 0 r.1 path rets)
            (λ rs. some (func query r.0 rs.0, rs.1)))
    once env path (service ms) =
        Option.bind (each_method env path ms) (λ r. some (service r.0, r.1))
    once env path (class args t) =
        Option.bind (each_type (λ _. TypePath.init) 0 env path args)
          (λ r. Option.bind (again r.1 path t) (λ rs. some (class r.0 rs.0, rs.1)))
    once env path t = some (t, env)

  -- `nominalize` with as many calls inside each other as the fuel has.
  unfoldable pub with_fuel : ℕ → Call
  with_fuel zero env path t = none
  with_fuel (suc fuel) env path t = once (with_fuel fuel) env path t

-- The calls inside each other that a type needs at most: two for a record and for a variant.
unfoldable mutual
  pub depth : Ty → ℕ
  depth (opt t) = suc (depth t)
  depth (vec t) = suc (depth t)
  depth (record_ fs) = suc (suc (depth_fields fs))
  depth (variant fs) = suc (suc (depth_fields fs))
  depth (func query args rets) = suc (depth_types args + depth_types rets)
  depth (service ms) = suc (depth_methods ms)
  depth (class args t) = suc (depth_types args + depth t)
  depth (prim p) = 1
  depth (var v) = 1
  depth knot = 1
  depth unknown = 1
  depth future = 1

  pub depth_fields : Fields → ℕ
  depth_fields no_fields = 0
  depth_fields (field l t fs) = depth t + depth_fields fs

  pub depth_types : Types → ℕ
  depth_types no_types = 0
  depth_types (a_type t ts) = depth t + depth_types ts

  pub depth_methods : Methods → ℕ
  depth_methods no_methods = 0
  depth_methods (method m t ms) = depth t + depth_methods ms

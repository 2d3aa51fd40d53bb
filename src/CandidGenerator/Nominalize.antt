-- ===== src/CandidGenerator/Nominalize.antt =====
-- nominalize and nominalize_all: every record and variant inside a type becomes a definition of its
-- own, since Rust has no anonymous ones.
pub mod Writer
pub mod Tuples
pub mod Meaning
pub mod Program
pub mod Recursion
pub mod Terminates
use metamagic.Prelude.{
  ℕ, suc, ◌+◌, String, ◌<>◌, Bool, true, false, ◌&&◌, ◌||◌, not, Option, none, some, List, [], ◌∷◌,
  ◌==◌, nat_eq, string_eq, if◌then◌else◌,
}
use mathlib.Core.Option
use metamagic.Prelude.Decimal.{decimal}
use metamagic.Prelude.HashMap.{HashMap, insert}
use metamagic.CandidGenerator.{
  Label, Ty, Fields, Types, Methods, prim, var, opt, vec, record_, variant, func, service, class,
  knot, unknown, future, no_fields, field, no_types, a_type, no_methods, method, TypePath, Candid,
}

-- `TypeEnv`; the order of its entries, by key in the source, is left open.
abbrev pub TypeEnv : Type 0
TypeEnv = HashMap String Ty

-- A path, its last node first.
abbrev pub Nodes : Type 0
Nodes = List TypePath

-- Whether the fields from the `i`-th on are numbered by their positions.
unfoldable pub numbered : (Label → ℕ) → ℕ → Fields → Bool
numbered get_id i no_fields = true
numbered get_id i (field l t fs) = (get_id l == i) && numbered get_id (suc i) fs

unfoldable pub is_tuple : (Label → ℕ) → Fields → Bool
unfolding numbered
is_tuple get_id no_fields = false
is_tuple get_id (field l t fs) = numbered get_id 0 (field l t fs)

module _ (candid : Candid) where
  unfoldable pub node_name : TypePath → String
  node_name (TypePath.id id) = id
  node_name (TypePath.record_field f) = candid.to_title_case f
  node_name (TypePath.variant_field f) = candid.to_title_case f
  node_name TypePath.opt = "Inner"
  node_name TypePath.vec = "Item"
  node_name (TypePath.func id) = id
  node_name TypePath.init = "Init"

  unfoldable pub path_to_var : Nodes → String
  unfolding node_name
  path_to_var [] = ""
  path_to_var (node ∷ path) = path_to_var path <> node_name node

  -- A record stays where it is at the top, in a field of a variant, and as a tuple.
  unfoldable pub stays_record : Nodes → Fields → Bool
  unfolding is_tuple
  stays_record [] fs = true
  stays_record (TypePath.id _ ∷ _) fs = true
  stays_record (TypePath.variant_field _ ∷ _) fs = true
  stays_record (_ ∷ _) fs = is_tuple candid.get_id fs

  -- A variant stays where it is at the top.
  unfoldable pub stays_variant : Nodes → Bool
  stays_variant [] = true
  stays_variant (TypePath.id _ ∷ _) = true
  stays_variant (_ ∷ _) = false

  -- The path under which the fields are read: that of the type, or of its new definition.
  abbrev pub base : Bool → Nodes → Nodes
  base stays path = if stays then path else TypePath.id (path_to_var path) ∷ []

  -- The type itself, or the name of its new definition.
  abbrev pub settle : Bool → Nodes → Ty × TypeEnv → Ty × TypeEnv
  settle stays path (t, env) =
      if stays then (t, env) else (var (path_to_var path), insert (path_to_var path) t env)

  -- A vector's part is entered as that of an option. `nominalize` calls itself for a new definition
  -- with the same fields and the definition's path: here the fields are read once, under that path.
  unfoldable mutual
    pub nominalize : TypeEnv → Nodes → Ty → Ty × TypeEnv
    nominalize env path (prim p) = (prim p, env)
    nominalize env path (var v) = (var v, env)
    nominalize env path (opt t) =
        let (t', env') = nominalize env (TypePath.opt ∷ path) t in (opt t', env')
    nominalize env path (vec t) =
        let (t', env') = nominalize env (TypePath.opt ∷ path) t in (vec t', env')
    nominalize env path (record_ fs) =
        let stays = stays_record path fs in
        let (fs', env') = nominalize_fields TypePath.record_field env (base stays path) fs in
        settle stays path (record_ fs', env')
    nominalize env path (variant fs) =
        let stays = stays_variant path in
        let (fs', env') = nominalize_fields TypePath.variant_field env (base stays path) fs in
        settle stays path (variant fs', env')
    nominalize env path (func query args rets) =
        let (args', env') =
          nominalize_types (λ i. TypePath.func ("arg" <> decimal i)) 0 env path args in
        let (rets', env'') =
          nominalize_types (λ i. TypePath.func ("ret" <> decimal i)) 0 env' path rets in
        (func query args' rets', env'')
    nominalize env path (service ms) =
        let (ms', env') = nominalize_methods env path ms in (service ms', env')
    nominalize env path (class args t) =
        let (args', env') = nominalize_types (λ _. TypePath.init) 0 env path args in
        let (t', env'') = nominalize env' path t in (class args' t', env'')
    nominalize env path knot = (knot, env)
    nominalize env path unknown = (unknown, env)
    nominalize env path future = (future, env)

    pub nominalize_fields : (String → TypePath) → TypeEnv → Nodes → Fields → Fields × TypeEnv
    nominalize_fields node env path no_fields = (no_fields, env)
    nominalize_fields node env path (field l t fs) =
        let (t', env') = nominalize env (node (candid.label_to_string l) ∷ path) t in
        let (fs', env'') = nominalize_fields node env' path fs in (field l t' fs', env'')

    pub nominalize_types : (ℕ → TypePath) → ℕ → TypeEnv → Nodes → Types → Types × TypeEnv
    nominalize_types node i env path no_types = (no_types, env)
    nominalize_types node i env path (a_type t ts) =
        let (t', env') = nominalize env (node i ∷ path) t in
        let (ts', env'') = nominalize_types node (suc i) env' path ts in (a_type t' ts', env'')

    pub nominalize_methods : TypeEnv → Nodes → Methods → Methods × TypeEnv
    nominalize_methods env path no_methods = (no_methods, env)
    nominalize_methods env path (method m t ms) =
        let (t', env') = nominalize env (TypePath.id m ∷ path) t in
        let (ms', env'') = nominalize_methods env' path ms in (method m t' ms', env'')

  -- The loop over the definitions.
  unfoldable pub nominalize_defs : TypeEnv → TypeEnv → TypeEnv
  unfolding nominalize
  nominalize_defs [] res = res
  nominalize_defs ((id, ty) ∷ env) res =
      let (ty', res') = nominalize res (TypePath.id id ∷ []) ty in
      nominalize_defs env (insert id ty' res')

  unfoldable pub nominalize_all : TypeEnv → Option Ty → TypeEnv × Option Ty
  unfolding nominalize nominalize_defs
  nominalize_all env none = (nominalize_defs env [], none)
  nominalize_all env (some ty) =
      let (ty', res) = nominalize (nominalize_defs env []) [] ty in (res, some ty')

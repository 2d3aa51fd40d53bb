-- ===== src/CandidGenerator/Nominalize/Writer.antt =====
-- What nominalize gives, apart from how it is computed: it never reads the environment, so it gives
-- a type, and definitions that are added to the environment.
use metamagic.Prelude.{
  ℕ, suc, String, ◌<>◌, ◌≡◌, refl, ap, sym, ◌∙◌, Bool, true, false, [], ◌∷◌, ◌++◌, if◌then◌else◌,
  string_eq, append-nil,
}
use metamagic.Prelude.Decimal.{decimal}
use metamagic.Prelude.HashMap.{insert}
use metamagic.CandidGenerator.{
  Ty, Fields, Types, Methods, prim, var, opt, vec, record_, variant, func, service, class, knot,
  unknown, future, no_fields, field, no_types, a_type, no_methods, method, TypePath, Candid,
}
use metamagic.CandidGenerator.Nominalize.{
  TypeEnv, Nodes, path_to_var, stays_record, stays_variant, base, settle, nominalize,
  nominalize_fields, nominalize_types, nominalize_methods,
}

-- Entries that are inserted one after the other.
unfoldable pub extend : TypeEnv → TypeEnv → TypeEnv
extend [] env = env
extend ((v, t) ∷ defs) env = extend defs (insert v t env)

pub extend-append : (a b env : TypeEnv) → extend (a ++ b) env ≡ extend b (extend a env)
unfolding extend
extend-append [] b env = refl
extend-append ((v, t) ∷ a) b env = extend-append a b (insert v t env)

-- `ret0`, `arg1`, …
abbrev pub func_node : String → ℕ → TypePath
func_node prefix i = TypePath.func (prefix <> decimal i)

abbrev pub init_node : ℕ → TypePath
init_node _ = TypePath.init

module _ (candid : Candid) where
  unfoldable mutual
    pub nominal : Nodes → Ty → Ty
    nominal path (prim p) = prim p
    nominal path (var v) = var v
    nominal path (opt t) = opt (nominal (TypePath.opt ∷ path) t)
    nominal path (vec t) = vec (nominal (TypePath.opt ∷ path) t)
    nominal path (record_ fs) =
        let stays = stays_record candid path fs in
        if stays
        then record_ (nominal_fields TypePath.record_field (base candid stays path) fs)
        else var (path_to_var candid path)
    nominal path (variant fs) =
        let stays = stays_variant candid path in
        if stays
        then variant (nominal_fields TypePath.variant_field (base candid stays path) fs)
        else var (path_to_var candid path)
    nominal path (func query args rets) =
        func query (nominal_types (func_node "arg") 0 path args)
          (nominal_types (func_node "ret") 0 path rets)
    nominal path (service ms) = service (nominal_methods path ms)
    nominal path (class args t) = class (nominal_types init_node 0 path args) (nominal path t)
    nominal path knot = knot
    nominal path unknown = unknown
    nominal path future = future

    pub nominal_fields : (String → TypePath) → Nodes → Fields → Fields
    nominal_fields node path no_fields = no_fields
    nominal_fields node path (field l t fs) =
        field l (nominal (node (candid.label_to_string l) ∷ path) t) (nominal_fields node path fs)

    pub nominal_types : (ℕ → TypePath) → ℕ → Nodes → Types → Types
    nominal_types node i path no_types = no_types
    nominal_types node i path (a_type t ts) =
        a_type (nominal (node i ∷ path) t) (nominal_types node (suc i) path ts)

    pub nominal_methods : Nodes → Methods → Methods
    nominal_methods path no_methods = no_methods
    nominal_methods path (method m t ms) =
        method m (nominal (TypePath.id m ∷ path) t) (nominal_methods path ms)

  -- A definition of its own, unless the type stays.
  abbrev pub new_def : Bool → Nodes → Ty → TypeEnv
  new_def stays path t = if stays then [] else (path_to_var candid path, t) ∷ []

  -- The new definitions, in the order in which they are made.
  unfoldable mutual
    unfolding nominal

    pub new_defs : Nodes → Ty → TypeEnv
    new_defs path (prim p) = []
    new_defs path (var v) = []
    new_defs path (opt t) = new_defs (TypePath.opt ∷ path) t
    new_defs path (vec t) = new_defs (TypePath.opt ∷ path) t
    new_defs path (record_ fs) =
        let stays = stays_record candid path fs in
        let within = base candid stays path in
        new_defs_fields TypePath.record_field within fs
        ++ new_def stays path (record_ (nominal_fields TypePath.record_field within fs))
    new_defs path (variant fs) =
        let stays = stays_variant candid path in
        let within = base candid stays path in
        new_defs_fields TypePath.variant_field within fs
        ++ new_def stays path (variant (nominal_fields TypePath.variant_field within fs))
    new_defs path (func query args rets) =
        new_defs_types (func_node "arg") 0 path args ++ new_defs_types (func_node "ret") 0 path rets
    new_defs path (service ms) = new_defs_methods path ms
    new_defs path (class args t) = new_defs_types init_node 0 path args ++ new_defs path t
    new_defs path knot = []
    new_defs path unknown = []
    new_defs path future = []

    pub new_defs_fields : (String → TypePath) → Nodes → Fields → TypeEnv
    new_defs_fields node path no_fields = []
    new_defs_fields node path (field l t fs) =
        new_defs (node (candid.label_to_string l) ∷ path) t ++ new_defs_fields node path fs

    pub new_defs_types : (ℕ → TypePath) → ℕ → Nodes → Types → TypeEnv
    new_defs_types node i path no_types = []
    new_defs_types node i path (a_type t ts) =
        new_defs (node i ∷ path) t ++ new_defs_types node (suc i) path ts

    pub new_defs_methods : Nodes → Methods → TypeEnv
    new_defs_methods path no_methods = []
    new_defs_methods path (method m t ms) =
        new_defs (TypePath.id m ∷ path) t ++ new_defs_methods path ms

  settle-extend :
      (stays : Bool) (path : Nodes) (t : Ty) (defs env : TypeEnv)
      → settle candid stays path (t, extend defs env) ≡ (
        if stays then t else var (path_to_var candid path),
        extend (defs ++ new_def stays path t) env,
      )
  unfolding extend
  settle-extend true path t defs env = ap (λ d. (t, extend d env)) (sym (append-nil defs))
  settle-extend false path t defs env =
      ap (λ e. (var (path_to_var candid path), e))
        (sym (extend-append defs ((path_to_var candid path, t) ∷ []) env))

  -- Two steps that each add definitions add those of both.
  two_steps :
      {A B C : Type 0} (make : A → B → C) (first : A × TypeEnv) (second : TypeEnv → B × TypeEnv)
      (a : A) (b : B) (da db env : TypeEnv)
      → first ≡ (a, extend da env)
      → ((e : TypeEnv) → second e ≡ (b, extend db e))
      → ◌≡◌ {A = C × TypeEnv}
          (make first.0 (second first.1).0, (second first.1).1)
          (make a b, extend (da ++ db) env)
  two_steps make first second a b da db env e1 e2 =
      ap (λ (r : _ × TypeEnv). (make r.0 (second r.1).0, (second r.1).1)) e1
      ∙ ap (λ (r : _ × TypeEnv). (make a r.0, r.1)) (e2 (extend da env))
      ∙ ap (λ e. (make a b, e)) (sym (extend-append da db env))

  mutual
    unfolding nominalize nominal new_defs extend

    nominalize-Writer :
        (env : TypeEnv) (path : Nodes) (t : Ty)
        → nominalize candid env path t ≡ (nominal path t, extend (new_defs path t) env)
    nominalize-Writer env path (prim p) = refl
    nominalize-Writer env path (var v) = refl
    nominalize-Writer env path (opt t) =
        ap (λ (r : Ty × TypeEnv). (opt r.0, r.1)) (nominalize-Writer env (TypePath.opt ∷ path) t)
    nominalize-Writer env path (vec t) =
        ap (λ (r : Ty × TypeEnv). (vec r.0, r.1)) (nominalize-Writer env (TypePath.opt ∷ path) t)
    nominalize-Writer env path (record_ fs) =
        let stays = stays_record candid path fs in
        let within = base candid stays path in
        ap (λ (r : Fields × TypeEnv). settle candid stays path (record_ r.0, r.1))
          (nominalize_fields-Writer TypePath.record_field env within fs)
        ∙ settle-extend stays path (record_ (nominal_fields TypePath.record_field within fs))
            (new_defs_fields TypePath.record_field within fs) env
    nominalize-Writer env path (variant fs) =
        let stays = stays_variant candid path in
        let within = base candid stays path in
        ap (λ (r : Fields × TypeEnv). settle candid stays path (variant r.0, r.1))
          (nominalize_fields-Writer TypePath.variant_field env within fs)
        ∙ settle-extend stays path (variant (nominal_fields TypePath.variant_field within fs))
            (new_defs_fields TypePath.variant_field within fs) env
    nominalize-Writer env path (func query args rets) =
        two_steps (func query) _ _ _ _ (new_defs_types (func_node "arg") 0 path args)
          (new_defs_types (func_node "ret") 0 path rets) env
          (nominalize_types-Writer (func_node "arg") 0 env path args)
          (λ e. nominalize_types-Writer (func_node "ret") 0 e path rets)
    nominalize-Writer env path (service ms) =
        ap (λ (r : Methods × TypeEnv). (service r.0, r.1)) (nominalize_methods-Writer env path ms)
    nominalize-Writer env path (class args t) =
        two_steps class _ _ _ _ (new_defs_types init_node 0 path args) (new_defs path t) env
          (nominalize_types-Writer init_node 0 env path args) (λ e. nominalize-Writer e path t)
    nominalize-Writer env path knot = refl
    nominalize-Writer env path unknown = refl
    nominalize-Writer env path future = refl

    nominalize_fields-Writer :
        (node : String → TypePath) (env : TypeEnv) (path : Nodes) (fs : Fields)
        → nominalize_fields candid node env path fs
          ≡ (nominal_fields node path fs, extend (new_defs_fields node path fs) env)
    nominalize_fields-Writer node env path no_fields = refl
    nominalize_fields-Writer node env path (field l t fs) =
        let path' = node (candid.label_to_string l) ∷ path in
        two_steps (field l) _ _ _ _ (new_defs path' t) (new_defs_fields node path fs) env
          (nominalize-Writer env path' t) (λ e. nominalize_fields-Writer node e path fs)

    nominalize_types-Writer :
        (node : ℕ → TypePath) (i : ℕ) (env : TypeEnv) (path : Nodes) (ts : Types)
        → nominalize_types candid node i env path ts
          ≡ (nominal_types node i path ts, extend (new_defs_types node i path ts) env)
    nominalize_types-Writer node i env path no_types = refl
    nominalize_types-Writer node i env path (a_type t ts) =
        two_steps a_type _ _ _ _ (new_defs (node i ∷ path) t) (new_defs_types node (suc i) path ts)
          env (nominalize-Writer env (node i ∷ path) t)
          (λ e. nominalize_types-Writer node (suc i) e path ts)

    nominalize_methods-Writer :
        (env : TypeEnv) (path : Nodes) (ms : Methods)
        → nominalize_methods candid env path ms
          ≡ (nominal_methods path ms, extend (new_defs_methods path ms) env)
    nominalize_methods-Writer env path no_methods = refl
    nominalize_methods-Writer env path (method m t ms) =
        let path' = TypePath.id m ∷ path in
        two_steps (method m) _ _ _ _ (new_defs path' t) (new_defs_methods path ms) env
          (nominalize-Writer env path' t) (λ e. nominalize_methods-Writer e path ms)

  -- Nominalization gives the type that `nominal` describes, and the environment with the
  -- definitions of `new_defs` inserted, whatever the environment was.
  pub nominalize_lem :
      (env : TypeEnv) (path : Nodes) (t : Ty)
      → nominalize candid env path t ≡ (nominal path t, extend (new_defs path t) env)
  nominalize_lem env path t = nominalize-Writer env path t

-- ===== src/CandidGenerator/Nominalize/Meaning.antt =====
-- What a nominal type stands for: the type that it was made from, once the names of its new
-- definitions are replaced by what they define.
use metamagic.Prelude.{
  ℕ, suc, String, Bool, true, false, [], ◌∷◌, ◌++◌, All, All-append_left, All-append_right,
  if◌then◌else◌, string_eq,
}
use metamagic.CandidGenerator.{
  Label, Prim, Ty, Fields, Types, Methods, prim, var, opt, vec, record_, variant, func, service,
  class, knot, unknown, future, no_fields, field, no_types, a_type, no_methods, method, TypePath,
  Candid,
}
use metamagic.CandidGenerator.Nominalize.{
  TypeEnv, Nodes, path_to_var, stays_record, stays_variant, base,
}
use metamagic.CandidGenerator.Nominalize.Writer.{
  func_node, init_node, nominal, nominal_fields, nominal_types, nominal_methods, new_def, new_defs,
  new_defs_fields, new_defs_types, new_defs_methods,
}

-- `Means defines t' t`: `t'` is `t` where names that `defines` defines may stand for types.
mutual
  pub data Means (defines : String → Ty → Type 0) : Ty → Ty → Type 0 where
    by_name : {v : String} {d t : Ty} → defines v d → Means defines d t → Means defines (var v) t
    of_prim : (p : Prim) → Means defines (prim p) (prim p)
    of_var : (v : String) → Means defines (var v) (var v)
    of_opt : {a b : Ty} → Means defines a b → Means defines (opt a) (opt b)
    of_vec : {a b : Ty} → Means defines a b → Means defines (vec a) (vec b)
    of_record : {a b : Fields} → MeansFields defines a b → Means defines (record_ a) (record_ b)
    of_variant : {a b : Fields} → MeansFields defines a b → Means defines (variant a) (variant b)
    of_func :
        (query : Bool) {a b c d : Types}
        → MeansTypes defines a b
        → MeansTypes defines c d
        → Means defines (func query a c) (func query b d)
    of_service : {a b : Methods} → MeansMethods defines a b → Means defines (service a) (service b)
    of_class :
        {a b : Types} {c d : Ty}
        → MeansTypes defines a b
        → Means defines c d
        → Means defines (class a c) (class b d)
    of_knot : Means defines knot knot
    of_unknown : Means defines unknown unknown
    of_future : Means defines future future

  pub data MeansFields (defines : String → Ty → Type 0) : Fields → Fields → Type 0 where
    of_no_fields : MeansFields defines no_fields no_fields
    of_field :
        (l : Label) {a b : Ty} {xs ys : Fields}
        → Means defines a b
        → MeansFields defines xs ys
        → MeansFields defines (field l a xs) (field l b ys)

  pub data MeansTypes (defines : String → Ty → Type 0) : Types → Types → Type 0 where
    of_no_types : MeansTypes defines no_types no_types
    of_a_type :
        {a b : Ty} {xs ys : Types}
        → Means defines a b
        → MeansTypes defines xs ys
        → MeansTypes defines (a_type a xs) (a_type b ys)

  pub data MeansMethods (defines : String → Ty → Type 0) : Methods → Methods → Type 0 where
    of_no_methods : MeansMethods defines no_methods no_methods
    of_method :
        (m : String) {a b : Ty} {xs ys : Methods}
        → Means defines a b
        → MeansMethods defines xs ys
        → MeansMethods defines (method m a xs) (method m b ys)

module _ (candid : Candid) (defines : String → Ty → Type 0) where
  -- All of these definitions hold.
  abbrev Defined : TypeEnv → Type 0
  Defined = All (λ d. defines d.0 d.1)

  settled-Means :
      (stays : Bool) (path : Nodes) (defs : TypeEnv) (t' t : Ty)
      → Defined (defs ++ new_def candid stays path t')
      → (Defined defs → Means defines t' t)
      → Means defines (if stays then t' else var (path_to_var candid path)) t
  settled-Means true path defs t' t all means = means (All-append_left _ defs [] all)
  settled-Means false path defs t' t all means =
      let own = All-append_right _ defs ((path_to_var candid path, t') ∷ []) all in
      by_name own.0 (means (All-append_left _ defs ((path_to_var candid path, t') ∷ []) all))

  mutual
    unfolding nominal new_defs

    pub nominal-Means :
        (path : Nodes) (t : Ty)
        → Defined (new_defs candid path t)
        → Means defines (nominal candid path t) t
    nominal-Means path (prim p) all = of_prim p
    nominal-Means path (var v) all = of_var v
    nominal-Means path (opt t) all = of_opt (nominal-Means (TypePath.opt ∷ path) t all)
    nominal-Means path (vec t) all = of_vec (nominal-Means (TypePath.opt ∷ path) t all)
    nominal-Means path (record_ fs) all =
        let stays = stays_record candid path fs in
        let within = base candid stays path in
        settled-Means stays path (new_defs_fields candid TypePath.record_field within fs)
          (record_ (nominal_fields candid TypePath.record_field within fs)) (record_ fs) all
          (λ some. of_record (nominal_fields-Means TypePath.record_field within fs some))
    nominal-Means path (variant fs) all =
        let stays = stays_variant candid path in
        let within = base candid stays path in
        settled-Means stays path (new_defs_fields candid TypePath.variant_field within fs)
          (variant (nominal_fields candid TypePath.variant_field within fs)) (variant fs) all
          (λ some. of_variant (nominal_fields-Means TypePath.variant_field within fs some))
    nominal-Means path (func query args rets) all =
        let da = new_defs_types candid (func_node "arg") 0 path args in
        let dr = new_defs_types candid (func_node "ret") 0 path rets in
        of_func query
          (nominal_types-Means (func_node "arg") 0 path args (All-append_left _ da dr all))
          (nominal_types-Means (func_node "ret") 0 path rets (All-append_right _ da dr all))
    nominal-Means path (service ms) all = of_service (nominal_methods-Means path ms all)
    nominal-Means path (class args t) all =
        let da = new_defs_types candid init_node 0 path args in
        let dt = new_defs candid path t in
        of_class (nominal_types-Means init_node 0 path args (All-append_left _ da dt all))
          (nominal-Means path t (All-append_right _ da dt all))
    nominal-Means path knot all = of_knot
    nominal-Means path unknown all = of_unknown
    nominal-Means path future all = of_future

    nominal_fields-Means :
        (node : String → TypePath) (path : Nodes) (fs : Fields)
        → Defined (new_defs_fields candid node path fs)
        → MeansFields defines (nominal_fields candid node path fs) fs
    nominal_fields-Means node path no_fields all = of_no_fields
    nominal_fields-Means node path (field l t fs) all =
        let path' = node (candid.label_to_string l) ∷ path in
        let dt = new_defs candid path' t in
        let ds = new_defs_fields candid node path fs in
        of_field l (nominal-Means path' t (All-append_left _ dt ds all))
          (nominal_fields-Means node path fs (All-append_right _ dt ds all))

    nominal_types-Means :
        (node : ℕ → TypePath) (i : ℕ) (path : Nodes) (ts : Types)
        → Defined (new_defs_types candid node i path ts)
        → MeansTypes defines (nominal_types candid node i path ts) ts
    nominal_types-Means node i path no_types all = of_no_types
    nominal_types-Means node i path (a_type t ts) all =
        let dt = new_defs candid (node i ∷ path) t in
        let ds = new_defs_types candid node (suc i) path ts in
        of_a_type (nominal-Means (node i ∷ path) t (All-append_left _ dt ds all))
          (nominal_types-Means node (suc i) path ts (All-append_right _ dt ds all))

    nominal_methods-Means :
        (path : Nodes) (ms : Methods)
        → Defined (new_defs_methods candid path ms)
        → MeansMethods defines (nominal_methods candid path ms) ms
    nominal_methods-Means path no_methods all = of_no_methods
    nominal_methods-Means path (method m t ms) all =
        let path' = TypePath.id m ∷ path in
        let dt = new_defs candid path' t in
        let ds = new_defs_methods candid path ms in
        of_method m (nominal-Means path' t (All-append_left _ dt ds all))
          (nominal_methods-Means path ms (All-append_right _ dt ds all))

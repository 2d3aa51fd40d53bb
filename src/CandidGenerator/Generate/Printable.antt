-- ===== src/CandidGenerator/Generate/Printable.antt =====
-- Nominal types are printed without a panic: nominalization leaves a variant only at the top of a
-- definition.
use metamagic.Prelude.{
  ℕ, suc, String, ◌≡◌, refl, Bool, true, false, [], ◌∷◌, ◌++◌, All, All-append, if◌then◌else◌,
}
use metamagic.CandidGenerator.{
  Ty, Fields, Types, Methods, prim, var, opt, vec, record_, variant, func, service, class, knot,
  unknown, future, no_fields, field, no_types, a_type, no_methods, method, TypePath, Candid,
}
use metamagic.CandidGenerator.Nominalize.{
  TypeEnv, Nodes, path_to_var, stays_record, stays_variant, base,
}
use metamagic.CandidGenerator.Nominalize.Writer.{
  func_node, nominal, nominal_fields, nominal_types, nominal_methods, new_def, new_defs,
  new_defs_fields, new_defs_types, new_defs_methods,
}
use metamagic.CandidGenerator.Printer.Total.{
  IsPrintable, ArePrintable, AllPrintable, AreMethods, IsDefinition,
}

-- A type as a candid file has it inside a definition.
unfoldable mutual
  pub IsPlain : Ty → Type 0
  IsPlain (prim p) = Unit
  IsPlain (var v) = Unit
  IsPlain (opt t) = IsPlain t
  IsPlain (vec t) = IsPlain t
  IsPlain (record_ fs) = ArePlain fs
  IsPlain (variant fs) = ArePlain fs
  IsPlain (func query args rets) = ArePlainTypes args × ArePlainTypes rets
  IsPlain (service ms) = ArePlainMethods ms
  IsPlain (class args t) = ⊥
  IsPlain knot = ⊥
  IsPlain unknown = ⊥
  IsPlain future = ⊥

  pub ArePlain : Fields → Type 0
  ArePlain no_fields = Unit
  ArePlain (field l t fs) = IsPlain t × ArePlain fs

  pub ArePlainTypes : Types → Type 0
  ArePlainTypes no_types = Unit
  ArePlainTypes (a_type t ts) = IsPlain t × ArePlainTypes ts

  pub ArePlainMethods : Methods → Type 0
  ArePlainMethods no_methods = Unit
  ArePlainMethods (method m t ms) = IsPlain t × ArePlainMethods ms

-- A node that is not the top of a definition.
abbrev pub IsInner : TypePath → Type 0
IsInner (TypePath.id v) = ⊥
IsInner _ = Unit

stays_variant-inner :
    (candid : Candid) (node : TypePath) (path : Nodes)
    → IsInner node
    → stays_variant candid (node ∷ path) ≡ false
unfolding stays_variant
stays_variant-inner candid (TypePath.id v) path h = absurd h
stays_variant-inner candid (TypePath.record_field f) path h = refl
stays_variant-inner candid (TypePath.variant_field f) path h = refl
stays_variant-inner candid TypePath.opt path h = refl
stays_variant-inner candid TypePath.vec path h = refl
stays_variant-inner candid (TypePath.func f) path h = refl
stays_variant-inner candid TypePath.init path h = refl

-- The path of a type that stands behind a name, and that of an actor.
abbrev pub IsTopPath : Nodes → Type 0
IsTopPath [] = Unit
IsTopPath (TypePath.id v ∷ path) = Unit
IsTopPath (_ ∷ path) = ⊥

stays_variant-top :
    (candid : Candid) (path : Nodes) → IsTopPath path → stays_variant candid path ≡ true
unfolding stays_variant
stays_variant-top candid [] top = refl
stays_variant-top candid (TypePath.id v ∷ path) top = refl
stays_variant-top candid (TypePath.record_field f ∷ path) top = absurd top
stays_variant-top candid (TypePath.variant_field f ∷ path) top = absurd top
stays_variant-top candid (TypePath.opt ∷ path) top = absurd top
stays_variant-top candid (TypePath.vec ∷ path) top = absurd top
stays_variant-top candid (TypePath.func f ∷ path) top = absurd top
stays_variant-top candid (TypePath.init ∷ path) top = absurd top

stays_record-top :
    (candid : Candid) (path : Nodes) (fs : Fields)
    → IsTopPath path
    → stays_record candid path fs ≡ true
unfolding stays_record
stays_record-top candid [] fs top = refl
stays_record-top candid (TypePath.id v ∷ path) fs top = refl
stays_record-top candid (TypePath.record_field f ∷ path) fs top = absurd top
stays_record-top candid (TypePath.variant_field f ∷ path) fs top = absurd top
stays_record-top candid (TypePath.opt ∷ path) fs top = absurd top
stays_record-top candid (TypePath.vec ∷ path) fs top = absurd top
stays_record-top candid (TypePath.func f ∷ path) fs top = absurd top
stays_record-top candid (TypePath.init ∷ path) fs top = absurd top

settled-IsPrintable :
    (stays : Bool) (v : String) (fs : Fields)
    → ArePrintable fs
    → IsPrintable (if stays then record_ fs else var v)
unfolding IsPrintable
settled-IsPrintable true v fs h = h
settled-IsPrintable false v fs h = tt

module _ (candid : Candid) where
  mutual
    unfolding nominal IsPlain IsPrintable

    pub nominal-IsPrintable :
        (node : TypePath) (path : Nodes) (t : Ty)
        → IsInner node
        → IsPlain t
        → IsPrintable (nominal candid (node ∷ path) t)
    nominal-IsPrintable node path (prim p) inner h = tt
    nominal-IsPrintable node path (var v) inner h = tt
    nominal-IsPrintable node path (opt t) inner h =
        nominal-IsPrintable TypePath.opt (node ∷ path) t tt h
    nominal-IsPrintable node path (vec t) inner h =
        nominal-IsPrintable TypePath.opt (node ∷ path) t tt h
    nominal-IsPrintable node path (record_ fs) inner h =
        let stays = stays_record candid (node ∷ path) fs in
        let within = base candid stays (node ∷ path) in
        settled-IsPrintable stays (path_to_var candid (node ∷ path))
          (nominal_fields candid TypePath.record_field within fs)
          (nominal_fields-ArePrintable TypePath.record_field within fs (λ _. tt) h)
    nominal-IsPrintable node path (variant fs) inner h =
        rw (stays_variant-inner candid node path inner) tt
    nominal-IsPrintable node path (func query args rets) inner (ha, hr) = (
      nominal_types-AllPrintable (func_node "arg") 0 (node ∷ path) args (λ _. tt) ha,
      nominal_types-AllPrintable (func_node "ret") 0 (node ∷ path) rets (λ _. tt) hr,
    )
    nominal-IsPrintable node path (service ms) inner h =
        nominal_methods-AreMethods (node ∷ path) ms h
    nominal-IsPrintable node path (class args t) inner h = absurd h
    nominal-IsPrintable node path knot inner h = absurd h
    nominal-IsPrintable node path unknown inner h = absurd h
    nominal-IsPrintable node path future inner h = absurd h

    pub nominal_fields-ArePrintable :
        (node : String → TypePath) (path : Nodes) (fs : Fields)
        → ((f : String) → IsInner (node f))
        → ArePlain fs
        → ArePrintable (nominal_fields candid node path fs)
    nominal_fields-ArePrintable node path no_fields inner h = tt
    nominal_fields-ArePrintable node path (field l t fs) inner (h, hs) = (
      nominal-IsPrintable (node (candid.label_to_string l)) path t (inner _) h,
      nominal_fields-ArePrintable node path fs inner hs,
    )

    pub nominal_types-AllPrintable :
        (node : ℕ → TypePath) (i : ℕ) (path : Nodes) (ts : Types)
        → ((j : ℕ) → IsInner (node j))
        → ArePlainTypes ts
        → AllPrintable (nominal_types candid node i path ts)
    nominal_types-AllPrintable node i path no_types inner h = tt
    nominal_types-AllPrintable node i path (a_type t ts) inner (h, hs) = (
      nominal-IsPrintable (node i) path t (inner i) h,
      nominal_types-AllPrintable node (suc i) path ts inner hs,
    )

    pub nominal_methods-AreMethods :
        (path : Nodes) (ms : Methods)
        → ArePlainMethods ms
        → AreMethods (nominal_methods candid path ms)
    nominal_methods-AreMethods path no_methods h = tt
    nominal_methods-AreMethods path (method m t ms) (h, hs) =
        (nominal-IsDefinition (TypePath.id m ∷ path) t tt h, nominal_methods-AreMethods path ms hs)

    -- A definition of the program.
    pub nominal-IsDefinition :
        (path : Nodes) (t : Ty) → IsTopPath path → IsPlain t → IsDefinition (nominal candid path t)
    nominal-IsDefinition path (prim p) top h = tt
    nominal-IsDefinition path (var w) top h = tt
    nominal-IsDefinition path (opt t) top h = nominal-IsPrintable TypePath.opt path t tt h
    nominal-IsDefinition path (vec t) top h = nominal-IsPrintable TypePath.opt path t tt h
    nominal-IsDefinition path (record_ fs) top h =
        rw (stays_record-top candid path fs top)
          (nominal_fields-ArePrintable TypePath.record_field path fs (λ _. tt) h)
    nominal-IsDefinition path (variant fs) top h =
        rw (stays_variant-top candid path top)
          (nominal_fields-ArePrintable TypePath.variant_field path fs (λ _. tt) h)
    nominal-IsDefinition path (func query args rets) top (ha, hr) = (
      nominal_types-AllPrintable (func_node "arg") 0 path args (λ _. tt) ha,
      nominal_types-AllPrintable (func_node "ret") 0 path rets (λ _. tt) hr,
    )
    nominal-IsDefinition path (service ms) top h = nominal_methods-AreMethods path ms h
    nominal-IsDefinition path (class args t) top h = absurd h
    nominal-IsDefinition path knot top h = absurd h
    nominal-IsDefinition path unknown top h = absurd h
    nominal-IsDefinition path future top h = absurd h

  abbrev pub Definitions : TypeEnv → Type 0
  Definitions = All (λ d. IsDefinition d.1)

  new_def-Definitions :
      (stays : Bool) (path : Nodes) (t : Ty) (defs : TypeEnv)
      → IsDefinition t
      → Definitions defs
      → Definitions (defs ++ new_def candid stays path t)
  new_def-Definitions true path t defs h hs = All-append _ defs [] hs tt
  new_def-Definitions false path t defs h hs =
      All-append _ defs ((path_to_var candid path, t) ∷ []) hs (h, tt)

  mutual
    unfolding new_defs IsPlain IsPrintable

    pub new_defs-Definitions :
        (path : Nodes) (t : Ty) → IsPlain t → Definitions (new_defs candid path t)
    new_defs-Definitions path (prim p) h = tt
    new_defs-Definitions path (var v) h = tt
    new_defs-Definitions path (opt t) h = new_defs-Definitions (TypePath.opt ∷ path) t h
    new_defs-Definitions path (vec t) h = new_defs-Definitions (TypePath.opt ∷ path) t h
    new_defs-Definitions path (record_ fs) h =
        let stays = stays_record candid path fs in
        let within = base candid stays path in
        new_def-Definitions stays path
          (record_ (nominal_fields candid TypePath.record_field within fs))
          (new_defs_fields candid TypePath.record_field within fs)
          (nominal_fields-ArePrintable TypePath.record_field within fs (λ _. tt) h)
          (new_defs_fields-Definitions TypePath.record_field within fs h)
    new_defs-Definitions path (variant fs) h =
        let stays = stays_variant candid path in
        let within = base candid stays path in
        new_def-Definitions stays path
          (variant (nominal_fields candid TypePath.variant_field within fs))
          (new_defs_fields candid TypePath.variant_field within fs)
          (nominal_fields-ArePrintable TypePath.variant_field within fs (λ _. tt) h)
          (new_defs_fields-Definitions TypePath.variant_field within fs h)
    new_defs-Definitions path (func query args rets) (ha, hr) =
        All-append _ (new_defs_types candid (func_node "arg") 0 path args)
          (new_defs_types candid (func_node "ret") 0 path rets)
          (new_defs_types-Definitions (func_node "arg") 0 path args ha)
          (new_defs_types-Definitions (func_node "ret") 0 path rets hr)
    new_defs-Definitions path (service ms) h = new_defs_methods-Definitions path ms h
    new_defs-Definitions path (class args t) h = absurd h
    new_defs-Definitions path knot h = absurd h
    new_defs-Definitions path unknown h = absurd h
    new_defs-Definitions path future h = absurd h

    new_defs_fields-Definitions :
        (node : String → TypePath) (path : Nodes) (fs : Fields)
        → ArePlain fs
        → Definitions (new_defs_fields candid node path fs)
    new_defs_fields-Definitions node path no_fields h = tt
    new_defs_fields-Definitions node path (field l t fs) (h, hs) =
        let path' = node (candid.label_to_string l) ∷ path in
        All-append _ (new_defs candid path' t) (new_defs_fields candid node path fs)
          (new_defs-Definitions path' t h) (new_defs_fields-Definitions node path fs hs)

    pub new_defs_types-Definitions :
        (node : ℕ → TypePath) (i : ℕ) (path : Nodes) (ts : Types)
        → ArePlainTypes ts
        → Definitions (new_defs_types candid node i path ts)
    new_defs_types-Definitions node i path no_types h = tt
    new_defs_types-Definitions node i path (a_type t ts) (h, hs) =
        All-append _ (new_defs candid (node i ∷ path) t)
          (new_defs_types candid node (suc i) path ts) (new_defs-Definitions (node i ∷ path) t h)
          (new_defs_types-Definitions node (suc i) path ts hs)

    new_defs_methods-Definitions :
        (path : Nodes) (ms : Methods)
        → ArePlainMethods ms
        → Definitions (new_defs_methods candid path ms)
    new_defs_methods-Definitions path no_methods h = tt
    new_defs_methods-Definitions path (method m t ms) (h, hs) =
        let path' = TypePath.id m ∷ path in
        All-append _ (new_defs candid path' t) (new_defs_methods candid path ms)
          (new_defs-Definitions path' t h) (new_defs_methods-Definitions path ms hs)

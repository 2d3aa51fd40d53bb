-- ===== src/CandidGenerator/Printer/Total.antt =====
-- The types that are printed without a panic.
use metamagic.Prelude.{String, ◌≡◌, refl, ap, ◌∙◌, Bool, false, List, Outcome, ok, ◌>>=◌}
use metamagic.CandidGenerator.{
  Label, Prim, Ty, Fields, Types, Methods, prim, var, opt, vec, record_, variant, func, service,
  class, knot, unknown, future, no_fields, field, no_types, a_type, no_methods, method, null,
  Candid,
}
use metamagic.CandidGenerator.Nominalize.{is_tuple}
use metamagic.CandidGenerator.Ident.{TokenStream}
use metamagic.CandidGenerator.Printer.{q_ty, q_fields, q_record_fields, q_variant_field, q_payload}

-- A type with no variant in it, nor a class, or one of the types that a file cannot have.
unfoldable mutual
  pub IsPrintable : Ty → Type 0
  IsPrintable (prim p) = Unit
  IsPrintable (var v) = Unit
  IsPrintable (opt t) = IsPrintable t
  IsPrintable (vec t) = IsPrintable t
  IsPrintable (record_ fs) = ArePrintable fs
  IsPrintable (variant fs) = ⊥
  IsPrintable (func query args rets) = AllPrintable args × AllPrintable rets
  IsPrintable (service ms) = AreMethods ms
  IsPrintable (class args t) = ⊥
  IsPrintable knot = ⊥
  IsPrintable unknown = ⊥
  IsPrintable future = ⊥

  pub ArePrintable : Fields → Type 0
  ArePrintable no_fields = Unit
  ArePrintable (field l t fs) = IsPrintable t × ArePrintable fs

  pub AllPrintable : Types → Type 0
  AllPrintable no_types = Unit
  AllPrintable (a_type t ts) = IsPrintable t × AllPrintable ts

  pub AreMethods : Methods → Type 0
  AreMethods no_methods = Unit
  AreMethods (method m t ms) = IsDefinition t × AreMethods ms

  -- What stands behind a name: the fields of a record or of a variant, or another type.
  pub IsDefinition : Ty → Type 0
  IsDefinition (record_ fs) = ArePrintable fs
  IsDefinition (variant fs) = ArePrintable fs
  IsDefinition (prim p) = Unit
  IsDefinition (var v) = Unit
  IsDefinition (opt t) = IsPrintable t
  IsDefinition (vec t) = IsPrintable t
  IsDefinition (func query args rets) = AllPrintable args × AllPrintable rets
  IsDefinition (service ms) = AreMethods ms
  IsDefinition (class args t) = ⊥
  IsDefinition knot = ⊥
  IsDefinition unknown = ⊥
  IsDefinition future = ⊥

-- The code is made.
abbrev pub Succeeds : {A : Type 0} → Outcome String A → Type 0
Succeeds {A} r = (a : A) × (r ≡ ok a)

pub Succeeds->>= :
    {A B : Type 0} (first : Outcome String A) (next : A → Outcome String B)
    → Succeeds first
    → ((a : A) → Succeeds (next a))
    → Succeeds (first >>= next)
Succeeds->>= first next (a, done) then_ =
    let (b, last) = then_ a in (b, ap (λ r. r >>= next) done ∙ last)

pub Succeeds-ok : {A : Type 0} (a : A) → Succeeds (ok a)
Succeeds-ok a = (a, refl)

module _ (candid : Candid) (recs : List String) where
  mutual
    unfolding q_ty IsPrintable

    pub q_ty-Succeeds : (t : Ty) → IsPrintable t → Succeeds (q_ty candid recs t)
    q_ty-Succeeds (prim p) h = Succeeds-ok _
    q_ty-Succeeds (var v) h = Succeeds-ok _
    q_ty-Succeeds (opt t) h = Succeeds->>= _ _ (q_ty-Succeeds t h) (λ a. Succeeds-ok _)
    q_ty-Succeeds (vec t) h = Succeeds->>= _ _ (q_ty-Succeeds t h) (λ a. Succeeds-ok _)
    q_ty-Succeeds (record_ fs) h =
        Succeeds->>= _ _ (q_fields-Succeeds (is_tuple candid.get_id fs) false fs h)
          (λ a. Succeeds-ok _)
    q_ty-Succeeds (variant fs) h = absurd h
    q_ty-Succeeds (func query args rets) h = Succeeds-ok _
    q_ty-Succeeds (service ms) h = Succeeds-ok _
    q_ty-Succeeds (class args t) h = absurd h
    q_ty-Succeeds knot h = absurd h
    q_ty-Succeeds unknown h = absurd h
    q_ty-Succeeds future h = absurd h

    pub q_fields-Succeeds :
        (tuple make_pub : Bool) (fs : Fields)
        → ArePrintable fs
        → Succeeds (q_fields candid recs tuple make_pub fs)
    q_fields-Succeeds tuple make_pub no_fields h = Succeeds-ok _
    q_fields-Succeeds tuple make_pub (field l t fs) (h, hs) =
        Succeeds->>= _ _ (q_ty-Succeeds t h)
          (λ a. Succeeds->>= _ _ (q_fields-Succeeds tuple make_pub fs hs) (λ b. Succeeds-ok _))

  pub q_record_fields-Succeeds :
      (fs : Fields) (make_pub : Bool)
      → ArePrintable fs
      → Succeeds (q_record_fields candid recs fs make_pub)
  unfolding q_record_fields
  q_record_fields-Succeeds fs make_pub h =
      Succeeds->>= _ _ (q_fields-Succeeds (is_tuple candid.get_id fs) make_pub fs h)
        (λ a. Succeeds-ok _)

  -- Any type but a record or null.
  nested-Succeeds :
      (f : TokenStream → TokenStream) (t : Ty)
      → IsPrintable t
      → Succeeds (q_ty candid recs t >>= (λ nested. ok (f nested)))
  nested-Succeeds f t h = Succeeds->>= _ _ (q_ty-Succeeds t h) (λ a. Succeeds-ok _)

  prim-Succeeds : (l : Label) (p : Prim) → Succeeds (q_variant_field candid recs l (prim p))
  unfolding q_variant_field
  prim-Succeeds l null = Succeeds-ok _
  prim-Succeeds l _ = Succeeds-ok _

  pub q_variant_field-Succeeds :
      (l : Label) (t : Ty) → IsPrintable t → Succeeds (q_variant_field candid recs l t)
  unfolding q_variant_field IsPrintable
  q_variant_field-Succeeds l (prim p) h = prim-Succeeds l p
  q_variant_field-Succeeds l (record_ fs) h =
      Succeeds->>= _ _ (q_record_fields-Succeeds fs false h) (λ a. Succeeds-ok _)
  q_variant_field-Succeeds l (var v) h = nested-Succeeds (q_payload candid recs l) (var v) tt
  q_variant_field-Succeeds l (opt t) h = nested-Succeeds (q_payload candid recs l) (opt t) h
  q_variant_field-Succeeds l (vec t) h = nested-Succeeds (q_payload candid recs l) (vec t) h
  q_variant_field-Succeeds l (variant fs) h = absurd h
  q_variant_field-Succeeds l (func query args rets) h =
      nested-Succeeds (q_payload candid recs l) (func query args rets) h
  q_variant_field-Succeeds l (service ms) h =
      nested-Succeeds (q_payload candid recs l) (service ms) h
  q_variant_field-Succeeds l (class args t) h = absurd h
  q_variant_field-Succeeds l knot h = absurd h
  q_variant_field-Succeeds l unknown h = absurd h
  q_variant_field-Succeeds l future h = absurd h

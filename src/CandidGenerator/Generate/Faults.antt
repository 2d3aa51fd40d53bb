-- ===== src/CandidGenerator/Generate/Faults.antt =====
-- Programs whose client is wrong.
use metamagic.Prelude.{
  ◌&&◌, nat_eq, String, ◌≡◌, ◌≢◌, refl, ap, ◌∙◌, arith, true, false, none, some, List, [], ◌∷◌,
  ◌++◌, ok, ◌==◌, string_eq, ◌||◌,
}
use metamagic.Prelude.HashMap.{lookup, insert, lookup-insert}
use metamagic.CandidGenerator.{
  Label, Prim, Fields, prim, var, opt, record_, variant, no_fields, field, TypePath, Candid,
}
use metamagic.CandidGenerator.Nominalize.{
  TypeEnv, is_tuple, path_to_var, stays_record, stays_variant, nominalize, nominalize_all,
  nominalize_defs,
}
use metamagic.CandidGenerator.Nominalize.Writer.{nominal, nominal_fields, nominalize_lem}
use metamagic.CandidGenerator.Nominalize.Tuples.{is_tuple-nominal}
use metamagic.CandidGenerator.Ident.{Token, piece, TokenStream, q_ident}
use metamagic.CandidGenerator.Printer.{q_ty, separated}
use metamagic.CandidGenerator.Printer.Total.{ArePrintable, q_fields-Succeeds}
use metamagic.CandidGenerator.Generate.{is_result, q_field_types, q_definition}
use metamagic.CandidGenerator.Generate.Printable.{ArePlain, nominal_fields-ArePrintable}
use metamagic.CandidGenerator.Generate.Total.{q_field_types-Succeeds}

module _ (candid : Candid) where
  -- A program has two definitions: the first is an option of a record with one field of a primitive
  -- type that is no tuple, and the second is a primitive type under the name that nominalization
  -- makes for that record. Then the record is lost: the first definition is the option of that
  -- name, and the name stands for the second one's type.
  pub nominalize_collides :
      (id : String) (l : Label) (p q : Prim)
      → let part = record_ (field l (prim p) no_fields) in
        let new_var = path_to_var candid (TypePath.opt ∷ TypePath.id id ∷ []) in
        let res = nominalize_all candid ((id, opt part) ∷ (new_var, prim q) ∷ []) none in
        is_tuple candid.get_id (field l (prim p) no_fields) ≡ false
        → id ≢ new_var
        → (lookup id res.0 ≡ some (opt (var new_var))) × (lookup new_var res.0 ≡ some (prim q))
  unfolding nominalize_all nominalize nominalize_defs stays_record is_tuple
  nominalize_collides id l p q not_tuple differs =
      let new_var = path_to_var candid (TypePath.opt ∷ TypePath.id id ∷ []) in
      let e : ((candid.get_id l == 0) && true) ≡ false = not_tuple in
      let part = record_ (field l (prim p) no_fields) in
      let res = insert id (opt (var new_var)) (insert new_var part []) in
      rw e (
        ground (
          arith,
          lookup-insert id new_var (prim q) res,
          lookup-insert new_var new_var (prim q) res,
          lookup-insert id id (opt (var new_var)) (insert new_var part []),
        ))

  is_result-nominal :
      (node : String → TypePath) (path : List TypePath) (fs : Fields)
      → is_result candid (nominal_fields candid node path fs) ≡ is_result candid fs
  unfolding is_result nominal
  is_result-nominal node path no_fields = refl
  is_result-nominal node path (field l t fs) =
      ap (λ b. (candid.label_to_string l == "Ok" || candid.label_to_string l == "Err") || b)
        (is_result-nominal node path fs)

  separated-first :
      (first : Token) (t : TokenStream) (ts : List TokenStream)
      → (more : TokenStream) × (separated ((first ∷ t) ∷ ts) ≡ first ∷ more)
  unfolding separated
  separated-first first t [] = (t, refl)
  separated-first first t (u ∷ ts) = (t ++ piece "," ∷ separated (u ∷ ts), refl)

  written_result :
      (recs : List String) (id : String) (l : Label) (fs rest : Fields)
      → is_result candid (field l (record_ fs) rest) ≡ true
      → is_tuple candid.get_id fs ≡ false
      → ArePrintable fs
      → ArePrintable rest
      → (tokens : TokenStream) × (q_definition candid recs id (variant (field l (record_ fs) rest))
          ≡ ok (
              piece "pub type "
              ∷ piece (q_ident candid id).0
              ∷ piece "= std::result::Result<"
              ∷ piece "{"
              ∷ tokens))
  unfolding q_definition q_field_types q_ty
  written_result recs id l fs rest labelled not_tuple h hs =
      let (parts, done) = q_fields-Succeeds candid [] false false fs h in
      let (rets, rest_done) = q_field_types-Succeeds candid rest hs in
      let (more, begins) = separated-first (piece "{") (separated parts ++ piece "}" ∷ []) rets in
      (
        more ++ piece ">;" ∷ [],
        rw (labelled, not_tuple, done, rest_done)
            (ap
              (λ (t : TokenStream). ok (
                piece "pub type "
                ∷ piece (q_ident candid id).0
                ∷ piece "= std::result::Result<"
                ∷ (t ++ piece ">;" ∷ [])))
              begins),
      )

  pub result_of_record :
      (env : TypeEnv) (recs : List String) (id : String) (l : Label) (fs rest : Fields)
      → is_result candid (field l (record_ fs) rest) ≡ true
      → is_tuple candid.get_id fs ≡ false
      → ArePlain fs
      → ArePlain rest
      → (tokens : _) × (q_definition candid recs id
            (nominalize candid env (TypePath.id id ∷ []) (variant (field l (record_ fs) rest))).0
          ≡ ok (
              piece "pub type "
              ∷ piece (q_ident candid id).0
              ∷ piece "= std::result::Result<"
              ∷ piece "{"
              ∷ tokens))
  unfolding nominal is_result stays_record stays_variant
  result_of_record env recs id l fs rest labelled not_tuple plain plain_rest =
      let inner : List TypePath =
        TypePath.variant_field (candid.label_to_string l) ∷ TypePath.id id ∷ [] in
      rw (nominalize_lem candid env (TypePath.id id ∷ []) (variant (field l (record_ fs) rest))) (
        written_result recs id l (nominal_fields candid TypePath.record_field inner fs)
          (nominal_fields candid TypePath.variant_field (TypePath.id id ∷ []) rest)
          (ap (λ b. (candid.label_to_string l == "Ok" || candid.label_to_string l == "Err") || b)
              (is_result-nominal TypePath.variant_field (TypePath.id id ∷ []) rest)
            ∙ labelled)
          (is_tuple-nominal candid TypePath.record_field inner fs ∙ not_tuple)
          (nominal_fields-ArePrintable candid TypePath.record_field inner fs (λ _. tt) plain)
          (nominal_fields-ArePrintable candid TypePath.variant_field (TypePath.id id ∷ []) rest
            (λ _. tt) plain_rest))

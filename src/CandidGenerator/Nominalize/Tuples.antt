-- ===== src/CandidGenerator/Nominalize/Tuples.antt =====
-- A record that nominalization gave is a tuple, and stays in its place, if and only if the record
-- that it was given is one, and does.
use metamagic.Prelude.{ℕ, suc, String, ◌≡◌, refl, ap, [], ◌∷◌, string_eq, nat_eq, ◌&&◌, ◌==◌}
use metamagic.CandidGenerator.{Fields, no_fields, field, TypePath, Candid}
use metamagic.CandidGenerator.Nominalize.{Nodes, numbered, is_tuple, stays_record}
use metamagic.CandidGenerator.Nominalize.Writer.{nominal, nominal_fields}

module _ (candid : Candid) where
  numbered-nominal :
      (i : ℕ) (node : String → TypePath) (path : Nodes) (fs : Fields)
      → numbered candid.get_id i (nominal_fields candid node path fs) ≡ numbered candid.get_id i fs
  unfolding numbered nominal
  numbered-nominal i node path no_fields = refl
  numbered-nominal i node path (field l t fs) =
      ap (λ b. (candid.get_id l == i) && b) (numbered-nominal (suc i) node path fs)

  -- The labels stay, so a tuple stays a tuple.
  pub is_tuple-nominal :
      (node : String → TypePath) (path : Nodes) (fs : Fields)
      → is_tuple candid.get_id (nominal_fields candid node path fs) ≡ is_tuple candid.get_id fs
  unfolding is_tuple nominal numbered
  is_tuple-nominal node path no_fields = refl
  is_tuple-nominal node path (field l t fs) = numbered-nominal 0 node path (field l t fs)

  pub stays-nominal :
      (node : String → TypePath) (path' path : Nodes) (fs : Fields)
      → stays_record candid path (nominal_fields candid node path' fs) ≡ stays_record candid path fs
  unfolding stays_record
  stays-nominal node path' [] fs = refl
  stays-nominal node path' (TypePath.id v ∷ path) fs = refl
  stays-nominal node path' (TypePath.variant_field f ∷ path) fs = refl
  stays-nominal node path' (TypePath.record_field f ∷ path) fs = is_tuple-nominal node path' fs
  stays-nominal node path' (TypePath.opt ∷ path) fs = is_tuple-nominal node path' fs
  stays-nominal node path' (TypePath.vec ∷ path) fs = is_tuple-nominal node path' fs
  stays-nominal node path' (TypePath.func f ∷ path) fs = is_tuple-nominal node path' fs
  stays-nominal node path' (TypePath.init ∷ path) fs = is_tuple-nominal node path' fs

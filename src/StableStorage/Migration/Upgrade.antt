-- ===== src/StableStorage/Migration/Upgrade.antt =====
-- Data that was serialized by the version that is stored is read by either version.
use metamagic.Prelude.{
  ℕ, ◌≡◌, String, List, ◌++◌, Outcome, ok, ◌>>=◌, map_err, ltb, if◌then◌else◌, Bool-cases, inl, inr,
}
use metamagic.StableStorage.Migration.{
  Deserialize, map_value, migration_error, deserialize_if_lt_version_or_else,
  deserialize_default_if_lt_version, deserialize_default_if_gte_version,
  deserialize_into_if_lt_version, deserialize_try_into_if_lt_version,
}

-- The deserializer reads back what the serializer wrote, and nothing more.
abbrev pub Reads : {A : Type 0} → (A → List ℕ) → Deserialize A → Type 0
Reads {A} s d = (a : A) (rest : List ℕ) → d (s a ++ rest) ≡ ok (a, rest)

-- A structure whose last field is new in a version, as the derived code reads it: field by field.
abbrev pub with_field : {A B : Type 0} → Deserialize A → Deserialize B → Deserialize (A × B)
with_field first last input = do (a, rest) ← first input; (b, rest') ← last rest; ok ((a, b), rest')

module _ {A B : Type 0} (write_a : A → List ℕ) (write_b : B → List ℕ) (read_a : Deserialize A)
    (read_b : Deserialize B) (reads_a : Reads write_a read_a) (reads_b : Reads write_b read_b)
    (stored version tag : ℕ) where
  -- A structure to which a version adds a last field is read from what either version stored: what
  -- an older one stored gives the default in the new field, and nothing of what follows is taken.
  pub added_field :
      (default : B) (a : A) (b : B) (rest : List ℕ)
      → with_field read_a
          (deserialize_default_if_lt_version stored version tag default read_b)
          (write_a a ++ (if ltb stored version then rest else write_b b ++ rest))
        ≡ ok ((a, if ltb stored version then default else b), rest)
  unfolding deserialize_default_if_lt_version
  added_field default a b rest = elim (Bool-cases (ltb stored version)) [
    | inl old ↦ rw old (rw (reads_a a rest))
    | inr new ↦ rw new (rw (reads_a a (write_b b ++ rest)) (rw (reads_b b rest)))
  ]

  -- A structure from which a version drops its last field is read from what either version stored:
  -- what an older one stored is read with the field, and in what a newer one stored the default
  -- stands for it.
  pub removed_field :
      (default : B) (a : A) (b : B) (rest : List ℕ)
      → with_field read_a
          (deserialize_default_if_gte_version stored version tag default read_b)
          (write_a a ++ (if ltb stored version then write_b b ++ rest else rest))
        ≡ ok ((a, if ltb stored version then b else default), rest)
  unfolding deserialize_default_if_gte_version
  removed_field default a b rest = elim (Bool-cases (ltb stored version)) [
    | inl old ↦ rw old (rw (reads_a a (write_b b ++ rest)) (rw (reads_b b rest)))
    | inr new ↦ rw new (rw (reads_a a rest))
  ]

module _ {O T : Type 0} (write_old : O → List ℕ) (write_new : T → List ℕ) (old : Deserialize O)
    (new : Deserialize T) (reads_old : Reads write_old old) (reads_new : Reads write_new new)
    (stored version tag : ℕ) where
  -- A field whose type a version changes is read from what either version stored, the older one's
  -- value by conversion.
  pub converted :
      (f : O → T) (o : O) (t : T) (rest : List ℕ)
      → deserialize_into_if_lt_version stored version tag f old new
          ((if ltb stored version then write_old o else write_new t) ++ rest)
        ≡ ok (if ltb stored version then f o else t, rest)
  unfolding deserialize_into_if_lt_version deserialize_if_lt_version_or_else map_value
  converted f o t rest = elim (Bool-cases (ltb stored version)) [
    | inl older ↦ rw older (rw (reads_old o rest))
    | inr newer ↦ rw newer (rw (reads_new t rest))
  ]

  -- With a conversion that can fail, the older value is converted or its message is reported with
  -- the tag; the newer one is read as it is.
  pub try_converted :
      (f : O → Outcome String T) (o : O) (t : T) (rest : List ℕ)
      → deserialize_try_into_if_lt_version stored version tag f old new
          ((if ltb stored version then write_old o else write_new t) ++ rest)
        ≡ (if ltb stored version
            then map_err (migration_error tag) (do t' ← f o; ok (t', rest))
            else ok (t, rest))
  unfolding deserialize_try_into_if_lt_version deserialize_if_lt_version_or_else
  try_converted f o t rest = elim (Bool-cases (ltb stored version)) [
    | inl older ↦ rw older (rw (reads_old o rest))
    | inr newer ↦ rw newer (rw (reads_new t rest))
  ]

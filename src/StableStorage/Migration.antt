-- ===== src/StableStorage/Migration.antt =====
-- migration.rs: deserializers that follow the stored schema version. A deserializer is a reader of
-- a prefix of the bytes; the messages of its errors are strings.
pub mod Upgrade
use metamagic.Prelude.{
  ℕ, String, ◌<>◌, ◌≡◌, List, [], ◌∷◌, map, Option, Outcome, ok, err, panic, ◌>>=◌, map_err, ltb,
  if◌then◌else◌,
}
use mathlib.Core.Option
use metamagic.Prelude.Decimal.{decimal}

-- `T::deserialize`: the value and the rest of the input, or the message of the error.
abbrev pub Deserialize : Type 0 → Type 0
Deserialize T = List ℕ → Outcome String (T × List ℕ)

-- The thread local `STORED_SCHEMA_VERSION`: what is left of it when it is set, and what is read.
abbrev pub set_stored_schema_version : ℕ → ℕ → ℕ
set_stored_schema_version version stored = version

abbrev pub get_stored_schema_version : ℕ → ℕ
get_stored_schema_version stored = stored

-- The value of a deserializer converted.
unfoldable pub map_value : {A B : Type 0} → (A → B) → Deserialize A → Deserialize B
map_value f d input = do (a, rest) ← d input; ok (f a, rest)

-- `format!("Migration error. Tag {DEBUG_TAG} Error: {e}")`
unfoldable pub migration_error : ℕ → String → String
migration_error debug_tag e = "Migration error. Tag " <> (decimal debug_tag <> (" Error: " <> e))

-- The stored schema version is a thread local of `get_stored_schema_version`.
module _ (stored_schema_version version debug_tag : ℕ) where
  unfoldable pub deserialize_if_lt_version_or_else :
      {T : Type 0} → Deserialize T → Deserialize T → Deserialize T
  deserialize_if_lt_version_or_else pre_version_func post_version_func input =
      map_err (migration_error debug_tag) (
        if ltb stored_schema_version version
        then pre_version_func input
        else post_version_func input)

  unfoldable pub deserialize_default_if_lt_version :
      {T : Type 0} → T → Deserialize T → Deserialize T
  deserialize_default_if_lt_version default d input =
      map_err (migration_error debug_tag)
        (if ltb stored_schema_version version then ok (default, input) else d input)

  unfoldable pub deserialize_default_if_gte_version :
      {T : Type 0} → T → Deserialize T → Deserialize T
  deserialize_default_if_gte_version default d input =
      map_err (migration_error debug_tag)
        (if ltb stored_schema_version version then d input else ok (default, input))

  -- `as_`, `into` and `to_string` are conversions `f`.
  unfoldable pub deserialize_into_collection_if_lt_version :
      {O T : Type 0} → (O → T) → Deserialize (List O) → Deserialize (List T) → Deserialize (List T)
  unfolding deserialize_if_lt_version_or_else
  deserialize_into_collection_if_lt_version f old new =
      deserialize_if_lt_version_or_else (map_value (map f) old) new

  unfoldable pub deserialize_into_primitive_option_if_lt_version :
      {O T : Type 0}
      → (O → T)
      → Deserialize (Option O)
      → Deserialize (Option T)
      → Deserialize (Option T)
  unfolding deserialize_if_lt_version_or_else
  deserialize_into_primitive_option_if_lt_version f old new =
      deserialize_if_lt_version_or_else (map_value (Option.map f) old) new

  unfoldable pub deserialize_into_primitive_collection_if_lt_version :
      {O T : Type 0} → (O → T) → Deserialize (List O) → Deserialize (List T) → Deserialize (List T)
  unfolding deserialize_if_lt_version_or_else
  deserialize_into_primitive_collection_if_lt_version as_ old new =
      deserialize_if_lt_version_or_else (map_value (map as_) old) new

  unfoldable pub deserialize_into_string_collection_if_lt_version :
      {O : Type 0}
      → (O → String)
      → Deserialize (List O)
      → Deserialize (List String)
      → Deserialize (List String)
  unfolding deserialize_if_lt_version_or_else
  deserialize_into_string_collection_if_lt_version to_string old new =
      deserialize_if_lt_version_or_else (map_value (map to_string) old) new

  unfoldable pub deserialize_into_primitive_if_lt_version :
      {O T : Type 0} → (O → T) → Deserialize O → Deserialize T → Deserialize T
  unfolding deserialize_if_lt_version_or_else
  deserialize_into_primitive_if_lt_version as_ old new =
      deserialize_if_lt_version_or_else (map_value as_ old) new

  unfoldable pub deserialize_into_if_lt_version :
      {O T : Type 0} → (O → T) → Deserialize O → Deserialize T → Deserialize T
  unfolding deserialize_if_lt_version_or_else
  deserialize_into_if_lt_version f old new = deserialize_if_lt_version_or_else (map_value f old) new

  -- `try_into`, with the message of its error
  unfoldable pub deserialize_try_into_if_lt_version :
      {O T : Type 0} → (O → Outcome String T) → Deserialize O → Deserialize T → Deserialize T
  unfolding deserialize_if_lt_version_or_else
  deserialize_try_into_if_lt_version f old new =
      deserialize_if_lt_version_or_else (λ input. do (o, rest) ← old input; t ← f o; ok (t, rest))
        new

unfoldable pub deserialize_with_debug_tag : {T : Type 0} → ℕ → Deserialize T → Deserialize T
deserialize_with_debug_tag debug_tag d input = map_err (migration_error debug_tag) (d input)

-- ===== src/CandidGenerator/Ident.antt =====
-- q_ident, q_field_name and q_label: Rust identifiers for the names of candid. A token stream is
-- given by its pieces of code, each of which `quote!` writes at once.
pub mod Valid
use Prim.Native.Char.{code}
use metamagic.Prelude.{
  ℕ, String, ◌<>◌, Bool, true, false, ◌&&◌, ◌||◌, not, List, [], ◌∷◌, leb, ◌==◌, string_eq, nat_eq,
  if◌then◌else◌,
}
use metamagic.Prelude.Decimal.{decimal}
use metamagic.CandidGenerator.{Label, named, id, unnamed, Candid}

-- A piece of code, or a text literal with its value.
pub data Token : Type 0 where
  piece : String → Token
  literal : String → Token

abbrev pub TokenStream : Type 0
TokenStream = List Token

-- Characters by their code points.
unfoldable pub is_ascii_alphabetic : ℕ → Bool
is_ascii_alphabetic c = (leb 65 c && leb c 90) || (leb 97 c && leb c 122)

unfoldable pub is_ascii_alphanumeric : ℕ → Bool
unfolding is_ascii_alphabetic
is_ascii_alphanumeric c = is_ascii_alphabetic c || (leb 48 c && leb c 57)

-- `id.starts_with`, of a character that no identifier starts with
unfoldable pub bad_start : String → Bool
unfolding is_ascii_alphabetic
bad_start String.[] = false
bad_start (String.◌∷◌ c s) = not (is_ascii_alphabetic (code c)) && not (code c == 95)

-- `id.chars().any`, of a character that is not part of an identifier
unfoldable pub bad_char : String → Bool
unfolding is_ascii_alphanumeric
bad_char String.[] = false
bad_char (String.◌∷◌ c s) =
    (not (is_ascii_alphanumeric (code c)) && not (code c == 95)) || bad_char s

unfoldable pub is_reserved : String → Bool
is_reserved s = s == "crate" || (s == "self" || (s == "super" || s == "Self"))

unfoldable pub is_empty : String → Bool
is_empty String.[] = true
is_empty (String.◌∷◌ _ _) = false

module _ (candid : Candid) where
  -- The identifier, and whether it is another name.
  unfoldable pub q_ident : String → String × Bool
  q_ident name =
      if is_empty name || (bad_start name || bad_char name)
      then ("_" <> (decimal (candid.idl_hash name) <> "_"), true)
      else if is_reserved name
      then ("_" <> name, true)
      else (name, false)

  unfoldable pub q_field_name : String → TokenStream
  q_field_name name =
      let (ident, is_rename) = q_ident name in
      if is_rename
      then piece "#[serde(rename="
        ∷ literal (candid.escape_debug name)
        ∷ piece ")]"
        ∷ piece ident
        ∷ []
      else piece ident ∷ []

  unfoldable pub q_label : Label → TokenStream
  q_label (named str) = q_field_name str
  q_label (id n) = piece ("_" <> (decimal n <> "_")) ∷ []
  q_label (unnamed n) = piece ("_" <> (decimal n <> "_")) ∷ []

-- ===== src/CandidGenerator/Ident/Valid.antt =====
-- The names that the generator writes: words of letters, digits and underscores, and none of the
-- reserved words of paths. Other keywords, and an underscore alone, are let through.
use Prim.Native.Char.{code}
use text.Mathlib.TextLemmas.{cons-append, nil-append}
use metamagic.Prelude.{
  ℕ, ◌≤◌, String, ◌<>◌, ◌≡◌, ◌≢◌, ◌↔◌, ◌⊎◌, refl, ap, sym, ◌∙◌, subst, arith, inl, inr, Bool, true,
  false, ◌&&◌, ◌||◌, not, ◌==◌, ==_ne, string_eq, nat_eq, Bool-cases,
}
use metamagic.Prelude.Decimal.{decimal}
use metamagic.Prelude.Decimal.Digits.{AllCodes, AllCodes-append, decimal-AllCodes}
use metamagic.CandidGenerator.{Candid}
use metamagic.CandidGenerator.Ident.{
  is_ascii_alphabetic, is_ascii_alphanumeric, bad_start, bad_char, is_reserved, is_empty, q_ident,
}

-- A letter or an underscore.
abbrev pub IsStart : ℕ → Type 0
IsStart c = ((65 ≤ c) × (c ≤ 90)) ⊎ ((97 ≤ c) × (c ≤ 122)) ⊎ (c ≡ 95)

-- That, or a digit.
abbrev pub IsPart : ℕ → Type 0
IsPart c = IsStart c ⊎ ((48 ≤ c) × (c ≤ 57))

-- A word of these; the keywords of Rust are words too, and so is an underscore alone.
abbrev pub IsWord : String → Type 0
IsWord String.[] = ⊥
IsWord (String.◌∷◌ c s) = IsStart (code c) × AllCodes IsPart s

-- A test of one character, either way.
IsPart-iff : (c : ℕ) → ((not (is_ascii_alphanumeric c) && not (c == 95)) ≡ false) ↔ IsPart c
unfolding is_ascii_alphanumeric is_ascii_alphabetic
IsPart-iff c = ground arith

IsStart-iff : (c : ℕ) → ((not (is_ascii_alphabetic c) && not (c == 95)) ≡ false) ↔ IsStart c
unfolding is_ascii_alphabetic
IsStart-iff c = ground arith

or_false : (a b : Bool) → (a || b) ≡ false → (a ≡ false) × (b ≡ false)
or_false true b e = cc
or_false false b e = (refl, e)

or_intro : (a b : Bool) → a ≡ false → b ≡ false → (a || b) ≡ false
or_intro a b ea eb = ap (λ t. t || b) ea ∙ eb

bad_char_iff : (s : String) → (bad_char s ≡ false) ↔ AllCodes IsPart s
unfolding bad_char
bad_char_iff String.[] = (λ _. tt, λ _. refl)
bad_char_iff (String.◌∷◌ c s) =
    let here = IsPart-iff (code c) in
    let rest = bad_char_iff s in
    (
      λ e. let parts = or_false _ (bad_char s) e in (here.0 parts.0, rest.0 parts.1),
      λ h. or_intro _ (bad_char s) (here.1 h.0) (rest.1 h.1),
    )

-- The tests of the generator reject exactly what is no word.
pub tests_iff : (s : String) → ((is_empty s || (bad_start s || bad_char s)) ≡ false) ↔ IsWord s
unfolding bad_start bad_char is_empty
tests_iff String.[] = (λ e. cc, λ h. absurd h)
tests_iff (String.◌∷◌ c s) =
    let first = IsStart-iff (code c) in
    let here = IsPart-iff (code c) in
    let rest = bad_char_iff s in
    (
      λ e.
          let outer = or_false _ _ e in
          let inner = or_false _ (bad_char s) outer.1 in (first.0 outer.0, rest.0 inner.1),
      λ h. or_intro _ _ (first.1 h.0) (or_intro _ (bad_char s) (here.1 (inl h.0)) (rest.1 h.1)),
    )

underscore : (s : String) → "_" <> s ≡ String.◌∷◌ "_" s
underscore s = cons-append "_" "" s ∙ ap (String.◌∷◌ "_") (nil-append s)

first_code : String → ℕ
first_code String.[] = 0
first_code (String.◌∷◌ c s) = code c

underscore-is_reserved : (s : String) → is_reserved ("_" <> s) ≡ false
unfolding is_reserved first_code
underscore-is_reserved s =
    let differs : (t : String) → first_code t ≢ 95 → ("_" <> s == t) ≡ false =
      λ t h. ==_ne ("_" <> s) t (λ e. h (sym (ap first_code e) ∙ ap first_code (underscore s))) in
    rw
      (
        differs "crate" (omega arith),
        differs "self" (omega arith),
        differs "super" (omega arith),
        differs "Self" (omega arith),
      )
      refl

underscore-IsWord : (s : String) → AllCodes IsPart s → IsWord ("_" <> s)
underscore-IsWord s parts = subst IsWord (sym (underscore s)) (inr (inr refl), parts)

IsWord-AllCodes : (s : String) → IsWord s → AllCodes IsPart s
IsWord-AllCodes String.[] h = absurd h
IsWord-AllCodes (String.◌∷◌ c s) (start, parts) = (inl start, parts)

module _ (candid : Candid) where
  hashed-IsWord : (n : ℕ) → IsWord ("_" <> (decimal n <> "_"))
  hashed-IsWord n = underscore-IsWord (decimal n <> "_") (
      AllCodes-append IsPart (decimal n) "_"
        (decimal-AllCodes IsPart (λ c low high. inr (low, high)) n) (inl (inr (inr refl)), tt))

  -- Every name of candid is written as a word: ASCII letters, digits and underscores, of which the
  -- first is no digit, and none of the words crate, self, super and Self. It is the name itself,
  -- and needs no renaming, if and only if the name is such a word.
  pub q_ident_lem :
      (name : String)
      → IsWord (q_ident candid name).0
        × (is_reserved (q_ident candid name).0 ≡ false)
        × (((q_ident candid name).1 ≡ false) ↔ (IsWord name × (is_reserved name ≡ false)))
        × ((q_ident candid name).1 ≡ false → (q_ident candid name).0 ≡ name)
  unfolding q_ident
  q_ident_lem name = elim (Bool-cases (is_empty name || (bad_start name || bad_char name))) [
    | inl bad ↦ rw bad (
      hashed-IsWord (candid.idl_hash name),
      underscore-is_reserved (decimal (candid.idl_hash name) <> "_"),
      (λ e. cc, λ h. sym bad ∙ (tests_iff name).1 h.0),
      λ e. cc,
    )
    | inr good ↦ rw good (elim (Bool-cases (is_reserved name)) [
      | inl word ↦ rw word (
        underscore-IsWord name (IsWord-AllCodes name ((tests_iff name).0 good)),
        underscore-is_reserved name,
        (λ e. cc, λ h. h.1),
        λ e. cc,
      )
      | inr free ↦ rw free (
        (tests_iff name).0 good,
        free,
        (λ e. ((tests_iff name).0 good, refl), λ h. refl),
        λ e. refl,
      )
    ])
  ]

-- ===== src/RcPrincipal/Traits.antt =====
-- The traits of an interned principal. Serialization is that of the candid crate's `Principal`.
use metamagic.Prelude.{
  ℕ, ◌≡◌, refl, ap, ◌∙◌, String, Option, some, List, Outcome, ok, err, panic, Eq,
}
use mathlib.Core.Option
use metamagic.RcPrincipal.{Memory, get, inner}
use metamagic.RcPrincipal.Interned.{IsInterned, get_lem}

module _ {P : Type 0} ⦃e : Eq P⦄ where
  -- `RcPrincipal::new`, and `From<Principal>` and `From<&Principal>`
  abbrev pub rc_new : P → Memory P → ℕ × Memory P
  rc_new p = get p

  -- `From<RcPrincipal> for Principal`, of a pointer that is still held
  abbrev pub from_rc : ℕ → Memory P → Option P
  from_rc address s = inner address s

  -- The pointer and the rest of the input, and the memory that is left.
  unfoldable pub rc_deserialize :
      (List ℕ → Outcome String (P × List ℕ))
      → List ℕ
      → Memory P
      → Outcome String (ℕ × List ℕ) × Memory P
  rc_deserialize principal input s = elim (principal input) [
    | ok (p, rest) ↦ let r = get p s in (ok (r.0, rest), r.1)
    | err message ↦ (err message, s)
    | panic ↦ (panic, s)
  ]

  unfoldable pub rc_serialize : (P → List ℕ) → ℕ → Memory P → Option (List ℕ)
  rc_serialize principal address s = Option.map principal (inner address s)

  rc_deserialize-read :
      (read : List ℕ → Outcome String (P × List ℕ)) (input rest : List ℕ) (p : P) (s : Memory P)
      → read input ≡ ok (p, rest)
      → rc_deserialize read input s ≡ (ok ((get p s).0, rest), (get p s).1)
  unfolding rc_deserialize
  rc_deserialize-read read input rest p s gives = rw (rc_deserialize, gives) refl

  -- What is read as a pointer is written as the principal that was read, the memory stays well
  -- formed, and reading the same principal again gives the same pointer.
  pub rc_serialize-rc_deserialize :
      (read : List ℕ → Outcome String (P × List ℕ)) (write : P → List ℕ) (input rest : List ℕ)
      (p : P) (s : Memory P)
      → IsInterned s
      → read input ≡ ok (p, rest)
      → (address : ℕ) × (s' : Memory P) × (rc_deserialize read input s ≡ (ok (address, rest), s'))
        × IsInterned s'
        × (rc_serialize write address s' ≡ some (write p))
        × (rc_deserialize read input s' ≡ (ok (address, rest), s'))
  unfolding rc_serialize
  rc_serialize-rc_deserialize read write input rest p s i gives =
      let (i', cell, _, again) = get_lem p s i in
      (
        (get p s).0,
        (get p s).1,
        rc_deserialize-read read input rest p s gives,
        i',
        ap (Option.map write) cell,
        rc_deserialize-read read input rest p (get p s).1 gives
            ∙ ap (λ r. (ok (r.0, rest), r.1)) again,
      )

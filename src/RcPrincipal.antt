-- ===== src/RcPrincipal.antt =====
-- crates/ic-rc-principal: principals that share their memory. A counted pointer is an address of a
-- heap; the thread local `MAP` holds the pointer that was made for a principal.
pub mod Interned
pub mod Traits
mod Tests
use metamagic.Prelude.{
  ℕ, zero, suc, ◌+◌, ◌≡◌, List, [], ◌∷◌, ◌++◌, length, get_elem?, Option, none, some, Eq, ◌==◌,
  if◌then◌else◌,
}
use metamagic.Prelude.HashMap.{HashMap, lookup, insert}

-- The heap's cells, and the map from a principal to the address of its cell.
pub record Memory (P : Type 0) : Type 0 where
  pub heap : List P
  pub map : HashMap P ℕ

-- `Principal` of the candid crate: up to 29 bytes, compared by them.
module _ {P : Type 0} ⦃e : Eq P⦄ where
  abbrev pub init : Memory P
  init = record { heap = []; map = [] }

  -- `RcPrincipal::get`, and `new`, `from` and `deserialize`, which call it: the address, and the
  -- memory that is left.
  unfoldable pub get : P → Memory P → ℕ × Memory P
  get p s = elim (lookup p s.map) [
    | some address ↦ (address, s)
    | none ↦
        (length s.heap, record { heap = s.heap ++ p ∷ []; map = insert p (length s.heap) s.map })
  ]

  -- `inner`, and the conversions back
  unfoldable pub inner : ℕ → Memory P → Option P
  inner address s = get_elem? s.heap address

  -- A sequence of calls, and the addresses that they gave.
  unfoldable pub get_all : List P → Memory P → List ℕ × Memory P
  get_all [] s = ([], s)
  get_all (p ∷ ps) s = let r = get p s in let rs = get_all ps r.1 in (r.0 ∷ rs.0, rs.1)

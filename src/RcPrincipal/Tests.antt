-- ===== src/RcPrincipal/Tests.antt =====
-- Principals, by numbers, that are interned.
use metamagic.Prelude.{ℕ, ◌≡◌, ◌↔◌, refl, List, [], ◌∷◌, get_elem?, some, nat_eq}
use metamagic.RcPrincipal.{get_all, get, init}
use metamagic.Prelude.HashMap.{lookup, insert}
use metamagic.RcPrincipal.Interned.{get_all_shared}

abbrev principals : List ℕ
principals = 5 ∷ 6 ∷ 5 ∷ []

get_all_shared_example : ◌≡◌ {A = ℕ} 5 5 ↔ ◌≡◌ {A = ℕ} 0 0
get_all_shared_example = get_all_shared principals 0 2 5 5 0 0 refl refl first last
  where
    first : get_elem? (get_all principals init).0 0 ≡ some 0
    first = unfold get_all get lookup insert nat_eq in refl

    last : get_elem? (get_all principals init).0 2 ≡ some 0
    last = unfold get_all get lookup insert nat_eq in refl

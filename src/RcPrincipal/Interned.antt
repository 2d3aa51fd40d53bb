-- ===== src/RcPrincipal/Interned.antt =====
-- One cell for a principal, whatever the order of the calls.
use mathlib.Core.Option.{some-injective}
use metamagic.Prelude.{
  ℕ, zero, suc, ◌-◌, ◌<◌, ◌≡◌, refl, ap, sym, ◌∙◌, arith, List, [], ◌∷◌, ◌++◌, length, get_elem?,
  get_elem?-append_left, get_elem?-append_right, none, some, Eq, ==_refl, Option-cases, inl, inr,
  Bool-cases, ltb, ltb→lt, ltb→le, subst, ◌↔◌,
}
use metamagic.Prelude.HashMap.{lookup, insert, lookup-insert}
use metamagic.RcPrincipal.{Memory, init, get, inner, get_all}

module _ {P : Type 0} ⦃e : Eq P⦄ where
  -- The map and the heap hold the same: a principal's address is that of its cell, and a cell is
  -- found by its principal.
  pub record IsInterned (s : Memory P) : Type 0 where
    pub found : (p : P) (a : ℕ) → lookup p s.map ≡ some a → get_elem? s.heap a ≡ some p
    pub kept : (p : P) (a : ℕ) → get_elem? s.heap a ≡ some p → lookup p s.map ≡ some a

  get_elem?-inside : (xs : List P) (a : ℕ) {p : P} → get_elem? xs a ≡ some p → a < length xs
  get_elem?-inside [] a h = cc
  get_elem?-inside (x ∷ xs) zero h = omega arith
  get_elem?-inside (x ∷ xs) (suc a) h = omega (arith, get_elem?-inside xs a h)

  pub init-IsInterned : IsInterned (init {P = P})
  init-IsInterned = record {
    found = λ p a h. absurd (unfold lookup in cc);
    kept = λ p a h. absurd cc;
  }

  new_cell : (p : P) (s : Memory P) → Memory P
  new_cell p s = record { heap = s.heap ++ p ∷ []; map = insert p (length s.heap) s.map }

  new_cell-get : (p : P) (s : Memory P) → get_elem? (s.heap ++ p ∷ []) (length s.heap) ≡ some p
  new_cell-get p s =
      let at : length s.heap - length s.heap ≡ 0 = omega arith in
      get_elem?-append_right s.heap (p ∷ []) (length s.heap) (omega arith)
      ∙ ap (get_elem? (p ∷ [])) at

  one_cell : (p q : P) (k : ℕ) → get_elem? (p ∷ []) k ≡ some q → (k ≡ 0) × (p ≡ q)
  one_cell p q zero h = (refl, some-injective _ _ h)
  one_cell p q (suc k) h = cc

  new_cell-IsInterned :
      (p : P) (s : Memory P) → IsInterned s → lookup p s.map ≡ none → IsInterned (new_cell p s)
  unfolding new_cell
  new_cell-IsInterned p s i fresh = record {
    found = λ q a h. elim (e.dec q p) [
      | yes same ↦
          let at : length s.heap ≡ a =
            some-injective _ _ (ground (arith, same, lookup-insert q p (length s.heap) s.map)) in
          subst (λ k. get_elem? (s.heap ++ p ∷ []) k ≡ some q) at
            (new_cell-get p s ∙ ap some (sym same))
      | no other ↦
          let old : get_elem? s.heap a ≡ some q =
            i.found q a (ground (arith, other, lookup-insert q p (length s.heap) s.map)) in
          get_elem?-append_left s.heap (p ∷ []) a (get_elem?-inside s.heap a old) ∙ old
    ];
    kept = λ q a h. elim (Bool-cases (ltb a (length s.heap))) [
      | inl old ↦
          let here : get_elem? s.heap a ≡ some q =
            sym (get_elem?-append_left s.heap (p ∷ []) a (ltb→lt _ _ old)) ∙ h in
          let held = i.kept q a here in
          elim (e.dec q p) [
            | yes same ↦ absurd (let clash = sym held ∙ ap (λ x. lookup x s.map) same ∙ fresh in cc)
            | no other ↦ ground (arith, other, held, lookup-insert q p (length s.heap) s.map)
          ]
      | inr new ↦
          let (at, same) =
            one_cell p q (a - length s.heap)
              (sym (get_elem?-append_right s.heap (p ∷ []) a (ltb→le _ _ new)) ∙ h) in
          let last : length s.heap ≡ a = omega (arith, ltb→le _ _ new) in
          ground (
            arith,
            same,
            ap (λ (n : ℕ). some n) last,
            ==_refl q,
            lookup-insert q p (length s.heap) s.map,
          )
    ];
  }

  -- What is known of a call's address and of the memory it leaves.
  record Gives (p : P) (s : Memory P) (r : ℕ × Memory P) : Type 0 where
    pub interned : IsInterned r.1
    pub cell : get_elem? r.1.heap r.0 ≡ some p
    pub stays : (q : P) (a : ℕ) → get_elem? s.heap a ≡ some q → get_elem? r.1.heap a ≡ some q
    pub address : lookup p r.1.map ≡ some r.0

  get-known : (p : P) (s : Memory P) (a : ℕ) → lookup p s.map ≡ some a → get p s ≡ (a, s)
  unfolding get
  get-known p s a h = rw (h, get)

  get-fresh :
      (p : P) (s : Memory P) → lookup p s.map ≡ none → get p s ≡ (length s.heap, new_cell p s)
  unfolding get new_cell
  get-fresh p s h = rw (h, get)

  get-Gives : (p : P) (s : Memory P) → IsInterned s → Gives p s (get p s)
  get-Gives p s i = elim (Option-cases (lookup p s.map)) [
    | inl fresh ↦
        let new = new_cell-IsInterned p s i fresh in
        let cell = new_cell-get p s in
        subst (Gives p s) (sym (get-fresh p s fresh)) (record {
          interned = new;
          cell = unfold new_cell in cell;
          stays = λ q a h.
              unfold new_cell in
              get_elem?-append_left s.heap (p ∷ []) a (get_elem?-inside s.heap a h) ∙ h;
          address = new.kept p (length s.heap) (unfold new_cell in cell);
        })
    | inr (a, known) ↦
        subst (Gives p s) (sym (get-known p s a known))
          (record { interned = i; cell = i.found p a known; stays = λ q b h. h; address = known })
  ]

  -- A call keeps the memory well formed and every cell where it is, and gives the address of the
  -- principal's cell, which a later call is given again.
  pub get_lem :
      (p : P) (s : Memory P)
      → IsInterned s
      → IsInterned (get p s).1
        × (inner (get p s).0 (get p s).1 ≡ some p)
        × ((q : P) (a : ℕ) → inner a s ≡ some q → inner a (get p s).1 ≡ some q)
        × (get p (get p s).1 ≡ get p s)
  unfolding inner
  get_lem p s i =
      let g = get-Gives p s i in
      (g.interned, g.cell, g.stays, get-known p (get p s).1 (get p s).0 g.address)

  pointwise :
      (p : P) (ps : List P) (a : ℕ) (bs : List ℕ) (R : P → ℕ → Type 0)
      → R p a
      → ((k : ℕ) (q : P) (b : ℕ) → get_elem? ps k ≡ some q → get_elem? bs k ≡ some b → R q b)
      → (k : ℕ) (q : P) (b : ℕ) → get_elem? (p ∷ ps) k ≡ some q
      → get_elem? (a ∷ bs) k ≡ some b
      → R q b
  pointwise p ps a bs R here there zero q b hq hb =
      subst (λ x. R x b) (some-injective _ _ hq) (subst (R p) (some-injective _ _ hb) here)
  pointwise p ps a bs R here there (suc k) q b hq hb = there k q b hq hb

  -- Every address that a sequence of calls gave is in the end that of its principal's cell.
  get_all_lem :
      (ps : List P) (s : Memory P)
      → IsInterned s
      → IsInterned (get_all ps s).1
        × ((q : P) (a : ℕ)
            → get_elem? s.heap a ≡ some q
            → get_elem? (get_all ps s).1.heap a ≡ some q)
        × ((k : ℕ) (p : P) (a : ℕ)
            → get_elem? ps k ≡ some p
            → get_elem? (get_all ps s).0 k ≡ some a
            → get_elem? (get_all ps s).1.heap a ≡ some p)
  unfolding get_all
  get_all_lem [] s i = (i, (λ q a h. h), λ k p a h h'. absurd cc)
  get_all_lem (p ∷ ps) s i =
      let g = get-Gives p s i in
      let (i', stays, gave) = get_all_lem ps (get p s).1 g.interned in
      (
        i',
        (λ q a h. stays q a (g.stays q a h)),
        pointwise p ps (get p s).0 (get_all ps (get p s).1).0
            (λ x a. get_elem? (get_all ps (get p s).1).1.heap a ≡ some x)
            (stays p (get p s).0 g.cell) gave,
      )

  -- Of all the pointers that any sequence of calls gives, two are the same if and only if their
  -- principals are.
  pub get_all_shared :
      (ps : List P) (j k : ℕ) (p q : P) (a b : ℕ)
      → get_elem? ps j ≡ some p
      → get_elem? ps k ≡ some q
      → get_elem? (get_all ps init).0 j ≡ some a
      → get_elem? (get_all ps init).0 k ≡ some b
      → (p ≡ q) ↔ (a ≡ b)
  get_all_shared ps j k p q a b hp hq ha hb =
      let (i, _, gave) = get_all_lem ps init init-IsInterned in
      let cp = gave j p a hp ha in
      let cq = gave k q b hq hb in
      (
        λ same.
            some-injective _ _ (
              sym (i.kept p a cp)
              ∙ ap (λ x. lookup x (get_all ps init).1.map) same
              ∙ i.kept q b cq),
        λ same. some-injective _ _ (sym cp ∙ ap (get_elem? (get_all ps init).1.heap) same ∙ cq),
      )

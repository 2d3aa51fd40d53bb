-- ===== src/CanisterConfig/Provision/Moves.antt =====
-- Where the instances go that provisioning takes: every instance is kept if there is a list of
-- provisioned ones, and is lost from the configuration if there is none.
use metamagic.Prelude.{
  ℕ, zero, suc, ◌+◌, ◌≤◌, ◌<◌, ◌≡◌, refl, ap, sym, ◌∙◌, arith, none, some, List, [], ◌∷◌, ◌++◌,
  length, length-append, append_assoc, ◌⊎◌, inl, inr, ok, err, ◌-◌, take, drop, take-append-drop,
  length-drop, ap₂, String,
}
use mathlib.Core.List.{append-nil}
use metamagic.CanisterConfig.Allocate.{new_canisters, allocate, next_canister, instance_name}
use metamagic.CanisterConfig.Allocate.Numbering.{next_canister_lem, length-new_canisters}
use metamagic.CanisterConfig.Schema.{CanisterInstance, CanisterNetwork}
use metamagic.CanisterConfig.Provision.{
  pop, not_enough, pop_all, append_provisioned, provision, finish,
}

-- The instances in the order in which they are popped.
abbrev pub backwards : List CanisterInstance → List CanisterInstance
backwards [] = []
backwards (i ∷ is) = backwards is ++ i ∷ []

pub length-backwards : (is : List CanisterInstance) → length (backwards is) ≡ length is
length-backwards [] = refl
length-backwards (i ∷ is) =
    omega (arith, length-append (backwards is) (i ∷ []), length-backwards is)

backwards-append :
    (xs ys : List CanisterInstance) → backwards (xs ++ ys) ≡ backwards ys ++ backwards xs
backwards-append [] ys = sym (append-nil (backwards ys))
backwards-append (x ∷ xs) ys =
    ap (λ t. t ++ x ∷ []) (backwards-append xs ys)
    ∙ append_assoc (backwards ys) (backwards xs) (x ∷ [])

backwards-backwards : (is : List CanisterInstance) → backwards (backwards is) ≡ is
backwards-backwards [] = refl
backwards-backwards (i ∷ is) =
    backwards-append (backwards is) (i ∷ []) ∙ ap (λ t. i ∷ t) (backwards-backwards is)

pop-snoc : (is : List CanisterInstance) (i : CanisterInstance) → pop (is ++ i ∷ []) ≡ some (i, is)
unfolding pop
pop-snoc [] i = refl
pop-snoc (j ∷ is) i = rw (pop-snoc is i)

pop_all-step :
    (k : ℕ) (taken is rest : List CanisterInstance) (i : CanisterInstance)
    → pop is ≡ some (i, rest)
    → pop_all (suc k) taken is ≡ pop_all k (taken ++ i ∷ []) rest
unfolding pop_all
pop_all-step k taken is rest i e = rw (e, pop_all)

pop_all_exact :
    (last taken rest : List CanisterInstance)
    → pop_all (length last) taken (rest ++ backwards last) ≡ (ok (taken ++ last), rest)
unfolding pop_all
pop_all_exact [] taken rest = ap₂ (λ t r. (ok t, r)) (sym (append-nil taken)) (append-nil rest)
pop_all_exact (i ∷ last) taken rest =
    let popped =
      ap pop (sym (append_assoc rest (backwards last) (i ∷ [])))
      ∙ pop-snoc (rest ++ backwards last) i in
    pop_all-step (length last) taken _ _ i popped
    ∙ pop_all_exact last (taken ++ i ∷ []) rest
    ∙ ap (λ t. (ok t, rest)) (append_assoc taken (i ∷ []) last)

-- As many instances are popped as asked for, from the end, and the others are left.
pop_all_enough :
    (k : ℕ) (is : List CanisterInstance)
    → k ≤ length is
    → (last rest : List CanisterInstance) × (pop_all k [] is ≡ (ok last, rest))
      × (length last ≡ k)
      × (rest ++ backwards last ≡ is)
pop_all_enough k is h =
    let rest = take (length is - k) is in
    let last = backwards (drop (length is - k) is) in
    let back : rest ++ backwards last ≡ is =
      ap (λ t. rest ++ t) (backwards-backwards (drop (length is - k) is))
      ∙ take-append-drop (length is - k) is in
    let many : length last ≡ k =
      omega (arith, length-backwards (drop (length is - k) is), length-drop (length is - k) is) in
    (
      last,
      rest,
      ap₂ (λ n t. pop_all n [] t) (sym many) (sym back) ∙ pop_all_exact last [] rest,
      many,
      back,
    )

-- The instances are those left with the popped one behind them.
Popped : List CanisterInstance → Type 0
Popped is =
    ((pop is ≡ none) × (is ≡ []))
    ⊎ ((i : CanisterInstance) × (rest : List CanisterInstance) × (pop is ≡ some (i, rest))
        × (is ≡ rest ++ i ∷ []))

pop-Popped : (is : List CanisterInstance) → Popped is
unfolding Popped pop
pop-Popped [] = inl (refl, refl)
pop-Popped (j ∷ is) = elim (pop-Popped is) [
  | inl (e, nil) ↦ inr (j, [], rw e, rw nil)
  | inr (i, rest, e, snoc) ↦ inr (i, j ∷ rest, rw e, rw snoc)
]

pop_all_short :
    (k : ℕ) (taken is : List CanisterInstance)
    → length is < k
    → pop_all k taken is ≡ (err not_enough, [])
unfolding pop_all Popped pop
pop_all_short zero taken is h = absurd (omega arith)
pop_all_short (suc k) taken is h = elim (pop-Popped is) [
  | inl (e, nil) ↦ ap (λ t. pop_all (suc k) taken t) nil
  | inr (i, rest, e, snoc) ↦
      pop_all-step k taken is rest i e
      ∙ pop_all_short k (taken ++ i ∷ []) rest
          (omega (arith, ap length snoc, length-append rest (i ∷ [])))
]

-- With enough instances and a list of provisioned ones, as many as asked for are moved from the end
-- of the available instances behind the provisioned ones, in the order they are popped, and no
-- instance is lost.
pub provision_moves :
    (count : ℕ) (available ps : List CanisterInstance) (n : CanisterNetwork)
    → n.provisioned_instances ≡ some ps
    → count ≤ length available
    → (taken rest : List CanisterInstance) × (length taken ≡ count)
      × (rest ++ backwards taken ≡ available)
      × (provision count available n ≡ (
        ok taken,
        record n { available_instances = some rest; provisioned_instances = some (ps ++ taken) },
      ))
unfolding provision finish
provision_moves count available ps n prov h =
    let (last, rest, pops, many, back) = pop_all_enough count available h in
    (
      last,
      rest,
      many,
      back,
      ap (finish n) pops
          ∙ ap
              (λ t. (
                ok last,
                record n {
                  available_instances = some rest;
                  provisioned_instances = append_provisioned t last;
                },
              ))
              prov,
    )

-- With too few available instances there is an error, and the available instances are gone from the
-- network all the same: what was popped is not put back.
pub provision_short :
    (count : ℕ) (available : List CanisterInstance) (n : CanisterNetwork)
    → length available < count
    → provision count available n ≡ (err not_enough, record n { available_instances = some [] })
unfolding provision finish
provision_short count available n h = ap (finish n) (pop_all_short count [] available h)

new_canisters-+ :
    (c : String) (a b next : ℕ)
    → new_canisters c (a + b) next ≡ new_canisters c a next ++ new_canisters c b (next + a)
unfolding new_canisters
new_canisters-+ c zero b next =
    ap₂ (λ m l. new_canisters c m l) (let e : 0 + b ≡ b = omega arith in e)
      (let e : next ≡ next + 0 = omega arith in e)
new_canisters-+ c (suc a) b next =
    ap (λ m. new_canisters c m next) (let e : suc a + b ≡ suc (a + b) = omega arith in e)
    ∙ ap (λ t. record { name = instance_name c next; id = none } ∷ t)
        (new_canisters-+ c a b (next + 1)
          ∙ ap (λ l. new_canisters c a (next + 1) ++ new_canisters c b l)
              (let e : next + 1 + a ≡ next + suc a = omega arith in e))

-- In a network with no list of provisioned instances, whose available ones are fresh ones, numbered
-- from 1 and without ids, the instances that are provisioned are in neither list of the network
-- that is left, and they are those that its next allocation makes, in the opposite order.
pub provision_reissues :
    (c : String) (left count : ℕ) (n : CanisterNetwork)
    → n.provisioned_instances ≡ none
    → let n' = record n {
      available_instances = some (new_canisters c left 1);
      provisioned_instances = none;
    } in
      provision count (new_canisters c (left + count) 1) n
      ≡ (ok (backwards (allocate c count n').0), n')
unfolding provision finish allocate
provision_reissues c left count n prov =
    let old = new_canisters c left 1 in
    let last = new_canisters c count (1 + left) in
    let n' = record n { available_instances = some old; provisioned_instances = none } in
    let many : length (backwards last) ≡ count =
      length-backwards last ∙ length-new_canisters c count (1 + left) in
    let pops : pop_all count [] (new_canisters c (left + count) 1) ≡ (ok (backwards last), old) =
      ap₂ (λ k t. pop_all k [] t) (sym many)
        (new_canisters-+ c left count 1 ∙ ap (λ t. old ++ t) (sym (backwards-backwards last)))
      ∙ pop_all_exact (backwards last) [] old in
    let done : provision count (new_canisters c (left + count) 1) n ≡ (ok (backwards last), n') =
      ap (finish n) pops
      ∙ ap
          (λ t. (
            ok (backwards last),
            record n {
              available_instances = some old;
              provisioned_instances = append_provisioned t (backwards last);
            },
          ))
          prov in
    let next : next_canister n' ≡ 1 + left =
      omega (arith, next_canister_lem n', length-new_canisters c left 1) in
    done ∙ ap (λ k. (ok (backwards (new_canisters c count k)), n')) (sym next)

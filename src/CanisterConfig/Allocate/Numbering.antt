-- ===== src/CanisterConfig/Allocate/Numbering.antt =====
-- The numbers in the names of instances, and that no name is given twice.
use metamagic.Prelude.{
  ℕ, zero, suc, ◌+◌, ◌≤◌, ◌<◌, String, ◌≡◌, ◌≢◌, refl, ap, sym, ◌∙◌, arith, List, [], ◌∷◌, ◌++◌,
  length, length-append, append_assoc, All, All-append, All-imp, subst,
}
use metamagic.Prelude.Decimal.{decimal_injective}
use text.Mathlib.TextLemmas.{append_cancel_left}
use metamagic.CanisterConfig.Schema.{CanisterInstance, CanisterNetwork, name_delimiter}
use metamagic.CanisterConfig.Query.{or_nil, instances_of}
use metamagic.CanisterConfig.Allocate.{instance_name, next_canister, new_canisters, allocate}

pub instance_name_injective : (c : String) (m n : ℕ) → instance_name c m ≡ instance_name c n → m ≡ n
unfolding instance_name
instance_name_injective c m n e =
    decimal_injective m n (append_cancel_left name_delimiter _ _ (append_cancel_left c _ _ e))

-- No two instances have one name.
abbrev pub NodupNames : List CanisterInstance → Type 0
NodupNames [] = Unit
NodupNames (i ∷ is) = All (λ j. j.name ≢ i.name) is × NodupNames is

-- The instances of a network have different names, and none has a number above how many there are.
pub record IsNumbered (c : String) (is : List CanisterInstance) : Type 0 where
  pub distinct : NodupNames is
  pub bounded : All (λ i. (n : ℕ) → i.name ≡ instance_name c n → n ≤ length is) is

-- The instance is named for a number from `lo` on and below `hi`.
abbrev NamedIn : String → ℕ → ℕ → CanisterInstance → Type 0
NamedIn c lo hi i = (n : ℕ) × (lo ≤ n) × (n < hi) × (i.name ≡ instance_name c n)

pub next_canister_lem : (n : CanisterNetwork) → next_canister n ≡ length (instances_of n) + 1
unfolding next_canister
next_canister_lem n =
    ground (arith, length-append (or_nil n.provisioned_instances) (or_nil n.available_instances))

pub length-new_canisters : (c : String) (k next : ℕ) → length (new_canisters c k next) ≡ k
unfolding new_canisters
length-new_canisters c zero next = refl
length-new_canisters c (suc k) next = ap suc (length-new_canisters c k (next + 1))

new_canisters-NamedIn :
    (c : String) (k next : ℕ) → All (NamedIn c next (next + k)) (new_canisters c k next)
unfolding new_canisters
new_canisters-NamedIn c zero next = tt
new_canisters-NamedIn c (suc k) next = (
  (next, omega arith, omega arith, refl),
  All-imp (NamedIn c (next + 1) (next + 1 + k)) (NamedIn c next (next + suc k))
      (λ i (n, lo, hi, e). (n, omega arith, omega arith, e)) _
      (new_canisters-NamedIn c k (next + 1)),
)

new_canisters-NodupNames : (c : String) (k next : ℕ) → NodupNames (new_canisters c k next)
unfolding new_canisters
new_canisters-NodupNames c zero next = tt
new_canisters-NodupNames c (suc k) next = (
  All-imp (NamedIn c (next + 1) (next + 1 + k)) (λ j. j.name ≢ instance_name c next)
      (λ i (n, lo, hi, e) same.
        absurd (omega (arith, instance_name_injective c n next (sym e ∙ same))))
      _ (new_canisters-NamedIn c k (next + 1)),
  new_canisters-NodupNames c k (next + 1),
)

NodupNames-append :
    (xs ys : List CanisterInstance)
    → NodupNames xs
    → NodupNames ys
    → All (λ i. All (λ j. j.name ≢ i.name) ys) xs
    → NodupNames (xs ++ ys)
NodupNames-append [] ys dx dy apart = dy
NodupNames-append (x ∷ xs) ys (fx, dx) dy (ax, apart) =
    (All-append (λ j. j.name ≢ x.name) xs ys fx ax, NodupNames-append xs ys dx dy apart)

-- Names above the numbers of a numbered list are not in it.
above_apart :
    (c : String) (m k : ℕ) (is news : List CanisterInstance)
    → All (λ i. (n : ℕ) → i.name ≡ instance_name c n → n ≤ m) is
    → All (NamedIn c (m + 1) k) news
    → All (λ i. All (λ j. j.name ≢ i.name) news) is
above_apart c m k [] news b above = tt
above_apart c m k (i ∷ is) news (bi, b) above = (
  All-imp (NamedIn c (m + 1) k) (λ j. j.name ≢ i.name)
      (λ j (n, lo, hi, e) same. absurd (omega (arith, bi n (sym same ∙ e)))) news above,
  above_apart c m k is news b above,
)

-- New instances put behind a numbered list keep it numbered.
IsNumbered-append :
    (c : String) (k : ℕ) (is : List CanisterInstance)
    → IsNumbered c is
    → IsNumbered c (is ++ new_canisters c k (length is + 1))
IsNumbered-append c k is num =
    let news = new_canisters c k (length is + 1) in
    let named = new_canisters-NamedIn c k (length is + 1) in
    let all = length-append is news in
    let many = length-new_canisters c k (length is + 1) in
    record {
      distinct =
          NodupNames-append is news num.distinct (new_canisters-NodupNames c k (length is + 1))
            (above_apart c (length is) _ is news num.bounded named);
      bounded =
          All-append _ is news
            (All-imp _ _ (λ i b n e. let le = b n e in omega (arith, le, all)) is num.bounded)
            (All-imp (NamedIn c (length is + 1) (length is + 1 + k)) _
              (λ i (m, lo, hi, e) n e'.
                omega (arith, all, many, instance_name_injective c n m (sym e' ∙ e)))
              news named);
    }

-- Instances are allocated as many as are asked for, behind those of the network, and a network
-- whose instances are numbered stays so: no name is given twice.
pub allocate_lem :
    (c : String) (count : ℕ) (n : CanisterNetwork)
    → IsNumbered c (instances_of n)
    → (length (allocate c count n).0 ≡ count)
      × (instances_of (allocate c count n).1 ≡ instances_of n ++ (allocate c count n).0)
      × IsNumbered c (instances_of (allocate c count n).1)
unfolding allocate
allocate_lem c count n num =
    let same = sym (
      append_assoc (or_nil n.provisioned_instances) (or_nil n.available_instances)
        (new_canisters c count (next_canister n))) in
    let kept =
      subst (λ next. IsNumbered c (instances_of n ++ new_canisters c count next))
        (sym (next_canister_lem n)) (IsNumbered-append c count (instances_of n) num) in
    (length-new_canisters c count (next_canister n), same, subst (IsNumbered c) (sym same) kept)

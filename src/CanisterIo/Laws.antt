-- ===== src/CanisterIo/Laws.antt =====
-- What a device holds after writes.
use metamagic.Prelude.{
  ℕ, zero, suc, ◌+◌, ◌≤◌, ◌≡◌, refl, ap, sym, ◌∙◌, arith, List, [], ◌∷◌, ◌++◌, length, take, drop,
  take-append, drop-append, some,
}
use metamagic.CanisterIo.{Device, front, splice, write_all}

module _ {A : Type 0} where
  pub drop-nil : (n : ℕ) → drop {A = A} n [] ≡ []
  drop-nil zero = refl
  drop-nil (suc n) = refl

  pub drop-drop : (a b : ℕ) (xs : List A) → drop b (drop a xs) ≡ drop (a + b) xs
  drop-drop zero b xs = let e : b ≡ 0 + b = omega arith in ap (λ n. drop n xs) e
  drop-drop (suc a) b [] = drop-nil b ∙ sym (drop-nil (suc a + b))
  drop-drop (suc a) b (x ∷ xs) =
      let e : suc (a + b) ≡ suc a + b = omega arith in
      drop-drop a b xs ∙ ap (λ n. drop n (x ∷ xs)) e

pub length-front : (p : ℕ) (xs : List ℕ) → length (front p xs) ≡ p
length-front zero xs = refl
length-front (suc p) [] = ap suc (length-front p [])
length-front (suc p) (x ∷ xs) = ap suc (length-front p xs)

front-front : (p q : ℕ) (xs ys : List ℕ) → p ≤ q → front p (front q xs ++ ys) ≡ front p xs
front-front zero q xs ys h = refl
front-front (suc p) zero xs ys h = absurd (omega arith)
front-front (suc p) (suc q) [] ys h = ap (λ t. 0 ∷ t) (front-front p q [] ys (omega arith))
front-front (suc p) (suc q) (x ∷ xs) ys h = ap (λ t. x ∷ t) (front-front p q xs ys (omega arith))

-- A write from `q` on does not reach the places before it.
pub front-splice : (p q : ℕ) (xs bs : List ℕ) → p ≤ q → front p (splice xs q bs) ≡ front p xs
unfolding splice
front-splice p q xs bs h = front-front p q xs (bs ++ drop (q + length bs) xs) h

-- Before the place of a write nothing changes but that a gap is filled with zeros.
pub take-splice : (xs : List ℕ) (p : ℕ) (bs : List ℕ) → take p (splice xs p bs) ≡ front p xs
unfolding splice
take-splice xs p bs = take-append (front p xs) _ p (sym (length-front p xs))

-- From the place of a write on the device holds what was written, and then what it held there.
pub drop-splice :
    (xs : List ℕ) (p : ℕ) (bs : List ℕ) → drop p (splice xs p bs) ≡ bs ++ drop (p + length bs) xs
unfolding splice
drop-splice xs p bs = drop-append (front p xs) _ p (sym (length-front p xs))

pub drop-splice_behind :
    (xs : List ℕ) (p : ℕ) (bs : List ℕ)
    → drop (p + length bs) (splice xs p bs) ≡ drop (p + length bs) xs
drop-splice_behind xs p bs =
    sym (drop-drop p (length bs) (splice xs p bs))
    ∙ ap (drop (length bs)) (drop-splice xs p bs)
    ∙ drop-append bs _ (length bs) refl

pub write_all-ok :
    (bs : List ℕ) (d : Device)
    → d.position + length bs ≤ d.room
    → write_all bs d
      ≡ some (record d { bytes = splice d.bytes d.position bs; position = d.position + length bs })
unfolding write_all
write_all-ok bs d h = ground arith

-- ===== src/Prelude/Decimal/Digits.antt =====
-- The characters of a decimal print.
use Prim.Native.Char.{code}
use text.Mathlib.TextLemmas.{cons-append, nil-append}
use metamagic.Prelude.{
  ℕ, zero, suc, ◌/◌, ◌%◌, ◌≤◌, String, ◌<>◌, sym, subst, arith, ltb, Bool-cases, inl, inr,
}
use metamagic.Prelude.Decimal.{digit, digits, decimal}

-- A predicate on the code points of a text.
abbrev pub AllCodes : (ℕ → Type 0) → String → Type 0
AllCodes P String.[] = Unit
AllCodes P (String.◌∷◌ c s) = P (code c) × AllCodes P s

module _ (P : ℕ → Type 0) where
  pub AllCodes-append : (s t : String) → AllCodes P s → AllCodes P t → AllCodes P (s <> t)
  AllCodes-append String.[] t hs ht = subst (AllCodes P) (sym (nil-append t)) ht
  AllCodes-append (String.◌∷◌ c s) t (h, hs) ht =
      subst (AllCodes P) (sym (cons-append c s t)) (h, AllCodes-append s t hs ht)

  module _ (every : (c : ℕ) → 48 ≤ c → c ≤ 57 → P c) where
    digit-AllCodes : (d : ℕ) → AllCodes P (digit d)
    unfolding digit
    digit-AllCodes zero = (every 48 (omega arith) (omega arith), tt)
    digit-AllCodes (suc zero) = (every 49 (omega arith) (omega arith), tt)
    digit-AllCodes (suc (suc zero)) = (every 50 (omega arith) (omega arith), tt)
    digit-AllCodes (suc (suc (suc zero))) = (every 51 (omega arith) (omega arith), tt)
    digit-AllCodes (suc (suc (suc (suc zero)))) = (every 52 (omega arith) (omega arith), tt)
    digit-AllCodes (suc (suc (suc (suc (suc zero))))) = (every 53 (omega arith) (omega arith), tt)
    digit-AllCodes (suc (suc (suc (suc (suc (suc zero)))))) =
        (every 54 (omega arith) (omega arith), tt)
    digit-AllCodes (suc (suc (suc (suc (suc (suc (suc zero))))))) =
        (every 55 (omega arith) (omega arith), tt)
    digit-AllCodes (suc (suc (suc (suc (suc (suc (suc (suc zero)))))))) =
        (every 56 (omega arith) (omega arith), tt)
    digit-AllCodes (suc (suc (suc (suc (suc (suc (suc (suc (suc d))))))))) =
        (every 57 (omega arith) (omega arith), tt)

    digits-AllCodes : (f n : ℕ) → AllCodes P (digits f n)
    unfolding digits
    digits-AllCodes zero n = tt
    digits-AllCodes (suc f) n = elim (Bool-cases (ltb n 10)) [
      | inl small ↦ rw small (digit-AllCodes n)
      | inr large ↦ rw large (
          AllCodes-append (digits f (n / 10)) (digit (n % 10)) (digits-AllCodes f (n / 10))
            (digit-AllCodes (n % 10)))
    ]

    -- A decimal print has digits only.
    pub decimal-AllCodes : (n : ℕ) → AllCodes P (decimal n)
    unfolding decimal
    decimal-AllCodes n = digits-AllCodes (suc n) n

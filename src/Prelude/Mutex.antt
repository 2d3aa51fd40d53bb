-- ===== src/Prelude/Mutex.antt =====
-- `std::sync::Mutex`, as the code uses it: `lock().expect(..)`, and a guard that is held to the
-- end.
use metamagic.Prelude.{◌≡◌, refl, arith, Bool, true, false, if◌then◌else◌, Outcome, ok, err, panic}

-- A thread that panics with the guard poisons the mutex.
pub record Mutex {ℓ} (S : Type ℓ) : Type ℓ where
  pub inner : S
  pub poisoned : Bool

abbrev pub mutex_new {ℓ} : {S : Type ℓ} → S → Mutex S
mutex_new s = record { inner = s; poisoned = false }

unfoldable pub is_panic {ℓ κ} : {E : Type ℓ} → {R : Type κ} → Outcome E R → Bool
is_panic panic = true
is_panic (ok _) = false
is_panic (err _) = false

module _ {E R S : Type 0} where
  -- What is done with the guard of a mutex that may be poisoned.
  unfoldable pub locked : (S → Outcome E R × S) → Mutex S → Outcome E R × Mutex S
  locked act m =
      if m.poisoned
      then (panic, m)
      else (let r = act m.inner in (r.0, record { inner = r.1; poisoned = is_panic r.0 }))

  -- A poisoned mutex stays as it is, and whoever locks it panics.
  pub locked-poisoned :
      (act : S → Outcome E R × S) (m : Mutex S) → m.poisoned ≡ true → locked act m ≡ (panic, m)
  unfolding locked
  locked-poisoned act m h = rw h refl

  -- A panic under the lock leaves it poisoned.
  pub locked-panic :
      (act : S → Outcome E R × S) (m : Mutex S)
      → (locked act m).0 ≡ panic
      → (locked act m).1.poisoned ≡ true
  unfolding locked is_panic
  locked-panic act m h = ground arith

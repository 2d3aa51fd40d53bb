-- ===== src/CanisterAgent/AgentImpl/Embedded.antt =====
-- The embedded canister as an agent.
use metamagic.Prelude.{
  ◌≡◌, refl, ap, sym, String, true, List, Outcome, ok, err, panic, Option-cases, inl, inr,
  ok-injective, string_eq, subst, ℕ, ◌∙◌, ◌⊎◌,
}
use metamagic.Prelude.Mutex.{Mutex, locked, locked-panic}
use metamagic.Prelude.HashMap.{lookup}
use metamagic.Canister.{primary}
use metamagic.Canister.Embedded.{
  Agent, context, clone_with_identity, update, query, no_update, no_query,
}
use metamagic.CanisterAgent.AgentImpl.{AgentImpl, IsRefused, IsLawful, locked-IsRefused}

-- An error before the lock is no panic, and leaves the state alone.
module _ {W : Type 0} (message : String) (w : W) where
  abbrev refusal : Outcome String (List ℕ) × W
  refusal = (err message, w)

  refusal-IsRefused : IsRefused w refusal
  refusal-IsRefused = record { fails = λ reply e. absurd cc; stays = refl }

module _ {P State : Type 0} (show : P → String) where
  abbrev pub embedded : AgentImpl (Agent P State) (Mutex State) P
  embedded = record {
    update = update show;
    query = query show;
    read_state_canister_info = λ agent canister_id prop world. (panic, world);
    clone_with_identity = clone_with_identity;
    get_principal = λ agent. ok agent.caller;
  }

  -- A call is refused before the lock, or runs under it.
  update-cases :
      (a : Agent P State) (c : P) (method : String) (args : List ℕ) (w : Mutex State)
      → (update show a c method args w ≡ refusal (no_update show c method) w)
        ⊎ ((act : State → Outcome String (List ℕ) × State) × (update show a c method args w
              ≡ locked act w))
  unfolding update
  update-cases a c method args w = elim (Option-cases (lookup method a.canister.update_methods)) [
    | inl missing ↦ inl (rw (update, missing) refl)
    | inr (f, found) ↦ inr ((λ s. f (context a s) args primary), rw (update, found) refl)
  ]

  query-cases :
      (a : Agent P State) (c : P) (method : String) (args : List ℕ) (w : Mutex State)
      → (query show a c method args w ≡ refusal (no_query show c method) w)
        ⊎ ((act : State → Outcome String (List ℕ) × State) × (query show a c method args w
              ≡ locked act w))
  unfolding query
  query-cases a c method args w = elim (Option-cases (lookup method a.canister.query_methods)) [
    | inl missing ↦ inl (rw (query, missing) refl)
    | inr (f, found) ↦ inr ((λ s. (f (context a s) args, s)), rw (query, found) refl)
  ]

  poisons :
      (message : String) (w : Mutex State) (r : Outcome String (List ℕ) × Mutex State)
      → (r ≡ refusal message w)
        ⊎ ((act : State → Outcome String (List ℕ) × State) × (r ≡ locked act w))
      → r.0 ≡ panic
      → r.1.poisoned ≡ true
  poisons message w r (inl e) h = absurd (let clash = sym (ap (λ x. x.0) e) ∙ h in cc)
  poisons message w r (inr (act, e)) h =
      ap (λ x. x.1.poisoned) e ∙ locked-panic act w (sym (ap (λ x. x.0) e) ∙ h)

  refused :
      (message : String) (w : Mutex State) (r : Outcome String (List ℕ) × Mutex State)
      → (r ≡ refusal message w)
        ⊎ ((act : State → Outcome String (List ℕ) × State) × (r ≡ locked act w))
      → w.poisoned ≡ true
      → IsRefused w r
  refused message w r (inl e) h = subst (IsRefused w) (sym e) (refusal-IsRefused message w)
  refused message w r (inr (act, e)) h = subst (IsRefused w) (sym e) (locked-IsRefused act w h)

  pub embedded-IsLawful : IsLawful embedded (λ m. m.poisoned ≡ true)
  unfolding clone_with_identity
  embedded-IsLawful = record {
    clones = λ a p. (record a { caller = p }, refl);
    principal = λ a b p e. ap (λ x. ok x.caller) (sym (ok-injective e));
    last_counts = λ a b p sender e. ap (λ x. clone_with_identity x sender) (sym (ok-injective e));
    no_sender = λ a e. refl;
    sender_panics = λ a. refl;
    update_poisons = λ a c method args w. poisons _ w _ (update-cases a c method args w);
    query_poisons = λ a c method args w. poisons _ w _ (query-cases a c method args w);
    update_refused = λ a c method args w. refused _ w _ (update-cases a c method args w);
    query_refused = λ a c method args w. refused _ w _ (query-cases a c method args w);
  }

-- ===== src/CanisterAgent/Client/Session.antt =====
-- Sessions of a client: what it means to change its identity, and what a panic leaves.
use metamagic.Prelude.{
  ℕ, ◌≡◌, ◌≢◌, refl, sym, ap, ◌∙◌, String, Option, none, some, List, [], ◌∷◌, Outcome, ok, err,
  panic, ok-injective, All, subst, ◌⊎◌, inl, inr,
}
use metamagic.CanisterAgent.AgentImpl.{AgentImpl, IsRefused, IsLawful}
use metamagic.CanisterAgent.Target.{CanisterAgent}
use metamagic.CanisterAgent.Client.{Reply, update, query, clone_with_identity, set_identity}

-- A reply that is an error or a panic.
abbrev pub Fails : Reply → Type 0
Fails r = (reply : List ℕ) → r ≢ ok reply

-- What a program does with a client.
pub data Action (P : Type 0) : Type 0 where
  become : Outcome String P → Action P
  to_update to_query : String → List ℕ → Action P

module _ {Agent World P : Type 0} (impl : AgentImpl Agent World P) where
  -- The replies to its calls, and the world that they leave.
  unfoldable pub session : CanisterAgent Agent P → List (Action P) → World → List Reply × World
  session client [] world = ([], world)
  session client (become sender ∷ actions) world =
      session (set_identity impl client sender).1 actions world
  session client (to_update method args ∷ actions) world =
      let r = update impl client method args world in
      let rest = session client actions r.1 in (r.0 ∷ rest.0, rest.1)
  session client (to_query method args ∷ actions) world =
      let r = query impl client method args world in
      let rest = session client actions r.1 in (r.0 ∷ rest.0, rest.1)

  -- A call by a new clone of a client, for a principal if there is one.
  abbrev pub by_clone :
      (CanisterAgent Agent P → World → Reply × World)
      → CanisterAgent Agent P
      → Option P
      → World
      → Reply × World
  by_clone call client none world = call client world
  by_clone call client (some p) world = elim (clone_with_identity impl client (ok p)) [
    | ok clone ↦ call clone world
    | err e ↦ (err e, world)
    | panic ↦ (panic, world)
  ]

  abbrev pub latest : Option P → Outcome String P → Option P
  latest current (ok p) = some p
  latest current (err e) = current
  latest current panic = current

  -- The same actions with no client that changes: each call by a new clone of the first client.
  abbrev pub by_clones :
      CanisterAgent Agent P → Option P → List (Action P) → World → List Reply × World
  by_clones client current [] world = ([], world)
  by_clones client current (become sender ∷ actions) world =
      by_clones client (latest current sender) actions world
  by_clones client current (to_update method args ∷ actions) world =
      let r = by_clone (λ c. update impl c method args) client current world in
      let rest = by_clones client current actions r.1 in (r.0 ∷ rest.0, rest.1)
  by_clones client current (to_query method args ∷ actions) world =
      let r = by_clone (λ c. query impl c method args) client current world in
      let rest = by_clones client current actions r.1 in (r.0 ∷ rest.0, rest.1)

  module _ {IsPoisoned : World → Type 0} (lawful : IsLawful impl IsPoisoned)
      (first : CanisterAgent Agent P) where
    -- The client is the first one, or a clone of it for the current principal.
    IsCurrent : Option P → CanisterAgent Agent P → Type 0
    IsCurrent none now = now ≡ first
    IsCurrent (some p) now = clone_with_identity impl first (ok p) ≡ ok now

    by_clone-current :
        (call : CanisterAgent Agent P → World → Reply × World) (current : Option P)
        (now : CanisterAgent Agent P) (world : World)
        → IsCurrent current now
        → by_clone call first current world ≡ call now world
    unfolding IsCurrent
    by_clone-current call none now world e = ap (λ c. call c world) (sym e)
    by_clone-current call (some p) now world e = rw (by_clone, e) refl

    set_agent : Agent → CanisterAgent Agent P
    set_agent b = record first { agent = b }

    of_clone :
        (p : P) (b : Agent)
        → impl.clone_with_identity first.agent (ok p) ≡ ok b
        → clone_with_identity impl first (ok p) ≡ ok (set_agent b)
    unfolding clone_with_identity set_agent
    of_clone p b e = rw e refl

    -- The agent that is current makes the same clones as the first.
    same_clones :
        (current : Option P) (now : CanisterAgent Agent P) (sender : Outcome String P)
        → IsCurrent current now
        → (impl.clone_with_identity now.agent sender ≡ impl.clone_with_identity first.agent sender)
          × (now.canister_id ≡ first.canister_id)
    unfolding IsCurrent set_agent
    same_clones none now sender e =
        (ap (λ c. impl.clone_with_identity c.agent sender) e, ap (λ c. c.canister_id) e)
    same_clones (some p) now sender e =
        let (b, cloned) = lawful.clones first.agent p in
        let at : now ≡ set_agent b = ok-injective (sym e ∙ of_clone p b cloned) in
        (
          ap (λ c. impl.clone_with_identity c.agent sender) at
              ∙ lawful.last_counts first.agent b p sender cloned,
          ap (λ c. c.canister_id) at,
        )

    set_identity-IsCurrent :
        (current : Option P) (now : CanisterAgent Agent P) (sender : Outcome String P)
        → IsCurrent current now
        → IsCurrent (latest current sender) (set_identity impl now sender).1
    unfolding IsCurrent set_identity set_agent
    set_identity-IsCurrent current now (ok p) e =
        let (b, cloned) = lawful.clones first.agent p in
        let (same, id) = same_clones current now (ok p) e in
        rw (set_identity, same, cloned)
          (of_clone p b cloned ∙ ap (λ k. ok (record (set_agent b) { canister_id = k })) (sym id))
    set_identity-IsCurrent current now (err m) e = rw (set_identity, lawful.no_sender now.agent m) e
    set_identity-IsCurrent current now panic e = rw (set_identity, lawful.sender_panics now.agent) e

    session-current :
        (current : Option P) (now : CanisterAgent Agent P) (actions : List (Action P))
        (world : World)
        → IsCurrent current now
        → session now actions world ≡ by_clones first current actions world
    unfolding session
    session-current current now [] world e = refl
    session-current current now (become sender ∷ actions) world e =
        session-current (latest current sender) (set_identity impl now sender).1 actions world
          (set_identity-IsCurrent current now sender e)
    session-current current now (to_update method args ∷ actions) world e =
        rw (by_clone-current (λ c. update impl c method args) current now world e) (
          ap (λ rest. ((update impl now method args world).0 ∷ rest.0, rest.1))
            (session-current current now actions (update impl now method args world).1 e))
    session-current current now (to_query method args ∷ actions) world e =
        rw (by_clone-current (λ c. query impl c method args) current now world e) (
          ap (λ rest. ((query impl now method args world).0 ∷ rest.0, rest.1))
            (session-current current now actions (query impl now method args world).1 e))

    -- Over any lawful agent, a session with a client that changes its identity as it goes gives the
    -- replies and leaves the world of the same calls made by clones of the first client, each for
    -- the last principal that was set; identities with no principal change nothing.
    pub session_lem :
        (actions : List (Action P)) (world : World)
        → session first actions world ≡ by_clones first none actions world
    session_lem actions world = session-current none first actions world (unfold IsCurrent in refl)

  module _ {IsPoisoned : World → Type 0} (lawful : IsLawful impl IsPoisoned) where
    Refused : World → List Reply × World → Type 0
    Refused world r = All Fails r.0 × (r.1 ≡ world)

    cons-Refused :
        (world : World) (r : Reply × World) (next : World → List Reply × World)
        → IsRefused world r
        → Refused world (next world)
        → Refused world (r.0 ∷ (next r.1).0, (next r.1).1)
    unfolding Refused
    cons-Refused world r next refused rest = (
      (refused.fails, subst (λ w. All Fails (next w).0) (sym refused.stays) rest.0),
      ap (λ w. (next w).1) refused.stays ∙ rest.1,
    )

    -- In a poisoned world no call of a session succeeds, and the world stays as it is.
    session-Refused :
        (client : CanisterAgent Agent P) (actions : List (Action P)) (world : World)
        → IsPoisoned world
        → Refused world (session client actions world)
    unfolding session update query
    session-Refused client [] world h = unfold Refused in (tt, refl)
    session-Refused client (become sender ∷ actions) world h =
        session-Refused (set_identity impl client sender).1 actions world h
    session-Refused client (to_update method args ∷ actions) world h =
        cons-Refused world (impl.update client.agent client.canister_id method args world)
          (session client actions)
          (lawful.update_refused client.agent client.canister_id method args world h)
          (session-Refused client actions world h)
    session-Refused client (to_query method args ∷ actions) world h =
        cons-Refused world (impl.query client.agent client.canister_id method args world)
          (session client actions)
          (lawful.query_refused client.agent client.canister_id method args world h)
          (session-Refused client actions world h)

    pub session_after_panic :
        (client other : CanisterAgent Agent P) (method : String) (args : List ℕ)
        (actions : List (Action P)) (world : World) (r : Reply × World)
        → (r ≡ update impl client method args world) ⊎ (r ≡ query impl client method args world)
        → r.0 ≡ panic
        → All Fails (session other actions r.1).0 × ((session other actions r.1).1 ≡ r.1)
    unfolding update query Refused
    session_after_panic client other method args actions world r call h =
        session-Refused other actions r.1 (poisoned call)
      where
        poisoned :
            (r ≡ update impl client method args world) ⊎ (r ≡ query impl client method args world)
            → IsPoisoned r.1
        poisoned (inl e) =
            subst (λ x. IsPoisoned x.1) (sym e)
              (lawful.update_poisons client.agent client.canister_id method args world
                (sym (ap (λ x. x.0) e) ∙ h))
        poisoned (inr e) =
            subst (λ x. IsPoisoned x.1) (sym e)
              (lawful.query_poisons client.agent client.canister_id method args world
                (sym (ap (λ x. x.0) e) ∙ h))

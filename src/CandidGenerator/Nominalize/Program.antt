-- ===== src/CandidGenerator/Nominalize/Program.antt =====
-- The definitions of a whole program after nominalization.
use metamagic.Prelude.{
  String, ◌≡◌, refl, ap, sym, ◌∙◌, subst, arith, Option, none, some, [], ◌∷◌, ◌++◌, All,
  All-append_left, All-append_right, append-nil, string_eq,
}
use metamagic.Prelude.HashMap.{lookup, insert, NodupKeys, lookup-insert}
use metamagic.CandidGenerator.{Ty, TypePath, Candid}
use metamagic.CandidGenerator.Nominalize.{TypeEnv, nominalize, nominalize_defs, nominalize_all}
use metamagic.CandidGenerator.Nominalize.Writer.{
  extend, extend-append, nominal, new_defs, nominalize_lem,
}
use metamagic.CandidGenerator.Nominalize.Meaning.{Means, nominal-Means}

lookup-extend :
    (v : String) (defs env : TypeEnv)
    → lookup v defs ≡ none
    → lookup v (extend defs env) ≡ lookup v env
unfolding extend lookup
lookup-extend v [] env new = refl
lookup-extend v ((w, t) ∷ defs) env new =
    ground (arith, lookup-extend v defs (insert w t env), lookup-insert v w t env)

-- Definitions with different names are all found.
pub extend-All :
    (defs env : TypeEnv) → NodupKeys defs → All (λ d. lookup d.0 (extend defs env) ≡ some d.1) defs
unfolding extend
extend-All [] env distinct = tt
extend-All ((v, t) ∷ defs) env (new, distinct) = (
  lookup-extend v defs (insert v t env) new ∙ ground (arith, lookup-insert v v t env),
  extend-All defs (insert v t env) distinct,
)

module _ (candid : Candid) where
  -- The definitions of the program with those that nominalization adds.
  abbrev pub all_defs : TypeEnv → TypeEnv
  all_defs [] = []
  all_defs ((id, t) ∷ env) =
      new_defs candid (TypePath.id id ∷ []) t
      ++ ((id, nominal candid (TypePath.id id ∷ []) t) ∷ all_defs env)

  abbrev pub actor_defs : Option Ty → TypeEnv
  actor_defs none = []
  actor_defs (some t) = new_defs candid [] t

  abbrev pub nominal_actor : Option Ty → Option Ty
  nominal_actor none = none
  nominal_actor (some t) = some (nominal candid [] t)

  nominalize_defs-extend :
      (env res : TypeEnv) → nominalize_defs candid env res ≡ extend (all_defs env) res
  unfolding nominalize_defs extend
  nominalize_defs-extend [] res = refl
  nominalize_defs-extend ((id, t) ∷ env) res =
      let path = TypePath.id id ∷ [] in
      let t' = nominal candid path t in
      ap (λ (r : Ty × TypeEnv). nominalize_defs candid env (insert id r.0 r.1))
        (nominalize_lem candid res path t)
      ∙ nominalize_defs-extend env (insert id t' (extend (new_defs candid path t) res))
      ∙ sym (extend-append (new_defs candid path t) ((id, t') ∷ all_defs env) res)

  pub nominalize_all-extend :
      (env : TypeEnv) (actor : Option Ty)
      → nominalize_all candid env actor
        ≡ (extend (all_defs env ++ actor_defs actor) [], nominal_actor actor)
  unfolding nominalize_all
  nominalize_all-extend env none =
      ap (λ e. (e, none))
        (nominalize_defs-extend env [] ∙ ap (λ d. extend d []) (sym (append-nil (all_defs env))))
  nominalize_all-extend env (some t) =
      ap (λ e. ((nominalize candid e [] t).1, some (nominalize candid e [] t).0))
        (nominalize_defs-extend env [])
      ∙ ap (λ (r : Ty × TypeEnv). (r.1, some r.0))
          (nominalize_lem candid (extend (all_defs env) []) [] t)
      ∙ ap (λ e. (e, some (nominal candid [] t)))
          (sym (extend-append (all_defs env) (new_defs candid [] t) []))

  -- An actor of the result stands for that of the program, if there is one.
  abbrev pub MeansActor : (String → Ty → Type 0) → Option Ty → Option Ty → Type 0
  MeansActor defines none none = Unit
  MeansActor defines (some a) (some b) = Means defines a b
  MeansActor defines none (some b) = ⊥
  MeansActor defines (some a) none = ⊥

  -- What a result has for every definition of the program, and for its actor.
  abbrev pub Stands : TypeEnv → Option Ty → TypeEnv × Option Ty → Type 0
  Stands env actor res =
      All
        (λ d.
          (t' : Ty) × (lookup d.0 res.0 ≡ some t') × Means (λ v t. lookup v res.0 ≡ some t) t' d.1)
        env
      × MeansActor (λ v t. lookup v res.0 ≡ some t) res.1 actor

  module _ (defines : String → Ty → Type 0) where
    all_defs-Means :
        (env : TypeEnv)
        → All (λ d. defines d.0 d.1) (all_defs env)
        → All (λ d. (t' : Ty) × defines d.0 t' × Means defines t' d.1) env
    all_defs-Means [] all = tt
    all_defs-Means ((id, t) ∷ env) all =
        let path = TypePath.id id ∷ [] in
        let t' = nominal candid path t in
        let own = new_defs candid path t in
        let (here, rest) = All-append_right _ own ((id, t') ∷ all_defs env) all in
        let means =
          nominal-Means candid defines path t
            (All-append_left _ own ((id, t') ∷ all_defs env) all) in
        ((t', here, means), all_defs-Means env rest)

    actor-Means :
        (actor : Option Ty)
        → All (λ d. defines d.0 d.1) (actor_defs actor)
        → MeansActor defines (nominal_actor actor) actor
    actor-Means none all = tt
    actor-Means (some t) all = nominal-Means candid defines [] t all

  -- Every definition of a program is found in the result under its name, and stands for what it
  -- stood for: with the names of the new definitions replaced by what the result has for them it is
  -- the type of the program. So does the actor. The names that are made have to differ from each
  -- other and from those of the program.
  pub nominalize_all-Means :
      (env : TypeEnv) (actor : Option Ty)
      → NodupKeys (all_defs env ++ actor_defs actor)
      → Stands env actor (nominalize_all candid env actor)
  nominalize_all-Means env actor distinct =
      let defs = all_defs env ++ actor_defs actor in
      let defines : String → Ty → Type 0 = λ v t. lookup v (extend defs []) ≡ some t in
      let all = extend-All defs [] distinct in
      subst (Stands env actor) (sym (nominalize_all-extend env actor)) (
        all_defs-Means defines env (All-append_left _ (all_defs env) (actor_defs actor) all),
        actor-Means defines actor (All-append_right _ (all_defs env) (actor_defs actor) all),
      )

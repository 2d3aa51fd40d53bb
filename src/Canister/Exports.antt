-- ===== src/Canister/Exports.antt =====
-- dscvr-canister-exports: the tables of a canister's methods.
use metamagic.Prelude.{
  ◌≡◌, refl, arith, Bool, String, Option, none, some, List, [], ◌∷◌, Outcome, ok, ◌>>=◌, or_panic,
  get_elem?, ◌==◌, string_eq, if◌then◌else◌,
}
use metamagic.Prelude.HashMap.{HashMap, lookup, insert, lookup-insert}
use metamagic.Canister.{
  CanisterMethod, CanisterUpdateMethod, CanisterInitMethod, CanisterLifecycleMethod,
}

pub record CanisterDefinition (P State : Type 0) : Type 0 where
  pub update_methods : HashMap String (CanisterUpdateMethod P State)
  pub query_methods : HashMap String (CanisterMethod P State)
  pub init_method : CanisterInitMethod P State
  pub pre_upgrade : CanisterLifecycleMethod P State
  pub post_upgrade : CanisterLifecycleMethod P State
  pub primary : Bool

-- The loop that fills a table.
unfoldable pub insert_all : {V : Type 0} → List (String × V) → HashMap String V → HashMap String V
insert_all [] table = table
insert_all ((name, method) ∷ methods) table = insert_all methods (insert name method table)

-- `CanisterDefinition::new`; with no init, post-upgrade or pre-upgrade registered it panics.
unfoldable pub new :
    {P State : Type 0}
    → List (String × CanisterUpdateMethod P State)
    → List (String × CanisterMethod P State)
    → List (String × CanisterInitMethod P State)
    → List (String × CanisterLifecycleMethod P State)
    → List (String × CanisterLifecycleMethod P State)
    → Bool
    → Outcome String (CanisterDefinition P State)
new updates queries init post_upgrade pre_upgrade primary = do
  i ← or_panic (get_elem? init 0)
  post ← or_panic (get_elem? post_upgrade 0)
  pre ← or_panic (get_elem? pre_upgrade 0)
  ok (record {
    update_methods = insert_all updates [];
    query_methods = insert_all queries [];
    init_method = i.1;
    pre_upgrade = pre.1;
    post_upgrade = post.1;
    primary = primary;
  })

-- The last registration of a name.
abbrev pub last_registered : {V : Type 0} → String → List (String × V) → Option V
last_registered name [] = none
last_registered name ((n, method) ∷ methods) = elim (last_registered name methods) [
  | some later ↦ some later
  | none ↦ if name == n then some method else none
]

-- A method is found in a table by its name, the last one registered if there are several.
pub lookup-insert_all :
    {V : Type 0} (name : String) (methods : List (String × V)) (table : HashMap String V)
    → lookup name (insert_all methods table)
      ≡ (elim (last_registered name methods) [ some m ↦ some m | none ↦ lookup name table ])
unfolding insert_all
lookup-insert_all name [] table = refl
lookup-insert_all name ((n, m) ∷ methods) table =
    ground (arith, lookup-insert_all name methods (insert n m table), lookup-insert name n m table)

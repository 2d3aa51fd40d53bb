-- ===== src/CanisterConfig/Dfx/Names.antt =====
-- Which canisters and networks dfx is told of.
use metamagic.Prelude.{
  String, ◌≡◌, ap, sym, ◌∙◌, arith, Bool, true, false, ◌||◌, Option, none, some, List, [], ◌∷◌,
  ◌==◌, string_eq, if◌then◌else◌, ok, >>=-eq-ok, ok-injective,
}
use metamagic.Prelude.HashMap.{HashMap, lookup, insert, lookup-insert}
use metamagic.CanisterConfig.Schema.{
  ControllerIdentityMap, ControllerGroup, CanisterInstance, CanisterNetwork, Canister, DscvrConfig,
  local_network_name,
}
use metamagic.CanisterConfig.Query.{instances_of}
use metamagic.CanisterConfig.Dfx.{
  DfxCanister, DfxNetwork, DfxConfig, controllers_of, dfx_canister, push_instances, push_networks,
  push_canisters, try_from_dscvr_for_network,
}

abbrev pub is_some : {A : Type 0} → Option A → Bool
is_some none = false
is_some (some _) = true

-- An instance has the name.
abbrev pub named : String → List CanisterInstance → Bool
named name [] = false
named name (i ∷ is) = name == i.name || named name is

-- An instance of a network has the name, among the networks of a canister, and among all canisters.
abbrev pub named_in_networks : String → String → HashMap String CanisterNetwork → Bool
named_in_networks name network [] = false
named_in_networks name network ((w, n) ∷ ns) =
    (if w == network then named name (instances_of n) else false)
    || named_in_networks name network ns

abbrev pub named_in_canisters : String → String → HashMap String Canister → Bool
named_in_canisters name network [] = false
named_in_canisters name network ((_, c) ∷ cs) =
    named_in_networks name network c.networks || named_in_canisters name network cs

-- A network other than the local one is among those of a canister, and of all canisters.
abbrev pub shared : String → HashMap String CanisterNetwork → Bool
shared w [] = false
shared w ((v, _) ∷ ns) = (if v == local_network_name then false else w == v) || shared w ns

abbrev pub shared_in_canisters : String → HashMap String Canister → Bool
shared_in_canisters w [] = false
shared_in_canisters w ((_, c) ∷ cs) = shared w c.networks || shared_in_canisters w cs

is_some-push_instances :
    (make : CanisterInstance → DfxCanister) (name : String) (is : List CanisterInstance)
    (m : HashMap String DfxCanister)
    → is_some (lookup name (push_instances make is m)) ≡ (is_some (lookup name m) || named name is)
unfolding push_instances
is_some-push_instances make name [] m = ground arith
is_some-push_instances make name (i ∷ is) m = ground (
  arith,
  is_some-push_instances make name is (insert i.name (make i) m),
  lookup-insert name i.name (make i) m,
)

is_some-push_networks :
    (network : String) (c : Canister) (controllers : HashMap String ControllerIdentityMap)
    (name : String) (ns : HashMap String CanisterNetwork)
    (pushed : HashMap String DfxCanister × HashMap String DfxNetwork)
    → (is_some (lookup name (push_networks network c controllers ns pushed).0)
        ≡ (is_some (lookup name pushed.0) || named_in_networks name network ns))
      × (is_some (lookup name (push_networks network c controllers ns pushed).1)
          ≡ (is_some (lookup name pushed.1) || shared name ns))
unfolding push_networks
is_some-push_networks network c controllers name [] (canisters, networks) =
    (ground arith, ground arith)
is_some-push_networks network c controllers name ((w, n) ∷ ns) (canisters, networks) =
    let make = dfx_canister c controllers w n.wallet in
    let entry : DfxNetwork = record {
      name = w;
      providers = some (n.provider ∷ []);
      bind = some n.provider;
    } in
    let pushed : HashMap String DfxCanister × HashMap String DfxNetwork = (
      if w == network then push_instances make (instances_of n) canisters else canisters,
      if w == local_network_name then networks else insert w entry networks,
    ) in
    let rest = is_some-push_networks network c controllers name ns pushed in
    (
      ground (arith, rest.0, is_some-push_instances make name (instances_of n) canisters),
      ground (arith, rest.1, lookup-insert name w entry networks),
    )

is_some-push_canisters :
    (groups : Option (HashMap String ControllerGroup)) (network name : String)
    (cs : HashMap String Canister)
    (pushed done : HashMap String DfxCanister × HashMap String DfxNetwork)
    → push_canisters groups network cs pushed ≡ ok done
    → (is_some (lookup name done.0)
        ≡ (is_some (lookup name pushed.0) || named_in_canisters name network cs))
      × (is_some (lookup name done.1)
          ≡ (is_some (lookup name pushed.1) || shared_in_canisters name cs))
unfolding push_canisters
is_some-push_canisters groups network name [] pushed done e =
    let same : pushed ≡ done = ok-injective e in
    (
      ground (arith, ap (λ d. is_some (lookup name d.0)) same),
      ground (arith, ap (λ d. is_some (lookup name d.1)) same),
    )
is_some-push_canisters groups network name ((canister_name, c) ∷ cs) pushed done e =
    let (controllers, _, e') = >>=-eq-ok (controllers_of groups canister_name c.networks []) _ e in
    let here = is_some-push_networks network c controllers name c.networks pushed in
    let rest =
      is_some-push_canisters groups network name cs
        (push_networks network c controllers c.networks pushed) done e' in
    (ground (arith, here.0, rest.0), ground (arith, here.1, rest.1))

-- A configuration for dfx has a canister for the name of each instance of the network and for no
-- other name, and it has every network of the configuration but the local one.
pub try_from_lem :
    (cfg : DscvrConfig) (network name : String) (dfx : DfxConfig)
    → try_from_dscvr_for_network cfg network ≡ ok dfx
    → (is_some (lookup name dfx.canisters) ≡ named_in_canisters name network cfg.canisters)
      × (is_some (lookup name dfx.networks) ≡ shared_in_canisters name cfg.canisters)
unfolding try_from_dscvr_for_network lookup
try_from_lem cfg network name dfx e =
    let (pushed, e', e'') =
      >>=-eq-ok (push_canisters cfg.controller_groups network cfg.canisters ([], [])) _ e in
    let r =
      is_some-push_canisters cfg.controller_groups network name cfg.canisters ([], []) pushed e' in
    let built = ok-injective e'' in
    (
      ap (λ (d : DfxConfig). is_some (lookup name d.canisters)) (sym built) ∙ r.0,
      ap (λ (d : DfxConfig). is_some (lookup name d.networks)) (sym built) ∙ r.1,
    )

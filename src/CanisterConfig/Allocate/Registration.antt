-- ===== src/CanisterConfig/Allocate/Registration.antt =====
-- The ids that are registered for available instances.
use metamagic.Prelude.{
  String, ◌≡◌, refl, ◌∙◌, arith, Option, none, some, List, [], ◌∷◌, map, ◌==◌, string_eq,
  if◌then◌else◌,
}
use metamagic.CanisterConfig.Schema.{CanisterInstance}
use metamagic.CanisterConfig.Allocate.{set_id, register_all}

-- The id of the first instance with the name, if there is such an instance.
abbrev pub id_named : String → List CanisterInstance → Option (Option String)
id_named name [] = none
id_named name (i ∷ is) = if name == i.name then some i.id else id_named name is

-- The id that is registered last for the name.
abbrev pub last_id : String → List CanisterInstance → Option (Option String)
last_id name [] = none
last_id name (c ∷ cs) = elim (last_id name cs) [
  | some later ↦ some later
  | none ↦ if name == c.name then some c.id else none
]

-- What an instance's id becomes: that of the registration, if there are both.
abbrev pub replaced : Option (Option String) → Option (Option String) → Option (Option String)
replaced none held = held
replaced (some new) none = none
replaced (some new) (some old) = some new

id_named-set_id :
    (name : String) (c : CanisterInstance) (is : List CanisterInstance)
    → id_named name (set_id c is)
      ≡ replaced (if name == c.name then some c.id else none) (id_named name is)
unfolding set_id
id_named-set_id name c [] = ground arith
id_named-set_id name c (i ∷ is) = ground (arith, id_named-set_id name c is)

names-set_id :
    (c : CanisterInstance) (is : List CanisterInstance)
    → map (λ i. i.name) (set_id c is) ≡ map (λ i. i.name) is
unfolding set_id
names-set_id c [] = refl
names-set_id c (i ∷ is) = ground (arith, names-set_id c is)

-- Registration keeps the available instances with their names and order, and gives the first
-- instance of a name the id that was registered last for it; names for which no instance is
-- available are passed over.
pub register_all_lem :
    (name : String) (cs is : List CanisterInstance)
    → (map (λ i. i.name) (register_all cs is) ≡ map (λ i. i.name) is)
      × (id_named name (register_all cs is) ≡ replaced (last_id name cs) (id_named name is))
unfolding register_all
register_all_lem name [] is = (refl, refl)
register_all_lem name (c ∷ cs) is =
    let rest = register_all_lem name cs (set_id c is) in
    (rest.0 ∙ names-set_id c is, ground (arith, rest.1, id_named-set_id name c is))

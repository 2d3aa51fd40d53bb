-- ===== src/CanisterConfig/Query/Finding.antt =====
-- Instances that are searched for, by name or by id.
use metamagic.Prelude.{
  String, ◌≡◌, refl, sym, ◌∙◌, arith, Bool, Option, none, some, List, [], ◌∷◌, ◌++◌, ◌==◌,
  string_eq, ap₂,
}
use mathlib.Core.Option
use metamagic.CanisterConfig.Schema.{CanisterInstance, CanisterNetwork}
use metamagic.CanisterConfig.Query.{
  find, has_id, search, search_provisioned, search_available, find_instance, or_nil, instances_of,
}

-- The first of the two that is there.
abbrev first_of : Option CanisterInstance → Option CanisterInstance → Option CanisterInstance
first_of none b = b
first_of (some a) b = some a

find-append :
    (p : CanisterInstance → Bool) (is js : List CanisterInstance)
    → find p (is ++ js) ≡ first_of (find p is) (find p js)
unfolding find
find-append p [] js = refl
find-append p (i ∷ is) js = ground (arith, find-append p is js)

-- A search in an optional list is one in the list.
abbrev pub search_in :
    List CanisterInstance → Option String → Option String → Option CanisterInstance
search_in is (some name) _ = find (λ i. i.name == name) is
search_in is none (some id) = find (has_id id) is
search_in is none none = none

search-search_in :
    (is : Option (List CanisterInstance)) (name id : Option String)
    → search is name id ≡ search_in (or_nil is) name id
unfolding search find Option.bind
search-search_in none (some name) id = refl
search-search_in none none (some id) = refl
search-search_in none none none = refl
search-search_in (some is) (some name) id = refl
search-search_in (some is) none (some id) = refl
search-search_in (some is) none none = refl

search_in-append :
    (is js : List CanisterInstance) (name id : Option String)
    → search_in (is ++ js) name id ≡ first_of (search_in is name id) (search_in js name id)
search_in-append is js (some name) id = find-append (λ i. i.name == name) is js
search_in-append is js none (some id) = find-append (has_id id) is js
search_in-append is js none none = refl

find_instance-first_of :
    (n : CanisterNetwork) (name id : Option String)
    → find_instance n name id
      ≡ first_of (search n.provisioned_instances name id) (search n.available_instances name id)
unfolding find_instance search_provisioned search_available
find_instance-first_of n name id = ground arith

-- An instance is found by its name, or by its id if no name is given, if and only if it is the
-- first such one among all instances of the network, the provisioned ones before those that are
-- available; with neither nothing is found.
pub find_instance_lem :
    (n : CanisterNetwork) (name id : Option String)
    → find_instance n name id ≡ search_in (instances_of n) name id
find_instance_lem n name id =
    find_instance-first_of n name id
    ∙ ap₂ first_of (search-search_in n.provisioned_instances name id)
        (search-search_in n.available_instances name id)
    ∙ sym (search_in-append (or_nil n.provisioned_instances) (or_nil n.available_instances) name id)

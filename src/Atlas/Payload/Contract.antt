-- ===== src/Atlas/Payload/Contract.antt =====
-- What a payload is in which nothing is found, and the entries of its lists.
use taha_mohammadi_platform.Prelude.{
  ℕ, ◌⊎◌, arith, String, Option, none, some, List, [], ◌∷◌, Bool, true, false, not, ◌≡◌, ◌↔◌, refl,
  subst, inl, inr, if◌then◌else◌, Bool-cases, Option-cases, Result, ok, bind-eq-ok,
}
use taha_mohammadi_platform.Prelude.Lists.{In, All, contains_iff, text_eq}
use taha_mohammadi_platform.Prelude.Decimal.{ℤ}
use taha_mohammadi_platform.Prelude.Json.{
  Json, null, boolean, integer, number, text, array, object, Items, Fields, items, get, nan,
  infinite, finite,
}
use taha_mohammadi_platform.Atlas.Issues.{
  Issue, node_issue, relation_issue, payload_contract_invalid,
}
use taha_mohammadi_platform.Atlas.Relations.{when}
use taha_mohammadi_platform.Atlas.Keys.{is_payload_entity_key, is_valid_relation_public_key}
use taha_mohammadi_platform.Atlas.Payload.{
  TypeError, in_keys, Attribute, entity_key, collect, payload_collection, Position, fine, missing,
  broken, has_axis, coordinate_defect, position_issues, known_entry, node_defects, all_in,
  relation_defects, over_list,
}
use taha_mohammadi_platform.Atlas.Payload.Collections.{
  key_texts, key_texts-cons, HasKey, FreshIn, collect-clean, over-clean,
}

-- A value is a text, and one of the keys.
abbrev pub Resolves : Option Json → List String → Type 0
Resolves v keys = (t : String) × (v ≡ some (text t)) × In t keys

-- A value is an integer or a finite floating-point number.
abbrev pub IsFiniteNumber : Option Json → Type 0
IsFiniteNumber v =
    ((n : ℤ) × (v ≡ some (integer n)))
    ⊎ ((negative : Bool) × (mantissa : ℕ) × (exponent : ℤ) × (v
          ≡ some (number (finite negative mantissa exponent))))

-- A position is a mapping with three finite numbers.
abbrev pub IsPlaced : Option Json → Type 0
IsPlaced v =
    (q : Fields) × (v ≡ some (object q))
    × IsFiniteNumber (get q "x")
    × IsFiniteNumber (get q "y")
    × IsFiniteNumber (get q "z")

-- A node has a key of the grammar, a type of the catalog and three finite coordinates.
abbrev pub NodeFits : Items → Json → Type 0
NodeFits types e =
    (k : String) × (n : Fields) × (e ≡ object n)
    × (entity_key e ≡ some k)
    × (is_payload_entity_key k ≡ true)
    × Resolves (get n "type") (key_texts (items types))
    × IsPlaced (get n "position")

-- A relation has a composed key, a type of the catalog, and two nodes of the payload as its ends.
abbrev pub RelationFits : Items → Items → Json → Type 0
RelationFits types nodes e =
    (k : String) × (r : Fields) × (e ≡ object r)
    × (entity_key e ≡ some k)
    × (is_valid_relation_public_key k ≡ true)
    × Resolves (get r "type") (key_texts (items types))
    × Resolves (get r "source") (key_texts (items nodes))
    × Resolves (get r "target") (key_texts (items nodes))

abbrev pub IsServable : Fields → Type 0
IsServable p =
    (node_types : Items) × (relation_types : Items) × (nodes : Items) × (relations : Items) × (get p
        "nodeTypes"
      ≡ some (array node_types))
    × (get p "relationTypes" ≡ some (array relation_types))
    × (get p "nodes" ≡ some (array nodes))
    × (get p "relations" ≡ some (array relations))
    × FreshIn [] (key_texts (items nodes))
    × FreshIn [] (key_texts (items relations))
    × All (NodeFits node_types) (items nodes)
    × All (RelationFits relation_types nodes) (items relations)

in_keys-Resolves :
    (v : Option Json) (keys : List String) → in_keys v keys ≡ ok true → Resolves v keys
in_keys-Resolves (some (text t)) keys h = (t, refl, (contains_iff keys t).0 (cc h))
in_keys-Resolves none keys h = cc h
in_keys-Resolves (some null) keys h = cc h
in_keys-Resolves (some (boolean b)) keys h = cc h
in_keys-Resolves (some (integer n)) keys h = cc h
in_keys-Resolves (some (number v)) keys h = cc h
in_keys-Resolves (some (array es)) keys h = cc h
in_keys-Resolves (some (object o)) keys h = cc h

pub Resolves-imp :
    (v : Option Json) (xs ys : List String)
    → ((t : String) → In t xs → In t ys)
    → Resolves v xs
    → Resolves v ys
Resolves-imp v xs ys f (t, e, m) = (t, e, f t m)

pub entry-known :
    (keys : List String) (e : Json) (k : String)
    → entity_key e ≡ some k
    → In k keys
    → (n : Fields) × (e ≡ object n) × (known_entry keys e ≡ some (k, n))
unfolding entity_key known_entry
entry-known keys (object n) k h m = (n, refl, rw (known_entry, h, (contains_iff keys k).1 m) refl)
entry-known keys null k h m = cc h
entry-known keys (boolean b) k h m = cc h
entry-known keys (integer i) k h m = cc h
entry-known keys (number v) k h m = cc h
entry-known keys (text t) k h m = cc h
entry-known keys (array es) k h m = cc h

has_axis-IsFiniteNumber : (v : Option Json) → has_axis v ≡ true → IsFiniteNumber v
has_axis-IsFiniteNumber none h = cc h
has_axis-IsFiniteNumber (some null) h = cc h
has_axis-IsFiniteNumber (some (boolean b)) h = cc h
has_axis-IsFiniteNumber (some (integer n)) h = inl (n, refl)
has_axis-IsFiniteNumber (some (number nan)) h = cc h
has_axis-IsFiniteNumber (some (number infinite)) h = cc h
has_axis-IsFiniteNumber (some (number (finite b m e))) h = inr (b, m, e, refl)
has_axis-IsFiniteNumber (some (text t)) h = cc h
has_axis-IsFiniteNumber (some (array es)) h = cc h
has_axis-IsFiniteNumber (some (object o)) h = cc h

coordinate_defect-IsPlaced : (v : Option Json) → coordinate_defect v ≡ fine → IsPlaced v
unfolding coordinate_defect
coordinate_defect-IsPlaced none h = cc h
coordinate_defect-IsPlaced (some null) h = cc h
coordinate_defect-IsPlaced (some (boolean b)) h = cc h
coordinate_defect-IsPlaced (some (integer n)) h = cc h
coordinate_defect-IsPlaced (some (number x)) h = cc h
coordinate_defect-IsPlaced (some (text t)) h = cc h
coordinate_defect-IsPlaced (some (array es)) h = cc h
coordinate_defect-IsPlaced (some (object q)) h = (
  q,
  refl,
  has_axis-IsFiniteNumber (get q "x") (ground arith),
  has_axis-IsFiniteNumber (get q "y") (ground arith),
  has_axis-IsFiniteNumber (get q "z") (ground arith),
)

no_position : (q : Position) (key : String) → position_issues q key ≡ [] → q ≡ fine
no_position fine key h = refl
no_position missing key h = cc h
no_position broken key h = cc h

pub node_defects-clean :
    (types keys : List String) (e : Json) (k : String)
    → entity_key e ≡ some k
    → In k keys
    → node_defects types keys e ≡ ok []
    → (n : Fields) × (e ≡ object n) × Resolves (get n "type") types × IsPlaced (get n "position")
unfolding node_defects
node_defects-clean types keys e k named m h =
    let (n, is, known) = entry-known keys e k named m in
    let h₁ = rw (node_defects, known) at h in
    let (typed, a, h₂) =
      bind-eq-ok (in_keys (get n "type") types)
        (λ typed. ok (
          if typed
          then position_issues (coordinate_defect (get n "position")) k
          else node_issue payload_contract_invalid k ∷ []))
        [] h₁ in
    elim (Bool-cases typed) [
      | inr untyped ↦ cc (rw untyped at h₂)
      | inl good ↦ (
        n,
        is,
        in_keys-Resolves (get n "type") types (rw good at a),
        coordinate_defect-IsPlaced (get n "position")
            (no_position (coordinate_defect (get n "position")) k (cc (rw good at h₂))),
      )
    ]

all_in-clean :
    (rest : List (Option Json × List String))
    → all_in rest ≡ ok true
    → All (λ q. Resolves (q.0) (q.1)) rest
unfolding all_in
all_in-clean [] h = tt
all_in-clean ((v, keys) ∷ rest) h =
    let (here, a, h₁) =
      bind-eq-ok (in_keys v keys) (λ here. elim here [ true ↦ all_in rest | false ↦ ok false ]) true
        h in
    elim (Bool-cases here) [
      | inr bad ↦ cc (rw bad at h₁)
      | inl good ↦ (in_keys-Resolves v keys (rw good at a), all_in-clean rest (rw good at h₁))
    ]

pub relation_defects-clean :
    (types nodes keys : List String) (e : Json) (k : String)
    → entity_key e ≡ some k
    → In k keys
    → relation_defects types nodes keys e ≡ ok []
    → (r : Fields) × (e ≡ object r)
      × Resolves (get r "type") types
      × Resolves (get r "source") nodes
      × Resolves (get r "target") nodes
unfolding relation_defects
relation_defects-clean types nodes keys e k named m h =
    let (r, is, known) = entry-known keys e k named m in
    let h₁ = rw (relation_defects, known) at h in
    let ends : List (Option Json × List String) =
      (get r "type", types) ∷ (get r "source", nodes) ∷ (get r "target", nodes) ∷ [] in
    let (fit, a, h₂) =
      bind-eq-ok (all_in ends)
        (λ fit. ok (when (not fit) (relation_issue payload_contract_invalid k))) [] h₁ in
    elim (Bool-cases fit) [
      | inr bad ↦ cc (rw bad at h₂)
      | inl good ↦
          let fits = all_in-clean ends (rw good at a) in (r, is, fits.0, fits.1.0, fits.1.1.0)
    ]

collection-array :
    (grammar : String → Bool) (kind : Attribute) (o : Option Json)
    → (payload_collection grammar kind o).1 ≡ []
    → (es : Items) × (o ≡ some (array es))
unfolding payload_collection
collection-array grammar kind (some (array es)) h = (es, refl)
collection-array grammar kind none h = cc h
collection-array grammar kind (some null) h = cc h
collection-array grammar kind (some (boolean b)) h = cc h
collection-array grammar kind (some (integer i)) h = cc h
collection-array grammar kind (some (number v)) h = cc h
collection-array grammar kind (some (text t)) h = cc h
collection-array grammar kind (some (object p)) h = cc h

-- The loop over a collection whose keys are clean.
pub over_array :
    (f : Json → Result TypeError (List Issue)) (o : Option Json) (es : Items)
    → o ≡ some (array es)
    → over_list f o ≡ ok []
    → All (λ e. f e ≡ ok []) (items es)
unfolding over_list
over_array f o es is h = over-clean f (items es) (rw (over_list, is) at h)

collect-array :
    (grammar : String → Bool) (kind : Attribute) (o : Option Json) (es : Items)
    → o ≡ some (array es)
    → payload_collection grammar kind o ≡ collect grammar kind [] (items es)
unfolding payload_collection
collect-array grammar kind o es is = rw is refl

-- A collection without an issue: its entries have keys, all different, which are those found.
abbrev pub Clean : (String → Bool) → Attribute → Option Json → Type 0
Clean grammar kind o =
    (es : Items) × (o ≡ some (array es))
    × All (HasKey grammar) (items es)
    × FreshIn [] (key_texts (items es))
    × ((t : String) → In t (payload_collection grammar kind o).0 ↔ In t (key_texts (items es)))

pub collection-Clean :
    (grammar : String → Bool) (kind : Attribute) (o : Option Json)
    → (payload_collection grammar kind o).1 ≡ []
    → Clean grammar kind o
collection-Clean grammar kind o h =
    let (es, is) = collection-array grammar kind o h in
    let same = collect-array grammar kind o es is in
    let (keyed, fresh, found) = collect-clean grammar kind [] (items es) (rw same at h) in
    (
      es,
      is,
      keyed,
      fresh,
      λ t. rw same (
        λ m. elim ((found t).0 m) [ inl empty ↦ absurd empty | inr m' ↦ m' ],
        λ m. (found t).1 (inr m),
      ),
    )

pub key-In :
    (e : Json) (entries : List Json) (k : String)
    → In e entries
    → entity_key e ≡ some k
    → In k (key_texts entries)
key-In e [] k m h = absurd m
key-In e (x ∷ entries) k (inl is) h =
    rw (key_texts-cons x entries k (subst (λ y. entity_key y ≡ some k) is h)) (inl refl)
key-In e (x ∷ entries) k (inr m) h =
    let later = key-In e entries k m h in
    elim (Option-cases (entity_key x)) [
      | inl unnamed ↦ rw (key_texts, unnamed) later
      | inr (j, named) ↦ rw (key_texts-cons x entries j named) (inr later)
    ]

-- ===== src/Manifest.antt =====
-- tesla/common/Manifest.cpp, and the order on identifiers of tesla/common/Protocol.h. A `std::map` is the
-- list of its entries in order. The file, as it is parsed, is an argument: the automata it describes
-- and the roots. The number that an automaton is given only counts in an assertion of `NFA::Link`.
pub mod Order
pub mod Tables
pub mod Load
use tesla.Base.{
  Bool, List, Option, Run, [], assert, false, fault, if◌then◌else◌, ltb, none, not, ok, panicked,
  some, true, ℕ, ◌&&◌, ◌++◌, ◌+◌, ◌==◌, ◌>>=◌, ◌>>◌, ◌∷◌,
}
use tesla.Automata.{GraphTransition, Label}
use tesla.Automata.Classes.{
  EquivalenceClass, automaton_lifetime, automaton_realisable, classes_code, group_classes,
}
use tesla.Automata.Graph.{Graph}
use tesla.Automata.Lifetimes.{AutomatonLifetime, automaton_lifetime_eq, lifetimes_code}
use tesla.Dfa.Build.{build_code, construct_dfa}
use tesla.Ir.{AutomatonDescription, Identifier, Location, Text, Usage, or_default}
use tesla.Ir.Messages.{identifier_eq}
use tesla.NfaParser.Whole.{nfa_link, nfa_parse, whole_code}

-- `operator <` of `std::string`
pub text_lt : Text → Text → Bool
text_lt [] [] = false
text_lt [] (y ∷ ys) = true
text_lt (x ∷ xs) [] = false
text_lt (x ∷ xs) (y ∷ ys) =
    let rest = text_lt xs ys in if ltb x y then true else if ltb y x then false else rest

-- What `strcmp` reads of a string: the bytes before the first NUL.
pub c_string : Text → Text
c_string [] = []
c_string (x ∷ xs) = let rest = c_string xs in if x == 0 then [] else x ∷ rest

-- `operator <` of locations
pub location_lt : Location → Location → Bool
location_lt x y =
    let a = c_string x.filename in
    let b = c_string y.filename in
    if text_lt a b
    then true
    else if text_lt b a
    then false
    else if ltb x.line y.line
    then true
    else if ltb y.line x.line
    then false
    else ltb x.counter y.counter

-- The location of an identifier that has none is the default one.
abbrev pub location_of : Identifier → Location
location_of id = or_default id.location (record { filename = []; line = 0; counter = 0 })

-- `operator <` of identifiers, by whether they have names
pub name_lt : Option Text → Option Text → Bool → Bool
name_lt (some n) none located = true
name_lt (some n) (some m) located = text_lt n m
name_lt none _ located = located

pub identifier_lt : Identifier → Identifier → Bool
identifier_lt x y = name_lt x.name y.name (location_lt (location_of x) (location_of y))

-- A map from identifiers.
abbrev pub Table : Type 0 → Type 0
Table V = List (Identifier × V)

module _ {V : Type 0} where
  -- `m[k] = v`
  pub put_entry : Identifier → V → Table V → Table V
  put_entry k v [] = (k, v) ∷ []
  put_entry k v ((j, u) ∷ t) =
      let rest = put_entry k v t in
      if identifier_lt k j
      then (k, v) ∷ (j, u) ∷ t
      else if identifier_lt j k
      then (j, u) ∷ rest
      else (j, v) ∷ t

  -- `find`: the entry whose key is neither before `k` nor after it.
  pub look : Identifier → Table V → Option V
  look k [] = none
  look k ((j, u) ∷ t) =
      let rest = look k t in
      if not (identifier_lt k j) && not (identifier_lt j k) then some u else rest

-- `ManifestFile`
pub record ManifestFile : Type 0 where
  pub automata : List AutomatonDescription
  pub roots : List Usage

pub describe : List AutomatonDescription → Table AutomatonDescription → Table AutomatonDescription
describe [] t = t
describe (a ∷ rest) t = describe rest (put_entry a.identifier a t)

pub note_uses : List Usage → Table Usage → Table Usage
note_uses [] t = t
note_uses (u ∷ us) t = note_uses us (put_entry u.identifier u t)

-- `Automaton::Type`
pub data AutomatonType : Type 0 where
  unlinked_nfa : AutomatonType
  linked_nfa : AutomatonType
  deterministic : AutomatonType

-- What is kept of an automaton: its graph, and the classes of its transitions.
pub record Built : Type 0 where
  pub graph : Graph
  pub classes : List EquivalenceClass

-- The automata, and the lifetimes found so far.
pub record Loaded : Type 0 where
  pub automata : Table Built
  pub lifetimes : List AutomatonLifetime

-- `find` among the lifetimes
pub has_lifetime : AutomatonLifetime → List AutomatonLifetime → Run Bool
has_lifetime l [] = ok false
has_lifetime l (m ∷ ls) = do
  same ← automaton_lifetime_eq m l
  elim same [ true ↦ ok true | false ↦ has_lifetime l ls ]

-- A lifetime that begins somewhere is noted once; the assertion compares it with itself.
pub note_lifetime : AutomatonLifetime → List AutomatonLifetime → Run (List AutomatonLifetime)
note_lifetime l ls = elim l.init [
  | none ↦ ok ls
  | some first ↦ do
    found ← has_lifetime l ls
    elim found [
      | true ↦ ok ls
      | false ↦ do same ← automaton_lifetime_eq l l; assert same; ok (ls ++ l ∷ [])
    ]
]

-- A use is of the automaton that is described.
fits_use : AutomatonDescription → Option Usage → Bool
fits_use d none = true
fits_use d (some u) = identifier_eq d.identifier u.identifier

label_of : Option GraphTransition → Option Label
label_of none = none
label_of (some t) = some t.label

module _ (begin : List GraphTransition → Option GraphTransition) (xor_only : Bool) (depth : ℕ)
    (rounds : ℕ) where
  -- The grouping of the transitions, and the constructor of `Automaton`
  built : AutomatonDescription → Option Usage → Graph → Run Built
  built d usage g = do
    cs ← group_classes begin g.transitions []
    assert (fits_use d usage)
    ok (record { graph = g; classes = cs })

  -- The automaton of a description: parsed, and then linked and converted if it is asked for.
  pub make_automaton :
      AutomatonType
      → Table AutomatonDescription
      → ℕ
      → AutomatonDescription
      → Option Usage
      → Run Built
  make_automaton kind descriptions number d usage = do
    g ← nfa_parse xor_only d usage
    n ← built d usage g
    elim kind [
      | AutomatonType.unlinked_nfa ↦ ok n
      | AutomatonType.linked_nfa ↦ do
        g' ← nfa_link number depth xor_only (λ id. look id descriptions) d usage
        built d usage g'
      | AutomatonType.deterministic ↦ do
        g' ← nfa_link number depth xor_only (λ id. look id descriptions) d usage
        n' ← built d usage g'
        b ← construct_dfa depth n'.graph rounds
        dfa ← built d usage b.graph
        assert (automaton_realisable dfa.classes)
        ok dfa
    ]

  -- `getLifetime`
  pub lifetime_of : AutomatonDescription → Built → Run AutomatonLifetime
  lifetime_of d n = do
    (first, last) ← automaton_lifetime begin n.classes
    ok (record { context = d.context; init = label_of first; cleanup = label_of last })

  -- The loop over the descriptions, which are numbered from `number`
  pub load_each :
      AutomatonType
      → Table AutomatonDescription
      → Table Usage
      → ℕ
      → Table AutomatonDescription
      → Loaded
      → Run Loaded
  load_each kind descriptions uses number [] m = ok m
  load_each kind descriptions uses number ((id, d) ∷ rest) m = do
    n ← make_automaton kind descriptions number d (look id uses)
    l ← lifetime_of d n
    ls ← note_lifetime l m.lifetimes
    load_each kind descriptions uses (number + 1) rest
        (record { automata = put_entry id n m.automata; lifetimes = ls })

  -- `Manifest::load`, from the parsed file
  pub load : AutomatonType → ManifestFile → Run Loaded
  load kind file =
      let descriptions = describe file.automata [] in
      load_each kind descriptions (note_uses file.roots []) 0 descriptions
        (record { automata = []; lifetimes = [] })

or_panic : Option Built → Run Built
or_panic none = fault panicked
or_panic (some n) = ok n

-- `FindAutomaton`, which panics on an identifier that the manifest does not have.
pub find_automaton : Loaded → Identifier → Run Built
find_automaton m id = or_panic (look id m.automata)

-- What an evaluation has to unfold.
unfoldable pub manifest_code : Unit {0}
unfolding text_lt c_string location_lt name_lt identifier_lt put_entry look describe note_uses
    has_lifetime note_lifetime label_of fits_use built make_automaton lifetime_of load_each load
    or_panic find_automaton whole_code build_code classes_code lifetimes_code
manifest_code = tt

-- ===== src/Automata/Graph.antt =====
-- tesla/common/State.cpp, State.h and Transition.cpp: states, the references they know, and the
-- registration of transitions. A `GraphState` has no list of its transitions: `Register` appends a
-- transition to its source's list just when it appends it to the vector, so the list is the part of
-- the vector with that source.
pub mod Added
pub mod Halting
pub mod Numbers
pub mod Out
pub mod Placed
pub mod References
pub mod Safety
use tesla.Base.{
  Bool, List, Option, Run, [], assert, bit_and, bit_or, false, if◌then◌else◌, leb, length, ltb,
  none, not, ok, read, replicate, set, some, suc, true, zero, ℕ, ◌%◌, ◌++◌, ◌+◌, ◌==◌, ◌>>=◌, ◌>>◌,
  ◌^◌, ◌||◌, ◌∷◌,
}
use tesla.Automata.{GraphTransition, Label, automata_code, label_arguments, receiver_of}
use tesla.Ir.{Argument, ArgumentKind, arg_index, attributes, ir_code, or_default}
use tesla.Ir.Equal.{argument_eq, argument_kind_eq, equal_code}

-- `references` is none while `VariableReferences` is NULL: then `Refs` is empty.
pub record GraphState : Type 0 where
  pub start : Bool
  pub accept : Bool
  pub references : Option (List (Option Argument))

pub record Graph : Type 0 where
  pub states : List GraphState
  pub transitions : List GraphTransition

abbrev pub no_states : Graph
no_states = record { states = []; transitions = [] }

-- A new state, where no reference count is -1
abbrev pub made_state : Bool → Bool → Option ℕ → GraphState
made_state start accept count = record {
  start = start;
  accept = accept;
  references = elim count [ none ↦ none | some n ↦ some (replicate n none) ];
}

-- `State::Builder::Build`
unfoldable pub build_state : Bool → Bool → Option ℕ → Graph → ℕ × Graph
build_state start accept count g =
    (length g.states, record g { states = g.states ++ made_state start accept count ∷ [] })

-- `begin` to `end` of a state
unfoldable pub out_of : ℕ → List GraphTransition → List GraphTransition
out_of s [] = []
out_of s (t ∷ ts) = let rest = out_of s ts in if t.from == s then t ∷ rest else rest

-- `References`
abbrev pub known : GraphState → List (Option Argument)
known s = or_default s.references []

-- `MyRefs[Index] = Arg`, where `MyRefs` grows to have the index
place_reference : ℕ → Argument → List (Option Argument) → List (Option Argument)
place_reference zero a [] = some a ∷ []
place_reference zero a (r ∷ rs) = some a ∷ rs
place_reference (suc i) a [] = none ∷ place_reference i a []
place_reference (suc i) a (r ∷ rs) = r ∷ place_reference i a rs

place_variable : Argument → List (Option Argument) → List (Option Argument)
place_variable a rs = elim (arg_index a) [ none ↦ rs | some i ↦ place_reference i a rs ]

-- The references of the transition itself, in the order of the variables.
my_references : List Argument → List (Option Argument) → List (Option Argument)
my_references [] rs = rs
my_references (a ∷ args) rs = my_references args (place_variable a rs)

own_references : Label → List (Option Argument)
own_references l =
    let rs = my_references (label_arguments l) [] in
    elim (receiver_of l) [ none ↦ rs | some a ↦ place_variable a rs ]

-- A transition's reference comes before the one that its source knows.
overlay : List (Option Argument) → List (Option Argument) → List (Option Argument)
overlay mine [] = []
overlay [] (r ∷ rs) = r ∷ overlay [] rs
overlay (none ∷ mine) (r ∷ rs) = r ∷ overlay mine rs
overlay (some a ∷ mine) (r ∷ rs) = some a ∷ overlay mine rs

pub references_thus_far : Label → GraphState → List (Option Argument)
references_thus_far l source = overlay (own_references l) (known source)

-- `State::Mask`, and the bits it sets
pub mask_of : List (Option Argument) → ℕ → ℕ
mask_of [] mask = mask
mask_of (none ∷ rs) mask = mask_of rs mask
mask_of (some a ∷ rs) mask = elim (arg_index a) [
  | none ↦ mask_of rs mask
  | some i ↦ mask_of rs (bit_or mask (2 ^ i % 2 ^ 32))
]

pub state_mask : GraphState → ℕ
state_mask s = mask_of (known s) 0

pub count_references : List (Option Argument) → ℕ
count_references [] = 0
count_references (none ∷ rs) = count_references rs
count_references (some a ∷ rs) = suc (count_references rs)

-- The mask of the constants among new references, from index `i`.
pub constant_mask : List (Option Argument) → ℕ → ℕ → ℕ
constant_mask [] i mask = mask
constant_mask (none ∷ rs) i mask = constant_mask rs (i + 1) mask
constant_mask (some a ∷ rs) i mask =
    if argument_kind_eq (attributes a).kind ArgumentKind.constant
    then constant_mask rs (i + 1) (bit_or mask (2 ^ i % 2 ^ 32))
    else constant_mask rs (i + 1) mask

same_reference : Argument → Option Argument → Run (Unit {0})
same_reference a none = ok tt
same_reference a (some b) = assert (argument_eq a b)

agrees_at : ℕ → List (Option Argument) → Argument → Option ℕ → Run (Unit {0})
agrees_at len refs a none = ok tt
agrees_at len refs a (some i) = assert (leb i len) >> read refs i >>= same_reference a

-- A new reference to a variable agrees with the one already known; `len` is the number of new ones.
pub agrees : ℕ → List (Option Argument) → Option Argument → Run (Unit {0})
agrees len refs none = ok tt
agrees len refs (some a) = agrees_at len refs a (arg_index a)

pub all_agree : ℕ → List (Option Argument) → List (Option Argument) → Run (Unit {0})
all_agree len refs [] = ok tt
all_agree len refs (r ∷ rs) = agrees len refs r >> all_agree len refs rs

-- The references that a state has agree with those of a transition in scope.
pub check_references : List (Option Argument) → List (Option Argument) → Run (Unit {0})
check_references refs new =
    let fresh = constant_mask new 0 0 in
    do
      assert (count_references new == 0 || length refs == length new)
      assert (ltb (length new) 32)
      all_agree (length new) refs new
      assert (bit_and (mask_of refs 0) fresh == fresh)

-- `State::UpdateReferences` of the target, with the references of the transition thus far
pub update_references :
    Option (List (Option Argument))
    → Bool
    → List (Option Argument)
    → Run (Option (List (Option Argument)))
update_references none out_of_scope new = do assert (ltb (length new) 32); ok (some new)
update_references (some refs) true new = ok (some refs)
update_references (some refs) false new = do check_references refs new; ok (some refs)

-- `Transition::Register`
pub register : Label → Bool → Bool → Bool → ℕ → ℕ → Graph → Run Graph
register l init cleanup out_of_scope from to g = do
  assert (not (to == 0))
  source ← read g.states from
  target ← read g.states to
  known_now ← update_references target.references out_of_scope (references_thus_far l source)
  ok (record {
    states = set g.states to (record target { references = known_now });
    transitions =
        g.transitions
        ++ record {
          address = length g.transitions;
          label = l;
          from = from;
          to = to;
          init = init;
          cleanup = cleanup;
          out_of_scope = out_of_scope;
        }
          ∷ [];
  })

-- `Transition::Create` and `CreateSubAutomaton`
pub create : Label → Bool → Bool → ℕ → ℕ → Graph → Run Graph
create l init cleanup from to g = register l init cleanup false from to g

-- The switch of `Transition::Copy`, on the kind of the other transition
pub copy_label : Label → Bool → Bool → Bool → ℕ → ℕ → Graph → Run Graph
copy_label Label.null init cleanup out_of_scope from to g = do assert (not out_of_scope); ok g
copy_label (Label.assert_site a r) init cleanup out_of_scope from to g = do
  assert (not out_of_scope)
  register (Label.assert_site a r) init cleanup false from to g
copy_label (Label.fn e) init cleanup out_of_scope from to g =
    register (Label.fn e) init cleanup out_of_scope from to g
copy_label (Label.field_assign e) init cleanup out_of_scope from to g =
    register (Label.field_assign e) init cleanup out_of_scope from to g
copy_label (Label.sub_automaton i) init cleanup out_of_scope from to g = do
  assert (not out_of_scope)
  register (Label.sub_automaton i) false false false from to g

-- `Transition::Copy`
pub copy : ℕ → ℕ → GraphTransition → Bool → Graph → Run Graph
copy from to other leaves g =
    let out_of_scope = leaves || other.out_of_scope in
    do
      assert (not other.init || not out_of_scope)
      copy_label other.label other.init other.cleanup out_of_scope from to g

-- What an evaluation has to unfold.
unfoldable pub graph_code : Unit {0}
unfolding out_of build_state place_reference place_variable my_references own_references overlay
    references_thus_far mask_of state_mask count_references constant_mask same_reference agrees_at
    agrees all_agree check_references update_references register create copy_label copy
    automata_code ir_code equal_code
graph_code = tt

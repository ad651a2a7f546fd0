-- ===== src/Automata.antt =====
-- tesla/common/Transition.h and Transition.cpp: the transitions of an automaton under construction,
-- by their labels. A pointer to a transition is its place in the vector of all transitions, and a
-- pointer to a state is its ID, its place in the vector of states.
pub mod Graph
pub mod Classes
pub mod Equivalent
pub mod Lifetimes
use tesla.Base.{Bool, List, Option, [], false, none, true, ℕ, ◌∷◌}
use tesla.Ir.{Argument, FieldAssignment, FunctionEvent, Identifier, Location, or_default}
use tesla.Ir.Messages.{field_assignment_eq, function_event_eq, identifier_eq, message_code}

-- The subclasses of `Transition`: `assert_site` has the site and the arguments that are not free.
pub data Label : Type 0 where
  null : Label
  assert_site : Location → List Argument → Label
  fn : FunctionEvent → Label
  field_assign : FieldAssignment → Label
  sub_automaton : Identifier → Label

pub record GraphTransition : Type 0 where
  pub address : ℕ
  pub label : Label
  pub from : ℕ
  pub to : ℕ
  pub init : Bool
  pub cleanup : Bool
  pub out_of_scope : Bool

-- `EquivalentTo` of each subclass
pub equivalent : Label → Label → Bool
equivalent Label.null Label.null = true
equivalent (Label.assert_site a r) (Label.assert_site b s) = true
equivalent (Label.fn a) (Label.fn b) = function_event_eq a b
equivalent (Label.field_assign a) (Label.field_assign b) = field_assignment_eq a b
equivalent (Label.sub_automaton a) (Label.sub_automaton b) = identifier_eq a b
equivalent _ _ = false

-- `IsRealisable` of each subclass
pub is_realisable : Label → Bool
is_realisable Label.null = false
is_realisable (Label.assert_site a r) = true
is_realisable (Label.fn a) = true
is_realisable (Label.field_assign a) = true
is_realisable (Label.sub_automaton a) = false

-- `IsStrict` of each subclass; an event is strict where it does not say
pub is_strict : Label → Bool
is_strict (Label.fn a) = or_default a.strict true
is_strict (Label.field_assign a) = or_default a.strict true
is_strict _ = false

abbrev pub is_null : Label → Bool
is_null Label.null = true
is_null _ = false

-- `Arguments` of each subclass
pub label_arguments : Label → List Argument
label_arguments Label.null = []
label_arguments (Label.assert_site a r) = r
label_arguments (Label.fn a) = a.arguments
label_arguments (Label.field_assign a) = a.field.base ∷ a.value ∷ []
label_arguments (Label.sub_automaton a) = []

-- The receiver of an event, which only a function event can have.
pub receiver_of : Label → Option Argument
receiver_of (Label.fn a) = a.receiver
receiver_of _ = none

-- `Protobuf`, which only these transitions have
unfoldable pub has_message : Label → Bool
has_message (Label.fn e) = true
has_message (Label.field_assign e) = true
has_message _ = false

-- What an evaluation has to unfold.
unfoldable pub automata_code : Unit {0}
unfolding equivalent is_realisable is_strict label_arguments receiver_of message_code
automata_code = tt

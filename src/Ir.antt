-- ===== src/Ir.antt =====
-- The messages of tesla/common/tesla.proto, and what tesla/common/Protocol.cpp computes of them.
-- Text is the list of its bytes; an optional field is an option; an `int64` is its 64 bits.
pub mod Equal
pub mod Messages
use tesla.Base.{Bool, List, Option, none, some, ℕ}
use tesla.Key.Union.{value}

abbrev pub Text : Type 0
Text = List ℕ

pub record Location : Type 0 where
  pub filename : Text
  pub line : ℕ
  pub counter : ℕ

pub record Identifier : Type 0 where
  pub name : Option Text
  pub location : Option Location

pub data ArgumentKind : Type 0 where
  constant : ArgumentKind
  variable : ArgumentKind
  any : ArgumentKind
  indirect : ArgumentKind
  field : ArgumentKind

pub data MatchKind : Type 0 where
  exact : MatchKind
  flags : MatchKind
  mask : MatchKind

-- The fields of an argument that hold no other message.
pub record Attributes : Type 0 where
  pub kind : ArgumentKind
  pub index : Option ℕ
  pub name : Option Text
  pub free : Option Bool
  pub value : Option ℕ
  pub constant_match : Option MatchKind

mutual
  pub data Argument : Type 0 where
    argument : Attributes → Indirection → FieldOf → Argument

  pub data Indirection : Type 0 where
    direct : Indirection
    through : Argument → Indirection

  -- A `StructField`: its type, base, name and index.
  pub data FieldOf : Type 0 where
    no_field : FieldOf
    struct_field : Text → Argument → Text → ℕ → FieldOf

pub data Direction : Type 0 where
  entry : Direction
  exit : Direction

pub data CallContext : Type 0 where
  caller : CallContext
  callee : CallContext

pub data CallKind : Type 0 where
  c_call : CallKind
  objc_instance_message : CallKind
  objc_class_message : CallKind
  objc_super_message : CallKind

pub record FunctionEvent : Type 0 where
  pub function : Text
  pub direction : Option Direction
  pub context : Option CallContext
  pub arguments : List Argument
  pub expected : Option Argument
  pub strict : Option Bool
  pub kind : Option CallKind
  pub receiver : Option Argument

pub data AssignKind : Type 0 where
  simple_assign : AssignKind
  plus_equal : AssignKind
  minus_equal : AssignKind

pub record StructField : Type 0 where
  pub struct : Text
  pub base : Argument
  pub name : Text
  pub index : ℕ

pub record FieldAssignment : Type 0 where
  pub field : StructField
  pub operation : AssignKind
  pub value : Argument
  pub strict : Option Bool

pub data BooleanOperation : Type 0 where
  be_and : BooleanOperation
  be_or : BooleanOperation
  be_xor : BooleanOperation

mutual
  pub data Expression : Type 0 where
    boolean_expr : BooleanOperation → Expressions → Expression
    sequence : Expressions → Option ℕ → Option ℕ → Expression
    null_expr : Expression
    assertion_site : Location → Expression
    function : FunctionEvent → Expression
    field_assign : FieldAssignment → Expression
    sub_automaton : Identifier → Expression

  pub data Expressions : Type 0 where
    nil : Expressions
    cons : Expression → Expressions → Expressions

pub data DescriptionContext : Type 0 where
  global : DescriptionContext
  thread_local : DescriptionContext

pub record AutomatonDescription : Type 0 where
  pub identifier : Identifier
  pub context : DescriptionContext
  pub expression : Expression
  pub arguments : List Argument
  pub source : Option Text

pub record Usage : Type 0 where
  pub identifier : Identifier
  pub beginning : Option Expression
  pub end : Option Expression

-- `x.f()` of an optional field: its value, or the default.
abbrev pub or_default {ℓ} : {A : Type ℓ} → Option A → A → A
or_default none d = d
or_default (some a) d = a

abbrev pub attributes : Argument → Attributes
attributes (Argument.argument a i f) = a

-- `ArgIndex`, where `none` is -1
pub arg_index : Argument → Option ℕ
arg_index a = elim (attributes a).kind [
  | ArgumentKind.constant ↦ none
  | ArgumentKind.any ↦ none
  | ArgumentKind.variable ↦ some (or_default (attributes a).index 0)
  | ArgumentKind.indirect ↦ some (or_default (attributes a).index 0)
  | ArgumentKind.field ↦ some (or_default (attributes a).index 0)
]

-- What an evaluation has to unfold.
unfoldable pub ir_code : Unit {0}
unfolding arg_index
ir_code = tt

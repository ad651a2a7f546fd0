-- ===== src/Ir/Messages.antt =====
-- `operator ==` of tesla/common/Protocol.cpp on the events and names that label transitions.
use tesla.Base.{Bool, List, Option, arith, false, refl, true, ℕ}
use tesla.Ir.{
  Argument, AssignKind, CallContext, CallKind, Direction, FieldAssignment, FunctionEvent,
  Identifier, Location, StructField, Text,
}
use tesla.Ir.Equal.{
  IsEquality, argument_eq, argument_eq-IsEquality, bool_eq, bool_eq-IsEquality, equal_code,
  fields-IsEquality, list_eq, list_eq-IsEquality, number_eq, number_eq-IsEquality, option_eq,
  option_eq-IsEquality, pair_eq, pair_eq-IsEquality, text_eq, text_eq-IsEquality,
}

direction_eq : Direction → Direction → Bool
direction_eq Direction.entry Direction.entry = true
direction_eq Direction.exit Direction.exit = true
direction_eq _ _ = false

call_context_eq : CallContext → CallContext → Bool
call_context_eq CallContext.caller CallContext.caller = true
call_context_eq CallContext.callee CallContext.callee = true
call_context_eq _ _ = false

call_kind_eq : CallKind → CallKind → Bool
call_kind_eq CallKind.c_call CallKind.c_call = true
call_kind_eq CallKind.objc_instance_message CallKind.objc_instance_message = true
call_kind_eq CallKind.objc_class_message CallKind.objc_class_message = true
call_kind_eq CallKind.objc_super_message CallKind.objc_super_message = true
call_kind_eq _ _ = false

assign_kind_eq : AssignKind → AssignKind → Bool
assign_kind_eq AssignKind.simple_assign AssignKind.simple_assign = true
assign_kind_eq AssignKind.plus_equal AssignKind.plus_equal = true
assign_kind_eq AssignKind.minus_equal AssignKind.minus_equal = true
assign_kind_eq _ _ = false

abbrev function_event_fields :
    FunctionEvent
    → ((((((Text × Option Direction) × Option CallContext) × List Argument) × Option Argument)
          × Option Bool)
        × Option CallKind)
      × Option Argument
function_event_fields x = (
  ((((((x.function, x.direction), x.context), x.arguments), x.expected), x.strict), x.kind),
  x.receiver,
)

pub function_event_eq : FunctionEvent → FunctionEvent → Bool
function_event_eq x y =
    pair_eq
      (pair_eq
        (pair_eq
          (pair_eq
            (pair_eq
              (pair_eq (pair_eq text_eq (option_eq direction_eq)) (option_eq call_context_eq))
              (list_eq argument_eq))
            (option_eq argument_eq))
          (option_eq bool_eq))
        (option_eq call_kind_eq))
      (option_eq argument_eq) (function_event_fields x) (function_event_fields y)

abbrev struct_field_fields : StructField → ((Text × Argument) × Text) × ℕ
struct_field_fields x = (((x.struct, x.base), x.name), x.index)

struct_field_eq : StructField → StructField → Bool
struct_field_eq x y =
    pair_eq (pair_eq (pair_eq text_eq argument_eq) text_eq) number_eq (struct_field_fields x)
      (struct_field_fields y)

abbrev field_assignment_fields :
    FieldAssignment → ((StructField × AssignKind) × Argument) × Option Bool
field_assignment_fields x = (((x.field, x.operation), x.value), x.strict)

pub field_assignment_eq : FieldAssignment → FieldAssignment → Bool
field_assignment_eq x y =
    pair_eq (pair_eq (pair_eq struct_field_eq assign_kind_eq) argument_eq) (option_eq bool_eq)
      (field_assignment_fields x) (field_assignment_fields y)

abbrev location_fields : Location → (Text × ℕ) × ℕ
location_fields x = ((x.filename, x.line), x.counter)

location_eq : Location → Location → Bool
location_eq x y =
    pair_eq (pair_eq text_eq number_eq) number_eq (location_fields x) (location_fields y)

abbrev identifier_fields : Identifier → Option Text × Option Location
identifier_fields x = (x.name, x.location)

pub identifier_eq : Identifier → Identifier → Bool
identifier_eq x y =
    pair_eq (option_eq text_eq) (option_eq location_eq) (identifier_fields x) (identifier_fields y)

direction_eq-IsEquality : IsEquality direction_eq
unfolding direction_eq
direction_eq-IsEquality = record { sound = λ x y h. ground arith; self = λ x. ground arith }

call_context_eq-IsEquality : IsEquality call_context_eq
unfolding call_context_eq
call_context_eq-IsEquality = record { sound = λ x y h. ground arith; self = λ x. ground arith }

call_kind_eq-IsEquality : IsEquality call_kind_eq
unfolding call_kind_eq
call_kind_eq-IsEquality = record { sound = λ x y h. ground arith; self = λ x. ground arith }

assign_kind_eq-IsEquality : IsEquality assign_kind_eq
unfolding assign_kind_eq
assign_kind_eq-IsEquality = record { sound = λ x y h. ground arith; self = λ x. ground arith }

pub function_event_eq-IsEquality : IsEquality function_event_eq
unfolding function_event_eq
function_event_eq-IsEquality =
    fields-IsEquality function_event_fields
      (λ p. record {
        function = p.0.0.0.0.0.0.0;
        direction = p.0.0.0.0.0.0.1;
        context = p.0.0.0.0.0.1;
        arguments = p.0.0.0.0.1;
        expected = p.0.0.0.1;
        strict = p.0.0.1;
        kind = p.0.1;
        receiver = p.1;
      })
      (λ x. refl)
      (pair_eq-IsEquality
        (pair_eq-IsEquality
          (pair_eq-IsEquality
            (pair_eq-IsEquality
              (pair_eq-IsEquality
                (pair_eq-IsEquality
                  (pair_eq-IsEquality text_eq-IsEquality
                    (option_eq-IsEquality direction_eq-IsEquality))
                  (option_eq-IsEquality call_context_eq-IsEquality))
                (list_eq-IsEquality argument_eq-IsEquality))
              (option_eq-IsEquality argument_eq-IsEquality))
            (option_eq-IsEquality bool_eq-IsEquality))
          (option_eq-IsEquality call_kind_eq-IsEquality))
        (option_eq-IsEquality argument_eq-IsEquality))

struct_field_eq-IsEquality : IsEquality struct_field_eq
unfolding struct_field_eq
struct_field_eq-IsEquality =
    fields-IsEquality struct_field_fields
      (λ p. record { struct = p.0.0.0; base = p.0.0.1; name = p.0.1; index = p.1 }) (λ x. refl)
      (pair_eq-IsEquality
        (pair_eq-IsEquality (pair_eq-IsEquality text_eq-IsEquality argument_eq-IsEquality)
          text_eq-IsEquality)
        number_eq-IsEquality)

pub field_assignment_eq-IsEquality : IsEquality field_assignment_eq
unfolding field_assignment_eq
field_assignment_eq-IsEquality =
    fields-IsEquality field_assignment_fields
      (λ p. record { field = p.0.0.0; operation = p.0.0.1; value = p.0.1; strict = p.1 })
      (λ x. refl)
      (pair_eq-IsEquality
        (pair_eq-IsEquality
          (pair_eq-IsEquality struct_field_eq-IsEquality assign_kind_eq-IsEquality)
          argument_eq-IsEquality)
        (option_eq-IsEquality bool_eq-IsEquality))

location_eq-IsEquality : IsEquality location_eq
unfolding location_eq
location_eq-IsEquality =
    fields-IsEquality location_fields
      (λ p. record { filename = p.0.0; line = p.0.1; counter = p.1 }) (λ x. refl)
      (pair_eq-IsEquality (pair_eq-IsEquality text_eq-IsEquality number_eq-IsEquality)
        number_eq-IsEquality)

pub identifier_eq-IsEquality : IsEquality identifier_eq
unfolding identifier_eq
identifier_eq-IsEquality =
    fields-IsEquality identifier_fields (λ p. record { name = p.0; location = p.1 }) (λ x. refl)
      (pair_eq-IsEquality (option_eq-IsEquality text_eq-IsEquality)
        (option_eq-IsEquality location_eq-IsEquality))

-- What an evaluation has to unfold.
unfoldable pub message_code : Unit {0}
unfolding direction_eq call_context_eq call_kind_eq assign_kind_eq function_event_eq struct_field_eq
    field_assignment_eq location_eq identifier_eq equal_code
message_code = tt

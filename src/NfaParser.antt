-- ===== src/NfaParser.antt =====
-- tesla/common/Automaton.cpp: `NFAParser`. No parse function returns NULL, so the panics on a NULL
-- end are left out; the protocol buffers print nothing here. A sub-automaton is parsed by `link`: as
-- a transition before linking, by the expression of its description when linking.
pub mod InclusiveOr
pub mod Whole
pub mod Safety
pub mod Sound
use tesla.Base.{
  Bool, List, Run, assertion, false, fault, if◌then◌else◌, leb, ltb, max, none, ok, panicked, suc,
  zero, ℕ, ◌-◌, ◌==◌, ◌>>=◌, ◌>>◌, ◌^◌, ◌||◌,
}
use tesla.Automata.{Label}
use tesla.Automata.Graph.{Graph, build_state, create}
use tesla.Ir.{Argument, BooleanOperation, Expression, Expressions, Identifier, or_default}
use tesla.NfaParser.InclusiveOr.{convert_inclusive_or, epsilon_if, or_code}

-- What a parse function is given of the parser: the arguments of the automaton that are not free,
-- whether inclusive or is read as exclusive, and how a sub-automaton is parsed.
pub record Parser : Type 0 where
  pub arguments : List Argument
  pub xor_only : Bool
  pub link : Identifier → ℕ → Graph → Run (ℕ × Graph)

abbrev pub infinite_repetitions : ℕ
infinite_repetitions = 2 ^ 31 - 1

-- An event: a new state, which accepts where the event cleans up, and a transition to it.
pub event_transition : Label → Bool → Bool → ℕ → Graph → Run (ℕ × Graph)
event_transition l init cleanup start g =
    let (final, g₁) = build_state false cleanup none g in
    do g₂ ← create l init cleanup start final g₁; ok (final, g₂)

-- The panics of the expressions that cannot initialise or clean up.
abbrev pub neither : Bool → Bool → Run (Unit {0})
neither false false = ok tt
neither _ _ = fault panicked

-- The rounds of a sequence: those left, and the state that the last one ended in.
pub repeat : (ℕ → Graph → Run (ℕ × Graph)) → ℕ → Bool → ℕ → ℕ → ℕ → ℕ → Graph → Run (ℕ × Graph)
repeat body least infinite most final zero current g = ok (current, g)
repeat body least infinite most final (suc n) current g =
    let i = max least most - suc n in
    do
      g₁ ← epsilon_if (leb least i) current final g
      (next, g₂) ← body current g₁
      g₃ ← epsilon_if (infinite || ltb most i) next current g₂
      repeat body least infinite most final n next g₃

-- `Parse` of a sequence whose repetition counts are not negative, where `body` parses its expressions
pub parse_sequence : (ℕ → Graph → Run (ℕ × Graph)) → ℕ → ℕ → ℕ → Graph → Run (ℕ × Graph)
parse_sequence body least bound start g =
    let infinite = bound == infinite_repetitions in
    let most = if infinite then 1 else bound in
    let (final, g₁) = build_state false false none g in
    do
      (last, g₂) ← repeat body least infinite most final (max least most) start g₁
      g₃ ← create Label.null false false last final g₂
      ok (final, g₃)

-- The end of `Parse` of a boolean expression, by its operation: `and` is not supported.
pub combine : Bool → BooleanOperation → ℕ → ℕ → ℕ → ℕ → ℕ → Graph → Run Graph
combine xor_only BooleanOperation.be_xor lhs_start rhs_start lhs_final rhs_final join g = ok g
combine xor_only BooleanOperation.be_or lhs_start rhs_start lhs_final rhs_final join g =
    convert_inclusive_or xor_only lhs_start rhs_start lhs_final rhs_final join g
combine xor_only BooleanOperation.be_and lhs_start rhs_start lhs_final rhs_final join g = ok g

-- The branch and the join of the two sides of a boolean expression, when they have been parsed.
pub join_sides : Bool → BooleanOperation → ℕ → ℕ → ℕ → ℕ → ℕ → Graph → Run (ℕ × Graph)
join_sides xor_only operation branch lhs_start rhs_start lhs_final rhs_final g = do
  g₁ ← create Label.null false false branch lhs_start g
  g₂ ← create Label.null false false branch rhs_start g₁
  let (join, g₃) = build_state false false none g₂ in
      do
        g₄ ← create Label.null false false lhs_final join g₃
        g₅ ← create Label.null false false rhs_final join g₄
        g₆ ← combine xor_only operation lhs_start rhs_start lhs_final rhs_final join g₅
        ok (join, g₆)

mutual
  -- `Parse` of an expression
  pub parse : Parser → Expression → Bool → Bool → ℕ → Graph → Run (ℕ × Graph)
  parse p (Expression.boolean_expr operation es) init cleanup start g =
      neither init cleanup >> parse_boolean p operation es start g
  parse p (Expression.sequence es least most) init cleanup start g =
      neither init cleanup
      >> parse_sequence (λ s h. parse_all p es s h) (or_default least 1) (or_default most 1) start g
  parse p Expression.null_expr init cleanup start g = neither init cleanup >> ok (start, g)
  parse p (Expression.assertion_site l) init cleanup start g =
      event_transition (Label.assert_site l p.arguments) init cleanup start g
  parse p (Expression.function e) init cleanup start g =
      event_transition (Label.fn e) init cleanup start g
  parse p (Expression.field_assign e) init cleanup start g =
      event_transition (Label.field_assign e) init cleanup start g
  parse p (Expression.sub_automaton id) init cleanup start g =
      neither init cleanup >> p.link id start g

  -- One round of a sequence
  pub parse_all : Parser → Expressions → ℕ → Graph → Run (ℕ × Graph)
  parse_all p Expressions.nil current g = ok (current, g)
  parse_all p (Expressions.cons e es) current g = do
    (next, g') ← parse p e false false current g
    parse_all p es next g'

  -- `Parse` of a boolean expression, which has two sides
  pub parse_boolean : Parser → BooleanOperation → Expressions → ℕ → Graph → Run (ℕ × Graph)
  parse_boolean p operation (Expressions.cons lhs (Expressions.cons rhs Expressions.nil)) branch g =
      let (lhs_start, g₁) = build_state false false none g in
      let (rhs_start, g₂) = build_state false false none g₁ in
      do
        (lhs_final, g₃) ← parse p lhs false false lhs_start g₂
        (rhs_final, g₄) ← parse p rhs false false rhs_start g₃
        join_sides p.xor_only operation branch lhs_start rhs_start lhs_final rhs_final g₄
  parse_boolean p operation _ branch g = fault assertion

-- What an evaluation has to unfold.
unfoldable pub parser_code : Unit {0}
unfolding parse parse_all parse_boolean combine event_transition join_sides parse_sequence repeat
    or_code
parser_code = tt

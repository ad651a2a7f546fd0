-- ===== src/NfaParser/Whole.antt =====
-- tesla/common/Automaton.cpp: `NFAParser::Parse` of a whole automaton, `NFA::Parse` and `NFA::Link`.
pub mod Safety
use tesla.Base.{
  Bool, List, Option, Run, [], assert, each_run, exhausted, false, fault, if◌then◌else◌, length,
  ltb, none, not, ok, panicked, some, suc, true, zero, ℕ, ◌&&◌, ◌++◌, ◌>>=◌, ◌>>◌, ◌||◌, ◌∷◌,
}
use tesla.Automata.{GraphTransition, Label, equivalent, is_strict}
use tesla.Automata.Graph.{Graph, build_state, copy, create, known, no_states}
use tesla.Ir.{Argument, AutomatonDescription, Expression, Identifier, Usage, attributes, or_default}
use tesla.NfaParser.{Parser, parse, parser_code}

-- The subautomata of `Link`, by name: `none` where the map has no description.
abbrev pub Descriptions : Type 0
Descriptions = Identifier → Option AutomatonDescription

-- Before linking: a transition for the sub-automaton.
pub unlinked : Identifier → ℕ → Graph → Run (ℕ × Graph)
unlinked id start g =
    let (final, g₁) = build_state false false none g in
    do g₂ ← create (Label.sub_automaton id) false false start final g₁; ok (final, g₂)

-- The arguments that an assertion site refers to.
pub bound_arguments : List Argument → List Argument
bound_arguments [] = []
bound_arguments (a ∷ args) =
    let rest = bound_arguments args in
    if or_default (attributes a).free false then rest else a ∷ rest

-- The expression of a sub-automaton's description, which there has to be.
pub parse_description : Option AutomatonDescription → Parser → ℕ → Graph → Run (ℕ × Graph)
parse_description none p start g = fault panicked
parse_description (some d) p start g = parse p d.expression false false start g

-- Linking: the expression of the sub-automaton's description, where sub-automata are linked too.
pub linked : ℕ → Descriptions → List Argument → Bool → Identifier → ℕ → Graph → Run (ℕ × Graph)
linked zero known args xor_only id start g = fault exhausted
linked (suc fuel) known args xor_only id start g =
    parse_description (known id)
      (record { arguments = args; xor_only = xor_only; link = linked fuel known args xor_only })
      start g

-- An optional entry or exit point.
pub parse_point : Parser → Option Expression → Bool → Bool → ℕ → Graph → Run (ℕ × Graph)
parse_point p none init cleanup start g = ok (start, g)
parse_point p (some e) init cleanup start g = parse p e init cleanup start g

-- Whether an equivalent transition has already been noted.
noted : List GraphTransition → GraphTransition → Bool
noted [] t = false
noted (u ∷ us) t = equivalent u.label t.label || noted us t

-- The transitions that are observed out of scope, in the order in which they are first seen.
pub outside : List GraphTransition → List GraphTransition → List GraphTransition
outside [] found = found
outside (t ∷ ts) found =
    if not (noted found t) && not (is_strict t.label) && not t.init
    then outside ts (found ++ t ∷ [])
    else outside ts found

-- Field assignments and calls are observed out of scope.
pub is_event : Label → Bool
is_event (Label.fn e) = true
is_event (Label.field_assign e) = true
is_event _ = false

-- An out-of-scope event leads from the start back to it, or to the end where it cleans up.
pub ignore_outside : ℕ → ℕ → GraphTransition → Graph → Run Graph
ignore_outside start end t g =
    if is_event t.label then copy start (if t.cleanup then end else start) t true g else ok g

-- The entry and the exit point of a use, if there is one.
pub points : Option Usage → Option Expression × Option Expression
points none = (none, none)
points (some u) = (u.beginning, u.end)

-- `Parse`, up to the grouping of the transitions into classes
pub parse_automaton : Parser → AutomatonDescription → Option Usage → Run Graph
parse_automaton p description usage =
    let (first, g) = build_state true false (some (length description.arguments)) no_states in
    let (beginning, ending) = points usage in
    do
      (start, g₁) ← parse_point p beginning true false first g
      (last, g₂) ← parse p description.expression false false start g₁
      (end, g₃) ← parse_point p ending false true last g₂
      each_run (ignore_outside start end) (outside g₃.transitions []) g₃

abbrev parser_of : AutomatonDescription → Bool → (Identifier → ℕ → Graph → Run (ℕ × Graph)) → Parser
parser_of d xor_only link = record {
  arguments = bound_arguments d.arguments;
  xor_only = xor_only;
  link = link;
}

-- `NFA::Parse`
pub nfa_parse : Bool → AutomatonDescription → Option Usage → Run Graph
nfa_parse xor_only d usage = parse_automaton (parser_of d xor_only unlinked) d usage

-- `NFA::Link` of the automaton with the number `id`, with the depth to which sub-automata may be nested
pub nfa_link : ℕ → ℕ → Bool → Descriptions → AutomatonDescription → Option Usage → Run Graph
nfa_link id depth xor_only known d usage = do
  assert (ltb id 1000)
  parse_automaton (parser_of d xor_only (linked depth known (bound_arguments d.arguments) xor_only))
      d usage

-- What an evaluation has to unfold.
unfoldable pub whole_code : Unit {0}
unfolding bound_arguments ignore_outside is_event linked nfa_link nfa_parse noted outside
    parse_automaton parse_description parse_point points unlinked parser_code
whole_code = tt

-- ===== src/Tests/Automata.antt =====
-- The construction of automata at concrete inputs.
use mathlib.Core.List.Memᴰ
use mathlib.Core.List.{Memᴰ}
use mathlib.Core.Option.{some-injective}
use mathlib.Core.Path.{subst}
use tesla.Base.{
  Bool, Halts, List, Option, Returns, Safe, [], arith, false, get_elem?, inl, inr, length, ltb,
  none, not, ok, refl, replicate, some, sym, true, ℕ, ◌&&◌, ◌-◌, ◌<◌, ◌==◌, ◌>>=◌, ◌↔◌, ◌∷◌, ◌≡◌,
  ◌≢◌, ◌⊎◌,
}
use tesla.Automata.{GraphTransition, Label, equivalent, has_message, is_null}
use tesla.Automata.Classes.{EquivalenceClass, group_classes}
use tesla.Automata.Classes.Grouping.{InClass, IsBegin}
use tesla.Automata.Classes.Partition.{group_classes-InClass}
use tesla.Automata.Equivalent.{equivalent-site, site}
use tesla.Automata.Graph.{Graph, GraphState, graph_code, out_of}
use tesla.Automata.Graph.Numbers.{numbered_from-Numbered}
use tesla.Automata.Graph.Placed.{all_blank-AllPlaced}
use tesla.Automata.Graph.Safety.{Valid}
use tesla.Automata.Lifetimes.{AutomatonLifetime, automaton_lifetime_eq}
use tesla.Automata.Lifetimes.Same.{Decides, Messaged, automaton_lifetime_eq-Decides}
use tesla.Dfa.{Frontier, collect_frontier}
use tesla.Dfa.Build.{construct_dfa}
use tesla.Dfa.Build.Measure.{Complete}
use tesla.Dfa.Build.Safety.{construct_dfa-Valid}
use tesla.Dfa.Build.Terminates.{construct_dfa-Halts}
use tesla.Dfa.Endless.{collect_frontier-endless}
use tesla.Dfa.Layers.{all_fall-Layered}
use tesla.Dfa.Marks.{Adds}
use tesla.Dfa.Reach.{EpsilonPath, Layered, collect_frontier-Adds}
use tesla.Instrument.{Emitter, begin_of, build_symbols}
use tesla.Instrument.Alphabet.{Alphabet, IsOrder, build_symbols-Alphabet}
use tesla.Ir.{
  AutomatonDescription, BooleanOperation, DescriptionContext, Direction, Expression, Expressions,
  FunctionEvent, Text, Usage,
}
use tesla.Ir.Equal.{and-true}
use tesla.NfaParser.InclusiveOr.{reachable_between}
use tesla.NfaParser.InclusiveOr.Ends.{Keeps, reachable_between-Halts}
use tesla.NfaParser.Whole.{nfa_link, nfa_parse}
use tesla.NfaParser.Whole.Safety.{Begun, nfa_link-Safe}

abbrev call_of : Text → FunctionEvent
call_of name = record {
  function = name;
  direction = some Direction.entry;
  context = none;
  arguments = [];
  expected = none;
  strict = none;
  kind = none;
  receiver = none;
}

abbrev pub f_label : Label
f_label = Label.fn (call_of (b'f' ∷ []))

abbrev pub g_label : Label
g_label = Label.fn (call_of (b'g' ∷ []))

equivalent-site_example : (equivalent f_label g_label ≡ true) ↔ (site f_label ≡ site g_label)
equivalent-site_example = equivalent-site f_label g_label

abbrev pub arrow : ℕ → Label → ℕ → ℕ → GraphTransition
arrow address label from to = record {
  address = address;
  label = label;
  from = from;
  to = to;
  init = false;
  cleanup = false;
  out_of_scope = false;
}

abbrev pub plain_state : Bool → Bool → GraphState
plain_state start accept = record { start = start; accept = accept; references = some [] }

-- A call of f or else of g, as it is parsed.
abbrev pub choice : Graph
choice = record {
  states =
      plain_state true false
      ∷ plain_state false false
      ∷ plain_state false false
      ∷ plain_state false false
      ∷ plain_state false false
      ∷ plain_state false true
      ∷ [];
  transitions =
      arrow 0 f_label 1 3
      ∷ arrow 1 g_label 2 4
      ∷ arrow 2 Label.null 0 1
      ∷ arrow 3 Label.null 0 2
      ∷ arrow 4 Label.null 3 5
      ∷ arrow 5 Label.null 4 5
      ∷ [];
}

abbrev pub first_of : List GraphTransition → Option GraphTransition
first_of [] = none
first_of (t ∷ ts) = some t

first_of-IsBegin : IsBegin first_of
first_of-IsBegin t [] m = absurd (Memᴰ.not-nil m)
first_of-IsBegin t (u ∷ ts) m = (u, refl, Memᴰ.head refl)

group_classes-InClass_example : Returns (group_classes first_of choice.transitions []) λ cs.
    ((t : GraphTransition) → Memᴰ t choice.transitions ↔ ((i : ℕ) × InClass t i cs))
    × ((t u : GraphTransition) (i j : ℕ)
        → InClass t i cs
        → InClass u j cs
        → (equivalent t.label u.label ≡ true) ↔ (i ≡ j))
    × ((i : ℕ) (c : EquivalenceClass) → get_elem? cs i ≡ some c → c.symbol ≡ i)
group_classes-InClass_example = group_classes-InClass first_of choice.transitions first_of-IsBegin

abbrev pub height : ℕ → ℕ
height s = 6 - s

pub choice-Layered : Layered choice height
choice-Layered = all_fall-Layered choice height refl

abbrev empty_frontier : Frontier
empty_frontier = record { members = replicate 6 false; start = false; final = false }

collect_frontier-Adds_example :
    Returns
      (collect_frontier 7 choice 0 empty_frontier)
      (Adds choice (EpsilonPath choice 0) (λ j. 0 ≡ j) empty_frontier)
collect_frontier-Adds_example =
    collect_frontier-Adds choice height 7 0 empty_frontier choice-Layered (omega arith) refl
      (omega arith)

pub choice_deep : (s : ℕ) → s < length choice.states → height s < 7
choice_deep s h = omega (arith, h)

construct_dfa-Halts_example : Halts (construct_dfa 7 choice 64) (Complete 6)
construct_dfa-Halts_example =
    construct_dfa-Halts 7 choice height choice-Layered choice_deep 64 (omega arith)

-- Any number of times an optional call of f, as it is parsed: the epsilon transitions of the inner
-- sequence lead from the beginning of the loop to its end, and that of the loop back.
abbrev optional_forever : Graph
optional_forever = record {
  states =
      plain_state true false
      ∷ plain_state false false
      ∷ plain_state false false
      ∷ plain_state false false
      ∷ plain_state false false
      ∷ plain_state false true
      ∷ [];
  transitions =
      arrow 0 f_label 0 1
      ∷ arrow 1 Label.null 1 2
      ∷ arrow 2 Label.null 1 3
      ∷ arrow 3 f_label 1 4
      ∷ arrow 4 Label.null 4 3
      ∷ arrow 5 Label.null 3 1
      ∷ arrow 6 Label.null 3 2
      ∷ arrow 7 g_label 2 5
      ∷ [];
}

abbrev OnLoop : ℕ → Type 0
OnLoop s = (s ≡ 1) ⊎ (s ≡ 3)

abbrev Onward : ℕ → Type 0
Onward s =
    (t : GraphTransition) × Memᴰ t (out_of s optional_forever.transitions)
    × (is_null t.label ≡ true)
    × OnLoop t.to

loop-Onward : (s : ℕ) → OnLoop s → Onward s
unfolding out_of
loop-Onward s (inl e) =
    subst Onward (sym e) (arrow 2 Label.null 1 3, Memᴰ.tail (Memᴰ.head refl), refl, inr refl)
loop-Onward s (inr e) =
    subst Onward (sym e) (arrow 5 Label.null 3 1, Memᴰ.head refl, refl, inl refl)

collect_frontier-endless_example :
    collect_frontier 100 optional_forever 1 empty_frontier ≢ ok empty_frontier
collect_frontier-endless_example =
    collect_frontier-endless optional_forever OnLoop loop-Onward 100 1 empty_frontier empty_frontier
      (inl refl)

abbrev f_call : Expression
f_call = Expression.function (call_of (b'f' ∷ []))

abbrev g_call : Expression
g_call = Expression.function (call_of (b'g' ∷ []))

-- Calls of f and of g in either order, or one of them.
abbrev pub either : AutomatonDescription
either = record {
  identifier = record { name = some (b'm' ∷ []); location = none };
  context = DescriptionContext.thread_local;
  expression =
      Expression.boolean_expr BooleanOperation.be_or
        (Expressions.cons f_call (Expressions.cons g_call Expressions.nil));
  arguments = [];
  source = none;
}

abbrev pub between : Usage
between = record {
  identifier = record { name = some (b'm' ∷ []); location = none };
  beginning = some f_call;
  end = some g_call;
}

nfa_link-Safe_example :
    Safe (nfa_parse false either (some between)) Begun
    × Safe (nfa_link 0 5 false (λ id. some either) either (some between)) Begun
nfa_link-Safe_example = nfa_link-Safe 0 5 false (λ id. some either) either (some between)

-- Whether transitions stay among `n` states and none leads to the start.
abbrev closed : ℕ → List GraphTransition → Bool
closed n [] = true
closed n (t ∷ ts) = (ltb t.from n && ltb t.to n && not (t.to == 0)) && closed n ts

closed-mem :
    (n : ℕ) (ts : List GraphTransition) (t : GraphTransition)
    → closed n ts ≡ true
    → Memᴰ t ts
    → (t.from < n) × (t.to < n) × (t.to ≢ 0)
closed-mem n [] t h m = absurd (Memᴰ.not-nil m)
closed-mem n (u ∷ ts) t h m =
    let (first, rest) = and-true (ltb u.from n && ltb u.to n && not (u.to == 0)) (closed n ts) h in
    elim (Memᴰ.cases_cons m) [
      | inl same ↦
          subst (λ (x : GraphTransition). (x.from < n) × (x.to < n) × (x.to ≢ 0)) (sym same)
            (ground arith, ground arith, λ e. ground arith)
      | inr later ↦ closed-mem n ts t rest later
    ]

pub choice-Valid : Valid choice
unfolding graph_code
choice-Valid = record {
  numbers = numbered_from-Numbered choice.transitions refl;
  placed = all_blank-AllPlaced choice.states refl;
  inside = λ t m. closed-mem 6 choice.transitions t refl m;
}

abbrev pub silent : Emitter
silent = record {
  serialize = λ l. [];
  hash = λ bytes. 0;
  short_label = λ l. [];
  printed = λ t. [];
  existing = λ name. none;
}

pub same-IsOrder : IsOrder (λ ts. ts)
same-IsOrder t ts = (λ m. m, λ m. m)

choice_stays :
    (t : GraphTransition)
    → Memᴰ t choice.transitions
    → (t.from < length choice.states) × (t.to < length choice.states)
choice_stays t m = let (from, to, _) = choice-Valid.inside t m in (from, to)

build_symbols-Alphabet_example :
    Returns
      (group_classes (begin_of (λ ts. ts)) choice.transitions []
        >>= build_symbols (λ ts. ts) silent choice)
      (λ out. Alphabet choice out.0)
build_symbols-Alphabet_example =
    build_symbols-Alphabet (λ ts. ts) silent choice same-IsOrder choice_stays (omega arith)

construct_dfa-Valid_example : Safe (construct_dfa 7 choice 64) (λ b. Valid b.graph)
construct_dfa-Valid_example = construct_dfa-Valid choice choice-Valid 7 64 (omega arith)

-- From state 1 to state 2, on a graph with a cycle.
reachable_between-Halts_example : Halts (reachable_between 9 optional_forever 2 [] 1) (Keeps [])
reachable_between-Halts_example = reachable_between-Halts optional_forever 1 2 9 [] (omega arith)

abbrev while_f : AutomatonLifetime
while_f = record {
  context = DescriptionContext.thread_local;
  init = some f_label;
  cleanup = some g_label;
}

f-Messaged : Messaged (some f_label)
unfolding has_message
f-Messaged l e = rw (sym (some-injective f_label l e)) refl

g-Messaged : Messaged (some g_label)
unfolding has_message
g-Messaged l e = rw (sym (some-injective g_label l e)) refl

automaton_lifetime_eq-Decides_example :
    Decides (automaton_lifetime_eq while_f while_f) while_f while_f
automaton_lifetime_eq-Decides_example =
    automaton_lifetime_eq-Decides while_f while_f f-Messaged g-Messaged f-Messaged g-Messaged

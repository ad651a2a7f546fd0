-- ===== src/Instrument/Compiled.antt =====
-- From the NFA to the tables: what is emitted for the DFA does what the NFA does.
use mathlib.Core.Path.{subst}
use tesla.Base.{
  Bool, Fault, List, Option, Returns, Run, arith, fault, get_elem?, inl, inr, length, ok,
  ok-injective, ok≢fault, some, sym, true, ℕ, ◌<◌, ◌>>=◌, ◌^◌, ◌↔◌, ◌∙◌, ◌≡◌, ◌≢◌, ◌≤◌, ◌⊎◌,
}
use tesla.Automata.{GraphTransition, Label}
use tesla.Automata.Classes.{EquivalenceClass}
use tesla.Automata.Graph.{Graph, known}
use tesla.Automata.Graph.Safety.{Valid}
use tesla.Dfa.{StateSet, has_state}
use tesla.Dfa.Build.{Builder, construct_dfa}
use tesla.Dfa.Build.Meaning.{construct_dfa-Simulates, construct_dfa-closed}
use tesla.Dfa.Reach.{Layered}
use tesla.Dfa.Runs.{NfaRun, Simulates}
use tesla.Instrument.{Emitter}
use tesla.Instrument.Alphabet.{IsOrder}
use tesla.Instrument.Table.{Emitted, Symbol, TableRun, emit_tables, emit_tables-DfaRun}
use tesla.Ir.{AutomatonDescription, Usage}
use tesla.NfaParser.Whole.{Descriptions, nfa_link}
use tesla.NfaParser.Whole.Safety.{Begun, nfa_link-Safe}
use tesla.Types.{Transitions}

-- The sets of the DFA's states, and what is emitted for the DFA.
unfoldable pub compile :
    ℕ
    → ℕ
    → (List GraphTransition → List GraphTransition)
    → Emitter
    → Graph
    → Run (List StateSet × (List EquivalenceClass × List Transitions))
compile depth rounds order em nfa = do
  b ← construct_dfa depth nfa rounds
  out ← emit_tables order em b.graph
  ok (b.known_sets, out)

-- The tables lead from the state 0 to the one state that stands for the states of the NFA after a word,
-- and to none where the NFA is in no state. Each event has one symbol, and each symbol a row.
pub record Compiles (nfa : Graph) (sets : List StateSet) (cs : List EquivalenceClass)
    (symbols : List Transitions) : Type 0 where
  pub one_symbol : (l : Label) (i j : ℕ) → Symbol cs l i → Symbol cs l j → i ≡ j
  pub row :
      (l : Label) (i : ℕ)
      → Symbol cs l i
      → (ts : Transitions) × (get_elem? symbols i ≡ some ts) × (0 < length ts)
  pub exact :
      (w : List Label) (d : ℕ)
      → TableRun cs symbols w d
      → (ns : StateSet) × (get_elem? sets d ≡ some ns)
        × ((j : ℕ) → has_state ns j ≡ true ↔ NfaRun nfa w j)
  pub follows : (w : List Label) (j : ℕ) → NfaRun nfa w j → (d : ℕ) × TableRun cs symbols w d
  pub one : (w : List Label) (c d : ℕ) → TableRun cs symbols w c → TableRun cs symbols w d → c ≡ d

module _ (nfa : Graph) (b : Builder) (s : Simulates nfa b) (cs : List EquivalenceClass)
    (symbols : List Transitions) (tables : Emitted b.graph cs symbols) where
  tables-Compiles : Compiles nfa b.known_sets cs symbols
  tables-Compiles = record {
    one_symbol = tables.one_symbol;
    row = tables.row;
    exact = λ w d run. s.exact w d ((tables.same w d).0 run);
    follows = λ w j run. let (d, r) = s.follows w j run in (d, (tables.same w d).1 r);
    one = λ w c d p q. s.one w c d ((tables.same w c).0 p) ((tables.same w d).0 q);
  }

-- For an NFA that is valid, has a state, and has no more states than `2 ^ n` fits 32 bits, where `rank`
-- falls along each epsilon transition and is below `depth`, and where `2 ^ n` rounds are allowed, the
-- compilation ends: with tables that do what the NFA does, or at an assertion, but neither at a
-- bad access nor for want of rounds.
pub compile-Compiles :
    (depth rounds : ℕ) (order : List GraphTransition → List GraphTransition) (em : Emitter)
    (nfa : Graph) (rank : ℕ → ℕ)
    → IsOrder order
    → Layered nfa rank
    → ((s : ℕ) → s < length nfa.states → rank s < depth)
    → Valid nfa
    → 0 < length nfa.states
    → 2 ^ length nfa.states ≤ rounds
    → 2 ^ length nfa.states ≤ 2 ^ 32
    → Returns (compile depth rounds order em nfa) (λ out. Compiles nfa out.0 (out.1).0 (out.1).1)
      ⊎ ((e : Fault) × (compile depth rounds order em nfa ≡ fault e)
          × (e ≢ Fault.bad_address)
          × (e ≢ Fault.exhausted))
unfolding compile
compile-Compiles depth rounds order em nfa rank o layers deep valid some_state enough few =
    elim (construct_dfa-Simulates depth nfa rank layers deep valid rounds some_state enough) [
      | inr (e, run, safe, ended) ↦ inr (e, rw run, safe, ended)
      | inl (b, run, s) ↦
          let closed = construct_dfa-closed depth nfa rounds valid some_state b run in
          let (out, emitted, tables) =
            emit_tables-DfaRun order em b.graph o closed (omega (arith, s.few, few)) in
          inl (
            (b.known_sets, out),
            rw (run, ◌>>=◌, emitted),
            tables-Compiles nfa b s out.0 out.1 tables,
          )
    ]

-- An automaton is parsed from its description and linked to an NFA that has no more states than `2 ^ n`
-- fits 32 bits. Where `rank` falls along each epsilon transition of the NFA and is below `depth`, and
-- `2 ^ n` rounds are allowed, its compilation ends: with tables that lead, with any word of events, to the
-- one DFA state that stands for the states of the NFA, or at an assertion, but neither at a bad access nor for want of rounds.
pub description-Compiles :
    (id nesting depth rounds : ℕ) (xor_only : Bool) (known : Descriptions)
    (d : AutomatonDescription) (usage : Option Usage)
    (order : List GraphTransition → List GraphTransition) (em : Emitter) (nfa : Graph)
    (rank : ℕ → ℕ)
    → nfa_link id nesting xor_only known d usage ≡ ok nfa
    → IsOrder order
    → Layered nfa rank
    → ((s : ℕ) → s < length nfa.states → rank s < depth)
    → 2 ^ length nfa.states ≤ rounds
    → 2 ^ length nfa.states ≤ 2 ^ 32
    → Returns (compile depth rounds order em nfa) (λ out. Compiles nfa out.0 (out.1).0 (out.1).1)
      ⊎ ((e : Fault) × (compile depth rounds order em nfa ≡ fault e)
          × (e ≢ Fault.bad_address)
          × (e ≢ Fault.exhausted))
description-Compiles id nesting depth rounds xor_only known d usage order em nfa rank linked_to o
      layers deep enough few =
    elim (nfa_link-Safe id nesting xor_only known d usage).1 [
      | inl (g, run, begun) ↦
          let (valid, some_state) = subst Begun (ok-injective (sym run ∙ linked_to)) begun in
          compile-Compiles depth rounds order em nfa rank o layers deep valid some_state enough few
      | inr (e, run, _) ↦ absurd (ok≢fault nfa e (sym linked_to ∙ run))
    ]

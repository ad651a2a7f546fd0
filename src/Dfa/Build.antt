-- ===== src/Dfa/Build.antt =====
-- tesla/common/Automaton.cpp: the DFA states, and `ConstructDFA`.
pub mod Book
pub mod Find
pub mod Picks
pub mod Emits
pub mod Rounds
pub mod Outs
pub mod Finishes
pub mod Simulates
pub mod Meaning
pub mod Gathers
pub mod Via
pub mod Measure
pub mod Closed
pub mod Safety
pub mod Terminates
use tesla.Base.{
  Bool, List, Option, Run, [], assert, contains, each_run, exhausted, false, fault, if◌then◌else◌,
  length, none, not, ok, read, replicate, some, suc, zero, ℕ, ◌++◌, ◌+◌, ◌>>=◌, ◌>>◌, ◌∷◌,
}
use tesla.Automata.{GraphTransition, Label, equivalent, is_null, is_realisable}
use tesla.Automata.Graph.{
  Graph, GraphState, build_state, copy, graph_code, known, no_states, out_of,
}
use tesla.Dfa.{Frontier, StateSet, collect_frontier, dfa_code, members_from}
use tesla.Ir.Equal.{bool_eq, list_eq}

-- A set of NFA states, with whether its DFA state starts and is final.
pub record Unfinished : Type 0 where
  pub members : StateSet
  pub start : Bool
  pub final : Bool

-- The fields of `DFABuilder`. `known_sets` is `DFAStates`: the set of the DFA state with ID `i` is at
-- `i`. `unfinished` has its back first.
pub record Builder : Type 0 where
  pub known_sets : List StateSet
  pub finished : List ℕ
  pub unfinished : List Unfinished
  pub graph : Graph
  pub ref_count : ℕ

pub find_set : List StateSet → StateSet → ℕ → Option ℕ
find_set [] ns i = none
find_set (k ∷ ks) ns i = if list_eq bool_eq k ns then some i else find_set ks ns (i + 1)

-- A new DFA state, which is to be emitted.
pub new_state : StateSet → Bool → Bool → Builder → ℕ × Builder
new_state ns start final b =
    let (i, g) = build_state start final (if start then some b.ref_count else none) b.graph in
    (
      i,
      record b {
        known_sets = b.known_sets ++ ns ∷ [];
        unfinished = record { members = ns; start = start; final = final } ∷ b.unfinished;
        graph = g;
      },
    )

pub known_or_new : Option ℕ → StateSet → Bool → Bool → Builder → ℕ × Builder
known_or_new (some i) ns start final b = (i, b)
known_or_new none ns start final b = new_state ns start final b

-- `stateForNFAStates`
pub state_for_nfa_states : StateSet → Bool → Bool → Builder → ℕ × Builder
state_for_nfa_states ns start final b = known_or_new (find_set b.known_sets ns 0) ns start final b

-- What the loops over the transitions of one DFA state change: the transitions that are finished,
-- and the flags `Start` and `Final`.
pub record Round : Type 0 where
  pub builder : Builder
  pub finished_transitions : List ℕ
  pub start : Bool
  pub final : Bool

-- The destinations of the transitions equivalent to one, and those transitions.
pub record Gather : Type 0 where
  pub frontier : Frontier
  pub gathered : List ℕ

-- The builder when it has taken the references of the NFA's first state.
pub first_builder : GraphState → Builder
first_builder first = record {
  known_sets = [];
  finished = [];
  unfinished = [];
  graph = no_states;
  ref_count = length (known first);
}

module _ (depth : ℕ) (nfa : Graph) where
  pub add_destination : GraphTransition → Gather → Run Gather
  add_destination t a = do
    assert (not (contains a.gathered t.address))
    f ← collect_frontier depth nfa t.to a.frontier
    ok (record { frontier = f; gathered = t.address ∷ a.gathered })

  -- Adds the destinations of a transition, if it is equivalent to one with label `l`.
  pub gather : Label → GraphTransition → Gather → Run Gather
  gather l t a = if equivalent t.label l then add_destination t a else ok a

  -- The destinations of a transition and of all its equivalents: the later ones of its source, and
  -- those of the later members of the set.
  pub destinations : GraphTransition → List GraphTransition → Round → Run Gather
  destinations t others r = do
    f ←
        collect_frontier depth nfa t.to (record {
          members = replicate (length nfa.states) false;
          start = r.start;
          final = r.final;
        })
    each_run (gather t.label) others
        (record { frontier = f; gathered = t.address ∷ r.finished_transitions })

  -- A transition that is not finished gives the DFA state a transition.
  pub new_transition : ℕ → GraphTransition → List GraphTransition → Round → Run Round
  new_transition ds t others r = do
    a ← destinations t others r
    let (dest, b) =
          state_for_nfa_states a.frontier.members a.frontier.start a.frontier.final r.builder in
        do
          g ← copy ds dest t false b.graph
          ok (record {
            builder = record b { graph = g };
            finished_transitions = a.gathered;
            start = a.frontier.start;
            final = a.frontier.final;
          })

  -- One round of the loop over the transitions of an NFA state
  pub take_transition : ℕ → GraphTransition → List GraphTransition → Round → Run Round
  take_transition ds t others r =
      if is_null t.label
      then ok r
      else assert (is_realisable t.label)
        >> (if contains r.finished_transitions t.address
            then ok r
            else new_transition ds t others r)

  -- The transitions of one NFA state; `later` are those of the later members.
  pub take_transitions : ℕ → List GraphTransition → List GraphTransition → Round → Run Round
  take_transitions ds [] later r = ok r
  take_transitions ds (t ∷ ts) later r =
      take_transition ds t (ts ++ later) r >>= take_transitions ds ts later

  -- The transitions of some NFA states.
  pub all_out : List ℕ → List GraphTransition
  all_out [] = []
  all_out (s ∷ ss) = out_of s nfa.transitions ++ all_out ss

  -- The members of the set: the flags start anew for each.
  pub take_members : ℕ → List ℕ → Round → Run Round
  take_members ds [] r = ok r
  take_members ds (s ∷ ss) r =
      take_transitions ds (out_of s nfa.transitions) (all_out ss)
        (record r { start = false; final = false })
      >>= take_members ds ss

  -- The transitions of a DFA state
  pub emit_state : ℕ → Unfinished → Builder → Run Builder
  emit_state ds u b = do
    r ← take_members ds (members_from 0 u.members) (record {
      builder = record b { finished = ds ∷ b.finished };
      finished_transitions = [];
      start = u.start;
      final = u.final;
    })
    ok r.builder

  -- One round of the loop, after a set has left the unfinished ones.
  pub finish_state : Unfinished → Builder → Run Builder
  finish_state u b₀ =
      let (ds, b) = state_for_nfa_states u.members u.start u.final b₀ in
      if contains b.finished ds then ok b else emit_state ds u b

  -- The loop over the unfinished states: `again` is the rest of it.
  pub while_unfinished : (Builder → Run Builder) → List Unfinished → Builder → Run Builder
  while_unfinished again [] b = ok b
  while_unfinished again (u ∷ us) b = finish_state u (record b { unfinished = us }) >>= again

  pub finish_states : ℕ → Builder → Run Builder
  finish_states zero b = while_unfinished (λ _. fault exhausted) b.unfinished b
  finish_states (suc rounds) b = while_unfinished (finish_states rounds) b.unfinished b

  -- `ConstructDFA`, up to the grouping of the transitions into classes: the state of the NFA's first
  -- state, and the rounds.
  pub construct_dfa : ℕ → Run Builder
  construct_dfa rounds = do
    first ← read nfa.states 0
    f ←
        collect_frontier depth nfa 0
          (record { members = replicate (length nfa.states) false; start = false; final = false })
    finish_states rounds (state_for_nfa_states f.members f.start f.final (first_builder first)).1

-- What an evaluation has to unfold.
unfoldable pub build_code : Unit {0}
unfolding find_set new_state known_or_new state_for_nfa_states first_builder add_destination gather
    destinations new_transition take_transition take_transitions all_out take_members emit_state
    finish_state while_unfinished finish_states construct_dfa dfa_code graph_code
build_code = tt

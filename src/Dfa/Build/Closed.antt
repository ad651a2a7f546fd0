-- ===== src/Dfa/Build/Closed.antt =====
-- The graph of the DFA: its transitions stay among its states.
use mathlib.Core.Option.{some-injective}
use mathlib.Core.Path.{subst}
use tesla.Base.{
  Bool, Bool-cases, List, Option, [], arith, if◌then◌else◌, inl, inr, length, length-append, none,
  refl, some, ℕ, ◌+◌, ◌<◌, ◌∷◌, ◌≡◌, ◌≤◌,
}
use tesla.Automata.Graph.Safety.{Valid, build_state-Extends, build_state_count}
use tesla.Dfa.{StateSet}
use tesla.Dfa.Build.{Builder, find_set, known_or_new, new_state, state_for_nfa_states}
use tesla.Ir.Equal.{bool_eq, list_eq}

-- Each set that is known has a state.
pub record Sized (b : Builder) : Type 0 where
  pub valid : Valid b.graph
  pub count : length b.known_sets ≤ length b.graph.states

-- A builder after another, which it has all the states of.
pub record Later (b b' : Builder) : Type 0 where
  pub sized : Sized b'
  pub states_le : length b.graph.states ≤ length b'.graph.states

find_set-lt :
    (ks : List StateSet) (ns : StateSet) (i j : ℕ) → find_set ks ns i ≡ some j → j < i + length ks
unfolding find_set
find_set-lt [] ns i j e = cc
find_set-lt (k ∷ ks) ns i j e = elim (Bool-cases (list_eq bool_eq k ns)) [
  | inl same ↦
      let found = subst (λ b. (if b then some i else find_set ks ns (i + 1)) ≡ some j) same e in
      let at : i ≡ j = some-injective i j found in omega (arith, at)
  | inr other ↦
      let later = subst (λ b. (if b then some i else find_set ks ns (i + 1)) ≡ some j) other e in
      omega (arith, find_set-lt ks ns (i + 1) j later)
]

-- The state for a set: one of the builder's, old or new.
pub record Chosen (b : Builder) (r : ℕ × Builder) : Type 0 where
  pub later : Later b r.1
  pub inside : r.0 < length r.1.graph.states

known_or_new-Chosen :
    (found : Option ℕ) (ns : StateSet) (start final : Bool) (b : Builder)
    → Sized b
    → ((i : ℕ) → found ≡ some i → i < length b.known_sets)
    → Chosen b (known_or_new found ns start final b)
unfolding known_or_new new_state
known_or_new-Chosen none ns start final b s h =
    let count = if start then some b.ref_count else none in
    let (grows, inside) = build_state-Extends start final count b.graph s.valid in
    let longer = length-append b.known_sets (ns ∷ []) in
    let one_more = build_state_count start final count b.graph in
    record {
      later = record {
        sized = record { valid = grows.valid; count = omega (arith, longer, s.count, one_more) };
        states_le = grows.states_le;
      };
      inside = inside;
    }
known_or_new-Chosen (some i) ns start final b s h = record {
  later = record { sized = s; states_le = omega arith };
  inside = omega (arith, h i refl, s.count);
}

pub state_for_nfa_states-Chosen :
    (ns : StateSet) (start final : Bool) (b : Builder)
    → Sized b
    → Chosen b (state_for_nfa_states ns start final b)
unfolding state_for_nfa_states
state_for_nfa_states-Chosen ns start final b s =
    known_or_new-Chosen (find_set b.known_sets ns 0) ns start final b s
      (λ i e. omega (arith, find_set-lt b.known_sets ns 0 i e))

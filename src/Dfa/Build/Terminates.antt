-- ===== src/Dfa/Build/Terminates.antt =====
-- The rounds of `ConstructDFA`: each takes one set off the unfinished ones.
use mathlib.Core.List.Memᴰ
use mathlib.Core.List.{Memᴰ}
use mathlib.Core.Path.{subst}
use tesla.Base.{
  Avoids-bind, Avoids-each_run, Avoids-if, Halts, Halts-assert, Halts-read-some, List, Run, [], ap,
  arith, assert, contains, exhausted, false, fault, get_elem?, get_elem?-lt, inl, inr, length,
  length-replicate, not, ok, read, refl, some, suc, sym, true, zero, ℕ, ◌++◌, ◌-◌, ◌<◌, ◌^◌, ◌∙◌,
  ◌∷◌, ◌≡◌, ◌≤◌,
}
use tesla.Automata.{GraphTransition, Label, equivalent, is_null, is_realisable}
use tesla.Automata.Graph.{Graph, GraphState, copy, out_of}
use tesla.Automata.Graph.Halting.{copy-Halts}
use tesla.Dfa.{Frontier, collect_frontier, members_from}
use tesla.Dfa.Build.{
  Builder, Gather, Round, Unfinished, add_destination, all_out, construct_dfa, destinations,
  emit_state, finish_state, finish_states, first_builder, gather, new_transition,
  state_for_nfa_states, take_members, take_transition, take_transitions, while_unfinished,
}
use tesla.Dfa.Build.Measure.{Complete, Within, state_for_nfa_states-Within}
use tesla.Dfa.Reach.{Layered, collect_frontier-Adds}
use tesla.Dfa.Sets.{all_sets, length-all_sets, unseen_le}

-- Transitions that stay among the NFA's states.
abbrev Staying : ℕ → List GraphTransition → Type 0
Staying n ts = (t : GraphTransition) → Memᴰ t ts → t.to < n

module _ (depth : ℕ) (nfa : Graph) (rank : ℕ → ℕ) (layers : Layered nfa rank)
    (deep : (s : ℕ) → s < length nfa.states → rank s < depth) where
  abbrev width : ℕ
  width = length nfa.states

  frontier-Halts :
      (s : ℕ) (f : Frontier)
      → s < width
      → length f.members ≡ width
      → Halts (collect_frontier depth nfa s f) (λ r. length r.members ≡ width)
  frontier-Halts s f h w =
      let (r, run, a) = collect_frontier-Adds nfa rank depth s f layers h w (deep s h) in
      inl (r, run, a.width ∙ w)

  -- What the loops over destinations keep.
  abbrev WideGather : Gather → Type 0
  WideGather a = length a.frontier.members ≡ width

  add_destination-Halts :
      (t : GraphTransition) (a : Gather)
      → t.to < width
      → WideGather a
      → Halts (add_destination depth nfa t a) WideGather
  unfolding add_destination
  add_destination-Halts t a h w =
      Avoids-bind (λ _. not (contains a.gathered t.address) ≡ true) WideGather
        (assert (not (contains a.gathered t.address))) _
        (Halts-assert (not (contains a.gathered t.address)))
        λ _ _.
          Avoids-bind (λ (r : Frontier). length r.members ≡ width) WideGather
            (collect_frontier depth nfa t.to a.frontier) _ (frontier-Halts t.to a.frontier h w)
            λ f e. inl (_, refl, e)

  gather-Halts :
      (l : Label) (t : GraphTransition) (a : Gather)
      → t.to < width
      → WideGather a
      → Halts (gather depth nfa l t a) WideGather
  unfolding gather
  gather-Halts l t a h w =
      Avoids-if WideGather (equivalent t.label l) (add_destination depth nfa t a) (ok a)
        (λ _. add_destination-Halts t a h w) (λ _. inl (a, refl, w))

  destinations-Halts :
      (t : GraphTransition) (others : List GraphTransition) (r : Round)
      → t.to < width
      → Staying width others
      → Halts (destinations depth nfa t others r) WideGather
  unfolding destinations
  destinations-Halts t others r h stay =
      Avoids-bind (λ (x : Frontier). length x.members ≡ width) WideGather
        (collect_frontier depth nfa t.to _) _
        (frontier-Halts t.to _ h (length-replicate width false))
        λ f e.
          Avoids-each_run WideGather (gather depth nfa t.label) others _
            (λ u a m w. gather-Halts t.label u a (stay u m) w) e

  abbrev RoundWithin : ℕ → Round → Type 0
  RoundWithin c r = Within width c r.builder

  module _ (c ds : ℕ) where
    new_transition-Halts :
        (t : GraphTransition) (others : List GraphTransition) (r : Round)
        → t.to < width
        → Staying width others
        → RoundWithin c r
        → Halts (new_transition depth nfa ds t others r) (RoundWithin c)
    unfolding new_transition
    new_transition-Halts t others r h stay within =
        Avoids-bind WideGather (RoundWithin c) (destinations depth nfa t others r) _
          (destinations-Halts t others r h stay)
          λ a w.
            let met =
              state_for_nfa_states-Within width c a.frontier.members a.frontier.start
                a.frontier.final r.builder w within in
            Avoids-bind (λ _. Unit {0}) (RoundWithin c) (copy ds _ t false _) _
              (copy-Halts ds _ t false _)
              λ g _. inl (_, refl, record { wide = met.wide; rounds = met.rounds; size = met.size })

    take_transition-Halts :
        (t : GraphTransition) (others : List GraphTransition) (r : Round)
        → t.to < width
        → Staying width others
        → RoundWithin c r
        → Halts (take_transition depth nfa ds t others r) (RoundWithin c)
    unfolding take_transition
    take_transition-Halts t others r h stay within =
        Avoids-if (RoundWithin c) (is_null t.label) (ok r) _ (λ _. inl (r, refl, within))
          λ _.
            Avoids-bind (λ _. is_realisable t.label ≡ true) (RoundWithin c)
              (assert (is_realisable t.label)) _ (Halts-assert (is_realisable t.label))
              λ _ _.
                Avoids-if (RoundWithin c) (contains r.finished_transitions t.address) (ok r)
                  (new_transition depth nfa ds t others r) (λ _. inl (r, refl, within))
                  (λ _. new_transition-Halts t others r h stay within)

    take_transitions-Halts :
        (ts later : List GraphTransition) (r : Round)
        → Staying width (ts ++ later)
        → RoundWithin c r
        → Halts (take_transitions depth nfa ds ts later r) (RoundWithin c)
    unfolding take_transitions
    take_transitions-Halts [] later r stay within = inl (r, refl, within)
    take_transitions-Halts (t ∷ ts) later r stay within =
        Avoids-bind (RoundWithin c) (RoundWithin c) (take_transition depth nfa ds t (ts ++ later) r)
          _
          (take_transition-Halts t (ts ++ later) r (stay t (Memᴰ.head refl))
            (λ u m. stay u (Memᴰ.tail m)) within)
          λ r' within'. take_transitions-Halts ts later r' (λ u m. stay u (Memᴰ.tail m)) within'

    all_out-Staying : (ss : List ℕ) → Staying width (all_out depth nfa ss)
    unfolding all_out
    all_out-Staying [] t m = absurd (Memᴰ.not-nil m)
    all_out-Staying (s ∷ ss) t m = elim (Memᴰ.append_cases (out_of s nfa.transitions) m) [
      | inl mine ↦ layers.inside s t mine
      | inr others ↦ all_out-Staying ss t others
    ]

    take_members-Halts :
        (ss : List ℕ) (r : Round)
        → RoundWithin c r
        → Halts (take_members depth nfa ds ss r) (RoundWithin c)
    unfolding take_members all_out
    take_members-Halts [] r within = inl (r, refl, within)
    take_members-Halts (s ∷ ss) r within =
        Avoids-bind (RoundWithin c) (RoundWithin c)
          (take_transitions depth nfa ds (out_of s nfa.transitions) (all_out depth nfa ss) _) _
          (take_transitions-Halts (out_of s nfa.transitions) (all_out depth nfa ss) _
            (all_out-Staying (s ∷ ss)) within)
          λ r' within'. take_members-Halts ss r' within'

  finish_state-Halts :
      (c : ℕ) (u : Unfinished) (b : Builder)
      → length u.members ≡ width
      → Within width c b
      → Halts (finish_state depth nfa u b) (Within width c)
  unfolding finish_state emit_state
  finish_state-Halts c u b w within =
      let met = state_for_nfa_states-Within width c u.members u.start u.final b w within in
      let (ds, b') = state_for_nfa_states u.members u.start u.final b in
      Avoids-if (Within width c) (contains b'.finished ds) (ok b') (emit_state depth nfa ds u b')
        (λ _. inl (b', refl, met))
        λ _.
          Avoids-bind (RoundWithin c) (Within width c)
            (take_members depth nfa ds (members_from 0 u.members) _) _
            (take_members-Halts c ds (members_from 0 u.members) _
              (record { wide = met.wide; rounds = met.rounds; size = met.size }))
            λ r within'. inl (r.builder, refl, within')

  while_unfinished-Halts :
      (c : ℕ) (again : Builder → Run Builder) (us : List Unfinished) (b : Builder)
      → us ≡ b.unfinished
      → Within width c b
      → ((b' : Builder) → 1 ≤ c → Within width (c - 1) b' → Halts (again b') (Complete width))
      → Halts (while_unfinished depth nfa again us b) (Complete width)
  unfolding while_unfinished
  while_unfinished-Halts c again [] b e within next =
      inl (b, refl, record { all_finished = sym e; states_le = omega (arith, within.size) })
  while_unfinished-Halts c again (u ∷ us) b e within next =
      let longer : suc (length us) ≡ length b.unfinished = ap length e in
      Avoids-bind (Within width (c - 1)) (Complete width)
        (finish_state depth nfa u (record b { unfinished = us })) again
        (finish_state-Halts (c - 1) u (record b { unfinished = us })
          (within.wide u (subst (Memᴰ u) e (Memᴰ.head refl)))
          (record {
            wide = λ v m. within.wide v (subst (Memᴰ v) e (Memᴰ.tail m));
            rounds = omega (arith, within.rounds, longer);
            size = within.size;
          }))
        λ b' within'. next b' (omega (arith, within.rounds, longer)) within'

  finish_states-Halts :
      (rounds : ℕ) (b : Builder)
      → Within width rounds b
      → Halts (finish_states depth nfa rounds b) (Complete width)
  unfolding finish_states
  finish_states-Halts zero b within =
      while_unfinished-Halts 0 (λ _. fault exhausted) b.unfinished b refl within
        (λ b' least _. absurd (omega (arith, least)))
  finish_states-Halts (suc rounds) b within =
      while_unfinished-Halts (suc rounds) (finish_states depth nfa rounds) b.unfinished b refl
        within
        (λ b' _ within'.
          finish_states-Halts rounds b' (subst (λ c. Within width c b') (omega arith) within'))

  first_builder-Within :
      (rounds : ℕ) (first : GraphState)
      → 2 ^ width ≤ rounds
      → Within width rounds (first_builder first)
  unfolding first_builder
  first_builder-Within rounds first enough =
      let few = unseen_le [] (all_sets width) in
      let all = length-all_sets width in
      record {
        wide = λ u m. absurd (Memᴰ.not-nil m);
        rounds = omega (arith, few, all, enough);
        size = omega (arith, few, all);
      }

  -- Where `rank` falls along each epsilon transition and is below `depth`, no transition leaves the
  -- states, and `2 ^ n` rounds are allowed for `n` states, the construction ends: with a complete
  -- DFA of at most `2 ^ n` states, or with a failed assertion or a bad access of the program.
  pub construct_dfa-Halts :
      (rounds : ℕ) → 2 ^ width ≤ rounds → Halts (construct_dfa depth nfa rounds) (Complete width)
  unfolding construct_dfa
  construct_dfa-Halts rounds enough =
      Avoids-bind (λ (state : GraphState). get_elem? nfa.states 0 ≡ some state) (Complete width)
        (read nfa.states 0) _ (Halts-read-some nfa.states 0)
        λ first at.
          Avoids-bind (λ (f : Frontier). length f.members ≡ width) (Complete width)
            (collect_frontier depth nfa 0 _) _
            (frontier-Halts 0 _ (get_elem?-lt nfa.states 0 first at) (length-replicate width false))
            λ f w. finish_states-Halts rounds _ (
              state_for_nfa_states-Within width rounds f.members f.start f.final
                (first_builder first) w (first_builder-Within rounds first enough))

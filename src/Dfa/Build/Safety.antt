-- ===== src/Dfa/Build/Safety.antt =====
-- The construction of a DFA from a graph whose transitions stay among its states.
use mathlib.Core.List.Memᴰ
use mathlib.Core.List.{Memᴰ}
use tesla.Base.{
  Avoids-bind, Avoids-each_run, Avoids-if, Avoids-weaken, Fault, List, Run, Safe, Safe-read, [],
  arith, contains, exhausted, false, fault, get_elem?, inl, inr, length, not, ok, read, refl, some,
  suc, true, zero, ℕ, ◌++◌, ◌<◌, ◌∷◌, ◌≡◌,
}
use tesla.Automata.{GraphTransition, Label, equivalent, is_null, is_realisable}
use tesla.Automata.Graph.{Graph, GraphState, copy, out_of}
use tesla.Automata.Graph.Out.{out_of-mem}
use tesla.Automata.Graph.References.{Safe-after}
use tesla.Automata.Graph.Safety.{Copied, Valid, copy-Safe, no_states-Valid}
use tesla.Dfa.{Frontier, collect_frontier, collect_members, join_frontier, members_from}
use tesla.Dfa.Build.{
  Builder, Gather, Round, Unfinished, add_destination, all_out, construct_dfa, destinations,
  emit_state, finish_state, finish_states, first_builder, gather, new_transition,
  state_for_nfa_states, take_members, take_transition, take_transitions, while_unfinished,
}
use tesla.Dfa.Build.Closed.{Sized, state_for_nfa_states-Chosen}

abbrev Staying : ℕ → List GraphTransition → Type 0
Staying n ts = (t : GraphTransition) → Memᴰ t ts → t.to < n

abbrev Nothing : {A : Type 0} → A → Type 0
Nothing a = Unit {0}

-- In a round for the DFA state `ds`.
record InRound (ds : ℕ) (r : Round) : Type 0 where
  sized : Sized r.builder
  here : ds < length r.builder.graph.states

module _ (nfa : Graph) (v : Valid nfa) where
  abbrev width : ℕ
  width = length nfa.states

  out-Staying : (s : ℕ) → Staying width (out_of s nfa.transitions)
  out-Staying s t m = (v.inside t (out_of-mem s nfa.transitions t m).0).1

  frontier-Safe :
      (depth s : ℕ) (f : Frontier) → s < width → Safe (collect_frontier depth nfa s f) Nothing
  unfolding collect_frontier collect_members
  frontier-Safe zero s f h = inr (Fault.exhausted, refl, λ e. cc)
  frontier-Safe (suc depth) s f h =
      Avoids-bind (λ (state : GraphState). get_elem? nfa.states s ≡ some state) Nothing
        (read nfa.states s) _ (Safe-read nfa.states s h)
        λ state _.
          Avoids-each_run Nothing _ (out_of s nfa.transitions) (join_frontier s state f)
            (λ t f' m _.
              Avoids-if Nothing (is_null t.label) _ (ok f')
                (λ _.
                  Avoids-bind Nothing Nothing
                    (collect_frontier depth nfa t.to
                      (record { members = f'.members; start = true; final = true }))
                    _ (frontier-Safe depth t.to _ (out-Staying s t m)) (λ r _. inl (_, refl, tt)))
                (λ _. inl (f', refl, tt)))
            tt

  module _ (depth : ℕ) where
    gather-Safe :
        (l : Label) (t : GraphTransition) (a : Gather)
        → t.to < width
        → Safe (gather depth nfa l t a) Nothing
    unfolding gather add_destination
    gather-Safe l t a h =
        Avoids-if Nothing (equivalent t.label l) _ (ok a)
          (λ _. Safe-after Nothing (not (contains a.gathered t.address)) _ λ _.
            Avoids-bind Nothing Nothing (collect_frontier depth nfa t.to a.frontier) _
              (frontier-Safe depth t.to a.frontier h) (λ f _. inl (_, refl, tt)))
          (λ _. inl (a, refl, tt))

    destinations-Safe :
        (t : GraphTransition) (others : List GraphTransition) (r : Round)
        → t.to < width
        → Staying width others
        → Safe (destinations depth nfa t others r) Nothing
    unfolding destinations
    destinations-Safe t others r h stay =
        Avoids-bind Nothing Nothing (collect_frontier depth nfa t.to _) _
          (frontier-Safe depth t.to _ h)
          λ f _.
            Avoids-each_run Nothing (gather depth nfa t.label) others _
              (λ u a m _. gather-Safe t.label u a (stay u m)) tt

    module _ (ds : ℕ) where
      new_transition-Safe :
          (t : GraphTransition) (others : List GraphTransition) (r : Round)
          → t.to < width
          → Staying width others
          → InRound ds r
          → Safe (new_transition depth nfa ds t others r) (InRound ds)
      unfolding new_transition
      new_transition-Safe t others r h stay i =
          Avoids-bind Nothing (InRound ds) (destinations depth nfa t others r) _
            (destinations-Safe t others r h stay)
            λ a _.
              let c =
                state_for_nfa_states-Chosen a.frontier.members a.frontier.start a.frontier.final
                  r.builder i.sized in
              let (dest, b) =
                state_for_nfa_states a.frontier.members a.frontier.start a.frontier.final
                  r.builder in
              let here : ds < length b.graph.states = omega (arith, i.here, c.later.states_le) in
              Avoids-bind (Copied t.label b.graph) (InRound ds) (copy ds dest t false b.graph) _
                (copy-Safe ds dest b.graph c.later.sized.valid here c.inside t false)
                λ g k. inl (
                  _,
                  refl,
                  record {
                    sized = record {
                      valid = k.grows.valid;
                      count = omega (arith, c.later.sized.count, k.grows.states_le);
                    };
                    here = omega (arith, here, k.grows.states_le);
                  },
                )

      take_transition-Safe :
          (t : GraphTransition) (others : List GraphTransition) (r : Round)
          → t.to < width
          → Staying width others
          → InRound ds r
          → Safe (take_transition depth nfa ds t others r) (InRound ds)
      unfolding take_transition
      take_transition-Safe t others r h stay i =
          Avoids-if (InRound ds) (is_null t.label) (ok r) _ (λ _. inl (r, refl, i))
            λ _. Safe-after (InRound ds) (is_realisable t.label) _ λ _.
              Avoids-if (InRound ds) (contains r.finished_transitions t.address) (ok r) _
                (λ _. inl (r, refl, i)) (λ _. new_transition-Safe t others r h stay i)

      take_transitions-Safe :
          (ts later : List GraphTransition) (r : Round)
          → Staying width (ts ++ later)
          → InRound ds r
          → Safe (take_transitions depth nfa ds ts later r) (InRound ds)
      unfolding take_transitions
      take_transitions-Safe [] later r stay i = inl (r, refl, i)
      take_transitions-Safe (t ∷ ts) later r stay i =
          Avoids-bind (InRound ds) (InRound ds) (take_transition depth nfa ds t (ts ++ later) r) _
            (take_transition-Safe t (ts ++ later) r (stay t (Memᴰ.head refl))
              (λ u m. stay u (Memᴰ.tail m)) i)
            λ r' i'. take_transitions-Safe ts later r' (λ u m. stay u (Memᴰ.tail m)) i'

      all_out-Staying : (ss : List ℕ) → Staying width (all_out depth nfa ss)
      unfolding all_out
      all_out-Staying [] t m = absurd (Memᴰ.not-nil m)
      all_out-Staying (s ∷ ss) t m = elim (Memᴰ.append_cases (out_of s nfa.transitions) m) [
        | inl mine ↦ out-Staying s t mine
        | inr others ↦ all_out-Staying ss t others
      ]

      take_members-Safe :
          (ss : List ℕ) (r : Round)
          → InRound ds r
          → Safe (take_members depth nfa ds ss r) (InRound ds)
      unfolding take_members all_out
      take_members-Safe [] r i = inl (r, refl, i)
      take_members-Safe (s ∷ ss) r i =
          Avoids-bind (InRound ds) (InRound ds)
            (take_transitions depth nfa ds (out_of s nfa.transitions) (all_out depth nfa ss) _) _
            (take_transitions-Safe (out_of s nfa.transitions) (all_out depth nfa ss) _
              (all_out-Staying (s ∷ ss)) (record { sized = i.sized; here = i.here }))
            λ r' i'. take_members-Safe ss r' i'

    finish_state-Safe :
        (u : Unfinished) (b : Builder) → Sized b → Safe (finish_state depth nfa u b) Sized
    unfolding finish_state emit_state
    finish_state-Safe u b s =
        let c = state_for_nfa_states-Chosen u.members u.start u.final b s in
        let (ds, b') = state_for_nfa_states u.members u.start u.final b in
        Avoids-if Sized (contains b'.finished ds) (ok b') _ (λ _. inl (b', refl, c.later.sized))
          λ _.
            Avoids-bind (InRound ds) Sized (take_members depth nfa ds (members_from 0 u.members) _)
              _
              (take_members-Safe ds (members_from 0 u.members) _ (record {
                sized = record { valid = c.later.sized.valid; count = c.later.sized.count };
                here = c.inside;
              }))
              λ r i. inl (r.builder, refl, i.sized)

    while_unfinished-Safe :
        (again : Builder → Run Builder) (us : List Unfinished) (b : Builder)
        → Sized b
        → ((b' : Builder) → Sized b' → Safe (again b') Sized)
        → Safe (while_unfinished depth nfa again us b) Sized
    unfolding while_unfinished
    while_unfinished-Safe again [] b s next = inl (b, refl, s)
    while_unfinished-Safe again (u ∷ us) b s next =
        Avoids-bind Sized Sized (finish_state depth nfa u (record b { unfinished = us })) again
          (finish_state-Safe u (record b { unfinished = us })
            (record { valid = s.valid; count = s.count }))
          next

    finish_states-Safe :
        (rounds : ℕ) (b : Builder) → Sized b → Safe (finish_states depth nfa rounds b) Sized
    unfolding finish_states
    finish_states-Safe zero b s =
        while_unfinished-Safe (λ _. fault exhausted) b.unfinished b s
          (λ b' _. inr (Fault.exhausted, refl, λ e. cc))
    finish_states-Safe (suc rounds) b s =
        while_unfinished-Safe (finish_states depth nfa rounds) b.unfinished b s
          (finish_states-Safe rounds)

    -- The construction of a DFA from a graph that has a state, and all of whose transitions are
    -- between its states, not to the start state, and have addresses of their own, and whose states know
    -- each reference at its index, never reads a state or a reference that is not there. It ends with such a graph, or stops at an assertion or where the
    -- depth or the rounds are used up.
    pub construct_dfa-Valid :
        (rounds : ℕ)
        → 0 < length nfa.states
        → Safe (construct_dfa depth nfa rounds) (λ b. Valid b.graph)
    unfolding construct_dfa first_builder
    construct_dfa-Valid rounds some_state =
        Avoids-bind (λ (state : GraphState). get_elem? nfa.states 0 ≡ some state)
          (λ (b : Builder). Valid b.graph) (read nfa.states 0) _ (Safe-read nfa.states 0 some_state)
          λ first _.
            Avoids-bind Nothing (λ (b : Builder). Valid b.graph) (collect_frontier depth nfa 0 _) _
              (frontier-Safe depth 0 _ some_state)
              λ f _.
                Avoids-weaken Sized (λ (b : Builder). Valid b.graph)
                  (finish_states depth nfa rounds _)
                  (finish_states-Safe rounds _
                    (state_for_nfa_states-Chosen f.members f.start f.final (first_builder first)
                      (record { valid = no_states-Valid; count = omega arith })).later.sized)
                  (λ b s. s.valid)

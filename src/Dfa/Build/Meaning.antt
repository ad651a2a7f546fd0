-- ===== src/Dfa/Build/Meaning.antt =====
-- The DFA that `ConstructDFA` gives does what the NFA does.
use mathlib.Core.List.Memᴰ
use mathlib.Core.List.{Memᴰ}
use mathlib.Core.Option.{some-injective}
use mathlib.Core.Path.{subst}
use tesla.Base.{
  Fault, Returns, Yields, Yields-bind, Yields-read, [], false, fault, fault-injective, get_elem?,
  get_elem?-lt, inl, inr, length, length-replicate, mem-one, ok-injective, ok≢fault, read, refl,
  replicate, some, suc, sym, zero, ℕ, ◌<◌, ◌^◌, ◌∙◌, ◌∷◌, ◌≡◌, ◌≢◌, ◌≤◌, ◌⊎◌,
}
use tesla.Automata.Graph.{Graph, GraphState, build_state}
use tesla.Automata.Graph.Safety.{Valid}
use tesla.Dfa.{Frontier, StateSet, collect_frontier}
use tesla.Dfa.Build.{
  Builder, Unfinished, construct_dfa, find_set, first_builder, known_or_new, new_state,
  state_for_nfa_states,
}
use tesla.Dfa.Build.Book.{SetFits}
use tesla.Dfa.Build.Finishes.{Kept, finish_states-Finished}
use tesla.Dfa.Build.Gathers.{frontier-Adds, frontier-exact}
use tesla.Dfa.Build.Safety.{construct_dfa-Valid}
use tesla.Dfa.Build.Simulates.{Constructed, Constructed-Simulates}
use tesla.Dfa.Build.Terminates.{construct_dfa-Halts}
use tesla.Dfa.Marks.{Adds, accepts}
use tesla.Dfa.Reach.{EpsilonPath, Layered, Solid-direct}
use tesla.Dfa.Runs.{Simulates}
use tesla.Store.{fit}

one_place : (ms ns : StateSet) (i : ℕ) → get_elem? (ms ∷ []) i ≡ some ns → (i ≡ 0) × (ms ≡ ns)
one_place ms ns zero at = (refl, some-injective ms ns at)
one_place ms ns (suc i) at = cc

module _ (depth : ℕ) (nfa : Graph) (rank : ℕ → ℕ) (layers : Layered nfa rank)
    (deep : (s : ℕ) → s < length nfa.states → rank s < depth) (valid : Valid nfa) where
  -- The book with one set, which is unfinished.
  one_set-Book :
      (first : GraphState) (f : Frontier)
      → SetFits nfa f.members f.final
      → Kept depth nfa f.members
          (λ ns. ⊥)
          (state_for_nfa_states f.members f.start f.final (first_builder first)).1
  unfolding state_for_nfa_states known_or_new new_state first_builder find_set build_state
  one_set-Book first f fit = record {
    begins = refl;
    distinct = λ i j ns p q. (one_place f.members ns i p).0 ∙ sym (one_place f.members ns j q).0;
    aligned = refl;
    fits = λ i ns at.
        let (here, is) = one_place f.members ns i at in
        let g = (state_for_nfa_states f.members f.start f.final (first_builder first)).1.graph in
        subst (λ n. SetFits nfa ns (accepts g n)) (sym here)
          (subst (λ ms. SetFits nfa ms f.final) is fit);
    fits_later =
        λ u m. subst (λ (x : Unfinished). SetFits nfa x.members x.final) (sym (mem-one m)) fit;
    waiting = λ i ns at. inr (inl (_, Memᴰ.head refl, (one_place f.members ns i at).1));
    origin = λ e m. absurd (Memᴰ.not-nil m);
    settled = λ d h. cc;
  }

  construct_dfa-Constructed :
      (rounds : ℕ) → Yields (construct_dfa depth nfa rounds) (Constructed depth nfa)
  unfolding construct_dfa
  construct_dfa-Constructed rounds =
      let Q = Constructed depth nfa in
      let f₀ : Frontier = record {
        members = replicate (length nfa.states) false;
        start = false;
        final = false;
      } in
      let w = length-replicate (length nfa.states) false in
      Yields-bind (λ (s : GraphState). get_elem? nfa.states 0 ≡ some s) Q (read nfa.states 0) _
        (Yields-read nfa.states 0)
        λ first at.
          Yields-bind (Adds nfa (EpsilonPath nfa 0) (λ j. 0 ≡ j) f₀) Q
            (collect_frontier depth nfa 0 f₀) _
            (frontier-Adds depth nfa rank layers deep 0 f₀ (get_elem?-lt nfa.states 0 first at) w)
            λ f adds b e.
              let start =
                frontier-exact depth nfa rank layers deep f₀ f (EpsilonPath nfa 0) (λ j. 0 ≡ j)
                  (length nfa.states) refl adds in
              let (book, finished) =
                finish_states-Finished depth nfa rank layers deep valid.numbers f.members rounds _
                  (one_set-Book first f (record {
                    wide = adds.width ∙ w;
                    accepting = λ j h acc solid.
                        adds.final.new j (Solid-direct nfa 0 j solid ((start j).0 h)) acc;
                  }))
                  b e in
              record { first = f.members; start = start; book = book; finished = finished }

  -- Where `rank` falls along each epsilon transition and is below `depth`, the transitions of the NFA
  -- are between its states and have addresses of their own, none leads to the start state, the references
  -- of its states are at their indices, there is a state, and `2 ^ n` rounds are allowed for the `n`
  -- states that there are, the construction ends: with a DFA that simulates the NFA, or at an assertion, but neither at a bad access nor for want of rounds. The DFA has
  -- at most one state after each word, and one where the NFA has one; it stands for the set of the
  -- states of the NFA after the word, and is accepting where that set has an accepting state that no
  -- epsilon transition leads to.
  pub construct_dfa-Simulates :
      (rounds : ℕ)
      → 0 < length nfa.states
      → 2 ^ length nfa.states ≤ rounds
      → Returns (construct_dfa depth nfa rounds) (Simulates nfa)
        ⊎ ((e : Fault) × (construct_dfa depth nfa rounds ≡ fault e)
            × (e ≢ Fault.bad_address)
            × (e ≢ Fault.exhausted))
  construct_dfa-Simulates rounds some_state enough =
      elim (construct_dfa-Halts depth nfa rank layers deep rounds enough) [
        | inl (b, run, complete) ↦ inl (
          b,
          run,
          Constructed-Simulates depth nfa b (construct_dfa-Constructed rounds b run)
              complete.states_le,
        )
        | inr (e, run, ended) ↦ elim (construct_dfa-Valid nfa valid depth rounds some_state) [
          | inl (b, ran, _) ↦ absurd (ok≢fault b e (sym ran ∙ run))
          | inr (e', run', safe) ↦
              inr (e', run', safe, λ is. ended (fault-injective (sym run ∙ run') ∙ is))
        ]
      ]

-- Where the construction ends normally, its graph is valid.
pub construct_dfa-closed :
    (depth : ℕ) (nfa : Graph) (rounds : ℕ)
    → Valid nfa
    → 0 < length nfa.states
    → Yields (construct_dfa depth nfa rounds) (λ b. Valid b.graph)
construct_dfa-closed depth nfa rounds valid some_state b run =
    elim (construct_dfa-Valid nfa valid depth rounds some_state) [
      | inl (b', ran, closed) ↦
          subst (λ (x : Builder). Valid x.graph) (ok-injective (sym ran ∙ run)) closed
      | inr (e, failed, _) ↦ absurd (ok≢fault b e (sym run ∙ failed))
    ]

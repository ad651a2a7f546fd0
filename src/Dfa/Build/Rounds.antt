-- ===== src/Dfa/Build/Rounds.antt =====
-- The loops over the set of one DFA state: they give it its transitions.
use mathlib.Core.List.Memᴰ
use mathlib.Core.Bool.{true≢false}
use mathlib.Core.List.{Memᴰ}
use mathlib.Core.Path.{subst}
use tesla.Base.{
  Bool, List, Yields, Yields-assert, Yields-bind, Yields-if, Yields-ok, [], ap, contains, false,
  inl, inr, length, ok, refl, sym, true, ℕ, ◌++◌, ◌<◌, ◌↔◌, ◌∙◌, ◌∷◌, ◌≡◌,
}
use tesla.Automata.{GraphTransition, Label, equivalent, is_null, is_realisable}
use tesla.Automata.Equivalent.{equivalent_null, equivalent_self, equivalent_symm}
use tesla.Automata.Graph.{Graph, copy, out_of}
use tesla.Automata.Graph.Added.{Added, copy-Added}
use tesla.Dfa.{StateSet}
use tesla.Dfa.Build.{
  Builder, Gather, Round, all_out, destinations, new_transition, state_for_nfa_states, take_members,
  take_transition, take_transitions,
}
use tesla.Dfa.Build.Book.{Book, Done, Exact, Exact-Onward, SetFits, SetOf}
use tesla.Dfa.Build.Emits.{
  Emitting, Emitting-pass, Split-next, Added-Book, Added-Leaves, Added-keeps, outs,
}
use tesla.Dfa.Build.Gathers.{Collected, destinations-Collected}
use tesla.Dfa.Build.Via.{Via}
use tesla.Dfa.Build.Picks.{Picked, state_for_nfa_states-Picked}
use tesla.Dfa.Reach.{Layered}

-- The same transitions of a label, in two lists.
Via-same :
    (nfa : Graph) (ts us : List GraphTransition) (l m : Label)
    → l ≡ m
    → ((t : GraphTransition) → Memᴰ t ts → equivalent t.label l ≡ true → Memᴰ t us)
    → ((t : GraphTransition) → Memᴰ t us → equivalent t.label l ≡ true → Memᴰ t ts)
    → (j : ℕ) → Via nfa ts l j ↔ Via nfa us m j
Via-same nfa ts us l m e into from j = (
  λ (t, k, same, path). (t, into t k same, subst (λ x. equivalent t.label x ≡ true) e same, path),
  λ (t, k, same, path).
      let same' = subst (λ x. equivalent t.label x ≡ true) (sym e) same in
      (t, from t k same', same', path),
)

module _ (depth : ℕ) (nfa : Graph) (rank : ℕ → ℕ) (layers : Layered nfa rank)
    (deep : (s : ℕ) → s < length nfa.states → rank s < depth) (first : StateSet) (done : List ℕ)
    (ds : ℕ) (members : StateSet) (fresh : contains done ds ≡ false)
    (inside : (t : GraphTransition)
      → Memᴰ t (outs depth nfa first done ds members)
      → t.to < length nfa.states)
    (unique : (t u : GraphTransition)
      → Memᴰ t (outs depth nfa first done ds members)
      → Memᴰ u (outs depth nfa first done ds members)
      → t.address ≡ u.address
      → t ≡ u) where
  abbrev Emits : List GraphTransition → List GraphTransition → Round → Type 0
  Emits passed rest r = Emitting depth nfa first done ds members passed rest r

  abbrev all : List GraphTransition
  all = outs depth nfa first done ds members

  -- A transition that is not finished has none before it that is equivalent.
  unmarked-first :
      (t : GraphTransition) (passed rest : List GraphTransition) (r : Round)
      → Emits passed (t ∷ rest) r
      → is_null t.label ≡ false
      → contains r.finished_transitions t.address ≡ false
      → (u : GraphTransition) → Memᴰ u all
      → equivalent u.label t.label ≡ true
      → Memᴰ u (t ∷ rest)
  unmarked-first t passed rest r i solid unmarked u m same = elim (i.split.covers u m) [
    | inl before ↦ absurd (
        true≢false (
          sym (
            i.marked u t before (Memᴰ.head refl) (equivalent_null u.label t.label same ∙ solid)
              (equivalent_symm u.label t.label same))
          ∙ unmarked))
    | inr now ↦ now
  ]

  -- The set of the new transition is that of all its equivalents.
  entry-Exact :
      (t : GraphTransition) (passed rest : List GraphTransition) (r : Round) (a : Gather) (dest : ℕ)
      (b : Builder) (g : Graph) (k : Added ds dest t.label b.graph g)
      → Emits passed (t ∷ rest) r
      → is_null t.label ≡ false
      → contains r.finished_transitions t.address ≡ false
      → Collected depth nfa rank layers deep t rest r a
      → SetOf b dest a.frontier.members
      → Exact nfa (record b { graph = g }) all k.entry
  entry-Exact t passed rest r a dest b g k i solid unmarked c at = record {
    solid = ap is_null k.labelled ∙ solid;
    target = a.frontier.members;
    at = subst (λ n. SetOf b n a.frontier.members) (sym k.enters) at;
    same = λ j.
        let via =
          Via-same nfa (t ∷ rest) all t.label k.entry.label (sym k.labelled)
            (λ u m _. i.split.rest_in u m) (unmarked-first t passed rest r i solid unmarked) j in
        (λ h. via.0 ((c.exact j).0 h), λ v. (c.exact j).1 (via.1 v));
  }

  Emitting-new :
      (t : GraphTransition) (passed rest : List GraphTransition) (r : Round) (a : Gather)
      (picked : ℕ × Builder) (g : Graph) (start final : Bool)
      → Emits passed (t ∷ rest) r
      → is_null t.label ≡ false
      → contains r.finished_transitions t.address ≡ false
      → Collected depth nfa rank layers deep t rest r a
      → Picked depth nfa first done (λ ns. ⊥) a.frontier.members r.builder picked
      → Added ds picked.0 t.label picked.1.graph g
      → Emits (t ∷ passed) rest (record {
        builder = record picked.1 { graph = g };
        finished_transitions = a.gathered;
        start = start;
        final = final;
      })
  Emitting-new t passed rest r a (dest, b) g start final i solid unmarked c p k =
      let here : contains b.finished ds ≡ true =
        ap (λ ns. contains ns ds) p.same_finished ∙ i.here in
      record {
        book = Added-Book depth nfa first done (λ ns. ⊥) b g ds dest t.label k fresh here p.book;
        here = here;
        list = p.same_finished ∙ i.list;
        at = (p.on ds).sets ds members i.at;
        split = Split-next all passed rest t i.split;
        caused = λ u m h. elim (c.only u.address h) [
          | inl old ↦
              let (v, before, same) = i.caused u (Memᴰ.tail m) old in (v, Memᴰ.tail before, same)
          | inr (v, now, same, address) ↦
              let is : v ≡ u =
                unique v u (i.split.rest_in v now) (i.split.rest_in u (Memᴰ.tail m)) address in
              (
                t,
                Memᴰ.head refl,
                subst (λ (x : GraphTransition). equivalent x.label t.label ≡ true) is same,
              )
        ];
        marked = λ v u m later hard same. elim (Memᴰ.cases_cons m) [
          | inl is ↦ c.new u.address (
            u,
            Memᴰ.tail later,
            subst (λ (x : GraphTransition). equivalent u.label x.label ≡ true) is same,
            refl,
          )
          | inr before ↦ c.kept u.address (i.marked v u before (Memᴰ.tail later) hard same)
        ];
        served = λ v m hard. elim (Memᴰ.cases_cons m) [
          | inl is ↦ (
            k.entry,
            record {
              member =
                  subst (Memᴰ k.entry) (sym k.transitions)
                    (Memᴰ.append_right b.graph.transitions (Memᴰ.head refl));
              source = k.leaves;
            },
            subst (λ l. equivalent v.label l ≡ true) (sym k.labelled)
                (subst (λ (x : GraphTransition). equivalent v.label x.label ≡ true) is
                  (equivalent_self v.label)),
          )
          | inr before ↦
              let (e, leaves, same) = i.served v before hard in
              (e, Added-keeps b.graph g ds dest t.label k e ((p.on ds).still e leaves), same)
        ];
        exact = λ e m. elim (Added-Leaves b.graph g ds dest t.label k e m) [
          | inl old ↦
              Exact-Onward nfa r.builder (record b { graph = g }) all e (p.on ds).sets
                (i.exact e ((p.on ds).back e old))
          | inr is ↦
              subst (Exact nfa (record b { graph = g }) all) (sym is)
                (entry-Exact t passed rest r a dest b g k i solid unmarked c p.at)
        ];
      }

  Collected-SetFits :
      (t : GraphTransition) (rest : List GraphTransition) (r : Round) (a : Gather)
      → Collected depth nfa rank layers deep t rest r a
      → SetFits nfa a.frontier.members a.frontier.final
  Collected-SetFits t rest r a c = record { wide = c.wide; accepting = c.accepting }

  take_transition-Emits :
      (t : GraphTransition) (passed rest : List GraphTransition) (r : Round)
      → Emits passed (t ∷ rest) r
      → Yields (take_transition depth nfa ds t rest r) (Emits (t ∷ passed) rest)
  unfolding take_transition new_transition
  take_transition-Emits t passed rest r i =
      let Q = Emits (t ∷ passed) rest in
      Yields-if Q (is_null t.label) (ok r) _
        (λ null. Yields-ok Q r (
          Emitting-pass depth nfa first done ds members t passed rest r i
            (λ solid. absurd (true≢false (sym null ∙ solid)))))
        λ solid. Yields-assert Q (is_realisable t.label) _ λ _.
          Yields-if Q (contains r.finished_transitions t.address) (ok r) _
            (λ marked. Yields-ok Q r (
              Emitting-pass depth nfa first done ds members t passed rest r i
                (λ _. i.caused t (Memᴰ.head refl) marked)))
            λ unmarked.
              Yields-bind (Collected depth nfa rank layers deep t rest r) Q
                (destinations depth nfa t rest r) _
                (destinations-Collected depth nfa rank layers deep t rest r
                  (λ u m. inside u (i.split.rest_in u m)))
                λ a c.
                  let p =
                    state_for_nfa_states-Picked depth nfa first done (λ ns. ⊥) a.frontier.members
                      a.frontier.start a.frontier.final r.builder (Collected-SetFits t rest r a c)
                      i.book in
                  let picked =
                    state_for_nfa_states a.frontier.members a.frontier.start a.frontier.final
                      r.builder in
                  Yields-bind (Added ds picked.0 t.label picked.1.graph) Q
                    (copy ds picked.0 t false picked.1.graph) _
                    (copy-Added ds picked.0 t false picked.1.graph solid)
                    λ g k. Yields-ok Q _ (
                      Emitting-new t passed rest r a picked g a.frontier.start a.frontier.final i
                        solid unmarked c p k)

  -- What has been passed changes along the way.
  abbrev EmitsSome : List GraphTransition → Round → Type 0
  EmitsSome rest r = (passed : List GraphTransition) × Emits passed rest r

  take_transitions-Emits :
      (ts later : List GraphTransition) (r : Round)
      → EmitsSome (ts ++ later) r
      → Yields (take_transitions depth nfa ds ts later r) (EmitsSome later)
  unfolding take_transitions
  take_transitions-Emits [] later r i = Yields-ok (EmitsSome later) r i
  take_transitions-Emits (t ∷ ts) later r (passed, i) =
      Yields-bind (Emits (t ∷ passed) (ts ++ later)) (EmitsSome later)
        (take_transition depth nfa ds t (ts ++ later) r) _
        (take_transition-Emits t passed (ts ++ later) r i)
        (λ r' i'. take_transitions-Emits ts later r' (t ∷ passed, i'))

  -- The flags play no part.
  flags-Emits :
      (rest : List GraphTransition) (r : Round) (start final : Bool)
      → EmitsSome rest r
      → EmitsSome rest (record r { start = start; final = final })
  flags-Emits rest r start final (passed, i) = (
    passed,
    record {
      book = i.book;
      here = i.here;
      list = i.list;
      at = i.at;
      split = i.split;
      caused = i.caused;
      marked = i.marked;
      served = i.served;
      exact = i.exact;
    },
  )

  pub take_members-Emits :
      (ss : List ℕ) (r : Round)
      → EmitsSome (all_out depth nfa ss) r
      → Yields (take_members depth nfa ds ss r) (EmitsSome [])
  unfolding take_members all_out
  take_members-Emits [] r i = Yields-ok (EmitsSome []) r i
  take_members-Emits (s ∷ ss) r i =
      Yields-bind (EmitsSome (all_out depth nfa ss)) (EmitsSome [])
        (take_transitions depth nfa ds (out_of s nfa.transitions) (all_out depth nfa ss) _) _
        (take_transitions-Emits (out_of s nfa.transitions) (all_out depth nfa ss) _
          (flags-Emits (all_out depth nfa (s ∷ ss)) r false false i))
        (take_members-Emits ss)

  -- The state is done when its set has been passed.
  pub emitted-Done :
      (r : Round)
      → EmitsSome [] r
      → Done depth nfa r.builder ds
        × Book depth nfa first done (λ ns. ⊥) r.builder
        × (r.builder.finished ≡ ds ∷ done)
  emitted-Done r (passed, i) = (
    record {
      members = members;
      at = i.at;
      onto = λ t m solid. elim (i.split.covers t m) [
        | inl before ↦ i.served t before solid
        | inr none_left ↦ absurd (Memᴰ.not-nil none_left)
      ];
      exact = i.exact;
    },
    i.book,
    i.list,
  )

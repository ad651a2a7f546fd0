-- ===== src/Dfa/Build/Emits.antt =====
-- The transitions that one DFA state is given: an invariant of the loops over its set.
use mathlib.Core.List.Memᴰ
use mathlib.Core.Bool.{true≢false}
use mathlib.Core.List.{Memᴰ}
use mathlib.Core.Path.{subst}
use tesla.Base.{List, [], ap, contains, false, inl, inr, mem-one, sym, true, ℕ, ◌∙◌, ◌∷◌, ◌≡◌, ◌⊎◌}
use tesla.Automata.{GraphTransition, Label, equivalent, is_null}
use tesla.Automata.Equivalent.{equivalent_null, equivalent_trans}
use tesla.Automata.Graph.{Graph}
use tesla.Automata.Graph.Added.{Added}
use tesla.Dfa.{StateSet, members_from}
use tesla.Dfa.Build.{Builder, Round, all_out}
use tesla.Dfa.Build.Book.{Book, Done-Onward, Exact, SetFits, Leaves, SetOf}

-- A list, as what has been passed and the rest of it.
pub record Split (all passed rest : List GraphTransition) : Type 0 where
  pub covers : (t : GraphTransition) → Memᴰ t all → Memᴰ t passed ⊎ Memᴰ t rest
  pub passed_in : (t : GraphTransition) → Memᴰ t passed → Memᴰ t all
  pub rest_in : (t : GraphTransition) → Memᴰ t rest → Memᴰ t all

pub Split-next :
    (all passed rest : List GraphTransition) (t : GraphTransition)
    → Split all passed (t ∷ rest)
    → Split all (t ∷ passed) rest
Split-next all passed rest t s = record {
  covers = λ u m. elim (s.covers u m) [
    | inl before ↦ inl (Memᴰ.tail before)
    | inr now ↦ elim (Memᴰ.cases_cons now) [ inl is ↦ inl (Memᴰ.head is) | inr later ↦ inr later ]
  ];
  passed_in = λ u m. elim (Memᴰ.cases_cons m) [
    | inl is ↦ s.rest_in u (Memᴰ.head is)
    | inr before ↦ s.passed_in u before
  ];
  rest_in = λ u m. s.rest_in u (Memᴰ.tail m);
}

-- With one transition more, the book is kept, if the transition's source is finished and not done.
pub Added-Book :
    (depth : ℕ) (nfa : Graph) (first : StateSet) (done : List ℕ) (extra : StateSet → Type 0)
    (b : Builder) (g : Graph) (ds dest : ℕ) (l : Label)
    → Added ds dest l b.graph g
    → contains done ds ≡ false
    → contains b.finished ds ≡ true
    → Book depth nfa first done extra b
    → Book depth nfa first done extra (record b { graph = g })
Added-Book depth nfa first done extra b g ds dest l k fresh here book = record {
  begins = book.begins;
  distinct = book.distinct;
  aligned = book.aligned ∙ sym k.states_count;
  fits = λ i ns at. subst (SetFits nfa ns) (sym (k.same_accepts i)) (book.fits i ns at);
  fits_later = book.fits_later;
  waiting = book.waiting;
  origin = λ e m. elim (Memᴰ.append_cases b.graph.transitions (subst (Memᴰ e) k.transitions m)) [
    | inl old ↦ book.origin e old
    | inr new ↦
        subst (λ d. contains b.finished d ≡ true)
          (sym (ap (λ (x : GraphTransition). x.from) (mem-one new) ∙ k.leaves)) here
  ];
  settled = λ d h.
      Done-Onward depth nfa b (record b { graph = g }) d
        (record {
          sets = λ i ns at. at;
          still = λ e m. record {
            member = subst (Memᴰ e) (sym k.transitions) (Memᴰ.append_left (k.entry ∷ []) m.member);
            source = m.source;
          };
          back = λ e m. record {
            member =
                elim (Memᴰ.append_cases b.graph.transitions
                  (subst (Memᴰ e) k.transitions m.member)) [
                    | inl old ↦ old
                    | inr new ↦
                        let at : ds ≡ d =
                          sym k.leaves
                          ∙ sym (ap (λ (x : GraphTransition). x.from) (mem-one new))
                          ∙ m.source in
                        absurd (true≢false (sym h ∙ ap (contains done) (sym at) ∙ fresh))
                  ];
            source = m.source;
          };
        })
        (book.settled d h);
}

-- The transitions of the source after one more: those before, and the new one.
pub Added-Leaves :
    (g g' : Graph) (ds dest : ℕ) (l : Label) (k : Added ds dest l g g') (e : GraphTransition)
    → Leaves g' ds e
    → Leaves g ds e ⊎ (e ≡ k.entry)
Added-Leaves g g' ds dest l k e m =
    elim (Memᴰ.append_cases g.transitions (subst (Memᴰ e) k.transitions m.member)) [
      | inl old ↦ inl (record { member = old; source = m.source })
      | inr new ↦ inr (mem-one new)
    ]

pub Added-keeps :
    (g g' : Graph) (ds dest : ℕ) (l : Label) (k : Added ds dest l g g') (e : GraphTransition)
    → Leaves g ds e
    → Leaves g' ds e
Added-keeps g g' ds dest l k e m = record {
  member = subst (Memᴰ e) (sym k.transitions) (Memᴰ.append_left (k.entry ∷ []) m.member);
  source = m.source;
}

-- The rounds for the DFA state `ds`, which is new among the finished ones, and for its set.
module _ (depth : ℕ) (nfa : Graph) (first : StateSet) (done : List ℕ) (ds : ℕ)
    (members : StateSet) where
  abbrev pub outs : List GraphTransition
  outs = all_out depth nfa (members_from 0 members)

  pub record Emitting (passed rest : List GraphTransition) (r : Round) : Type 0 where
    pub book : Book depth nfa first done (λ ns. ⊥) r.builder
    pub here : contains r.builder.finished ds ≡ true
    pub list : r.builder.finished ≡ ds ∷ done
    pub at : SetOf r.builder ds members
    pub split : Split outs passed rest
    pub caused :
        (u : GraphTransition)
        → Memᴰ u rest
        → contains r.finished_transitions u.address ≡ true
        → (t : GraphTransition) × Memᴰ t passed × (equivalent u.label t.label ≡ true)
    pub marked :
        (t u : GraphTransition)
        → Memᴰ t passed
        → Memᴰ u rest
        → is_null t.label ≡ false
        → equivalent u.label t.label ≡ true
        → contains r.finished_transitions u.address ≡ true
    pub served :
        (t : GraphTransition)
        → Memᴰ t passed
        → is_null t.label ≡ false
        → (e : GraphTransition) × Leaves r.builder.graph ds e × (equivalent t.label e.label ≡ true)
    pub exact : (e : GraphTransition) → Leaves r.builder.graph ds e → Exact nfa r.builder outs e

  -- A transition is passed, where nothing is to be done for it.
  pub Emitting-pass :
      (t : GraphTransition) (passed rest : List GraphTransition) (r : Round)
      → Emitting passed (t ∷ rest) r
      → (is_null t.label ≡ false
          → (u : GraphTransition) × Memᴰ u passed × (equivalent t.label u.label ≡ true))
      → Emitting (t ∷ passed) rest r
  Emitting-pass t passed rest r i twin = record {
    book = i.book;
    here = i.here;
    list = i.list;
    at = i.at;
    split = Split-next outs passed rest t i.split;
    caused = λ u m h. let (v, k, same) = i.caused u (Memᴰ.tail m) h in (v, Memᴰ.tail k, same);
    marked = λ v u m k solid same. elim (Memᴰ.cases_cons m) [
      | inl is ↦
          let solid' : is_null t.label ≡ false =
            subst (λ (x : GraphTransition). is_null x.label ≡ false) is solid in
          let same' : equivalent u.label t.label ≡ true =
            subst (λ (x : GraphTransition). equivalent u.label x.label ≡ true) is same in
          let (w, before, alike) = twin solid' in
          i.marked w u before (Memᴰ.tail k) (sym (equivalent_null t.label w.label alike) ∙ solid')
            (equivalent_trans u.label t.label w.label same' alike)
      | inr before ↦ i.marked v u before (Memᴰ.tail k) solid same
    ];
    served = λ v m solid. elim (Memᴰ.cases_cons m) [
      | inl is ↦
          let solid' : is_null t.label ≡ false =
            subst (λ (x : GraphTransition). is_null x.label ≡ false) is solid in
          let (w, before, alike) = twin solid' in
          let (e, leaves, same) =
            i.served w before (sym (equivalent_null t.label w.label alike) ∙ solid') in
          (
            e,
            leaves,
            subst (λ (x : GraphTransition). equivalent x.label e.label ≡ true) (sym is)
                (equivalent_trans t.label w.label e.label alike same),
          )
      | inr before ↦ i.served v before solid
    ];
    exact = i.exact;
  }

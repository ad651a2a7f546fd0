-- ===== src/Dfa/Build/Finishes.antt =====
-- The loop over the unfinished states: when it ends, every state of the DFA is done.
use mathlib.Core.List.Memᴰ
use mathlib.Core.Bool.{true≢false}
use mathlib.Core.List.{Memᴰ}
use mathlib.Core.Path.{subst}
use tesla.Base.{
  ==_iff, ==_self, List, Run, Yields, Yields-bind, Yields-if, Yields-ok, [], ap, contains,
  exhausted, false, fault, inl, inr, length, ok, or-cases, or-left, or-right, refl, suc, sym, true,
  zero, ℕ, ◌<◌, ◌==◌, ◌∙◌, ◌∷◌, ◌≡◌,
}
use tesla.Automata.{GraphTransition}
use tesla.Automata.Graph.{Graph}
use tesla.Automata.Graph.Numbers.{Numbered}
use tesla.Automata.Graph.Out.{out_of-mem}
use tesla.Dfa.{StateSet, members_from}
use tesla.Dfa.Build.{
  Builder, Round, Unfinished, all_out, emit_state, finish_state, finish_states,
  state_for_nfa_states, take_members, while_unfinished,
}
use tesla.Dfa.Build.Book.{Book, Done, Done-Onward, SetFits, SetOf}
use tesla.Dfa.Build.Emits.{Emitting}
use tesla.Dfa.Build.Outs.{outs-member}
use tesla.Dfa.Build.Picks.{state_for_nfa_states-Picked}
use tesla.Dfa.Build.Rounds.{emitted-Done, take_members-Emits}
use tesla.Dfa.Reach.{Layered}
use tesla.Store.{fit}

-- A builder between two rounds: the finished states are done.
abbrev pub Kept : ℕ → Graph → StateSet → (StateSet → Type 0) → Builder → Type 0
Kept depth nfa first extra b = Book depth nfa first b.finished extra b

module _ (depth : ℕ) (nfa : Graph) (rank : ℕ → ℕ) (layers : Layered nfa rank)
    (deep : (s : ℕ) → s < length nfa.states → rank s < depth) (numbers : Numbered nfa.transitions)
    (first : StateSet) where
  abbrev Everything : Builder → Type 0
  Everything = Kept depth nfa first (λ ns. ⊥)

  module _ (ns : StateSet) where
    outs-inside :
        (t : GraphTransition)
        → Memᴰ t (all_out depth nfa (members_from 0 ns))
        → t.to < length nfa.states
    outs-inside t m = let (s, _, out) = (outs-member depth nfa ns t).0 m in layers.inside s t out

    outs-placed :
        (t : GraphTransition)
        → Memᴰ t (all_out depth nfa (members_from 0 ns))
        → Memᴰ t nfa.transitions
    outs-placed t m =
        let (s, _, out) = (outs-member depth nfa ns t).0 m in (out_of-mem s nfa.transitions t out).0

    outs_unique :
        (t u : GraphTransition)
        → Memᴰ t (all_out depth nfa (members_from 0 ns))
        → Memᴰ u (all_out depth nfa (members_from 0 ns))
        → t.address ≡ u.address
        → t ≡ u
    outs_unique t u m k same = numbers.unique t u (outs-placed t m) (outs-placed u k) same

  -- The set `ns` has the state `ds`, which is finished.
  no_extra :
      (ns : StateSet) (done : List ℕ) (ds : ℕ) (b : Builder) (fs : List ℕ)
      → SetOf b ds ns
      → contains fs ds ≡ true
      → ((i : ℕ) → contains b.finished i ≡ true → contains fs i ≡ true)
      → Book depth nfa first done (λ ms. ns ≡ ms) b
      → Book depth nfa first done (λ ms. ⊥) (record b { finished = fs })
  no_extra ns done ds b fs at has more book = record {
    begins = book.begins;
    distinct = book.distinct;
    aligned = book.aligned;
    fits = book.fits;
    fits_later = book.fits_later;
    waiting = λ i ms here. elim (book.waiting i ms here) [
      | inl finished ↦ inl (more i finished)
      | inr (inl later) ↦ inr (inl later)
      | inr (inr is) ↦
          let same : ds ≡ i = book.distinct ds i ms (subst (SetOf b ds) is at) here in
          inl (subst (λ n. contains fs n ≡ true) same has)
    ];
    origin = λ e m. more e.from (book.origin e m);
    settled = λ d h.
        Done-Onward depth nfa b (record b { finished = fs }) d
          (record {
            sets = λ i ms here. here;
            still = λ e m. record { member = m.member; source = m.source };
            back = λ e m. record { member = m.member; source = m.source };
          })
          (book.settled d h);
  }

  -- The states done, with one more.
  more-Done :
      (done : List ℕ) (ds : ℕ) (b : Builder)
      → Done depth nfa b ds
      → b.finished ≡ ds ∷ done
      → Book depth nfa first done (λ ns. ⊥) b
      → Everything b
  more-Done done ds b one list book = record {
    begins = book.begins;
    distinct = book.distinct;
    aligned = book.aligned;
    fits = book.fits;
    fits_later = book.fits_later;
    waiting = book.waiting;
    origin = book.origin;
    settled = λ d h.
        elim (or-cases (ds == d) (contains done d) (subst (λ fs. contains fs d ≡ true) list h)) [
          | inl is ↦ subst (Done depth nfa b) ((==_iff ds d).0 is) one
          | inr old ↦ book.settled d old
        ];
  }

  emit_state-Everything :
      (done : List ℕ) (ds : ℕ) (u : Unfinished) (b : Builder)
      → contains done ds ≡ false
      → b.finished ≡ done
      → SetOf b ds u.members
      → Book depth nfa first done (λ ms. u.members ≡ ms) b
      → Yields (emit_state depth nfa ds u b) Everything
  unfolding emit_state
  emit_state-Everything done ds u b fresh list at book =
      let mine = or-left (ds == ds) (contains b.finished ds) (==_self ds) in
      let Rest = λ (rest : List GraphTransition) (r : Round).
        (passed : List GraphTransition) × Emitting depth nfa first done ds u.members passed rest
          r in
      Yields-bind (Rest []) Everything (take_members depth nfa ds (members_from 0 u.members) _) _
        (take_members-Emits depth nfa rank layers deep first done ds u.members fresh
          (outs-inside u.members) (outs_unique u.members) (members_from 0 u.members)
          (record {
            builder = record b { finished = ds ∷ b.finished };
            finished_transitions = [];
            start = u.start;
            final = u.final;
          })
          (
            [],
            record {
              book =
                  no_extra u.members done ds b (ds ∷ b.finished) at mine
                    (λ i h. or-right (ds == i) (contains b.finished i) h) book;
              here = mine;
              list = ap (λ fs. ds ∷ fs) list;
              at = at;
              split = record {
                covers = λ t m. inr m;
                passed_in = λ t m. absurd (Memᴰ.not-nil m);
                rest_in = λ t m. m;
              };
              caused = λ v m h. cc;
              marked = λ t v m k solid same. absurd (Memᴰ.not-nil m);
              served = λ t m solid. absurd (Memᴰ.not-nil m);
              exact = λ e leaves.
                  let known : contains b.finished ds ≡ true =
                    subst (λ d. contains b.finished d ≡ true) leaves.source
                      (book.origin e leaves.member) in
                  absurd (true≢false (sym known ∙ ap (λ fs. contains fs ds) list ∙ fresh));
            },
          ))
        λ r emitted.
          let (one, kept, longer) =
            emitted-Done depth nfa rank layers deep first done ds u.members fresh
              (outs-inside u.members) (outs_unique u.members) r emitted in
          Yields-ok Everything r.builder (more-Done done ds r.builder one longer kept)

  finish_state-Everything :
      (u : Unfinished) (b₀ : Builder)
      → SetFits nfa u.members u.final
      → Kept depth nfa first (λ ms. u.members ≡ ms) b₀
      → Yields (finish_state depth nfa u b₀) Everything
  unfolding finish_state
  finish_state-Everything u b₀ fit book =
      let p =
        state_for_nfa_states-Picked depth nfa first b₀.finished (λ ms. u.members ≡ ms) u.members
          u.start u.final b₀ fit book in
      let picked = state_for_nfa_states u.members u.start u.final b₀ in
      Yields-if Everything (contains picked.1.finished picked.0) (ok picked.1) _
        (λ before. Yields-ok Everything picked.1 (
          subst (λ fs. Book depth nfa first fs (λ ns. ⊥) picked.1) (sym p.same_finished)
            (no_extra u.members b₀.finished picked.0 picked.1 picked.1.finished p.at before
              (λ i h. h) p.book)))
        λ fresh.
          emit_state-Everything b₀.finished picked.0 u picked.1
            (subst (λ fs. contains fs picked.0 ≡ false) p.same_finished fresh) p.same_finished p.at
            p.book

  -- A set that is taken off the unfinished ones is extra.
  popped :
      (u : Unfinished) (us : List Unfinished) (b : Builder)
      → u ∷ us ≡ b.unfinished
      → Everything b
      → Kept depth nfa first (λ ms. u.members ≡ ms) (record b { unfinished = us })
  popped u us b e book = record {
    begins = book.begins;
    distinct = book.distinct;
    aligned = book.aligned;
    fits = book.fits;
    fits_later = λ v m. book.fits_later v (subst (Memᴰ v) e (Memᴰ.tail m));
    waiting = λ i ms here. elim (book.waiting i ms here) [
      | inl finished ↦ inl finished
      | inr (inl (v, m, is)) ↦ elim (Memᴰ.cases_cons (subst (Memᴰ v) (sym e) m)) [
        | inl mine ↦ inr (inr (ap (λ (x : Unfinished). x.members) (sym mine) ∙ is))
        | inr later ↦ inr (inl (v, later, is))
      ]
      | inr (inr never) ↦ absurd never
    ];
    origin = book.origin;
    settled = λ d h.
        Done-Onward depth nfa b (record b { unfinished = us }) d
          (record { sets = λ i ms here. here; still = λ x m. m; back = λ x m. m })
          (book.settled d h);
  }

  -- What the loop ends with.
  abbrev pub Finished : Builder → Type 0
  Finished b = Everything b × (b.unfinished ≡ [])

  while_unfinished-Finished :
      (again : Builder → Run Builder) (us : List Unfinished) (b : Builder)
      → us ≡ b.unfinished
      → Everything b
      → ((b' : Builder) → Everything b' → Yields (again b') Finished)
      → Yields (while_unfinished depth nfa again us b) Finished
  unfolding while_unfinished
  while_unfinished-Finished again [] b e book next = Yields-ok Finished b (book, sym e)
  while_unfinished-Finished again (u ∷ us) b e book next =
      Yields-bind Everything Finished (finish_state depth nfa u (record b { unfinished = us }))
        again
        (finish_state-Everything u (record b { unfinished = us })
          (book.fits_later u (subst (Memᴰ u) e (Memᴰ.head refl))) (popped u us b e book))
        next

  pub finish_states-Finished :
      (rounds : ℕ) (b : Builder) → Everything b → Yields (finish_states depth nfa rounds b) Finished
  unfolding finish_states
  finish_states-Finished zero b book =
      while_unfinished-Finished (λ _. fault exhausted) b.unfinished b refl book (λ b' _ v never. cc)
  finish_states-Finished (suc rounds) b book =
      while_unfinished-Finished (finish_states depth nfa rounds) b.unfinished b refl book
        (finish_states-Finished rounds)

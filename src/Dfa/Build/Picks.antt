-- ===== src/Dfa/Build/Picks.antt =====
-- `stateForNFAStates` keeps the book, and gives the state of its set.
use mathlib.Core.List.Memᴰ
use mathlib.Core.List.{Memᴰ}
use mathlib.Core.Path.{subst}
use tesla.Base.{
  Bool, List, Option-cases, [], ap, arith, get_elem?, get_elem?-append_cases, get_elem?-append_last,
  get_elem?-append_left, get_elem?-lt, if◌then◌else◌, inl, inr, length, length-append, none, refl,
  some, suc, sym, zero, ℕ, ◌++◌, ◌<◌, ◌∙◌, ◌∷◌, ◌≡◌, ◌⊎◌,
}
use tesla.Automata.Graph.{Graph, GraphState, build_state, made_state}
use tesla.Automata.Graph.Added.{accepts_in}
use tesla.Dfa.{StateSet}
use tesla.Dfa.Build.{Builder, Unfinished, find_set, known_or_new, new_state, state_for_nfa_states}
use tesla.Dfa.Build.Book.{Book, Done-Onward, SetFits, Onward, SetOf}
use tesla.Dfa.Build.Find.{find_set-missing, find_set-some}
use tesla.Store.{fit}

-- What is known of the state and the builder that the search for a set gives.
pub record Picked (depth : ℕ) (nfa : Graph) (first : StateSet) (done : List ℕ)
    (extra : StateSet → Type 0) (ns : StateSet) (b : Builder) (r : ℕ × Builder) : Type 0 where
  pub book : Book depth nfa first done extra r.1
  pub at : SetOf r.1 r.0 ns
  pub on : (d : ℕ) → Onward d b r.1
  pub same_finished : r.1.finished ≡ b.finished

-- A state that stays accepts as before.
accepts_in-append :
    (states : List GraphState) (state : GraphState) (i : ℕ)
    → i < length states
    → accepts_in (states ++ state ∷ []) i ≡ accepts_in states i
accepts_in-append [] state i h = elim h [ ]
accepts_in-append (x ∷ states) state zero h = refl
accepts_in-append (x ∷ states) state (suc i) h = accepts_in-append states state i (omega arith)

accepts_in-last :
    (states : List GraphState) (state : GraphState)
    → accepts_in (states ++ state ∷ []) (length states) ≡ state.accept
accepts_in-last [] state = refl
accepts_in-last (x ∷ states) state = accepts_in-last states state

Onward-self : (d : ℕ) (b : Builder) → Onward d b b
Onward-self d b = record { sets = λ i ns at. at; still = λ e m. m; back = λ e m. m }

module _ (depth : ℕ) (nfa : Graph) (first : StateSet) (done : List ℕ)
    (extra : StateSet → Type 0) where
  new_state-Onward :
      (ns : StateSet) (start final : Bool) (b : Builder) (d : ℕ)
      → Onward d b (new_state ns start final b).1
  unfolding new_state build_state
  new_state-Onward ns start final b d = record {
    sets = λ i ms at. get_elem?-append_left b.known_sets (ns ∷ []) i ms at;
    still = λ e m. record { member = m.member; source = m.source };
    back = λ e m. record { member = m.member; source = m.source };
  }

  -- A set stands at one place, where a new one comes after the others.
  appended-distinct :
      (b : Builder) (ns : StateSet)
      → ((k : ℕ) → SetOf b k ns → ⊥)
      → Book depth nfa first done extra b
      → (i j : ℕ) (ms : StateSet) → SetOf b i ms ⊎ ((i ≡ length b.known_sets) × (ns ≡ ms))
      → SetOf b j ms ⊎ ((j ≡ length b.known_sets) × (ns ≡ ms))
      → i ≡ j
  appended-distinct b ns fresh book i j ms (inl p) (inl q) = book.distinct i j ms p q
  appended-distinct b ns fresh book i j ms (inl p) (inr (q, is)) =
      absurd (fresh i (subst (SetOf b i) (sym is) p))
  appended-distinct b ns fresh book i j ms (inr (p, is)) (inl q) =
      absurd (fresh j (subst (SetOf b j) (sym is) q))
  appended-distinct b ns fresh book i j ms (inr (p, is)) (inr (q, _)) = p ∙ sym q

  new_state-Picked :
      (ns : StateSet) (start final : Bool) (b : Builder)
      → SetFits nfa ns final
      → ((k : ℕ) → SetOf b k ns → ⊥)
      → Book depth nfa first done extra b
      → Picked depth nfa first done extra ns b (new_state ns start final b)
  unfolding new_state build_state
  new_state-Picked ns start final b fit fresh book =
      let count = if start then some b.ref_count else none in
      let old = λ (i : ℕ) (ms : StateSet). get_elem?-append_cases b.known_sets ns i ms in
      let more = length-append b.known_sets (ns ∷ []) in
      let states = length-append b.graph.states (made_state start final count ∷ []) in
      record {
        book = record {
          begins = get_elem?-append_left b.known_sets (ns ∷ []) 0 first book.begins;
          distinct =
              λ i j ms p q. appended-distinct b ns fresh book i j ms (old i ms p) (old j ms q);
          aligned = omega (arith, more, states, book.aligned);
          fits = λ i ms at. elim (old i ms at) [
            | inl before ↦
                let inside = get_elem?-lt b.known_sets i ms before in
                subst (SetFits nfa ms)
                  (sym (
                    accepts_in-append b.graph.states (made_state start final count) i
                      (omega (arith, inside, book.aligned))))
                  (book.fits i ms before)
            | inr (here, is) ↦
                subst
                  (λ x.
                    SetFits nfa x
                      (accepts_in (b.graph.states ++ made_state start final count ∷ []) i))
                  is
                  (subst (SetFits nfa ns)
                    (sym (
                      ap (accepts_in (b.graph.states ++ made_state start final count ∷ []))
                        (here ∙ book.aligned)
                      ∙ accepts_in-last b.graph.states (made_state start final count)))
                    fit)
          ];
          fits_later = λ u m. elim (Memᴰ.cases_cons m) [
            | inl is ↦ subst (λ (x : Unfinished). SetFits nfa x.members x.final) (sym is) fit
            | inr later ↦ book.fits_later u later
          ];
          waiting = λ i ms at. elim (old i ms at) [
            | inl before ↦ elim (book.waiting i ms before) [
              | inl finished ↦ inl finished
              | inr (inl (u, m, is)) ↦ inr (inl (u, Memᴰ.tail m, is))
              | inr (inr other) ↦ inr (inr other)
            ]
            | inr (here, is) ↦ inr (inl (_, Memᴰ.head refl, is))
          ];
          origin = book.origin;
          settled = λ d h.
              Done-Onward depth nfa b (new_state ns start final b).1 d
                (new_state-Onward ns start final b d) (book.settled d h);
        };
        at =
            subst (λ i. get_elem? (b.known_sets ++ ns ∷ []) i ≡ some ns) book.aligned
              (get_elem?-append_last b.known_sets ns);
        on = new_state-Onward ns start final b;
        same_finished = refl;
      }

  pub state_for_nfa_states-Picked :
      (ns : StateSet) (start final : Bool) (b : Builder)
      → SetFits nfa ns final
      → Book depth nfa first done extra b
      → Picked depth nfa first done extra ns b (state_for_nfa_states ns start final b)
  unfolding state_for_nfa_states known_or_new
  state_for_nfa_states-Picked ns start final b fit book =
      elim (Option-cases (find_set b.known_sets ns 0)) [
        | inl missing ↦ rw missing (
            new_state-Picked ns start final b fit (λ k. find_set-missing b.known_sets ns k missing)
              book)
        | inr (i, found) ↦
            let (k, at, is) = find_set-some b.known_sets ns 0 i found in
            rw found (record {
              book = book;
              at = subst (λ n. get_elem? b.known_sets n ≡ some ns) (omega (arith, at)) is;
              on = λ d. Onward-self d b;
              same_finished = refl;
            })
      ]

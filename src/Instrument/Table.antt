-- ===== src/Instrument/Table.antt =====
-- The tables of transitions that are emitted for an automaton, as an automaton.
use mathlib.Core.List.{Memᴰ}
use mathlib.Core.Path.{subst}
use native.Mathlib.Nat.{mod-eq_of_lt}
use tesla.Base.{
  List, Returns, Run, [], ap, arith, get_elem?, inl, inr, length, ok, refl, some, sym, true, ℕ, ◌<◌,
  ◌>>=◌, ◌^◌, ◌↔◌, ◌∙◌, ◌∷◌, ◌≡◌, ◌≤◌, ◌⊎◌,
}
use tesla.Automata.{GraphTransition, Label, equivalent}
use tesla.Automata.Classes.{EquivalenceClass, group_classes}
use tesla.Automata.Classes.Grouping.{Grouped, InClass, InClass-nil}
use tesla.Automata.Classes.Partition.{Grouped-classes, group_classes-Whole}
use tesla.Automata.Equivalent.{equivalent_symm, equivalent_trans}
use tesla.Automata.Graph.{Graph}
use tesla.Automata.Graph.Out.{out_of-has, out_of-mem}
use tesla.Automata.Graph.Safety.{Valid}
use tesla.Dfa.Runs.{DfaRun}
use tesla.Instrument.{Emitter, begin_of, build_symbols, build_transition}
use tesla.Instrument.Alphabet.{Emits, IsOrder, begin_of-IsBegin, build_symbols-Emits}
use tesla.Types.{Transition, Transitions}

-- The symbol under which an event is handed to libtesla: that of the class of its label.
abbrev pub Symbol : List EquivalenceClass → Label → ℕ → Type 0
Symbol cs l i = (t : GraphTransition) × InClass t i cs × (equivalent t.label l ≡ true)

-- The tables lead from the state 0 to `d` with the word of events, whose last one stands first.
pub data TableRun (cs : List EquivalenceClass) (symbols : List Transitions)
    : List Label → ℕ → Type 0 where
  begin : TableRun cs symbols [] 0
  event :
      {l : Label} {w : List Label} {c d : ℕ}
      → TableRun cs symbols w c
      → (i : ℕ) (ts : Transitions) (tr : Transition) → Symbol cs l i
      → get_elem? symbols i ≡ some ts
      → Memᴰ tr ts
      → tr.from ≡ c
      → tr.to ≡ d
      → TableRun cs symbols (l ∷ w) d

-- What is emitted, with the classes it is emitted for.
unfoldable pub emit_tables :
    (List GraphTransition → List GraphTransition)
    → Emitter
    → Graph
    → Run (List EquivalenceClass × List Transitions)
emit_tables order em g = do
  cs ← group_classes (begin_of order) g.transitions []
  out ← build_symbols order em g cs
  ok (cs, out.0)

-- What is emitted does what the graph does, under one symbol for each event.
pub record Emitted (g : Graph) (cs : List EquivalenceClass) (symbols : List Transitions)
    : Type 0 where
  pub same : (w : List Label) (d : ℕ) → TableRun cs symbols w d ↔ DfaRun g w d
  pub one_symbol : (l : Label) (i j : ℕ) → Symbol cs l i → Symbol cs l j → i ≡ j
  pub row :
      (l : Label) (i : ℕ)
      → Symbol cs l i
      → (ts : Transitions) × (get_elem? symbols i ≡ some ts) × (0 < length ts)

-- The number of a state is the state, if it fits.
state_number :
    (g : Graph) (t : GraphTransition)
    → t.from < 2 ^ 32
    → t.to < 2 ^ 32
    → ((build_transition g t).from ≡ t.from) × ((build_transition g t).to ≡ t.to)
unfolding build_transition
state_number g t hf ht = (mod-eq_of_lt hf, mod-eq_of_lt ht)

module _ (g : Graph) (v : Valid g) (few : length g.states ≤ 2 ^ 32) (cs : List EquivalenceClass)
    (symbols : List Transitions) (e : Emits g cs symbols) (grouped : Grouped 0 cs)
    (all_in : (t : GraphTransition) → Memᴰ t g.transitions → (i : ℕ) × InClass t i cs)
    (origin : (t : GraphTransition) (i : ℕ) → InClass t i cs → Memᴰ t g.transitions) where
  numbers :
      (t : GraphTransition)
      → Memᴰ t g.transitions
      → ((build_transition g t).from ≡ t.from) × ((build_transition g t).to ≡ t.to)
  numbers t m =
      let (from, to, _) = v.inside t m in
      state_number g t (omega (arith, from, few)) (omega (arith, to, few))

  TableRun-DfaRun : (w : List Label) (d : ℕ) → TableRun cs symbols w d → DfaRun g w d
  TableRun-DfaRun _ _ TableRun.begin = DfaRun.begin
  TableRun-DfaRun _ d
        (TableRun.event {l = l} {w = w} {c = c} run i ts tr (u, named, alike) at m leaves enters) =
      let (t, k, is) = e.only i ts tr at m in
      let (from, to) = numbers t (origin t i k) in
      let same = (Grouped-classes 0 cs t u i i grouped k named).1 refl in
      let source : t.from ≡ c = sym from ∙ ap (λ (x : Transition). x.from) is ∙ leaves in
      subst (DfaRun g (l ∷ w)) (sym to ∙ ap (λ (x : Transition). x.to) is ∙ enters) (
        DfaRun.event (TableRun-DfaRun w c run) t
          (out_of-has c g.transitions t (origin t i k) source)
          (equivalent_trans t.label u.label l same alike))

  DfaRun-TableRun : (w : List Label) (d : ℕ) → DfaRun g w d → TableRun cs symbols w d
  DfaRun-TableRun _ _ DfaRun.begin = TableRun.begin
  DfaRun-TableRun _ _ (DfaRun.event {l = l} {w = w} {c = c} run t m alike) =
      let (k, source) = out_of-mem c g.transitions t m in
      let (i, named) = all_in t k in
      let (ts, at, member) = e.has t i named in
      let (from, to) = numbers t k in
      TableRun.event (DfaRun-TableRun w c run) i ts (build_transition g t) (t, named, alike) at
        member (from ∙ source) to

-- For a graph whose transitions are between its states, of which there are at most `2 ^ 32`, tables are
-- emitted, and they lead from the first state to a state with a word of events exactly when the
-- transitions of the graph do. Each event has one symbol, and each symbol a row of transitions.
pub emit_tables-DfaRun :
    (order : List GraphTransition → List GraphTransition) (em : Emitter) (g : Graph)
    → IsOrder order
    → Valid g
    → length g.states ≤ 2 ^ 32
    → Returns (emit_tables order em g) (λ out. Emitted g out.0 out.1)
unfolding emit_tables
emit_tables-DfaRun order em g o v few =
    let (cs, classed, w) =
      group_classes-Whole (begin_of order) (begin_of-IsBegin order o) g.transitions [] tt in
    let (out, run, e) = build_symbols-Emits order o g em 0 cs w.grouped in
    let origin = λ (t : GraphTransition) (i : ℕ) (m : InClass t i cs). came t i (w.origin t i m) in
    (
      (cs, out.0),
      rw (classed, ◌>>=◌, run),
      record {
        same = λ events d. (
          TableRun-DfaRun g v few cs out.0 e w.grouped w.all_in origin events d,
          DfaRun-TableRun g v few cs out.0 e w.grouped w.all_in origin events d,
        );
        one_symbol = λ l i j (t, named, alike) (u, named', alike').
            (Grouped-classes 0 cs t u i j w.grouped named named').0
              (equivalent_trans t.label l u.label alike (equivalent_symm u.label l alike'));
        row = λ l i (t, named, _).
            let (ts, at, member) = e.has t i named in (ts, at, e.some_in i ts at);
      },
    )
  where
    came :
        (t : GraphTransition) (i : ℕ) → Memᴰ t g.transitions ⊎ InClass t i [] → Memᴰ t g.transitions
    came t i (inl is) = is
    came t i (inr old) = absurd (InClass-nil old)

-- ===== src/Instrument/Alphabet.antt =====
-- The alphabet that is emitted for the transitions of an automaton.
use mathlib.Core.List.Memᴰ
use mathlib.Core.List.{Memᴰ}
use mathlib.Core.Option.{some-injective}
use mathlib.Core.Path.{subst}
use native.Mathlib.Nat.{mod-eq_of_lt}
use tesla.Base.{
  List, Returns, [], ap, arith, get_elem?, inl, inr, length, ltb, map, ok, refl, some, suc, sym,
  true, zero, ℕ, ◌<◌, ◌>>=◌, ◌^◌, ◌↔◌, ◌∷◌, ◌≡◌, ◌≤◌, ◌⊎◌,
}
use tesla.Automata.{GraphTransition}
use tesla.Automata.Classes.{EquivalenceClass, group_classes}
use tesla.Automata.Classes.Grouping.{Grouped, InClass, InClass-nil, IsBegin}
use tesla.Automata.Classes.Partition.{group_classes-Whole}
use tesla.Automata.Graph.{Graph}
use tesla.Instrument.{
  Emitter, begin_of, build_symbols, build_transition, build_transitions, mask_at, set_begin,
}
use tesla.Types.{Transition, Transitions}
use tesla.Update.Named.{IsTyped}

-- `order` goes through the members of a class, each of them and no other.
abbrev pub IsOrder : (List GraphTransition → List GraphTransition) → Type 0
IsOrder order = (t : GraphTransition) (ts : List GraphTransition) → Memᴰ t (order ts) ↔ Memᴰ t ts

mem-some {ℓ} : {A : Type ℓ} (xs : List A) (x : A) → Memᴰ x xs → 0 < length xs
mem-some [] x m = absurd (Memᴰ.not-nil m)
mem-some (y ∷ xs) x m = omega arith

module _ (order : List GraphTransition → List GraphTransition) (o : IsOrder order) where
  set_begin-mem :
      (t : GraphTransition) (ts : List GraphTransition)
      → Memᴰ t ts
      → (h : GraphTransition) × (set_begin ts ≡ some h) × Memᴰ h ts
  set_begin-mem t [] m = absurd (Memᴰ.not-nil m)
  set_begin-mem t (u ∷ ts) m = (u, refl, Memᴰ.head refl)

  pub begin_of-IsBegin : IsBegin (begin_of order)
  begin_of-IsBegin t ts m =
      let (h, at, k) = set_begin-mem t (order ts) ((o t ts).1 m) in (h, at, (o h ts).0 k)

  build_transitions-eq :
      (g : Graph) (c : EquivalenceClass) (t : GraphTransition)
      → Memᴰ t c.transitions
      → build_transitions order g c ≡ ok (map (build_transition g) (order c.transitions))
  unfolding build_transitions
  build_transitions-eq g c t m =
      let (h, at, k) = begin_of-IsBegin t c.transitions m in
      let some_left = mem-some c.transitions t m in
      let test : ltb 0 (length c.transitions) ≡ true = ground arith in rw (test, ◌>>=◌, at)

-- What is emitted for the classes `cs`.
pub record Emits (g : Graph) (cs : List EquivalenceClass) (symbols : List Transitions)
    : Type 0 where
  pub has :
      (t : GraphTransition) (i : ℕ)
      → InClass t i cs
      → (ts : Transitions) × (get_elem? symbols i ≡ some ts) × Memᴰ (build_transition g t) ts
  pub only :
      (i : ℕ) (ts : Transitions) (tr : Transition)
      → get_elem? symbols i ≡ some ts
      → Memᴰ tr ts
      → (t : GraphTransition) × InClass t i cs × (build_transition g t ≡ tr)
  pub some_in : (i : ℕ) (ts : Transitions) → get_elem? symbols i ≡ some ts → 0 < length ts

module _ (order : List GraphTransition → List GraphTransition) (o : IsOrder order) (g : Graph) where
  module _ (c : EquivalenceClass) (cs : List EquivalenceClass) (symbols : List Transitions) where
    abbrev row : Transitions
    row = map (build_transition g) (order c.transitions)

    cons-has :
        Emits g cs symbols
        → (t : GraphTransition) (i : ℕ) → InClass t i (c ∷ cs)
        → (ts : Transitions) × (get_elem? (row ∷ symbols) i ≡ some ts)
          × Memᴰ (build_transition g t) ts
    cons-has e t zero (InClass.here m) =
        (row, refl, Memᴰ.map (build_transition g) ((o t c.transitions).1 m))
    cons-has e t (suc i) (InClass.there m) = e.has t i m

    cons-only :
        Emits g cs symbols
        → (i : ℕ) (ts : Transitions) (tr : Transition) → get_elem? (row ∷ symbols) i ≡ some ts
        → Memᴰ tr ts
        → (t : GraphTransition) × InClass t i (c ∷ cs) × (build_transition g t ≡ tr)
    cons-only e zero ts tr at m =
        let same : row ≡ ts = some-injective row ts at in
        let (t, k, is) =
          Memᴰ.of_map (build_transition g) (order c.transitions) (subst (Memᴰ tr) (sym same) m) in
        (t, InClass.here ((o t c.transitions).0 k), is)
    cons-only e (suc i) ts tr at m =
        let (t, k, is) = e.only i ts tr at m in (t, InClass.there k, is)

    cons-some_in :
        Emits g cs symbols
        → (t : GraphTransition) → Memᴰ t c.transitions
        → (i : ℕ) (ts : Transitions) → get_elem? (row ∷ symbols) i ≡ some ts
        → 0 < length ts
    cons-some_in e t m zero ts at =
        let same : row ≡ ts = some-injective row ts at in
        subst (λ r. 0 < length r) same
          (mem-some row (build_transition g t)
            (Memᴰ.map (build_transition g) ((o t c.transitions).1 m)))
    cons-some_in e t m (suc i) ts at = e.some_in i ts at

  pub build_symbols-Emits :
      (em : Emitter) (n : ℕ) (cs : List EquivalenceClass)
      → Grouped n cs
      → Returns (build_symbols order em g cs) (λ out. Emits g cs out.0)
  unfolding build_symbols
  build_symbols-Emits em n [] grouped = (
    ([], []),
    refl,
    record {
      has = λ t i m. absurd (InClass-nil m);
      only = λ i ts tr at m. cc;
      some_in = λ i ts at. cc;
    },
  )
  build_symbols-Emits em n (c ∷ cs) (number, uniform, apart, rest) =
      let (out, run, e) = build_symbols-Emits em (suc n) cs rest in
      let (h, at, k) = begin_of-IsBegin order o uniform.first c.transitions uniform.first_in in
      let row_made = build_transitions-eq order o g c uniform.first uniform.first_in in
      (
        (row c cs out.0 ∷ out.0, em.printed h ∷ out.1),
        rw (at, ◌>>=◌, row_made, run),
        record {
          has = cons-has c cs out.0 e;
          only = cons-only c cs out.0 e;
          some_in = cons-some_in c cs out.0 e uniform.first uniform.first_in;
        },
      )

-- A transition between states whose IDs fit has their masks.
build_transition-IsTyped :
    (g : Graph) (t : GraphTransition)
    → t.from < 2 ^ 32
    → t.to < 2 ^ 32
    → IsTyped (mask_at g) (build_transition g t)
unfolding build_transition
build_transition-IsTyped g t hf ht =
    (ap (mask_at g) (sym (mod-eq_of_lt hf)), ap (mask_at g) (sym (mod-eq_of_lt ht)))

-- The symbols that are emitted for a graph.
pub record Alphabet (g : Graph) (symbols : List Transitions) : Type 0 where
  pub all_in :
      (t : GraphTransition)
      → Memᴰ t g.transitions
      → (i : ℕ) × (ts : Transitions) × (get_elem? symbols i ≡ some ts)
        × Memᴰ (build_transition g t) ts
  pub no_other :
      (i : ℕ) (ts : Transitions) (tr : Transition)
      → get_elem? symbols i ≡ some ts
      → Memᴰ tr ts
      → (t : GraphTransition) × Memᴰ t g.transitions × (build_transition g t ≡ tr)
  pub some_in : (i : ℕ) (ts : Transitions) → get_elem? symbols i ≡ some ts → 0 < length ts
  pub typed :
      (i : ℕ) (ts : Transitions) (tr : Transition)
      → get_elem? symbols i ≡ some ts
      → Memᴰ tr ts
      → IsTyped (mask_at g) tr

-- For a graph whose transitions are between its states, of which there are at most `2 ^ 32`, grouping
-- and emitting the transitions succeeds, in any order of the members of the classes: each
-- transition is emitted under a symbol, nothing else is, no symbol is empty, and each emitted
-- transition has the masks of its two states.
pub build_symbols-Alphabet :
    (order : List GraphTransition → List GraphTransition) (em : Emitter) (g : Graph)
    → IsOrder order
    → ((t : GraphTransition)
        → Memᴰ t g.transitions
        → (t.from < length g.states) × (t.to < length g.states))
    → length g.states ≤ 2 ^ 32
    → Returns
        (group_classes (begin_of order) g.transitions [] >>= build_symbols order em g)
        (λ out. Alphabet g out.0)
build_symbols-Alphabet order em g o v few =
    let (cs, grouped, w) =
      group_classes-Whole (begin_of order) (begin_of-IsBegin order o) g.transitions [] tt in
    let (out, run, e) = build_symbols-Emits order o g em 0 cs w.grouped in
    let source = λ (t : GraphTransition) (i : ℕ) (m : InClass t i cs). came t i (w.origin t i m) in
    (
      out,
      rw (grouped, ◌>>=◌, run),
      record {
        all_in = λ t m.
            let (i, k) = w.all_in t m in let (ts, at, member) = e.has t i k in (i, ts, at, member);
        no_other = λ i ts tr at m. let (t, k, is) = e.only i ts tr at m in (t, source t i k, is);
        some_in = e.some_in;
        typed = λ i ts tr at m.
            let (t, k, is) = e.only i ts tr at m in
            let (from, to) = v t (source t i k) in
            subst (IsTyped (mask_at g)) is
              (build_transition-IsTyped g t (omega (arith, from, few)) (omega (arith, to, few)));
      },
    )
  where
    came :
        (t : GraphTransition) (i : ℕ) → Memᴰ t g.transitions ⊎ InClass t i [] → Memᴰ t g.transitions
    came t i (inl is) = is
    came t i (inr old) = absurd (InClass-nil old)

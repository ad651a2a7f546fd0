-- ===== src/Dfa/Layers.antt =====
-- A test of a ranking of the states.
use mathlib.Core.List.Memᴰ
use mathlib.Core.Bool.{true≢false}
use mathlib.Core.List.{Memᴰ}
use mathlib.Core.Path.{subst}
use tesla.Base.{
  Bool, List, [], ap, arith, inl, inr, length, ltb, not, or-cases, sym, true, ℕ, ◌&&◌, ◌<◌, ◌||◌,
  ◌∙◌, ◌∷◌, ◌≡◌,
}
use tesla.Automata.{GraphTransition, is_null}
use tesla.Automata.Graph.{Graph}
use tesla.Automata.Graph.Out.{out_of-mem}
use tesla.Dfa.Reach.{Layered}
use tesla.Ir.Equal.{and-true}

abbrev falls : ℕ → (ℕ → ℕ) → GraphTransition → Bool
falls n rank t = ltb t.to n && (not (is_null t.label) || ltb (rank t.to) (rank t.from))

abbrev pub all_fall : ℕ → (ℕ → ℕ) → List GraphTransition → Bool
all_fall n rank [] = true
all_fall n rank (t ∷ ts) = falls n rank t && all_fall n rank ts

all_fall-mem :
    (n : ℕ) (rank : ℕ → ℕ) (ts : List GraphTransition) (t : GraphTransition)
    → all_fall n rank ts ≡ true
    → Memᴰ t ts
    → falls n rank t ≡ true
all_fall-mem n rank [] t h m = absurd (Memᴰ.not-nil m)
all_fall-mem n rank (u ∷ ts) t h m =
    let (first, rest) = and-true (falls n rank u) (all_fall n rank ts) h in
    elim (Memᴰ.cases_cons m) [
      | inl same ↦ subst (λ (x : GraphTransition). falls n rank x ≡ true) (sym same) first
      | inr later ↦ all_fall-mem n rank ts t rest later
    ]

falls-inside : (n : ℕ) (rank : ℕ → ℕ) (t : GraphTransition) → falls n rank t ≡ true → t.to < n
falls-inside n rank t h =
    let (inside, rest) =
      and-true (ltb t.to n) (not (is_null t.label) || ltb (rank t.to) (rank t.from)) h in
    ground arith

falls-down :
    (n : ℕ) (rank : ℕ → ℕ) (t : GraphTransition)
    → falls n rank t ≡ true
    → is_null t.label ≡ true
    → rank t.to < rank t.from
falls-down n rank t h null =
    let (inside, rest) =
      and-true (ltb t.to n) (not (is_null t.label) || ltb (rank t.to) (rank t.from)) h in
    elim (or-cases (not (is_null t.label)) (ltb (rank t.to) (rank t.from)) rest) [
      | inl other ↦ absurd (true≢false (sym other ∙ ap not null))
      | inr less ↦ ground arith
    ]

pub all_fall-Layered :
    (g : Graph) (rank : ℕ → ℕ)
    → all_fall (length g.states) rank g.transitions ≡ true
    → Layered g rank
all_fall-Layered g rank h = record {
  inside = λ s t m.
      let (k, e) = out_of-mem s g.transitions t m in
      falls-inside (length g.states) rank t
        (all_fall-mem (length g.states) rank g.transitions t h k);
  down = λ s t m n.
      let (k, e) = out_of-mem s g.transitions t m in
      subst (λ x. rank t.to < rank x) e
        (falls-down (length g.states) rank t
          (all_fall-mem (length g.states) rank g.transitions t h k) n);
}

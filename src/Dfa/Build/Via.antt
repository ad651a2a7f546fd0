-- ===== src/Dfa/Build/Via.antt =====
-- The transitions equivalent to one, and what the loops over them add to a set: `ConstructDFA`.
use mathlib.Core.List.Memᴰ
use mathlib.Core.Bool.{true≢false}
use mathlib.Core.List.{Memᴰ}
use mathlib.Core.Path.{subst}
use tesla.Base.{
  ==_iff, List, [], ap, contains, false, inl, inr, or-cases, or-left, or-right, refl, sym, true, ℕ,
  ◌==◌, ◌↔◌, ◌∙◌, ◌∷◌, ◌≡◌, ◌⊎◌,
}
use tesla.Automata.{GraphTransition, Label, equivalent}
use tesla.Automata.Graph.{Graph}
use tesla.Dfa.{Frontier}
use tesla.Dfa.Build.{Gather}
use tesla.Dfa.Marks.{Adds, Adds-none, Adds-trans}
use tesla.Dfa.Reach.{EpsilonPath}

-- Reached through a transition of the list that is equivalent to the label, and epsilon transitions.
abbrev pub Via : Graph → List GraphTransition → Label → ℕ → Type 0
Via g ts l j =
    (t : GraphTransition) × Memᴰ t ts × (equivalent t.label l ≡ true) × EpsilonPath g t.to j

-- The destination of such a transition.
abbrev pub To : List GraphTransition → Label → ℕ → Type 0
To ts l j = (t : GraphTransition) × Memᴰ t ts × (equivalent t.label l ≡ true) × (t.to ≡ j)

-- The address of a transition of the list that is equivalent to the label.
abbrev pub Equivalents : List GraphTransition → Label → ℕ → Type 0
Equivalents ts l n =
    (t : GraphTransition) × Memᴰ t ts × (equivalent t.label l ≡ true) × (t.address ≡ n)

module _ (g : Graph) (t : GraphTransition) (ts : List GraphTransition) (l : Label) where
  pub Via-equivalent :
      equivalent t.label l ≡ true
      → (j : ℕ) → Via g (t ∷ ts) l j ↔ (EpsilonPath g t.to j ⊎ Via g ts l j)
  Via-equivalent same j = (
    λ (u, m, n, path). elim (Memᴰ.cases_cons m) [
      | inl is ↦ inl (subst (λ (x : GraphTransition). EpsilonPath g x.to j) is path)
      | inr later ↦ inr (u, later, n, path)
    ],
    λ both. elim both [
      | inl path ↦ (t, Memᴰ.head refl, same, path)
      | inr (u, m, n, path) ↦ (u, Memᴰ.tail m, n, path)
    ],
  )

  Via-other : equivalent t.label l ≡ false → (j : ℕ) → Via g (t ∷ ts) l j ↔ (⊥ ⊎ Via g ts l j)
  Via-other other j = (
    λ (u, m, n, path). elim (Memᴰ.cases_cons m) [
      | inl is ↦
          absurd
            (true≢false (sym n ∙ ap (λ (x : GraphTransition). equivalent x.label l) is ∙ other))
      | inr later ↦ inr (u, later, n, path)
    ],
    λ both. elim both [
      | inl never ↦ absurd never
      | inr (u, m, n, path) ↦ (u, Memᴰ.tail m, n, path)
    ],
  )

module _ (t : GraphTransition) (ts : List GraphTransition) (l : Label) where
  To-equivalent : equivalent t.label l ≡ true → (j : ℕ) → To (t ∷ ts) l j ↔ ((t.to ≡ j) ⊎ To ts l j)
  To-equivalent same j = (
    λ (u, m, n, e). elim (Memᴰ.cases_cons m) [
      | inl is ↦ inl (subst (λ (x : GraphTransition). x.to ≡ j) is e)
      | inr later ↦ inr (u, later, n, e)
    ],
    λ both. elim both [
      | inl e ↦ (t, Memᴰ.head refl, same, e)
      | inr (u, m, n, e) ↦ (u, Memᴰ.tail m, n, e)
    ],
  )

  To-other : equivalent t.label l ≡ false → (j : ℕ) → To (t ∷ ts) l j ↔ (⊥ ⊎ To ts l j)
  To-other other j = (
    λ (u, m, n, e). elim (Memᴰ.cases_cons m) [
      | inl is ↦
          absurd
            (true≢false (sym n ∙ ap (λ (x : GraphTransition). equivalent x.label l) is ∙ other))
      | inr later ↦ inr (u, later, n, e)
    ],
    λ both. elim both [ inl never ↦ absurd never | inr (u, m, n, e) ↦ (u, Memᴰ.tail m, n, e) ],
  )

-- `a'` is `a` with the destinations and the addresses of the equivalents of the list.
pub record Gathers (g : Graph) (ts : List GraphTransition) (l : Label) (a a' : Gather)
    : Type 0 where
  pub adds : Adds g (Via g ts l) (To ts l) a.frontier a'.frontier
  pub kept : (n : ℕ) → contains a.gathered n ≡ true → contains a'.gathered n ≡ true
  pub new : (n : ℕ) → Equivalents ts l n → contains a'.gathered n ≡ true
  pub only :
      (n : ℕ) → contains a'.gathered n ≡ true → (contains a.gathered n ≡ true) ⊎ Equivalents ts l n

pub Gathers-none : (g : Graph) (l : Label) (a : Gather) → Gathers g [] l a a
Gathers-none g l a = record {
  adds =
      Adds-none g a.frontier (Via g [] l) (To [] l) (λ j p. absurd (Memᴰ.not-nil p.1))
        (λ j p. absurd (Memᴰ.not-nil p.1));
  kept = λ n h. h;
  new = λ n p. absurd (Memᴰ.not-nil p.1);
  only = λ n h. inl h;
}

-- An equivalent transition, and then the rest.
pub Gathers-cons :
    (g : Graph) (t : GraphTransition) (ts : List GraphTransition) (l : Label) (a : Gather)
    (f : Frontier) (a' : Gather)
    → equivalent t.label l ≡ true
    → Adds g (EpsilonPath g t.to) (λ j. t.to ≡ j) a.frontier f
    → Gathers g ts l (record { frontier = f; gathered = t.address ∷ a.gathered }) a'
    → Gathers g (t ∷ ts) l a a'
Gathers-cons g t ts l a f a' same here later = record {
  adds =
      Adds-trans g a.frontier f a'.frontier (EpsilonPath g t.to) (Via g ts l) (Via g (t ∷ ts) l)
        (λ j. t.to ≡ j) (To ts l) (To (t ∷ ts) l) here later.adds (Via-equivalent g t ts l same)
        (To-equivalent t ts l same);
  kept = λ n h. later.kept n (or-right (t.address == n) (contains a.gathered n) h);
  new = λ n (u, m, e, at). elim (Memᴰ.cases_cons m) [
    | inl is ↦ later.kept n (
        or-left (t.address == n) (contains a.gathered n)
          ((==_iff t.address n).1 (sym (ap (λ (x : GraphTransition). x.address) is) ∙ at)))
    | inr more ↦ later.new n (u, more, e, at)
  ];
  only = λ n h. elim (later.only n h) [
    | inl before ↦ elim (or-cases (t.address == n) (contains a.gathered n) before) [
      | inl mine ↦ inr (t, Memᴰ.head refl, same, (==_iff t.address n).0 mine)
      | inr old ↦ inl old
    ]
    | inr (u, m, e, at) ↦ inr (u, Memᴰ.tail m, e, at)
  ];
}

-- A transition that is not equivalent, and then the rest.
pub Gathers-skip :
    (g : Graph) (t : GraphTransition) (ts : List GraphTransition) (l : Label) (a a' : Gather)
    → equivalent t.label l ≡ false
    → Gathers g ts l a a'
    → Gathers g (t ∷ ts) l a a'
Gathers-skip g t ts l a a' other later = record {
  adds =
      Adds-trans g a.frontier a.frontier a'.frontier (λ j. ⊥) (Via g ts l) (Via g (t ∷ ts) l)
        (λ j. ⊥) (To ts l) (To (t ∷ ts) l)
        (Adds-none g a.frontier (λ j. ⊥) (λ j. ⊥) (λ j never. never) (λ j never. never)) later.adds
        (Via-other g t ts l other) (To-other t ts l other);
  kept = later.kept;
  new = λ n (u, m, e, at). elim (Memᴰ.cases_cons m) [
    | inl is ↦
        absurd (true≢false (sym e ∙ ap (λ (x : GraphTransition). equivalent x.label l) is ∙ other))
    | inr more ↦ later.new n (u, more, e, at)
  ];
  only = λ n h. elim (later.only n h) [
    | inl before ↦ inl before
    | inr (u, m, e, at) ↦ inr (u, Memᴰ.tail m, e, at)
  ];
}

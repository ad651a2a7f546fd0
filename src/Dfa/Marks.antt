-- ===== src/Dfa/Marks.antt =====
-- What a run of `collectFrontier` adds to its set and its flags.
use mathlib.Core.Path.{subst}
use tesla.Base.{
  ==_iff, Bool, Bool-cases, ap, arith, false, get_elem?, get_or-set_ne, get_or-set_self, inl, inr,
  length, length-set, none, or-cases, or-left, or-right, refl, set, some, sym, true, ℕ, ◌<◌, ◌==◌,
  ◌||◌, ◌↔◌, ◌∙◌, ◌≡◌, ◌≢◌, ◌⊎◌,
}
use tesla.Automata.Graph.{Graph, GraphState}
use tesla.Dfa.{Frontier, StateSet, has_state, join_frontier}

-- `r` has the flag exactly where `f` had it, or a state of `P` has it.
pub record Marks (flag : Frontier → Bool) (has : ℕ → Bool) (P : ℕ → Type 0) (f r : Frontier)
    : Type 0 where
  pub kept : flag f ≡ true → flag r ≡ true
  pub new : (j : ℕ) → P j → has j ≡ true → flag r ≡ true
  pub only : flag r ≡ true → (flag f ≡ true) ⊎ ((j : ℕ) × P j × (has j ≡ true))

module _ (flag : Frontier → Bool) (has : ℕ → Bool) where
  Marks-none : (f : Frontier) (P : ℕ → Type 0) → ((j : ℕ) → P j → ⊥) → Marks flag has P f f
  Marks-none f P empty = record { kept = λ e. e; new = λ j p. absurd (empty j p); only = inl }

  Marks-one :
      (f r : Frontier) (s : ℕ) → flag r ≡ (flag f || has s) → Marks flag has (λ j. s ≡ j) f r
  Marks-one f r s e = record {
    kept = λ h. e ∙ or-left (flag f) (has s) h;
    new = λ j same h. e ∙ or-right (flag f) (has s) (rw same h);
    only = λ h. elim (or-cases (flag f) (has s) (sym e ∙ h)) [
      | inl old ↦ inl old
      | inr mine ↦ inr (s, refl, mine)
    ];
  }

  Marks-trans :
      (f m r : Frontier) (P Q R : ℕ → Type 0)
      → Marks flag has P f m
      → Marks flag has Q m r
      → ((j : ℕ) → R j ↔ (P j ⊎ Q j))
      → Marks flag has R f r
  Marks-trans f m r P Q R a b both = record {
    kept = λ h. b.kept (a.kept h);
    new = λ j p h. elim ((both j).0 p) [
      | inl first ↦ b.kept (a.new j first h)
      | inr second ↦ b.new j second h
    ];
    only = λ h. elim (b.only h) [
      | inl before ↦ elim (a.only before) [
        | inl old ↦ inl old
        | inr found ↦ inr (found.0, (both found.0).1 (inl found.1), found.2)
      ]
      | inr found ↦ inr (found.0, (both found.0).1 (inr found.1), found.2)
    ];
  }

-- Whether a state is a start state, or accepts.
abbrev pub starts : Graph → ℕ → Bool
starts g s = elim (get_elem? g.states s) [ none ↦ false | some state ↦ state.start ]

abbrev pub accepts : Graph → ℕ → Bool
accepts g s = elim (get_elem? g.states s) [ none ↦ false | some state ↦ state.accept ]

-- `r` is `f` with the states of `P`, and with the flags of those of `Q`.
pub record Adds (g : Graph) (P Q : ℕ → Type 0) (f r : Frontier) : Type 0 where
  pub width : length r.members ≡ length f.members
  pub members : (j : ℕ) → Marks (λ x. has_state x.members j) (λ i. i == j) P f r
  pub start : Marks (λ x. x.start) (starts g) Q f r
  pub final : Marks (λ x. x.final) (accepts g) Q f r

-- No state.
abbrev pub Nowhere : ℕ → Type 0
Nowhere j = ⊥

module _ (g : Graph) where
  pub Adds-none :
      (f : Frontier) (P Q : ℕ → Type 0) → ((j : ℕ) → P j → ⊥) → ((j : ℕ) → Q j → ⊥) → Adds g P Q f f
  Adds-none f P Q no_p no_q = record {
    width = refl;
    members = λ j. Marks-none (λ x. has_state x.members j) (λ i. i == j) f P no_p;
    start = Marks-none (λ x. x.start) (starts g) f Q no_q;
    final = Marks-none (λ x. x.final) (accepts g) f Q no_q;
  }

  pub Adds-trans :
      (f m r : Frontier) (P₁ P₂ P Q₁ Q₂ Q : ℕ → Type 0)
      → Adds g P₁ Q₁ f m
      → Adds g P₂ Q₂ m r
      → ((j : ℕ) → P j ↔ (P₁ j ⊎ P₂ j))
      → ((j : ℕ) → Q j ↔ (Q₁ j ⊎ Q₂ j))
      → Adds g P Q f r
  Adds-trans f m r P₁ P₂ P Q₁ Q₂ Q a b split flags = record {
    width = b.width ∙ a.width;
    members = λ j.
        Marks-trans (λ x. has_state x.members j) (λ i. i == j) f m r P₁ P₂ P (a.members j)
          (b.members j) split;
    start = Marks-trans (λ x. x.start) (starts g) f m r Q₁ Q₂ Q a.start b.start flags;
    final = Marks-trans (λ x. x.final) (accepts g) f m r Q₁ Q₂ Q a.final b.final flags;
  }

  -- The states of a visit whose flags are dropped.
  pub Adds-members :
      (f f' r : Frontier) (P Q : ℕ → Type 0)
      → f'.members ≡ f.members
      → Adds g P Q f' r
      → Adds g P Nowhere f (record f { members = r.members })
  Adds-members f f' r P Q same a = record {
    width = a.width ∙ ap length same;
    members = λ j. record {
      kept = λ h. (a.members j).kept (ap (λ ns. has_state ns j) same ∙ h);
      new = (a.members j).new;
      only = λ h. elim ((a.members j).only h) [
        | inl old ↦ inl (sym (ap (λ ns. has_state ns j) same) ∙ old)
        | inr found ↦ inr found
      ];
    };
    start = record { kept = λ h. h; new = λ j never. absurd never; only = λ h. inl h };
    final = record { kept = λ h. h; new = λ j never. absurd never; only = λ h. inl h };
  }

  or_false : (a b : Bool) → b ≡ false → (a || b) ≡ a
  or_false true b e = refl
  or_false false b e = e

  has_state-set :
      (ns : StateSet) (s j : ℕ)
      → s < length ns
      → has_state (set ns s true) j ≡ (has_state ns j || (s == j))
  has_state-set ns s j h = elim (Bool-cases (s == j)) [
    | inl same ↦
        let at : s ≡ j = (==_iff s j).0 same in
        subst (λ i. has_state (set ns s true) i ≡ true) at (get_or-set_self ns s true false h)
        ∙ sym (or-right (has_state ns j) (s == j) same)
    | inr differs ↦
        let apart : s ≢ j = λ e. ground arith in
        get_or-set_ne ns s j true false apart ∙ sym (or_false (has_state ns j) (s == j) differs)
  ]

  pub Adds-one :
      (f : Frontier) (s : ℕ) (state : GraphState)
      → get_elem? g.states s ≡ some state
      → s < length f.members
      → Adds g (λ j. s ≡ j) (λ j. s ≡ j) f (join_frontier s state f)
  unfolding join_frontier
  Adds-one f s state at h =
      let r = join_frontier s state f in
      record {
        width = length-set f.members s true;
        members = λ j.
            Marks-one (λ x. has_state x.members j) (λ i. i == j) f r s
              (has_state-set f.members s j h);
        start = Marks-one (λ x. x.start) (starts g) f r s (rw (at, starts));
        final = Marks-one (λ x. x.final) (accepts g) f r s (rw (at, accepts));
      }

-- ===== src/Dfa/Build/Gathers.antt =====
-- What the loops over destinations gather for one transition of a DFA state.
use mathlib.Core.Bool.{true≢false}
use mathlib.Core.List.{Memᴰ}
use mathlib.Core.Path.{subst}
use tesla.Base.{
  ==_iff, ==_self, List, Returns-Yields, Yields, Yields-assert, Yields-bind, Yields-if, Yields-ok,
  [], ap, contains, each_run, false, inl, inr, length, length-replicate, not, ok, refl, replicate,
  suc, sym, true, zero, ℕ, ◌<◌, ◌↔◌, ◌∙◌, ◌∷◌, ◌≡◌, ◌⊎◌,
}
use tesla.Automata.{GraphTransition, Label, equivalent}
use tesla.Automata.Equivalent.{equivalent_self}
use tesla.Automata.Graph.{Graph}
use tesla.Dfa.{Frontier, collect_frontier, has_state}
use tesla.Dfa.Build.{Gather, Round, add_destination, destinations, gather}
use tesla.Dfa.Build.Via.{Equivalents, Gathers, Gathers-cons, Gathers-none, Gathers-skip, To, Via}
use tesla.Dfa.Marks.{Adds, accepts}
use tesla.Dfa.Reach.{EpsilonPath, Layered, Solid, Solid-direct, collect_frontier-Adds}

module _ (depth : ℕ) (nfa : Graph) (rank : ℕ → ℕ) (layers : Layered nfa rank)
    (deep : (s : ℕ) → s < length nfa.states → rank s < depth) where
  abbrev Staying : List GraphTransition → Type 0
  Staying ts = (t : GraphTransition) → Memᴰ t ts → t.to < length nfa.states

  pub frontier-Adds :
      (s : ℕ) (f : Frontier)
      → s < length nfa.states
      → length f.members ≡ length nfa.states
      → Yields (collect_frontier depth nfa s f) (Adds nfa (EpsilonPath nfa s) (λ j. s ≡ j) f)
  frontier-Adds s f h w =
      Returns-Yields (Adds nfa (EpsilonPath nfa s) (λ j. s ≡ j) f) (collect_frontier depth nfa s f)
        (collect_frontier-Adds nfa rank depth s f layers h w (deep s h))

  -- What one transition gathers: its destination, if it is equivalent.
  abbrev Gathered : Label → GraphTransition → Gather → Gather → Type 0
  Gathered l t a a' =
      ((equivalent t.label l ≡ true)
        × (f : Frontier) × Adds nfa (EpsilonPath nfa t.to) (λ j. t.to ≡ j) a.frontier f
        × (a' ≡ record { frontier = f; gathered = t.address ∷ a.gathered }))
      ⊎ ((equivalent t.label l ≡ false) × (a' ≡ a))

  gather-Gathered :
      (l : Label) (t : GraphTransition) (a : Gather)
      → t.to < length nfa.states
      → length a.frontier.members ≡ length nfa.states
      → Yields (gather depth nfa l t a) (Gathered l t a)
  unfolding gather add_destination
  gather-Gathered l t a h w =
      Yields-if (Gathered l t a) (equivalent t.label l) (add_destination depth nfa t a) (ok a)
        (λ same. Yields-assert (Gathered l t a) (not (contains a.gathered t.address)) _ λ _.
          Yields-bind (Adds nfa (EpsilonPath nfa t.to) (λ j. t.to ≡ j) a.frontier) (Gathered l t a)
            (collect_frontier depth nfa t.to a.frontier) _ (frontier-Adds t.to a.frontier h w)
            λ f adds. Yields-ok (Gathered l t a) _ (inl (same, f, adds, refl)))
        (λ other. Yields-ok (Gathered l t a) a (inr (other, refl)))

  pub gather-Gathers :
      (l : Label) (ts : List GraphTransition) (a : Gather)
      → Staying ts
      → length a.frontier.members ≡ length nfa.states
      → Yields (each_run (gather depth nfa l) ts a) (Gathers nfa ts l a)
  gather-Gathers l [] a stay w = Yields-ok (Gathers nfa [] l a) a (Gathers-none nfa l a)
  gather-Gathers l (t ∷ ts) a stay w =
      Yields-bind (Gathered l t a) (Gathers nfa (t ∷ ts) l a) (gather depth nfa l t a) _
        (gather-Gathered l t a (stay t (Memᴰ.head refl)) w)
        λ a₁ one a' e. elim one [
          | inl (same, f, adds, is) ↦ Gathers-cons nfa t ts l a f a' same adds (
              gather-Gathers l ts (record { frontier = f; gathered = t.address ∷ a.gathered })
                (λ u m. stay u (Memᴰ.tail m)) (adds.width ∙ w) a'
                (subst (λ x. each_run (gather depth nfa l) ts x ≡ ok a') is e))
          | inr (other, is) ↦ Gathers-skip nfa t ts l a a' other (
              gather-Gathers l ts a (λ u m. stay u (Memᴰ.tail m)) w a'
                (subst (λ x. each_run (gather depth nfa l) ts x ≡ ok a') is e))
        ]

  -- The destinations of a transition and its equivalents, and their addresses.
  pub record Collected (t : GraphTransition) (others : List GraphTransition) (r : Round)
      (a : Gather) : Type 0 where
    pub exact : (j : ℕ) → has_state a.frontier.members j ≡ true ↔ Via nfa (t ∷ others) t.label j
    pub wide : length a.frontier.members ≡ length nfa.states
    pub accepting :
        (j : ℕ)
        → has_state a.frontier.members j ≡ true
        → accepts nfa j ≡ true
        → Solid nfa j
        → a.frontier.final ≡ true
    pub kept : (n : ℕ) → contains r.finished_transitions n ≡ true → contains a.gathered n ≡ true
    pub new : (n : ℕ) → Equivalents (t ∷ others) t.label n → contains a.gathered n ≡ true
    pub only :
        (n : ℕ)
        → contains a.gathered n ≡ true
        → (contains r.finished_transitions n ≡ true) ⊎ Equivalents (t ∷ others) t.label n

  has_state-none : (n j : ℕ) → has_state (replicate n false) j ≡ false
  has_state-none zero j = refl
  has_state-none (suc n) zero = refl
  has_state-none (suc n) (suc j) = has_state-none n j

  -- The states of a frontier that began with none.
  pub frontier-exact :
      (f r : Frontier) (P Q : ℕ → Type 0) (n : ℕ)
      → f.members ≡ replicate n false
      → Adds nfa P Q f r
      → (j : ℕ) → has_state r.members j ≡ true ↔ P j
  frontier-exact f r P Q n empty adds j = (
    λ h. elim ((adds.members j).only h) [
      | inl old ↦
          absurd (true≢false (sym old ∙ ap (λ ns. has_state ns j) empty ∙ has_state-none n j))
      | inr (i, p, same) ↦ subst P ((==_iff i j).0 same) p
    ],
    λ p. (adds.members j).new j p (==_self j),
  )

  pub destinations-Collected :
      (t : GraphTransition) (others : List GraphTransition) (r : Round)
      → Staying (t ∷ others)
      → Yields (destinations depth nfa t others r) (Collected t others r)
  unfolding destinations
  destinations-Collected t others r stay =
      let f₀ : Frontier = record {
        members = replicate (length nfa.states) false;
        start = r.start;
        final = r.final;
      } in
      let w₀ = length-replicate (length nfa.states) false in
      let a₀ : Gather = record { frontier = f₀; gathered = r.finished_transitions } in
      Yields-bind (Adds nfa (EpsilonPath nfa t.to) (λ j. t.to ≡ j) f₀) (Collected t others r)
        (collect_frontier depth nfa t.to f₀) _ (frontier-Adds t.to f₀ (stay t (Memᴰ.head refl)) w₀)
        λ f adds a e.
          let all = Gathers-cons nfa t others t.label a₀ f a (equivalent_self t.label) adds (
            gather-Gathers t.label others
              (record { frontier = f; gathered = t.address ∷ r.finished_transitions })
              (λ u m. stay u (Memᴰ.tail m)) (adds.width ∙ w₀) a e) in
          let exact =
            frontier-exact f₀ a.frontier (Via nfa (t ∷ others) t.label) (To (t ∷ others) t.label)
              (length nfa.states) refl all.adds in
          record {
            exact = exact;
            wide = all.adds.width ∙ w₀;
            accepting = λ j h acc solid.
                let (u, m, same, path) = (exact j).0 h in
                all.adds.final.new j (u, m, same, Solid-direct nfa u.to j solid path) acc;
            kept = all.kept;
            new = all.new;
            only = all.only;
          }

-- ===== src/Dfa/Reach.antt =====
-- The states that epsilon transitions lead to, and `collectFrontier`.
use mathlib.Core.List.Memᴰ
use mathlib.Core.Bool.{true≢false}
use mathlib.Core.List.{Memᴰ}
use mathlib.Core.Path.{subst}
use tesla.Base.{
  Bool-cases, List, Returns, Run, [], ap, arith, each_run, false, get_elem?-of-lt, if◌then◌else◌,
  inl, inr, length, ok, refl, suc, sym, true, zero, ℕ, ◌<◌, ◌>>=◌, ◌↔◌, ◌∙◌, ◌∷◌, ◌≡◌, ◌≢◌, ◌⊎◌,
}
use tesla.Automata.{GraphTransition, is_null}
use tesla.Automata.Graph.{Graph, out_of}
use tesla.Dfa.{Frontier, collect_frontier, collect_members, join_frontier}
use tesla.Dfa.Marks.{Adds, Adds-members, Adds-none, Adds-one, Adds-trans, Nowhere}

-- `j` is reached from `s` by epsilon transitions.
pub data EpsilonPath (g : Graph) : ℕ → ℕ → Type 0 where
  stop : {s : ℕ} → EpsilonPath g s s
  step :
      {s j : ℕ} (t : GraphTransition)
      → Memᴰ t (out_of s g.transitions)
      → is_null t.label ≡ true
      → EpsilonPath g t.to j
      → EpsilonPath g s j

-- No epsilon transition leads to `j`.
abbrev pub Solid : Graph → ℕ → Type 0
Solid g j =
    (s : ℕ) (t : GraphTransition)
    → Memᴰ t (out_of s g.transitions)
    → is_null t.label ≡ true
    → t.to ≢ j

-- So epsilon transitions lead to `j` from itself only.
pub Solid-direct : (g : Graph) (s j : ℕ) → Solid g j → EpsilonPath g s j → s ≡ j
Solid-direct g s j solid EpsilonPath.stop = refl
Solid-direct g s j solid (EpsilonPath.step t m n path) =
    absurd (solid s t m n (Solid-direct g t.to j solid path))

-- The transitions stay among the states, and `rank` falls along each epsilon transition.
pub record Layered (g : Graph) (rank : ℕ → ℕ) : Type 0 where
  pub inside :
      (s : ℕ) (t : GraphTransition) → Memᴰ t (out_of s g.transitions) → t.to < length g.states
  pub down :
      (s : ℕ) (t : GraphTransition)
      → Memᴰ t (out_of s g.transitions)
      → is_null t.label ≡ true
      → rank t.to < rank s

-- Reached through an epsilon transition of the list.
pub Through : Graph → List GraphTransition → ℕ → Type 0
Through g ts j = (t : GraphTransition) × Memᴰ t ts × (is_null t.label ≡ true) × EpsilonPath g t.to j

module _ (g : Graph) (t : GraphTransition) (ts : List GraphTransition) (j : ℕ) where
  Through-null :
      is_null t.label ≡ true → Through g (t ∷ ts) j ↔ (EpsilonPath g t.to j ⊎ Through g ts j)
  unfolding Through
  Through-null null = (
    λ (u, m, n, path). elim (Memᴰ.cases_cons m) [
      | inl same ↦ inl (subst (λ (x : GraphTransition). EpsilonPath g x.to j) same path)
      | inr later ↦ inr (u, later, n, path)
    ],
    λ both. elim both [
      | inl path ↦ (t, Memᴰ.head refl, null, path)
      | inr (u, m, n, path) ↦ (u, Memᴰ.tail m, n, path)
    ],
  )

  Through-other : is_null t.label ≡ false → Through g (t ∷ ts) j ↔ (⊥ ⊎ Through g ts j)
  unfolding Through
  Through-other other = (
    λ (u, m, n, path). elim (Memᴰ.cases_cons m) [
      | inl same ↦
          absurd (true≢false (sym n ∙ ap (λ (x : GraphTransition). is_null x.label) same ∙ other))
      | inr later ↦ inr (u, later, n, path)
    ],
    λ both. elim both [
      | inl never ↦ absurd never
      | inr (u, m, n, path) ↦ (u, Memᴰ.tail m, n, path)
    ],
  )

nowhere : (j : ℕ) → Nowhere j ↔ (Nowhere j ⊎ Nowhere j)
nowhere j = (λ never. absurd never, λ both. elim both [ inl never ↦ never | inr never ↦ never ])

-- The loop over the transitions, for any visit that adds what is reached from a state.
module _ (g : Graph) (visit : ℕ → Frontier → Run Frontier) where
  abbrev follow : GraphTransition → Frontier → Run Frontier
  follow t f = if is_null t.label then collect_members (visit t.to) f else ok f

  follow-Adds :
      (ts : List GraphTransition) (f : Frontier)
      → ((t : GraphTransition) (f' : Frontier)
          → Memᴰ t ts
          → is_null t.label ≡ true
          → length f'.members ≡ length f.members
          → Returns (visit t.to f') (Adds g (EpsilonPath g t.to) (λ j. t.to ≡ j) f'))
      → Returns (each_run follow ts f) (Adds g (Through g ts) Nowhere f)
  unfolding Through collect_members
  follow-Adds [] f ih = (
    f,
    refl,
    Adds-none g f (Through g []) Nowhere (λ j p. absurd (Memᴰ.not-nil p.1)) (λ j never. never),
  )
  follow-Adds (t ∷ ts) f ih = elim (Bool-cases (is_null t.label)) [
    | inl null ↦
        let f₀ : Frontier = record { members = f.members; start = true; final = true } in
        let (x, run, gained) = ih t f₀ (Memᴰ.head refl) null refl in
        let m : Frontier = record f { members = x.members } in
        let a = Adds-members g f f₀ x (EpsilonPath g t.to) (λ j. t.to ≡ j) refl gained in
        let (r, runs, b) = follow-Adds ts m (λ u f' k n w. ih u f' (Memᴰ.tail k) n (w ∙ a.width)) in
        (
          r,
          rw (null, run, ◌>>=◌, ◌>>=◌, runs),
          Adds-trans g f m r (EpsilonPath g t.to) (Through g ts) (Through g (t ∷ ts)) Nowhere
              Nowhere Nowhere a b (λ j. Through-null g t ts j null) nowhere,
        )
    | inr other ↦
        let (r, runs, b) = follow-Adds ts f (λ u f' k n w. ih u f' (Memᴰ.tail k) n w) in
        (
          r,
          rw (other, ◌>>=◌, runs),
          Adds-trans g f f r Nowhere (Through g ts) (Through g (t ∷ ts)) Nowhere Nowhere Nowhere
              (Adds-none g f Nowhere Nowhere (λ j never. never) (λ j never. never)) b
              (λ j. Through-other g t ts j other) nowhere,
        )
  ]

-- A state and what is reached through its transitions.
EpsilonPath-out :
    (g : Graph) (s j : ℕ) → EpsilonPath g s j ↔ ((s ≡ j) ⊎ Through g (out_of s g.transitions) j)
unfolding Through
EpsilonPath-out g s j = (
  out,
  λ p. elim p [
    | inl same ↦ subst (EpsilonPath g s) same EpsilonPath.stop
    | inr (t, m, n, path) ↦ EpsilonPath.step t m n path
  ],
)
  where
    out : {s j : ℕ} → EpsilonPath g s j → (s ≡ j) ⊎ Through g (out_of s g.transitions) j
    out EpsilonPath.stop = inl refl
    out (EpsilonPath.step t m n path) = inr (t, m, n, path)

-- With depth above the rank of the state, the recursion ends. It adds the states that epsilon
-- transitions lead to, and of the flags only those of the state itself.
pub collect_frontier-Adds :
    (g : Graph) (rank : ℕ → ℕ) (depth s : ℕ) (f : Frontier)
    → Layered g rank
    → s < length g.states
    → length f.members ≡ length g.states
    → rank s < depth
    → Returns (collect_frontier depth g s f) (Adds g (EpsilonPath g s) (λ j. s ≡ j) f)
unfolding collect_frontier
collect_frontier-Adds g rank zero s f l h w d = absurd (omega arith)
collect_frontier-Adds g rank (suc depth) s f l h w d =
    let (state, at) = get_elem?-of-lt g.states s h in
    let first = Adds-one g f s state at (omega (arith, w)) in
    let (r, run, a) =
      follow-Adds g (collect_frontier depth g) (out_of s g.transitions) (join_frontier s state f)
        (λ t f' m n e.
          collect_frontier-Adds g rank depth t.to f' l (l.inside s t m) (e ∙ first.width ∙ w)
            (let fall = l.down s t m n in omega arith)) in
    (
      r,
      rw (at, ◌>>=◌, run),
      Adds-trans g f (join_frontier s state f) r (λ j. s ≡ j) (Through g (out_of s g.transitions))
          (EpsilonPath g s) (λ j. s ≡ j) Nowhere (λ j. s ≡ j) first a (EpsilonPath-out g s)
          (λ j. (inl, λ p. elim p [ inl same ↦ same | inr never ↦ absurd never ])),
    )

-- ===== src/Dfa/Endless.antt =====
-- `collectFrontier` on cycles of epsilon transitions: it does not look whether it has been to a state.
use mathlib.Core.List.Memᴰ
use mathlib.Core.List.{Memᴰ}
use mathlib.Core.Path.{subst}
use tesla.Base.{
  >>=-eq-ok, List, Run, [], each_run, if◌then◌else◌, inl, inr, ok, read, suc, sym, true, zero, ℕ,
  ◌∷◌, ◌≡◌, ◌≢◌,
}
use tesla.Automata.{GraphTransition, is_null}
use tesla.Automata.Graph.{Graph, out_of}
use tesla.Dfa.{Frontier, collect_frontier, collect_members, join_frontier}

-- The flags that the `collectFrontier` of two arguments starts with.
abbrev started : Frontier → Frontier
started f = record { members = f.members; start = true; final = true }

module _ (visit : ℕ → Frontier → Run Frontier) where
  -- A loop that ends has visited the target of each of its epsilon transitions.
  visited :
      (ts : List GraphTransition) (f r : Frontier) (t : GraphTransition)
      → each_run (λ u f'. if is_null u.label then collect_members (visit u.to) f' else ok f') ts f
        ≡ ok r
      → Memᴰ t ts
      → is_null t.label ≡ true
      → (f' : Frontier) × (r' : Frontier) × (visit t.to f' ≡ ok r')
  unfolding collect_members
  visited [] f r t e m n = absurd (Memᴰ.not-nil m)
  visited (u ∷ us) f r t e m n =
      let (next, run, rest) =
        >>=-eq-ok (if is_null u.label then collect_members (visit u.to) f else ok f)
          (each_run (λ v f'. if is_null v.label then collect_members (visit v.to) f' else ok f') us)
          e in
      elim (Memᴰ.cases_cons m) [
        | inl same ↦
            let null : is_null u.label ≡ true =
              subst (λ (x : GraphTransition). is_null x.label ≡ true) same n in
            let here : collect_members (visit u.to) f ≡ ok next =
              subst (λ b. (if b then collect_members (visit u.to) f else ok f) ≡ ok next) null
                run in
            let (x, run, kept) = >>=-eq-ok (visit u.to (started f)) _ here in
            (
              started f,
              x,
              subst (λ (v : GraphTransition). visit v.to (started f) ≡ ok x) (sym same) run,
            )
        | inr later ↦ visited us next r t rest later n
      ]

-- From a state of `C`, where each state of `C` has an epsilon transition to one of `C`, the recursion
-- does not end within any depth.
pub collect_frontier-endless :
    (g : Graph) (C : ℕ → Type 0)
    → ((s : ℕ)
        → C s
        → (t : GraphTransition) × Memᴰ t (out_of s g.transitions)
          × (is_null t.label ≡ true)
          × C t.to)
    → (depth s : ℕ) (f r : Frontier) → C s
    → collect_frontier depth g s f ≢ ok r
unfolding collect_frontier
collect_frontier-endless g C cycle zero s f r c e = cc
collect_frontier-endless g C cycle (suc depth) s f r c e =
    let (t, m, n, next) = cycle s c in
    let (state, at, run) =
      >>=-eq-ok (read g.states s)
        (λ state.
          each_run
            (λ u f'.
              if is_null u.label then collect_members (collect_frontier depth g u.to) f' else ok f')
            (out_of s g.transitions) (join_frontier s state f))
        e in
    let (f', r', again) =
      visited (collect_frontier depth g) (out_of s g.transitions) (join_frontier s state f) r t run
        m n in
    collect_frontier-endless g C cycle depth t.to f' r' next again

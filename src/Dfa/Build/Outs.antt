-- ===== src/Dfa/Build/Outs.antt =====
-- The transitions of the members of a set.
use mathlib.Core.List.Memᴰ
use mathlib.Core.List.{Memᴰ}
use mathlib.Core.Path.{subst}
use tesla.Base.{List, [], arith, false, inl, inr, refl, suc, true, zero, ℕ, ◌+◌, ◌↔◌, ◌∷◌, ◌≡◌}
use tesla.Automata.{GraphTransition}
use tesla.Automata.Graph.{Graph, out_of}
use tesla.Dfa.{StateSet, has_state, members_from}
use tesla.Dfa.Build.{all_out}

-- The members of a list of tests are those that are set.
members_from-member :
    (k i : ℕ) (ns : StateSet)
    → Memᴰ i (members_from k ns)
    → (j : ℕ) × (i ≡ k + j) × (has_state ns j ≡ true)
unfolding members_from
members_from-member k i [] m = absurd (Memᴰ.not-nil m)
members_from-member k i (true ∷ ns) m = elim (Memᴰ.cases_cons m) [
  | inl is ↦ (0, omega (arith, is), refl)
  | inr later ↦
      let (j, at, h) = members_from-member (k + 1) i ns later in (suc j, omega (arith, at), h)
]
members_from-member k i (false ∷ ns) m =
    let (j, at, h) = members_from-member (k + 1) i ns m in (suc j, omega (arith, at), h)

members_from-has :
    (k j : ℕ) (ns : StateSet) → has_state ns j ≡ true → Memᴰ (k + j) (members_from k ns)
unfolding members_from
members_from-has k j [] h = cc
members_from-has k zero (true ∷ ns) h = Memᴰ.head (omega arith)
members_from-has k zero (false ∷ ns) h = cc
members_from-has k (suc j) (true ∷ ns) h =
    Memᴰ.tail (
      subst (λ n. Memᴰ n (members_from (k + 1) ns)) (omega arith) (members_from-has (k + 1) j ns h))
members_from-has k (suc j) (false ∷ ns) h =
    subst (λ n. Memᴰ n (members_from (k + 1) ns)) (omega arith) (members_from-has (k + 1) j ns h)

module _ (depth : ℕ) (nfa : Graph) where
  all_out-member :
      (ss : List ℕ) (t : GraphTransition)
      → Memᴰ t (all_out depth nfa ss)
      → (s : ℕ) × Memᴰ s ss × Memᴰ t (out_of s nfa.transitions)
  unfolding all_out
  all_out-member [] t m = absurd (Memᴰ.not-nil m)
  all_out-member (s ∷ ss) t m = elim (Memᴰ.append_cases (out_of s nfa.transitions) m) [
    | inl mine ↦ (s, Memᴰ.head refl, mine)
    | inr others ↦ let (s', k, out) = all_out-member ss t others in (s', Memᴰ.tail k, out)
  ]

  all_out-has :
      (ss : List ℕ) (s : ℕ) (t : GraphTransition)
      → Memᴰ s ss
      → Memᴰ t (out_of s nfa.transitions)
      → Memᴰ t (all_out depth nfa ss)
  unfolding all_out
  all_out-has [] s t m out = absurd (Memᴰ.not-nil m)
  all_out-has (s' ∷ ss) s t m out = elim (Memᴰ.cases_cons m) [
    | inl is ↦
        Memᴰ.append_left (all_out depth nfa ss)
          (subst (λ n. Memᴰ t (out_of n nfa.transitions)) is out)
    | inr later ↦ Memᴰ.append_right (out_of s' nfa.transitions) (all_out-has ss s t later out)
  ]

  -- The transitions that the loops over a set visit are those that leave a member of it.
  pub outs-member :
      (ns : StateSet) (t : GraphTransition)
      → Memᴰ t (all_out depth nfa (members_from 0 ns))
        ↔ ((s : ℕ) × (has_state ns s ≡ true) × Memᴰ t (out_of s nfa.transitions))
  outs-member ns t = (
    λ m.
        let (s, k, out) = all_out-member (members_from 0 ns) t m in
        let (j, at, h) = members_from-member 0 s ns k in
        (s, subst (λ n. has_state ns n ≡ true) (omega (arith, at)) h, out),
    λ (s, h, out).
        all_out-has (members_from 0 ns) s t
          (subst (λ n. Memᴰ n (members_from 0 ns)) (omega arith) (members_from-has 0 s ns h)) out,
  )

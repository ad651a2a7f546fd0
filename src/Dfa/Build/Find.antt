-- ===== src/Dfa/Build/Find.antt =====
-- The search for a set among the known ones.
use mathlib.Core.Bool.{true≢false}
use mathlib.Core.Option.{some-injective}
use mathlib.Core.Path.{subst}
use tesla.Base.{
  Bool-cases, List, [], ap, arith, get_elem?, if◌then◌else◌, inl, inr, none, or-left, or-right,
  some, suc, sym, true, zero, ℕ, ◌+◌, ◌∙◌, ◌∷◌, ◌≡◌,
}
use tesla.Dfa.{StateSet}
use tesla.Dfa.Build.{find_set}
use tesla.Dfa.Build.Measure.{find_set-none}
use tesla.Dfa.Sets.{is_known}
use tesla.Ir.Equal.{bool_eq, bool_eq-IsEquality, list_eq, list_eq-IsEquality}

-- A set that is found is at its place.
pub find_set-some :
    (ks : List StateSet) (ns : StateSet) (i j : ℕ)
    → find_set ks ns i ≡ some j
    → (k : ℕ) × (j ≡ i + k) × (get_elem? ks k ≡ some ns)
unfolding find_set
find_set-some [] ns i j e = cc
find_set-some (k ∷ ks) ns i j e = elim (Bool-cases (list_eq bool_eq k ns)) [
  | inl same ↦
      let found = subst (λ b. (if b then some i else find_set ks ns (i + 1)) ≡ some j) same e in
      let at : i ≡ j = some-injective i j found in
      (0, omega (arith, at), ap some ((list_eq-IsEquality bool_eq-IsEquality).sound k ns same))
  | inr other ↦
      let later = subst (λ b. (if b then some i else find_set ks ns (i + 1)) ≡ some j) other e in
      let (p, at, is) = find_set-some ks ns (i + 1) j later in (suc p, omega (arith, at), is)
]

known_at :
    (ks : List StateSet) (ns : StateSet) (k : ℕ) → get_elem? ks k ≡ some ns → is_known ks ns ≡ true
known_at [] ns k at = cc
known_at (x ∷ ks) ns zero at = or-left (list_eq bool_eq x ns) (is_known ks ns) (
    subst (λ y. list_eq bool_eq y ns ≡ true) (sym (some-injective x ns at))
      ((list_eq-IsEquality bool_eq-IsEquality).self ns))
known_at (x ∷ ks) ns (suc k) at =
    or-right (list_eq bool_eq x ns) (is_known ks ns) (known_at ks ns k at)

-- A set that is not found is at no place.
pub find_set-missing :
    (ks : List StateSet) (ns : StateSet) (k : ℕ)
    → find_set ks ns 0 ≡ none
    → get_elem? ks k ≡ some ns
    → ⊥
find_set-missing ks ns k e at = true≢false (sym (known_at ks ns k at) ∙ find_set-none ks ns 0 e)

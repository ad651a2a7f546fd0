-- ===== src/Dfa/Sets.antt =====
-- The sets of NFA states that a DFA has not met yet, counted.
use mathlib.Core.List.Memᴰ
use mathlib.Core.List.{Memᴰ}
use mathlib.Core.Path.{ap₂, subst}
use native.Mathlib.Nat.{pow-suc}
use tesla.Base.{
  Bool, List, [], ap, arith, count_le, count_lt, false, if◌then◌else◌, inl, inr, length,
  length-append, map, or-left, or-right, refl, suc, true, zero, ℕ, ◌++◌, ◌+◌, ◌<◌, ◌^◌, ◌||◌, ◌∙◌,
  ◌∷◌, ◌≡◌, ◌≤◌,
}
use tesla.Dfa.{StateSet}
use tesla.Ir.Equal.{bool_eq, bool_eq-IsEquality, list_eq, list_eq-IsEquality}

abbrev pub all_sets : ℕ → List StateSet
all_sets zero = [] ∷ []
all_sets (suc n) = map (λ ns. true ∷ ns) (all_sets n) ++ map (λ ns. false ∷ ns) (all_sets n)

abbrev same_set : StateSet → StateSet → Bool
same_set = list_eq bool_eq

abbrev pub is_known : List StateSet → StateSet → Bool
is_known [] ns = false
is_known (k ∷ ks) ns = same_set k ns || is_known ks ns

-- How many of `all` are not known.
abbrev pub unseen : List StateSet → List StateSet → ℕ
unseen ks [] = 0
unseen ks (ns ∷ all) = if is_known ks ns then unseen ks all else suc (unseen ks all)

length-map {ℓ κ} :
    {A : Type ℓ} {B : Type κ} (f : A → B) (xs : List A) → length (map f xs) ≡ length xs
length-map f [] = refl
length-map f (x ∷ xs) = ap suc (length-map f xs)

pub length-all_sets : (n : ℕ) → length (all_sets n) ≡ 2 ^ n
length-all_sets zero = refl
length-all_sets (suc n) =
    length-append (map (λ ns. true ∷ ns) (all_sets n)) (map (λ ns. false ∷ ns) (all_sets n))
    ∙ ap₂ (λ a b. a + b) (length-map (λ ns. true ∷ ns) (all_sets n) ∙ length-all_sets n)
        (length-map (λ ns. false ∷ ns) (all_sets n) ∙ length-all_sets n)
    ∙ omega (arith, pow-suc 2 n)

pub all_sets-complete : (ns : StateSet) → Memᴰ ns (all_sets (length ns))
all_sets-complete [] = Memᴰ.head refl
all_sets-complete (true ∷ ns) =
    Memᴰ.append_left (map (λ ms. false ∷ ms) (all_sets (length ns)))
      (Memᴰ.map (λ ms. true ∷ ms) (all_sets-complete ns))
all_sets-complete (false ∷ ns) =
    Memᴰ.append_right (map (λ ms. true ∷ ms) (all_sets (length ns)))
      (Memᴰ.map (λ ms. false ∷ ms) (all_sets-complete ns))

pub unseen_le : (ks all : List StateSet) → unseen ks all ≤ length all
unseen_le ks [] = omega arith
unseen_le ks (ns ∷ all) = let rest = unseen_le ks all in ground arith

is_known-append :
    (ks : List StateSet) (k ns : StateSet)
    → is_known (ks ++ k ∷ []) ns ≡ (same_set k ns || is_known ks ns)
is_known-append [] k ns = refl
is_known-append (x ∷ ks) k ns = let rest = is_known-append ks k ns in ground arith

still_known :
    (ks : List StateSet) (k ns : StateSet)
    → is_known ks ns ≡ true
    → is_known (ks ++ k ∷ []) ns ≡ true
still_known ks k ns h = is_known-append ks k ns ∙ or-right (same_set k ns) (is_known ks ns) h

unseen-append : (ks all : List StateSet) (k : StateSet) → unseen (ks ++ k ∷ []) all ≤ unseen ks all
unseen-append ks [] k = omega arith
unseen-append ks (ns ∷ all) k =
    count_le (is_known ks ns) (is_known (ks ++ k ∷ []) ns) (unseen (ks ++ k ∷ []) all)
      (unseen ks all) (still_known ks k ns) (unseen-append ks all k)

same_set_self : (ns : StateSet) → same_set ns ns ≡ true
same_set_self ns = (list_eq-IsEquality bool_eq-IsEquality).self ns

-- One set less is unseen, when a new one is met.
pub unseen-new :
    (ks all : List StateSet) (k : StateSet)
    → is_known ks k ≡ false
    → Memᴰ k all
    → unseen (ks ++ k ∷ []) all < unseen ks all
unseen-new ks [] k new m = absurd (Memᴰ.not-nil m)
unseen-new ks (ns ∷ all) k new m = elim (Memᴰ.cases_cons m) [
  | inl same ↦
      let less = unseen-append ks all k in
      let before : is_known ks ns ≡ false = subst (λ x. is_known ks x ≡ false) same new in
      let after : is_known (ks ++ k ∷ []) ns ≡ true =
        is_known-append ks k ns
        ∙ or-left (same_set k ns) (is_known ks ns)
            (subst (λ x. same_set k x ≡ true) same (same_set_self k)) in
      ground arith
  | inr later ↦
      count_lt (is_known ks ns) (is_known (ks ++ k ∷ []) ns) (unseen (ks ++ k ∷ []) all)
        (unseen ks all) (still_known ks k ns) (unseen-new ks all k new later)
]

-- ===== src/Dfa/Build/Measure.antt =====
-- The measure of `ConstructDFA`: the sets that are unfinished, and those that have not been met. A set
-- becomes unfinished once, when it is first met.
use mathlib.Core.List.Memᴰ
use mathlib.Core.List.{Memᴰ}
use mathlib.Core.Path.{subst}
use tesla.Base.{
  Bool, Bool-cases, List, Option, [], ap, arith, false, if◌then◌else◌, inl, inr, length,
  length-append, none, refl, some, ℕ, ◌+◌, ◌^◌, ◌∙◌, ◌∷◌, ◌≡◌, ◌≤◌,
}
use tesla.Dfa.{StateSet}
use tesla.Dfa.Build.{Builder, Unfinished, find_set, known_or_new, new_state, state_for_nfa_states}
use tesla.Dfa.Sets.{all_sets, all_sets-complete, is_known, unseen, unseen-new}
use tesla.Ir.Equal.{bool_eq, list_eq}

-- A builder that has `c` rounds left at most, and has met `2 ^ n` sets at most.
pub record Within (n c : ℕ) (b : Builder) : Type 0 where
  pub wide : (u : Unfinished) → Memᴰ u b.unfinished → length u.members ≡ n
  pub rounds : length b.unfinished + unseen b.known_sets (all_sets n) ≤ c
  pub size : length b.known_sets + unseen b.known_sets (all_sets n) ≤ 2 ^ n

-- What the loop ends with: nothing unfinished, and at most `2 ^ n` sets.
pub record Complete (n : ℕ) (b : Builder) : Type 0 where
  pub all_finished : b.unfinished ≡ []
  pub states_le : length b.known_sets ≤ 2 ^ n

pub find_set-none :
    (ks : List StateSet) (ns : StateSet) (i : ℕ) → find_set ks ns i ≡ none → is_known ks ns ≡ false
unfolding find_set
find_set-none [] ns i e = refl
find_set-none (k ∷ ks) ns i e = elim (Bool-cases (list_eq bool_eq k ns)) [
  | inl same ↦
      let found : some i ≡ none =
        subst (λ b. (if b then some i else find_set ks ns (i + 1)) ≡ none) same e in
      cc
  | inr other ↦
      let later = subst (λ b. (if b then some i else find_set ks ns (i + 1)) ≡ none) other e in
      rw (other, find_set-none ks ns (i + 1) later)
]

module _ (n c : ℕ) where
  new_state-Within :
      (ns : StateSet) (start final : Bool) (b : Builder)
      → length ns ≡ n
      → is_known b.known_sets ns ≡ false
      → Within n c b
      → Within n c (new_state ns start final b).1
  unfolding new_state
  new_state-Within ns start final b w fresh h =
      let mine = subst (λ k. Memᴰ ns (all_sets k)) w (all_sets-complete ns) in
      let less = unseen-new b.known_sets (all_sets n) ns fresh mine in
      let longer = length-append b.known_sets (ns ∷ []) in
      record {
        wide = λ u m. elim (Memᴰ.cases_cons m) [
          | inl same ↦ ap (λ (x : Unfinished). length x.members) same ∙ w
          | inr old ↦ h.wide u old
        ];
        rounds = omega (arith, less, h.rounds);
        size = omega (arith, less, longer, h.size);
      }

  known_or_new-Within :
      (found : Option ℕ) (ns : StateSet) (start final : Bool) (b : Builder)
      → length ns ≡ n
      → (found ≡ none → is_known b.known_sets ns ≡ false)
      → Within n c b
      → Within n c (known_or_new found ns start final b).1
  unfolding known_or_new
  known_or_new-Within none ns start final b w fresh h =
      new_state-Within ns start final b w (fresh refl) h
  known_or_new-Within (some i) ns start final b w fresh h = h

  pub state_for_nfa_states-Within :
      (ns : StateSet) (start final : Bool) (b : Builder)
      → length ns ≡ n
      → Within n c b
      → Within n c (state_for_nfa_states ns start final b).1
  unfolding state_for_nfa_states
  state_for_nfa_states-Within ns start final b w =
      known_or_new-Within (find_set b.known_sets ns 0) ns start final b w
        (find_set-none b.known_sets ns 0)

-- ===== src/Action/Keyless.antt =====
-- `tesla_action` where neither the instance, nor the event, nor the transitions have variables.
use mathlib.Core.List.Memᴰ
use mathlib.Core.Bool.{true≢false}
use mathlib.Core.List.{Memᴰ}
use mathlib.Core.Option.{some-injective}
use mathlib.Core.Path.{ap₂, subst}
use tesla.Base.{
  ==_iff, Bool, List, [], ap, bit_and, bit_or, false, get_elem?, get_elem?-of-lt, inl, inr, length,
  none, ok, refl, some, suc, sym, true, zero, ℕ, ◌&&◌, ◌<◌, ◌==◌, ◌∙◌, ◌∷◌, ◌≡◌, ◌≢◌, ◌⊎◌,
}
use tesla.Action.{Action, action, masked, match_transition}
use tesla.Action.Decides.{Every, Reads, Verdict, action-Verdict}
use tesla.Base.Bits.{bit, subset, zero-and}
use tesla.Class.{instance_active}
use tesla.Ir.Equal.{and-true}
use tesla.Key.Match.{Matches, key_matches-Matches}
use tesla.Types.{Instance, Key, Transition, Transitions}

-- No transition of the row has variables.
abbrev pub keyless_row : Transitions → Bool
keyless_row [] = true
keyless_row (t ∷ ts) = (t.from_mask == 0 && t.to_mask == 0) && keyless_row ts

abbrev pub keyless : List Transitions → Bool
keyless [] = true
keyless (ts ∷ rows) = keyless_row ts && keyless rows

pub keyless-row :
    (rows : List Transitions) (i : ℕ) (ts : Transitions)
    → keyless rows ≡ true
    → get_elem? rows i ≡ some ts
    → keyless_row ts ≡ true
keyless-row [] i ts h at = cc
keyless-row (r ∷ rows) zero ts h at =
    let (first, rest) = and-true (keyless_row r) (keyless rows) h in
    subst (λ x. keyless_row x ≡ true) (some-injective r ts at) first
keyless-row (r ∷ rows) (suc i) ts h at =
    let (first, rest) = and-true (keyless_row r) (keyless rows) h in keyless-row rows i ts rest at

keyless_row-at :
    (ts : Transitions) (j : ℕ) (t : Transition)
    → keyless_row ts ≡ true
    → get_elem? ts j ≡ some t
    → (t.from_mask ≡ 0) × (t.to_mask ≡ 0) × Memᴰ t ts
keyless_row-at [] j t h at = cc
keyless_row-at (u ∷ ts) zero t h at =
    let (first, rest) = and-true (u.from_mask == 0 && u.to_mask == 0) (keyless_row ts) h in
    let (from, to) = and-true (u.from_mask == 0) (u.to_mask == 0) first in
    let is : u ≡ t = some-injective u t at in
    subst (λ (x : Transition). (x.from_mask ≡ 0) × (x.to_mask ≡ 0) × Memᴰ x (u ∷ ts)) is
      ((==_iff u.from_mask 0).0 from, (==_iff u.to_mask 0).0 to, Memᴰ.head refl)
keyless_row-at (u ∷ ts) (suc j) t h at =
    let (first, rest) = and-true (u.from_mask == 0 && u.to_mask == 0) (keyless_row ts) h in
    let (from, to, m) = keyless_row-at ts j t rest at in (from, to, Memᴰ.tail m)

mem-place : (ts : Transitions) (t : Transition) → Memᴰ t ts → (j : ℕ) × (get_elem? ts j ≡ some t)
mem-place [] t m = absurd (Memᴰ.not-nil m)
mem-place (u ∷ ts) t m = elim (Memᴰ.cases_cons m) [
  | inl is ↦ (0, ap some (sym is))
  | inr later ↦ let (j, at) = mem-place ts t later in (suc j, at)
]

-- A pattern without variables matches every key.
bit_zero : (i : ℕ) → bit 0 i ≡ false
unfolding bit
bit_zero zero = refl
bit_zero (suc i) = bit_zero i

empty-Matches : (p k : Key) → p.mask ≡ 0 → p.freemask ≡ 0 → Matches p k
empty-Matches p k m f = record {
  set = λ i b. absurd (true≢false (sym b ∙ ap (λ x. bit x i) m ∙ bit_zero i));
  free = λ i b. absurd (true≢false (sym b ∙ ap (λ x. bit x i) f ∙ bit_zero i));
  agree = λ i lt b. absurd (true≢false (sym b ∙ ap (λ x. bit x i) m ∙ bit_zero i));
}

subset_zero : (x y : ℕ) → x ≡ 0 → y ≡ 0 → subset x y ≡ true
unfolding subset
subset_zero x y e f = ap₂ (λ a b. bit_and a b == a) e f

match_transition-empty :
    (inst : Instance) (k : Key) (t : Transition)
    → t.from_mask ≡ 0
    → t.to_mask ≡ 0
    → k.mask ≡ 0
    → k.freemask ≡ 0
    → match_transition inst k t ≡ some (Action.update t)
unfolding match_transition
match_transition-empty inst k t from to m f =
    let p = masked k t.from_mask in
    let mask : p.mask ≡ 0 = ap (λ x. bit_and x t.from_mask) m ∙ zero-and t.from_mask in
    let all =
      (key_matches-Matches p (masked inst.key (bit_or p.mask p.freemask))).1
        (empty-Matches p (masked inst.key (bit_or p.mask p.freemask)) mask f) in
    rw (subset_zero t.from_mask t.to_mask from to, subset_zero t.to_mask t.from_mask to from, all)

-- The first transition out of the state is taken, or there is none.
pub action-keyless :
    (inst : Instance) (k : Key) (ts : Transitions)
    → instance_active inst ≡ true
    → inst.key.mask ≡ 0
    → k.mask ≡ 0
    → k.freemask ≡ 0
    → keyless_row ts ≡ true
    → 0 < length ts
    → ((t : Transition) × Memᴰ t ts
        × (t.from ≡ inst.state)
        × (action inst k ts ≡ ok (Action.update t)))
      ⊎ ((action inst k ts ≡ ok Action.fail) × ((t : Transition) → Memᴰ t ts → t.from ≢ inst.state))
action-keyless inst k ts active named m f empty some_in =
    let (a, run, verdict) =
      action-Verdict inst k ts (λ _ j t at _. named ∙ sym (keyless_row-at ts j t empty at).0) in
    elim verdict [
      | inl (idle, _) ↦ absurd (true≢false (sym active ∙ idle))
      | inr (_, v) ↦ decided a run v
    ]
  where
    decides :
        (j : ℕ) (t : Transition)
        → get_elem? ts j ≡ some t
        → match_transition inst k t ≡ some (Action.update t)
    decides j t at =
        let (from, to, _) = keyless_row-at ts j t empty at in
        match_transition-empty inst k t from to m f

    passed :
        Every
          (λ t.
            (t.from ≢ inst.state)
            ⊎ ((inst.key.mask ≡ t.from_mask)
                × (match_transition inst k t ≡ none)
                × Reads inst k t none))
          ts
        → (j : ℕ) (t : Transition) → get_elem? ts j ≡ some t
        → t.from ≢ inst.state
    passed every j t at = elim (every j t at) [
      | inl ne ↦ ne
      | inr (_, nothing, _) ↦ λ _. absurd (cc (nothing, decides j t at))
    ]

    Decision : Type 0
    Decision =
        ((t : Transition) × Memᴰ t ts
          × (t.from ≡ inst.state)
          × (action inst k ts ≡ ok (Action.update t)))
        ⊎ ((action inst k ts ≡ ok Action.fail)
            × ((t : Transition) → Memᴰ t ts → t.from ≢ inst.state))

    decided : (a : Action) → action inst k ts ≡ ok a → Verdict inst k ts true a → Decision
    decided a run (Verdict.taken i t at d before) = inl (
      t,
      (keyless_row-at ts i t empty at).2,
      d.from,
      run ∙ ap ok (sym (some-injective (Action.update t) a (sym (decides i t at) ∙ d.decides))),
    )
    decided a run (Verdict.ignored _ every missed) =
        let (t, at) = get_elem?-of-lt ts 0 some_in in
        absurd (
          missed 0 t at (
            passed every 0 t at,
            (key_matches-Matches k inst.key).1 (empty-Matches k inst.key m f),
          ))
    decided a run (Verdict.failed every _) =
        inr (run, λ t k. let (j, at) = mem-place ts t k in passed every j t at)

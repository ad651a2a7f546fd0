-- ===== src/Action/Decides.antt =====
-- What each decision of `tesla_action` says of the instance and of the transitions.
use mathlib.Core.Path.{subst}
use tesla.Base.{
  Bool, Bool-cases, Option, Option-cases, Returns, [], arith, bit_or, false, get_elem?, inl, inr,
  none, not, ok, refl, some, suc, true, zero, ℕ, ◌&&◌, ◌<◌, ◌==◌, ◌∷◌, ◌≡◌, ◌≢◌, ◌⊎◌,
}
use tesla.Action.{Action, action, action_from, has_flag, masked, match_transition}
use tesla.Base.Bits.{subset}
use tesla.Class.{instance_active}
use tesla.Key.{key_matches}
use tesla.Types.{Instance, Key, Transition, Transitions, trans_cleanup}

-- The join is taken: the transition drops a part of the name, and is not one that cleans up.
abbrev Joins : Transition → Type 0
Joins t = (subset t.from_mask t.to_mask ≡ false) × (has_flag t.flags trans_cleanup ≡ false)

-- Names that the transition keeps are to be those of the event.
abbrev same_name : Instance → Key → Transition → Bool
same_name inst k t =
    let pattern = masked k t.from_mask in
    key_matches pattern (masked inst.key (bit_or pattern.mask pattern.freemask))

-- What the transition means for the instance: a join where it drops a part of the name, else an update
-- where it adds none and else a fork, each where the event and the instance match in the part that the
-- transition starts from; and nothing where they do not.
pub data Reads (inst : Instance) (k : Key) (t : Transition) : Option Action → Type 0 where
  joins : Joins t → Reads inst k t (some (Action.join t))
  updates :
      ¬ Joins t
      → subset t.to_mask t.from_mask ≡ true
      → same_name inst k t ≡ true
      → Reads inst k t (some (Action.update t))
  forks :
      ¬ Joins t
      → subset t.to_mask t.from_mask ≡ false
      → key_matches (masked k t.from_mask) inst.key ≡ true
      → Reads inst k t (some (Action.fork t))
  renamed :
      ¬ Joins t
      → subset t.to_mask t.from_mask ≡ true
      → same_name inst k t ≡ false
      → Reads inst k t none
  unmatched :
      ¬ Joins t
      → subset t.to_mask t.from_mask ≡ false
      → key_matches (masked k t.from_mask) inst.key ≡ false
      → Reads inst k t none

module _ (inst : Instance) (k : Key) (t : Transition) where
  abbrev join_test : Bool
  join_test = not (subset t.from_mask t.to_mask) && not (has_flag t.flags trans_cleanup)

  join_test-Joins : join_test ≡ true → Joins t
  join_test-Joins h = (ground arith, ground arith)

  join_test-not : join_test ≡ false → ¬ Joins t
  join_test-not h j = ground (arith, j.0, j.1)

  match_transition-Reads : Reads inst k t (match_transition inst k t)
  unfolding match_transition
  match_transition-Reads = elim (Bool-cases join_test) [
    | inl yes_ ↦ rw yes_ (Reads.joins (join_test-Joins yes_))
    | inr no_ ↦ rw no_ (elim (Bool-cases (subset t.to_mask t.from_mask)) [
      | inl keeps ↦ rw keeps (elim (Bool-cases (same_name inst k t)) [
        | inl same ↦ rw same (Reads.updates (join_test-not no_) keeps same)
        | inr other ↦ rw other (Reads.renamed (join_test-not no_) keeps other)
      ])
      | inr adds ↦ rw adds (elim (Bool-cases (key_matches (masked k t.from_mask) inst.key)) [
        | inl same ↦ rw same (Reads.forks (join_test-not no_) adds same)
        | inr other ↦ rw other (Reads.unmatched (join_test-not no_) adds other)
      ])
    ])
  ]

-- The transition leaves the instance's state, and decides `a`.
pub record Decides (inst : Instance) (k : Key) (a : Action) (t : Transition) : Type 0 where
  pub from : t.from ≡ inst.state
  pub named : inst.key.mask ≡ t.from_mask
  pub decides : match_transition inst k t ≡ some a
  pub means : Reads inst k t (some a)

-- The transition decides nothing for the instance.
abbrev Passes : Instance → Key → Transition → Type 0
Passes inst k t =
    (t.from ≢ inst.state)
    ⊎ ((inst.key.mask ≡ t.from_mask) × (match_transition inst k t ≡ none) × Reads inst k t none)

abbrev Before : (Transition → Type 0) → Transitions → ℕ → Type 0
Before P ts i = (j : ℕ) (t : Transition) → j < i → get_elem? ts j ≡ some t → P t

abbrev pub Every : (Transition → Type 0) → Transitions → Type 0
Every P ts = (j : ℕ) (t : Transition) → get_elem? ts j ≡ some t → P t

-- The event would name the instance, in a state from which the transition does not go.
abbrev Missed : Instance → Key → Transition → Type 0
Missed inst k t = (t.from ≢ inst.state) × (key_matches k inst.key ≡ true)

-- What the loop over the transitions has decided.
pub data Verdict (inst : Instance) (k : Key) (ts : Transitions) (ignoring : Bool)
    : Action → Type 0 where
  taken :
      {a : Action} (i : ℕ) (t : Transition)
      → get_elem? ts i ≡ some t
      → Decides inst k a t
      → Before (Passes inst k) ts i
      → Verdict inst k ts ignoring a
  ignored :
      ignoring ≡ true
      → Every (Passes inst k) ts
      → Every (λ t. ¬ Missed inst k t) ts
      → Verdict inst k ts ignoring Action.ignore
  failed :
      Every (Passes inst k) ts
      → (ignoring ≡ false)
        ⊎ ((i : ℕ) × (t : Transition) × (get_elem? ts i ≡ some t) × Missed inst k t)
      → Verdict inst k ts ignoring Action.fail

module _ (inst : Instance) (k : Key) (u : Transition) (ts : Transitions) where
  Before-cons : (P : Transition → Type 0) (i : ℕ) → P u → Before P ts i → Before P (u ∷ ts) (suc i)
  Before-cons P i p h zero t lt e = subst P (cc e) p
  Before-cons P i p h (suc j) t lt e = h j t (omega arith) e

  Every-cons : (P : Transition → Type 0) → P u → Every P ts → Every P (u ∷ ts)
  Every-cons P p h zero t e = subst P (cc e) p
  Every-cons P p h (suc j) t e = h j t e

  -- The flag before and after a transition that decides nothing.
  abbrev Flag : Bool → Bool → Type 0
  Flag b c =
      ((b ≡ (c && not (key_matches k inst.key))) × (u.from ≢ inst.state))
      ⊎ ((b ≡ c) × (u.from ≡ inst.state))

  Flag-true : (b c : Bool) → Flag b c → b ≡ true → (c ≡ true) × ¬ Missed inst k u
  Flag-true b c (inl (q, ne)) e = (ground arith, λ m. ground (arith, m.1))
  Flag-true b c (inr (q, from)) e = (ground arith, λ m. m.0 from)

  Flag-false :
      (b c : Bool)
      → Flag b c
      → b ≡ false
      → (c ≡ false)
        ⊎ ((i : ℕ) × (t : Transition) × (get_elem? (u ∷ ts) i ≡ some t) × Missed inst k t)
  Flag-false b false q e = inl refl
  Flag-false b true (inl (q, ne)) e = inr (0, u, refl, (ne, ground arith))
  Flag-false b true (inr (q, from)) e = cc

  -- A transition that decides nothing, before the others.
  Verdict-cons :
      (b c : Bool) {a : Action}
      → Passes inst k u
      → Flag b c
      → Verdict inst k ts b a
      → Verdict inst k (u ∷ ts) c a
  Verdict-cons b c p q (Verdict.taken i t e d h) =
      Verdict.taken (suc i) t e d (Before-cons (Passes inst k) i p h)
  Verdict-cons b c p q (Verdict.ignored e h m) =
      let (f, n) = Flag-true b c q e in
      Verdict.ignored f (Every-cons (Passes inst k) p h) (Every-cons (λ t. ¬ Missed inst k t) n m)
  Verdict-cons b c p q (Verdict.failed h (inl e)) =
      Verdict.failed (Every-cons (Passes inst k) p h) (Flag-false b c q e)
  Verdict-cons b c p q (Verdict.failed h (inr (i, t, e, m))) =
      Verdict.failed (Every-cons (Passes inst k) p h) (inr (suc i, t, e, m))

-- The assertion of the loop holds: whatever leaves the instance's state expects its mask.
abbrev pub Expects : Instance → Transition → Type 0
Expects inst t = t.from ≡ inst.state → inst.key.mask ≡ t.from_mask

action_from-Verdict :
    (inst : Instance) (k : Key) (ts : Transitions) (c : Bool)
    → Every (Expects inst) ts
    → Returns (action_from inst k ts c) (Verdict inst k ts c)
unfolding action_from
action_from-Verdict inst k [] true h =
    (Action.ignore, refl, Verdict.ignored refl (λ j t e. cc) (λ j t e. cc))
action_from-Verdict inst k [] false h = (Action.fail, refl, Verdict.failed (λ j t e. cc) (inl refl))
action_from-Verdict inst k (u ∷ ts) c h = elim (Bool-cases (u.from == inst.state)) [
  | inr e ↦
      let (a, run, v) =
        action_from-Verdict inst k ts (c && not (key_matches k inst.key))
          (λ j t q. h (suc j) t q) in
      (
        a,
        rw (e, action_from) run,
        Verdict-cons inst k u ts _ c (inl (ground arith)) (inl (refl, ground arith)) v,
      )
  | inl e ↦
      let named : inst.key.mask ≡ u.from_mask = h 0 u refl (ground arith) in
      let test : (inst.key.mask == u.from_mask) ≡ true = ground arith in
      elim (Option-cases (match_transition inst k u)) [
        | inr (a, q) ↦ (
          a,
          rw (e, action_from) (rw test (rw q)),
          Verdict.taken 0 u refl
              (record {
                from = ground arith;
                named = named;
                decides = q;
                means = subst (Reads inst k u) q (match_transition-Reads inst k u);
              })
              (λ j t lt. absurd (omega arith)),
        )
        | inl q ↦
            let (a, run, v) = action_from-Verdict inst k ts c (λ j t w. h (suc j) t w) in
            (
              a,
              rw (e, action_from) (rw test (rw q run)),
              Verdict-cons inst k u ts c c
                  (inr (named, q, subst (Reads inst k u) q (match_transition-Reads inst k u)))
                  (inr (refl, ground arith)) v,
            )
      ]
]

-- Where the masks that the transitions expect are those of the instance, `tesla_action` does not
-- fail its assertion. It ignores an inactive instance. For an active one it takes the first
-- transition out of the instance's state that decides anything; if there is none, it fails exactly
-- when the event would name the instance at a transition out of another state, and else ignores it.
pub action-Verdict :
    (inst : Instance) (k : Key) (ts : Transitions)
    → (instance_active inst ≡ true → Every (Expects inst) ts)
    → Returns (action inst k ts) λ a.
      ((instance_active inst ≡ false) × (a ≡ Action.ignore))
      ⊎ ((instance_active inst ≡ true) × Verdict inst k ts true a)
unfolding action
action-Verdict inst k ts h = elim (Bool-cases (instance_active inst)) [
  | inr e ↦ (Action.ignore, rw e, inl (e, refl))
  | inl e ↦ let (a, run, v) = action_from-Verdict inst k ts true (h e) in (a, rw e run, inr (e, v))
]

-- An inactive instance is ignored, whatever the event.
pub action_idle :
    (inst : Instance) (k : Key) (ts : Transitions)
    → instance_active inst ≡ false
    → action inst k ts ≡ ok Action.ignore
unfolding action
action_idle inst k ts e = rw e

-- ===== src/Action/Fork.antt =====
-- A fork names its clone consistently.
use mathlib.Core.Path.{subst, subst⁻¹}
use tesla.Base.{
  Bool, ap, arith, bit_and, bit_or, false, get_elem?, inl, inr, ok, ok-injective, refl, some, sym,
  true, ℕ, ◌<◌, ◌∙◌, ◌≡◌, ◌≢◌, ◌⊎◌,
}
use tesla.Action.{Action, action, has_flag, masked, match_transition}
use tesla.Action.Decides.{Decides, Every, Expects, Verdict, action-Verdict}
use tesla.Base.Bits.{bit, bit-and, bit-or, eq_of_bits, subset, subset-bit}
use tesla.Class.{instance_active}
use tesla.Key.{key_matches, key_union}
use tesla.Key.Match.{key_matches-Matches}
use tesla.Key.Union.{Clash, key_union-success, mask-key_union}
use tesla.Types.{Error, Instance, Key, Transition, Transitions, key_size, trans_cleanup}

-- What it takes for a transition to fork an instance: it adds variables and loses none, and the
-- event agrees with the instance on the variables that the transition's source has.
match_transition-fork :
    (inst : Instance) (k : Key) (t t' : Transition)
    → match_transition inst k t ≡ some (Action.fork t')
    → (t' ≡ t)
      × (subset t.to_mask t.from_mask ≡ false)
      × ((subset t.from_mask t.to_mask ≡ true) ⊎ (has_flag t.flags trans_cleanup ≡ true))
      × (key_matches (masked k t.from_mask) inst.key ≡ true)
unfolding match_transition
match_transition-fork inst k t t' h = ground arith

Verdict-taken :
    (inst : Instance) (k : Key) (ts : Transitions) (c : Bool) {a : Action}
    → Verdict inst k ts c a
    → a ≢ Action.ignore
    → a ≢ Action.fail
    → (i : ℕ) × (t : Transition) × (get_elem? ts i ≡ some t) × Decides inst k a t
Verdict-taken inst k ts c (Verdict.taken i t e d h) p q = (i, t, e, d)
Verdict-taken inst k ts c (Verdict.ignored e h m) p q = absurd (p refl)
Verdict-taken inst k ts c (Verdict.failed h m) p q = absurd (q refl)

-- A transition that `tesla_action` takes is one of those given, and decides the action.
action-taken :
    (inst : Instance) (k : Key) (ts : Transitions) (a : Action)
    → (instance_active inst ≡ true → Every (Expects inst) ts)
    → action inst k ts ≡ ok a
    → a ≢ Action.ignore
    → a ≢ Action.fail
    → (instance_active inst ≡ true)
      × ((i : ℕ) × (t : Transition) × (get_elem? ts i ≡ some t) × Decides inst k a t)
action-taken inst k ts a h e p q =
    let (b, run, v) = action-Verdict inst k ts h in
    let same : b ≡ a = ok-injective (sym run ∙ e) in
    elim v [
      | inl (idle, w) ↦ absurd (p (sym same ∙ w))
      | inr (act, w) ↦
          (act, Verdict-taken inst k ts true (subst (Verdict inst k ts true) same w) p q)
    ]

match_transition-update :
    (inst : Instance) (k : Key) (t t' : Transition)
    → match_transition inst k t ≡ some (Action.update t')
    → (t' ≡ t)
      × (subset t.to_mask t.from_mask ≡ true)
      × ((subset t.from_mask t.to_mask ≡ true) ⊎ (has_flag t.flags trans_cleanup ≡ true))
unfolding match_transition
match_transition-update inst k t t' h = ground arith

match_transition-join :
    (inst : Instance) (k : Key) (t t' : Transition)
    → match_transition inst k t ≡ some (Action.join t')
    → (t' ≡ t) × (subset t.from_mask t.to_mask ≡ false) × (has_flag t.flags trans_cleanup ≡ false)
unfolding match_transition
match_transition-join inst k t t' h = ground arith

-- What is known of a transition that is taken.
pub record Takes (inst : Instance) (ts : Transitions) (t : Transition) : Type 0 where
  pub active : instance_active inst ≡ true
  pub place : ℕ
  pub stands : get_elem? ts place ≡ some t
  pub from : t.from ≡ inst.state
  pub named : inst.key.mask ≡ t.from_mask

takes :
    (inst : Instance) (k : Key) (ts : Transitions) (a : Action) (t u : Transition) (i : ℕ)
    → instance_active inst ≡ true
    → get_elem? ts i ≡ some u
    → Decides inst k a u
    → t ≡ u
    → Takes inst ts t
takes inst k ts a t u i act e d q = record {
  active = act;
  place = i;
  stands = e ∙ ap some (sym q);
  from = ap (λ (x : Transition). x.from) q ∙ d.from;
  named = d.named ∙ ap (λ (x : Transition). x.from_mask) (sym q);
}

-- What sets the three actions apart.
abbrev IsFork : Key → Instance → Transition → Type 0
IsFork k inst t =
    (subset t.to_mask t.from_mask ≡ false)
    × ((subset t.from_mask t.to_mask ≡ true) ⊎ (has_flag t.flags trans_cleanup ≡ true))
    × (key_matches (masked k t.from_mask) inst.key ≡ true)

abbrev IsUpdate : Key → Instance → Transition → Type 0
IsUpdate k inst t =
    (subset t.to_mask t.from_mask ≡ true)
    × ((subset t.from_mask t.to_mask ≡ true) ⊎ (has_flag t.flags trans_cleanup ≡ true))

abbrev IsJoin : Key → Instance → Transition → Type 0
IsJoin k inst t = (subset t.from_mask t.to_mask ≡ false) × (has_flag t.flags trans_cleanup ≡ false)

module _ (inst : Instance) (k : Key) (ts : Transitions) (t : Transition)
    (h : instance_active inst ≡ true → Every (Expects inst) ts) where
  pub action-fork : action inst k ts ≡ ok (Action.fork t) → Takes inst ts t × (IsFork k inst t)
  action-fork e =
      let (act, (i, u, at, d)) = action-taken inst k ts _ h e (λ q. cc) (λ q. cc) in
      let w = match_transition-fork inst k u t d.decides in
      (
        takes inst k ts (Action.fork t) t u i act at d w.0,
        subst⁻¹ (IsFork k inst) w.0 (w.1, w.2, w.3),
      )

  pub action-update :
      action inst k ts ≡ ok (Action.update t) → Takes inst ts t × (IsUpdate k inst t)
  action-update e =
      let (act, (i, u, at, d)) = action-taken inst k ts _ h e (λ q. cc) (λ q. cc) in
      let w = match_transition-update inst k u t d.decides in
      (
        takes inst k ts (Action.update t) t u i act at d w.0,
        subst⁻¹ (IsUpdate k inst) w.0 (w.1, w.2),
      )

  pub action-join : action inst k ts ≡ ok (Action.join t) → Takes inst ts t × (IsJoin k inst t)
  action-join e =
      let (act, (i, u, at, d)) = action-taken inst k ts _ h e (λ q. cc) (λ q. cc) in
      let w = match_transition-join inst k u t d.decides in
      (takes inst k ts (Action.join t) t u i act at d w.0, subst⁻¹ (IsJoin k inst) w.0 (w.1, w.2))

module _ (inst : Instance) (k : Key) (t : Transition) (named : inst.key.mask ≡ t.from_mask)
    (matches : key_matches (masked k t.from_mask) inst.key ≡ true) where
  fork-agrees : (i : ℕ) → i < key_size → ¬ Clash inst.key (masked k t.to_mask) i
  fork-agrees i lt (a, b, c) =
      let m = (key_matches-Matches (masked k t.from_mask) inst.key).0 matches in
      let set : bit (bit_and k.mask t.from_mask) i ≡ true = ground (
        arith,
        bit-and k.mask t.from_mask i,
        bit-and k.mask t.to_mask i,
        ap (λ x. bit x i) named,
      ) in
      c (sym (m.agree i lt set))

-- When an instance is forked whose mask is the one that the transitions out of its state expect, the
-- union of its key with the event's, masked for the target, cannot fail.
pub fork-key_union :
    (inst : Instance) (k : Key) (ts : Transitions) (t : Transition)
    → (instance_active inst ≡ true → Every (Expects inst) ts)
    → action inst k ts ≡ ok (Action.fork t)
    → (key_union inst.key (masked k t.to_mask)).0 ≡ Error.success
fork-key_union inst k ts t h e =
    let (taken, (adds, keeps, m)) = action-fork inst k ts t h e in
    (key_union-success inst.key (masked k t.to_mask)).1 (fork-agrees inst k t taken.named m)

-- When an instance is forked whose mask is the one that the transitions out of its state expect, and
-- the transition keeps its variables and the event has those that it adds, then the clone has exactly
-- the variables of the transition's target.
pub fork-to_mask :
    (inst : Instance) (k : Key) (ts : Transitions) (t : Transition)
    → (instance_active inst ≡ true → Every (Expects inst) ts)
    → action inst k ts ≡ ok (Action.fork t)
    → subset t.from_mask t.to_mask ≡ true
    → subset t.to_mask (bit_or t.from_mask k.mask) ≡ true
    → (key_union inst.key (masked k t.to_mask)).1.mask ≡ t.to_mask
fork-to_mask inst k ts t h e keeps gives =
    let (taken, rest) = action-fork inst k ts t h e in
    let (m, f) = mask-key_union inst.key (masked k t.to_mask) (fork-key_union inst k ts t h e) in
    m
    ∙ ap (λ x. bit_or x (bit_and k.mask t.to_mask)) taken.named
    ∙ eq_of_bits _ _ λ i. ground (
      arith,
      bit-or t.from_mask (bit_and k.mask t.to_mask) i,
      bit-and k.mask t.to_mask i,
      bit-or t.from_mask k.mask i,
      subset-bit t.from_mask t.to_mask i keeps,
      subset-bit t.to_mask (bit_or t.from_mask k.mask) i gives,
    )

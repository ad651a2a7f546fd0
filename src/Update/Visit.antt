-- ===== src/Update/Visit.antt =====
-- The loop over the instances: it does not fault, and keeps the class well formed and named.
use mathlib.Core.Path.{subst⁻¹}
use native.Mathlib.Nat.{le_refl}
use tesla.Base.{
  Bool-cases, List, Returns, [], arith, false, get_elem?, get_elem?-of-lt, get_elem?-set_ne, inl,
  inr, leb, length, ltb, ok, refl, some, suc, true, zero, ℕ, ◌++◌, ◌+◌, ◌-◌, ◌<◌, ◌||◌, ◌∙◌, ◌∷◌,
  ◌≡◌, ◌≤◌,
}
use tesla.Action.{Action, action, has_flag}
use tesla.Action.Decides.{action-Verdict}
use tesla.Action.Fork.{action-join, action-update}
use tesla.Class.{instance_active}
use tesla.Class.Slots.{IsClass}
use tesla.Init.{Flow}
use tesla.Types.{Class, Env, Error, Event, Instance, Message, Output, trans_cleanup}
use tesla.Update.{Clone, Scan, Step, apply, is_cleanup, scan, set_instance, visit}
use tesla.Update.Named.{
  Admits, Each, Each-append_one, Each-map, Named, Named-Expects, NamedFrom, NamedFrom-set,
  NamedFrom-set_before, SameShape, set_instance-IsClass, subset_antisymm,
}

-- One round of the loop, by its three ends.
module _ (env : Env) (e : Step) (n i : ℕ) (s : Scan) where
  pub scan-done : ltb 0 s.expected ≡ false → scan env e (suc n) i s ≡ ok (Flow.goes s)
  unfolding scan
  scan-done q = rw (q, scan)

  pub scan-goes :
      (s' : Scan)
      → ltb 0 s.expected ≡ true
      → visit env e s i ≡ ok (Flow.goes s')
      → scan env e (suc n) i s ≡ scan env e n (i + 1) s'
  unfolding scan
  scan-goes s' q run = rw (q, scan) (rw run)

  pub scan-returned :
      (c : Class) (out : List Output)
      → ltb 0 s.expected ≡ true
      → visit env e s i ≡ ok (Flow.returned c out)
      → scan env e (suc n) i s ≡ ok (Flow.returned c out)
  unfolding scan
  scan-returned c out q run = rw (q, scan) (rw run)

-- A clone to be made: its original stands as it was when the event forked it.
pub record Pending (mask_of : ℕ → ℕ) (e : Step) (c : Class) (clone : Clone) : Type 0 where
  pub orig : Instance
  pub stands : get_elem? c.instances clone.old ≡ some orig
  pub named : instance_active orig ≡ true → orig.key.mask ≡ mask_of orig.state
  pub forked : action orig e.pattern e.trans ≡ ok (Action.fork clone.transition)

-- The call ends early: the last output is an error.
abbrev pub EndsInError : Step → List Output → Type 0
EndsInError e out =
    (m : Message) × (before : List Output) × (out
      ≡ before ++ Output.event (Event.err e.autom e.symbol Error.enomem m) ∷ [])

-- A clone that is not made at cleanup.
abbrev pub IsPlain : Clone → Type 0
IsPlain p = is_cleanup p.transition ≡ false

-- Before the visit of instance `i`.
pub record IsScan (mask_of : ℕ → ℕ) (e : Step) (c : Class) (i : ℕ) (s : Scan) : Type 0 where
  pub valid : IsClass s.cls
  pub shape : SameShape c s.cls
  pub ahead : NamedFrom mask_of i s.cls.instances
  pub named : s.cleanup ≡ false → Named mask_of s.cls.instances
  pub pending : Each (λ p. (p.old < i) × Pending mask_of e s.cls p) s.clones
  pub plain : s.cleanup ≡ false → Each IsPlain s.clones

abbrev pub Stopped : Step → Class → Class → List Output → Type 0
Stopped e c d out = IsClass d × SameShape c d × EndsInError e out

abbrev pub FlowOf : {A : Type 0} → (A → Type 0) → (Class → List Output → Type 0) → Flow A → Type 0
FlowOf P Q (Flow.goes a) = P a
FlowOf P Q (Flow.returned c out) = Q c out

module _ (mask_of : ℕ → ℕ) (env : Env) (e : Step) (c : Class)
    (admits : Admits mask_of e.pattern e.trans) where
  -- Writing instance `i` leaves the originals of the clones before it.
  Pending-set :
      (d : Class) (i : ℕ) (y : Instance) (p : Clone)
      → (p.old < i) × Pending mask_of e d p
      → (p.old < i + 1) × Pending mask_of e (set_instance d i y) p
  Pending-set d i y p (lt, h) = (
    omega arith,
    record {
      orig = h.orig;
      stands = get_elem?-set_ne d.instances i p.old y (λ q. absurd (omega arith)) ∙ h.stands;
      named = h.named;
      forked = h.forked;
    },
  )

  -- The scan after instance `i` was rewritten to `y`.
  rewritten :
      (i : ℕ) (s s' : Scan) (inst y : Instance)
      → IsScan mask_of e c i s
      → get_elem? s.cls.instances i ≡ some inst
      → instance_active inst ≡ true
      → s'.cls ≡ set_instance s.cls i y
      → s'.clones ≡ s.clones
      → (s'.cleanup ≡ false
          → (s.cleanup ≡ false) × (instance_active y ≡ true → y.key.mask ≡ mask_of y.state))
      → IsScan mask_of e c (i + 1) s'
  rewritten i s s' inst y h at act same clones names = record {
    valid = subst⁻¹ IsClass same (set_instance-IsClass s.cls i inst y h.valid at act);
    shape = subst⁻¹ (SameShape c) same h.shape;
    ahead =
        subst⁻¹ (λ (d : Class). NamedFrom mask_of (i + 1) d.instances) same
          (NamedFrom-set_before mask_of i s.cls.instances y h.ahead);
    named = λ q.
        subst⁻¹ (λ (d : Class). Named mask_of d.instances) same
          (NamedFrom-set mask_of 0 i s.cls.instances y (h.named (names q).0) (names q).1);
    pending =
        subst⁻¹ (λ d. Each (λ p. (p.old < i + 1) × Pending mask_of e d p) s'.clones) same
          (subst⁻¹ (Each (λ p. (p.old < i + 1) × Pending mask_of e (set_instance s.cls i y) p))
            clones (Each-map _ _ (Pending-set s.cls i y) s.clones h.pending));
    plain = λ q. subst⁻¹ (Each IsPlain) clones (h.plain (names q).0);
  }

  -- The scan after an instance that was not written.
  passed :
      (i : ℕ) (s s' : Scan)
      → IsScan mask_of e c i s
      → s'.cls ≡ s.cls
      → (s'.cleanup ≡ false → s.cleanup ≡ false)
      → Each (λ p. (p.old < i + 1) × Pending mask_of e s.cls p) s'.clones
      → (s'.cleanup ≡ false → Each IsPlain s'.clones)
      → IsScan mask_of e c (i + 1) s'
  passed i s s' h same flag pending plain = record {
    plain = plain;
    valid = subst⁻¹ IsClass same h.valid;
    shape = subst⁻¹ (SameShape c) same h.shape;
    ahead =
        subst⁻¹ (λ (d : Class). NamedFrom mask_of (i + 1) d.instances) same
          (λ j x le q act. h.ahead j x (omega arith) q act);
    named = λ q. subst⁻¹ (λ (d : Class). Named mask_of d.instances) same (h.named (flag q));
    pending =
        subst⁻¹ (λ d. Each (λ p. (p.old < i + 1) × Pending mask_of e d p) s'.clones) same pending;
  }

  later :
      (i : ℕ) (s : Scan)
      → IsScan mask_of e c i s
      → Each (λ p. (p.old < i + 1) × Pending mask_of e s.cls p) s.clones
  later i s h = Each-map _ _ (λ p q. (omega (arith, q.0), q.1)) s.clones h.pending

  apply-FlowOf :
      (i : ℕ) (s : Scan) (inst : Instance) (a : Action)
      → IsScan mask_of e c i s
      → get_elem? s.cls.instances i ≡ some inst
      → action inst e.pattern e.trans ≡ ok a
      → Returns (apply env e s i inst a) (FlowOf (IsScan mask_of e c (i + 1)) (Stopped e c))
  unfolding apply
  apply-FlowOf i s inst Action.ignore h at run =
      (_, refl, passed i s s h refl (λ q. q) (later i s h) h.plain)
  apply-FlowOf i s inst Action.fail h at run =
      (_, refl, passed i s _ h refl (λ q. q) (later i s h) h.plain)
  apply-FlowOf i s inst (Action.update t) h at run =
      let n = h.ahead i inst (le_refl i) at in
      let (taken, (back, keeps)) =
        action-update inst e.pattern e.trans t
          (Named-Expects mask_of e.pattern e.trans inst admits n) run in
      let typed = admits.typed taken.place t taken.stands in
      (
        _,
        refl,
        rewritten i s _ inst (record inst { state = t.to }) h at taken.active refl refl
            λ q.
              let q' : (s.cleanup ≡ false) × (has_flag t.flags trans_cleanup ≡ false) =
                ground arith in
              (
                q'.0,
                λ act. elim keeps [
                  | inl forth ↦
                      taken.named ∙ subset_antisymm t.from_mask t.to_mask forth back ∙ typed.1
                  | inr clean ↦ cc
                ],
              ),
      )
  apply-FlowOf i s inst (Action.fork t) h at run =
      elim (Bool-cases (leb e.max_clones (length s.clones))) [
        | inl full ↦ (
          Flow.returned s.cls (
              s.out
              ++ Output.event (Event.err e.autom e.symbol Error.enomem Message.too_many_clones)
                ∷ []),
          rw full,
          (h.valid, h.shape, (Message.too_many_clones, s.out, refl)),
        )
        | inr room ↦
            let s' : Scan = record s {
              expected = s.expected - 1;
              clones = s.clones ++ record { old = i; transition = t } ∷ [];
              matched = true;
              cleanup = s.cleanup || is_cleanup t;
            } in
            let new : Pending mask_of e s.cls (record { old = i; transition = t }) = record {
              orig = inst;
              stands = at;
              named = h.ahead i inst (le_refl i) at;
              forked = run;
            } in
            (
              Flow.goes s',
              rw room,
              passed i s s' h refl (λ q. ground arith)
                  (Each-append_one _ s.clones _ (later i s h) (omega arith, new))
                  (λ q. Each-append_one IsPlain s.clones _ (h.plain (ground arith)) (ground arith)),
            )
      ]
  apply-FlowOf i s inst (Action.join t) h at run =
      let n = h.ahead i inst (le_refl i) at in
      let (taken, (loses, stays)) =
        action-join inst e.pattern e.trans t (Named-Expects mask_of e.pattern e.trans inst admits n)
          run in
      elim (admits.keeps taken.place t taken.stands) [ inl q ↦ cc | inr q ↦ cc ]

  visit-FlowOf :
      (i : ℕ) (s : Scan)
      → IsScan mask_of e c i s
      → i < s.cls.limit
      → Returns (visit env e s i) (FlowOf (IsScan mask_of e c (i + 1)) (Stopped e c))
  unfolding visit
  visit-FlowOf i s h lt =
      let (inst, at) = get_elem?-of-lt s.cls.instances i (omega (arith, h.valid.whole)) in
      let n = h.ahead i inst (le_refl i) at in
      let (a, run, v) =
        action-Verdict inst e.pattern e.trans
          (Named-Expects mask_of e.pattern e.trans inst admits n) in
      let (f, run', q) = apply-FlowOf i s inst a h at run in (f, rw (at, run) run', q)

  weaken : (i : ℕ) (s : Scan) → i ≤ c.limit → IsScan mask_of e c i s → IsScan mask_of e c c.limit s
  weaken i s le h = record {
    valid = h.valid;
    shape = h.shape;
    ahead = λ j x lt. h.ahead j x (omega arith);
    named = h.named;
    plain = h.plain;
    pending = Each-map _ _ (λ p q. (omega (arith, q.0), q.1)) s.clones h.pending;
  }

  abbrev Ends : ℕ → ℕ → Scan → Type 0
  Ends n i s = Returns (scan env e n i s) (FlowOf (IsScan mask_of e c c.limit) (Stopped e c))

  scan-next :
      (n i : ℕ) (s : Scan)
      → ltb 0 s.expected ≡ true
      → (f : Flow Scan) → visit env e s i ≡ ok f
      → FlowOf (IsScan mask_of e c (i + 1)) (Stopped e c) f
      → ((s' : Scan) → IsScan mask_of e c (i + 1) s' → Ends n (i + 1) s')
      → Ends (suc n) i s
  scan-next n i s more (Flow.goes s') run p rest =
      let (f, r, h) = rest s' p in (f, scan-goes env e n i s s' more run ∙ r, h)
  scan-next n i s more (Flow.returned d out) run p rest =
      (Flow.returned d out, scan-returned env e n i s d out more run, p)

  -- Once the loop is over, its index does not matter.
  pub scan-FlowOf :
      (n i : ℕ) (s : Scan)
      → IsScan mask_of e c i s
      → i + n ≡ c.limit
      → Returns (scan env e n i s) (FlowOf (IsScan mask_of e c c.limit) (Stopped e c))
  unfolding scan
  scan-FlowOf zero i s h q = (Flow.goes s, refl, weaken i s (omega arith) h)
  scan-FlowOf (suc n) i s h q = elim (Bool-cases (ltb 0 s.expected)) [
    | inr done ↦ (Flow.goes s, scan-done env e n i s done, weaken i s (omega arith) h)
    | inl more ↦
        let (f, run, p) = visit-FlowOf i s h (omega (arith, h.shape.2)) in
        scan-next n i s more f run p (λ s' h'. scan-FlowOf n (i + 1) s' h' (omega arith))
  ]

-- ===== src/Update/Early.antt =====
-- The loop over the instances stops when `expected` reaches 0. This loses nothing: it does what a
-- loop over the whole array does.
use mathlib.Core.Path.{subst}
use tesla.Base.{
  >>=-eq-ok, Bool-cases, List, Run, Run-cases, [], arith, assert, false, get_elem?, get_elem?-of-lt,
  inl, inr, leb, length, length-set, ltb, ok, ok-injective, refl, set, some, suc, sym, true, zero,
  ℕ, ◌+◌, ◌>>=◌, ◌∙◌, ◌∷◌, ◌≡◌, ◌≤◌,
}
use tesla.Action.{Action, action}
use tesla.Action.Decides.{action_idle}
use tesla.Class.{instance_active}
use tesla.Class.Slots.{IsClass, active_count, to_nat}
use tesla.Init.{Flow}
use tesla.Types.{Class, Env, Instance}
use tesla.Update.{Scan, Step, apply, begin_scan, join_target, scan, visit}
use tesla.Update.Visit.{FlowOf, scan-done, scan-goes, scan-returned}

-- The loop without its early exit.
pub scan_all : Env → Step → ℕ → ℕ → Scan → Run (Flow Scan)
scan_all env e zero i s = ok (Flow.goes s)
scan_all env e (suc n) i s = do
  r ← visit env e s i
  elim r [
    | Flow.goes s' ↦ scan_all env e n (i + 1) s'
    | Flow.returned c out ↦ ok (Flow.returned c out)
  ]

-- The number of active instances from index `i` on.
active_from : ℕ → List Instance → ℕ
active_from zero l = active_count l
active_from (suc i) [] = 0
active_from (suc i) (x ∷ l) = active_from i l

active_from-set :
    (i : ℕ) (l : List Instance) (y : Instance)
    → active_from (suc i) (set l i y) ≡ active_from (suc i) l
unfolding active_from
active_from-set i [] y = refl
active_from-set zero (x ∷ l) y = refl
active_from-set (suc i) (x ∷ l) y = active_from-set i l y

active_from-step :
    (i : ℕ) (l : List Instance) (x : Instance)
    → get_elem? l i ≡ some x
    → active_from i l ≡ to_nat (instance_active x) + active_from (suc i) l
unfolding active_from active_count
active_from-step i [] x e = cc
active_from-step zero (y ∷ l) x e = let same : y ≡ x = cc e in rw same
active_from-step (suc i) (y ∷ l) x e = active_from-step i l x e

-- What a visit of instance `i` does to the count of what is left.
Counted : ℕ → Scan → Flow Scan → Type 0
Counted i s =
    FlowOf
      (λ s'.
        (active_from (suc i) s'.cls.instances ≡ active_from (suc i) s.cls.instances)
        × (length s'.cls.instances ≡ length s.cls.instances)
        × (s.expected ≤ s'.expected + 1))
      (λ c out. Unit)

module _ (env : Env) (e : Step) where
  -- An inactive instance is passed over.
  visit_idle :
      (s : Scan) (i : ℕ) (x : Instance)
      → get_elem? s.cls.instances i ≡ some x
      → instance_active x ≡ false
      → visit env e s i ≡ ok (Flow.goes s)
  unfolding visit apply
  visit_idle s i x at idle = rw (at, action_idle x e.pattern e.trans idle)

  apply-Counted :
      (s : Scan) (i : ℕ) (x : Instance) (a : Action) (f : Flow Scan)
      → apply env e s i x a ≡ ok f
      → Counted i s f
  unfolding apply Counted
  apply-Counted s i x Action.ignore f h =
      subst (Counted i s) (ok-injective h) (refl, refl, omega arith)
  apply-Counted s i x Action.fail f h =
      subst (Counted i s) (ok-injective h) (refl, refl, omega arith)
  apply-Counted s i x (Action.update t) f h =
      subst (Counted i s) (ok-injective h)
        (active_from-set i s.cls.instances _, length-set s.cls.instances i _, omega arith)
  apply-Counted s i x (Action.fork t) f h = elim (Bool-cases (leb e.max_clones (length s.clones))) [
    | inl full ↦ subst (Counted i s) (ok-injective (rw full at h)) tt
    | inr room ↦ subst (Counted i s) (ok-injective (rw room at h)) (refl, refl, omega arith)
  ]
  apply-Counted s i x (Action.join t) f h =
      let (found, run, h') = >>=-eq-ok (join_target s.cls.limit s.cls.instances t.to) _ h in
      let (u, run', h'') = >>=-eq-ok (assert found) _ h' in
      subst (Counted i s) (ok-injective h'')
        (active_from-set i s.cls.instances _, length-set s.cls.instances i _, omega arith)

  visit-Counted :
      (s : Scan) (i : ℕ) (x : Instance) (f : Flow Scan)
      → get_elem? s.cls.instances i ≡ some x
      → visit env e s i ≡ ok f
      → Counted i s f
  unfolding visit
  visit-Counted s i x f at h =
      let h' : (action x e.pattern e.trans >>= apply env e s i x) ≡ ok f = rw at at h in
      let (a, run, h'') = >>=-eq-ok (action x e.pattern e.trans) (apply env e s i x) h' in
      apply-Counted s i x a f h''

  scan_all-goes :
      (n i : ℕ) (s s' : Scan)
      → visit env e s i ≡ ok (Flow.goes s')
      → scan_all env e (suc n) i s ≡ scan_all env e n (i + 1) s'
  unfolding scan_all
  scan_all-goes n i s s' h = rw h

  -- With no active instance left the whole loop does nothing.
  scan_all_idle :
      (n i : ℕ) (s : Scan)
      → i + n ≤ length s.cls.instances
      → active_from i s.cls.instances ≡ 0
      → scan_all env e n i s ≡ ok (Flow.goes s)
  unfolding scan_all
  scan_all_idle zero i s le h = refl
  scan_all_idle (suc n) i s le h =
      let (x, at) = get_elem?-of-lt s.cls.instances i (omega arith) in
      let step = active_from-step i s.cls.instances x at in
      let idle : instance_active x ≡ false = ground arith in
      let next : active_from (i + 1) s.cls.instances ≡ 0 =
        subst (λ k. active_from k s.cls.instances ≡ 0) (omega arith)
          (let z : active_from (suc i) s.cls.instances ≡ 0 = omega arith in z) in
      scan_all-goes n i s s (visit_idle s i x at idle)
      ∙ scan_all_idle n (i + 1) s (omega arith) next

  abbrev Agrees : ℕ → ℕ → Scan → Type 0
  Agrees n i s = scan env e n i s ≡ scan_all env e n i s

  next_round :
      (n i : ℕ) (s : Scan) (x : Instance)
      → get_elem? s.cls.instances i ≡ some x
      → ltb 0 s.expected ≡ true
      → active_from i s.cls.instances ≤ s.expected
      → (f : Flow Scan) → visit env e s i ≡ ok f
      → Counted i s f
      → ((s' : Scan)
          → length s'.cls.instances ≡ length s.cls.instances
          → active_from (i + 1) s'.cls.instances ≤ s'.expected
          → Agrees n (i + 1) s')
      → Agrees (suc n) i s
  unfolding scan_all Counted
  next_round n i s x at more cover (Flow.returned c out) q h rest =
      scan-returned env e n i s c out more q ∙ rw q
  next_round n i s x at more cover (Flow.goes s') q (same, len, le) rest =
      let step = active_from-step i s.cls.instances x at in
      let covered : active_from (suc i) s'.cls.instances ≤ s'.expected =
        elim (Bool-cases (instance_active x)) [
          | inl act ↦ ground arith
          | inr idle ↦
              let still = ok-injective (sym (visit_idle s i x at idle) ∙ q) in
              let s≡s' : s ≡ s' = cc still in
              subst (λ w. active_from (suc i) w.cls.instances ≤ w.expected) s≡s' (ground arith)
        ] in
      let covered' : active_from (i + 1) s'.cls.instances ≤ s'.expected =
        subst (λ k. active_from k s'.cls.instances ≤ s'.expected) (omega arith) covered in
      scan-goes env e n i s s' more q ∙ rest s' len covered' ∙ sym (scan_all-goes n i s s' q)

  -- As long as `expected` covers the active instances that are left, the two loops agree.
  scan-scan_all :
      (n i : ℕ) (s : Scan)
      → i + n ≤ length s.cls.instances
      → active_from i s.cls.instances ≤ s.expected
      → Agrees n i s
  unfolding scan scan_all
  scan-scan_all zero i s le h = refl
  scan-scan_all (suc n) i s le h = elim (Bool-cases (ltb 0 s.expected)) [
    | inr done ↦ scan-done env e n i s done ∙ sym (scan_all_idle (suc n) i s le (ground arith))
    | inl more ↦
        let (x, at) = get_elem?-of-lt s.cls.instances i (omega arith) in
        elim (Run-cases (visit env e s i)) [
          | inr (bad, q) ↦ rw (more, scan) (rw q)
          | inl (f, q) ↦
              next_round n i s x at more h f q (visit-Counted s i x f at q)
                λ s' len cover. scan-scan_all n (i + 1) s' (omega arith) cover
        ]
  ]

-- On a class that is well formed the early exit of `tesla_update_class_state` is only a saving: the
-- loop that stops once as many instances were handled as `tc_limit - tc_free` does exactly what the
-- loop over all `tc_limit` instances does, faults and early returns included.
pub scan-early_exit :
    (env : Env) (e : Step) (c : Class)
    → IsClass c
    → scan env e c.limit 0 (begin_scan c) ≡ scan_all env e c.limit 0 (begin_scan c)
unfolding active_from
scan-early_exit env e c v =
    scan-scan_all env e c.limit 0 (begin_scan c) (omega (arith, v.whole))
      (omega (arith, v.promised))

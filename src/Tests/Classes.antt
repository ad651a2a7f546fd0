-- ===== src/Tests/Classes.antt =====
-- Classes and instances at concrete inputs.
use mathlib.Core.Path.{subst}
use tesla.Base.{
  Returns, [], arith, contains, false, inl, length, ok, refl, suc, true, zero, ℕ, ◌<◌, ◌↔◌, ◌∷◌,
  ◌≡◌, ◌≤◌, ◌⊎◌,
}
use tesla.Action.{Action, action, action_code, masked}
use tesla.Action.Decides.{Every, Expects, Verdict, action-Verdict}
use tesla.Action.Fork.{fork-key_union, fork-to_mask}
use tesla.Base.Bits.{subset}
use tesla.Class.{class_code, instance_active, instance_new, match_instances}
use tesla.Class.Lookup.{IsMatch, match_instances-Returns}
use tesla.Class.Slots.{IsClass, NewResult, active_count, instance_new-Returns}
use tesla.Key.{key_union}
use tesla.Tests.Sample.{
  busy_class, call_step, call_transitions, debug_env, instance_of, key_of, trans_of, variables_of,
}
use tesla.Types.{Error, Instance, Transition, zero_instance}
use tesla.Update.{begin_scan, scan, update_instances}
use tesla.Update.Early.{scan-early_exit, scan_all}
use tesla.Update.Invariant.{Outcome, update_instances-Outcome}
use tesla.Update.Named.{Admits, Named}

pub busy_class-IsClass : IsClass busy_class
unfolding active_count class_code
busy_class-IsClass = record { nonempty = omega arith; whole = refl; promised = omega arith }

instance_new-Returns_example :
    Returns (instance_new busy_class (key_of 1 8) 2) (NewResult busy_class (key_of 1 8) 2)
instance_new-Returns_example = instance_new-Returns busy_class (key_of 1 8) 2 busy_class-IsClass

match_runs : match_instances busy_class (key_of 1 7) 3 ≡ ok (Error.success, 1, 1 ∷ [])
unfolding class_code
match_runs = refl

match_instances-Returns_example : Returns (match_instances busy_class (key_of 1 7) 3) λ r.
    ((3 < busy_class.limit) × (r ≡ (Error.enomem, busy_class.limit, [])))
    ⊎ ((busy_class.limit ≤ 3)
        × (r.0 ≡ Error.success)
        × (r.1 ≡ length r.2)
        × (r.1 ≤ busy_class.limit)
        × ((i : ℕ) → (contains r.2 i ≡ true) ↔ IsMatch busy_class.instances (key_of 1 7) i))
match_instances-Returns_example =
    match_instances-Returns busy_class (key_of 1 7) 3 busy_class-IsClass

two_each : (P : Transition → Type 0) (t u : Transition) → P t → P u → Every P (t ∷ u ∷ [])
two_each P t u p q zero x e = subst P (cc e) p
two_each P t u p q (suc zero) x e = subst P (cc e) q
two_each P t u p q (suc (suc j)) x e = cc

-- The instance without a name, to which the transitions' masks fit.
unnamed-Expects : Every (Expects (instance_of 1 (key_of 0 0))) call_transitions
unnamed-Expects =
    two_each (Expects (instance_of 1 (key_of 0 0))) (trans_of 1 0 2 1 0) (trans_of 2 1 2 1 0)
      (λ q. refl) (λ q. absurd (omega arith))

action-Verdict_example :
    Returns (action (instance_of 1 (key_of 0 0)) (key_of 1 7) call_transitions) λ a.
      ((instance_active (instance_of 1 (key_of 0 0)) ≡ false) × (a ≡ Action.ignore))
      ⊎ ((instance_active (instance_of 1 (key_of 0 0)) ≡ true)
          × Verdict (instance_of 1 (key_of 0 0)) (key_of 1 7) call_transitions true a)
action-Verdict_example =
    action-Verdict (instance_of 1 (key_of 0 0)) (key_of 1 7) call_transitions
      (λ act. unnamed-Expects)

fork-key_union_example : (key_union (key_of 0 0) (masked (key_of 1 7) 1)).0 ≡ Error.success
unfolding action_code
fork-key_union_example =
    fork-key_union (instance_of 1 (key_of 0 0)) (key_of 1 7) call_transitions (trans_of 1 0 2 1 0)
      (λ act. unnamed-Expects) refl

fork-to_mask_example : (key_union (key_of 0 0) (masked (key_of 1 7) 1)).1.mask ≡ 1
unfolding action_code subset
fork-to_mask_example =
    fork-to_mask (instance_of 1 (key_of 0 0)) (key_of 1 7) call_transitions (trans_of 1 0 2 1 0)
      (λ act. unnamed-Expects) refl refl refl

pub call-Admits : (v : ℕ) → Admits variables_of (key_of 1 v) call_transitions
unfolding subset
call-Admits v = record {
  some_transition = omega arith;
  few = omega arith;
  typed = two_each _ (trans_of 1 0 2 1 0) (trans_of 2 1 2 1 0) (refl, refl) (refl, refl);
  keeps = two_each _ (trans_of 1 0 2 1 0) (trans_of 2 1 2 1 0) (inl refl) (inl refl);
  gives = two_each _ (trans_of 1 0 2 1 0) (trans_of 2 1 2 1 0) refl refl;
}

pub busy_class-Named : Named variables_of busy_class.instances
unfolding class_code
busy_class-Named zero x le e act =
    let same : instance_of 1 (key_of 0 0) ≡ x = cc e in
    subst (λ (w : Instance). w.key.mask ≡ variables_of w.state) same refl
busy_class-Named (suc zero) x le e act =
    let same : instance_of 2 (key_of 1 7) ≡ x = cc e in
    subst (λ (w : Instance). w.key.mask ≡ variables_of w.state) same refl
busy_class-Named (suc (suc zero)) x le e act =
    let same : zero_instance ≡ x = cc e in
    subst (λ (w : Instance). w.key.mask ≡ variables_of w.state) same refl
busy_class-Named (suc (suc (suc j))) x le e act = cc

update_instances-Outcome_example :
    Returns
      (update_instances debug_env (call_step 8) busy_class)
      (Outcome variables_of (call_step 8) busy_class)
update_instances-Outcome_example =
    update_instances-Outcome variables_of debug_env (call_step 8) busy_class busy_class-IsClass
      busy_class-Named (call-Admits 8)

scan-early_exit_example :
    scan debug_env (call_step 8) 3 0 (begin_scan busy_class)
    ≡ scan_all debug_env (call_step 8) 3 0 (begin_scan busy_class)
scan-early_exit_example = scan-early_exit debug_env (call_step 8) busy_class busy_class-IsClass

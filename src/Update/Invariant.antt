-- ===== src/Update/Invariant.antt =====
-- What an event does to a class as a whole.
use tesla.Base.{
  Bool-cases, List, Returns, arith, false, inl, inr, length, ltb, not, refl, replicate, suc, true,
  zero, ℕ, ◌++◌, ◌≡◌, ◌⊎◌,
}
use tesla.Class.Slots.{IsClass, class_reset-IsClass, class_reset_lem, zero_instance-active}
use tesla.Init.{Flow}
use tesla.Types.{Class, Env, Event, Output, zero_instance}
use tesla.Update.{Scan, Step, begin_scan, conclude, emit_if, finish, proceed, update_instances}
use tesla.Update.Clones.{Added, add_clones-Returns}
use tesla.Update.Named.{Admits, Each-map, Named, NamedFrom, SameShape}
use tesla.Update.Visit.{EndsInError, FlowOf, IsScan, Stopped, scan-FlowOf}

-- The result of an event: the class is well formed and of the same shape; and it is named, unless
-- the call ended early for want of a free instance.
pub record Outcome (mask_of : ℕ → ℕ) (e : Step) (c : Class) (r : Class × List Output) : Type 0 where
  pub valid : IsClass r.0
  pub shape : SameShape c r.0
  pub named : Named mask_of r.0.instances ⊎ EndsInError e r.1

-- A class that was reset has no active instance.
zeros-Named : (mask_of : ℕ → ℕ) (n i : ℕ) → NamedFrom mask_of i (replicate n zero_instance)
zeros-Named mask_of zero i j x le e act = cc
zeros-Named mask_of (suc n) i zero x le e act =
    let same : zero_instance ≡ x = cc e in cc (zero_instance-active)
zeros-Named mask_of (suc n) i (suc j) x le e act = zeros-Named mask_of n 0 j x (omega arith) e act

module _ (mask_of : ℕ → ℕ) (env : Env) (e : Step) (c : Class) where
  finish-Outcome :
      (s : Scan) (d : Class) (out : List Output)
      → IsClass d
      → SameShape c d
      → (s.cleanup ≡ false → Named mask_of d.instances)
      → Returns (finish e s d out) (Outcome mask_of e c)
  unfolding finish
  finish-Outcome s d out v shape named = elim (Bool-cases s.cleanup) [
    | inr plain ↦ (
      (d, out ++ emit_if (not s.matched) (Event.no_instance e.ci e.symbol e.pattern)),
      rw plain,
      record { valid = v; shape = shape; named = inl (named plain) },
    )
    | inl clean ↦ (
      (
        record d { instances = replicate d.limit zero_instance; free = d.limit },
        out ++ emit_if (not s.matched) (Event.no_instance e.ci e.symbol e.pattern),
      ),
      rw clean (rw (class_reset_lem d v)),
      record {
        valid = class_reset-IsClass d _ v (class_reset_lem d v);
        shape = shape;
        named = inl (zeros-Named mask_of d.limit 0);
      },
    )
  ]

  after_scan :
      Admits mask_of e.pattern e.trans
      → (f : Flow Scan) → FlowOf (IsScan mask_of e c c.limit) (Stopped e c) f
      → Returns (proceed e f) (Outcome mask_of e c)
  unfolding proceed conclude
  after_scan admits (Flow.returned d out) (v, shape, error) =
      ((d, out), refl, record { valid = v; shape = shape; named = inr error })
  after_scan admits (Flow.goes s) h =
      let (f, run, post) =
        add_clones-Returns mask_of e admits c s.cls (not s.cleanup) s.clones s.out (record {
          valid = h.valid;
          shape = h.shape;
          named = λ q. h.named (ground arith);
          pending = Each-map _ _ (λ p q. q.1) s.clones h.pending;
          ordinary = λ q. h.plain (ground arith);
        }) in
      let (r, run', o) = last f post in (r, rw run run', o)
    where
      last :
          (f : Flow (Class × List Output))
          → Added mask_of e admits c (not s.cleanup) f
          → Returns (conclude e s f) (Outcome mask_of e c)
      last (Flow.returned d out) (v, shape, error) =
          ((d, out), refl, record { valid = v; shape = shape; named = inr error })
      last (Flow.goes (d, out)) (v, shape, named) =
          finish-Outcome s d out v shape (λ q. named (ground arith))

  -- Take a well-formed class whose active instances have the variables of their states, and an event
  -- with at least one and fewer than 10000 transitions, each of which has the masks of its states,
  -- loses no variable unless it cleans up (so that none is a join), and adds only variables that the
  -- event has. Then no assertion fails and no access is out of bounds. The class stays well formed and keeps its size, and its instances have
  -- the variables of their new states, unless the call ends in an error for want of a free instance.
  pub update_instances-Outcome :
      IsClass c
      → Named mask_of c.instances
      → Admits mask_of e.pattern e.trans
      → Returns (update_instances env e c) (Outcome mask_of e c)
  unfolding update_instances
  update_instances-Outcome v named admits =
      let (f, run, post) =
        scan-FlowOf mask_of env e c admits c.limit 0 (begin_scan c)
          (record {
            valid = v;
            shape = (refl, refl, refl);
            ahead = named;
            named = λ q. named;
            pending = tt;
            plain = λ q. tt;
          })
          (omega arith) in
      let (r, run', o) = after_scan admits f post in
      let some_transition : ltb 0 (length e.trans) ≡ true =
        ground (arith, admits.some_transition) in
      let few : ltb (length e.trans) 10000 ≡ true = ground (arith, admits.few) in
      (r, rw (some_transition, few, run) run', o)

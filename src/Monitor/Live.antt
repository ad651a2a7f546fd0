-- ===== src/Monitor/Live.antt =====
-- An event that `tesla_update_state` handles for a class in the middle of its life.
use tesla.Base.{
  List, Returns, arith, false, get_elem?, get_elem?-lt, get_elem?-set_self, ok, refl, set, some, ℕ,
  ◌++◌, ◌==◌, ◌>>=◌, ◌≡◌, ◌≢◌,
}
use tesla.Class.{class_acquire, class_put}
use tesla.Class.Fresh.{class_put-context}
use tesla.Class.Slots.{IsClass}
use tesla.Lifetime.{find_lifetime}
use tesla.Monitor.{
  max_classes, max_instances, step_of, update_class_state, update_live, update_state,
}
use tesla.Store.{Stores, class_get, put_store, store_get}
use tesla.Store.Table.{class_get-acquires}
use tesla.Types.{
  Automaton, Class, Context, Env, Error, Key, LifetimeState, Output, Store, Transitions,
}
use tesla.Update.{Step}
use tesla.Update.Invariant.{Outcome, update_instances-Outcome}
use tesla.Update.Named.{Admits, Named}

-- Class `ci` of a store is as an event leaves it that finds the class as `c`.
abbrev pub Handled : (ℕ → ℕ) → Step → Class → Store × List Output → Type 0
Handled mask_of e c r =
    (d : Class) × (get_elem? r.0.classes e.ci ≡ some d) × Outcome mask_of e c (d, r.1)

-- The class `ci` of the store is `c`, of the automaton `a`, whose lifetime has begun, and it has
-- instances; the symbol has the transitions `trans`.
module _ (mask_of : ℕ → ℕ) (env : Env) (s : Store) (ci symbol : ℕ) (pattern : Key) (c : Class)
    (a : Automaton) (li : ℕ) (ls : LifetimeState) (trans : Transitions)
    (stands : get_elem? s.classes ci ≡ some c) (own : c.automaton ≡ some a)
    (begun : find_lifetime a.lifetime s.lifetimes ≡ some li)
    (known : get_elem? s.lifetimes li ≡ some ls) (started : c.limit ≢ c.free)
    (takes : get_elem? a.transitions symbol ≡ some trans) (valid : IsClass c)
    (named : Named mask_of c.instances) (admits : Admits mask_of pattern trans) where
  update_class_state-Handled :
      Returns
        (update_class_state env s ci symbol pattern)
        (Handled mask_of (step_of ci a c symbol pattern trans) c)
  unfolding update_class_state update_live
  update_class_state-Handled =
      let ((d, out), run, o) =
        update_instances-Outcome mask_of env (step_of ci a c symbol pattern trans) c valid named
          admits in
      let busy : c.limit == c.free ≡ false = ground arith in
      (
        (record s { classes = set s.classes ci d; lifetimes = set s.lifetimes li ls }, out),
        rw (stands, ◌>>=◌, own, begun, known, busy, takes, run) refl,
        (d, get_elem?-set_self s.classes ci d (get_elem?-lt s.classes ci c stands), o),
      )

  -- Take a store that `tesla_store_get` gives and in which `tesla_class_get` finds the automaton's
  -- class, whose lifetime has begun. Let the class be well formed with some instance in use, its
  -- active instances have the variables of their states, and the event be admitted by the typed
  -- automaton. Then `tesla_update_state` ends normally, and all that the event causes comes after the
  -- class was acquired and before it is put: in the global context, between the lock and the unlock
  -- of the class's mutex. The class stays well formed and of the same shape, and named unless the
  -- event ends in an error for want of a free instance.
  pub update_state-Handled :
      (stores stores' : Stores) (context : Context) (before : Store) (out got : List Output)
      → store_get env stores context max_classes max_instances
        ≡ ok (Error.success, stores', some before, out)
      → class_get before a ≡ ok (Error.success, some ci, s, got)
      → Returns (update_state env stores context a symbol pattern) λ r.
        (after : Store) × (middle : List Output) × (r.0 ≡ put_store stores' context after)
        × (r.1 ≡ out ++ (class_acquire ci c ++ (middle ++ class_put ci c)))
        × Handled mask_of (step_of ci a c symbol pattern trans) c (after, middle)
  unfolding update_state
  update_state-Handled stores stores' context before out got opened found =
      let ((after, middle), run, (d, at, o)) = update_class_state-Handled in
      let acquired = class_get-acquires before a _ ci c found refl stands in
      (
        (put_store stores' context after, out ++ (got ++ (middle ++ class_put ci d))),
        rw (opened, ◌>>=◌, found, run, at) refl,
        (after, middle, refl, rw (acquired, class_put-context ci c d o.shape.1) refl, (d, at, o)),
      )

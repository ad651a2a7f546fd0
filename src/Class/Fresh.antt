-- ===== src/Class/Fresh.antt =====
-- What `tesla_class_init` makes, and what the context of a class decides.
use tesla.Base.{
  Returns, [], arith, if◌then◌else◌, ltb, none, refl, replicate, true, ℕ, ◌<◌, ◌∷◌, ◌≡◌,
}
use tesla.Class.{class_global_postinit, class_init, class_perthread_postinit, class_put}
use tesla.Types.{Class, Context, Env, Error, Output, zero_instance}

-- A class that has no automaton yet.
pub record Fresh (context : Context) (instances : ℕ) (c : Class) : Type 0 where
  pub unowned : c.automaton ≡ none
  pub there : c.context ≡ context
  pub idle : c.instances ≡ replicate instances zero_instance
  pub sized : (c.limit ≡ instances) × (c.free ≡ instances)

abbrev made_by : Env → Class → Context → ℕ → Class
made_by env c context instances = record c {
  context = context;
  limit = instances;
  free = instances;
  instances = if env.allocates instances then replicate instances zero_instance else [];
}

pub class_init-Fresh :
    (env : Env) (ci : ℕ) (context : Context) (instances : ℕ) (c : Class)
    → c.automaton ≡ none
    → 0 < instances
    → env.allocates instances ≡ true
    → Returns
        (class_init env ci c context instances)
        (λ r. (r.0 ≡ Error.success) × Fresh context instances r.1)
unfolding class_init class_global_postinit class_perthread_postinit
class_init-Fresh env ci Context.global instances c new pos alloc =
    let more : ltb 0 instances ≡ true = ground arith in
    let c' = made_by env c Context.global instances in
    (
      (Error.success, c', Output.mutex_init ci ∷ []),
      rw more refl,
      (refl, record { unowned = new; there = refl; idle = rw alloc refl; sized = (refl, refl) }),
    )
class_init-Fresh env ci Context.thread instances c new pos alloc =
    let more : ltb 0 instances ≡ true = ground arith in
    let c' = made_by env c Context.thread instances in
    (
      (Error.success, c', []),
      rw more refl,
      (refl, record { unowned = new; there = refl; idle = rw alloc refl; sized = (refl, refl) }),
    )

-- A class is put back as its context wants.
pub class_put-context :
    (ci : ℕ) (c d : Class) → d.context ≡ c.context → class_put ci d ≡ class_put ci c
unfolding class_put
class_put-context ci c d same = rw same refl

-- ===== src/Store/Init.antt =====
-- What `tesla_store_init` and `tesla_store_get` leave.
use tesla.Base.{
  List, Returns, [], ap, arith, false, length, ltb, none, ok, refl, replicate, some, suc, true,
  zero, ℕ, ◌++◌, ◌+◌, ◌<◌, ◌==◌, ◌>>=◌, ◌∷◌, ◌≡◌,
}
use tesla.Class.Fresh.{Fresh, class_init-Fresh}
use tesla.Store.{Stores, choose_store, init_classes, store_get, store_init, zero_class}
use tesla.Types.{Class, Context, Env, Error, Store}

-- Every class is fresh.
pub AllFresh : Context → ℕ → List Class → Type 0
AllFresh context instances [] = Unit {0}
AllFresh context instances (c ∷ cs) = Fresh context instances c × AllFresh context instances cs

init_classes-Fresh :
    (env : Env) (context : Context) (instances i n : ℕ)
    → 0 < instances
    → env.allocates instances ≡ true
    → Returns
        (init_classes env context instances i (replicate n zero_class))
        (λ r. (length r.0 ≡ n) × AllFresh context instances r.0)
unfolding init_classes AllFresh
init_classes-Fresh env context instances i zero pos alloc = (([], []), refl, (refl, tt))
init_classes-Fresh env context instances i (suc n) pos alloc =
    let ((error, c, out), one, (fine, fresh)) =
      class_init-Fresh env i context instances zero_class refl pos alloc in
    let ((cs, out'), more, (len, all)) =
      init_classes-Fresh env context instances (i + 1) n pos alloc in
    ((c ∷ cs, out ++ out'), rw (one, fine, more), (ap suc len, (fresh, all)))

-- Where memory suffices and the numbers asked for are not 0, `tesla_store_init` gives success and a
-- store of as many classes as it was asked for, each without an automaton and with all its instances
-- idle, and without lifetimes.
pub store_init-Fresh :
    (env : Env) (store : Store) (context : Context) (classes instances : ℕ)
    → 0 < classes
    → 0 < instances
    → env.allocates classes ≡ true
    → env.allocates instances ≡ true
    → env.allocates_lifetimes classes ≡ true
    → Returns (store_init env store context classes instances) (λ r.
      (r.0 ≡ Error.success)
      × (r.1.size ≡ classes)
      × (length r.1.classes ≡ classes)
      × AllFresh context instances r.1.classes
      × (r.1.lifetimes ≡ []))
unfolding store_init
store_init-Fresh env store context classes instances pos pos' alloc alloc' alloc'' =
    let ((cs, out), run, (len, all)) =
      init_classes-Fresh env context instances 0 classes pos' alloc' in
    let more : ltb 0 classes ≡ true = ground arith in
    let more' : ltb 0 instances ≡ true = ground arith in
    (
      (Error.success, record { size = classes; classes = cs; lifetimes = [] }, out),
      rw (more, more', alloc, run, ◌>>=◌, alloc'') refl,
      (refl, refl, len, all, refl),
    )

-- A call of `tesla_store_get` for a global store that is not initialised, which cannot allocate the
-- classes, says so; but the next call, with no more memory, succeeds: it gives a store that claims
-- its classes and has none.
pub store_get_poisons :
    (env : Env) (stores : Stores) (classes instances : ℕ)
    → 0 < classes
    → 0 < instances
    → env.allocates classes ≡ false
    → stores.global_store.size ≡ 0
    → (after : Stores) × (store : Store) × (store_get env stores Context.global classes instances
        ≡ ok (Error.enomem, after, none, []))
      × (store_get env after Context.global classes instances
          ≡ ok (Error.success, after, some store, []))
      × (store.size ≡ classes)
      × (store.classes ≡ [])
unfolding store_get store_init choose_store
store_get_poisons env stores classes instances pos pos' alloc new =
    let more : ltb 0 classes ≡ true = ground arith in
    let more' : ltb 0 instances ≡ true = ground arith in
    let used : classes == 0 ≡ false = ground arith in
    let store = record stores.global_store { size = classes; classes = [] } in
    (
      record stores { global_store = store },
      store,
      rw (new, more, more', alloc) refl,
      rw (used, ◌>>=◌) refl,
      refl,
      refl,
    )

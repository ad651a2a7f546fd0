-- ===== src/Store.antt =====
-- libtesla/src/tesla_store.c, in user space: a store is a hash table of classes, by the address of
-- their automaton.
pub mod Walk
pub mod Table
pub mod Init
use tesla.Base.{
  Bool, List, Option, Run, [], assert, bad_address, false, fault, if◌then◌else◌, length, ltb, none,
  ok, read, replicate, set, some, suc, true, zero, ℕ, ◌%◌, ◌*◌, ◌++◌, ◌+◌, ◌==◌, ◌>>=◌, ◌>>◌, ◌^◌,
  ◌∷◌,
}
use tesla.Class.{class_acquire, class_code, class_destroy, class_init, class_reset}
use tesla.Types.{Automaton, Class, Context, Env, Error, Output, Store}

-- A class in memory from `calloc`.
abbrev pub zero_class : Class
zero_class = record {
  automaton = none;
  context = Context.global;
  limit = 0;
  free = 0;
  instances = [];
}

abbrev pub zero_store : Store
zero_store = record { size = 0; classes = []; lifetimes = [] }

abbrev pub is_success : Error → Bool
is_success e = elim e [ Error.success ↦ true | _ ↦ false ]

-- The loop of `tesla_store_init`: the index, and the classes from it on.
pub init_classes : Env → Context → ℕ → ℕ → List Class → Run (List Class × List Output)
init_classes env context instances i [] = ok ([], [])
init_classes env context instances i (c ∷ cs) = do
  (error, c', out) ← class_init env i c context instances
  assert (is_success error)
  (cs', out') ← init_classes env context instances (i + 1) cs
  ok (c' ∷ cs', out ++ out')

-- `tesla_store_init`: a null array of lifetimes is cleared all the same.
pub store_init : Env → Store → Context → ℕ → ℕ → Run (Error × Store × List Output)
store_init env store context classes instances = do
  assert (ltb 0 classes)
  assert (ltb 0 instances)
  elim (env.allocates classes) [
    | false ↦ ok (Error.enomem, record store { size = classes; classes = [] }, [])
    | true ↦ do
      (cs, out) ← init_classes env context instances 0 (replicate classes zero_class)
      elim (env.allocates_lifetimes classes) [
        | false ↦ fault bad_address
        | true ↦ ok (Error.success, record { size = classes; classes = cs; lifetimes = [] }, out)
      ]
  ]

-- The stores that one thread sees: the global one, and its own, which `pthread_getspecific` gives
-- and a thread-local variable caches.
pub record Stores : Type 0 where
  pub global_store : Store
  pub thread_store : Option Store

-- The choice of a store in `tesla_store_get`; a new one is zero.
pub choose_store : Env → Stores → Context → Run Store
choose_store env stores Context.global = ok stores.global_store
choose_store env stores Context.thread = elim stores.thread_store [
  | some store ↦ ok store
  | none ↦ if env.allocates 1 then ok zero_store else fault bad_address
]

abbrev pub put_store : Stores → Context → Store → Stores
put_store stores Context.global store = record stores { global_store = store }
put_store stores Context.thread store = record stores { thread_store = some store }

-- `tesla_store_get`: the error, the stores, and the store that it gives.
pub store_get : Env → Stores → Context → ℕ → ℕ → Run (Error × Stores × Option Store × List Output)
store_get env stores context classes instances = do
  store ← choose_store env stores context
  elim (store.size == 0) [
    | false ↦ ok (Error.success, put_store stores context store, some store, [])
    | true ↦ do
      (error, store', out) ← store_init env store context classes instances
      elim error [
        | Error.success ↦ do
          assert (ltb 0 (length store'.classes))
          ok (Error.success, put_store stores context store', some store', out)
        | e ↦ ok (e, put_store stores context store', none, out)
      ]
  ]

-- `fnv_hash32`
pub fnv_hash32 : ℕ → ℕ
fnv_hash32 x = x * 0x01000193 % 2 ^ 32

-- The bucket that the walk visits in round `i`.
pub bucket : ℕ → ℕ → ℕ → ℕ
bucket len hash i = (hash + i) % 2 ^ 32 % len

-- What a bucket is to a description: its class has none, this one, or another.
pub data Fit : Type 0 where
  empty : Fit
  same : Fit
  other : Fit

pub fit : Automaton → Class → Fit
fit a c = elim c.automaton [
  | none ↦ Fit.empty
  | some b ↦ if b.addr == a.addr then Fit.same else Fit.other
]

-- The walk of `tesla_class_get`: rounds left and the round. The class found, and the table.
pub walk : Automaton → ℕ → List Class → ℕ → ℕ → Run (Option ℕ × List Class)
walk a len classes zero i = ok (none, classes)
walk a len classes (suc n) i = do
  let b = bucket len (fnv_hash32 (a.addr % 2 ^ 32)) i
  c ← read classes b
  elim (fit a c) [
    | Fit.empty ↦ ok (some b, set classes b (record c { automaton = some a }))
    | Fit.same ↦ ok (some b, classes)
    | Fit.other ↦ walk a len classes n (i + 1)
  ]

-- The end of `tesla_class_get`, after its walk.
pub hand_over : Store → Option ℕ → Run (Error × Option ℕ × Store × List Output)
hand_over store none = ok (Error.enoent, none, store, [])
hand_over store (some ci) = do
  c ← read store.classes ci
  assert (ltb 0 (length c.instances))
  ok (Error.success, some ci, store, class_acquire ci c)

-- `tesla_class_get`: the error, the class, the store and the output.
pub class_get : Store → Automaton → Run (Error × Option ℕ × Store × List Output)
class_get store a = do
  (found, classes) ← walk a store.size store.classes store.size 0
  hand_over (record store { classes = classes }) found

-- The loop of `tesla_store_reset`, over as many classes as the store claims to have; where it has
-- fewer, there is none to read.
reset_classes : ℕ → List Class → Run (List Class)
reset_classes zero cs = ok cs
reset_classes (suc n) [] = fault bad_address
reset_classes (suc n) (c ∷ cs) = do c' ← class_reset c; cs' ← reset_classes n cs; ok (c' ∷ cs')

-- `tesla_store_reset`
store_reset : Store → Run Store
store_reset store = do
  cs ← reset_classes store.size store.classes
  ok (record store { classes = cs })

-- The loop of `tesla_store_free`, over as many classes as the store claims to have
destroy_classes : ℕ → ℕ → List Class → Run (List Output)
destroy_classes zero i cs = ok []
destroy_classes (suc n) i [] = fault bad_address
destroy_classes (suc n) i (c ∷ cs) = do
  out ← destroy_classes n (i + 1) cs
  ok ((class_destroy i c).1 ++ out)

-- `tesla_store_free` destroys the classes in order, and frees the lifetimes and the store.
store_free : Store → Run (List Output)
store_free store = destroy_classes store.size 0 store.classes

-- What an evaluation has to unfold.
unfoldable pub store_code : Unit {0}
unfolding init_classes store_init choose_store store_get fnv_hash32 bucket fit walk hand_over
    class_get reset_classes store_reset destroy_classes store_free class_code
store_code = tt

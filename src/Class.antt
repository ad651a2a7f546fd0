-- ===== src/Class.antt =====
-- libtesla/src/tesla_class.c, tesla_class_global.c and tesla_class_perthread.c, in user space and
-- with assertions: a class is an array of automata instances.
pub mod Slots
pub mod Lookup
pub mod Fresh
use tesla.Base.{
  Bool, List, Option, Run, [], assert, assertion, bad_address, fault, if◌then◌else◌, length, ltb,
  none, not, ok, replicate, set, some, suc, zero, ℕ, ◌&&◌, ◌+◌, ◌-◌, ◌==◌, ◌>>=◌, ◌>>◌, ◌||◌, ◌∷◌,
}
use tesla.Key.{key_code, key_matches}
use tesla.Types.{Class, Context, Env, Error, Instance, Key, Output, zero_instance}

-- `tesla_instance_active`
pub instance_active : Instance → Bool
instance_active i = not (i.state == 0) || not (i.key.mask == 0)

-- The postinit functions: the global one makes the mutex.
pub class_global_postinit : ℕ → Class → Run (Error × List Output)
class_global_postinit ci c = elim c.context [
  | Context.global ↦ ok (Error.success, Output.mutex_init ci ∷ [])
  | Context.thread ↦ fault assertion
]

pub class_perthread_postinit : ℕ → Class → Run (Error × List Output)
class_perthread_postinit ci c = ok (Error.success, [])

-- `tesla_class_init`, which does not test its allocation.
pub class_init : Env → ℕ → Class → Context → ℕ → Run (Error × Class × List Output)
class_init env ci c context instances = do
  assert (ltb 0 instances)
  let c' = record c {
    context = context;
    limit = instances;
    free = instances;
    instances = if env.allocates instances then replicate instances zero_instance else [];
  }
  (error, out) ← elim context [
    | Context.global ↦ class_global_postinit ci c'
    | Context.thread ↦ class_perthread_postinit ci c'
  ]
  ok (error, c', out)

-- `tesla_class_destroy` frees the instances.
pub class_destroy : ℕ → Class → Class × List Output
class_destroy ci c = (
  record c { instances = [] },
  elim c.context [ Context.global ↦ Output.mutex_destroy ci ∷ [] | Context.thread ↦ [] ],
)

-- `tesla_class_acquire` of tesla_store.c
pub class_acquire : ℕ → Class → List Output
class_acquire ci c = elim c.context [
  | Context.global ↦ Output.mutex_lock ci ∷ []
  | Context.thread ↦ []
]

pub class_put : ℕ → Class → List Output
class_put ci c = elim c.context [
  | Context.global ↦ Output.mutex_unlock ci ∷ []
  | Context.thread ↦ []
]

-- The loop of `tesla_match`: rounds left, the instances from the index on, the index.
pub match_from : ℕ → List Instance → ℕ → Key → Run (List ℕ)
match_from zero l i pattern = ok []
match_from (suc n) [] i pattern = fault bad_address
match_from (suc n) (x ∷ l) i pattern = do
  rest ← match_from n l (i + 1) pattern
  ok (if instance_active x && key_matches pattern x.key then i ∷ rest else rest)

-- `tesla_match` into an array of `size` pointers: the error, the new size, the pointers.
pub match_instances : Class → Key → ℕ → Run (Error × ℕ × List ℕ)
match_instances c pattern size = if ltb size c.limit then ok (Error.enomem, c.limit, []) else do
  found ← match_from c.limit c.instances 0 pattern
  ok (Error.success, length found, found)

-- The loop of `tesla_instance_new`: the first instance that is not active.
pub free_slot : ℕ → List Instance → ℕ → Run (Option ℕ)
free_slot zero l i = ok none
free_slot (suc n) [] i = fault bad_address
free_slot (suc n) (x ∷ l) i =
    let rest = free_slot n l (i + 1) in if instance_active x then rest else ok (some i)

-- What `tesla_instance_new` returns, the instance that it gives, and the class.
pub instance_new : Class → Key → ℕ → Run (Error × Option ℕ × Class)
instance_new c name state =
    if state == 0 && name.mask == 0
    then ok (Error.einval, none, c)
    else if c.free == 0
    then ok (Error.enomem, none, c)
    else do
      slot ← free_slot c.limit c.instances 0
      elim slot [
        | none ↦ fault assertion
        | some i ↦ ok (
          Error.success,
          some i,
          record c {
            instances = set c.instances i (record { key = name; state = state });
            free = c.free - 1;
          },
        )
      ]

unfoldable pub instance_clone : Class → Instance → Run (Error × Option ℕ × Class)
instance_clone c orig = instance_new c orig.key orig.state

-- `tesla_instance_clear`
pub instance_clear : Instance → Instance
instance_clear i = zero_instance

-- `bzero` of the instances.
pub zero_instances : ℕ → List Instance → Run (List Instance)
zero_instances zero l = ok l
zero_instances (suc n) [] = fault bad_address
zero_instances (suc n) (x ∷ l) = do rest ← zero_instances n l; ok (zero_instance ∷ rest)

pub class_reset : Class → Run Class
class_reset c = do
  l ← zero_instances c.limit c.instances
  ok (record c { instances = l; free = c.limit })

-- What an evaluation has to unfold.
unfoldable pub class_code : Unit {0}
unfolding instance_active class_global_postinit class_perthread_postinit class_init class_destroy
    class_acquire class_put match_from match_instances free_slot instance_new instance_clone
    instance_clear zero_instances class_reset key_code
class_code = tt

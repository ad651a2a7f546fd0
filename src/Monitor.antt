-- ===== src/Monitor.antt =====
-- The entry points of libtesla/src/tesla_update.c: events and lifetimes.
pub mod Live
pub mod Frame
pub mod Sunrise
pub mod Sunset
use tesla.Base.{
  Bool, List, Option, Run, [], assert, assertion, at_address, false, fault, length, ltb, none, ok,
  read, replicate, set, some, suc, true, zero, ℕ, ◌++◌, ◌+◌, ◌==◌, ◌>>=◌, ◌>>◌, ◌∷◌,
}
use tesla.Class.{class_put}
use tesla.Init.{Flow, init_code, late_init}
use tesla.Lifetime.{find_lifetime, lifetime_code, nulls, register_class, static_classes}
use tesla.Store.{Stores, class_get, is_success, put_store, store_code, store_get}
use tesla.Types.{
  Automaton, Class, Context, Env, Event, Key, Lifetime, LifetimeState, Output, Store, Transitions,
}
use tesla.Update.{Step, update_code, update_instances}

abbrev pub max_classes : ℕ
max_classes = 128

abbrev pub max_instances : ℕ
max_instances = 128

abbrev pub step_of : ℕ → Automaton → Class → ℕ → Key → Transitions → Step
step_of ci a c symbol pattern trans = record {
  ci = ci;
  autom = a;
  max_clones = c.free;
  symbol = symbol;
  pattern = pattern;
  trans = trans;
}

-- The part of `tesla_update_class_state` on a class whose lifetime has begun: the class, the
-- lifetime's state with the class registered in it, and what is emitted.
pub update_live :
    Env
    → ℕ
    → Automaton
    → Class
    → LifetimeState
    → ℕ
    → Key
    → Run (Class × LifetimeState × List Output)
update_live env ci a c ls symbol pattern = elim (c.limit == c.free) [
  | false ↦ do
    trans ← read a.transitions symbol
    (c', out) ← update_instances env (step_of ci a c symbol pattern trans) c
    ok (c', ls, out)
  | true ↦ do
    started ← late_init ci symbol a c
    elim started [
      | Flow.returned c' out ↦ ok (c', ls, out)
      | Flow.goes (c', out) ↦ do
        ls' ← register_class env ls ci
        trans ← read a.transitions symbol
        (c'', out') ← update_instances env (step_of ci a c symbol pattern trans) c'
        ok (c'', ls', out ++ out')
    ]
]

-- `tesla_update_class_state`
pub update_class_state : Env → Store → ℕ → ℕ → Key → Run (Store × List Output)
update_class_state env store ci symbol pattern = do
  c ← read store.classes ci
  a ← at_address c.automaton
  elim (find_lifetime a.lifetime store.lifetimes) [
    | none ↦ ok (store, Output.event (Event.ignored ci symbol pattern) ∷ [])
    | some li ↦ do
      ls ← read store.lifetimes li
      (c', ls', out) ← update_live env ci a c ls symbol pattern
      ok (
        record store { classes = set store.classes ci c'; lifetimes = set store.lifetimes li ls' },
        out,
      )
  ]

-- `tesla_update_state`
pub update_state : Env → Stores → Context → Automaton → ℕ → Key → Run (Stores × List Output)
update_state env stores context a symbol pattern = do
  (error, stores', got, out) ← store_get env stores context max_classes max_instances
  assert (is_success error)
  store ← at_address got
  (error', found, store', out') ← class_get store a
  assert (is_success error')
  ci ← at_address found
  (store'', out'') ← update_class_state env store' ci symbol pattern
  c ← read store''.classes ci
  ok (put_store stores' context store'', out ++ (out' ++ (out'' ++ class_put ci c)))

-- A lifetime that has just been recorded.
abbrev pub new_lifetime : Lifetime → LifetimeState
new_lifetime l = record {
  begin_event = l.begin_event;
  end_event = l.end_event;
  classes = replicate static_classes none;
  dyn_classes = [];
  dyn_capacity = 0;
}

-- `tesla_sunrise` on the store
pub record_lifetime : Store → Lifetime → Run Store
record_lifetime store l = do
  assert (ltb (length store.lifetimes) store.size)
  elim (find_lifetime l store.lifetimes) [
    | some li ↦ ok store
    | none ↦ ok (record store { lifetimes = store.lifetimes ++ new_lifetime l ∷ [] })
  ]

-- `tesla_sunrise`
tesla_sunrise : Env → Stores → Context → Lifetime → Run (Stores × List Output)
tesla_sunrise env stores context l = do
  (error, stores', got, out) ← store_get env stores context max_classes max_instances
  assert (is_success error)
  store ← at_address got
  store' ← record_lifetime store l
  ok (put_store stores' context store', out ++ Output.event (Event.sunrise context l) ∷ [])

-- `empty_key` of `tesla_sunset`: only its mask is set.
abbrev empty_key : Key → Key
empty_key junk = record junk { mask = 0 }

-- The slots of lifetime `li` that a loop of `tesla_sunset` walks: `tls_classes`, or
-- `tls_dyn_classes`.
abbrev pub slots_of : Bool → LifetimeState → List (Option ℕ)
slots_of true ls = ls.dyn_classes
slots_of false ls = ls.classes

-- One of the loops of `tesla_sunset`: the rounds left and the index. It reads each slot afresh,
-- since an update may register a class.
pub cleanup_slots : Env → Bool → Key → ℕ → ℕ → ℕ → Store → Run (Store × List Output)
cleanup_slots env dynamic junk li zero i store = ok (store, [])
cleanup_slots env dynamic junk li (suc n) i store = do
  ls ← read store.lifetimes li
  slot ← read (slots_of dynamic ls) i
  elim slot [
    | none ↦ ok (store, [])
    | some ci ↦ do
      c ← read store.classes ci
      a ← at_address c.automaton
      (store', out) ← update_class_state env store ci a.cleanup_symbol (empty_key junk)
      (store'', out') ← cleanup_slots env dynamic junk li n (i + 1) store'
      ok (store'', out ++ out')
  ]

-- `bzero(ls->tls_classes, …)`
abbrev clear_static : LifetimeState → LifetimeState
clear_static ls = record ls { classes = nulls ls.classes }

-- `bzero(ls->tls_dyn_classes, …)`: the count and the capacity stay.
abbrev pub clear_dynamic : LifetimeState → LifetimeState
clear_dynamic ls = record ls { dyn_classes = nulls ls.dyn_classes }

clear_slots : (LifetimeState → LifetimeState) → ℕ → Store → Run Store
clear_slots f li store = do
  ls ← read store.lifetimes li
  ok (record store { lifetimes = set store.lifetimes li (f ls) })

-- `tesla_sunset` on the store; `junk` is what stands in `empty_key` before its mask is set.
end_lifetime : Env → Key → Store → Lifetime → Run (Store × List Output)
end_lifetime env junk store l = do
  assert (ltb (length store.lifetimes) store.size)
  elim (find_lifetime l store.lifetimes) [
    | none ↦ fault assertion
    | some li ↦ do
      (s₁, out) ← cleanup_slots env false junk li static_classes 0 store
      s₂ ← clear_slots clear_static li s₁
      ls ← read s₂.lifetimes li
      (s₃, out') ← cleanup_slots env true junk li (length ls.dyn_classes) 0 s₂
      s₄ ← clear_slots clear_dynamic li s₃
      ok (s₄, out ++ out')
  ]

-- `tesla_sunset`
tesla_sunset : Env → Key → Stores → Context → Lifetime → Run (Stores × List Output)
tesla_sunset env junk stores context l = do
  (error, stores', got, out) ← store_get env stores context max_classes max_instances
  assert (is_success error)
  store ← at_address got
  (store', out') ← end_lifetime env junk store l
  ok (put_store stores' context store', Output.event (Event.sunset context l) ∷ (out ++ out'))

-- What an evaluation has to unfold.
unfoldable pub monitor_code : Unit {0}
unfolding update_live update_class_state update_state record_lifetime tesla_sunrise cleanup_slots
    clear_slots end_lifetime tesla_sunset update_code init_code store_code lifetime_code
monitor_code = tt

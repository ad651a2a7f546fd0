-- ===== src/Tests/Stores.antt =====
-- Stores at concrete inputs.
use tesla.Base.{
  Option, Returns, [], arith, false, length, none, ok, refl, some, true, ℕ, ◌∷◌, ◌≡◌, ◌≢◌, ◌⊎◌,
}
use tesla.Lifetime.{find_lifetime, lifetime_code}
use tesla.Lifetime.Registered.{Registered, register_class-Registered}
use tesla.Monitor.{cleanup_slots, monitor_code, new_lifetime, record_lifetime}
use tesla.Monitor.Sunrise.{record_lifetime_again}
use tesla.Monitor.Sunset.{sunset_forgets}
use tesla.Store.{Stores, class_get, store_code, store_get, store_init, zero_store}
use tesla.Store.Init.{AllFresh, store_get_poisons, store_init-Fresh}
use tesla.Store.Table.{class_get_map}
use tesla.Tests.Sample.{class_of, debug_env, repeat_automaton, sample_lifetime, store_of}
use tesla.Types.{Automaton, Class, Context, Env, Error, LifetimeState, Store, zero_key}

abbrev one : Automaton
one = repeat_automaton 0x1000

abbrev other : Automaton
other = repeat_automaton 0x2000

-- A store of which the first class, or both, have been given.
abbrev owned_by : ℕ → Class
owned_by addr = record (class_of Context.thread 3) { automaton = some (repeat_automaton addr) }

abbrev one_given : Store
one_given = record (store_of 3) { classes = owned_by 0x1000 ∷ class_of Context.thread 3 ∷ [] }

abbrev both_given : Store
both_given = record (store_of 3) { classes = owned_by 0x1000 ∷ owned_by 0x2000 ∷ [] }

class_get_map_example :
    (class_get both_given one ≡ ok (Error.success, some 0, both_given, []))
    × ((one.addr ≡ other.addr) ⊎ (◌≢◌ {A = Option ℕ} (some 1) (some 0)))
unfolding store_code
class_get_map_example =
    class_get_map (store_of 3) one other (Error.success, some 0, one_given, [])
      (Error.success, some 1, both_given, []) 0 refl refl refl

store_init-Fresh_example : Returns (store_init debug_env zero_store Context.global 2 3) (λ r.
    (r.0 ≡ Error.success)
    × (r.1.size ≡ 2)
    × (length r.1.classes ≡ 2)
    × AllFresh Context.global 3 r.1.classes
    × (r.1.lifetimes ≡ []))
store_init-Fresh_example =
    store_init-Fresh debug_env zero_store Context.global 2 3 (omega arith) (omega arith) refl refl
      refl

abbrev full_env : Env
full_env = record {
  allocates = λ _. false;
  allocates_lifetimes = λ _. false;
  have_transitions = true;
}

abbrev no_stores : Stores
no_stores = record { global_store = zero_store; thread_store = none }

store_get_poisons_example :
    (after : Stores) × (store : Store) × (store_get full_env no_stores Context.global 128 128
      ≡ ok (Error.enomem, after, none, []))
    × (store_get full_env after Context.global 128 128 ≡ ok (Error.success, after, some store, []))
    × (store.size ≡ 128)
    × (store.classes ≡ [])
store_get_poisons_example =
    store_get_poisons full_env no_stores 128 128 (omega arith) (omega arith) refl refl

-- A lifetime with one static slot, taken, and a dynamic slot.
abbrev crowded : LifetimeState
crowded = record {
  begin_event = sample_lifetime.begin_event;
  end_event = sample_lifetime.end_event;
  classes = some 0 ∷ [];
  dyn_classes = some 1 ∷ [];
  dyn_capacity = 8;
}

abbrev more_crowded : LifetimeState
more_crowded = record crowded { dyn_classes = some 1 ∷ some 2 ∷ []; dyn_capacity = 16 }

register_class-Registered_example : Registered crowded 2 more_crowded
unfolding lifetime_code
register_class-Registered_example = register_class-Registered debug_env crowded more_crowded 2 refl

abbrev forgetful : LifetimeState
forgetful = record crowded { dyn_classes = none ∷ some 2 ∷ []; dyn_capacity = 16 }

abbrev forgetful_store : Store
forgetful_store = record both_given { lifetimes = forgetful ∷ [] }

sunset_forgets_example :
    cleanup_slots debug_env true zero_key 0 2 0 forgetful_store ≡ ok (forgetful_store, [])
unfolding lifetime_code
sunset_forgets_example =
    sunset_forgets debug_env debug_env zero_key 0 2 2 forgetful_store crowded forgetful
      (omega arith) refl refl

abbrev risen : Store
risen = record (store_of 3) { lifetimes = new_lifetime sample_lifetime ∷ [] }

record_lifetime_again_example :
    ((i : ℕ) × (find_lifetime sample_lifetime risen.lifetimes ≡ some i))
    × (record_lifetime risen sample_lifetime ≡ ok risen)
unfolding monitor_code
record_lifetime_again_example =
    record_lifetime_again (store_of 3) risen sample_lifetime refl (omega arith)

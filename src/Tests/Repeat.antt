-- ===== src/Tests/Repeat.antt =====
-- Events of libtesla/test/repeat.cpp.
use tesla.Base.{
  List, Run, [], at_address, none, ok, refl, replicate, some, ℕ, ◌++◌, ◌>>=◌, ◌∷◌, ◌≡◌,
}
use tesla.Monitor.{monitor_code, new_lifetime, record_lifetime, update_class_state}
use tesla.Store.{class_get}
use tesla.Tests.Sample.{
  class_of, debug_env, instance_of, key_of, repeat_automaton, sample_lifetime, store_of, trans_of,
}
use tesla.Types.{Class, Context, Event, Key, Output, Store, zero_instance}

-- The lifetime begins, and the automaton sees some events, each a symbol and a key.
events : Store → List (ℕ × Key) → Run (Store × List Output)
events store [] = ok (store, [])
events store ((symbol, k) ∷ es) = do
  (error, found, store', out) ← class_get store (repeat_automaton 0x1000)
  ci ← at_address found
  (store'', out') ← update_class_state debug_env store' ci symbol k
  (store''', out'') ← events store'' es
  ok (store''', out ++ (out' ++ out''))

abbrev life : List (ℕ × Key) → Run (Store × List Output)
life es = do store ← record_lifetime (store_of 3) sample_lifetime; events store es

abbrev after_call : Class
after_call = record {
  automaton = some (repeat_automaton 0x1000);
  context = Context.thread;
  limit = 3;
  free = 1;
  instances = instance_of 1 (key_of 0 0) ∷ instance_of 2 (key_of 1 7) ∷ zero_instance ∷ [];
}

-- The first call in a lifetime: the class gets its first instance, registers for cleanup, and the
-- instance is cloned under the name that the event gives.
first_call :
    life ((1, key_of 1 7) ∷ [])
    ≡ ok (
      record (store_of 3) {
        classes = after_call ∷ class_of Context.thread 3 ∷ [];
        lifetimes =
            record (new_lifetime sample_lifetime) { classes = some 0 ∷ replicate 31 none } ∷ [];
      },
      Output.event (Event.new_instance 0 0)
          ∷ Output.event (Event.clone 0 0 1 (trans_of 1 0 2 1 0))
          ∷ [],
    )
unfolding events monitor_code
first_call = refl

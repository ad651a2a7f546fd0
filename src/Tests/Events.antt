-- ===== src/Tests/Events.antt =====
-- Events at concrete inputs.
use tesla.Base.{List, Returns, [], arith, none, ok, refl, suc, zero, ℕ, ◌++◌, ◌∷◌, ◌≡◌}
use tesla.Class.{class_acquire, class_code, class_put}
use tesla.Class.Slots.{IsClass, IsFirstIdle, active_count, made}
use tesla.Init.{Flow, late_init}
use tesla.Init.Found.{QuietFrom, late_init_finds}
use tesla.Init.Missed.{late_init_misses}
use tesla.Monitor.{monitor_code, new_lifetime, step_of, update_class_state, update_state}
use tesla.Monitor.Frame.{Frame, update_class_state-Frame}
use tesla.Monitor.Live.{Handled, update_state-Handled}
use tesla.Store.{Stores, put_store}
use tesla.Tests.Classes.{busy_class-IsClass, busy_class-Named, call-Admits}
use tesla.Tests.Sample.{
  busy_class, call_transitions, class_of, debug_env, instance_of, key_of, repeat_automaton,
  sample_lifetime, trans_of, variables_of,
}
use tesla.Types.{
  Automaton, Context, Error, Event, Message, Output, Store, trans_cleanup, trans_init, zero_key,
}

-- A store after the lifetime of its one class has begun.
abbrev live_store : Store
live_store = record {
  size = 1;
  classes = busy_class ∷ [];
  lifetimes = new_lifetime sample_lifetime ∷ [];
}

-- A named instance takes its transition, and the one without a name is cloned.
abbrev called_store : Store
called_store = record live_store {
  classes =
      record busy_class {
        free = 0;
        instances =
            instance_of 1 (key_of 0 0)
            ∷ instance_of 2 (key_of 1 7)
            ∷ instance_of 2 (key_of 1 7)
            ∷ [];
      }
      ∷ [];
}

abbrev call_output : List Output
call_output =
    Output.event (Event.transition 0 1 (trans_of 2 1 2 1 0))
    ∷ Output.event (Event.clone 0 0 2 (trans_of 1 0 2 1 0))
    ∷ []

call_runs :
    update_class_state debug_env live_store 0 1 (key_of 1 7) ≡ ok (called_store, call_output)
unfolding monitor_code
call_runs = refl

update_class_state-Frame_example : Frame (repeat_automaton 0x1000) 0 live_store called_store
update_class_state-Frame_example =
    update_class_state-Frame debug_env live_store 0 1 (key_of 1 7) busy_class
      (repeat_automaton 0x1000) (called_store, call_output) refl refl call_runs

-- An automaton whose init transition belongs to its second symbol.
abbrev late_automaton : Automaton
late_automaton = record (repeat_automaton 0x1000) {
  alphabet_size = 2;
  transitions = (trans_of 1 0 2 0 0 ∷ []) ∷ (trans_of 0 0 1 0 trans_init ∷ []) ∷ [];
}

late_init_misses_example :
    late_init 0 1 late_automaton (class_of Context.thread 3)
    ≡ ok (
        Flow.returned
          (class_of Context.thread 3)
          (Output.event (Event.err late_automaton 1 Error.einval Message.no_init_transition) ∷ []))
late_init_misses_example =
    late_init_misses 0 1 late_automaton (class_of Context.thread 3) (trans_of 1 0 2 0 0 ∷ [])
      (trans_of 1 0 2 0 0) refl refl refl (omega arith)

abbrev live_stores : Stores
live_stores = record { global_store = live_store; thread_store = none }

update_state-Handled_example :
    Returns
      (update_state debug_env live_stores Context.global (repeat_automaton 0x1000) 1 (key_of 1 7))
      λ r.
        (after : Store) × (middle : List Output) × (r.0
          ≡ put_store live_stores Context.global after)
        × (r.1 ≡ [] ++ (class_acquire 0 busy_class ++ (middle ++ class_put 0 busy_class)))
        × Handled variables_of
            (step_of 0 (repeat_automaton 0x1000) busy_class 1 (key_of 1 7) call_transitions)
            busy_class
            (after, middle)
unfolding monitor_code
update_state-Handled_example =
    update_state-Handled variables_of debug_env live_store 0 1 (key_of 1 7) busy_class
      (repeat_automaton 0x1000) 0 (new_lifetime sample_lifetime) call_transitions refl refl refl
      refl (λ e. absurd (omega arith)) refl busy_class-IsClass busy_class-Named (call-Admits 7)
      live_stores live_stores Context.global live_store [] (Output.mutex_lock 0 ∷ []) refl refl

repeat-QuietFrom : QuietFrom (repeat_automaton 0x1000) 1
repeat-QuietFrom zero le lt = absurd (omega arith)
repeat-QuietFrom (suc zero) le lt = (trans_of 1 0 2 1 0, (call_transitions, refl, refl), refl)
repeat-QuietFrom (suc (suc zero)) le lt = (trans_of 1 0 3 1 trans_cleanup, (_, refl, refl), refl)
repeat-QuietFrom (suc (suc (suc zero))) le lt = (trans_of 2 1 4 1 0, (_, refl, refl), refl)
repeat-QuietFrom (suc (suc (suc (suc j)))) le lt = absurd (omega arith)

class_of-IsClass : IsClass (class_of Context.thread 3)
unfolding active_count class_code
class_of-IsClass = record { nonempty = omega arith; whole = refl; promised = omega arith }

late_init_finds_example :
    (k : ℕ) × IsFirstIdle (class_of Context.thread 3).instances k
    × IsClass (made (class_of Context.thread 3) k zero_key 1)
    × (late_init 0 1 (repeat_automaton 0x1000) (class_of Context.thread 3)
        ≡ ok (
            Flow.goes (
              made (class_of Context.thread 3) k zero_key 1,
              Output.event (Event.new_instance 0 k) ∷ [],
            )))
late_init_finds_example =
    late_init_finds 0 1 (repeat_automaton 0x1000) (class_of Context.thread 3)
      (trans_of 0 0 1 0 trans_init) (omega arith) (_, refl, refl) refl (λ e. absurd (omega arith))
      repeat-QuietFrom class_of-IsClass (omega arith)

-- ===== src/Tests/Handlers.antt =====
-- Handlers and buffers at concrete inputs.
use tesla.Base.{
  List, Option, Returns, Run, [], arith, false, get_elem?, length, none, ok, refl, some, suc, sym,
  true, zero, ℕ, ◌*◌, ◌+◌, ◌<◌, ◌∷◌, ◌≡◌, ◌≢◌, ◌⊎◌,
}
use tesla.Base.Bits.{bit}
use tesla.Debug.{
  codes, debug_code, open_buffer, print_key, print_transition, sprint_transitions, tesla_debugging,
}
use tesla.Debug.Buffer.{Fits, print_key-Returns, sprint_transitions-Fits}
use tesla.Lifetime.{lifetime_code}
use tesla.Notify.{
  Handlers, MetaHandler, Notifier, handler_for, notify, notify_code, set_event_handlers,
}
use tesla.Notify.Defaults.{default_notifier}
use tesla.Notify.Defaults.Halting.{Halts, default-Halts}
use tesla.Notify.Dispatch.{Answers, Delivered, notify-Returns, set_event_handlers-outcome}
use tesla.Tests.Sample.{busy_class, key_of, trans_of}
use tesla.Types.{Error, Event, key_size, trans_init, word}

default-Halts_example : Halts (
    notify
      (default_notifier (λ name. false) (busy_class ∷ []))
      (Event.no_instance 0 1 (key_of 1 7)))
default-Halts_example =
    default-Halts (λ name. false) (busy_class ∷ []) (Event.no_instance 0 1 (key_of 1 7)) refl

-- Handlers that note the number of the event.
abbrev quiet : Handlers ℕ
quiet = record {
  sunrise = some (λ c l. ok (0 ∷ []));
  sunset = some (λ c l. ok (1 ∷ []));
  init = some (λ ci i. ok (2 ∷ []));
  transition = some (λ ci i t. ok (3 ∷ []));
  clone = some (λ ci i j t. ok (4 ∷ []));
  fail_no_instance = some (λ ci s k. ok (5 ∷ []));
  bad_transition = some (λ ci i s. ok (6 ∷ []));
  err = some (λ a s e m. ok (7 ∷ []));
  accept = some (λ ci i. ok (8 ∷ []));
  ignored = some (λ ci s k. ok (9 ∷ []));
}

abbrev two_quiet : MetaHandler ℕ
two_quiet = record { mask = 2; handlers = some quiet ∷ some quiet ∷ [] }

abbrev nothing : Notifier ℕ
nothing = record { event_handlers = record { mask = 0; handlers = [] }; have_transitions = false }

abbrev installed : Notifier ℕ
installed = record { event_handlers = two_quiet; have_transitions = true }

quiet_returns :
    (j : ℕ) (h : Handlers ℕ) (run : Run (List ℕ))
    → get_elem? two_quiet.handlers j ≡ some (some h)
    → handler_for (Event.accept 0 1) h ≡ some run
    → Returns run (λ _. Unit {0})
unfolding notify_code
quiet_returns zero h run e q =
    let same : quiet ≡ h = cc e in
    let runs : ok (8 ∷ []) ≡ run = cc (rw (sym same) at q) in (8 ∷ [], sym runs, tt)
quiet_returns (suc zero) h run e q =
    let same : quiet ≡ h = cc e in
    let runs : ok (8 ∷ []) ≡ run = cc (rw (sym same) at q) in (8 ∷ [], sym runs, tt)
quiet_returns (suc (suc j)) h run e q = cc

notify-Returns_example :
    Returns
      (notify installed (Event.accept 0 1))
      (Delivered (Event.accept 0 1) two_quiet.mask 0 two_quiet.handlers)
unfolding notify_code
notify-Returns_example =
    notify-Returns two_quiet nothing installed (Event.accept 0 1) refl quiet_returns

abbrev gap : MetaHandler ℕ
gap = record { mask = 1; handlers = some quiet ∷ none ∷ [] }

-- A list of handlers that is refused.
refused_runs : set_event_handlers (some gap) nothing ≡ (Error.einval, nothing)
unfolding notify_code
refused_runs = refl

set_event_handlers-outcome_example :
    ((h : MetaHandler ℕ) × (some two_quiet ≡ some h)
      × ((set_event_handlers (some two_quiet) nothing).0 ≡ Error.success)
      × ((set_event_handlers (some two_quiet) nothing).1.event_handlers ≡ h)
      × ((i : ℕ) (p : Option (Handlers ℕ)) → get_elem? h.handlers i ≡ some p → Answers p))
    ⊎ (((set_event_handlers (some two_quiet) nothing).0 ≢ Error.success)
        × ((set_event_handlers (some two_quiet) nothing).1 ≡ nothing))
set_event_handlers-outcome_example = set_event_handlers-outcome (some two_quiet) nothing

sprint_transitions-Fits_example :
    Fits 8 (sprint_transitions (trans_of 0 0 1 0 trans_init ∷ []) (open_buffer 8))
sprint_transitions-Fits_example =
    sprint_transitions-Fits 8 (trans_of 0 0 1 0 trans_init ∷ []) (open_buffer 8)
      (record { inside = omega arith; at_end = refl; ends = omega arith })

print_key-Returns_example :
    Returns (print_key (key_of 1 7)) (λ text. length text < 15 * key_size + 10)
print_key-Returns_example = print_key-Returns (key_of 1 7)

print_key_runs : print_key (key_of 5 0xbeef) ≡ ok (codes "0x5 [ beef X 0 X ]")
unfolding debug_code bit word
print_key_runs = refl

print_transition_runs :
    print_transition (trans_of 0 0 1 3 trans_init) ≡ codes "(0:0x0 -> 1:0x3 <init>) "
unfolding debug_code
print_transition_runs = refl

-- A prefix of the debug name that ends at a dot turns the name on.
debugging_runs :
    tesla_debugging (λ p n. false) (some (codes "libtesla")) (codes "libtesla.event") ≡ true
unfolding debug_code lifetime_code
debugging_runs = refl

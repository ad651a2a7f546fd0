-- ===== src/Notify/Defaults.antt =====
-- The handlers that libtesla/src/tesla_notification.c installs by itself: reports, and the ones
-- that stop the program. They read the classes that the events point to.
pub mod Halting
use tesla.Base.{
  Bool, List, Run, [], assert, at_address, fault, if◌then◌else◌, length, ltb, none, ok, panicked,
  read, some, true, ℕ, ◌++◌, ◌>>=◌, ◌>>◌, ◌∷◌,
}
use tesla.Debug.{
  codes, decimal, hex, key_string, open_buffer, safe_sprintf, shown, sprint_transitions,
}
use tesla.Notify.{Handlers, MetaHandler, Notifier, tesla_strerror}
use tesla.Types.{Automaton, Class, Context, Error, Key, Lifetime, Message, Transition}

-- A line on standard output, or on standard error.
pub data Report : Type 0 where
  printed : List ℕ → Report
  complained : List ℕ → Report

-- `tcp->tc_automaton`
abbrev pub automaton_at : List Class → ℕ → Run Automaton
automaton_at classes ci = do c ← read classes ci; at_address c.automaton

-- `instance %td: %d:0x%x`
abbrev state_text : ℕ → ℕ → List ℕ
state_text state mask = decimal state ++ (codes ":0x" ++ hex mask)

module _ (debugging : List ℕ → Bool) (classes : List Class) where
  -- `DEBUG`
  abbrev debug : List ℕ → List ℕ → Run (List Report)
  debug dclass text = if debugging dclass then ok (Report.printed text ∷ []) else ok []

  abbrev context_text : Context → List ℕ
  context_text Context.global = codes "global"
  context_text Context.thread = codes "per-thread"

  -- `print_failure_header`
  print_failure_header : ℕ → Run (List Report)
  print_failure_header ci = do
    a ← automaton_at classes ci
    ok (
        Report.complained (codes "\n\nTESLA failure:\n")
        ∷ Report.complained
            (codes "In automaton '" ++ (a.name ++ (codes "':\n" ++ (a.description ++ codes "\n"))))
        ∷ [])

  pub print_sunrise : Context → Lifetime → Run (List Report)
  print_sunrise c l =
      debug (codes "libtesla.sunrise")
        (codes "sunrise  " ++ (context_text c ++ (codes " " ++ (l.repr ++ codes "\n"))))

  pub print_sunset : Context → Lifetime → Run (List Report)
  print_sunset c l =
      debug (codes "libtesla.sunset")
        (codes "sunset   " ++ (context_text c ++ (codes " " ++ (l.repr ++ codes "\n"))))

  -- The arguments of a `DEBUG` that is off are not read.
  pub print_new_instance : ℕ → ℕ → Run (List Report)
  print_new_instance ci i =
      if debugging (codes "libtesla.instance.new")
      then (do
        c ← read classes ci
        a ← at_address c.automaton
        x ← read c.instances i
        ok (
            Report.printed (
              codes "new    "
              ++ (decimal i
                  ++ (codes ": "
                      ++ (state_text x.state x.key.mask
                          ++ (codes " ('" ++ (a.name ++ codes "')\n"))))))
            ∷ []))
      else ok []

  pub print_transition_taken : ℕ → ℕ → Transition → Run (List Report)
  print_transition_taken ci i t = debug (codes "libtesla.state.transition") (
      codes "update "
      ++ (decimal i
          ++ (codes ": "
              ++ (state_text t.from t.from_mask
                  ++ (codes "->" ++ (state_text t.to t.to_mask ++ codes "\n"))))))

  pub print_clone : ℕ → ℕ → ℕ → Transition → Run (List Report)
  print_clone ci i j t = debug (codes "libtesla.instance.clone") (
      codes "clone  "
      ++ (decimal i
          ++ (codes ":"
              ++ (state_text t.from t.from_mask
                  ++ (codes " -> "
                      ++ (decimal j
                          ++ (codes ":" ++ (state_text t.to t.to_mask ++ codes "\n"))))))))

  pub print_no_instance : ℕ → ℕ → Key → Run (List Report)
  print_no_instance ci symbol k = do
    a ← automaton_at classes ci
    header ← print_failure_header ci
    let c₁ = safe_sprintf (codes "No instance matched key '") (open_buffer 1024)
    let c₂ = safe_sprintf (codes "' for transition(s) ") (key_string k c₁)
    trans ← read a.transitions symbol
    let c₃ = sprint_transitions trans c₂
    assert (ltb 0 (length c₃.written))
    ok (header ++ Report.complained (shown c₃) ∷ [])

  pub print_bad_transition : ℕ → ℕ → ℕ → Run (List Report)
  print_bad_transition ci i symbol = do
    c ← read classes ci
    a ← at_address c.automaton
    header ← print_failure_header ci
    x ← read c.instances i
    name ← read a.symbol_names symbol
    let text =
        codes "Instance "
        ++ (decimal i
            ++ (codes " is in state "
                ++ (decimal x.state
                    ++ (codes "\nbut received event '"
                        ++ (name ++ codes "'\n(causes transition in: ")))))
    let c₁ = safe_sprintf text (open_buffer 1024)
    assert (ltb 0 (length c₁.written))
    trans ← read a.transitions symbol
    let c₂ = sprint_transitions trans c₁
    assert (ltb 0 (length c₂.written))
    let c₃ = safe_sprintf (codes ")\n") c₂
    assert (ltb 0 (length c₃.written))
    ok (header ++ Report.complained (shown c₃) ∷ [])

  -- The messages that libtesla/src/tesla_update.c passes to `ev_err`.
  abbrev message_text : Message → List ℕ
  message_text Message.init_failed = codes "failed to initialise instance"
  message_text Message.no_init_transition = codes "automaton has no init transition"
  message_text Message.too_many_clones = codes "too many clones"
  message_text Message.clone_failed = codes "failed to clone instance"
  message_text Message.union_failed = codes "failed to union keys"

  pub print_error : Automaton → ℕ → Error → Message → Run (List Report)
  print_error a symbol e m =
      if debugging (codes "libtesla.event")
      then (do
        name ← read a.symbol_names symbol
        ok (
            Report.printed (
              message_text m
              ++ (codes " in '"
                  ++ (a.name
                      ++ (codes "' "
                          ++ (name ++ (codes ": " ++ (tesla_strerror e ++ codes "\n")))))))
            ∷ []))
      else ok []

  pub print_accept : ℕ → ℕ → Run (List Report)
  print_accept ci i =
      if debugging (codes "libtesla.instance.success")
      then (do
        a ← automaton_at classes ci
        ok (
            Report.printed
              (codes "pass '" ++ (a.name ++ (codes "': " ++ (decimal i ++ codes "\n"))))
            ∷ []))
      else ok []

  pub print_ignored : ℕ → ℕ → Key → Run (List Report)
  print_ignored ci symbol k = do
    a ← automaton_at classes ci
    if debugging (codes "libtesla.event")
        then (do
          name ← read a.symbol_names symbol
          ok (
              Report.printed (codes "ignore '" ++ (a.name ++ (codes "': " ++ (name ++ codes "\n"))))
              ∷ []))
        else ok []

  abbrev pub printf_handlers : Handlers Report
  printf_handlers = record {
    sunrise = some print_sunrise;
    sunset = some print_sunset;
    init = some print_new_instance;
    transition = some print_transition_taken;
    clone = some print_clone;
    fail_no_instance = some print_no_instance;
    bad_transition = some print_bad_transition;
    err = some print_error;
    accept = some print_accept;
    ignored = some print_ignored;
  }

  abbrev pub printf_on_failure : Handlers Report
  printf_on_failure = record {
    sunrise = none;
    sunset = none;
    init = none;
    transition = none;
    clone = none;
    fail_no_instance = some print_no_instance;
    bad_transition = some print_bad_transition;
    err = some print_error;
    accept = none;
    ignored = none;
  }

  -- The handlers that panic, with the name of the event.
  pub panic_no_instance : ℕ → ℕ → Key → Run (List Report)
  panic_no_instance ci symbol k = do
    a ← automaton_at classes ci
    name ← read a.symbol_names symbol
    fault panicked

  pub panic_bad_transition : ℕ → ℕ → ℕ → Run (List Report)
  panic_bad_transition ci i symbol = do
    a ← automaton_at classes ci
    name ← read a.symbol_names symbol
    fault panicked

  pub panic_error : Automaton → ℕ → Error → Message → Run (List Report)
  panic_error a symbol e m = do name ← read a.symbol_names symbol; fault panicked

  -- Sunrise and sunset are left out of the source's initialiser, which makes them null.
  abbrev pub failstop_handlers : Handlers Report
  failstop_handlers = record {
    sunrise = none;
    sunset = none;
    init = none;
    transition = none;
    clone = none;
    fail_no_instance = some panic_no_instance;
    bad_transition = some panic_bad_transition;
    err = some panic_error;
    accept = none;
    ignored = none;
  }

  -- `default_handlers` and `default_event_handlers`
  abbrev pub default_event_handlers : MetaHandler Report
  default_event_handlers = record {
    mask = 0xFF;
    handlers = some printf_handlers ∷ some printf_on_failure ∷ some failstop_handlers ∷ [];
  }

  abbrev pub default_notifier : Notifier Report
  default_notifier = record { event_handlers = default_event_handlers; have_transitions = true }

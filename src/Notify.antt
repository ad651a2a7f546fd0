-- ===== src/Notify.antt =====
-- libtesla/src/tesla_notification.c, in user space with assertions, and tesla_strerror of
-- libtesla/src/tesla_util.c: the handlers of events.
pub mod Dispatch
pub mod Defaults
use tesla.Base.{
  Bool, List, Option, Run, [], bad_address, false, fault, if◌then◌else◌, none, not, ok, some, true,
  ℕ, ◌++◌, ◌+◌, ◌>>=◌, ◌||◌, ◌∷◌,
}
use tesla.Base.Bits.{bit}
use tesla.Debug.{codes}
use tesla.Types.{Automaton, Context, Error, Event, Key, Lifetime, Message, Transition}

-- `tesla_strerror`
pub tesla_strerror : Error → List ℕ
tesla_strerror Error.success = codes "Success"
tesla_strerror Error.enoent = codes "Entry not found"
tesla_strerror Error.enomem = codes "Insufficient memory"
tesla_strerror Error.einval = codes "Invalid argument"
tesla_strerror Error.unknown = codes "Unknown error"

-- `struct tesla_event_handlers`: a handler is a function that the client may supply, and gives
-- what it does as a list.
pub record Handlers (B : Type 0) : Type 0 where
  pub sunrise : Option (Context → Lifetime → Run (List B))
  pub sunset : Option (Context → Lifetime → Run (List B))
  pub init : Option (ℕ → ℕ → Run (List B))
  pub transition : Option (ℕ → ℕ → Transition → Run (List B))
  pub clone : Option (ℕ → ℕ → ℕ → Transition → Run (List B))
  pub fail_no_instance : Option (ℕ → ℕ → Key → Run (List B))
  pub bad_transition : Option (ℕ → ℕ → ℕ → Run (List B))
  pub err : Option (Automaton → ℕ → Error → Message → Run (List B))
  pub accept : Option (ℕ → ℕ → Run (List B))
  pub ignored : Option (ℕ → ℕ → Key → Run (List B))

-- `struct tesla_event_metahandler`: `tem_length` is the length of the list.
pub record MetaHandler (B : Type 0) : Type 0 where
  pub mask : ℕ
  pub handlers : List (Option (Handlers B))

-- `event_handlers` and `have_transitions`
pub record Notifier (B : Type 0) : Type 0 where
  pub event_handlers : MetaHandler B
  pub have_transitions : Bool

-- Whether a pointer is not null.
abbrev pub present {ℓ} : {A : Type ℓ} → Option A → Bool
present none = false
present (some a) = true

-- A call through a pointer that may be null.
abbrev pub call_of : {A B : Type 0} → (A → B) → Option A → Option B
call_of f none = none
call_of f (some a) = some (f a)

module _ {B : Type 0} where
  -- `check_event_handler`
  pub check_event_handler : Option (Handlers B) → Error
  check_event_handler none = Error.einval
  check_event_handler (some h) =
      if not (present h.sunrise)
        || not (present h.sunset)
        || not (present h.init)
        || not (present h.transition)
        || not (present h.clone)
        || not (present h.fail_no_instance)
        || not (present h.bad_transition)
        || not (present h.err)
        || not (present h.accept)
        || not (present h.ignored)
      then Error.einval
      else Error.success

  -- `tesla_set_event_handler`; the singleton's mask is 1.
  set_event_handler : Option (Handlers B) → Notifier B → Error × Notifier B
  set_event_handler none s = (Error.einval, s)
  set_event_handler (some h) s = elim (check_event_handler (some h)) [
    | Error.success ↦ (
      Error.success,
      record {
        event_handlers = record { mask = 1; handlers = some h ∷ [] };
        have_transitions = present h.transition;
      },
    )
    | e ↦ (e, s)
  ]

  -- The loop of `tesla_set_event_handlers`, which raises `will_have_transitions`.
  pub check_all : List (Option (Handlers B)) → Bool → Error × Bool
  check_all [] will = (Error.success, will)
  check_all (none ∷ hs) will = (Error.einval, will)
  check_all (some h ∷ hs) will = elim (check_event_handler (some h)) [
    | Error.success ↦ check_all hs (if present h.transition then true else will)
    | e ↦ (e, will)
  ]

  -- `tesla_set_event_handlers`
  pub set_event_handlers : Option (MetaHandler B) → Notifier B → Error × Notifier B
  set_event_handlers none s = (Error.einval, s)
  set_event_handlers (some m) s =
      let checked = check_all m.handlers false in
      elim checked.0 [
        | Error.success ↦
            (Error.success, record { event_handlers = m; have_transitions = checked.1 })
        | e ↦ (e, s)
      ]

  -- The member that an `ev_*` function calls, on its arguments.
  pub handler_for : Event → Handlers B → Option (Run (List B))
  handler_for (Event.sunrise c l) h = call_of (λ f. f c l) h.sunrise
  handler_for (Event.sunset c l) h = call_of (λ f. f c l) h.sunset
  handler_for (Event.new_instance ci i) h = call_of (λ f. f ci i) h.init
  handler_for (Event.transition ci i t) h = call_of (λ f. f ci i t) h.transition
  handler_for (Event.clone ci i j t) h = call_of (λ f. f ci i j t) h.clone
  handler_for (Event.no_instance ci s k) h = call_of (λ f. f ci s k) h.fail_no_instance
  handler_for (Event.bad_transition ci i s) h = call_of (λ f. f ci i s) h.bad_transition
  handler_for (Event.err a s e m) h = call_of (λ f. f a s e m) h.err
  handler_for (Event.accept ci i) h = call_of (λ f. f ci i) h.accept
  handler_for (Event.ignored ci s k) h = call_of (λ f. f ci s k) h.ignored

  -- A round of `FOREACH_ERROR_HANDLER`: whether the vector's bit is set, and the vector.
  pub call_handler : Event → Bool → Option (Handlers B) → Run (List B)
  call_handler e false p = ok []
  call_handler e true none = fault bad_address
  call_handler e true (some h) = elim (handler_for e h) [ none ↦ ok [] | some run ↦ run ]

  -- `FOREACH_ERROR_HANDLER` from handler `i` on.
  pub for_each : Event → ℕ → ℕ → List (Option (Handlers B)) → Run (List B)
  for_each e mask i [] = ok []
  for_each e mask i (p ∷ ps) = do
    out ← call_handler e (bit mask i) p
    rest ← for_each e mask (i + 1) ps
    ok (out ++ rest)

  -- The `ev_*` functions.
  pub notify : Notifier B → Event → Run (List B)
  notify s e = for_each e s.event_handlers.mask 0 s.event_handlers.handlers

-- What an evaluation has to unfold.
unfoldable pub notify_code : Unit {0}
unfolding check_event_handler set_event_handler check_all set_event_handlers handler_for
    call_handler for_each notify
notify_code = tt

-- ===== src/Notify/Defaults/Halting.antt =====
-- The default handlers stop the program on a violation.
use native.Mathlib.Nat.{add-zero}
use tesla.Base.{
  >>=-eq-ok, Bool, List, Option, Run, [], arith, false, fault, get_elem?, ok, panicked, read, refl,
  some, suc, true, zero, ℕ, ◌+◌, ◌>>=◌, ◌∷◌, ◌≡◌, ◌≢◌,
}
use tesla.Base.Bits.{bit}
use tesla.Notify.{Handlers, call_handler, for_each, handler_for, notify}
use tesla.Notify.Defaults.{
  Report, automaton_at, default_notifier, failstop_handlers, panic_bad_transition, panic_error,
  panic_no_instance,
}
use tesla.Types.{Class, Event}

-- The events that report a violation of an automaton, or an error.
abbrev is_failure : Event → Bool
is_failure (Event.no_instance ci s k) = true
is_failure (Event.bad_transition ci i s) = true
is_failure (Event.err a s e m) = true
is_failure _ = false

-- A run that does not end normally.
abbrev pub Halts : {A : Type 0} → Run A → Type 0
Halts {A} r = (a : A) → r ≢ ok a

Halts-after : {A B : Type 0} (m : Run A) (f : A → Run B) → ((a : A) → Halts (f a)) → Halts (m >>= f)
Halts-after m f h b q = let (a, e, e') = >>=-eq-ok m f q in h a b e'

Halts-before : {A B : Type 0} (m : Run A) (f : A → Run B) → Halts m → Halts (m >>= f)
Halts-before m f h b q = let (a, e, e') = >>=-eq-ok m f q in h a e

Halts-panic : Halts {A = List Report} (fault panicked)
Halts-panic a q = cc

call_handler-Halts :
    {B : Type 0} (e : Event) (h : Handlers B) (run : Run (List B))
    → handler_for e h ≡ some run
    → Halts run
    → Halts (call_handler e true (some h))
unfolding call_handler
call_handler-Halts e h run handles halts = rw (handles, call_handler) halts

-- A call that halts in an enabled vector halts the delivery.
for_each-Halts :
    {B : Type 0} (e : Event) (mask i k : ℕ) (ps : List (Option (Handlers B))) (h : Handlers B)
    (run : Run (List B))
    → get_elem? ps k ≡ some (some h)
    → bit mask (i + k) ≡ true
    → handler_for e h ≡ some run
    → Halts run
    → Halts (for_each e mask i ps)
unfolding for_each
for_each-Halts e mask i k [] h run at on handles halts = cc
for_each-Halts e mask i zero (p ∷ ps) h run at on handles halts =
    let here : p ≡ some h = cc in
    let on' : bit mask i ≡ true = rw (add-zero i) at on in
    let called = call_handler-Halts e h run handles halts in
    Halts-before (call_handler e (bit mask i) p) _ (rw (on', here) called)
for_each-Halts e mask i (suc k) (p ∷ ps) h run at on handles halts =
    let same : i + suc k ≡ i + 1 + k = omega arith in
    Halts-after _ _ (λ out.
      Halts-before _ _ (for_each-Halts e mask (i + 1) k ps h run at (rw same at on) handles halts))

module _ (debugging : List ℕ → Bool) (classes : List Class) where
  Stops : Event → Type 0
  Stops e =
      (run : Run (List Report)) × (handler_for e (failstop_handlers debugging classes) ≡ some run)
      × Halts run

  panic-Stops : (e : Event) → is_failure e ≡ true → Stops e
  unfolding Stops handler_for panic_no_instance panic_bad_transition panic_error
  panic-Stops (Event.no_instance ci s k) f = (
    _,
    refl,
    Halts-after (automaton_at classes ci) _
        (λ a. Halts-after (read a.symbol_names s) _ (λ n. Halts-panic)),
  )
  panic-Stops (Event.bad_transition ci i s) f = (
    _,
    refl,
    Halts-after (automaton_at classes ci) _
        (λ a. Halts-after (read a.symbol_names s) _ (λ n. Halts-panic)),
  )
  panic-Stops (Event.err a s e m) f =
      (_, refl, Halts-after (read a.symbol_names s) _ (λ n. Halts-panic))
  panic-Stops (Event.sunrise c l) f = cc
  panic-Stops (Event.sunset c l) f = cc
  panic-Stops (Event.new_instance ci i) f = cc
  panic-Stops (Event.transition ci i t) f = cc
  panic-Stops (Event.clone ci i j t) f = cc
  panic-Stops (Event.accept ci i) f = cc
  panic-Stops (Event.ignored ci s k) f = cc

  -- With the handlers that stand at the start, no event that reports a violation of an automaton or
  -- an error returns to the program.
  pub default-Halts :
      (e : Event) → is_failure e ≡ true → Halts (notify (default_notifier debugging classes) e)
  unfolding notify bit Stops
  default-Halts e f =
      let (run, handles, halts) = panic-Stops e f in
      for_each-Halts e 0xFF 0 2 _ (failstop_handlers debugging classes) run refl refl handles halts

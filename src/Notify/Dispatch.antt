-- ===== src/Notify/Dispatch.antt =====
-- What the installation of handlers promises the calls of them.
use mathlib.Core.Path.{subst}
use tesla.Base.{
  Bool, Bool-cases, List, Option, Returns, Run, [], ap, arith, false, get_elem?, inl, inr, none, ok,
  refl, some, suc, sym, true, zero, ℕ, ◌++◌, ◌+◌, ◌∙◌, ◌∷◌, ◌≡◌, ◌≢◌, ◌⊎◌,
}
use tesla.Base.Bits.{bit}
use tesla.Notify.{
  Handlers, MetaHandler, Notifier, call_handler, call_of, check_all, check_event_handler, for_each,
  handler_for, notify, present, set_event_handlers,
}
use tesla.Types.{Error, Event}

-- A pointer to a vector in which each handler is present.
abbrev pub Answers : {B : Type 0} → Option (Handlers B) → Type 0
Answers {B} p =
    (e : Event)
    → (h : Handlers B) × (p ≡ some h) × ((run : Run (List B)) × (handler_for e h ≡ some run))

refused≢success : Error.einval ≢ Error.success
refused≢success e = cc

module _ {B : Type 0} where
  call_of-present :
      {A : Type 0} (f : A → Run (List B)) (o : Option A)
      → present o ≡ true
      → (run : Run (List B)) × (call_of f o ≡ some run)
  call_of-present f none h = cc
  call_of-present f (some a) h = (f a, refl)

  check-Answers :
      (p : Option (Handlers B))
      → check_event_handler p ≡ Error.success
      → (e : Event)
      → (h : Handlers B) × (p ≡ some h) × ((run : Run (List B)) × (handler_for e h ≡ some run))
  unfolding check_event_handler handler_for
  check-Answers none q e = absurd (refused≢success q)
  check-Answers (some h) q (Event.sunrise c l) =
      (h, refl, call_of-present _ h.sunrise (ground arith))
  check-Answers (some h) q (Event.sunset c l) = (h, refl, call_of-present _ h.sunset (ground arith))
  check-Answers (some h) q (Event.new_instance ci i) =
      (h, refl, call_of-present _ h.init (ground arith))
  check-Answers (some h) q (Event.transition ci i t) =
      (h, refl, call_of-present _ h.transition (ground arith))
  check-Answers (some h) q (Event.clone ci i j t) =
      (h, refl, call_of-present _ h.clone (ground arith))
  check-Answers (some h) q (Event.no_instance ci s k) =
      (h, refl, call_of-present _ h.fail_no_instance (ground arith))
  check-Answers (some h) q (Event.bad_transition ci i s) =
      (h, refl, call_of-present _ h.bad_transition (ground arith))
  check-Answers (some h) q (Event.err a s e m) = (h, refl, call_of-present _ h.err (ground arith))
  check-Answers (some h) q (Event.accept ci i) =
      (h, refl, call_of-present _ h.accept (ground arith))
  check-Answers (some h) q (Event.ignored ci s k) =
      (h, refl, call_of-present _ h.ignored (ground arith))

  check-cases :
      (p : Option (Handlers B))
      → (check_event_handler p ≡ Error.success) ⊎ (check_event_handler p ≡ Error.einval)
  unfolding check_event_handler
  check-cases none = inr refl
  check-cases (some h) = ground arith

  -- Every vector of a list that passes the check passes it by itself.
  check_all-each :
      (ps : List (Option (Handlers B))) (will : Bool) (i : ℕ) (p : Option (Handlers B))
      → (check_all ps will).0 ≡ Error.success
      → get_elem? ps i ≡ some p
      → check_event_handler p ≡ Error.success
  unfolding check_all
  check_all-each [] will i p q e = cc
  check_all-each (none ∷ ps) will i p q e = absurd (refused≢success q)
  check_all-each (some h ∷ ps) will i p q e = elim (check-cases (some h)) [
    | inr bad ↦ absurd (refused≢success (rw (bad, check_all) at q))
    | inl fine ↦
        elim i
            as (λ k. get_elem? (some h ∷ ps) k ≡ some p → check_event_handler p ≡ Error.success) [
              | zero ↦ λ e'. cc
              | suc k ↦ λ e'. check_all-each ps _ k p (rw (fine, check_all) at q) e'
            ]
          e
  ]

  check_all-cases :
      (ps : List (Option (Handlers B))) (will : Bool)
      → ((check_all ps will).0 ≡ Error.success) ⊎ ((check_all ps will).0 ≡ Error.einval)
  unfolding check_all
  check_all-cases [] will = inl refl
  check_all-cases (none ∷ ps) will = inr refl
  check_all-cases (some h ∷ ps) will = elim (check-cases (some h)) [
    | inr bad ↦ inr (rw (bad, check_all))
    | inl fine ↦ rw (fine, check_all) (check_all-cases ps _)
  ]

  -- Handlers that `tesla_set_event_handlers` accepts are the ones in force from then on, and each
  -- vector among them, enabled or not, has a handler for every event.
  pub set_event_handlers-Answers :
      (m : MetaHandler B) (s s' : Notifier B)
      → set_event_handlers (some m) s ≡ (Error.success, s')
      → (s'.event_handlers ≡ m)
        × ((i : ℕ) (p : Option (Handlers B)) → get_elem? m.handlers i ≡ some p → Answers p)
  unfolding set_event_handlers
  set_event_handlers-Answers m s s' q = elim (check_all-cases m.handlers false) [
    | inr bad ↦
        absurd (
          refused≢success
            (ap (λ (r : Error × Notifier B). r.0) (rw (bad, set_event_handlers) at q)))
    | inl fine ↦ (
      sym (
          ap (λ (r : Error × Notifier B). r.1.event_handlers) (rw (fine, set_event_handlers) at q)),
      λ i p e. check-Answers p (check_all-each m.handlers false i p fine e),
    )
  ]

  -- What the handlers of a list, from index `i`, put out for an event: those that the mask enables, in
  -- the order of the list.
  pub data Delivered (e : Event) (mask : ℕ) : ℕ → List (Option (Handlers B)) → List B → Type 0 where
    stop : {i : ℕ} → Delivered e mask i [] []
    enabled :
        {i : ℕ} {h : Handlers B} {ps : List (Option (Handlers B))} {out rest : List B}
        → bit mask i ≡ true
        → handler_for e h ≡ some (ok out)
        → Delivered e mask (i + 1) ps rest
        → Delivered e mask i (some h ∷ ps) (out ++ rest)
    disabled :
        {i : ℕ} {h : Handlers B} {ps : List (Option (Handlers B))} {rest : List B}
        → bit mask i ≡ false
        → Delivered e mask (i + 1) ps rest
        → Delivered e mask i (some h ∷ ps) rest

  -- A vector that is called, before the rest of the list.
  call_handler-Delivered :
      (e : Event) (mask i : ℕ) (h : Handlers B) (ps : List (Option (Handlers B)))
      (out rest : List B)
      → handler_for e h ≡ some (ok out)
      → Delivered e mask (i + 1) ps rest
      → Returns
          (call_handler e (bit mask i) (some h))
          (λ one. Delivered e mask i (some h ∷ ps) (one ++ rest))
  unfolding call_handler
  call_handler-Delivered e mask i h ps out rest handles d = elim (Bool-cases (bit mask i)) [
    | inl on ↦ (out, rw (on, handles, call_handler), Delivered.enabled on handles d)
    | inr off ↦ ([], rw (off, call_handler), Delivered.disabled off d)
  ]

  for_each-Returns :
      (e : Event) (mask i : ℕ) (ps : List (Option (Handlers B)))
      → ((j : ℕ) (p : Option (Handlers B)) → get_elem? ps j ≡ some p → Answers p)
      → ((j : ℕ) (h : Handlers B) (run : Run (List B))
          → get_elem? ps j ≡ some (some h)
          → handler_for e h ≡ some run
          → Returns run (λ _. Unit {0}))
      → Returns (for_each e mask i ps) (Delivered e mask i ps)
  unfolding for_each
  for_each-Returns e mask i [] answers returns = ([], refl, Delivered.stop)
  for_each-Returns e mask i (p ∷ ps) answers returns =
      let (rest, go, later) =
        for_each-Returns e mask (i + 1) ps (λ j. answers (suc j)) (λ j. returns (suc j)) in
      let (h, here, (run, handles)) = answers 0 p refl e in
      let (out, done, v) = returns 0 h run (ap some here) handles in
      let (one, called, given) =
        call_handler-Delivered e mask i h ps out rest (handles ∙ ap some done) later in
      (
        one ++ rest,
        rw (here, called, go),
        subst (λ q. Delivered e mask i (q ∷ ps) (one ++ rest)) (sym here) given,
      )

  -- After the installation of accepted handlers, an event whose handlers in the list return is
  -- delivered: no pointer on the way is null, and the output is that of the handlers for the event in
  -- the vectors that the mask enables, in the order of the list, and of no other.
  pub notify-Returns :
      (m : MetaHandler B) (s s' : Notifier B) (e : Event)
      → set_event_handlers (some m) s ≡ (Error.success, s')
      → ((j : ℕ) (h : Handlers B) (run : Run (List B))
          → get_elem? m.handlers j ≡ some (some h)
          → handler_for e h ≡ some run
          → Returns run (λ _. Unit {0}))
      → Returns (notify s' e) (Delivered e m.mask 0 m.handlers)
  unfolding notify
  notify-Returns m s s' e q returns =
      let (same, answers) = set_event_handlers-Answers m s s' q in
      rw same (for_each-Returns e m.mask 0 m.handlers answers returns)

  -- A list of handlers that is refused leaves the handlers in force, and the flag, as they were.
  pub set_event_handlers-refused :
      (m : Option (MetaHandler B)) (s s' : Notifier B) (e : Error)
      → set_event_handlers m s ≡ (e, s')
      → e ≢ Error.success
      → s' ≡ s
  unfolding set_event_handlers
  set_event_handlers-refused none s s' e q n = cc
  set_event_handlers-refused (some m) s s' e q n = elim (check_all-cases m.handlers false) [
    | inr bad ↦ sym (ap (λ (r : Error × Notifier B). r.1) (rw (bad, set_event_handlers) at q))
    | inl fine ↦
        absurd (n (sym (ap (λ (r : Error × Notifier B). r.0) (rw (fine, set_event_handlers) at q))))
  ]

  -- Handlers that `tesla_set_event_handlers` accepts are the ones in force from then on, and each
  -- vector among them, enabled or not, has a handler for every event; handlers that it refuses leave
  -- those in force, and the flag, as they were.
  pub set_event_handlers-outcome :
      (m : Option (MetaHandler B)) (s : Notifier B)
      → ((h : MetaHandler B) × (m ≡ some h)
          × ((set_event_handlers m s).0 ≡ Error.success)
          × ((set_event_handlers m s).1.event_handlers ≡ h)
          × ((i : ℕ) (p : Option (Handlers B)) → get_elem? h.handlers i ≡ some p → Answers p))
        ⊎ (((set_event_handlers m s).0 ≢ Error.success) × ((set_event_handlers m s).1 ≡ s))
  unfolding set_event_handlers
  set_event_handlers-outcome none s = inr ((λ e. cc), refl)
  set_event_handlers-outcome (some m) s = elim (check_all-cases m.handlers false) [
    | inl fine ↦
        let after : Notifier B = record {
          event_handlers = m;
          have_transitions = (check_all m.handlers false).1;
        } in
        let q : set_event_handlers (some m) s ≡ (Error.success, after) =
          rw (fine, set_event_handlers) in
        let (same, answers) = set_event_handlers-Answers m s after q in
        rw q (inl (m, refl, refl, refl, answers))
    | inr bad ↦
        let q : set_event_handlers (some m) s ≡ (Error.einval, s) = rw (bad, set_event_handlers) in
        rw q (inr ((λ e. cc), refl))
  ]

-- ===== src/Init/Found.antt =====
-- Late initialisation of automata whose first symbol begins with the init transition.
use tesla.Base.{
  Bool-cases, Option, [], ap, arith, false, get_elem?, get_elem?-lt, get_elem?-set_self, inl, inr,
  length, ltb, none, ok, refl, some, suc, true, zero, ℕ, ◌+◌, ◌-◌, ◌<◌, ◌>>=◌, ◌∙◌, ◌∷◌, ◌≡◌, ◌≢◌,
  ◌≤◌,
}
use tesla.Action.{has_flag}
use tesla.Class.{instance_new}
use tesla.Class.Slots.{
  IsClass, IsFirstIdle, active_of_state, instance_new-Returns, made, made-IsClass,
}
use tesla.Init.{Flow, InitStep, init_inner, init_outer, late_init}
use tesla.Init.Missed.{init_inner-skips}
use tesla.Types.{
  Automaton, Class, Error, Event, Output, Transition, Transitions, trans_init, zero_key,
}

-- The first transition of a symbol is `t`.
abbrev Begins : Automaton → ℕ → Transition → Type 0
Begins a i t =
    (trans : Transitions) × (get_elem? a.transitions i ≡ some trans) × (get_elem? trans 0 ≡ some t)

-- The symbols from `i` on have transitions, of which the first is not an init transition.
abbrev pub QuietFrom : Automaton → ℕ → Type 0
QuietFrom a i =
    (j : ℕ)
    → i ≤ j
    → j < a.alphabet_size
    → (t : Transition) × Begins a j t × (has_flag t.flags trans_init ≡ false)

init_outer-QuietFrom :
    (n : ℕ) (a : Automaton) (i : ℕ) (inst : Option ℕ) (c : Class)
    → QuietFrom a i
    → (k : ℕ) × (init_outer n a i inst c ≡ ok (InitStep.searching k inst c))
unfolding init_outer
init_outer-QuietFrom zero a i inst c quiet = (i, refl)
init_outer-QuietFrom (suc n) a i inst c quiet = elim (Bool-cases (ltb i a.alphabet_size)) [
  | inr past ↦ (i, rw (past, init_outer) refl)
  | inl more ↦
      let (t, (trans, here, first), plain) = quiet i (omega arith) (ground arith) in
      let i' = i + (length trans - i) + 1 in
      let (k, rest) = init_outer-QuietFrom n a i' inst c (λ j le lt. quiet j (omega arith) lt) in
      (
        k,
        rw
            (
              more,
              init_outer,
              here,
              ◌>>=◌,
              init_inner-skips (length trans - i) trans i inst c t first plain,
            )
            rest,
      )
]

-- An instance is made for an init transition to a state other than 0 if the class has room.
init-made :
    (c : Class) (state : ℕ)
    → IsClass c
    → 0 < c.free
    → state ≢ 0
    → (k : ℕ) × (instance_new c zero_key state
        ≡ ok (Error.success, some k, made c k zero_key state))
      × IsFirstIdle c.instances k
init-made c state v room some_state =
    let (r, run, result) = instance_new-Returns c zero_key state v in
    elim result [
      | inl (same, none_, unnamed) ↦ absurd (some_state none_)
      | inr (inl (same, full, act)) ↦ absurd (omega (arith, full, room))
      | inr (inr (k, same, idle, pos, act)) ↦ (k, run ∙ ap ok same, idle)
    ]

init_inner-found :
    (n : ℕ) (trans : Transitions) (i : ℕ) (inst : Option ℕ) (c d : Class) (t : Transition) (k : ℕ)
    → 0 < n
    → get_elem? trans 0 ≡ some t
    → has_flag t.flags trans_init ≡ true
    → instance_new c zero_key t.to ≡ ok (Error.success, some k, d)
    → init_inner n trans i inst c ≡ ok (InitStep.searching i (some k) d)
unfolding init_inner
init_inner-found zero trans i inst c d t k pos first flagged new = absurd (omega arith)
init_inner-found (suc n) trans i inst c d t k pos first flagged new =
    rw (first, ◌>>=◌, flagged, new) refl

init_outer-found :
    (n : ℕ) (a : Automaton) (c d : Class) (t : Transition) (k : ℕ)
    → 0 < n
    → 0 < a.alphabet_size
    → Begins a 0 t
    → has_flag t.flags trans_init ≡ true
    → QuietFrom a 1
    → instance_new c zero_key t.to ≡ ok (Error.success, some k, d)
    → (i : ℕ) × (init_outer n a 0 none c ≡ ok (InitStep.searching i (some k) d))
unfolding init_outer
init_outer-found zero a c d t k pos size begins flagged quiet new = absurd (omega arith)
init_outer-found (suc n) a c d t k pos size (trans, here, first) flagged quiet new =
    let more : ltb 0 a.alphabet_size ≡ true = ground (arith, size) in
    let long : 0 < length trans - 0 = omega (arith, get_elem?-lt trans 0 t first) in
    let (i, rest) =
      init_outer-QuietFrom n a (0 + 1) (some k) d (λ j le lt. quiet j (omega arith) lt) in
    (
      i,
      rw
          (
            more,
            init_outer,
            here,
            ◌>>=◌,
            init_inner-found (length trans - 0) trans 0 none c d t k long first flagged new,
          )
          rest,
    )

-- Late initialisation finds an init transition to a state other than 0 that is the first transition
-- of the first symbol, if every other symbol has transitions and does not begin with an init
-- transition: a well-formed class with a free instance gets one nameless instance, in the
-- transition's target, in the first idle slot; the class stays well formed, and the handlers learn of
-- the new instance.
pub late_init_finds :
    (ci symbol : ℕ) (a : Automaton) (c : Class) (t : Transition)
    → 0 < a.alphabet_size
    → Begins a 0 t
    → has_flag t.flags trans_init ≡ true
    → t.to ≢ 0
    → QuietFrom a 1
    → IsClass c
    → 0 < c.free
    → (k : ℕ) × IsFirstIdle c.instances k
      × IsClass (made c k zero_key t.to)
      × (late_init ci symbol a c
          ≡ ok (Flow.goes (made c k zero_key t.to, Output.event (Event.new_instance ci k) ∷ [])))
unfolding late_init
late_init_finds ci symbol a c t size begins flagged some_state quiet v room =
    let (k, new, idle) = init-made c t.to v room some_state in
    let d = made c k zero_key t.to in
    let (i, ends) = init_outer-found a.alphabet_size a c d t k size size begins flagged quiet new in
    let act = active_of_state (record { key = zero_key; state = t.to }) some_state in
    let stands =
      get_elem?-set_self c.instances k (record { key = zero_key; state = t.to })
        (get_elem?-lt c.instances k idle.old idle.stands) in
    (k, idle, made-IsClass c k zero_key t.to v idle room, rw (ends, ◌>>=◌, stands, act) refl)

-- ===== src/Init/Missed.antt =====
-- Where late initialisation looks for the init transition.
use native.Mathlib.Nat.{add-zero}
use tesla.Base.{
  Bool-cases, Option, [], arith, false, get_elem?, inl, inr, length, ltb, none, ok, refl, some, suc,
  sym, zero, ℕ, ◌+◌, ◌-◌, ◌>>=◌, ◌∷◌, ◌≡◌, ◌≤◌,
}
use tesla.Action.{has_flag}
use tesla.Init.{Flow, InitStep, init_inner, init_outer, late_init}
use tesla.Types.{
  Automaton, Class, Error, Event, Message, Output, Transition, Transitions, trans_init,
}

-- Rounds of the inner loop over a first transition that is not an init transition.
pub init_inner-skips :
    (n : ℕ) (trans : Transitions) (i : ℕ) (inst : Option ℕ) (c : Class) (t : Transition)
    → get_elem? trans 0 ≡ some t
    → has_flag t.flags trans_init ≡ false
    → init_inner n trans i inst c ≡ ok (InitStep.searching (i + n) inst c)
unfolding init_inner
init_inner-skips zero trans i inst c t first plain = rw (add-zero i) refl
init_inner-skips (suc n) trans i inst c t first plain =
    let same : i + 1 + n ≡ i + suc n = omega arith in
    rw (first, ◌>>=◌, plain) (rw (sym same) (init_inner-skips n trans (i + 1) inst c t first plain))

-- The outer loop stops once its counter has passed the alphabet.
init_outer-past :
    (n : ℕ) (a : Automaton) (i : ℕ) (inst : Option ℕ) (c : Class)
    → a.alphabet_size ≤ i
    → init_outer n a i inst c ≡ ok (InitStep.searching i inst c)
unfolding init_outer
init_outer-past zero a i inst c le = refl
init_outer-past (suc n) a i inst c le =
    let past : ltb i a.alphabet_size ≡ false = ground arith in rw (past, init_outer)

init_outer-misses :
    (n : ℕ) (a : Automaton) (c : Class) (trans : Transitions) (t : Transition)
    → get_elem? a.transitions 0 ≡ some trans
    → get_elem? trans 0 ≡ some t
    → has_flag t.flags trans_init ≡ false
    → a.alphabet_size ≤ length trans + 1
    → (i : ℕ) × (init_outer n a 0 none c ≡ ok (InitStep.searching i none c))
unfolding init_outer
init_outer-misses zero a c trans t here first plain few = (0, refl)
init_outer-misses (suc n) a c trans t here first plain few =
    elim (Bool-cases (ltb 0 a.alphabet_size)) [
      | inr none_left ↦ (0, rw (none_left, init_outer))
      | inl more ↦
          let i = 0 + (length trans - 0) + 1 in
          (
            i,
            rw
                (
                  more,
                  init_outer,
                  here,
                  ◌>>=◌,
                  init_inner-skips (length trans - 0) trans 0 none c t first plain,
                )
                (init_outer-past n a i none c (omega (arith, few))),
          )
    ]

-- Late initialisation gives up with `EINVAL`, and the class stays as it is, when the first symbol's
-- first transition is not an init transition and that symbol has at least as many transitions as
-- the alphabet has other symbols, whatever init transitions the other symbols have.
pub late_init_misses :
    (ci symbol : ℕ) (a : Automaton) (c : Class) (trans : Transitions) (t : Transition)
    → get_elem? a.transitions 0 ≡ some trans
    → get_elem? trans 0 ≡ some t
    → has_flag t.flags trans_init ≡ false
    → a.alphabet_size ≤ length trans + 1
    → late_init ci symbol a c
      ≡ ok (
          Flow.returned c
            (Output.event (Event.err a symbol Error.einval Message.no_init_transition) ∷ []))
unfolding late_init
late_init_misses ci symbol a c trans t here first plain few =
    let (i, ends) = init_outer-misses a.alphabet_size a c trans t here first plain few in
    rw (ends, ◌>>=◌)

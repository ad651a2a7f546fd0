-- ===== src/Init.antt =====
-- Late initialisation in `tesla_update_class_state` of libtesla/src/tesla_update.c.
pub mod Missed
pub mod Found
use tesla.Base.{
  List, Option, Run, [], assert, false, length, ltb, none, ok, read, some, suc, true, zero, ℕ, ◌+◌,
  ◌-◌, ◌>>=◌, ◌>>◌, ◌∷◌,
}
use tesla.Action.{has_flag}
use tesla.Class.{class_code, instance_active, instance_new}
use tesla.Types.{Automaton, Class, Error, Event, Message, Output, Transitions, trans_init, zero_key}

-- The end of a phase: the function goes on, or has returned.
pub data Flow (A : Type 0) : Type 0 where
  goes : A → Flow A
  returned : Class → List Output → Flow A

-- Late initialisation: the instance found last, and the class.
pub data InitStep : Type 0 where
  searching : ℕ → Option ℕ → Class → InitStep
  refused : Error → Class → InitStep

-- The inner loop, which counts `i` up and leaves `j` at 0: the rounds left, the transitions,
-- `i`, `inst` and the class.
pub init_inner : ℕ → Transitions → ℕ → Option ℕ → Class → Run InitStep
init_inner zero trans i inst c = ok (InitStep.searching i inst c)
init_inner (suc n) trans i inst c = do
  t ← read trans 0
  elim (has_flag t.flags trans_init) [
    | false ↦ init_inner n trans (i + 1) inst c
    | true ↦ do
      (error, out, c') ← instance_new c zero_key t.to
      elim error [
        | Error.success ↦ ok (InitStep.searching i out c')
        | e ↦ ok (InitStep.refused e c')
      ]
  ]

-- The outer loop over the alphabet. Each round raises `i`, so as many rounds as the alphabet has
-- symbols are enough.
pub init_outer : ℕ → Automaton → ℕ → Option ℕ → Class → Run InitStep
init_outer zero a i inst c = ok (InitStep.searching i inst c)
init_outer (suc n) a i inst c = elim (ltb i a.alphabet_size) [
  | false ↦ ok (InitStep.searching i inst c)
  | true ↦ do
    trans ← read a.transitions i
    step ← init_inner (length trans - i) trans i inst c
    elim step [
      | InitStep.searching i' inst' c' ↦ init_outer n a (i' + 1) inst' c'
      | InitStep.refused e c' ↦ ok (InitStep.refused e c')
    ]
]

-- "Late initialisation: find the init transition and pretend it has already been taken."
pub late_init : ℕ → ℕ → Automaton → Class → Run (Flow (Class × List Output))
late_init ci symbol a c = do
  step ← init_outer a.alphabet_size a 0 none c
  elim step [
    | InitStep.refused e c' ↦
        ok (Flow.returned c' (Output.event (Event.err a symbol e Message.init_failed) ∷ []))
    | InitStep.searching i none c' ↦ ok (
        Flow.returned c'
          (Output.event (Event.err a symbol Error.einval Message.no_init_transition) ∷ []))
    | InitStep.searching i (some inst) c' ↦ do
      new ← read c'.instances inst
      assert (instance_active new)
      ok (Flow.goes (c', Output.event (Event.new_instance ci inst) ∷ []))
  ]

-- What an evaluation has to unfold.
unfoldable pub init_code : Unit {0}
unfolding init_inner init_outer late_init class_code
init_code = tt

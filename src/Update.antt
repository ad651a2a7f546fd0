-- ===== src/Update.antt =====
-- `tesla_update_class_state` of libtesla/src/tesla_update.c: what an event does to a class.
pub mod Named
pub mod Visit
pub mod Early
pub mod Clones
pub mod Invariant
use Prim.Native.Char.{code}
use tesla.Base.{
  Bool, List, Run, [], assert, at_address, bad_address, false, fault, if◌then◌else◌, leb, length,
  ltb, not, ok, read, set, suc, true, zero, ℕ, ◌++◌, ◌+◌, ◌-◌, ◌==◌, ◌>>=◌, ◌>>◌, ◌||◌, ◌∷◌,
}
use tesla.Action.{Action, action, action_code, has_flag, masked}
use tesla.Class.{class_reset, instance_clear, instance_clone}
use tesla.Init.{Flow}
use tesla.Key.{key_union}
use tesla.Types.{
  Automaton, Class, Env, Error, Event, Instance, Key, Message, Output, Transition, Transitions,
  trans_cleanup,
}

pub record Clone : Type 0 where
  pub old : ℕ
  pub transition : Transition

-- The variables of the loop over the instances.
pub record Scan : Type 0 where
  pub cls : Class
  pub expected : ℕ
  pub clones : List Clone
  pub matched : Bool
  pub cleanup : Bool
  pub out : List Output

-- What an event is to a class: the class's index, the automaton, `max_clones`, the symbol, the
-- pattern and the transitions of the symbol.
pub record Step : Type 0 where
  pub ci : ℕ
  pub autom : Automaton
  pub max_clones : ℕ
  pub symbol : ℕ
  pub pattern : Key
  pub trans : Transitions

-- The debug build's search for the target of a join.
pub join_target : ℕ → List Instance → ℕ → Run Bool
join_target zero l state = ok false
join_target (suc n) [] state = fault bad_address
join_target (suc n) (x ∷ l) state =
    let rest = join_target n l state in if x.state == state then ok true else rest

abbrev pub set_instance : Class → ℕ → Instance → Class
set_instance c i x = record c { instances = set c.instances i x }

abbrev pub is_cleanup : Transition → Bool
is_cleanup t = has_flag t.flags trans_cleanup

abbrev pub emit_if : Bool → Event → List Output
emit_if b e = if b then Output.event e ∷ [] else []

-- The cases of the `switch` that do not clone. `expected` never falls below 0, since the loop
-- runs only while it is positive.
pub apply : Env → Step → Scan → ℕ → Instance → Action → Run (Flow Scan)
apply env e s i inst Action.ignore = ok (Flow.goes s)
apply env e s i inst Action.fail = ok (
    Flow.goes (record s {
      expected = s.expected - 1;
      out = s.out ++ Output.event (Event.bad_transition e.ci i e.symbol) ∷ [];
    }))
apply env e s i inst (Action.update t) = ok (
    Flow.goes (record s {
      cls = set_instance s.cls i (record inst { state = t.to });
      expected = s.expected - 1;
      matched = true;
      cleanup = s.cleanup || is_cleanup t;
      out =
          s.out
          ++ (emit_if env.have_transitions (Event.transition e.ci i t)
              ++ emit_if (is_cleanup t) (Event.accept e.ci i));
    }))
apply env e s i inst (Action.fork t) =
    if leb e.max_clones (length s.clones)
    then ok (
        Flow.returned s.cls (
          s.out
          ++ Output.event (Event.err e.autom e.symbol Error.enomem Message.too_many_clones) ∷ []))
    else ok (
        Flow.goes (record s {
          expected = s.expected - 1;
          clones = s.clones ++ record { old = i; transition = t } ∷ [];
          matched = true;
          cleanup = s.cleanup || is_cleanup t;
        }))
apply env e s i inst (Action.join t) = do
  found ← join_target s.cls.limit s.cls.instances t.to
  assert found
  ok (
      Flow.goes (record s {
        cls = set_instance s.cls i (instance_clear inst);
        expected = s.expected - 1;
        cleanup = s.cleanup || is_cleanup t;
      }))

-- The body of the loop.
pub visit : Env → Step → Scan → ℕ → Run (Flow Scan)
visit env e s i = do
  inst ← read s.cls.instances i
  a ← action inst e.pattern e.trans
  apply env e s i inst a

-- The loop over the instances: the rounds left and the index.
pub scan : Env → Step → ℕ → ℕ → Scan → Run (Flow Scan)
scan env e zero i s = ok (Flow.goes s)
scan env e (suc n) i s = elim (ltb 0 s.expected) [
  | false ↦ ok (Flow.goes s)
  | true ↦ do
    r ← visit env e s i
    elim r [
      | Flow.goes s' ↦ scan env e n (i + 1) s'
      | Flow.returned c out ↦ ok (Flow.returned c out)
    ]
]

-- The clone takes the variables that the event has and the transition's target wants.
pub name_clone : Step → Clone → Class → ℕ → Instance → Run (Flow (Class × List Output))
name_clone e clone c i new =
    let (code, key) = key_union new.key (masked e.pattern clone.transition.to_mask) in
    elim code [
      | Error.success ↦ ok (
          Flow.goes (
            set_instance c i (record { key = key; state = clone.transition.to }),
            Output.event (Event.clone e.ci clone.old i clone.transition)
                ∷ emit_if (is_cleanup clone.transition) (Event.accept e.ci i),
          ))
      | code' ↦ ok (
          Flow.returned (set_instance c i (record new { key = key }))
            (Output.event (Event.err e.autom e.symbol code' Message.union_failed) ∷ []))
    ]

-- One round of "Move any clones into the class."
pub add_clone : Step → Class → Clone → Run (Flow (Class × List Output))
add_clone e c clone = do
  old ← read c.instances clone.old
  (error, slot, c') ← instance_clone c old
  elim error [
    | Error.success ↦ do i ← at_address slot; new ← read c'.instances i; name_clone e clone c' i new
    | error' ↦ ok (
        Flow.returned c'
          (Output.event (Event.err e.autom e.symbol error' Message.clone_failed) ∷ []))
  ]

pub add_clones : Step → Class → List Clone → List Output → Run (Flow (Class × List Output))
add_clones e c [] out = ok (Flow.goes (c, out))
add_clones e c (clone ∷ clones) out = do
  r ← add_clone e c clone
  elim r [
    | Flow.goes (c', out') ↦ add_clones e c' clones (out ++ out')
    | Flow.returned c' out' ↦ ok (Flow.returned c' (out ++ out'))
  ]

-- What follows the two loops.
pub finish : Step → Scan → Class → List Output → Run (Class × List Output)
finish e s c out = do
  let out' = out ++ emit_if (not s.matched) (Event.no_instance e.ci e.symbol e.pattern)
  elim s.cleanup [ false ↦ ok (c, out') | true ↦ do c' ← class_reset c; ok (c', out') ]

-- The variables before the loop.
abbrev pub begin_scan : Class → Scan
begin_scan c = record {
  cls = c;
  expected = c.limit - c.free;
  clones = [];
  matched = false;
  cleanup = false;
  out = [];
}

-- What follows the loop over the clones, and what follows the loop over the instances.
pub conclude : Step → Scan → Flow (Class × List Output) → Run (Class × List Output)
conclude e s (Flow.returned c out) = ok (c, out)
conclude e s (Flow.goes (c, out)) = finish e s c out

pub proceed : Step → Flow Scan → Run (Class × List Output)
proceed e (Flow.returned c out) = ok (c, out)
proceed e (Flow.goes s) = do r ← add_clones e s.cls s.clones s.out; conclude e s r

-- The function from `matched_something` on: the class as it leaves it, and what it emits.
pub update_instances : Env → Step → Class → Run (Class × List Output)
update_instances env e c = do
  assert (ltb 0 (length e.trans))
  assert (ltb (length e.trans) 10000)
  r ← scan env e c.limit 0 (begin_scan c)
  proceed e r

-- What an evaluation has to unfold.
unfoldable pub update_code : Unit {0}
unfolding proceed conclude join_target apply visit scan name_clone add_clone add_clones finish
    update_instances action_code
update_code = tt

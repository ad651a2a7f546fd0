-- ===== src/Action.antt =====
-- `tesla_action` of libtesla/src/tesla_update.c: what an event means for one instance.
pub mod Decides
pub mod Fork
pub mod Keyless
use tesla.Base.{
  Bool, Option, Run, [], assertion, bit_and, bit_or, false, fault, if◌then◌else◌, none, not, ok,
  some, true, ℕ, ◌&&◌, ◌==◌, ◌∷◌,
}
use tesla.Base.Bits.{subset}
use tesla.Class.{class_code, instance_active}
use tesla.Key.{key_matches}
use tesla.Types.{Instance, Key, Transition, Transitions, trans_cleanup}

-- What `tesla_action` decides; a constructor with a transition sets `*trigger`.
pub data Action : Type 0 where
  update : Transition → Action
  fork : Transition → Action
  join : Transition → Action
  ignore : Action
  fail : Action

abbrev pub has_flag : ℕ → ℕ → Bool
has_flag flags flag = not (bit_and flags flag == 0)

-- `pattern.tk_mask &= from_mask`
abbrev pub masked : Key → ℕ → Key
masked k m = record k { mask = bit_and k.mask m }

-- The body of the loop for a transition out of the instance's state: what it decides, if anything.
pub match_transition : Instance → Key → Transition → Option Action
match_transition inst event_data t =
    let pattern = masked event_data t.from_mask in
    if not (subset t.from_mask t.to_mask) && not (has_flag t.flags trans_cleanup)
    then some (Action.join t)
    else if subset t.to_mask t.from_mask
    then (if key_matches pattern (masked inst.key (bit_or pattern.mask pattern.freemask))
        then some (Action.update t)
        else none)
    else (if key_matches pattern inst.key then some (Action.fork t) else none)

-- The loop over the transitions, with the flag `ignore`.
pub action_from : Instance → Key → Transitions → Bool → Run Action
action_from inst event_data [] ignoring = ok (if ignoring then Action.ignore else Action.fail)
action_from inst event_data (t ∷ ts) ignoring = elim (t.from == inst.state) [
  | true ↦ elim (inst.key.mask == t.from_mask) [
    | false ↦ fault assertion
    | true ↦ elim (match_transition inst event_data t) [
      | some a ↦ ok a
      | none ↦ action_from inst event_data ts ignoring
    ]
  ]
  | false ↦ action_from inst event_data ts (ignoring && not (key_matches event_data inst.key))
]

-- `tesla_action`
pub action : Instance → Key → Transitions → Run Action
action inst event_data trans =
    if not (instance_active inst) then ok Action.ignore else action_from inst event_data trans true

-- What an evaluation has to unfold.
unfoldable pub action_code : Unit {0}
unfolding match_transition action_from action class_code
action_code = tt

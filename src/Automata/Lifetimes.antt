-- ===== src/Automata/Lifetimes.antt =====
-- `Automaton::Lifetime` of tesla/common/Automaton.cpp, and its comparison, by the messages of its two
-- transitions.
pub mod Same
use tesla.Base.{
  Bool, Option, Run, bad_address, false, fault, if◌then◌else◌, none, ok, some, true, ◌&&◌, ◌>>=◌,
}
use tesla.Automata.{Label, automata_code, equivalent, has_message}
use tesla.Ir.{DescriptionContext}

pub record AutomatonLifetime : Type 0 where
  pub context : DescriptionContext
  pub init : Option Label
  pub cleanup : Option Label

pub context_eq : DescriptionContext → DescriptionContext → Bool
context_eq DescriptionContext.global DescriptionContext.global = true
context_eq DescriptionContext.thread_local DescriptionContext.thread_local = true
context_eq _ _ = false

-- The comparison of two messages, through pointers that are null where there is no message.
pub message_eq : Label → Label → Run Bool
message_eq l m = if has_message l && has_message m then ok (equivalent l m) else fault bad_address

pub end_eq : Option Label → Option Label → Run Bool
end_eq none none = ok true
end_eq (some l) (some m) = message_eq l m
end_eq _ _ = ok false

-- `operator ==`
pub automaton_lifetime_eq : AutomatonLifetime → AutomatonLifetime → Run Bool
automaton_lifetime_eq x y =
    if context_eq x.context y.context
    then end_eq x.init y.init >>= (λ same. if same then end_eq x.cleanup y.cleanup else ok false)
    else ok false

-- What an evaluation has to unfold.
unfoldable pub lifetimes_code : Unit {0}
unfolding context_eq message_eq end_eq automaton_lifetime_eq has_message automata_code
lifetimes_code = tt

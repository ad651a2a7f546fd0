-- ===== src/Automata/Classes.antt =====
-- `Transition::GroupClasses`, and `Automaton::Init`, `Cleanup`, `getLifetime` and `IsRealisable` of
-- tesla/common/Automaton.cpp. `begin` is what a class's `begin()` points to, as LLVM's SmallPtrSet
-- has its own order.
pub mod Grouping
pub mod Partition
use tesla.Base.{
  Bool, List, Option, Run, [], assert, at_address, false, if◌then◌else◌, length, none, ok, some,
  true, ℕ, ◌&&◌, ◌++◌, ◌-◌, ◌>>=◌, ◌>>◌, ◌^◌, ◌∷◌,
}
use tesla.Automata.{GraphTransition, automata_code, equivalent, is_realisable}

-- `TEquivalenceClass`: the transitions in the order of their insertion
pub record EquivalenceClass : Type 0 where
  pub symbol : ℕ
  pub transitions : List GraphTransition

abbrev null_symbol : ℕ
null_symbol = 2 ^ 32 - 1

module _ (begin : List GraphTransition → Option GraphTransition) where
  -- Adds a transition to the first class whose head it is equivalent to, or to a new class.
  pub insert : GraphTransition → List EquivalenceClass → ℕ → Run (List EquivalenceClass)
  insert t [] size = ok (record { symbol = size; transitions = t ∷ [] } ∷ [])
  insert t (c ∷ cs) size = do
    head ← at_address (begin c.transitions)
    elim (equivalent t.label head.label) [
      | true ↦ do
        assert (equivalent head.label t.label)
        ok (record c { transitions = c.transitions ++ t ∷ [] } ∷ cs)
      | false ↦ do rest ← insert t cs size; ok (c ∷ rest)
    ]

  pub group_classes : List GraphTransition → List EquivalenceClass → Run (List EquivalenceClass)
  group_classes [] cs = ok cs
  group_classes (t ∷ ts) cs = insert t cs (length cs) >>= group_classes ts

  -- `Automaton::Init`
  find_init : List EquivalenceClass → Run (Option GraphTransition)
  find_init [] = ok none
  find_init (c ∷ cs) = do
    head ← at_address (begin c.transitions)
    if head.init then ok (some head) else find_init cs

  -- `Automaton::Cleanup`
  pub find_cleanup : List EquivalenceClass → Run EquivalenceClass
  find_cleanup [] = ok (record { symbol = null_symbol; transitions = [] })
  find_cleanup (c ∷ cs) = do
    head ← at_address (begin c.transitions)
    if head.cleanup then ok c else find_cleanup cs

  -- `getLifetime`, less the context
  pub automaton_lifetime :
      List EquivalenceClass → Run (Option GraphTransition × Option GraphTransition)
  automaton_lifetime cs = do
    c ← find_cleanup cs
    first ← find_init cs
    ok (first, begin c.transitions)

-- `Automaton::IsRealisable`
all_realisable : List GraphTransition → Bool
all_realisable [] = true
all_realisable (t ∷ ts) = is_realisable t.label && all_realisable ts

pub automaton_realisable : List EquivalenceClass → Bool
automaton_realisable [] = true
automaton_realisable (c ∷ cs) = all_realisable c.transitions && automaton_realisable cs

-- What an evaluation has to unfold.
unfoldable pub classes_code : Unit {0}
unfolding insert group_classes find_init find_cleanup automaton_lifetime all_realisable
    automaton_realisable automata_code
classes_code = tt

-- ===== src/Dfa/Build/Book.antt =====
-- What `DFABuilder` keeps right about its states: the sets they stand for, and the transitions of the
-- ones that are done.
use mathlib.Core.List.{Memᴰ}
use tesla.Base.{Bool, List, contains, false, get_elem?, length, some, true, ℕ, ◌↔◌, ◌≡◌, ◌⊎◌}
use tesla.Automata.{GraphTransition, equivalent, is_null}
use tesla.Automata.Graph.{Graph}
use tesla.Dfa.{StateSet, has_state, members_from}
use tesla.Dfa.Build.{Builder, Unfinished, all_out}
use tesla.Dfa.Build.Via.{Via}
use tesla.Dfa.Marks.{accepts}
use tesla.Dfa.Reach.{Solid}

-- The DFA state `i` stands for the set.
abbrev pub SetOf : Builder → ℕ → StateSet → Type 0
SetOf b i ns = get_elem? b.known_sets i ≡ some ns

-- A transition of the DFA that leaves `d`.
pub record Leaves (g : Graph) (d : ℕ) (e : GraphTransition) : Type 0 where
  pub member : Memᴰ e g.transitions
  pub source : e.from ≡ d

-- A set is as wide as the NFA, and a flag is set if a member accepts that no epsilon transition
-- leads to.
pub record SetFits (nfa : Graph) (ns : StateSet) (final : Bool) : Type 0 where
  pub wide : length ns ≡ length nfa.states
  pub accepting :
      (j : ℕ) → has_state ns j ≡ true → accepts nfa j ≡ true → Solid nfa j → final ≡ true

-- The transition leads to the set of all that the transitions of its label lead to.
pub record Exact (nfa : Graph) (b : Builder) (outs : List GraphTransition) (e : GraphTransition)
    : Type 0 where
  pub solid : is_null e.label ≡ false
  pub target : StateSet
  pub at : SetOf b e.to target
  pub same : (j : ℕ) → has_state target j ≡ true ↔ Via nfa outs e.label j

-- The DFA state has a transition for each of the NFA's from its members, and no others.
pub record Done (depth : ℕ) (nfa : Graph) (b : Builder) (d : ℕ) : Type 0 where
  pub members : StateSet
  pub at : SetOf b d members
  pub onto :
      (t : GraphTransition)
      → Memᴰ t (all_out depth nfa (members_from 0 members))
      → is_null t.label ≡ false
      → (e : GraphTransition) × Leaves b.graph d e × (equivalent t.label e.label ≡ true)
  pub exact :
      (e : GraphTransition)
      → Leaves b.graph d e
      → Exact nfa b (all_out depth nfa (members_from 0 members)) e

-- A builder that has more sets, and the same transitions from `d`.
pub record Onward (d : ℕ) (b b' : Builder) : Type 0 where
  pub sets : (i : ℕ) (ns : StateSet) → SetOf b i ns → SetOf b' i ns
  pub still : (e : GraphTransition) → Leaves b.graph d e → Leaves b'.graph d e
  pub back : (e : GraphTransition) → Leaves b'.graph d e → Leaves b.graph d e

pub Exact-Onward :
    (nfa : Graph) (b b' : Builder) (outs : List GraphTransition) (e : GraphTransition)
    → ((i : ℕ) (ns : StateSet) → SetOf b i ns → SetOf b' i ns)
    → Exact nfa b outs e
    → Exact nfa b' outs e
Exact-Onward nfa b b' outs e sets x = record {
  solid = x.solid;
  target = x.target;
  at = sets e.to x.target x.at;
  same = x.same;
}

pub Done-Onward :
    (depth : ℕ) (nfa : Graph) (b b' : Builder) (d : ℕ)
    → Onward d b b'
    → Done depth nfa b d
    → Done depth nfa b' d
Done-Onward depth nfa b b' d on done = record {
  members = done.members;
  at = on.sets d done.members done.at;
  onto = λ t m solid. let (e, leaves, same) = done.onto t m solid in (e, on.still e leaves, same);
  exact = λ e leaves.
      Exact-Onward nfa b b' (all_out depth nfa (members_from 0 done.members)) e on.sets
        (done.exact e (on.back e leaves));
}

-- `done` are the DFA states that are done, and `extra` the sets that are neither finished nor
-- unfinished.
pub record Book (depth : ℕ) (nfa : Graph) (first : StateSet) (done : List ℕ)
    (extra : StateSet → Type 0) (b : Builder) : Type 0 where
  pub begins : SetOf b 0 first
  pub distinct : (i j : ℕ) (ns : StateSet) → SetOf b i ns → SetOf b j ns → i ≡ j
  pub aligned : length b.known_sets ≡ length b.graph.states
  pub fits : (i : ℕ) (ns : StateSet) → SetOf b i ns → SetFits nfa ns (accepts b.graph i)
  pub fits_later : (u : Unfinished) → Memᴰ u b.unfinished → SetFits nfa u.members u.final
  pub waiting :
      (i : ℕ) (ns : StateSet)
      → SetOf b i ns
      → (contains b.finished i ≡ true)
        ⊎ (((u : Unfinished) × Memᴰ u b.unfinished × (u.members ≡ ns)) ⊎ extra ns)
  pub origin :
      (e : GraphTransition) → Memᴰ e b.graph.transitions → contains b.finished e.from ≡ true
  pub settled : (d : ℕ) → contains done d ≡ true → Done depth nfa b d

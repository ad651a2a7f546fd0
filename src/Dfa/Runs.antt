-- ===== src/Dfa/Runs.antt =====
-- What an automaton does with a word of events, whose last one stands first. An event is a label, and
-- a transition takes it if its label is equivalent.
use mathlib.Core.List.{Memᴰ}
use tesla.Base.{List, [], false, get_elem?, length, some, true, ℕ, ◌^◌, ◌↔◌, ◌∷◌, ◌≡◌, ◌≤◌}
use tesla.Automata.{GraphTransition, Label, equivalent, is_null}
use tesla.Automata.Graph.{Graph, out_of}
use tesla.Dfa.{StateSet, has_state}
use tesla.Dfa.Build.{Builder}
use tesla.Dfa.Marks.{accepts}
use tesla.Dfa.Reach.{EpsilonPath, Solid}

-- The NFA can be in the state `j` after the word.
pub data NfaRun (g : Graph) : List Label → ℕ → Type 0 where
  begin : {j : ℕ} → EpsilonPath g 0 j → NfaRun g [] j
  event :
      {l : Label} {w : List Label} {i j : ℕ}
      → NfaRun g w i
      → (t : GraphTransition) → Memᴰ t (out_of i g.transitions)
      → is_null t.label ≡ false
      → equivalent t.label l ≡ true
      → EpsilonPath g t.to j
      → NfaRun g (l ∷ w) j

-- The DFA can be in the state `d` after the word.
pub data DfaRun (g : Graph) : List Label → ℕ → Type 0 where
  begin : DfaRun g [] 0
  event :
      {l : Label} {w : List Label} {c : ℕ}
      → DfaRun g w c
      → (e : GraphTransition) → Memᴰ e (out_of c g.transitions)
      → equivalent e.label l ≡ true
      → DfaRun g (l ∷ w) e.to

-- The DFA `b` does what the NFA does: its state after a word stands for the states of the NFA after it,
-- there is one wherever the NFA has one, only one, and it accepts where the NFA can be in a state that
-- accepts and that no epsilon transition leads to (of a state that only epsilon transitions lead to,
-- `collectFrontier` drops the flag). For `n` states of the NFA it has `2 ^ n` at most.
pub record Simulates (nfa : Graph) (b : Builder) : Type 0 where
  pub few : length b.graph.states ≤ 2 ^ length nfa.states
  pub exact :
      (w : List Label) (d : ℕ)
      → DfaRun b.graph w d
      → (ns : StateSet) × (get_elem? b.known_sets d ≡ some ns)
        × ((j : ℕ) → has_state ns j ≡ true ↔ NfaRun nfa w j)
  pub follows : (w : List Label) (j : ℕ) → NfaRun nfa w j → (d : ℕ) × DfaRun b.graph w d
  pub one : (w : List Label) (c d : ℕ) → DfaRun b.graph w c → DfaRun b.graph w d → c ≡ d
  pub accepting :
      (w : List Label) (j d : ℕ)
      → NfaRun nfa w j
      → accepts nfa j ≡ true
      → Solid nfa j
      → DfaRun b.graph w d
      → accepts b.graph d ≡ true

-- The last step of a run.
pub NfaRun-last :
    {g : Graph} {l : Label} {w : List Label} {j : ℕ}
    → NfaRun g (l ∷ w) j
    → (i : ℕ) × NfaRun g w i
      × (t : GraphTransition) × Memᴰ t (out_of i g.transitions)
      × (is_null t.label ≡ false)
      × (equivalent t.label l ≡ true)
      × EpsilonPath g t.to j
NfaRun-last (NfaRun.event {i = i} run t m solid e path) = (i, run, t, m, solid, e, path)

pub NfaRun-empty : {g : Graph} {j : ℕ} → NfaRun g [] j → EpsilonPath g 0 j
NfaRun-empty (NfaRun.begin path) = path

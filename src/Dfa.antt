-- ===== src/Dfa.antt =====
-- tesla/common/Automaton.cpp: `DFABuilder`. A `std::set` of NFA states is the list of its
-- membership tests, one for each NFA state. The names of DFA states, which only print, are left out.
pub mod Build
pub mod Marks
pub mod Reach
pub mod Endless
pub mod Sets
pub mod Layers
pub mod Runs
use tesla.Base.{
  Bool, List, Run, [], each_run, exhausted, false, fault, get_or, if◌then◌else◌, ok, read, set, suc,
  true, zero, ℕ, ◌+◌, ◌>>=◌, ◌||◌, ◌∷◌,
}
use tesla.Automata.{is_null}
use tesla.Automata.Graph.{Graph, GraphState, out_of}

abbrev pub StateSet : Type 0
StateSet = List Bool

abbrev pub has_state : StateSet → ℕ → Bool
has_state ns s = get_or ns s false

-- The references that `collectFrontier` changes.
pub record Frontier : Type 0 where
  pub members : StateSet
  pub start : Bool
  pub final : Bool

-- `N.insert(S->ID())` and the flags of the state
pub join_frontier : ℕ → GraphState → Frontier → Frontier
join_frontier s state f = record {
  members = set f.members s true;
  start = f.start || state.start;
  final = f.final || state.accept;
}

-- The `collectFrontier` of two arguments, for the one of four: it has flags of its own and drops them.
pub collect_members : (Frontier → Run Frontier) → Frontier → Run Frontier
collect_members collect f = do
  r ← collect (record { members = f.members; start = true; final = true })
  ok (record f { members = r.members })

-- The `collectFrontier` of four arguments, with the depth of its recursion: it follows an epsilon
-- transition by the one of two.
pub collect_frontier : ℕ → Graph → ℕ → Frontier → Run Frontier
collect_frontier zero g s f = fault exhausted
collect_frontier (suc depth) g s f = do
  state ← read g.states s
  each_run
      (λ t f'.
        if is_null t.label then collect_members (collect_frontier depth g t.to) f' else ok f')
      (out_of s g.transitions) (join_frontier s state f)

-- The members of a set, in order from `i`.
pub members_from : ℕ → StateSet → List ℕ
members_from i [] = []
members_from i (true ∷ ns) = i ∷ members_from (i + 1) ns
members_from i (false ∷ ns) = members_from (i + 1) ns

-- What an evaluation has to unfold.
unfoldable pub dfa_code : Unit {0}
unfolding join_frontier collect_members collect_frontier members_from
dfa_code = tt

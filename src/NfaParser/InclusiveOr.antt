-- ===== src/NfaParser/InclusiveOr.antt =====
-- tesla/common/Automaton.cpp: `ConvertIncOrToExcOr` and what it calls.
pub mod Safety
pub mod Grid
pub mod Ends
use tesla.Base.{
  Bool, List, Option, Run, [], at_address, bad_address, each_run, exhausted, false, fault,
  if◌then◌else◌, length, ltb, none, ok, some, suc, true, zero, ℕ, ◌++◌, ◌==◌, ◌>>=◌, ◌||◌, ◌∷◌,
}
use tesla.Automata.{GraphTransition, Label, is_null}
use tesla.Automata.Graph.{Graph, build_state, copy, create, graph_code, out_of}

-- `find(Ts.begin(), Ts.end(), T)`: by the pointer
abbrev pub seen : List GraphTransition → ℕ → Bool
seen [] a = false
seen (t ∷ ts) a = t.address == a || seen ts a

-- `CalculateReachableTransitionsBetween`. Each level of the recursion has a new transition.
pub reachable_between : ℕ → Graph → ℕ → List GraphTransition → ℕ → Run (List GraphTransition)
reachable_between zero g end ts start = fault exhausted
reachable_between (suc fuel) g end ts start =
    if start == end
    then ok ts
    else each_run
        (λ t found.
          if seen found t.address
          then ok found
          else reachable_between fuel g end (found ++ t ∷ []) t.to)
        (out_of start g.transitions) ts

-- `stateMap`: the copies of states
abbrev pub StateMap : Type 0
StateMap = List (ℕ × ℕ)

abbrev pub mapped : StateMap → ℕ → Option ℕ
mapped [] s = none
mapped ((a, b) ∷ m) s = if a == s then some b else mapped m s

pub take_or_make : Option ℕ → ℕ → StateMap → Graph → ℕ × StateMap × Graph
take_or_make (some n) s m g = (n, m, g)
take_or_make none s m g = let (n, g') = build_state false false none g in (n, (s, n) ∷ m, g')

-- The copy of a state, made when it is first needed.
pub copy_state : ℕ → StateMap → Graph → ℕ × StateMap × Graph
copy_state s m g = take_or_make (mapped m s) s m g

abbrev pub last_of : List GraphTransition → Option GraphTransition
last_of [] = none
last_of (t ∷ []) = some t
last_of (t ∷ u ∷ ts) = last_of (u ∷ ts)

pub record ChainCopy : Type 0 where
  pub states : StateMap
  pub graph : Graph
  pub clone : List GraphTransition

pub copy_between : GraphTransition → ℕ → ℕ → Graph → Run Graph
copy_between t from to g =
    if is_null t.label then create Label.null false false from to g else copy from to t false g

-- A transition of the chain, between the copies of its states.
pub copy_link : GraphTransition → ChainCopy → Run ChainCopy
copy_link t c =
    let (from, m, g) = copy_state t.from c.states c.graph in
    let (to, m', g') = copy_state t.to m g in
    do
      copied ← copy_between t from to g'
      back ← at_address (last_of copied.transitions)
      ok (record { states = m'; graph = copied; clone = c.clone ++ back ∷ [] })

-- `CreateTransitionChainCopy`
pub copy_chain : List GraphTransition → ℕ → ℕ → Graph → Run ChainCopy
copy_chain chain old_start new_start g =
    each_run copy_link chain
      (record { states = (old_start, new_start) ∷ []; graph = g; clone = [] })

-- A row of the grid: the destination of each column, where the first column is not set.
abbrev pub Row : Type 0
Row = List ℕ

pub first_row : List GraphTransition → Row
first_row [] = []
first_row (t ∷ ts) = t.to ∷ first_row ts

-- An epsilon transition, where there is to be one.
pub epsilon_if : Bool → ℕ → ℕ → Graph → Run Graph
epsilon_if true from end g = create Label.null false false from end g
epsilon_if false from end g = ok g

-- The columns of a row: the copy of `t` from each state of the row above, and its new row. `last` is
-- the last row.
pub fill_row : GraphTransition → ℕ → Bool → Row → List GraphTransition → Graph → Run (Row × Graph)
fill_row t end last above [] g = ok ([], g)
fill_row t end last [] (copied ∷ rest) g = fault bad_address
fill_row t end last (source ∷ above) (copied ∷ rest) g = do
  g₁ ← copy source copied.to t false g
  g₂ ← epsilon_if (last || ltb (length rest) 1) copied.to end g₁
  (row, g₃) ← fill_row t end last above rest g₂
  ok (copied.to ∷ row, g₃)

-- The rows of the grid, one for each transition of the left side.
pub fill_grid : List GraphTransition → List GraphTransition → ℕ → ℕ → Row → Graph → Run Graph
fill_grid [] rhs rhs_start end above g = ok g
fill_grid (t ∷ lhs) rhs rhs_start end above g = do
  c ← copy_chain rhs rhs_start t.to g
  (row, g') ← fill_row t end (ltb (length lhs) 1) above c.clone c.graph
  fill_grid lhs rhs rhs_start end row g'

-- `ConvertIncOrToExcOr`; `xor_only` is `SuppressInclusiveOr`.
pub convert_inclusive_or : Bool → ℕ → ℕ → ℕ → ℕ → ℕ → Graph → Run Graph
convert_inclusive_or true lhs_start rhs_start lhs_final rhs_final end g = ok g
convert_inclusive_or false lhs_start rhs_start lhs_final rhs_final end g =
    let fuel = suc (length g.transitions) in
    do
      lhs ← reachable_between fuel g lhs_final [] lhs_start
      rhs ← reachable_between fuel g rhs_final [] rhs_start
      fill_grid lhs rhs rhs_start end (first_row rhs) g

-- What an evaluation has to unfold.
unfoldable pub or_code : Unit {0}
unfolding convert_inclusive_or copy_between copy_chain copy_link copy_state epsilon_if fill_grid
    fill_row first_row reachable_between take_or_make graph_code
or_code = tt

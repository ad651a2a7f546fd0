-- ===== src/Instrument/Followed.antt =====
-- `tesla_action` on the tables of an automaton without variables: it follows the NFA.
use mathlib.Core.List.{Memᴰ}
use mathlib.Core.Option.{some-injective}
use mathlib.Core.Path.{subst}
use tesla.Base.{
  List, ap, get_elem?, inl, inr, length, ok, refl, some, sym, true, ℕ, ◌<◌, ◌∙◌, ◌∷◌, ◌≡◌, ◌⊎◌,
}
use tesla.Action.{Action, action}
use tesla.Action.Keyless.{action-keyless, keyless, keyless-row}
use tesla.Automata.{Label}
use tesla.Automata.Classes.{EquivalenceClass}
use tesla.Automata.Graph.{Graph}
use tesla.Class.{instance_active}
use tesla.Dfa.{StateSet}
use tesla.Dfa.Runs.{NfaRun}
use tesla.Instrument.Compiled.{Compiles}
use tesla.Instrument.Table.{Symbol, TableRun}
use tesla.Types.{Instance, Key, Transition, Transitions}

-- The last step of a run of the tables.
TableRun-last :
    {cs : List EquivalenceClass} {symbols : List Transitions} {l : Label} {w : List Label} {d : ℕ}
    → TableRun cs symbols (l ∷ w) d
    → (c : ℕ) × TableRun cs symbols w c
      × (i : ℕ) × (ts : Transitions) × (tr : Transition) × Symbol cs l i
      × (get_elem? symbols i ≡ some ts)
      × Memᴰ tr ts
      × (tr.from ≡ c)
TableRun-last (TableRun.event {c = c} run i ts tr named at m leaves enters) =
    (c, run, i, ts, tr, named, at, m, leaves)

-- Let tables of an automaton without variables do what an NFA does, and let an instance without a key be
-- in the state to which they lead with a word, which is not 0. An event without a key, whose symbol is
-- that of a label, either moves the instance to the state to which the tables lead with the word and
-- the label, or is a violation, and then the NFA is in no state after the word and the label.
pub action-follows :
    (nfa : Graph) (sets : List StateSet) (cs : List EquivalenceClass) (symbols : List Transitions)
    (inst : Instance) (k : Key) (w : List Label) (l : Label) (i : ℕ) (ts : Transitions)
    → Compiles nfa sets cs symbols
    → keyless symbols ≡ true
    → TableRun cs symbols w inst.state
    → instance_active inst ≡ true
    → inst.key.mask ≡ 0
    → k.mask ≡ 0
    → k.freemask ≡ 0
    → Symbol cs l i
    → get_elem? symbols i ≡ some ts
    → ((t : Transition) × (action inst k ts ≡ ok (Action.update t))
        × TableRun cs symbols (l ∷ w) t.to)
      ⊎ ((action inst k ts ≡ ok Action.fail) × ((j : ℕ) → ¬ NfaRun nfa (l ∷ w) j))
action-follows nfa sets cs symbols inst k w l i ts c empty run active unnamed m f named at =
    let (us, at', some_in) = c.row l i named in
    let same : us ≡ ts = some-injective us ts (sym at' ∙ at) in
    let filled : 0 < length ts = subst (λ r. 0 < length r) same some_in in
    elim (action-keyless inst k ts active unnamed m f (keyless-row symbols i ts empty at) filled) [
      | inl (t, member, leaves, acts) ↦
          inl (t, acts, TableRun.event run i ts t named at member leaves refl)
      | inr (acts, stuck) ↦ inr (
        acts,
        λ j r.
            let (d, next) = c.follows (l ∷ w) j r in
            let (b, before, i', ts', t, named', at'', member, leaves) = TableRun-last next in
            let here : i' ≡ i = c.one_symbol l i' i named' named in
            let row : ts' ≡ ts =
              some-injective ts' ts (sym at'' ∙ ap (get_elem? symbols) here ∙ at) in
            stuck t (subst (Memᴰ t) row member) (leaves ∙ c.one w b inst.state before run),
      )
    ]

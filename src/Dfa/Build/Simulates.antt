-- ===== src/Dfa/Build/Simulates.antt =====
-- The DFA that `ConstructDFA` gives, and the NFA.
use mathlib.Core.List.Memᴰ
use mathlib.Core.List.{Memᴰ}
use mathlib.Core.Option.{some-injective}
use mathlib.Core.Path.{ap₂, subst}
use tesla.Base.{
  Bool-ext, List, [], arith, false, inl, inr, length, refl, suc, sym, true, ℕ, ◌^◌, ◌↔◌, ◌∙◌, ◌∷◌,
  ◌≡◌, ◌≤◌,
}
use tesla.Automata.{GraphTransition, Label, equivalent, is_null}
use tesla.Automata.Equivalent.{equivalent_null, equivalent_symm, equivalent_trans}
use tesla.Automata.Graph.{Graph}
use tesla.Automata.Graph.Out.{out_of-has, out_of-mem}
use tesla.Dfa.{StateSet, has_state, members_from}
use tesla.Dfa.Build.{Builder, all_out}
use tesla.Dfa.Build.Book.{Done, Exact, Leaves, SetOf}
use tesla.Dfa.Build.Finishes.{Kept}
use tesla.Dfa.Build.Via.{Via}
use tesla.Dfa.Build.Outs.{outs-member}
use tesla.Dfa.Reach.{EpsilonPath}
use tesla.Dfa.Runs.{DfaRun, NfaRun, NfaRun-empty, NfaRun-last, Simulates}

-- Every DFA state is done, and the first one stands for the start of the NFA.
pub record Constructed (depth : ℕ) (nfa : Graph) (b : Builder) : Type 0 where
  pub first : StateSet
  pub start : (j : ℕ) → has_state first j ≡ true ↔ EpsilonPath nfa 0 j
  pub book : Kept depth nfa first (λ ns. ⊥) b
  pub finished : b.unfinished ≡ []

module _ (depth : ℕ) (nfa : Graph) (b : Builder) (c : Constructed depth nfa b) where
  known-Done : (d : ℕ) (ns : StateSet) → SetOf b d ns → Done depth nfa b d
  known-Done d ns at = elim (c.book.waiting d ns at) [
    | inl finished ↦ c.book.settled d finished
    | inr (inl (u, m, _)) ↦ absurd (Memᴰ.not-nil (subst (Memᴰ u) c.finished m))
    | inr (inr never) ↦ absurd never
  ]

  -- The members of a state that is done are the set that it stands for.
  members-same :
      (d : ℕ) (ns : StateSet) (h : SetOf b d ns) (k : Done depth nfa b d) → k.members ≡ ns
  members-same d ns h k = some-injective k.members ns (sym k.at ∙ h)

  abbrev Stands : List Label → ℕ → Type 0
  Stands w d = (ns : StateSet) × SetOf b d ns × ((j : ℕ) → has_state ns j ≡ true ↔ NfaRun nfa w j)

  -- A step of the NFA through the transitions of a set.
  NfaRun-Via :
      (ns : StateSet) (w : List Label) (l m : Label)
      → ((i : ℕ) → has_state ns i ≡ true ↔ NfaRun nfa w i)
      → equivalent m l ≡ true
      → is_null m ≡ false
      → (j : ℕ) → Via nfa (all_out depth nfa (members_from 0 ns)) m j ↔ NfaRun nfa (l ∷ w) j
  NfaRun-Via ns w l m same alike solid j = (
    λ (t, k, e, path).
        let (i, has, out) = (outs-member depth nfa ns t).0 k in
        NfaRun.event ((same i).0 has) t out (equivalent_null t.label m e ∙ solid)
          (equivalent_trans t.label m l e alike) path,
    λ run.
        let (i, before, t, m', hard, e, path) = NfaRun-last run in
        (
          t,
          (outs-member depth nfa ns t).1 (i, (same i).1 before, m'),
          equivalent_trans t.label l m e (equivalent_symm m l alike),
          path,
        ),
  )

  -- A transition of the DFA leads from the states after a word to those after one event more.
  step-Stands :
      (w : List Label) (l : Label) (d : ℕ) (e : GraphTransition)
      → Stands w d
      → Leaves b.graph d e
      → equivalent e.label l ≡ true
      → Stands (l ∷ w) e.to
  step-Stands w l d e (ns, at, same) leaves alike =
      let k = known-Done d ns at in
      let x =
        subst (λ ms. Exact nfa b (all_out depth nfa (members_from 0 ms)) e) (members-same d ns at k)
          (k.exact e leaves) in
      (
        x.target,
        x.at,
        λ j.
            let via = NfaRun-Via ns w l e.label same alike x.solid j in
            (λ h. via.0 ((x.same j).0 h), λ r. (x.same j).1 (via.1 r)),
      )

  DfaRun-Stands : (w : List Label) (d : ℕ) → DfaRun b.graph w d → Stands w d
  DfaRun-Stands _ _ DfaRun.begin = (
    c.first,
    c.book.begins,
    λ j. (λ h. NfaRun.begin ((c.start j).0 h), λ r. (c.start j).1 (NfaRun-empty r)),
  )
  DfaRun-Stands _ _ (DfaRun.event {l = l} {w = w} {c = d} run e m alike) =
      let (in_graph, source) = out_of-mem d b.graph.transitions e m in
      step-Stands w l d e (DfaRun-Stands w d run) (record { member = in_graph; source = source })
        alike

  DfaRun-follows : (w : List Label) (j : ℕ) → NfaRun nfa w j → (d : ℕ) × DfaRun b.graph w d
  DfaRun-follows _ _ (NfaRun.begin path) = (0, DfaRun.begin)
  DfaRun-follows _ _ (NfaRun.event {l = l} {w = w} {i = i} run t m solid alike path) =
      let (d, before) = DfaRun-follows w i run in
      let (ns, at, same) = DfaRun-Stands w d before in
      let k = known-Done d ns at in
      let out =
        subst (λ ms. Memᴰ t (all_out depth nfa (members_from 0 ms))) (sym (members-same d ns at k))
          ((outs-member depth nfa ns t).1 (i, (same i).1 run, m)) in
      let (e, leaves, twin) = k.onto t out solid in
      (
        e.to,
        DfaRun.event before e (out_of-has d b.graph.transitions e leaves.member leaves.source)
            (equivalent_trans e.label t.label l (equivalent_symm t.label e.label twin) alike),
      )

  -- Sets with the same members are the same.
  same_members :
      (ns ms : StateSet)
      → length ns ≡ length ms
      → ((j : ℕ) → has_state ns j ≡ true ↔ has_state ms j ≡ true)
      → ns ≡ ms
  same_members [] [] e f = refl
  same_members [] (m ∷ ms) e f = absurd (omega (arith, e))
  same_members (n ∷ ns) [] e f = absurd (omega (arith, e))
  same_members (n ∷ ns) (m ∷ ms) e f =
      ap₂ (λ x xs. x ∷ xs) (Bool-ext n m (f 0).0 (f 0).1)
        (same_members ns ms (omega (arith, e)) (λ j. f (suc j)))

  DfaRun-one : (w : List Label) (d d' : ℕ) → DfaRun b.graph w d → DfaRun b.graph w d' → d ≡ d'
  DfaRun-one w d d' r r' =
      let (ns, at, same) = DfaRun-Stands w d r in
      let (ms, at', same') = DfaRun-Stands w d' r' in
      let is =
        same_members ns ms ((c.book.fits d ns at).wide ∙ sym (c.book.fits d' ms at').wide)
          (λ j. (λ h. (same' j).1 ((same j).0 h), λ h. (same j).1 ((same' j).0 h))) in
      c.book.distinct d d' ms (subst (SetOf b d) is at) at'

  pub Constructed-Simulates : length b.known_sets ≤ 2 ^ length nfa.states → Simulates nfa b
  Constructed-Simulates few = record {
    few = omega (arith, few, c.book.aligned);
    exact = DfaRun-Stands;
    follows = DfaRun-follows;
    one = DfaRun-one;
    accepting = λ w j d run acc solid r.
        let (ns, at, same) = DfaRun-Stands w d r in
        (c.book.fits d ns at).accepting j ((same j).1 run) acc solid;
  }

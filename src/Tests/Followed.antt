-- ===== src/Tests/Followed.antt =====
-- A compiled automaton at a concrete input.
use mathlib.Core.List.{Memᴰ}
use mathlib.Core.Path.{subst}
use tesla.Base.{
  Fault, List, Returns, Run, [], arith, false, fault, if◌then◌else◌, inl, inr, length, ok,
  ok-injective, ok≢fault, refl, some, sym, true, ℕ, ◌<◌, ◌==◌, ◌^◌, ◌||◌, ◌∙◌, ◌∷◌, ◌≡◌, ◌≢◌, ◌≤◌,
  ◌⊎◌,
}
use tesla.Action.{Action, action}
use tesla.Automata.Classes.{EquivalenceClass}
use tesla.Automata.Classes.Grouping.{InClass}
use tesla.Automata.Equivalent.{equivalent_self}
use tesla.Automata.Graph.{Graph, no_states}
use tesla.Class.{class_code, instance_active}
use tesla.Dfa.{StateSet}
use tesla.Dfa.Build.{build_code}
use tesla.Dfa.Layers.{all_fall-Layered}
use tesla.Dfa.Reach.{Layered}
use tesla.Dfa.Runs.{NfaRun}
use tesla.Instrument.{instrument_code}
use tesla.Instrument.Compiled.{Compiles, compile, compile-Compiles, description-Compiles}
use tesla.Instrument.Followed.{action-follows}
use tesla.Instrument.Table.{TableRun, emit_tables}
use tesla.NfaParser.Whole.{nfa_link, whole_code}
use tesla.Tests.Automata.{
  arrow, between, choice, choice-Layered, choice-Valid, choice_deep, either, f_label, g_label,
  height, same-IsOrder, silent,
}
use tesla.Tests.Sample.{key_of}
use tesla.Types.{Instance, Transition, Transitions}

abbrev sets : List StateSet
sets =
    (true ∷ true ∷ true ∷ false ∷ false ∷ false ∷ [])
    ∷ (false ∷ false ∷ false ∷ true ∷ false ∷ true ∷ [])
    ∷ (false ∷ false ∷ false ∷ false ∷ true ∷ true ∷ [])
    ∷ []

abbrev classes : List EquivalenceClass
classes =
    record { symbol = 0; transitions = arrow 0 f_label 0 1 ∷ [] }
    ∷ record { symbol = 1; transitions = arrow 1 g_label 0 2 ∷ [] }
    ∷ []

abbrev step_to : ℕ → Transition
step_to to = record { from = 0; from_mask = 0; to = to; to_mask = 0; flags = 0 }

abbrev rows : List Transitions
rows = (step_to 1 ∷ []) ∷ (step_to 2 ∷ []) ∷ []

compile_runs : compile 7 64 (λ ts. ts) silent choice ≡ ok (sets, (classes, rows))
unfolding build_code instrument_code emit_tables compile
compile_runs = refl

choice-Compiles : Compiles choice sets classes rows
choice-Compiles =
    elim (compile-Compiles 7 64 (λ ts. ts) silent choice height same-IsOrder choice-Layered
      choice_deep choice-Valid (omega arith) (omega arith) (omega arith)) [
        | inl (out, run, c) ↦
            subst
              (λ (o : List StateSet × (List EquivalenceClass × List Transitions)).
                Compiles choice o.0 (o.1).0 (o.1).1)
              (ok-injective (sym run ∙ compile_runs)) c
        | inr (e, run, _, _) ↦ absurd (ok≢fault (sets, (classes, rows)) e (sym compile_runs ∙ run))
      ]

-- The instance after a call of f, and another call of it.
abbrev called : Instance
called = record { key = key_of 0 0; state = 1 }

after_call : TableRun classes rows (f_label ∷ []) 1
after_call =
    TableRun.event TableRun.begin 0 (step_to 1 ∷ []) (step_to 1)
      (arrow 0 f_label 0 1, InClass.here (Memᴰ.head refl), equivalent_self f_label) refl
      (Memᴰ.head refl) refl refl

active_runs : instance_active called ≡ true
unfolding class_code
active_runs = refl

action-follows_example :
    ((t : Transition) × (action called (key_of 0 0) (step_to 1 ∷ []) ≡ ok (Action.update t))
      × TableRun classes rows (f_label ∷ f_label ∷ []) t.to)
    ⊎ ((action called (key_of 0 0) (step_to 1 ∷ []) ≡ ok Action.fail)
        × ((j : ℕ) → ¬ NfaRun choice (f_label ∷ f_label ∷ []) j))
action-follows_example =
    action-follows choice sets classes rows called (key_of 0 0) (f_label ∷ []) f_label 0
      (step_to 1 ∷ []) choice-Compiles refl after_call active_runs refl refl refl
      (arrow 0 f_label 0 1, InClass.here (Memᴰ.head refl), equivalent_self f_label) refl

-- The automaton of a description, as it is linked.
abbrev graph_of : Run Graph → Graph
graph_of (ok g) = g
graph_of (fault e) = no_states

abbrev either_graph : Graph
either_graph = graph_of (nfa_link 0 5 false (λ id. some either) either (some between))

link_runs : nfa_link 0 5 false (λ id. some either) either (some between) ≡ ok either_graph
unfolding whole_code
link_runs = refl

-- One more for the states that an epsilon transition leaves.
abbrev leaves : ℕ → ℕ
leaves s = if (s == 2 || s == 3) || s == 6 then 0 else 1

either-Layered : Layered either_graph leaves
unfolding whole_code
either-Layered = all_fall-Layered either_graph leaves refl

leaves_few : (s : ℕ) → s < length either_graph.states → leaves s < 2
leaves_few s h = ground arith

few_states : length either_graph.states ≡ 9
unfolding whole_code
few_states = refl

description-Compiles_example :
    Returns
      (compile 2 512 (λ ts. ts) silent either_graph)
      (λ out. Compiles either_graph out.0 (out.1).0 (out.1).1)
    ⊎ ((e : Fault) × (compile 2 512 (λ ts. ts) silent either_graph ≡ fault e)
        × (e ≢ Fault.bad_address)
        × (e ≢ Fault.exhausted))
description-Compiles_example =
    description-Compiles 0 5 2 512 false (λ id. some either) either (some between) (λ ts. ts) silent
      either_graph leaves link_runs same-IsOrder either-Layered leaves_few
      (subst (λ n. 2 ^ n ≤ 512) (sym few_states) (omega arith))
      (subst (λ n. 2 ^ n ≤ 2 ^ 32) (sym few_states) (omega arith))

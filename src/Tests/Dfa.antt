-- ===== src/Tests/Dfa.antt =====
-- DFAs and their tables at concrete inputs.
use tesla.Base.{Fault, Returns, arith, fault, length, ok, refl, ℕ, ◌>>=◌, ◌≡◌, ◌≢◌, ◌⊎◌}
use tesla.Dfa.Build.{Builder, build_code, construct_dfa}
use tesla.Dfa.Build.Meaning.{construct_dfa-Simulates}
use tesla.Dfa.Runs.{Simulates}
use tesla.Tests.Automata.{choice, choice-Layered, choice-Valid, choice_deep, height}

construct_dfa-Simulates_example :
    Returns (construct_dfa 7 choice 64) (Simulates choice)
    ⊎ ((e : Fault) × (construct_dfa 7 choice 64 ≡ fault e)
        × (e ≢ Fault.bad_address)
        × (e ≢ Fault.exhausted))
construct_dfa-Simulates_example =
    construct_dfa-Simulates 7 choice height choice-Layered choice_deep choice-Valid 64 (omega arith)
      (omega arith)

abbrev sizes : Builder → ℕ × ℕ
sizes b = (length b.known_sets, length b.graph.transitions)

-- Three states: the start, and one after a call of each function.
construct_runs : (construct_dfa 7 choice 8 >>= λ b. ok (sizes b)) ≡ ok (3, 2)
unfolding build_code
construct_runs = refl

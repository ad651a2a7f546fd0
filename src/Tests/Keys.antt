-- ===== src/Tests/Keys.antt =====
-- Keys at concrete inputs.
use mathlib.Core.Option.{or_else}
use tesla.Base.{bit_or, refl, true, ℕ, ◌<◌, ◌↔◌, ◌≡◌, ◌⊎◌}
use tesla.Key.{key_code, key_matches, key_union}
use tesla.Key.Match.{Matches, key_matches-Matches}
use tesla.Key.Union.{Clash, key_union-outcome, value}
use tesla.Tests.Sample.{key_of}
use tesla.Types.{Error, key_size}

match_runs : key_matches (key_of 1 7) (key_of 3 7) ≡ true
unfolding key_code
match_runs = refl

key_matches-Matches_example :
    (key_matches (key_of 1 7) (key_of 3 7) ≡ true) ↔ Matches (key_of 1 7) (key_of 3 7)
key_matches-Matches_example = key_matches-Matches (key_of 1 7) (key_of 3 7)

-- Two keys that clash.
union_clashes : (key_union (key_of 1 7) (key_of 1 8)).0 ≡ Error.einval
unfolding key_code
union_clashes = refl

key_union-outcome_example :
    (((key_union (key_of 0 0) (key_of 1 7)).0 ≡ Error.success)
      × ((i : ℕ) → i < key_size → ¬ Clash (key_of 0 0) (key_of 1 7) i)
      × ((i : ℕ)
          → i < key_size
          → value (key_union (key_of 0 0) (key_of 1 7)).1 i
            ≡ or_else (value (key_of 1 7) i) (value (key_of 0 0) i))
      × ((key_union (key_of 0 0) (key_of 1 7)).1.mask ≡ bit_or 0 1)
      × ((key_union (key_of 0 0) (key_of 1 7)).1.freemask ≡ 0))
    ⊎ (((key_union (key_of 0 0) (key_of 1 7)).0 ≡ Error.einval)
        × ((i : ℕ) × (i < key_size) × Clash (key_of 0 0) (key_of 1 7) i)
        × ((i : ℕ) → value (key_union (key_of 0 0) (key_of 1 7)).1 i ≡ value (key_of 0 0) i))
key_union-outcome_example = key_union-outcome (key_of 0 0) (key_of 1 7)

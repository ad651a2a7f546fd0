-- ===== src/Tests/Manifests.antt =====
-- A manifest at a concrete input.
use tesla.Base.{
  Run, [], ap, false, fault, inl, inr, mem-one, none, ok, refl, some, true, ℕ, ◌&&◌, ◌↔◌, ◌∷◌, ◌≡◌,
  ◌⊎◌,
}
use tesla.Ir.{AutomatonDescription, Identifier}
use tesla.Manifest.{
  AutomatonType, Loaded, ManifestFile, identifier_lt, load, location_of, manifest_code,
}
use tesla.Manifest.Load.{AllProper, FindsLast, load-FindsLast}
use tesla.Manifest.Order.{identifier_lt_orders, key_of_identifier, same_place}
use tesla.Tests.Automata.{between, either, first_of}

abbrev file : ManifestFile
file = record { automata = either ∷ []; roots = between ∷ [] }

abbrev value_of : Run Loaded → Loaded
value_of (ok m) = m
value_of (fault e) = record { automata = []; lifetimes = [] }

abbrev manifest : Loaded
manifest = value_of (load first_of false 12 64 AutomatonType.deterministic file)

load_runs : load first_of false 12 64 AutomatonType.deterministic file ≡ ok manifest
unfolding manifest_code
load_runs = refl

either-Proper : AllProper file.automata
either-Proper a m = inr (ap (λ (d : AutomatonDescription). location_of d.identifier) (mem-one m))

load-FindsLast_example :
    FindsLast first_of false 12 64 AutomatonType.deterministic file either.identifier manifest
load-FindsLast_example =
    load-FindsLast first_of false 12 64 AutomatonType.deterministic file manifest either.identifier
      either-Proper load_runs

abbrev site_of : ℕ → Identifier
site_of line = record {
  name = none;
  location = some (record { filename = b'a' ∷ []; line = line; counter = 0 });
}

-- A named automaton comes before those of assertions, which come in the order of their lines.
order_runs :
    (identifier_lt either.identifier (site_of 3) && identifier_lt (site_of 3) (site_of 12)) ≡ true
unfolding manifest_code
order_runs = refl

identifier_lt_orders_example :
    (identifier_lt either.identifier either.identifier ≡ false)
    × ((identifier_lt either.identifier (site_of 3) ≡ false)
        ⊎ ((identifier_lt (site_of 3) (site_of 12) ≡ false)
            ⊎ (identifier_lt either.identifier (site_of 12) ≡ true)))
    × ((same_place either.identifier (site_of 3) ≡ true)
        ↔ (key_of_identifier either.identifier ≡ key_of_identifier (site_of 3)))
identifier_lt_orders_example =
    identifier_lt_orders either.identifier (site_of 3) (site_of 12) (inl refl) (inl refl)

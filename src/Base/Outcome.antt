-- ===== src/Base/Outcome.antt =====
-- Runs of code that may stop: a failed `assert` of the debug build, a read through a null pointer
-- or past an array, and `tesla_panic`.
use mathlib.Core.Path.{◌≡◌, refl, ap}
use mathlib.Core.Logic.{◌⊎◌, inl, inr}
use mathlib.Core.Bool.{Bool, true, false}
use mathlib.Core.Option.{Option, none, some}
use mathlib.Core.List.{List, [], ◌∷◌}
use Prim.Native.Nat.{ℕ}
use tesla.Base.Lists.{get_elem?}

pub data Fault : Type 0 where
  assertion : Fault
  bad_address : Fault
  panicked : Fault
  exhausted : Fault

pub data Run {ℓ} (A : Type ℓ) : Type ℓ where
  ok : A → Run A
  fault : Fault → Run A

infixl 5 ◌>>=◌ ◌>>◌
abbrev pub ◌>>=◌ {ℓ κ} : {V : Type ℓ} {W : Type κ} → Run V → (V → Run W) → Run W
ok v >>= next = next v
fault why >>= next = fault why

abbrev pub ◌>>◌ {ℓ} : {B : Type ℓ} → Run (Unit {0}) → Run B → Run B
m >> k = m >>= λ _. k

-- `assert(b)`
abbrev pub assert : Bool → Run (Unit {0})
assert true = ok tt
assert false = fault assertion

-- `a[i]`
abbrev pub at_address {ℓ} : {A : Type ℓ} → Option A → Run A
at_address none = fault bad_address
at_address (some a) = ok a

abbrev pub read {ℓ} : {A : Type ℓ} → List A → ℕ → Run A
read xs i = at_address (get_elem? xs i)

-- A loop over `xs` that changes a state and may stop.
abbrev pub each_run {ℓ κ} : {A : Type ℓ} {S : Type κ} → (A → S → Run S) → List A → S → Run S
each_run f [] s = ok s
each_run f (x ∷ xs) s = f x s >>= each_run f xs

-- The run ends normally, with a value of which `Q` holds.
abbrev pub Returns {ℓ κ} : {V : Type ℓ} → Run V → (V → Type κ) → Type (ℓ ⊔ κ)
Returns {V} run Q = (v : V) × (run ≡ ok v) × Q v

-- Inversion of a bind that ended normally.
pub >>=-eq-ok {ℓ κ} :
    {V : Type ℓ} {W : Type κ} {w : W} (run : Run V) (next : V → Run W)
    → (run >>= next) ≡ ok w
    → (v : V) × (run ≡ ok v) × (next v ≡ ok w)
>>=-eq-ok (ok v) next e = (v, refl, e)
>>=-eq-ok (fault why) next e = cc

pub ok-injective {ℓ} : {A : Type ℓ} {a b : A} → ok a ≡ ok b → a ≡ b
ok-injective e = cc

pub Run-cases {ℓ} :
    {A : Type ℓ} (r : Run A) → ((a : A) × (r ≡ ok a)) ⊎ ((e : Fault) × (r ≡ fault e))
Run-cases (ok a) = inl (a, refl)
Run-cases (fault e) = inr (e, refl)

pub at_address-ok {ℓ} : {A : Type ℓ} (o : Option A) (a : A) → at_address o ≡ ok a → o ≡ some a
at_address-ok none a h = cc
at_address-ok (some b) a h = ap some (ok-injective h)

pub assert-ok : (b : Bool) (u : Unit {0}) → assert b ≡ ok u → b ≡ true
assert-ok true u h = refl
assert-ok false u h = cc

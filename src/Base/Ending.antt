-- ===== src/Base/Ending.antt =====
-- Runs that end: normally, or with a fault of the program.
use mathlib.Core.Path.{◌≡◌, refl, subst, sym}
use mathlib.Core.Logic.{◌⊎◌, ◌≢◌, inl, inr}
use mathlib.Core.Bool.{Bool, true, false}
use mathlib.Core.Option.{Option, none, some}
use mathlib.Core.List.{List, Memᴰ, [], ◌∷◌}
use Prim.Native.Nat.{ℕ, zero, suc, ◌<◌}
use tesla.Base.Lists.{get_elem?, get_elem?-of-lt, length}
use tesla.Base.Tests.{if◌then◌else◌}
use tesla.Base.Outcome.{Fault, Returns, Run, assert, at_address, each_run, fault, read, ◌>>=◌}

-- The run ends normally with a value of which `Q` holds, or with a fault other than `bad`.
abbrev pub Avoids {ℓ κ} : {V : Type ℓ} → Fault → Run V → (V → Type κ) → Type (ℓ ⊔ κ)
Avoids bad run Q = Returns run Q ⊎ ((e : Fault) × (run ≡ fault e) × (e ≢ bad))

-- The run ends.
abbrev pub Halts {ℓ κ} : {V : Type ℓ} → Run V → (V → Type κ) → Type (ℓ ⊔ κ)
Halts run Q = Avoids Fault.exhausted run Q

-- The run reads no bad address.
abbrev pub Safe {ℓ κ} : {V : Type ℓ} → Run V → (V → Type κ) → Type (ℓ ⊔ κ)
Safe run Q = Avoids Fault.bad_address run Q

pub Avoids-bind {ℓ κ} :
    {bad : Fault} {V W : Type ℓ} (P : V → Type κ) (Q : W → Type κ) (run : Run V) (next : V → Run W)
    → Avoids bad run P
    → ((v : V) → P v → Avoids bad (next v) Q)
    → Avoids bad (run >>= next) Q
Avoids-bind {bad} P Q run next (inl (v, e, p)) f =
    subst (λ r. Avoids bad (r >>= next) Q) (sym e) (f v p)
Avoids-bind P Q run next (inr (why, e, n)) f = inr (why, rw e, n)

pub Avoids-weaken {ℓ κ} :
    {bad : Fault} {V : Type ℓ} (P Q : V → Type κ) (run : Run V)
    → Avoids bad run P
    → ((v : V) → P v → Q v)
    → Avoids bad run Q
Avoids-weaken P Q run (inl (v, e, p)) f = inl (v, e, f v p)
Avoids-weaken P Q run (inr other) f = inr other

pub Avoids-if {ℓ κ} :
    {bad : Fault} {V : Type ℓ} (Q : V → Type κ) (b : Bool) (x y : Run V)
    → (b ≡ true → Avoids bad x Q)
    → (b ≡ false → Avoids bad y Q)
    → Avoids bad (if b then x else y) Q
Avoids-if Q true x y f g = f refl
Avoids-if Q false x y f g = g refl

pub Halts-assert : (b : Bool) → Halts (assert b) (λ _. b ≡ true)
Halts-assert true = inl (tt, refl, refl)
Halts-assert false = inr (Fault.assertion, refl, λ e. cc)

pub Safe-read {ℓ} :
    {A : Type ℓ} (xs : List A) (i : ℕ)
    → i < length xs
    → Safe (read xs i) (λ a. get_elem? xs i ≡ some a)
Safe-read xs i h = let (a, at) = get_elem?-of-lt xs i h in inl (a, rw at, at)

Halts-at_address {ℓ} : {A : Type ℓ} (o : Option A) → Halts (at_address o) (λ _. Unit {ℓ})
Halts-at_address none = inr (Fault.bad_address, refl, λ e. cc)
Halts-at_address (some a) = inl (a, refl, tt)

pub Halts-read {ℓ} : {A : Type ℓ} (xs : List A) (i : ℕ) → Halts (read xs i) (λ _. Unit {ℓ})
Halts-read xs i = Halts-at_address (get_elem? xs i)

pub Halts-read-some {ℓ} :
    {A : Type ℓ} (xs : List A) (i : ℕ) → Halts (read xs i) (λ a. get_elem? xs i ≡ some a)
Halts-read-some [] i = inr (Fault.bad_address, refl, λ e. cc)
Halts-read-some (x ∷ xs) zero = inl (x, refl, refl)
Halts-read-some (x ∷ xs) (suc i) = Halts-read-some xs i

-- A loop ends where each round does and keeps `P`.
pub Avoids-each_run {ℓ κ} :
    {bad : Fault} {A : Type ℓ} {S : Type κ} (P : S → Type κ) (f : A → S → Run S) (xs : List A)
    (s : S)
    → ((x : A) (s' : S) → Memᴰ x xs → P s' → Avoids bad (f x s') P)
    → P s
    → Avoids bad (each_run f xs s) P
Avoids-each_run P f [] s step p = inl (s, refl, p)
Avoids-each_run P f (x ∷ xs) s step p =
    Avoids-bind P P (f x s) (each_run f xs) (step x s (Memᴰ.head refl) p)
      λ s' p'. Avoids-each_run P f xs s' (λ y s'' m. step y s'' (Memᴰ.tail m)) p'

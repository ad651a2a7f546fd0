-- ===== src/Base/Partial.antt =====
-- Runs that, where they end normally, end with a value of a kind.
use mathlib.Core.Path.{◌≡◌, refl, subst, sym, ◌∙◌, ap}
use mathlib.Core.Bool.{Bool, true, false}
use mathlib.Core.Option.{some}
use mathlib.Core.Logic.{◌⊎◌, inl, inr}
use mathlib.Core.List.{List, [], ◌∷◌, ◌++◌}
use Prim.Native.Nat.{ℕ, zero, suc}
use tesla.Base.Lists.{get_elem?, length}
use tesla.Base.Tests.{if◌then◌else◌}
use tesla.Base.Outcome.{
  Fault, Returns, Run, fault, assert, at_address-ok, ok, ok-injective, read, ◌>>=◌, ◌>>◌, >>=-eq-ok,
}

-- If the run ends normally, then with a value of which `Q` holds.
abbrev pub Yields {ℓ κ} : {V : Type ℓ} → Run V → (V → Type κ) → Type (ℓ ⊔ κ)
Yields run Q = (v : _) → run ≡ ok v → Q v

pub Yields-ok {ℓ κ} : {V : Type ℓ} (Q : V → Type κ) (v : V) → Q v → Yields (ok v) Q
Yields-ok Q v q w e = subst Q (ok-injective e) q

pub Yields-bind {ℓ κ} :
    {V W : Type ℓ} (P : V → Type κ) (Q : W → Type κ) (run : Run V) (next : V → Run W)
    → Yields run P
    → ((v : V) → P v → Yields (next v) Q)
    → Yields (run >>= next) Q
Yields-bind P Q run next h f w e =
    let (v, first, second) = >>=-eq-ok run next e in f v (h v first) w second

-- A run after another, of which nothing is known.
pub Yields-after {ℓ κ} :
    {V W : Type ℓ} (Q : W → Type κ) (run : Run V) (next : V → Run W)
    → ((v : V) → Yields (next v) Q)
    → Yields (run >>= next) Q
Yields-after Q run next f w e = let (v, first, second) = >>=-eq-ok run next e in f v w second

pub Yields-assert {ℓ κ} :
    {W : Type ℓ} (Q : W → Type κ) (b : Bool) (run : Run W)
    → (b ≡ true → Yields run Q)
    → Yields (assert b >> run) Q
Yields-assert Q true run f = f refl
Yields-assert Q false run f = λ w e. cc

pub Yields-if {ℓ κ} :
    {V : Type ℓ} (Q : V → Type κ) (b : Bool) (x y : Run V)
    → (b ≡ true → Yields x Q)
    → (b ≡ false → Yields y Q)
    → Yields (if b then x else y) Q
Yields-if Q true x y f g = f refl
Yields-if Q false x y f g = g refl

pub Yields-read {ℓ} :
    {A : Type ℓ} (xs : List A) (i : ℕ) → Yields (read xs i) (λ a. get_elem? xs i ≡ some a)
Yields-read xs i a e = at_address-ok (get_elem? xs i) a e

-- A run that returns, in the other form.
pub Returns-Yields {ℓ κ} :
    {V : Type ℓ} (Q : V → Type κ) (run : Run V) → Returns run Q → Yields run Q
Returns-Yields Q run (v, first, q) w e = subst Q (ok-injective (sym first ∙ e)) q

pub ok≢fault {ℓ} : {A : Type ℓ} (a : A) (e : Fault) → ok a ≡ fault e → ⊥
ok≢fault a e h = cc

pub fault-injective {ℓ} : {A : Type ℓ} {d e : Fault} → ◌≡◌ {A = Run A} (fault d) (fault e) → d ≡ e
fault-injective h = cc

-- Lists that grow at the end.
module _ {ℓ} {A : Type ℓ} where
  pub get_elem?-append_left :
      (xs ys : List A) (i : ℕ) (a : A) → get_elem? xs i ≡ some a → get_elem? (xs ++ ys) i ≡ some a
  get_elem?-append_left [] ys i a e = cc
  get_elem?-append_left (x ∷ xs) ys zero a e = e
  get_elem?-append_left (x ∷ xs) ys (suc i) a e = get_elem?-append_left xs ys i a e

  pub get_elem?-append_last : (xs : List A) (y : A) → get_elem? (xs ++ y ∷ []) (length xs) ≡ some y
  get_elem?-append_last [] y = refl
  get_elem?-append_last (x ∷ xs) y = get_elem?-append_last xs y

  pub get_elem?-append_cases :
      (xs : List A) (y : A) (i : ℕ) (a : A)
      → get_elem? (xs ++ y ∷ []) i ≡ some a
      → (get_elem? xs i ≡ some a) ⊎ ((i ≡ length xs) × (y ≡ a))
  get_elem?-append_cases [] y zero a e = inr (refl, cc)
  get_elem?-append_cases [] y (suc i) a e = cc
  get_elem?-append_cases (x ∷ xs) y zero a e = inl e
  get_elem?-append_cases (x ∷ xs) y (suc i) a e = elim (get_elem?-append_cases xs y i a e) [
    | inl old ↦ inl old
    | inr (at, same) ↦ inr (ap suc at, same)
  ]

-- ===== src/Update/Named.antt =====
-- Automata whose states fix the variables of their instances, and classes that keep to them.
use mathlib.Core.Path.{subst⁻¹}
use tesla.Base.{
  Bool-ext, List, [], ap, arith, bit_or, get_elem?, inl, inr, length, length-set, refl, set, some,
  suc, sym, true, zero, ℕ, ◌++◌, ◌+◌, ◌<◌, ◌∙◌, ◌∷◌, ◌≡◌, ◌≢◌, ◌≤◌, ◌⊎◌,
}
use tesla.Action.{has_flag}
use tesla.Action.Decides.{Every, Expects}
use tesla.Base.Bits.{bit, eq_of_bits, subset, subset-bit}
use tesla.Class.{instance_active}
use tesla.Class.Slots.{IsClass, active_count-set}
use tesla.Types.{Class, Instance, Key, Transition, Transitions, trans_cleanup}
use tesla.Update.{set_instance}

-- `mask_of` gives the variables of each state; a transition goes from those of its source to those
-- of its target.
abbrev pub IsTyped : (ℕ → ℕ) → Transition → Type 0
IsTyped mask_of t = (t.from_mask ≡ mask_of t.from) × (t.to_mask ≡ mask_of t.to)

-- The active instances from index `i` on have the variables of their states.
abbrev pub NamedFrom : (ℕ → ℕ) → ℕ → List Instance → Type 0
NamedFrom mask_of i l =
    (j : ℕ) (x : Instance)
    → i ≤ j
    → get_elem? l j ≡ some x
    → instance_active x ≡ true
    → x.key.mask ≡ mask_of x.state

abbrev pub Named : (ℕ → ℕ) → List Instance → Type 0
Named mask_of l = NamedFrom mask_of 0 l

-- What an event has to be for a class of typed automata: its symbol has transitions, and not too
-- many; they are typed; they lose no variable but at cleanup; the event has the variables that
-- they add.
pub record Admits (mask_of : ℕ → ℕ) (k : Key) (ts : Transitions) : Type 0 where
  pub some_transition : 0 < length ts
  pub few : length ts < 10000
  pub typed : Every (IsTyped mask_of) ts
  pub keeps :
      Every
        (λ t. (subset t.from_mask t.to_mask ≡ true) ⊎ (has_flag t.flags trans_cleanup ≡ true))
        ts
  pub gives : Every (λ t. subset t.to_mask (bit_or t.from_mask k.mask) ≡ true) ts

pub Named-Expects :
    (mask_of : ℕ → ℕ) (k : Key) (ts : Transitions) (inst : Instance)
    → Admits mask_of k ts
    → (instance_active inst ≡ true → inst.key.mask ≡ mask_of inst.state)
    → instance_active inst ≡ true
    → Every (Expects inst) ts
Named-Expects mask_of k ts inst h n act j t e q = n act ∙ ap mask_of (sym q) ∙ sym (h.typed j t e).0

-- The parts of a class that an event does not change.
abbrev pub SameShape : Class → Class → Type 0
SameShape c d = (d.automaton ≡ c.automaton) × (d.context ≡ c.context) × (d.limit ≡ c.limit)

module _ {ℓ} {A : Type ℓ} where
  abbrev pub Each {κ} : (A → Type κ) → List A → Type κ
  Each P [] = Unit
  Each P (x ∷ xs) = P x × Each P xs

  pub Each-append_one {κ} :
      (P : A → Type κ) (xs : List A) (y : A) → Each P xs → P y → Each P (xs ++ y ∷ [])
  Each-append_one P [] y h p = (p, tt)
  Each-append_one P (x ∷ xs) y h p = (h.0, Each-append_one P xs y h.1 p)

  pub Each-map {κ μ} :
      (P : A → Type κ) (Q : A → Type μ)
      → ((x : A) → P x → Q x)
      → (xs : List A) → Each P xs
      → Each Q xs
  Each-map P Q f [] h = tt
  Each-map P Q f (x ∷ xs) h = (f x h.0, Each-map P Q f xs h.1)

-- An instance that was active may be overwritten.
pub set_instance-IsClass :
    (c : Class) (i : ℕ) (x y : Instance)
    → IsClass c
    → get_elem? c.instances i ≡ some x
    → instance_active x ≡ true
    → IsClass (set_instance c i y)
set_instance-IsClass c i x y v e act = record {
  nonempty = v.nonempty;
  whole = length-set c.instances i y ∙ v.whole;
  promised = ground (arith, active_count-set c.instances i x y e);
}

-- What stands in an array after a write.
get_elem?-set {ℓ} :
    {A : Type ℓ} (l : List A) (i j : ℕ) (y z : A)
    → get_elem? (set l i y) j ≡ some z
    → ((i ≡ j) × (z ≡ y)) ⊎ ((i ≢ j) × (get_elem? l j ≡ some z))
get_elem?-set [] i j y z h = cc
get_elem?-set (x ∷ l) zero zero y z h = inl (refl, cc)
get_elem?-set (x ∷ l) zero (suc j) y z h = inr ((λ q. absurd (omega arith)), h)
get_elem?-set (x ∷ l) (suc i) zero y z h = inr ((λ q. absurd (omega arith)), h)
get_elem?-set (x ∷ l) (suc i) (suc j) y z h = elim (get_elem?-set l i j y z h) [
  | inl (e, q) ↦ inl (ap suc e, q)
  | inr (ne, q) ↦ inr ((λ e. ne (omega arith)), q)
]

pub NamedFrom-set :
    (mask_of : ℕ → ℕ) (k i : ℕ) (l : List Instance) (y : Instance)
    → NamedFrom mask_of k l
    → (instance_active y ≡ true → y.key.mask ≡ mask_of y.state)
    → NamedFrom mask_of k (set l i y)
NamedFrom-set mask_of k i l y h p j x le e act = elim (get_elem?-set l i j y x e) [
  | inl (q, same) ↦
      subst⁻¹ (λ (w : Instance). instance_active w ≡ true → w.key.mask ≡ mask_of w.state) same p act
  | inr (ne, e') ↦ h j x le e' act
]

pub NamedFrom-set_before :
    (mask_of : ℕ → ℕ) (i : ℕ) (l : List Instance) (y : Instance)
    → NamedFrom mask_of i l
    → NamedFrom mask_of (i + 1) (set l i y)
NamedFrom-set_before mask_of i l y h j x le e act = elim (get_elem?-set l i j y x e) [
  | inl (q, same) ↦ absurd (omega arith)
  | inr (ne, e') ↦ h j x (omega arith) e' act
]

pub subset_antisymm : (a b : ℕ) → subset a b ≡ true → subset b a ≡ true → a ≡ b
subset_antisymm a b p q =
    eq_of_bits a b (λ i. Bool-ext (bit a i) (bit b i) (subset-bit a b i p) (subset-bit b a i q))

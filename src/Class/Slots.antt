-- ===== src/Class/Slots.antt =====
-- How many instances of a class are in use, and what each operation does to the count.
use mathlib.Core.Path.{subst}
use tesla.Base.{
  Bool, Bool-cases, List, Option, Returns, [], ap, arith, false, get_elem?, inl, inr, length,
  length-replicate, length-set, none, ok, ok-injective, refl, replicate, set, some, suc, sym, true,
  zero, ℕ, ◌&&◌, ◌+◌, ◌-◌, ◌<◌, ◌==◌, ◌>>=◌, ◌∙◌, ◌∷◌, ◌≡◌, ◌≢◌, ◌≤◌, ◌⊎◌,
}
use tesla.Class.{class_reset, free_slot, instance_active, instance_new, zero_instances}
use tesla.Types.{Class, Error, Instance, Key, zero_instance}

abbrev pub to_nat : Bool → ℕ
to_nat true = 1
to_nat false = 0

-- The number of active instances.
unfoldable pub active_count : List Instance → ℕ
active_count [] = 0
active_count (x ∷ l) = to_nat (instance_active x) + active_count l

-- `tc_free` never promises more than the array has: the loop of `tesla_instance_new` finds a slot.
pub record IsClass (c : Class) : Type 0 where
  pub nonempty : 0 < c.limit
  pub whole : length c.instances ≡ c.limit
  pub promised : c.free + active_count c.instances ≤ c.limit

pub active_count-set :
    (l : List Instance) (i : ℕ) (x y : Instance)
    → get_elem? l i ≡ some x
    → active_count (set l i y) + to_nat (instance_active x)
      ≡ active_count l + to_nat (instance_active y)
unfolding active_count
active_count-set [] i x y h = cc
active_count-set (z ∷ l) zero x y h = ground arith
active_count-set (z ∷ l) (suc i) x y h = omega (arith, active_count-set l i x y h)

active_count-zeros : (n : ℕ) → active_count (replicate n zero_instance) ≡ 0
unfolding active_count instance_active
active_count-zeros zero = refl
active_count-zeros (suc n) = omega (arith, active_count-zeros n)

active_count-le : (l : List Instance) → active_count l ≤ length l
unfolding active_count
active_count-le [] = omega arith
active_count-le (x ∷ l) = ground (arith, active_count-le l)

abbrev AllActive : List Instance → ℕ → Type 0
AllActive l i = (j : ℕ) (y : Instance) → j < i → get_elem? l j ≡ some y → instance_active y ≡ true

first-cons :
    (x : Instance) (l : List Instance) (i : ℕ)
    → instance_active x ≡ true
    → AllActive l i
    → AllActive (x ∷ l) (suc i)
first-cons x l i busy first zero y lt e = ground arith
first-cons x l i busy first (suc j) y lt e = first j y (omega arith) e

-- With an inactive instance in the array the loop returns the first such.
free_slot-Returns :
    (l : List Instance) (k : ℕ)
    → active_count l < length l
    → (i : ℕ) × (x : Instance) × (free_slot (length l) l k ≡ ok (some (k + i)))
      × (get_elem? l i ≡ some x)
      × (instance_active x ≡ false)
      × AllActive l i
unfolding free_slot active_count
free_slot-Returns [] k h = absurd (omega arith)
free_slot-Returns (x ∷ l) k h = elim (Bool-cases (instance_active x)) [
  | inr idle ↦ (0, x, ground arith, refl, idle, λ j y lt e. absurd (omega arith))
  | inl busy ↦
      let (i, y, run, at, idle, first) = free_slot-Returns l (k + 1) (ground arith) in
      (suc i, y, rw busy (rw run (ground arith)), at, idle, first-cons x l i busy first)
]

-- The first inactive instance is the one of index `i`.
pub record IsFirstIdle (l : List Instance) (i : ℕ) : Type 0 where
  pub old : Instance
  pub stands : get_elem? l i ≡ some old
  pub idle : instance_active old ≡ false
  pub first : AllActive l i

abbrev pub made : Class → ℕ → Key → ℕ → Class
made c i name state = record c {
  instances = set c.instances i (record { key = name; state = state });
  free = c.free - 1;
}

-- The three results of `tesla_instance_new`.
abbrev pub NewResult : Class → Key → ℕ → Error × Option ℕ × Class → Type 0
NewResult c name state r =
    ((r ≡ (Error.einval, none, c)) × (state ≡ 0) × (name.mask ≡ 0))
    ⊎ ((r ≡ (Error.enomem, none, c))
        × (c.free ≡ 0)
        × (instance_active (record { key = name; state = state }) ≡ true))
    ⊎ ((i : ℕ) × (r ≡ (Error.success, some i, made c i name state))
        × IsFirstIdle c.instances i
        × (0 < c.free)
        × (instance_active (record { key = name; state = state }) ≡ true))

-- On a well-formed class `tesla_instance_new` never reaches its assertion: it refuses a name that
-- would look inactive, reports a class with no free instance, or fills the first inactive instance.
pub instance_new-Returns :
    (c : Class) (name : Key) (state : ℕ)
    → IsClass c
    → Returns (instance_new c name state) (NewResult c name state)
unfolding instance_new instance_active
instance_new-Returns c name state v = elim (Bool-cases (state == 0 && name.mask == 0)) [
  | inl e ↦ ((Error.einval, none, c), ground arith, inl (refl, ground arith, ground arith))
  | inr e ↦ elim (Bool-cases (c.free == 0)) [
    | inl f ↦ ((Error.enomem, none, c), ground arith, inr (inl (refl, ground arith, ground arith)))
    | inr f ↦
        let found = free_slot-Returns c.instances 0 (ground arith) in
        let i = found.0 in
        let run : free_slot c.limit c.instances 0 ≡ ok (some i) =
          subst (λ n. free_slot n c.instances 0 ≡ ok (some i)) v.whole
            (found.2 ∙ ap (λ k. ok (some k)) (omega arith)) in
        (
          (Error.success, some i, made c i name state),
          ground arith,
          inr (
              inr (
                i,
                refl,
                record { old = found.1; stands = found.3; idle = found.4; first = found.5 },
                ground arith,
                ground arith,
              )),
        )
  ]
]

-- It keeps a class well formed.
pub made-IsClass :
    (c : Class) (i : ℕ) (name : Key) (state : ℕ)
    → IsClass c
    → IsFirstIdle c.instances i
    → 0 < c.free
    → IsClass (made c i name state)
made-IsClass c i name state v h pos = record {
  nonempty = v.nonempty;
  whole = length-set c.instances i _ ∙ v.whole;
  promised =
      ground (
        arith,
        active_count-set c.instances i h.old (record { key = name; state = state }) h.stands,
      );
}

zero_instances-Returns :
    (l : List Instance) → zero_instances (length l) l ≡ ok (replicate (length l) zero_instance)
unfolding zero_instances
zero_instances-Returns [] = refl
zero_instances-Returns (x ∷ l) = rw (zero_instances-Returns l)

-- `tesla_class_reset` empties the class: all its instances are zero and free.
pub class_reset_lem :
    (c : Class)
    → IsClass c
    → class_reset c ≡ ok (record c { instances = replicate c.limit zero_instance; free = c.limit })
unfolding class_reset
class_reset_lem c v =
    ap (λ r. r >>= λ l. ok (record c { instances = l; free = c.limit }))
      (subst (λ n. zero_instances n c.instances ≡ ok (replicate n zero_instance)) v.whole
        (zero_instances-Returns c.instances))

pub class_reset-IsClass : (c d : Class) → IsClass c → class_reset c ≡ ok d → IsClass d
class_reset-IsClass c d v e =
    let same = ok-injective (sym (class_reset_lem c v) ∙ e) in
    subst IsClass same (record {
      nonempty = v.nonempty;
      whole = length-replicate c.limit zero_instance;
      promised = omega (arith, active_count-zeros c.limit);
    })

-- What makes an instance active.
pub active-nonzero : (x : Instance) → instance_active x ≡ true → x.state ≡ 0 → x.key.mask ≢ 0
unfolding instance_active
active-nonzero x act z m = ground arith

pub zero_instance-active : instance_active zero_instance ≡ false
unfolding instance_active
zero_instance-active = refl

pub active_of_state : (x : Instance) → x.state ≢ 0 → instance_active x ≡ true
unfolding instance_active
active_of_state x some_state = ground arith

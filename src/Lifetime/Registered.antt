-- ===== src/Lifetime/Registered.antt =====
-- The registration of a class for cleanup at the end of a lifetime.
use tesla.Base.{
  >>=-eq-ok, Bool-cases, List, Option, Option-cases, [], ap, arith, assert, get_elem?,
  if◌then◌else◌, inl, inr, length, ltb, none, ok, ok-injective, refl, set, some, suc, sym, zero, ℕ,
  ◌*◌, ◌++◌, ◌<◌, ◌==◌, ◌∙◌, ◌∷◌, ◌≡◌, ◌≢◌,
}
use tesla.Lifetime.{grown_capacity, nulls, register_class, register_dynamic, register_static}
use tesla.Types.{Env, LifetimeState}

-- The class is in a slot that was null or, where no slot is null, in a new slot at the end; the other
-- slots are kept.
pub data Registered (ls : LifetimeState) (ci : ℕ) (ls' : LifetimeState) : Type 0 where
  static :
      (i : ℕ)
      → get_elem? ls.classes i ≡ some none
      → ls'.classes ≡ set ls.classes i (some ci)
      → ls'.dyn_classes ≡ ls.dyn_classes
      → Registered ls ci ls'
  dynamic :
      ((i : ℕ) → get_elem? ls.classes i ≢ some none)
      → ls'.classes ≡ ls.classes
      → ls'.dyn_classes ≡ ls.dyn_classes ++ some ci ∷ []
      → Registered ls ci ls'

register_static-set :
    (slots slots' : List (Option ℕ)) (ci : ℕ)
    → register_static slots ci ≡ some slots'
    → (i : ℕ) × (get_elem? slots i ≡ some none) × (slots' ≡ set slots i (some ci))
unfolding register_static
register_static-set [] slots' ci h = cc
register_static-set (none ∷ slots) slots' ci h = (0, refl, cc)
register_static-set (some c ∷ slots) slots' ci h = elim (Option-cases (register_static slots ci)) [
  | inl full ↦ cc (rw full at h)
  | inr (rest, e) ↦
      let (i, free, same) = register_static-set slots rest ci e in
      let whole : some (some c ∷ rest) ≡ some slots' = rw e at h in (suc i, free, cc)
]

register_static-full :
    (slots : List (Option ℕ)) (ci : ℕ)
    → register_static slots ci ≡ none
    → (i : ℕ) → get_elem? slots i ≢ some none
unfolding register_static
register_static-full [] ci h i e = cc
register_static-full (none ∷ slots) ci h i e = cc
register_static-full (some c ∷ slots) ci h zero e = cc
register_static-full (some c ∷ slots) ci h (suc i) e =
    elim (Option-cases (register_static slots ci)) [
      | inl full ↦ register_static-full slots ci full i e
      | inr (rest, q) ↦ cc (rw q at h)
    ]

pub register_dynamic-last :
    (env : Env) (ls ls' : LifetimeState) (ci : ℕ)
    → register_dynamic env ls ci ≡ ok ls'
    → (ls'.classes ≡ ls.classes) × (ls'.dyn_classes ≡ ls.dyn_classes ++ some ci ∷ [])
unfolding register_dynamic
register_dynamic-last env ls ls' ci h =
    let (u, room, h') =
      >>=-eq-ok (assert (ltb (length ls.dyn_classes) (grown_capacity ls.dyn_capacity))) _ h in
    elim (Bool-cases (env.allocates (if ls.dyn_capacity == 0 then 8 else 2 * ls.dyn_capacity))) [
      | inl yes_ ↦
          let same = ok-injective (rw yes_ at h') in
          (
            sym (ap (λ (w : LifetimeState). w.classes) same),
            sym (ap (λ (w : LifetimeState). w.dyn_classes) same),
          )
      | inr no_ ↦ cc (rw no_ at h')
    ]

-- A registration that ends normally puts the class into a static slot that was null or, only if none of
-- the static slots is null, into a new dynamic slot at the end, and keeps every other slot.
pub register_class-Registered :
    (env : Env) (ls ls' : LifetimeState) (ci : ℕ)
    → register_class env ls ci ≡ ok ls'
    → Registered ls ci ls'
unfolding register_class
register_class-Registered env ls ls' ci h = elim (Option-cases (register_static ls.classes ci)) [
  | inr (slots, e) ↦
      let (i, free, same) = register_static-set ls.classes slots ci e in
      let new = ok-injective (rw (e, register_class) at h) in
      Registered.static i free (sym (ap (λ (w : LifetimeState). w.classes) new) ∙ same)
        (sym (ap (λ (w : LifetimeState). w.dyn_classes) new))
  | inl full ↦
      let (kept, last) = register_dynamic-last env ls ls' ci (rw (full, register_class) at h) in
      Registered.dynamic (register_static-full ls.classes ci full) kept last
]

-- The first slot of some cleared slots is null, whatever comes after them.
pub nulls-first :
    (slots : List (Option ℕ)) (o : Option ℕ)
    → 0 < length slots
    → get_elem? (nulls slots ++ o ∷ []) 0 ≡ some none
unfolding nulls
nulls-first [] o h = absurd (omega arith)
nulls-first (x ∷ slots) o h = refl

-- ===== src/Lifetime.antt =====
-- Lifetimes: the inline comparisons of libtesla/src/tesla_internal.h, the search for a lifetime
-- that libtesla/src/tesla_update.c repeats, and the registration of classes for cleanup.
pub mod Recorded
pub mod Registered
use tesla.Base.{
  Bool, List, Option, Run, [], assert, bad_address, false, fault, if◌then◌else◌, length, ltb, none,
  ok, some, suc, true, zero, ℕ, ◌%◌, ◌&&◌, ◌*◌, ◌++◌, ◌+◌, ◌==◌, ◌>>◌, ◌^◌, ◌||◌, ◌∷◌,
}
use tesla.Types.{Env, Lifetime, LifetimeState}

-- `strncmp(x, y, n) == 0`: it stops at a NUL, which the end of a list stands for too.
pub strncmp_eq : ℕ → List ℕ → List ℕ → Bool
strncmp_eq zero x y = true
strncmp_eq (suc n) [] [] = true
strncmp_eq (suc n) [] (b ∷ y) = b == 0
strncmp_eq (suc n) (a ∷ x) [] = a == 0
strncmp_eq (suc n) (a ∷ x) (b ∷ y) =
    let rest = strncmp_eq n x y in if a == b then a == 0 || rest else false

pub same_lifetime : Lifetime → Lifetime → Bool
same_lifetime x y =
    x.begin_event.len == y.begin_event.len
    && x.end_event.len == y.end_event.len
    && x.begin_event.hash == y.begin_event.hash
    && x.end_event.hash == y.end_event.hash
    && strncmp_eq x.begin_event.len x.begin_event.repr y.begin_event.repr
    && strncmp_eq x.end_event.len x.end_event.repr y.end_event.repr

pub same_static_lifetime : Lifetime → LifetimeState → Bool
same_static_lifetime x y =
    x.begin_event.len == y.begin_event.len
    && x.end_event.len == y.end_event.len
    && x.begin_event.hash == y.begin_event.hash
    && x.end_event.hash == y.end_event.hash
    && strncmp_eq x.begin_event.len x.begin_event.repr y.begin_event.repr
    && strncmp_eq x.end_event.len x.end_event.repr y.end_event.repr

-- The loop over the known lifetimes: the index of the first that is the same as `l`.
pub find_from : Lifetime → List LifetimeState → ℕ → Option ℕ
find_from l [] i = none
find_from l (s ∷ ss) i =
    let rest = find_from l ss (i + 1) in if same_static_lifetime l s then some i else rest

pub find_lifetime : Lifetime → List LifetimeState → Option ℕ
find_lifetime l ss = find_from l ss 0

-- The number of slots of `tls_classes`.
abbrev pub static_classes : ℕ
static_classes = 32

-- The loop over `tls_classes`: the class in the first null slot, if there is one.
pub register_static : List (Option ℕ) → ℕ → Option (List (Option ℕ))
register_static [] ci = none
register_static (none ∷ slots) ci = some (some ci ∷ slots)
register_static (some c ∷ slots) ci = elim (register_static slots ci) [
  | none ↦ none
  | some rest ↦ some (some c ∷ rest)
]

-- The capacity after the call of `calloc` or `realloc` that precedes every dynamic registration.
-- It is a `size_t`, cut to 32 bits when it is stored.
pub grown_capacity : ℕ → ℕ
grown_capacity capacity = if capacity == 0 then 8 else 2 * capacity % 2 ^ 32

-- A write to the array that was allocated fails if it is null.
pub register_dynamic : Env → LifetimeState → ℕ → Run LifetimeState
register_dynamic env ls ci = do
  let capacity = grown_capacity ls.dyn_capacity
  assert (ltb (length ls.dyn_classes) capacity)
  elim (env.allocates (if ls.dyn_capacity == 0 then 8 else 2 * ls.dyn_capacity)) [
    | true ↦
        ok (record ls { dyn_classes = ls.dyn_classes ++ some ci ∷ []; dyn_capacity = capacity })
    | false ↦ fault bad_address
  ]

-- "Register this class for eventual cleanup."
pub register_class : Env → LifetimeState → ℕ → Run LifetimeState
register_class env ls ci = elim (register_static ls.classes ci) [
  | some slots ↦ ok (record ls { classes = slots })
  | none ↦ register_dynamic env ls ci
]

-- `memset` of the slots at `tesla_sunset`; `tls_dyn_count` and the capacity stay.
pub nulls : List (Option ℕ) → List (Option ℕ)
nulls [] = []
nulls (s ∷ slots) = none ∷ nulls slots

-- What an evaluation has to unfold.
unfoldable pub lifetime_code : Unit {0}
unfolding strncmp_eq same_lifetime same_static_lifetime find_from find_lifetime register_static
    grown_capacity register_dynamic register_class nulls
lifetime_code = tt

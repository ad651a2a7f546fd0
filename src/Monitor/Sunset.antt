-- ===== src/Monitor/Sunset.antt =====
-- What `tesla_sunset` cleans up, and what it misses.
use tesla.Base.{
  Bool, [], get_elem?, length, none, ok, refl, some, suc, true, zero, ℕ, ◌<◌, ◌>>=◌, ◌≡◌,
}
use tesla.Lifetime.{register_dynamic}
use tesla.Lifetime.Registered.{nulls-first, register_dynamic-last}
use tesla.Monitor.{cleanup_slots, clear_dynamic, slots_of}
use tesla.Types.{Env, Key, LifetimeState, Store}

-- A loop of `tesla_sunset` stops at a null slot, with the store as it is.
cleanup_slots-null :
    (env : Env) (dynamic : Bool) (junk : Key) (li n i : ℕ) (s : Store) (ls : LifetimeState)
    → get_elem? s.lifetimes li ≡ some ls
    → get_elem? (slots_of dynamic ls) i ≡ some none
    → cleanup_slots env dynamic junk li n i s ≡ ok (s, [])
unfolding cleanup_slots
cleanup_slots-null env dynamic junk li zero i s ls here null = refl
cleanup_slots-null env dynamic junk li (suc n) i s ls here null = rw (here, ◌>>=◌, null) refl

-- Once a sunset has cleared at least one dynamic registration, a class that registers dynamically
-- in the next round of the lifetime is not cleaned up: the loop of the next sunset over the
-- dynamic slots leaves the store as it is, since the count of the slots was not reset.
pub sunset_forgets :
    (env env' : Env) (junk : Key) (li n ci : ℕ) (s : Store) (ls ls' : LifetimeState)
    → 0 < length ls.dyn_classes
    → register_dynamic env (clear_dynamic ls) ci ≡ ok ls'
    → get_elem? s.lifetimes li ≡ some ls'
    → cleanup_slots env' true junk li n 0 s ≡ ok (s, [])
sunset_forgets env env' junk li n ci s ls ls' some_one again here =
    let (kept, last) = register_dynamic-last env (clear_dynamic ls) ls' ci again in
    cleanup_slots-null env' true junk li n 0 s ls' here
      (rw last (nulls-first ls.dyn_classes (some ci) some_one))

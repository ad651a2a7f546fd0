-- ===== src/Monitor/Sunrise.antt =====
-- `tesla_sunrise`: lifetimes are recorded once.
use mathlib.Core.Path.{subst}
use tesla.Base.{
  >>=-eq-ok, List, Option-cases, [], arith, assert, inl, inr, length, ltb, none, ok, ok-injective,
  refl, some, true, ℕ, ◌++◌, ◌+◌, ◌<◌, ◌∷◌, ◌≡◌,
}
use tesla.Lifetime.{find_lifetime}
use tesla.Lifetime.Recorded.{find_lifetime-append, same_static_lifetime_self}
use tesla.Monitor.{new_lifetime, record_lifetime}
use tesla.Types.{Lifetime, LifetimeState, Store}

find_self :
    (l : Lifetime) (ss : List LifetimeState)
    → find_lifetime l ss ≡ none
    → find_lifetime l (ss ++ new_lifetime l ∷ []) ≡ some (0 + length ss)
find_self l ss free =
    find_lifetime-append l ss (new_lifetime l) free
      (same_static_lifetime_self l (new_lifetime l) refl refl)

-- After a call of `tesla_sunrise` the lifetime is recorded in the store, and as long as the store
-- has a slot left, a second call for the same lifetime leaves the store as it is.
pub record_lifetime_again :
    (s s' : Store) (l : Lifetime)
    → record_lifetime s l ≡ ok s'
    → length s'.lifetimes < s'.size
    → ((i : ℕ) × (find_lifetime l s'.lifetimes ≡ some i)) × (record_lifetime s' l ≡ ok s')
unfolding record_lifetime
record_lifetime_again s s' l h slot =
    let (i, known) = found in
    let more : ltb (length s'.lifetimes) s'.size ≡ true = ground arith in
    ((i, known), rw (more, known) refl)
  where
    found : (i : ℕ) × (find_lifetime l s'.lifetimes ≡ some i)
    found =
        let (u, room, h') = >>=-eq-ok (assert (ltb (length s.lifetimes) s.size)) _ h in
        elim (Option-cases (find_lifetime l s.lifetimes)) [
          | inr (i, e) ↦ (
            i,
            subst (λ (w : Store). find_lifetime l w.lifetimes ≡ some i) (ok-injective (rw e at h'))
                e,
          )
          | inl e ↦ (
            0 + length s.lifetimes,
            subst (λ (w : Store). find_lifetime l w.lifetimes ≡ some (0 + length s.lifetimes))
                (ok-injective (rw e at h')) (find_self l s.lifetimes e),
          )
        ]

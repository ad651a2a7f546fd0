-- ===== src/Lifetime/Recorded.antt =====
-- How lifetimes are told apart and found.
use native.Mathlib.Nat.{add-zero}
use tesla.Base.{
  ==_self, Bool-cases, List, [], ap, arith, inl, inr, length, none, or-right, refl, some, suc, true,
  zero, ℕ, ◌++◌, ◌+◌, ◌==◌, ◌∙◌, ◌∷◌, ◌≡◌, ◌≢◌,
}
use tesla.Lifetime.{find_from, find_lifetime, same_lifetime, same_static_lifetime, strncmp_eq}
use tesla.Types.{Lifetime, LifetimeState}

strncmp_eq_self : (n : ℕ) (xs : List ℕ) → strncmp_eq n xs xs ≡ true
unfolding strncmp_eq
strncmp_eq_self zero xs = refl
strncmp_eq_self (suc n) [] = refl
strncmp_eq_self (suc n) (a ∷ xs) =
    rw (==_self a) (or-right (a == 0) (strncmp_eq n xs xs) (strncmp_eq_self n xs))

-- Two lifetimes are the same if a state with the events of one is the same as the other: the code's
-- two comparisons agree.
same_lifetime-static :
    (x y : Lifetime) (s : LifetimeState)
    → s.begin_event ≡ y.begin_event
    → s.end_event ≡ y.end_event
    → same_static_lifetime x s ≡ same_lifetime x y
unfolding same_lifetime same_static_lifetime
same_lifetime-static x y s b e = rw (b, e) refl

pub same_static_lifetime_self :
    (l : Lifetime) (s : LifetimeState)
    → s.begin_event ≡ l.begin_event
    → s.end_event ≡ l.end_event
    → same_static_lifetime l s ≡ true
unfolding same_static_lifetime
same_static_lifetime_self l s b e =
    rw
      (
        b,
        e,
        strncmp_eq_self l.begin_event.len l.begin_event.repr,
        strncmp_eq_self l.end_event.len l.end_event.repr,
        ==_self l.begin_event.len,
        ==_self l.end_event.len,
        ==_self l.begin_event.hash,
        ==_self l.end_event.hash,
      )
      refl

some≢none : {i : ℕ} → some i ≢ none
some≢none e = cc

-- The search gives the first lifetime that is the same.
find_from-append :
    (l : Lifetime) (ss : List LifetimeState) (s : LifetimeState) (i : ℕ)
    → find_from l ss i ≡ none
    → same_static_lifetime l s ≡ true
    → find_from l (ss ++ s ∷ []) i ≡ some (i + length ss)
unfolding find_from
find_from-append l [] s i free same = rw (same, add-zero i) refl
find_from-append l (x ∷ ss) s i free same = elim (Bool-cases (same_static_lifetime l x)) [
  | inl this ↦ absurd (some≢none (rw this at free))
  | inr other ↦
      let rest = find_from-append l ss s (i + 1) (rw other at free) same in
      rw other (rest ∙ ap some (omega arith))
]

-- A lifetime that is not known is found last once it has been added.
pub find_lifetime-append :
    (l : Lifetime) (ss : List LifetimeState) (s : LifetimeState)
    → find_lifetime l ss ≡ none
    → same_static_lifetime l s ≡ true
    → find_lifetime l (ss ++ s ∷ []) ≡ some (0 + length ss)
unfolding find_lifetime
find_lifetime-append l ss s = find_from-append l ss s 0

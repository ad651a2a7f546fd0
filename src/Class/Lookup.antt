-- ===== src/Class/Lookup.antt =====
-- What `tesla_match` finds.
use mathlib.Core.Path.{subst}
use tesla.Base.{
  Bool, Bool-cases, List, Returns, [], arith, contains, false, get_elem?, if◌then◌else◌, inl, inr,
  length, ltb, ok, refl, some, suc, true, zero, ℕ, ◌&&◌, ◌+◌, ◌<◌, ◌==◌, ◌||◌, ◌↔◌, ◌∷◌, ◌≡◌, ◌≤◌,
  ◌⊎◌,
}
use tesla.Class.{instance_active, match_from, match_instances}
use tesla.Class.Slots.{IsClass}
use tesla.Key.{key_matches}
use tesla.Key.Match.{Matches, key_matches-Matches}
use tesla.Types.{Class, Error, Instance, Key}

-- Instance `i` of the array is active and matches.
pub record IsMatch (l : List Instance) (pattern : Key) (i : ℕ) : Type 0 where
  pub inst : Instance
  pub stands : get_elem? l i ≡ some inst
  pub active : instance_active inst ≡ true
  pub matches : Matches pattern inst.key

abbrev Finds : List Instance → ℕ → Key → List ℕ → Type 0
Finds l k p r =
    (length r ≤ length l)
    × ((i : ℕ) → (contains r (k + i) ≡ true) ↔ IsMatch l p i)
    × ((i : ℕ) → i < k → contains r i ≡ false)

abbrev hit : Instance → Key → Bool
hit x p = instance_active x && key_matches p x.key

hit-IsMatch : (x : Instance) (l : List Instance) (p : Key) → (hit x p ≡ true) ↔ IsMatch (x ∷ l) p 0
hit-IsMatch x l p = (
  λ h. record {
    inst = x;
    stands = refl;
    active = ground arith;
    matches = (key_matches-Matches p x.key).0 (ground arith);
  },
  λ m.
      let same : x ≡ m.inst = cc (m.stands) in
      let found = (key_matches-Matches p m.inst.key).1 m.matches in
      rw same (ground (arith, m.active, found)),
)

IsMatch-cons :
    (x : Instance) (l : List Instance) (p : Key) (i : ℕ) → IsMatch l p i ↔ IsMatch (x ∷ l) p (suc i)
IsMatch-cons x l p i = (
  (λ m. record { inst = m.inst; stands = m.stands; active = m.active; matches = m.matches }),
  λ m. record { inst = m.inst; stands = m.stands; active = m.active; matches = m.matches },
)

abbrev with_head : Bool → ℕ → List ℕ → List ℕ
with_head b k r = if b then k ∷ r else r

contains-with_head :
    (b : Bool) (k : ℕ) (r : List ℕ) (i : ℕ)
    → contains (with_head b k r) i ≡ ((b && k == i) || contains r i)
contains-with_head true k r i = refl
contains-with_head false k r i = refl

Finds-cons :
    (x : Instance) (l : List Instance) (k : ℕ) (p : Key) (r : List ℕ)
    → Finds l (k + 1) p r
    → Finds (x ∷ l) k p (with_head (hit x p) k r)
Finds-cons x l k p r (small, exact, above) =
    (ground arith, (λ i. at i), λ i lt. rw contains-with_head (ground (arith, above i)))
  where
    at : (i : ℕ) → (contains (with_head (hit x p) k r) (k + i) ≡ true) ↔ IsMatch (x ∷ l) p i
    at zero = (
      (λ h.
          (hit-IsMatch x l p).0
            (ground (arith, contains-with_head (hit x p) k r (k + 0), above (k + 0)))),
      λ m. rw contains-with_head (ground (arith, (hit-IsMatch x l p).1 m)),
    )
    at (suc i) =
        let next : k + 1 + i ≡ k + suc i = omega arith in
        let e = exact i in
        (
          (λ h.
              (IsMatch-cons x l p i).0
                (e.0 (rw next (ground (arith, contains-with_head (hit x p) k r (k + suc i)))))),
          λ m.
              let there : contains r (k + suc i) ≡ true =
                rw next at (e.1 ((IsMatch-cons x l p i).1 m)) in
              rw contains-with_head (ground arith),
        )

match_from-Returns :
    (l : List Instance) (k : ℕ) (p : Key) → Returns (match_from (length l) l k p) (Finds l k p)
unfolding match_from
match_from-Returns [] k p =
    ([], refl, (omega arith, (λ i. ((λ h. cc), λ m. cc (m.stands))), λ i lt. refl))
match_from-Returns (x ∷ l) k p =
    let (r, run, found) = match_from-Returns l (k + 1) p in
    (with_head (hit x p) k r, rw run, Finds-cons x l k p r found)

-- `tesla_match` asks for room for every instance of the class; given that, it returns the indices
-- of exactly the active instances whose key matches the pattern.
pub match_instances-Returns :
    (c : Class) (p : Key) (size : ℕ)
    → IsClass c
    → Returns (match_instances c p size) λ r.
      ((size < c.limit) × (r ≡ (Error.enomem, c.limit, [])))
      ⊎ ((c.limit ≤ size)
          × (r.0 ≡ Error.success)
          × (r.1 ≡ length r.2)
          × (r.1 ≤ c.limit)
          × ((i : ℕ) → (contains r.2 i ≡ true) ↔ IsMatch c.instances p i))
unfolding match_instances
match_instances-Returns c p size v = elim (Bool-cases (ltb size c.limit)) [
  | inl e ↦ (_, rw e, inl (ground arith, refl))
  | inr e ↦
      let (r, run, (small, exact, above)) = match_from-Returns c.instances 0 p in
      let run' : match_from c.limit c.instances 0 p ≡ ok r =
        subst (λ n. match_from n c.instances 0 p ≡ ok r) v.whole run in
      (
        (Error.success, length r, r),
        rw (e, run'),
        inr (
          ground arith,
          refl,
          refl,
          omega arith,
          λ i. subst (λ n. (contains r n ≡ true) ↔ IsMatch c.instances p i) (omega arith) (exact i),
        ),
      )
]

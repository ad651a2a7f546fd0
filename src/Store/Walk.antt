-- ===== src/Store/Walk.antt =====
-- The walk of `tesla_class_get` over the hash table.
use mathlib.Core.Path.{subst}
use native.Mathlib.Decide.{ℕ_discrete}
use tesla.Base.{
  ==_self, List, Option, Option-cases, ap, arith, get_elem?, get_elem?-lt, get_elem?-set_ne,
  get_elem?-set_self, inl, inr, length, length-set, none, ok, ok-injective, refl, set, some, suc,
  sym, zero, ℕ, ◌%◌, ◌+◌, ◌>>=◌, ◌^◌, ◌∙◌, ◌≡◌, ◌≢◌, ◌⊎◌,
}
use tesla.Store.{Fit, bucket, fit, fnv_hash32, walk}
use tesla.Types.{Automaton, Class}

-- A table after some walks: the classes that had an automaton are as they were.
pub record Grows (xs ys : List Class) : Type 0 where
  pub len : length ys ≡ length xs
  pub kept :
      (k : ℕ) (c : Class) → get_elem? xs k ≡ some c → c.automaton ≢ none → get_elem? ys k ≡ some c

Grows-refl : (xs : List Class) → Grows xs xs
Grows-refl xs = record { len = refl; kept = λ k c e n. e }

Grows-claim :
    (xs : List Class) (b : ℕ) (c d : Class)
    → get_elem? xs b ≡ some c
    → c.automaton ≡ none
    → Grows xs (set xs b d)
Grows-claim xs b c d e free = record {
  len = length-set xs b d;
  kept = λ k x q n. elim (ℕ_discrete b k) [
    | yes same ↦
        let one : c ≡ x = cc in absurd (n (ap (λ (w : Class). w.automaton) (sym one) ∙ free))
    | no ne ↦ get_elem?-set_ne xs b k d ne ∙ q
  ];
}

fit-empty : (a : Automaton) (c : Class) → fit a c ≡ Fit.empty → c.automaton ≡ none
unfolding fit
fit-empty a c e = ground arith

pub empty≢same : Fit.empty ≢ Fit.same
empty≢same e = cc

pub fit-occupied : (a : Automaton) (c : Class) → fit a c ≢ Fit.empty → c.automaton ≢ none
unfolding fit
fit-occupied a c e q = e (rw q)

pub fit-same :
    (a : Automaton) (c : Class)
    → fit a c ≡ Fit.same
    → (b : Automaton) × (c.automaton ≡ some b) × (b.addr ≡ a.addr)
unfolding fit
fit-same a c e = elim (Option-cases c.automaton) [
  | inl q ↦ absurd (empty≢same (sym (rw (q, fit)) ∙ e))
  | inr (b, q) ↦ (b, q, ground arith)
]

fit_claimed : (a : Automaton) (c : Class) → fit a (record c { automaton = some a }) ≡ Fit.same
unfolding fit
fit_claimed a c = rw (==_self a.addr)

-- Splits a walk by the class in the first bucket.
Fit-cases : (f : Fit) → (f ≡ Fit.empty) ⊎ (f ≡ Fit.same) ⊎ (f ≡ Fit.other)
Fit-cases Fit.empty = inl refl
Fit-cases Fit.same = inr (inl refl)
Fit-cases Fit.other = inr (inr refl)

module _ (a : Automaton) (len : ℕ) where
  abbrev at_round : ℕ → ℕ
  at_round i = bucket len (fnv_hash32 (a.addr % 2 ^ 32)) i

  module _ (xs : List Class) (n i : ℕ) (c : Class) (e : get_elem? xs (at_round i) ≡ some c) where
    walk-empty :
        fit a c ≡ Fit.empty
        → walk a len xs (suc n) i
          ≡ ok (some (at_round i), set xs (at_round i) (record c { automaton = some a }))
    unfolding walk
    walk-empty f = rw (e, ◌>>=◌, f)

    walk-same : fit a c ≡ Fit.same → walk a len xs (suc n) i ≡ ok (some (at_round i), xs)
    unfolding walk
    walk-same f = rw (e, ◌>>=◌, f)

    walk-other : fit a c ≡ Fit.other → walk a len xs (suc n) i ≡ walk a len xs n (i + 1)
    unfolding walk
    walk-other f = rw (e, ◌>>=◌, f)

  -- A walk that ends normally has read its bucket.
  walk-read :
      (xs : List Class) (n i : ℕ) (r : Option ℕ × List Class)
      → walk a len xs (suc n) i ≡ ok r
      → (c : Class) × (get_elem? xs (at_round i) ≡ some c)
  unfolding walk
  walk-read xs n i r h = elim (Option-cases (get_elem? xs (at_round i))) [
    | inr found ↦ found
    | inl e ↦ cc (rw e at h)
  ]

  -- What a walk gives back.
  Given : List Class → Option ℕ × List Class → Type 0
  Given xs r = Grows xs r.1

  pub walk-Grows :
      (xs : List Class) (n i : ℕ) (r : Option ℕ × List Class)
      → walk a len xs n i ≡ ok r
      → Grows xs r.1
  unfolding walk Given
  walk-Grows xs zero i r h = subst (Given xs) (ok-injective h) (Grows-refl xs)
  walk-Grows xs (suc n) i r h =
      let (c, e) = walk-read xs n i r h in
      elim (Fit-cases (fit a c)) [
        | inl f ↦
            subst (Given xs) (ok-injective (sym (walk-empty xs n i c e f) ∙ h))
              (Grows-claim xs (at_round i) c _ e (fit-empty a c f))
        | inr (inl f) ↦
            subst (Given xs) (ok-injective (sym (walk-same xs n i c e f) ∙ h)) (Grows-refl xs)
        | inr (inr f) ↦ walk-Grows xs n (i + 1) r (sym (walk-other xs n i c e f) ∙ h)
      ]

  -- The automaton is found in bucket `b` on the way from round `i`, after classes of others.
  pub Lives : List Class → ℕ → ℕ → ℕ → Type 0
  Lives xs zero i b = ⊥
  Lives xs (suc n) i b =
      (c : Class) × (get_elem? xs (at_round i) ≡ some c)
      × (((fit a c ≡ Fit.same) × (b ≡ at_round i)) ⊎ ((fit a c ≡ Fit.other) × Lives xs n (i + 1) b))

  pub Lives-Grows : (xs ys : List Class) (n i b : ℕ) → Grows xs ys → Lives xs n i b → Lives ys n i b
  unfolding Lives
  Lives-Grows xs ys zero i b g h = h
  Lives-Grows xs ys (suc n) i b g (c, e, inl (f, q)) =
      (c, g.kept (at_round i) c e (fit-occupied a c (λ w. cc)), inl (f, q))
  Lives-Grows xs ys (suc n) i b g (c, e, inr (f, h)) = (
    c,
    g.kept (at_round i) c e (fit-occupied a c (λ w. cc)),
    inr (f, Lives-Grows xs ys n (i + 1) b g h),
  )

  -- A walk finds the automaton where it lives, and changes nothing.
  pub Lives-walk :
      (xs : List Class) (n i b : ℕ) → Lives xs n i b → walk a len xs n i ≡ ok (some b, xs)
  unfolding Lives
  Lives-walk xs zero i b h = absurd h
  Lives-walk xs (suc n) i b (c, e, inl (f, q)) =
      walk-same xs n i c e f ∙ ap (λ k. ok (some k, xs)) (sym q)
  Lives-walk xs (suc n) i b (c, e, inr (f, h)) =
      walk-other xs n i c e f ∙ Lives-walk xs n (i + 1) b h

  -- Where a walk has found an automaton, it lives from then on.
  abbrev Finds : ℕ → ℕ → Option ℕ × List Class → Type 0
  Finds n i r = (b : ℕ) → r.0 ≡ some b → Lives r.1 n i b

  pub walk-Lives :
      (xs : List Class) (n i : ℕ) (r : Option ℕ × List Class)
      → walk a len xs n i ≡ ok r
      → Finds n i r
  unfolding walk Lives
  walk-Lives xs zero i r h = subst (Finds 0 i) (ok-injective h) (λ b q. cc)
  walk-Lives xs (suc n) i r h =
      let (c, e) = walk-read xs n i r h in
      elim (Fit-cases (fit a c)) [
        | inl f ↦ subst (Finds (suc n) i) (ok-injective (sym (walk-empty xs n i c e f) ∙ h)) λ b q.
            (
              record c { automaton = some a },
              get_elem?-set_self xs (at_round i) _ (get_elem?-lt xs (at_round i) c e),
              inl (fit_claimed a c, cc),
            )
        | inr (inl f) ↦
            subst (Finds (suc n) i) (ok-injective (sym (walk-same xs n i c e f) ∙ h))
              λ b q. (c, e, inl (f, cc))
        | inr (inr f) ↦
            let h' = sym (walk-other xs n i c e f) ∙ h in
            let g = walk-Grows xs n (i + 1) r h' in
            λ b q. (
              c,
              g.kept (at_round i) c e (fit-occupied a c (λ w. cc)),
              inr (f, walk-Lives xs n (i + 1) r h' b q),
            )
      ]

  -- The class in which an automaton lives is its own.
  pub Lives-owner :
      (xs : List Class) (n i b : ℕ)
      → Lives xs n i b
      → (c : Class) × (get_elem? xs b ≡ some c) × (fit a c ≡ Fit.same)
  unfolding Lives
  Lives-owner xs zero i b h = absurd h
  Lives-owner xs (suc n) i b (c, e, inl (f, q)) = (c, rw q e, f)
  Lives-owner xs (suc n) i b (c, e, inr (f, h)) = Lives-owner xs n (i + 1) b h

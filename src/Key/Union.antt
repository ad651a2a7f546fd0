-- ===== src/Key/Union.antt =====
-- What `tesla_key_union` computes, on keys read as partial assignments.
use mathlib.Core.Option.{or_else}
use mathlib.Core.Path.{subst}
use native.Mathlib.Nat.{one-le-pow}
use tesla.Base.{
  ==_iff, Bool, Bool-cases, Option, ap, arith, bit_or, if◌then◌else◌, inl, inr, leb, ltb, none,
  refl, some, suc, sym, true, zero, ℕ, ◌&&◌, ◌+◌, ◌<◌, ◌==◌, ◌↔◌, ◌∙◌, ◌≡◌, ◌≢◌, ◌≤◌, ◌⊎◌,
}
use tesla.Base.Bits.{and-bit, bit, bit-or}
use tesla.Key.{is_set, key_union, union_word, union_words}
use tesla.Types.{Error, Key, Words, key_size, set_word, word}

-- The value of variable `i`, if the key has one.
abbrev pub value : Key → ℕ → Option ℕ
value k i = if bit k.mask i then some (word k.keys i) else none

is_set-bit : (m i : ℕ) → is_set m i ≡ bit m i
unfolding is_set
is_set-bit m i = ground (arith, and-bit m i, one-le-pow i 2)

word-set_word :
    (ws : Words) (i v j : ℕ)
    → i < key_size
    → word (set_word ws i v) j ≡ (if j == i then v else word ws j)
unfolding word set_word
word-set_word ws zero v (suc (suc (suc zero))) h = refl
word-set_word ws zero v j h = ground arith
word-set_word ws (suc zero) v (suc (suc (suc zero))) h = refl
word-set_word ws (suc zero) v j h = ground arith
word-set_word ws (suc (suc zero)) v (suc (suc (suc zero))) h = refl
word-set_word ws (suc (suc zero)) v j h = ground arith
word-set_word ws (suc (suc (suc zero))) v (suc (suc (suc zero))) h = refl
word-set_word ws (suc (suc (suc zero))) v j h = ground arith
word-set_word ws (suc (suc (suc (suc i)))) v j h = absurd (omega arith)

-- What round `i` writes, and when it fails.
abbrev Wrote : Key → Key → ℕ → Key → Type 0
Wrote d s i d' =
    (d'.mask ≡ d.mask)
    × (d'.freemask ≡ d.freemask)
    × ((j : ℕ) → word d'.keys j ≡ (if j == i && bit s.mask i then word s.keys i else word d.keys j))

abbrev pub Clash : Key → Key → ℕ → Type 0
Clash d s i = (bit s.mask i ≡ true) × (bit d.mask i ≡ true) × (word d.keys i ≢ word s.keys i)

module _ (d s : Key) (i : ℕ) (lt : i < key_size) where
  union_word-cases :
      ((union_word d s i ≡ none) × Clash d s i)
      ⊎ ((d' : Key) × (union_word d s i ≡ some d') × Wrote d s i d' × ¬ Clash d s i)
  unfolding union_word
  union_word-cases = elim (Bool-cases (bit s.mask i)) [
    | inr e ↦ inr (d, ground (arith, is_set-bit s.mask i), (refl, refl, λ j. ground arith), λ c. cc)
    | inl e ↦ elim (Bool-cases (bit d.mask i)) [
      | inr e' ↦ inr (
        record d { keys = set_word d.keys i (word s.keys i) },
        ground (arith, is_set-bit s.mask i, is_set-bit d.mask i),
        (refl, refl, λ j. ground (arith, word-set_word d.keys i (word s.keys i) j lt)),
        λ c. cc,
      )
      | inl e' ↦ elim (Bool-cases (word d.keys i == word s.keys i)) [
        | inl q ↦ inr (
          d,
          ground (arith, is_set-bit s.mask i, is_set-bit d.mask i),
          (refl, refl, λ j. ground arith),
          λ c. absurd (c.2 (ground arith)),
        )
        | inr q ↦
            inl
              (ground (arith, is_set-bit s.mask i, is_set-bit d.mask i), (e, e', λ w. ground arith))
      ]
    ]
  ]

-- Whether round `j` is one of the `n` rounds from `i`.
abbrev in_rounds : ℕ → ℕ → ℕ → Bool
in_rounds n i j = leb i j && ltb j (i + n)

-- The two ways in which the rounds from `i` can end.
abbrev Joined : ℕ → ℕ → Key → Key → Error × Key → Type 0
Joined n i d s r =
    (r.0 ≡ Error.success)
    × (r.1.mask ≡ bit_or d.mask s.mask)
    × (r.1.freemask ≡ d.freemask)
    × ((j : ℕ)
        → word r.1.keys j
          ≡ (if in_rounds n i j && bit s.mask j then word s.keys j else word d.keys j))
    × ((j : ℕ) → in_rounds n i j ≡ true → ¬ Clash d s j)

abbrev Refused : ℕ → ℕ → Key → Key → Error × Key → Type 0
Refused n i d s r =
    (r.0 ≡ Error.einval)
    × (r.1.mask ≡ d.mask)
    × (r.1.freemask ≡ d.freemask)
    × ((j : ℕ) → bit d.mask j ≡ true → word r.1.keys j ≡ word d.keys j)
    × ((j : ℕ) × (in_rounds n i j ≡ true) × Clash d s j)

-- A round that does not fail leaves every variable that was set, and every clash.
module _ (d s : Key) (i : ℕ) (d' : Key) (wrote : Wrote d s i d') (clear : ¬ Clash d s i) where
  keeps : (j : ℕ) → bit d.mask j ≡ true → word d'.keys j ≡ word d.keys j
  keeps j b = elim (Bool-cases (j == i && bit s.mask i)) [
    | inr e ↦ ground (arith, wrote.2 j)
    | inl e ↦ elim (Bool-cases (word d.keys i == word s.keys i)) [
      | inl same ↦ ground (arith, wrote.2 j)
      | inr other ↦ absurd (clear (ground arith, ground arith, λ q. ground arith))
    ]
  ]

  bit-wrote : (j : ℕ) → bit d'.mask j ≡ bit d.mask j
  bit-wrote j = ap (λ m. bit m j) wrote.0

  Clash-before : (j : ℕ) → Clash d' s j → Clash d s j
  Clash-before j (a, b, c) =
      let b' : bit d.mask j ≡ true = sym (bit-wrote j) ∙ b in (a, b', λ q. c (keeps j b' ∙ q))

  Clash-after : (j : ℕ) → Clash d s j → Clash d' s j
  Clash-after j (a, b, c) = (a, bit-wrote j ∙ b, λ q. c (sym (keeps j b) ∙ q))

module _ (n i : ℕ) (d s : Key) where
  union_words-none : union_word d s i ≡ none → union_words (suc n) i d s ≡ (Error.einval, d)
  unfolding union_words
  union_words-none e = rw (e, union_words)

  union_words-some :
      (d' : Key)
      → union_word d s i ≡ some d'
      → union_words (suc n) i d s ≡ union_words n (i + 1) d' s
  unfolding union_words
  union_words-some d' e = rw (e, union_words)

union_words-ends :
    (n i : ℕ) (d s : Key)
    → i + n ≤ key_size
    → Joined n i d s (union_words n i d s) ⊎ Refused n i d s (union_words n i d s)
unfolding union_words
union_words-ends zero i d s le = inl (refl, refl, refl, (λ j. ground arith), λ j h. ground arith)
union_words-ends (suc n) i d s le = elim (union_word-cases d s i (omega arith)) [
  | inl (e, c) ↦
      rw (union_words-none n i d s e) (inr (refl, refl, refl, (λ j b. refl), (i, ground arith, c)))
  | inr (d', e, (m, f, w), nc) ↦
      rw (union_words-some n i d s d' e) (elim (union_words-ends n (i + 1) d' s (omega arith)) [
        | inl (r, rm, rf, rk, rc) ↦ inl (
          r,
          rm ∙ ap (λ k. bit_or k s.mask) m,
          rf ∙ f,
          (λ j. ground (arith, rk j, w j)),
          λ j h c. elim (Bool-cases (j == i)) [
            | inl q ↦ nc (subst (Clash d s) ((==_iff j i).0 q) c)
            | inr q ↦ rc j (ground arith) (Clash-after d s i d' (m, f, w) nc j c)
          ],
        )
        | inr (r, rm, rf, rk, (j, h, c)) ↦ inr (
          r,
          rm ∙ m,
          rf ∙ f,
          (λ j b. rk j (bit-wrote d s i d' (m, f, w) nc j ∙ b) ∙ keeps d s i d' (m, f, w) nc j b),
          (j, ground arith, Clash-before d s i d' (m, f, w) nc j c),
        )
      ])
]

key_union-ends :
    (d s : Key)
    → ((key_union d s).0 ≡ Error.success)
      ⊎ (((key_union d s).0 ≡ Error.einval) × ((i : ℕ) × (i < key_size) × Clash d s i))
unfolding key_union
key_union-ends d s = elim (union_words-ends key_size 0 d s (omega arith)) [
  | inl (r, rm, rf, rk, rc) ↦ inl r
  | inr (r, rm, rf, rk, (j, h, c)) ↦ inr (r, (j, ground arith, c))
]

-- The union succeeds exactly when the two keys agree on every variable that both have.
pub key_union-success :
    (d s : Key) → ((key_union d s).0 ≡ Error.success) ↔ ((i : ℕ) → i < key_size → ¬ Clash d s i)
unfolding key_union
key_union-success d s = elim (union_words-ends key_size 0 d s (omega arith)) [
  | inl (r, rm, rf, rk, rc) ↦ ((λ h i lt. rc i (ground arith)), λ h. r)
  | inr (r, rm, rf, rk, (j, h, c)) ↦ ((λ q. cc), λ q. absurd (q j (ground arith) c))
]

-- After a union that succeeds each variable has the source's value, or else the destination's.
pub value-key_union :
    (d s : Key) (i : ℕ)
    → (key_union d s).0 ≡ Error.success
    → i < key_size
    → value (key_union d s).1 i ≡ or_else (value s i) (value d i)
unfolding key_union or_else
value-key_union d s i h lt = elim (union_words-ends key_size 0 d s (omega arith)) [
  | inl (r, rm, rf, rk, rc) ↦ ground (arith, rk i, ap (λ m. bit m i) rm, bit-or d.mask s.mask i)
  | inr (r, rm, rf, rk, rc) ↦ cc
]

-- A union that fails changes no variable of the destination.
pub value-key_union_error :
    (d s : Key) (i : ℕ) → (key_union d s).0 ≢ Error.success → value (key_union d s).1 i ≡ value d i
unfolding key_union
value-key_union_error d s i h = elim (union_words-ends key_size 0 d s (omega arith)) [
  | inl (r, rm, rf, rk, rc) ↦ absurd (h r)
  | inr (r, rm, rf, rk, rc) ↦ ground (arith, rk i, ap (λ m. bit m i) rm)
]

-- After a union that succeeds the mask has the variables of both keys, and the mask of free
-- variables is the destination's.
pub mask-key_union :
    (d s : Key)
    → (key_union d s).0 ≡ Error.success
    → ((key_union d s).1.mask ≡ bit_or d.mask s.mask) × ((key_union d s).1.freemask ≡ d.freemask)
unfolding key_union
mask-key_union d s h = elim (union_words-ends key_size 0 d s (omega arith)) [
  | inl (r, rm, rf, rk, rc) ↦ (rm, rf)
  | inr (r, rm, rf, rk, rc) ↦ cc
]

-- What a union of keys comes to: a success, and then the keys agree on every variable that both have,
-- each variable has the source's value or else the destination's, the mask has the variables of both
-- keys and the mask of free variables is the destination's; or `EINVAL`, and then the keys clash at
-- a variable, and no variable of the destination is changed.
pub key_union-outcome :
    (d s : Key)
    → (((key_union d s).0 ≡ Error.success)
        × ((i : ℕ) → i < key_size → ¬ Clash d s i)
        × ((i : ℕ) → i < key_size → value (key_union d s).1 i ≡ or_else (value s i) (value d i))
        × ((key_union d s).1.mask ≡ bit_or d.mask s.mask)
        × ((key_union d s).1.freemask ≡ d.freemask))
      ⊎ (((key_union d s).0 ≡ Error.einval)
          × ((i : ℕ) × (i < key_size) × Clash d s i)
          × ((i : ℕ) → value (key_union d s).1 i ≡ value d i))
key_union-outcome d s = elim (key_union-ends d s) [
  | inl h ↦
      let (mask, free) = mask-key_union d s h in
      inl (h, (key_union-success d s).0 h, (λ i. value-key_union d s i h), mask, free)
  | inr (h, clash) ↦ inr (h, clash, λ i. value-key_union_error d s i (λ e. cc))
]

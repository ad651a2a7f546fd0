-- ===== src/Key/Match.antt =====
-- What it means for a key to match a pattern.
use tesla.Base.{
  ℕ, zero, suc, ◌+◌, ◌^◌, ◌≤◌, ◌<◌, ◌≡◌, refl, ◌↔◌, bit_and, bit_or, true, arith, ◌==◌,
}
use native.Mathlib.Nat.{one-le-pow}
use tesla.Base.Bits.{bit, subset, subset-bit, subset-of_bits, bit-or, and-bit}
use tesla.Types.{Key, word, key_size}
use tesla.Key.{words_match, key_matches}

-- Every variable that the pattern has or leaves free is set in the key, and the two agree on those
-- that the pattern has.
pub record Matches (pattern k : Key) : Type 0 where
  pub set : (i : ℕ) → bit pattern.mask i ≡ true → bit k.mask i ≡ true
  pub free : (i : ℕ) → bit pattern.freemask i ≡ true → bit k.mask i ≡ true
  pub agree :
      (i : ℕ) → i < key_size → bit pattern.mask i ≡ true → word pattern.keys i ≡ word k.keys i

abbrev Agree : ℕ → ℕ → Key → Key → Type 0
Agree rounds i p k =
    (j : ℕ) → i ≤ j → j < i + rounds → bit p.mask j ≡ true → word p.keys j ≡ word k.keys j

-- The test of a mask in the loop of `tesla_key_matches`.
and-eq-bit : (m i : ℕ) → (bit_and m (2 ^ i) == 2 ^ i) ≡ bit m i
and-eq-bit m i = ground (arith, and-bit m i, one-le-pow i 2)

words_match-Agree : (n i : ℕ) (p k : Key) → words_match n i p k ≡ true → Agree n i p k
unfolding words_match
words_match-Agree zero i p k h j le lt b = absurd (omega arith)
words_match-Agree (suc n) i p k h j le lt b =
    grind (arith, and-eq-bit p.mask i, words_match-Agree n (i + 1) p k)

Agree-words_match : (n i : ℕ) (p k : Key) → Agree n i p k → words_match n i p k ≡ true
unfolding words_match
Agree-words_match zero i p k h = refl
Agree-words_match (suc n) i p k h =
    let rest = Agree-words_match n (i + 1) p k (λ j le lt b. h j (omega arith) (omega arith) b) in
    ground (arith, and-eq-bit p.mask i, h i (omega arith) (omega arith), rest)

-- A key matches a pattern in the sense of `tesla_key_matches` exactly when `Matches` holds: the
-- pattern's set and free variables are set in the key, and the values that the pattern has agree.
pub key_matches-Matches : (p k : Key) → (key_matches p k ≡ true) ↔ Matches p k
unfolding key_matches
key_matches-Matches p k = (
  λ h.
      let all : subset (bit_or p.mask p.freemask) k.mask ≡ true = ground arith in
      let rest : words_match key_size 0 p k ≡ true = ground arith in
      record {
        set = λ i b. subset-bit _ _ i all (rw (bit-or p.mask p.freemask i, b));
        free = λ i b. subset-bit _ _ i all (ground (arith, bit-or p.mask p.freemask i));
        agree = λ i lt b. words_match-Agree key_size 0 p k rest i (omega arith) lt b;
      },
  λ m.
      let all : subset (bit_or p.mask p.freemask) k.mask ≡ true =
        subset-of_bits _ _ (λ i b. ground (arith, bit-or p.mask p.freemask i, m.set i, m.free i)) in
      let rest : words_match key_size 0 p k ≡ true =
        Agree-words_match key_size 0 p k (λ j le lt b. m.agree j lt b) in
      ground arith,
)

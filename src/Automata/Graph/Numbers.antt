-- ===== src/Automata/Graph/Numbers.antt =====
-- The addresses of transitions: the places at which `Register` puts them.
use mathlib.Core.List.Memᴰ
use mathlib.Core.List.{Memᴰ}
use tesla.Base.{
  ==_iff, Bool, List, [], ap, arith, inl, inr, length, length-append, mem-one, suc, sym, true, ℕ,
  ◌&&◌, ◌++◌, ◌+◌, ◌<◌, ◌==◌, ◌∙◌, ◌∷◌, ◌≡◌, ◌≤◌,
}
use tesla.Automata.{GraphTransition}
use tesla.Ir.Equal.{and-true}

-- The transitions have addresses of their own, below their number.
pub record Numbered (ts : List GraphTransition) : Type 0 where
  pub below : (t : GraphTransition) → Memᴰ t ts → t.address < length ts
  pub unique : (t u : GraphTransition) → Memᴰ t ts → Memᴰ u ts → t.address ≡ u.address → t ≡ u

pub Numbered-nil : Numbered []
Numbered-nil = record {
  below = λ t m. absurd (Memᴰ.not-nil m);
  unique = λ t u m. absurd (Memᴰ.not-nil m);
}

pub Numbered-snoc :
    (ts : List GraphTransition) (t : GraphTransition)
    → Numbered ts
    → t.address ≡ length ts
    → Numbered (ts ++ t ∷ [])
Numbered-snoc ts t n e = record {
  below = λ u m. elim (Memᴰ.append_cases ts m) [
    | inl old ↦ omega (arith, n.below u old, longer)
    | inr new ↦ omega (arith, place u new, longer)
  ];
  unique = λ u v m k same. elim (Memᴰ.append_cases ts m) [
    | inl old ↦ elim (Memᴰ.append_cases ts k) [
      | inl old' ↦ n.unique u v old old' same
      | inr new' ↦ absurd (apart u v old new' same)
    ]
    | inr new ↦ elim (Memᴰ.append_cases ts k) [
      | inl old' ↦ absurd (apart v u old' new (sym same))
      | inr new' ↦ mem-one new ∙ sym (mem-one new')
    ]
  ];
}
  where
    longer : length (ts ++ t ∷ []) ≡ length ts + 1
    longer = length-append ts (t ∷ [])

    place : (u : GraphTransition) → Memᴰ u (t ∷ []) → u.address ≡ length ts
    place u m = ap (λ (x : GraphTransition). x.address) (mem-one m) ∙ e

    apart : (u v : GraphTransition) → Memᴰ u ts → Memᴰ v (t ∷ []) → u.address ≡ v.address → ⊥
    apart u v old new same =
        let under = n.below u old in let at = place v new in omega (arith, under, at, same)

-- A test: the addresses are those from `k`, in order.
abbrev pub numbered_from : ℕ → List GraphTransition → Bool
numbered_from k [] = true
numbered_from k (t ∷ ts) = t.address == k && numbered_from (suc k) ts

numbered_from-above :
    (k : ℕ) (ts : List GraphTransition) (t : GraphTransition)
    → numbered_from k ts ≡ true
    → Memᴰ t ts
    → (k ≤ t.address) × (t.address < k + length ts)
numbered_from-above k [] t h m = absurd (Memᴰ.not-nil m)
numbered_from-above k (u ∷ ts) t h m =
    let (first, rest) = and-true (u.address == k) (numbered_from (suc k) ts) h in
    elim (Memᴰ.cases_cons m) [
      | inl is ↦
          let at : t.address ≡ k =
            ap (λ (x : GraphTransition). x.address) is ∙ (==_iff u.address k).0 first in
          (omega (arith, at), omega (arith, at))
      | inr later ↦
          let (above, under) = numbered_from-above (suc k) ts t rest later in
          (omega (arith, above), omega (arith, under))
    ]

numbered_from_unique :
    (k : ℕ) (ts : List GraphTransition) (t u : GraphTransition)
    → numbered_from k ts ≡ true
    → Memᴰ t ts
    → Memᴰ u ts
    → t.address ≡ u.address
    → t ≡ u
numbered_from_unique k [] t u h m n same = absurd (Memᴰ.not-nil m)
numbered_from_unique k (x ∷ ts) t u h m n same =
    let (first, rest) = and-true (x.address == k) (numbered_from (suc k) ts) h in
    let at : x.address ≡ k = (==_iff x.address k).0 first in
    let apart =
      λ (v : GraphTransition) (later : Memᴰ v ts). numbered_from-above (suc k) ts v rest later in
    let here = λ (v : GraphTransition) (is : v ≡ x). ap (λ (y : GraphTransition). y.address) is in
    elim (Memᴰ.cases_cons m) [
      | inl is ↦ elim (Memᴰ.cases_cons n) [
        | inl is' ↦ is ∙ sym is'
        | inr later ↦ absurd (omega (arith, at, here t is, (apart u later).0, same))
      ]
      | inr later ↦ elim (Memᴰ.cases_cons n) [
        | inl is' ↦ absurd (omega (arith, at, here u is', (apart t later).0, same))
        | inr later' ↦ numbered_from_unique (suc k) ts t u rest later later' same
      ]
    ]

pub numbered_from-Numbered : (ts : List GraphTransition) → numbered_from 0 ts ≡ true → Numbered ts
numbered_from-Numbered ts h = record {
  below = λ t m. omega (arith, (numbered_from-above 0 ts t h m).1);
  unique = λ t u. numbered_from_unique 0 ts t u h;
}

-- ===== src/Automata/Graph/Out.antt =====
-- The transitions of a state.
use mathlib.Core.List.Memᴰ
use mathlib.Core.Bool.{true≢false}
use mathlib.Core.List.{Memᴰ}
use mathlib.Core.Path.{subst}
use tesla.Base.{
  ==_iff, Bool-cases, List, [], ap, if◌then◌else◌, inl, inr, sym, ℕ, ◌==◌, ◌∙◌, ◌∷◌, ◌≡◌,
}
use tesla.Automata.{GraphTransition}
use tesla.Automata.Graph.{out_of}

-- They are the transitions that leave it.
pub out_of-mem :
    (s : ℕ) (ts : List GraphTransition) (t : GraphTransition)
    → Memᴰ t (out_of s ts)
    → Memᴰ t ts × (t.from ≡ s)
unfolding out_of
out_of-mem s [] t m = absurd (Memᴰ.not-nil m)
out_of-mem s (u ∷ ts) t m = elim (Bool-cases (u.from == s)) [
  | inl same ↦
      let m' : Memᴰ t (u ∷ out_of s ts) =
        subst (λ b. Memᴰ t (if b then u ∷ out_of s ts else out_of s ts)) same m in
      elim (Memᴰ.cases_cons m') [
        | inl is ↦
            (Memᴰ.head is, ap (λ (x : GraphTransition). x.from) is ∙ (==_iff u.from s).0 same)
        | inr later ↦ let (k, e) = out_of-mem s ts t later in (Memᴰ.tail k, e)
      ]
  | inr other ↦
      let m' : Memᴰ t (out_of s ts) =
        subst (λ b. Memᴰ t (if b then u ∷ out_of s ts else out_of s ts)) other m in
      let (k, e) = out_of-mem s ts t m' in (Memᴰ.tail k, e)
]

-- Each transition leaves its source.
pub out_of-has :
    (s : ℕ) (ts : List GraphTransition) (t : GraphTransition)
    → Memᴰ t ts
    → t.from ≡ s
    → Memᴰ t (out_of s ts)
unfolding out_of
out_of-has s [] t m e = absurd (Memᴰ.not-nil m)
out_of-has s (u ∷ ts) t m e = elim (Bool-cases (u.from == s)) [
  | inl same ↦ rw same (elim (Memᴰ.cases_cons m) [
    | inl is ↦ Memᴰ.head is
    | inr later ↦ Memᴰ.tail (out_of-has s ts t later e)
  ])
  | inr other ↦ elim (Memᴰ.cases_cons m) [
    | inl is ↦
        let at : u.from ≡ s = sym (ap (λ (x : GraphTransition). x.from) is) ∙ e in
        absurd (true≢false (sym ((==_iff u.from s).1 at) ∙ other))
    | inr later ↦ rw other (out_of-has s ts t later e)
  ]
]

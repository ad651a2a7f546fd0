-- ===== src/Automata/Classes/Grouping.antt =====
-- One step of `GroupClasses`: a transition joins the class of its equivalents, or begins a new one.
use mathlib.Core.List.Memᴰ
use mathlib.Core.List.{Memᴰ}
use mathlib.Core.Path.{subst}
use tesla.Base.{
  Bool-cases, List, Option, [], arith, false, inl, inr, length, mem-one, ok, refl, some, suc, sym,
  true, zero, ℕ, ◌++◌, ◌+◌, ◌>>=◌, ◌∙◌, ◌∷◌, ◌≡◌, ◌⊎◌,
}
use tesla.Automata.{GraphTransition, equivalent}
use tesla.Automata.Classes.{EquivalenceClass, insert}
use tesla.Automata.Equivalent.{equivalent_comm, equivalent_self, equivalent_symm, equivalent_trans}

-- `begin` of a class that is not empty points to one of its transitions.
abbrev pub IsBegin : (List GraphTransition → Option GraphTransition) → Type 0
IsBegin begin =
    (t : GraphTransition) (ts : List GraphTransition)
    → Memᴰ t ts
    → (h : GraphTransition) × (begin ts ≡ some h) × Memᴰ h ts

-- `t` is a transition of class number `i`.
pub data InClass (t : GraphTransition) : ℕ → List EquivalenceClass → Type 0 where
  here :
      {c : EquivalenceClass} {cs : List EquivalenceClass}
      → Memᴰ t c.transitions
      → InClass t 0 (c ∷ cs)
  there :
      {c : EquivalenceClass} {cs : List EquivalenceClass} {i : ℕ}
      → InClass t i cs
      → InClass t (suc i) (c ∷ cs)

-- The members of one class: all equivalent, and at least one.
pub record Uniform (ts : List GraphTransition) : Type 0 where
  pub first : GraphTransition
  pub first_in : Memᴰ first ts
  pub alike : (t : GraphTransition) → Memᴰ t ts → equivalent first.label t.label ≡ true

abbrev pub Apart : List GraphTransition → List EquivalenceClass → Type 0
Apart ts cs =
    (t u : GraphTransition) (i : ℕ)
    → Memᴰ t ts
    → InClass u i cs
    → equivalent t.label u.label ≡ false

-- The classes from number `n`.
abbrev pub Grouped : ℕ → List EquivalenceClass → Type 0
Grouped n [] = Unit {0}
Grouped n (c ∷ cs) =
    (c.symbol ≡ n) × Uniform c.transitions × Apart c.transitions cs × Grouped (suc n) cs

-- What the insertion of `t` gives.
pub record Inserted (t : GraphTransition) (n : ℕ) (old new : List EquivalenceClass) : Type 0 where
  pub grouped : Grouped n new
  pub added : (i : ℕ) × InClass t i new
  pub kept : (u : GraphTransition) (i : ℕ) → InClass u i old → InClass u i new
  pub origin : (u : GraphTransition) (i : ℕ) → InClass u i new → (u ≡ t) ⊎ InClass u i old

module _ (t : GraphTransition) where
  Uniform-one : Uniform (t ∷ [])
  Uniform-one = record {
    first = t;
    first_in = Memᴰ.head refl;
    alike = λ u m. rw (mem-one m, equivalent_self);
  }

  -- A class keeps its promise with one more equivalent member.
  Uniform-append :
      (ts : List GraphTransition) (u : Uniform ts) (h : GraphTransition)
      → Memᴰ h ts
      → equivalent h.label t.label ≡ true
      → Uniform (ts ++ t ∷ [])
  Uniform-append ts u h m e = record {
    first = u.first;
    first_in = Memᴰ.append_left (t ∷ []) u.first_in;
    alike = λ v k. elim (Memᴰ.append_cases ts k) [
      | inl old ↦ u.alike v old
      | inr new ↦
          let last = equivalent_trans u.first.label h.label t.label (u.alike h m) e in
          rw (mem-one new, last)
    ];
  }

  -- A transition in the first class, before and after `t` has joined it.
  join-kept :
      (c : EquivalenceClass) (cs : List EquivalenceClass) (u : GraphTransition) (i : ℕ)
      → InClass u i (c ∷ cs)
      → InClass u i (record c { transitions = c.transitions ++ t ∷ [] } ∷ cs)
  join-kept c cs u zero (InClass.here m) = InClass.here (Memᴰ.append_left (t ∷ []) m)
  join-kept c cs u (suc i) (InClass.there m) = InClass.there m

  join-origin :
      (c : EquivalenceClass) (cs : List EquivalenceClass) (u : GraphTransition) (i : ℕ)
      → InClass u i (record c { transitions = c.transitions ++ t ∷ [] } ∷ cs)
      → (u ≡ t) ⊎ InClass u i (c ∷ cs)
  join-origin c cs u zero (InClass.here m) = elim (Memᴰ.append_cases c.transitions m) [
    | inl old ↦ inr (InClass.here old)
    | inr new ↦ inl (mem-one new)
  ]
  join-origin c cs u (suc i) (InClass.there m) = inr (InClass.there m)

  module _ (c : EquivalenceClass) (cs new : List EquivalenceClass) where
    later-kept :
        ((u : GraphTransition) (i : ℕ) → InClass u i cs → InClass u i new)
        → (u : GraphTransition) (i : ℕ) → InClass u i (c ∷ cs)
        → InClass u i (c ∷ new)
    later-kept f u zero (InClass.here m) = InClass.here m
    later-kept f u (suc i) (InClass.there m) = InClass.there (f u i m)

    later-origin :
        ((u : GraphTransition) (i : ℕ) → InClass u i new → (u ≡ t) ⊎ InClass u i cs)
        → (u : GraphTransition) (i : ℕ) → InClass u i (c ∷ new)
        → (u ≡ t) ⊎ InClass u i (c ∷ cs)
    later-origin f u zero (InClass.here m) = inr (InClass.here m)
    later-origin f u (suc i) (InClass.there m) = elim (f u i m) [
      | inl e ↦ inl e
      | inr old ↦ inr (InClass.there old)
    ]

pub InClass-nil : {u : GraphTransition} {i : ℕ} → InClass u i [] → ⊥
InClass-nil m = elim m [ ]

one-origin :
    (t u : GraphTransition) (i size : ℕ)
    → InClass u i (record { symbol = size; transitions = t ∷ [] } ∷ [])
    → (u ≡ t) ⊎ InClass u i []
one-origin t u zero size (InClass.here m) = inl (mem-one m)
one-origin t u (suc i) size (InClass.there m) = absurd (InClass-nil m)

-- An equivalent of a member is equivalent to what the member is equivalent to.
through :
    (t h u : GraphTransition)
    → equivalent h.label t.label ≡ true
    → equivalent h.label u.label ≡ false
    → equivalent t.label u.label ≡ false
through t h u e f = elim (Bool-cases (equivalent t.label u.label)) [
  | inl same ↦ let near = equivalent_trans h.label t.label u.label e same in cc
  | inr differs ↦ differs
]

module _ (t h : GraphTransition) (c : EquivalenceClass) (cs : List EquivalenceClass) where
  module _ (m : Memᴰ h c.transitions) (apart : Apart c.transitions cs) where
    -- `t` joins the class of `h`.
    join-Apart : equivalent h.label t.label ≡ true → Apart (c.transitions ++ t ∷ []) cs
    join-Apart same x u i k l = elim (Memᴰ.append_cases c.transitions k) [
      | inl old ↦ apart x u i old l
      | inr new ↦
          subst (λ v. equivalent v.label u.label ≡ false) (sym (mem-one new))
            (through t h u same (apart h u i m l))
    ]

    -- `t` goes to a later class.
    later-Apart :
        (new : List EquivalenceClass)
        → Uniform c.transitions
        → equivalent t.label h.label ≡ false
        → ((u : GraphTransition) (i : ℕ) → InClass u i new → (u ≡ t) ⊎ InClass u i cs)
        → Apart c.transitions new
    later-Apart new uniform differs origin x u i k l = elim (origin u i l) [
      | inl same ↦
          let apart_t = equivalent_comm h.label t.label ∙ differs in
          let near =
            equivalent_trans h.label uniform.first.label x.label
              (equivalent_symm uniform.first.label h.label (uniform.alike h m))
              (uniform.alike x k) in
          subst (λ v. equivalent x.label v.label ≡ false) (sym same) (through x h t near apart_t)
      | inr old ↦ apart x u i k old
    ]

module _ (begin : List GraphTransition → Option GraphTransition) (b : IsBegin begin) where
  pub insert-Inserted :
      (t : GraphTransition) (cs : List EquivalenceClass) (n size : ℕ)
      → size ≡ n + length cs
      → Grouped n cs
      → (new : List EquivalenceClass) × (insert begin t cs size ≡ ok new) × Inserted t n cs new
  unfolding insert
  insert-Inserted t [] n size e g = (
    record { symbol = size; transitions = t ∷ [] } ∷ [],
    refl,
    record {
      grouped = (omega (arith, e), Uniform-one t, λ x u i m k. absurd (InClass-nil k), tt);
      added = (0, InClass.here (Memᴰ.head refl));
      kept = λ u i m. absurd (InClass-nil m);
      origin = λ u i m. one-origin t u i size m;
    },
  )
  insert-Inserted t (c ∷ cs) n size e (number, uniform, apart, rest) =
      let (h, at, m) = b uniform.first c.transitions uniform.first_in in
      elim (Bool-cases (equivalent t.label h.label)) [
        | inl same ↦
            let back = equivalent_symm t.label h.label same in
            (
              record c { transitions = c.transitions ++ t ∷ [] } ∷ cs,
              rw (at, ◌>>=◌, same, back, insert),
              record {
                grouped = (
                  number,
                  Uniform-append t c.transitions uniform h m back,
                  join-Apart t h c cs m apart back,
                  rest,
                );
                added = (0, InClass.here (Memᴰ.append_right c.transitions (Memᴰ.head refl)));
                kept = join-kept t c cs;
                origin = join-origin t c cs;
              },
            )
        | inr differs ↦
            let (new, run, i) = insert-Inserted t cs (suc n) size (omega (arith, e)) rest in
            (
              c ∷ new,
              rw (at, ◌>>=◌, differs, run, insert),
              record {
                grouped = (
                  number,
                  uniform,
                  later-Apart t h c cs m apart new uniform differs i.origin,
                  i.grouped,
                );
                added = (suc i.added.0, InClass.there i.added.1);
                kept = later-kept t c cs new i.kept;
                origin = later-origin t c cs new i.origin;
              },
            )
      ]

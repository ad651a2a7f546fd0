-- ===== src/Automata/Graph/Placed.antt =====
-- tesla/common/State.cpp and Transition.cpp: where a list of references has a reference.
use mathlib.Core.List.Memᴰ
use mathlib.Core.List.{Memᴰ}
use mathlib.Core.Option.{some-injective}
use mathlib.Core.Path.{subst}
use tesla.Base.{
  ==_iff, Bool, List, Option, Option-cases, [], ap, arith, get_elem?, inl, inr, none, refl,
  replicate, set, some, suc, sym, true, zero, ℕ, ◌&&◌, ◌+◌, ◌==◌, ◌∙◌, ◌∷◌, ◌≡◌, ◌⊎◌,
}
use tesla.Automata.{Label, label_arguments, receiver_of}
use tesla.Automata.Graph.{
  GraphState, count_references, known, made_state, my_references, overlay, own_references,
  place_reference, place_variable, references_thus_far,
}
use tesla.Ir.{Argument, arg_index}
use tesla.Ir.Equal.{and-true}

-- Each reference of the list, which begins at index `n`, is at its own index.
abbrev pub Placed : ℕ → List (Option Argument) → Type 0
Placed n rs = (i : ℕ) (a : Argument) → get_elem? rs i ≡ some (some a) → arg_index a ≡ some (n + i)

Placed-nil : (n : ℕ) → Placed n []
Placed-nil n i a e = cc

pub Placed-tail :
    (n : ℕ) (r : Option Argument) (rs : List (Option Argument))
    → Placed n (r ∷ rs)
    → Placed (n + 1) rs
Placed-tail n r rs p i a e = subst (λ x. arg_index a ≡ some x) (omega arith) (p (suc i) a e)

Placed-cons :
    (n : ℕ) (r : Option Argument) (rs : List (Option Argument))
    → ((a : Argument) → r ≡ some a → arg_index a ≡ some n)
    → Placed (n + 1) rs
    → Placed n (r ∷ rs)
Placed-cons n r rs h p zero a e =
    subst (λ x. arg_index a ≡ some x) (omega arith) (h a (some-injective r (some a) e))
Placed-cons n r rs h p (suc i) a e = subst (λ x. arg_index a ≡ some x) (omega arith) (p i a e)

Placed-head :
    (n : ℕ) (r : Option Argument) (rs : List (Option Argument))
    → Placed n (r ∷ rs)
    → (a : Argument) → r ≡ some a
    → arg_index a ≡ some n
Placed-head n r rs p a e = subst (λ x. arg_index a ≡ some x) (omega arith) (p 0 a (ap some e))

place_reference-Placed :
    (i n : ℕ) (a : Argument) (rs : List (Option Argument))
    → arg_index a ≡ some (n + i)
    → Placed n rs
    → Placed n (place_reference i a rs)
unfolding place_reference
place_reference-Placed zero n a [] e p =
    Placed-cons n (some a) []
      (λ b q.
        subst (λ x. arg_index x ≡ some n) (some-injective a b q)
          (subst (λ x. arg_index a ≡ some x) (omega arith) e))
      (Placed-nil (n + 1))
place_reference-Placed zero n a (r ∷ rs) e p =
    Placed-cons n (some a) rs
      (λ b q.
        subst (λ x. arg_index x ≡ some n) (some-injective a b q)
          (subst (λ x. arg_index a ≡ some x) (omega arith) e))
      (Placed-tail n r rs p)
place_reference-Placed (suc i) n a [] e p =
    Placed-cons n none (place_reference i a []) (λ b q. cc)
      (place_reference-Placed i (n + 1) a [] (subst (λ x. arg_index a ≡ some x) (omega arith) e)
        (Placed-nil (n + 1)))
place_reference-Placed (suc i) n a (r ∷ rs) e p =
    Placed-cons n r (place_reference i a rs) (Placed-head n r rs p) (
      place_reference-Placed i (n + 1) a rs (subst (λ x. arg_index a ≡ some x) (omega arith) e)
        (Placed-tail n r rs p))

place_variable-Placed :
    (a : Argument) (rs : List (Option Argument)) → Placed 0 rs → Placed 0 (place_variable a rs)
unfolding place_variable
place_variable-Placed a rs p = elim (Option-cases (arg_index a)) [
  | inl without ↦ rw (without, place_variable) p
  | inr (i, e) ↦
      rw (e, place_variable) (place_reference-Placed i 0 a rs (e ∙ ap some (omega arith)) p)
]

my_references-Placed :
    (args : List Argument) (rs : List (Option Argument))
    → Placed 0 rs
    → Placed 0 (my_references args rs)
unfolding my_references
my_references-Placed [] rs p = p
my_references-Placed (a ∷ args) rs p =
    my_references-Placed args (place_variable a rs) (place_variable-Placed a rs p)

own_references-Placed : (l : Label) → Placed 0 (own_references l)
unfolding own_references
own_references-Placed l =
    let p = my_references-Placed (label_arguments l) [] (Placed-nil 0) in
    elim (Option-cases (receiver_of l)) [
      | inl without ↦ rw (without, own_references) p
      | inr (a, e) ↦
          rw (e, own_references) (place_variable-Placed a (my_references (label_arguments l) []) p)
    ]

overlay-Placed :
    (n : ℕ) (mine rs : List (Option Argument))
    → Placed n mine
    → Placed n rs
    → Placed n (overlay mine rs)
unfolding overlay
overlay-Placed n mine [] p q = Placed-nil n
overlay-Placed n [] (r ∷ rs) p q =
    Placed-cons n r (overlay [] rs) (Placed-head n r rs q)
      (overlay-Placed (n + 1) [] rs (Placed-nil (n + 1)) (Placed-tail n r rs q))
overlay-Placed n (none ∷ mine) (r ∷ rs) p q =
    Placed-cons n r (overlay mine rs) (Placed-head n r rs q)
      (overlay-Placed (n + 1) mine rs (Placed-tail n none mine p) (Placed-tail n r rs q))
overlay-Placed n (some a ∷ mine) (r ∷ rs) p q =
    Placed-cons n (some a) (overlay mine rs) (Placed-head n (some a) mine p)
      (overlay-Placed (n + 1) mine rs (Placed-tail n (some a) mine p) (Placed-tail n r rs q))

pub references_thus_far-Placed :
    (l : Label) (source : GraphState)
    → Placed 0 (known source)
    → Placed 0 (references_thus_far l source)
unfolding references_thus_far
references_thus_far-Placed l source =
    overlay-Placed 0 (own_references l) (known source) (own_references-Placed l)

-- The references of each state are at their indices.
abbrev pub AllPlaced : List GraphState → Type 0
AllPlaced states = (s : GraphState) → Memᴰ s states → Placed 0 (known s)

blanks-Placed : (n m : ℕ) → Placed m (replicate n none)
blanks-Placed zero m = Placed-nil m
blanks-Placed (suc n) m =
    Placed-cons m none (replicate n none) (λ a e. cc) (blanks-Placed n (m + 1))

pub made_state-Placed :
    (start accept : Bool) (count : Option ℕ) → Placed 0 (known (made_state start accept count))
made_state-Placed start accept none = Placed-nil 0
made_state-Placed start accept (some n) = blanks-Placed n 0

pub get_elem?-mem : {A : Type 0} (xs : List A) (i : ℕ) (x : A) → get_elem? xs i ≡ some x → Memᴰ x xs
get_elem?-mem [] i x e = cc
get_elem?-mem (y ∷ ys) zero x e =
    subst (λ z. Memᴰ z (y ∷ ys)) (some-injective y x e) (Memᴰ.head refl)
get_elem?-mem (y ∷ ys) (suc i) x e = Memᴰ.tail (get_elem?-mem ys i x e)

pub mem-set :
    {A : Type 0} (xs : List A) (i : ℕ) (x y : A) → Memᴰ x (set xs i y) → (x ≡ y) ⊎ Memᴰ x xs
mem-set [] i x y m = absurd (Memᴰ.not-nil m)
mem-set (z ∷ zs) zero x y m = elim (Memᴰ.cases_cons m) [
  | inl same ↦ inl same
  | inr later ↦ inr (Memᴰ.tail later)
]
mem-set (z ∷ zs) (suc i) x y m = elim (Memᴰ.cases_cons m) [
  | inl same ↦ inr (subst (λ v. Memᴰ v (z ∷ zs)) (sym same) (Memᴰ.head refl))
  | inr later ↦ elim (mem-set zs i x y later) [
    | inl same ↦ inl same
    | inr old ↦ inr (Memᴰ.tail old)
  ]
]

-- A test of the states of a graph: none knows a reference.
abbrev pub all_blank : List GraphState → Bool
all_blank [] = true
all_blank (s ∷ states) = (count_references (known s) == 0) && all_blank states

count-Placed : (n : ℕ) (rs : List (Option Argument)) → count_references rs ≡ 0 → Placed n rs
unfolding count_references
count-Placed n [] e = Placed-nil n
count-Placed n (none ∷ rs) e = Placed-cons n none rs (λ a q. cc) (count-Placed (n + 1) rs e)
count-Placed n (some a ∷ rs) e = absurd (omega (arith, e))

pub all_blank-AllPlaced : (states : List GraphState) → all_blank states ≡ true → AllPlaced states
all_blank-AllPlaced [] h s m = absurd (Memᴰ.not-nil m)
all_blank-AllPlaced (x ∷ states) h s m =
    let (first, rest) = and-true (count_references (known x) == 0) (all_blank states) h in
    elim (Memᴰ.cases_cons m) [
      | inl same ↦
          subst (λ z. Placed 0 (known z)) (sym same)
            (count-Placed 0 (known x) ((==_iff (count_references (known x)) 0).0 first))
      | inr later ↦ all_blank-AllPlaced states rest s later
    ]

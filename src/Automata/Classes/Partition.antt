-- ===== src/Automata/Classes/Partition.antt =====
-- `GroupClasses` on a list of transitions, one after the other.
use mathlib.Core.List.Memᴰ
use mathlib.Core.List.{Memᴰ}
use mathlib.Core.Option.{some-injective}
use mathlib.Core.Path.{subst}
use tesla.Base.{
  List, Option, Returns, [], ap, arith, get_elem?, inl, inr, length, ok, refl, some, suc, sym, true,
  zero, ℕ, ◌+◌, ◌>>=◌, ◌↔◌, ◌∙◌, ◌∷◌, ◌≡◌, ◌⊎◌,
}
use tesla.Automata.{GraphTransition, equivalent}
use tesla.Automata.Classes.{EquivalenceClass, group_classes}
use tesla.Automata.Classes.Grouping.{Grouped, InClass, InClass-nil, IsBegin, insert-Inserted}
use tesla.Automata.Equivalent.{equivalent_comm, equivalent_symm, equivalent_trans}

module _ (begin : List GraphTransition → Option GraphTransition) (b : IsBegin begin) where
  -- All the transitions, one after the other.
  pub record Whole (ts : List GraphTransition) (old new : List EquivalenceClass) : Type 0 where
    pub grouped : Grouped 0 new
    pub all_in : (t : GraphTransition) → Memᴰ t ts → (i : ℕ) × InClass t i new
    pub kept : (u : GraphTransition) (i : ℕ) → InClass u i old → InClass u i new
    pub origin : (u : GraphTransition) (i : ℕ) → InClass u i new → Memᴰ u ts ⊎ InClass u i old

  pub group_classes-Whole :
      (ts : List GraphTransition) (cs : List EquivalenceClass)
      → Grouped 0 cs
      → (new : List EquivalenceClass) × (group_classes begin ts cs ≡ ok new) × Whole ts cs new
  unfolding group_classes
  group_classes-Whole [] cs g = (
    cs,
    refl,
    record { grouped = g; all_in = λ t m. elim m [ ]; kept = λ u i m. m; origin = λ u i m. inr m },
  )
  group_classes-Whole (t ∷ ts) cs g =
      let (one, run, i) = insert-Inserted begin b t cs 0 (length cs) (omega arith) g in
      let (new, runs, w) = group_classes-Whole ts one i.grouped in
      (
        new,
        rw (run, ◌>>=◌, runs),
        record {
          grouped = w.grouped;
          all_in = λ u m. elim (Memᴰ.cases_cons m) [
            | inl same ↦
                let (j, k) = i.added in (j, subst (λ v. InClass v j new) (sym same) (w.kept t j k))
            | inr later ↦ w.all_in u later
          ];
          kept = λ u j m. w.kept u j (i.kept u j m);
          origin = λ u j m. elim (w.origin u j m) [
            | inl later ↦ inl (Memᴰ.tail later)
            | inr older ↦ elim (i.origin u j older) [
              | inl same ↦ inl (Memᴰ.head same)
              | inr old ↦ inr old
            ]
          ];
        },
      )

-- Two members are equivalent exactly when their classes have the same number.
pub Grouped-classes :
    (n : ℕ) (cs : List EquivalenceClass) (t u : GraphTransition) (i j : ℕ)
    → Grouped n cs
    → InClass t i cs
    → InClass u j cs
    → (equivalent t.label u.label ≡ true) ↔ (i ≡ j)
Grouped-classes n [] t u i j g m k = absurd (InClass-nil m)
Grouped-classes n (c ∷ cs) t u zero zero (number, uniform, apart, rest) (InClass.here m)
      (InClass.here k) =
    (
      λ e. refl,
      λ e.
          equivalent_trans t.label uniform.first.label u.label
            (equivalent_symm uniform.first.label t.label (uniform.alike t m)) (uniform.alike u k),
    )
Grouped-classes n (c ∷ cs) t u zero (suc j) (number, uniform, apart, rest) (InClass.here m)
      (InClass.there k) =
    let differs = apart t u j m k in (λ e. cc, λ e. absurd (omega (arith, e)))
Grouped-classes n (c ∷ cs) t u (suc i) zero (number, uniform, apart, rest) (InClass.there m)
      (InClass.here k) =
    let differs = equivalent_comm t.label u.label ∙ apart u t i k m in
    (λ e. cc, λ e. absurd (omega (arith, e)))
Grouped-classes n (c ∷ cs) t u (suc i) (suc j) (number, uniform, apart, rest) (InClass.there m)
      (InClass.there k) =
    let (f, g) = Grouped-classes (suc n) cs t u i j rest m k in
    (λ e. ap suc (f e), λ e. g (omega (arith, e)))

-- The symbol of a class is its number.
Grouped-symbol :
    (n : ℕ) (cs : List EquivalenceClass) (i : ℕ) (c : EquivalenceClass)
    → Grouped n cs
    → get_elem? cs i ≡ some c
    → c.symbol ≡ n + i
Grouped-symbol n [] i c g e = cc
Grouped-symbol n (d ∷ cs) zero c (number, uniform, apart, rest) e =
    let same : c ≡ d = sym (some-injective d c e) in
    omega (arith, number, ap (λ (x : EquivalenceClass). x.symbol) same)
Grouped-symbol n (d ∷ cs) (suc i) c (number, uniform, apart, rest) e =
    omega (arith, Grouped-symbol (suc n) cs i c rest e)

-- Grouping a list of transitions succeeds, so its assertion holds, if `begin` of a class that is not
-- empty points to a member: every transition is in a class, no other transition is, two transitions
-- are equivalent exactly when they are in the same class, and the symbol of a class is its place.
pub group_classes-InClass :
    (begin : List GraphTransition → Option GraphTransition) (ts : List GraphTransition)
    → IsBegin begin
    → Returns (group_classes begin ts []) λ cs.
      ((t : GraphTransition) → Memᴰ t ts ↔ ((i : ℕ) × InClass t i cs))
      × ((t u : GraphTransition) (i j : ℕ)
          → InClass t i cs
          → InClass u j cs
          → (equivalent t.label u.label ≡ true) ↔ (i ≡ j))
      × ((i : ℕ) (c : EquivalenceClass) → get_elem? cs i ≡ some c → c.symbol ≡ i)
group_classes-InClass begin ts b =
    let (cs, run, w) = group_classes-Whole begin b ts [] tt in
    (
      cs,
      run,
      (
        λ t. (
          w.all_in t,
          λ m. elim (w.origin t m.0 m.1) [
            | inl is ↦ is
            | inr none_old ↦ absurd (InClass-nil none_old)
          ],
        ),
        λ t u i j. Grouped-classes 0 cs t u i j w.grouped,
        λ i c e. omega (arith, Grouped-symbol 0 cs i c w.grouped e),
      ),
    )

-- ===== src/NfaParser/InclusiveOr/Grid.antt =====
-- The grid of an inclusive or, and its conversion.
use mathlib.Core.List.Memᴰ
use mathlib.Core.List.{Memᴰ}
use mathlib.Core.Path.{subst}
use tesla.Base.{
  Avoids-bind, Avoids-weaken, Bool, List, Safe, [], ap, arith, false, inl, inr, length, ltb, refl,
  suc, sym, true, ℕ, ◌<◌, ◌||◌, ◌∙◌, ◌∷◌, ◌≡◌, ◌≤◌,
}
use tesla.Automata.{GraphTransition, Label}
use tesla.Automata.Graph.{Graph, copy, create}
use tesla.Automata.Graph.Safety.{
  Copied, Extends, Extends-self, Extends-trans, Linked, Valid, copy-Safe, create-Safe,
}
use tesla.NfaParser.InclusiveOr.{
  Row, convert_inclusive_or, copy_chain, epsilon_if, fill_grid, fill_row, first_row,
  reachable_between,
}
use tesla.NfaParser.InclusiveOr.Safety.{Chained, Of, copy_chain-Safe, reachable_between-Safe}

-- A row of the grid: states of the graph, one for each transition of the right side.
record RowOf (g : Graph) (n : ℕ) (r : Row × Graph) : Type 0 where
  grows : Extends g r.1
  inside : (s : ℕ) → Memᴰ s r.0 → s < length r.1.states
  count : length r.0 ≡ n

pub epsilon_if-Safe :
    (last : Bool) (from end : ℕ) (g : Graph)
    → Valid g
    → from < length g.states
    → end < length g.states
    → Safe (epsilon_if last from end g) (Extends g)
unfolding epsilon_if
epsilon_if-Safe true from end g v hf he =
    Avoids-weaken (Linked g) (Extends g) (create Label.null false false from end g)
      (create-Safe Label.null false false from end g v hf he) (λ g' l. l.grows)
epsilon_if-Safe false from end g v hf he = inl (g, refl, Extends-self g v)

row-cons :
    (x : ℕ) (row : Row) (n : ℕ)
    → x < n
    → ((s : ℕ) → Memᴰ s row → s < n)
    → (s : ℕ) → Memᴰ s (x ∷ row)
    → s < n
row-cons x row n h rest s m = elim (Memᴰ.cases_cons m) [
  | inl same ↦ subst (λ y. y < n) (sym same) h
  | inr later ↦ rest s later
]

fill_row-Safe :
    (t : GraphTransition) (end : ℕ) (last : Bool) (above : Row) (clones : List GraphTransition)
    (g : Graph)
    → Valid g
    → end < length g.states
    → ((s : ℕ) → Memᴰ s above → s < length g.states)
    → ((u : GraphTransition) → Memᴰ u clones → u.to < length g.states)
    → length clones ≤ length above
    → Safe (fill_row t end last above clones g) (RowOf g (length clones))
unfolding fill_row
fill_row-Safe t end last above [] g v he ha hc n = inl (
  _,
  refl,
  record { grows = Extends-self g v; inside = λ s m. absurd (Memᴰ.not-nil m); count = refl },
)
fill_row-Safe t end last [] (c ∷ clones) g v he ha hc n = absurd (omega arith)
fill_row-Safe t end last (source ∷ above) (c ∷ clones) g v he ha hc n =
    let to_inside = hc c (Memᴰ.head refl) in
    Avoids-bind (Copied t.label g) (RowOf g (suc (length clones))) (copy source c.to t false g) _
      (copy-Safe source c.to g v (ha source (Memᴰ.head refl)) to_inside t false)
      λ g₁ copied.
        let le₁ = copied.grows.states_le in
        Avoids-bind (Extends g₁) (RowOf g (suc (length clones)))
          (epsilon_if (last || ltb (length clones) 1) c.to end g₁) _
          (epsilon_if-Safe (last || ltb (length clones) 1) c.to end g₁ copied.grows.valid
            (omega (arith, to_inside, le₁)) (omega (arith, he, le₁)))
          λ g₂ ended.
            let le₂ = ended.states_le in
            Avoids-bind (RowOf g₂ (length clones)) (RowOf g (suc (length clones)))
              (fill_row t end last above clones g₂) _
              (fill_row-Safe t end last above clones g₂ ended.valid (omega (arith, he, le₁, le₂))
                (λ s m. let was = ha s (Memᴰ.tail m) in omega (arith, was, le₁, le₂))
                (λ u m. let was = hc u (Memᴰ.tail m) in omega (arith, was, le₁, le₂)) (omega arith))
              λ r row. inl (
                _,
                refl,
                record {
                  grows =
                      Extends-trans g g₁ r.1 copied.grows (Extends-trans g₁ g₂ r.1 ended row.grows);
                  inside =
                      row-cons c.to r.0 (length r.1.states)
                        (omega (arith, to_inside, le₁, le₂, row.grows.states_le)) row.inside;
                  count = ap suc row.count;
                },
              )

fill_grid-Safe :
    (lhs rhs : List GraphTransition) (rhs_start end : ℕ) (above : Row) (g : Graph)
    → Valid g
    → end < length g.states
    → ((u : GraphTransition) → Memᴰ u lhs → u.to < length g.states)
    → ((s : ℕ) → Memᴰ s above → s < length g.states)
    → length above ≡ length rhs
    → Safe (fill_grid lhs rhs rhs_start end above g) (Extends g)
unfolding fill_grid
fill_grid-Safe [] rhs rhs_start end above g v he hl ha n = inl (g, refl, Extends-self g v)
fill_grid-Safe (t ∷ lhs) rhs rhs_start end above g v he hl ha n =
    Avoids-bind (Chained g (length rhs)) (Extends g) (copy_chain rhs rhs_start t.to g) _
      (copy_chain-Safe rhs rhs_start t.to g v (hl t (Memᴰ.head refl)))
      λ c chain.
        let le₁ = chain.grows.states_le in
        let fits : length c.clone ≤ length above = omega (arith, chain.count, n) in
        Avoids-bind (RowOf c.graph (length c.clone)) (Extends g)
          (fill_row t end (ltb (length lhs) 1) above c.clone c.graph) _
          (fill_row-Safe t end (ltb (length lhs) 1) above c.clone c.graph chain.grows.valid
            (omega (arith, he, le₁)) (λ s m. let was = ha s m in omega (arith, was, le₁))
            chain.clones fits)
          λ r row.
            let le₂ = row.grows.states_le in
            Avoids-weaken (Extends r.1) (Extends g) (fill_grid lhs rhs rhs_start end r.0 r.1)
              (fill_grid-Safe lhs rhs rhs_start end r.0 r.1 row.grows.valid
                (omega (arith, he, le₁, le₂))
                (λ u m. let was = hl u (Memᴰ.tail m) in omega (arith, was, le₁, le₂)) row.inside
                (row.count ∙ chain.count))
              (λ g' more.
                Extends-trans g c.graph g' chain.grows
                  (Extends-trans c.graph r.1 g' row.grows more))

first_row-inside :
    (g : Graph) (ts : List GraphTransition) (s : ℕ)
    → Valid g
    → Of g ts
    → Memᴰ s (first_row ts)
    → s < length g.states
unfolding first_row
first_row-inside g [] s v h m = absurd (Memᴰ.not-nil m)
first_row-inside g (t ∷ ts) s v h m = elim (Memᴰ.cases_cons m) [
  | inl same ↦ subst (λ x. x < length g.states) (sym same) (v.inside t (h t (Memᴰ.head refl))).1
  | inr later ↦ first_row-inside g ts s v (λ u k. h u (Memᴰ.tail k)) later
]

length-first_row : (ts : List GraphTransition) → length (first_row ts) ≡ length ts
unfolding first_row
length-first_row [] = refl
length-first_row (t ∷ ts) = ap suc (length-first_row ts)

pub convert_inclusive_or-Safe :
    (xor_only : Bool) (lhs_start rhs_start lhs_final rhs_final end : ℕ) (g : Graph)
    → Valid g
    → end < length g.states
    → Safe (convert_inclusive_or xor_only lhs_start rhs_start lhs_final rhs_final end g) (Extends g)
unfolding convert_inclusive_or
convert_inclusive_or-Safe true lhs_start rhs_start lhs_final rhs_final end g v he =
    inl (g, refl, Extends-self g v)
convert_inclusive_or-Safe false lhs_start rhs_start lhs_final rhs_final end g v he =
    let fuel = suc (length g.transitions) in
    Avoids-bind (Of g) (Extends g) (reachable_between fuel g lhs_final [] lhs_start) _
      (reachable_between-Safe fuel g lhs_final lhs_start [] (λ t m. absurd (Memᴰ.not-nil m)))
      λ lhs of_lhs.
        Avoids-bind (Of g) (Extends g) (reachable_between fuel g rhs_final [] rhs_start) _
          (reachable_between-Safe fuel g rhs_final rhs_start [] (λ t m. absurd (Memᴰ.not-nil m)))
          λ rhs of_rhs.
            fill_grid-Safe lhs rhs rhs_start end (first_row rhs) g v he
              (λ u m. (v.inside u (of_lhs u m)).1) (λ s m. first_row-inside g rhs s v of_rhs m)
              (length-first_row rhs)

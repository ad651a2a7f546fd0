-- ===== src/Automata/Graph/References.antt =====
-- The checks of `State::UpdateReferences` in tesla/common/State.cpp read no reference that is not there.
use mathlib.Core.Path.{subst}
use tesla.Base.{
  Avoids-bind, Bool, Fault, List, Option, Run, Safe, Safe-read, [], arith, assert, false, get_elem?,
  inl, inr, leb, length, ltb, none, or-cases, read, refl, some, sym, true, ℕ, ◌+◌, ◌<◌, ◌==◌, ◌>>=◌,
  ◌>>◌, ◌||◌, ◌∷◌, ◌≡◌, ◌⊎◌,
}
use tesla.Automata.Graph.{
  agrees, agrees_at, all_agree, check_references, count_references, same_reference,
  update_references,
}
use tesla.Automata.Graph.Placed.{Placed, Placed-tail}
use tesla.Ir.{Argument, arg_index, or_default}
use tesla.Ir.Equal.{argument_eq}
use tesla.Store.{fit}

abbrev Well : {A : Type 0} → Run A → Type 0
Well run = Safe run (λ _. Unit {0})

Well-assert : (b : Bool) → Well (assert b)
Well-assert true = inl (tt, refl, tt)
Well-assert false = inr (Fault.assertion, refl, λ e. cc)

Well-bind :
    {A B : Type 0} (run : Run A) (next : A → Run B)
    → Well run
    → ((a : A) → Well (next a))
    → Well (run >>= next)
Well-bind run next h f = Avoids-bind (λ _. Unit {0}) (λ _. Unit {0}) run next h (λ a _. f a)

-- A run after an assertion, which holds if the run begins.
pub Safe-after {κ} :
    {A : Type 0} (Q : A → Type κ) (b : Bool) (run : Run A)
    → (b ≡ true → Safe run Q)
    → Safe (assert b >> run) Q
Safe-after Q true run h = h refl
Safe-after Q false run h = inr (Fault.assertion, refl, λ e. cc)

same_reference-Well : (a : Argument) (o : Option Argument) → Well (same_reference a o)
unfolding same_reference
same_reference-Well a none = inl (tt, refl, tt)
same_reference-Well a (some b) = Well-assert (argument_eq a b)

agrees_at-Well :
    (len : ℕ) (refs : List (Option Argument)) (a : Argument) (i : ℕ)
    → i < length refs
    → Well (agrees_at len refs a (some i))
unfolding agrees_at
agrees_at-Well len refs a i h =
    Avoids-bind (λ (r : Option Argument). get_elem? refs i ≡ some r) (λ _. Unit {0})
      (assert (leb i len) >> read refs i) (same_reference a)
      (Safe-after (λ (r : Option Argument). get_elem? refs i ≡ some r) (leb i len) (read refs i)
        (λ _. Safe-read refs i h))
      (λ r _. same_reference-Well a r)

-- New references, from index `n`, that are as many as the known ones, if there are any at all.
all_agree-Well :
    (len n : ℕ) (refs rs : List (Option Argument))
    → Placed n rs
    → (count_references rs ≡ 0) ⊎ (length refs ≡ n + length rs)
    → Well (all_agree len refs rs)
unfolding all_agree agrees count_references
all_agree-Well len n refs [] p fit = inl (tt, refl, tt)
all_agree-Well len n refs (none ∷ rs) p fit =
    all_agree-Well len (n + 1) refs rs (Placed-tail n none rs p)
      (elim fit [ inl empty ↦ inl empty | inr same ↦ inr (omega (arith, same)) ])
all_agree-Well len n refs (some a ∷ rs) p (inl empty) = absurd (omega (arith, empty))
all_agree-Well len n refs (some a ∷ rs) p (inr same) =
    let own : arg_index a ≡ some (n + 0) = p 0 a refl in
    Well-bind (agrees_at len refs a (arg_index a)) (λ _. all_agree len refs rs)
      (subst (λ o. Well (agrees_at len refs a o)) (sym own)
        (agrees_at-Well len refs a (n + 0) (omega (arith, same))))
      (λ _.
        all_agree-Well len (n + 1) refs rs (Placed-tail n (some a) rs p)
          (inr (omega (arith, same))))

check_references-Well :
    (refs new : List (Option Argument)) → Placed 0 new → Well (check_references refs new)
unfolding check_references
check_references-Well refs new p =
    Safe-after (λ _. Unit {0}) (count_references new == 0 || length refs == length new) _
      λ sizes. Well-bind (assert (ltb (length new) 32)) _ (Well-assert _) λ _.
        Well-bind (all_agree (length new) refs new) _
          (all_agree-Well (length new) 0 refs new p
            (elim (or-cases (count_references new == 0) (length refs == length new) sizes) [
              | inl empty ↦ inl (ground arith)
              | inr same ↦ inr (ground arith)
            ]))
          λ _. Well-assert _

-- What a state knows after an update is at its index.
pub update_references-Safe :
    (refs : Option (List (Option Argument))) (out_of_scope : Bool) (new : List (Option Argument))
    → Placed 0 (or_default refs [])
    → Placed 0 new
    → Safe (update_references refs out_of_scope new) (λ now. Placed 0 (or_default now []))
unfolding update_references
update_references-Safe none out_of_scope new p q =
    Safe-after (λ now. Placed 0 (or_default now [])) (ltb (length new) 32) _
      (λ _. inl (some new, refl, q))
update_references-Safe (some refs) true new p q = inl (some refs, refl, p)
update_references-Safe (some refs) false new p q =
    Avoids-bind (λ _. Unit {0}) (λ now. Placed 0 (or_default now [])) (check_references refs new) _
      (check_references-Well refs new q) (λ _ _. inl (some refs, refl, p))

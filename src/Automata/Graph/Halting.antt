-- ===== src/Automata/Graph/Halting.antt =====
-- The runs of a registration, which has no loop that depends on fuel.
use tesla.Base.{
  Avoids-bind, Bool, Fault, Halts, Halts-read, List, Option, Run, [], assert, bit_and, false, inl,
  inr, leb, length, ltb, none, not, ok, read, refl, some, true, ℕ, ◌==◌, ◌>>=◌, ◌>>◌, ◌||◌, ◌∷◌,
}
use tesla.Automata.{GraphTransition, Label}
use tesla.Automata.Graph.{
  Graph, agrees, agrees_at, all_agree, check_references, constant_mask, copy, copy_label,
  count_references, mask_of, references_thus_far, register, same_reference, update_references,
}
use tesla.Ir.{Argument, arg_index}
use tesla.Ir.Equal.{argument_eq}

abbrev Ends : {A : Type 0} → Run A → Type 0
Ends run = Halts run (λ _. Unit {0})

Ends-bind :
    {A B : Type 0} (run : Run A) (next : A → Run B)
    → Ends run
    → ((a : A) → Ends (next a))
    → Ends (run >>= next)
Ends-bind run next h f = Avoids-bind (λ _. Unit {0}) (λ _. Unit {0}) run next h (λ a _. f a)

Ends-ok : {A : Type 0} (a : A) → Ends (ok a)
Ends-ok a = inl (a, refl, tt)

-- A run under an assertion.
Ends-assert : {A : Type 0} (b : Bool) (run : Run A) → Ends run → Ends (assert b >> run)
Ends-assert true run h = h
Ends-assert false run h = inr (Fault.assertion, refl, λ e. cc)

assert-Ends : (b : Bool) → Ends (assert b)
assert-Ends true = Ends-ok tt
assert-Ends false = inr (Fault.assertion, refl, λ e. cc)

same_reference-Ends : (a : Argument) (o : Option Argument) → Ends (same_reference a o)
unfolding same_reference
same_reference-Ends a none = Ends-ok tt
same_reference-Ends a (some b) = assert-Ends (argument_eq a b)

agrees_at-Ends :
    (len : ℕ) (refs : List (Option Argument)) (a : Argument) (i : Option ℕ)
    → Ends (agrees_at len refs a i)
unfolding agrees_at
agrees_at-Ends len refs a none = Ends-ok tt
agrees_at-Ends len refs a (some i) =
    Ends-bind (assert (leb i len) >> read refs i) (same_reference a)
      (Ends-assert (leb i len) (read refs i) (Halts-read refs i)) (same_reference-Ends a)

all_agree-Ends : (len : ℕ) (refs rs : List (Option Argument)) → Ends (all_agree len refs rs)
unfolding all_agree agrees
all_agree-Ends len refs [] = Ends-ok tt
all_agree-Ends len refs (none ∷ rs) = all_agree-Ends len refs rs
all_agree-Ends len refs (some a ∷ rs) =
    Ends-bind (agrees_at len refs a (arg_index a)) (λ _. all_agree len refs rs)
      (agrees_at-Ends len refs a (arg_index a)) (λ _. all_agree-Ends len refs rs)

check_references-Ends : (refs new : List (Option Argument)) → Ends (check_references refs new)
unfolding check_references
check_references-Ends refs new =
    Ends-assert (count_references new == 0 || length refs == length new) _ (
      Ends-assert (ltb (length new) 32) _ (
        Ends-bind (all_agree (length new) refs new) _ (all_agree-Ends (length new) refs new) (λ _.
          assert-Ends (bit_and (mask_of refs 0) (constant_mask new 0 0) == constant_mask new 0 0))))

update_references-Ends :
    (refs : Option (List (Option Argument))) (out_of_scope : Bool) (new : List (Option Argument))
    → Ends (update_references refs out_of_scope new)
unfolding update_references
update_references-Ends none out_of_scope new =
    Ends-assert (ltb (length new) 32) _ (Ends-ok (some new))
update_references-Ends (some refs) true new = Ends-ok (some refs)
update_references-Ends (some refs) false new =
    Ends-bind (check_references refs new) _ (check_references-Ends refs new)
      (λ _. Ends-ok (some refs))

register-Ends :
    (l : Label) (init cleanup out_of_scope : Bool) (from to : ℕ) (g : Graph)
    → Ends (register l init cleanup out_of_scope from to g)
unfolding register
register-Ends l init cleanup out_of_scope from to g = Ends-assert (not (to == 0)) _ (
    Ends-bind (read g.states from) _ (Halts-read g.states from) λ source.
      Ends-bind (read g.states to) _ (Halts-read g.states to) λ target.
        Ends-bind (update_references target.references out_of_scope (references_thus_far l source))
          _ (update_references-Ends target.references out_of_scope (references_thus_far l source))
          λ now. Ends-ok _)

copy_label-Ends :
    (l : Label) (init cleanup out_of_scope : Bool) (from to : ℕ) (g : Graph)
    → Ends (copy_label l init cleanup out_of_scope from to g)
unfolding copy_label
copy_label-Ends Label.null init cleanup out_of_scope from to g =
    Ends-assert (not out_of_scope) (ok g) (Ends-ok g)
copy_label-Ends (Label.assert_site a r) init cleanup out_of_scope from to g =
    Ends-assert (not out_of_scope) _
      (register-Ends (Label.assert_site a r) init cleanup false from to g)
copy_label-Ends (Label.fn e) init cleanup out_of_scope from to g =
    register-Ends (Label.fn e) init cleanup out_of_scope from to g
copy_label-Ends (Label.field_assign e) init cleanup out_of_scope from to g =
    register-Ends (Label.field_assign e) init cleanup out_of_scope from to g
copy_label-Ends (Label.sub_automaton i) init cleanup out_of_scope from to g =
    Ends-assert (not out_of_scope) _
      (register-Ends (Label.sub_automaton i) false false false from to g)

-- Copying a transition ends, with a graph or with a failed assertion.
pub copy-Halts :
    (from to : ℕ) (t : GraphTransition) (leaves : Bool) (g : Graph)
    → Halts (copy from to t leaves g) (λ _. Unit {0})
unfolding copy
copy-Halts from to t leaves g =
    Ends-assert (not t.init || not (leaves || t.out_of_scope)) _
      (copy_label-Ends t.label t.init t.cleanup (leaves || t.out_of_scope) from to g)

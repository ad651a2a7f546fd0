-- ===== src/Automata/Graph/Added.antt =====
-- The graph that a registration gives: one transition more, at the end, and the same states but for
-- what they know of the references.
use tesla.Base.{
  Bool, List, Option, Yields, Yields-after, Yields-assert, Yields-bind, Yields-ok, Yields-read, [],
  ap, false, get_elem?, length, length-set, none, not, read, refl, set, some, suc, sym, zero, ℕ,
  ◌++◌, ◌==◌, ◌||◌, ◌∙◌, ◌∷◌, ◌≡◌,
}
use tesla.Automata.{GraphTransition, Label, is_null}
use tesla.Automata.Graph.{
  Graph, GraphState, copy, copy_label, references_thus_far, register, update_references,
}

-- `accept` of a state, which is false where there is no state.
abbrev pub accepts_in : List GraphState → ℕ → Bool
accepts_in states s = elim (get_elem? states s) [ none ↦ false | some state ↦ state.accept ]

-- `g'` is `g` with one transition more.
pub record Added (from to : ℕ) (l : Label) (g g' : Graph) : Type 0 where
  pub entry : GraphTransition
  pub leaves : entry.from ≡ from
  pub enters : entry.to ≡ to
  pub labelled : entry.label ≡ l
  pub numbered : entry.address ≡ length g.transitions
  pub transitions : g'.transitions ≡ g.transitions ++ entry ∷ []
  pub states_count : length g'.states ≡ length g.states
  pub same_accepts : (i : ℕ) → accepts_in g'.states i ≡ accepts_in g.states i

-- A state that knows other references accepts as before.
accepts_in-set :
    (states : List GraphState) (i : ℕ) (state new : GraphState)
    → get_elem? states i ≡ some state
    → new.accept ≡ state.accept
    → (j : ℕ) → accepts_in (set states i new) j ≡ accepts_in states j
accepts_in-set [] i state new at same j = refl
accepts_in-set (x ∷ states) zero state new at same zero =
    same ∙ sym (ap (λ (o : Option GraphState). elim o [ none ↦ false | some y ↦ y.accept ]) at)
accepts_in-set (x ∷ states) zero state new at same (suc j) = refl
accepts_in-set (x ∷ states) (suc i) state new at same zero = refl
accepts_in-set (x ∷ states) (suc i) state new at same (suc j) =
    accepts_in-set states i state new at same j

register-Added :
    (l : Label) (init cleanup out_of_scope : Bool) (from to : ℕ) (g : Graph)
    → Yields (register l init cleanup out_of_scope from to g) (Added from to l g)
unfolding register
register-Added l init cleanup out_of_scope from to g =
    Yields-assert (Added from to l g) (not (to == 0)) _ λ _.
      Yields-after (Added from to l g) (read g.states from) _ λ source.
        Yields-bind (λ (s : GraphState). get_elem? g.states to ≡ some s) (Added from to l g)
          (read g.states to) _ (Yields-read g.states to)
          λ target at.
            Yields-after (Added from to l g)
              (update_references target.references out_of_scope (references_thus_far l source)) _
              λ now. Yields-ok (Added from to l g) _ (record {
                entry = record {
                  address = length g.transitions;
                  label = l;
                  from = from;
                  to = to;
                  init = init;
                  cleanup = cleanup;
                  out_of_scope = out_of_scope;
                };
                leaves = refl;
                enters = refl;
                labelled = refl;
                numbered = refl;
                transitions = refl;
                states_count = length-set g.states to (record target { references = now });
                same_accepts =
                    accepts_in-set g.states to target (record target { references = now }) at refl;
              })

copy_label-Added :
    (l : Label) (init cleanup out_of_scope : Bool) (from to : ℕ) (g : Graph)
    → is_null l ≡ false
    → Yields (copy_label l init cleanup out_of_scope from to g) (Added from to l g)
unfolding copy_label
copy_label-Added Label.null init cleanup out_of_scope from to g solid = cc
copy_label-Added (Label.assert_site a r) init cleanup out_of_scope from to g solid =
    Yields-assert (Added from to (Label.assert_site a r) g) (not out_of_scope) _
      (λ _. register-Added (Label.assert_site a r) init cleanup false from to g)
copy_label-Added (Label.fn e) init cleanup out_of_scope from to g solid =
    register-Added (Label.fn e) init cleanup out_of_scope from to g
copy_label-Added (Label.field_assign e) init cleanup out_of_scope from to g solid =
    register-Added (Label.field_assign e) init cleanup out_of_scope from to g
copy_label-Added (Label.sub_automaton i) init cleanup out_of_scope from to g solid =
    Yields-assert (Added from to (Label.sub_automaton i) g) (not out_of_scope) _
      (λ _. register-Added (Label.sub_automaton i) false false false from to g)

-- A copy of a transition that is not an epsilon adds one with its label.
pub copy-Added :
    (from to : ℕ) (t : GraphTransition) (leaves : Bool) (g : Graph)
    → is_null t.label ≡ false
    → Yields (copy from to t leaves g) (Added from to t.label g)
unfolding copy
copy-Added from to t leaves g solid =
    Yields-assert (Added from to t.label g) (not t.init || not (leaves || t.out_of_scope)) _
      (λ _. copy_label-Added t.label t.init t.cleanup (leaves || t.out_of_scope) from to g solid)

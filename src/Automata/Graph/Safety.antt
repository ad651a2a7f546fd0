-- ===== src/Automata/Graph/Safety.antt =====
-- Graphs whose transitions stay among their states, and what registration makes of them.
use mathlib.Core.List.Memᴰ
use mathlib.Core.List.{Memᴰ}
use mathlib.Core.Path.{subst}
use tesla.Base.{
  Avoids-bind, Avoids-weaken, Bool, Option, Safe, Safe-read, [], arith, false, get_elem?, inl, inr,
  length, length-append, length-set, mem-one, not, ok, read, refl, set, some, suc, sym, true, ℕ,
  ◌++◌, ◌<◌, ◌==◌, ◌||◌, ◌∷◌, ◌≡◌, ◌≢◌, ◌≤◌,
}
use tesla.Automata.{GraphTransition, Label, is_null}
use tesla.Automata.Graph.{
  Graph, GraphState, build_state, copy, copy_label, create, known, made_state, no_states,
  references_thus_far, register, update_references,
}
use tesla.Automata.Graph.Numbers.{Numbered, Numbered-nil, Numbered-snoc}
use tesla.Automata.Graph.Placed.{
  AllPlaced, Placed, get_elem?-mem, made_state-Placed, mem-set, references_thus_far-Placed,
}
use tesla.Automata.Graph.References.{Safe-after, update_references-Safe}
use tesla.Ir.{or_default}

-- The transitions are between the states, none leads to the start state, and each has an address of its
-- own; the references of the states are at their indices.
pub record Valid (g : Graph) : Type 0 where
  pub numbers : Numbered g.transitions
  pub placed : AllPlaced g.states
  pub inside :
      (t : GraphTransition)
      → Memᴰ t g.transitions
      → (t.from < length g.states) × (t.to < length g.states) × (t.to ≢ 0)

pub no_states-Valid : Valid no_states
no_states-Valid = record {
  numbers = Numbered-nil;
  placed = λ s m. absurd (Memᴰ.not-nil m);
  inside = λ t m. absurd (Memᴰ.not-nil m);
}

-- A valid graph that has all the states of `g`.
pub record Extends (g g' : Graph) : Type 0 where
  pub valid : Valid g'
  pub states_le : length g.states ≤ length g'.states

pub Extends-self : (g : Graph) → Valid g → Extends g g
Extends-self g v = record { valid = v; states_le = omega arith }

pub Extends-trans : (g h k : Graph) → Extends g h → Extends h k → Extends g k
Extends-trans g h k a b = record {
  valid = b.valid;
  states_le = omega (arith, a.states_le, b.states_le);
}

-- A new state is the next one.
pub build_state-Extends :
    (start accept : Bool) (count : Option ℕ) (g : Graph)
    → Valid g
    → Extends g (build_state start accept count g).1
      × ((build_state start accept count g).0 < length (build_state start accept count g).1.states)
unfolding build_state
build_state-Extends start accept count g v =
    let longer = length-append g.states (made_state start accept count ∷ []) in
    (
      record {
        valid = record {
          numbers = v.numbers;
          placed = λ s m. elim (Memᴰ.append_cases g.states m) [
            | inl old ↦ v.placed s old
            | inr new ↦
                subst (λ x. Placed 0 (known x)) (sym (mem-one new))
                  (made_state-Placed start accept count)
          ];
          inside = λ t m.
              let (from, to, ne) = v.inside t m in
              (omega (arith, longer, from), omega (arith, longer, to), ne);
        };
        states_le = omega (arith, longer);
      },
      omega (arith, longer),
    )

-- A graph to which a transition has been added.
pub record Linked (g g' : Graph) : Type 0 where
  pub grows : Extends g g'
  pub some_transition : 0 < length g'.transitions

added-Linked :
    (g : Graph) (t : GraphTransition) (state : GraphState) (i : ℕ)
    → Valid g
    → t.from < length g.states
    → t.to < length g.states
    → not (t.to == 0) ≡ true
    → t.address ≡ length g.transitions
    → Placed 0 (known state)
    → Linked g (record { states = set g.states i state; transitions = g.transitions ++ t ∷ [] })
added-Linked g t state i v hf ht ne at known_placed =
    let same = length-set g.states i state in
    let longer = length-append g.transitions (t ∷ []) in
    record {
      grows = record {
        valid = record {
          numbers = Numbered-snoc g.transitions t v.numbers at;
          placed = λ s m. elim (mem-set g.states i s state m) [
            | inl same ↦ subst (λ x. Placed 0 (known x)) (sym same) known_placed
            | inr old ↦ v.placed s old
          ];
          inside = λ u m. elim (Memᴰ.append_cases g.transitions m) [
            | inl old ↦
                let (from, to, n) = v.inside u old in
                (omega (arith, same, from), omega (arith, same, to), n)
            | inr new ↦
                subst
                  (λ (x : GraphTransition).
                    (x.from < length (set g.states i state))
                    × (x.to < length (set g.states i state))
                    × (x.to ≢ 0))
                  (sym (mem-one new))
                  (omega (arith, same, hf), omega (arith, same, ht), λ e. ground arith)
          ];
        };
        states_le = omega (arith, same);
      };
      some_transition = omega (arith, longer);
    }

register-Safe :
    (l : Label) (init cleanup out_of_scope : Bool) (from to : ℕ) (g : Graph)
    → Valid g
    → from < length g.states
    → to < length g.states
    → Safe (register l init cleanup out_of_scope from to g) (Linked g)
unfolding register
register-Safe l init cleanup out_of_scope from to g v hf ht =
    Safe-after (Linked g) (not (to == 0)) _ λ ne.
      Avoids-bind (λ (s : GraphState). get_elem? g.states from ≡ some s) (Linked g)
        (read g.states from) _ (Safe-read g.states from hf)
        λ source from_at.
          Avoids-bind (λ (s : GraphState). get_elem? g.states to ≡ some s) (Linked g)
            (read g.states to) _ (Safe-read g.states to ht)
            λ target to_at.
              Avoids-bind (λ now. Placed 0 (or_default now [])) (Linked g)
                (update_references target.references out_of_scope (references_thus_far l source)) _
                (update_references-Safe target.references out_of_scope
                  (references_thus_far l source)
                  (v.placed target (get_elem?-mem g.states to target to_at))
                  (references_thus_far-Placed l source
                    (v.placed source (get_elem?-mem g.states from source from_at))))
                λ now kept. inl (
                  _,
                  refl,
                  added-Linked g _ (record target { references = now }) to v hf ht ne refl kept,
                )

pub create-Safe :
    (l : Label) (init cleanup : Bool) (from to : ℕ) (g : Graph)
    → Valid g
    → from < length g.states
    → to < length g.states
    → Safe (create l init cleanup from to g) (Linked g)
unfolding create
create-Safe l init cleanup = register-Safe l init cleanup false

-- A graph after a copy: of an epsilon, nothing is registered.
pub record Copied (l : Label) (g g' : Graph) : Type 0 where
  pub grows : Extends g g'
  pub added : is_null l ≡ false → 0 < length g'.transitions

Linked-Copied : (l : Label) (g g' : Graph) → Linked g g' → Copied l g g'
Linked-Copied l g g' r = record { grows = r.grows; added = λ _. r.some_transition }

module _ (from to : ℕ) (g : Graph) (v : Valid g) (hf : from < length g.states)
    (ht : to < length g.states) where
  labelled-Safe :
      (l m : Label) (init cleanup out_of_scope : Bool)
      → Safe (register m init cleanup out_of_scope from to g) (Copied l g)
  labelled-Safe l m init cleanup out_of_scope =
      Avoids-weaken (Linked g) (Copied l g) (register m init cleanup out_of_scope from to g)
        (register-Safe m init cleanup out_of_scope from to g v hf ht) (Linked-Copied l g)

  copy_label-Safe :
      (l : Label) (init cleanup out_of_scope : Bool)
      → Safe (copy_label l init cleanup out_of_scope from to g) (Copied l g)
  unfolding copy_label
  copy_label-Safe Label.null init cleanup out_of_scope =
      Safe-after (Copied Label.null g) (not out_of_scope) (ok g)
        (λ _. inl (g, refl, record { grows = Extends-self g v; added = λ e. cc }))
  copy_label-Safe (Label.assert_site a r) init cleanup out_of_scope =
      Safe-after (Copied (Label.assert_site a r) g) (not out_of_scope) _
        (λ _. labelled-Safe (Label.assert_site a r) (Label.assert_site a r) init cleanup false)
  copy_label-Safe (Label.fn e) init cleanup out_of_scope =
      labelled-Safe (Label.fn e) (Label.fn e) init cleanup out_of_scope
  copy_label-Safe (Label.field_assign e) init cleanup out_of_scope =
      labelled-Safe (Label.field_assign e) (Label.field_assign e) init cleanup out_of_scope
  copy_label-Safe (Label.sub_automaton i) init cleanup out_of_scope =
      Safe-after (Copied (Label.sub_automaton i) g) (not out_of_scope) _
        (λ _. labelled-Safe (Label.sub_automaton i) (Label.sub_automaton i) false false false)

  pub copy-Safe :
      (t : GraphTransition) (leaves : Bool) → Safe (copy from to t leaves g) (Copied t.label g)
  unfolding copy
  copy-Safe t leaves =
      Safe-after (Copied t.label g) (not t.init || not (leaves || t.out_of_scope)) _
        (λ _. copy_label-Safe t.label t.init t.cleanup (leaves || t.out_of_scope))

pub build_state_count :
    (start accept : Bool) (count : Option ℕ) (g : Graph)
    → length (build_state start accept count g).1.states ≡ suc (length g.states)
unfolding build_state
build_state_count start accept count g =
    let longer = length-append g.states (made_state start accept count ∷ []) in
    omega (arith, longer)

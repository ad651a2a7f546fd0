-- ===== src/NfaParser/Whole/Safety.antt =====
-- The graphs of whole automata.
use tesla.Base.{
  Avoids-bind, Avoids-each_run, Avoids-if, Avoids-weaken, Bool, Fault, List, Option, Safe, [],
  arith, each_run, false, if◌then◌else◌, inl, inr, length, ltb, none, ok, refl, some, suc, true,
  zero, ℕ, ◌<◌,
}
use tesla.Automata.{GraphTransition, Label}
use tesla.Automata.Graph.{Graph, build_state, copy, create, known, no_states}
use tesla.Automata.Graph.References.{Safe-after}
use tesla.Automata.Graph.Safety.{
  Copied, Extends, Extends-self, Extends-trans, Linked, Valid, build_state-Extends, copy-Safe,
  create-Safe, no_states-Valid,
}
use tesla.Class.Slots.{made}
use tesla.Ir.{Argument, AutomatonDescription, Expression, Identifier, Usage}
use tesla.NfaParser.{Parser, parse}
use tesla.NfaParser.Safety.{ParseSafe, Parsed}
use tesla.NfaParser.Sound.{parse-Safe}
use tesla.NfaParser.Whole.{
  Descriptions, bound_arguments, ignore_outside, is_event, linked, nfa_link, nfa_parse, outside,
  parse_automaton, parse_description, parse_point, points, unlinked,
}

unlinked-Safe : (id : Identifier) → ParseSafe (unlinked id)
unfolding unlinked
unlinked-Safe id s g v h =
    let (grows, inside) = build_state-Extends false false none g v in
    let (final, g₁) = build_state false false none g in
    Avoids-bind (Linked g₁) (Parsed g) (create (Label.sub_automaton id) false false s final g₁) _
      (create-Safe (Label.sub_automaton id) false false s final g₁ grows.valid
        (omega (arith, h, grows.states_le)) inside)
      λ g₂ r. inl (
        _,
        refl,
        record {
          grows = Extends-trans g g₁ g₂ grows r.grows;
          inside = omega (arith, inside, r.grows.states_le);
        },
      )

parse_description-Safe :
    (d : Option AutomatonDescription) (p : Parser)
    → ((id : Identifier) → ParseSafe (p.link id))
    → ParseSafe (parse_description d p)
unfolding parse_description
parse_description-Safe none p link s g v h = inr (Fault.panicked, refl, λ e. cc)
parse_description-Safe (some d) p link s g v h = parse-Safe p link d.expression false false s g v h

linked-Safe :
    (fuel : ℕ) (known : Descriptions) (args : List Argument) (xor_only : Bool) (id : Identifier)
    → ParseSafe (linked fuel known args xor_only id)
unfolding linked
linked-Safe zero known args xor_only id s g v h = inr (Fault.exhausted, refl, λ e. cc)
linked-Safe (suc fuel) known args xor_only id s g v h =
    parse_description-Safe (known id)
      (record { arguments = args; xor_only = xor_only; link = linked fuel known args xor_only })
      (linked-Safe fuel known args xor_only) s g v h

ignore_outside-Safe :
    (start end : ℕ) (t : GraphTransition) (g : Graph)
    → Valid g
    → start < length g.states
    → end < length g.states
    → Safe (ignore_outside start end t g) (Extends g)
unfolding ignore_outside
ignore_outside-Safe start end t g v hs he =
    Avoids-if (Extends g) (is_event t.label) _ (ok g)
      (λ _.
        Avoids-weaken (Copied t.label g) (Extends g)
          (copy start (if t.cleanup then end else start) t true g)
          (copy-Safe start (if t.cleanup then end else start) g v hs (ground arith) t true)
          (λ g' c. c.grows))
      (λ _. inl (g, refl, Extends-self g v))

-- A valid graph that has a state.
abbrev pub Begun : Graph → Type 0
Begun g = Valid g × (0 < length g.states)

module _ (p : Parser) (link : (id : Identifier) → ParseSafe (p.link id)) where
  parse_point-Safe :
      (e : Option Expression) (init cleanup : Bool) → ParseSafe (parse_point p e init cleanup)
  unfolding parse_point
  parse_point-Safe none init cleanup s g v h =
      inl (_, refl, record { grows = Extends-self g v; inside = h })
  parse_point-Safe (some e) init cleanup s g v h = parse-Safe p link e init cleanup s g v h

  parse_automaton-Safe :
      (d : AutomatonDescription) (usage : Option Usage) → Safe (parse_automaton p d usage) Begun
  unfolding parse_automaton
  parse_automaton-Safe d usage =
      let (made, inside) =
        build_state-Extends true false (some (length d.arguments)) no_states no_states-Valid in
      let (first, g) = build_state true false (some (length d.arguments)) no_states in
      let (beginning, ending) = points usage in
      Avoids-bind (Parsed g) Begun (parse_point p beginning true false first g) _
        (parse_point-Safe beginning true false first g made.valid inside)
        λ r a.
          Avoids-bind (Parsed r.1) Begun (parse p d.expression false false r.0 r.1) _
            (parse-Safe p link d.expression false false r.0 r.1 a.grows.valid a.inside)
            λ q b.
              Avoids-bind (Parsed q.1) Begun (parse_point p ending false true q.0 q.1) _
                (parse_point-Safe ending false true q.0 q.1 b.grows.valid b.inside)
                λ w c.
                  Avoids-weaken (Extends w.1) Begun
                    (each_run (ignore_outside r.0 w.0) (outside w.1.transitions []) w.1)
                    (Avoids-each_run (Extends w.1) (ignore_outside r.0 w.0)
                      (outside w.1.transitions []) w.1
                      (λ t g' _ x.
                        Avoids-weaken (Extends g') (Extends w.1) (ignore_outside r.0 w.0 t g')
                          (ignore_outside-Safe r.0 w.0 t g' x.valid
                            (omega
                              (arith, a.inside, b.grows.states_le, c.grows.states_le, x.states_le))
                            (omega (arith, c.inside, x.states_le)))
                          (λ g''. Extends-trans w.1 g' g'' x))
                      (Extends-self w.1 c.grows.valid))
                    (λ g' x. (x.valid, omega (arith, c.inside, x.states_le)))

-- Parsing and linking an automaton, with any descriptions and any nesting of sub-automata, never
-- read a state or a reference that is not there. Each ends with a graph that has a state, all of whose
-- transitions are between its states, not to the start state, and have addresses of their own, and whose
-- states know each reference at its index, or stops at an assertion, at a panic or where the depth of
-- the nesting is used up.
pub nfa_link-Safe :
    (id depth : ℕ) (xor_only : Bool) (known : Descriptions) (d : AutomatonDescription)
    (usage : Option Usage)
    → Safe (nfa_parse xor_only d usage) Begun
      × Safe (nfa_link id depth xor_only known d usage) Begun
unfolding nfa_parse nfa_link
nfa_link-Safe id depth xor_only known d usage = (
  parse_automaton-Safe _ unlinked-Safe d usage,
  Safe-after Begun (ltb id 1000) _ (λ _.
      parse_automaton-Safe _ (linked-Safe depth known (bound_arguments d.arguments) xor_only) d
        usage),
)

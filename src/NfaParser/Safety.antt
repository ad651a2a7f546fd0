-- ===== src/NfaParser/Safety.antt =====
-- The graphs that the parser makes.
use tesla.Base.{
  Avoids-bind, Avoids-weaken, Bool, Run, Safe, arith, false, inl, leb, length, ltb, max, none, refl,
  suc, zero, ℕ, ◌-◌, ◌<◌, ◌||◌,
}
use tesla.Automata.{Label}
use tesla.Automata.Graph.{Graph, build_state, create}
use tesla.Automata.Graph.Safety.{
  Extends, Extends-self, Extends-trans, Linked, Valid, build_state-Extends, create-Safe,
}
use tesla.NfaParser.{event_transition, repeat}
use tesla.NfaParser.InclusiveOr.{epsilon_if}
use tesla.NfaParser.InclusiveOr.Grid.{epsilon_if-Safe}

-- A graph with the state that a parse ended in.
pub record Parsed (g : Graph) (r : ℕ × Graph) : Type 0 where
  pub grows : Extends g r.1
  pub inside : r.0 < length r.1.states

pub Parsed-after : (g h : Graph) (r : ℕ × Graph) → Extends g h → Parsed h r → Parsed g r
Parsed-after g h r a b = record { grows = Extends-trans g h r.1 a b.grows; inside = b.inside }

-- A parse from any state of a graph.
abbrev pub ParseSafe : (ℕ → Graph → Run (ℕ × Graph)) → Type 0
ParseSafe run = (s : ℕ) (g : Graph) → Valid g → s < length g.states → Safe (run s g) (Parsed g)

pub event_transition-Safe :
    (l : Label) (init cleanup : Bool) → ParseSafe (event_transition l init cleanup)
unfolding event_transition
event_transition-Safe l init cleanup s g v h =
    let (grows, inside) = build_state-Extends false cleanup none g v in
    let (final, g₁) = build_state false cleanup none g in
    Avoids-bind (Linked g₁) (Parsed g) (create l init cleanup s final g₁) _
      (create-Safe l init cleanup s final g₁ grows.valid (omega (arith, h, grows.states_le)) inside)
      λ g₂ r. inl (
        _,
        refl,
        record {
          grows = Extends-trans g g₁ g₂ grows r.grows;
          inside = omega (arith, inside, r.grows.states_le);
        },
      )

module _ (body : ℕ → Graph → Run (ℕ × Graph)) (safe : ParseSafe body) where
  pub repeat-Safe :
      (least : ℕ) (infinite : Bool) (most final n current : ℕ) (g : Graph)
      → Valid g
      → final < length g.states
      → current < length g.states
      → Safe (repeat body least infinite most final n current g) (Parsed g)
  unfolding repeat
  repeat-Safe least infinite most final zero current g v hf hc =
      inl (_, refl, record { grows = Extends-self g v; inside = hc })
  repeat-Safe least infinite most final (suc n) current g v hf hc =
      let i = max least most - suc n in
      Avoids-bind (Extends g) (Parsed g) (epsilon_if (leb least i) current final g) _
        (epsilon_if-Safe (leb least i) current final g v hc hf)
        λ g₁ a.
          let le₁ = a.states_le in
          Avoids-bind (Parsed g₁) (Parsed g) (body current g₁) _
            (safe current g₁ a.valid (omega (arith, hc, le₁)))
            λ r b.
              let le₂ = b.grows.states_le in
              Avoids-bind (Extends r.1) (Parsed g)
                (epsilon_if (infinite || ltb most i) r.0 current r.1) _
                (epsilon_if-Safe (infinite || ltb most i) r.0 current r.1 b.grows.valid b.inside
                  (omega (arith, hc, le₁, le₂)))
                λ g₃ c.
                  let le₃ = c.states_le in
                  Avoids-weaken (Parsed g₃) (Parsed g)
                    (repeat body least infinite most final n r.0 g₃)
                    (repeat-Safe least infinite most final n r.0 g₃ c.valid
                      (omega (arith, hf, le₁, le₂, le₃)) (omega (arith, b.inside, le₃)))
                    (λ r'.
                      Parsed-after g g₃ r'
                        (Extends-trans g g₁ g₃ a (Extends-trans g₁ r.1 g₃ b.grows c)))

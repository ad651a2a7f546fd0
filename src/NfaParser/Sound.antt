-- ===== src/NfaParser/Sound.antt =====
-- Runs of the parser: the states that they read are there.
use tesla.Base.{
  Avoids-bind, Avoids-weaken, Bool, Fault, Run, Safe, arith, false, if◌then◌else◌, inl, inr, length,
  max, none, refl, true, ℕ, ◌<◌, ◌==◌, ◌>>◌,
}
use tesla.Automata.{Label}
use tesla.Automata.Graph.{Graph, build_state, create}
use tesla.Automata.Graph.Safety.{
  Extends, Extends-self, Extends-trans, Linked, Valid, build_state-Extends, create-Safe,
}
use tesla.Ir.{BooleanOperation, Expression, Expressions, Identifier, or_default}
use tesla.NfaParser.{
  Parser, combine, infinite_repetitions, join_sides, neither, parse, parse_all, parse_boolean,
  parse_sequence, repeat,
}
use tesla.NfaParser.InclusiveOr.Grid.{convert_inclusive_or-Safe}
use tesla.NfaParser.Safety.{ParseSafe, Parsed, Parsed-after, event_transition-Safe, repeat-Safe}

neither-Safe {κ} :
    {A : Type 0} (Q : A → Type κ) (init cleanup : Bool) (run : Run A)
    → Safe run Q
    → Safe (neither init cleanup >> run) Q
neither-Safe Q false false run h = h
neither-Safe Q false true run h = inr (Fault.panicked, refl, λ e. cc)
neither-Safe Q true cleanup run h = inr (Fault.panicked, refl, λ e. cc)

parse_sequence-Safe :
    (body : ℕ → Graph → Run (ℕ × Graph)) (least bound : ℕ)
    → ParseSafe body
    → ParseSafe (parse_sequence body least bound)
unfolding parse_sequence
parse_sequence-Safe body least bound safe s g v h =
    let infinite = bound == infinite_repetitions in
    let most = if infinite then 1 else bound in
    let (grows, inside) = build_state-Extends false false none g v in
    let (final, g₁) = build_state false false none g in
    Avoids-bind (Parsed g₁) (Parsed g) (repeat body least infinite most final (max least most) s g₁)
      _
      (repeat-Safe body safe least infinite most final (max least most) s g₁ grows.valid inside
        (omega (arith, h, grows.states_le)))
      λ r a.
        Avoids-bind (Linked r.1) (Parsed g) (create Label.null false false r.0 final r.1) _
          (create-Safe Label.null false false r.0 final r.1 a.grows.valid a.inside
            (omega (arith, inside, a.grows.states_le)))
          λ g₃ b. inl (
            _,
            refl,
            record {
              grows = Extends-trans g g₁ g₃ grows (Extends-trans g₁ r.1 g₃ a.grows b.grows);
              inside = omega (arith, inside, a.grows.states_le, b.grows.states_le);
            },
          )

combine-Safe :
    (xor_only : Bool) (operation : BooleanOperation)
    (lhs_start rhs_start lhs_final rhs_final join : ℕ) (g : Graph)
    → Valid g
    → join < length g.states
    → Safe (combine xor_only operation lhs_start rhs_start lhs_final rhs_final join g) (Extends g)
unfolding combine
combine-Safe xor_only BooleanOperation.be_xor ls rs lf rf join g v h =
    inl (g, refl, Extends-self g v)
combine-Safe xor_only BooleanOperation.be_or ls rs lf rf join g v h =
    convert_inclusive_or-Safe xor_only ls rs lf rf join g v h
combine-Safe xor_only BooleanOperation.be_and ls rs lf rf join g v h =
    inl (g, refl, Extends-self g v)

-- An epsilon transition between states that there are.
epsilon-Safe :
    (from to : ℕ) (g : Graph)
    → Valid g
    → from < length g.states
    → to < length g.states
    → Safe (create Label.null false false from to g) (Extends g)
epsilon-Safe from to g v hf ht =
    Avoids-weaken (Linked g) (Extends g) (create Label.null false false from to g)
      (create-Safe Label.null false false from to g v hf ht) (λ g' l. l.grows)

join_sides-Safe :
    (xor_only : Bool) (operation : BooleanOperation) (branch ls rs lf rf : ℕ) (g : Graph)
    → Valid g
    → branch < length g.states
    → ls < length g.states
    → rs < length g.states
    → lf < length g.states
    → rf < length g.states
    → Safe (join_sides xor_only operation branch ls rs lf rf g) (Parsed g)
unfolding join_sides
join_sides-Safe xor_only operation branch ls rs lf rf g v hb hls hrs hlf hrf =
    Avoids-bind (Extends g) (Parsed g) (create Label.null false false branch ls g) _
      (epsilon-Safe branch ls g v hb hls)
      λ g₁ a.
        let le₁ = a.states_le in
        Avoids-bind (Extends g₁) (Parsed g) (create Label.null false false branch rs g₁) _
          (epsilon-Safe branch rs g₁ a.valid (omega (arith, hb, le₁)) (omega (arith, hrs, le₁)))
          λ g₂ b.
            let le₂ = b.states_le in
            let (c, inside) = build_state-Extends false false none g₂ b.valid in
            let (join, g₃) = build_state false false none g₂ in
            let le₃ = c.states_le in
            Avoids-bind (Extends g₃) (Parsed g) (create Label.null false false lf join g₃) _
              (epsilon-Safe lf join g₃ c.valid (omega (arith, hlf, le₁, le₂, le₃)) inside)
              λ g₄ d.
                let le₄ = d.states_le in
                Avoids-bind (Extends g₄) (Parsed g) (create Label.null false false rf join g₄) _
                  (epsilon-Safe rf join g₄ d.valid (omega (arith, hrf, le₁, le₂, le₃, le₄))
                    (omega (arith, inside, le₄)))
                  λ g₅ e.
                    let le₅ = e.states_le in
                    Avoids-bind (Extends g₅) (Parsed g)
                      (combine xor_only operation ls rs lf rf join g₅) _
                      (combine-Safe xor_only operation ls rs lf rf join g₅ e.valid
                        (omega (arith, inside, le₄, le₅)))
                      λ g₆ f.
                        let le₆ = f.states_le in
                        inl (
                          _,
                          refl,
                          record {
                            grows = record {
                              valid = f.valid;
                              states_le = omega (arith, le₁, le₂, le₃, le₄, le₅, le₆);
                            };
                            inside = omega (arith, inside, le₄, le₅, le₆);
                          },
                        )

module _ (p : Parser) (link : (id : Identifier) → ParseSafe (p.link id)) where
  mutual
    unfolding parse

    -- A parse
    pub parse-Safe : (e : Expression) (init cleanup : Bool) → ParseSafe (parse p e init cleanup)
    parse-Safe (Expression.boolean_expr operation es) init cleanup s g v h =
        neither-Safe (Parsed g) init cleanup _ (parse_boolean-Safe operation es s g v h)
    parse-Safe (Expression.sequence es least most) init cleanup s g v h =
        neither-Safe (Parsed g) init cleanup _ (
          parse_sequence-Safe (λ s' h'. parse_all p es s' h') (or_default least 1)
            (or_default most 1) (parse_all-Safe es) s g v h)
    parse-Safe Expression.null_expr init cleanup s g v h =
        neither-Safe (Parsed g) init cleanup _
          (inl (_, refl, record { grows = Extends-self g v; inside = h }))
    parse-Safe (Expression.assertion_site l) init cleanup s g v h =
        event_transition-Safe (Label.assert_site l p.arguments) init cleanup s g v h
    parse-Safe (Expression.function e) init cleanup s g v h =
        event_transition-Safe (Label.fn e) init cleanup s g v h
    parse-Safe (Expression.field_assign e) init cleanup s g v h =
        event_transition-Safe (Label.field_assign e) init cleanup s g v h
    parse-Safe (Expression.sub_automaton id) init cleanup s g v h =
        neither-Safe (Parsed g) init cleanup _ (link id s g v h)

    parse_all-Safe : (es : Expressions) → ParseSafe (parse_all p es)
    parse_all-Safe Expressions.nil s g v h =
        inl (_, refl, record { grows = Extends-self g v; inside = h })
    parse_all-Safe (Expressions.cons e es) s g v h =
        Avoids-bind (Parsed g) (Parsed g) (parse p e false false s g) _
          (parse-Safe e false false s g v h)
          λ r a.
            Avoids-weaken (Parsed r.1) (Parsed g) (parse_all p es r.0 r.1)
              (parse_all-Safe es r.0 r.1 a.grows.valid a.inside)
              (λ r'. Parsed-after g r.1 r' a.grows)

    parse_boolean-Safe :
        (operation : BooleanOperation) (es : Expressions) → ParseSafe (parse_boolean p operation es)
    parse_boolean-Safe operation (Expressions.cons lhs (Expressions.cons rhs Expressions.nil)) s g v
          h =
        let (one, ls_inside) = build_state-Extends false false none g v in
        let (ls, g₁) = build_state false false none g in
        let (two, rs_inside) = build_state-Extends false false none g₁ one.valid in
        let (rs, g₂) = build_state false false none g₁ in
        let le₁ = one.states_le in
        let le₂ = two.states_le in
        Avoids-bind (Parsed g₂) (Parsed g) (parse p lhs false false ls g₂) _
          (parse-Safe lhs false false ls g₂ two.valid (omega (arith, ls_inside, le₂)))
          λ r a.
            let le₃ = a.grows.states_le in
            Avoids-bind (Parsed r.1) (Parsed g) (parse p rhs false false rs r.1) _
              (parse-Safe rhs false false rs r.1 a.grows.valid (omega (arith, rs_inside, le₃)))
              λ q b.
                let le₄ = b.grows.states_le in
                Avoids-weaken (Parsed q.1) (Parsed g)
                  (join_sides p.xor_only operation s ls rs r.0 q.0 q.1)
                  (join_sides-Safe p.xor_only operation s ls rs r.0 q.0 q.1 b.grows.valid
                    (omega (arith, h, le₁, le₂, le₃, le₄)) (omega (arith, ls_inside, le₂, le₃, le₄))
                    (omega (arith, rs_inside, le₃, le₄)) (omega (arith, a.inside, le₄)) b.inside)
                  (λ r'. Parsed-after g q.1 r' (record {
                    valid = b.grows.valid;
                    states_le = omega (arith, le₁, le₂, le₃, le₄);
                  }))
    parse_boolean-Safe operation es s g v h = inr (Fault.assertion, refl, λ e. cc)

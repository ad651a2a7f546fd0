-- ===== src/Automata/Equivalent.antt =====
-- When transitions are equivalent: their labels have the same kind, and the same event or automaton.
use tesla.Base.{Bool-ext, [], ap, refl, sym, true, ◌↔◌, ◌∙◌, ◌≡◌}
use tesla.Automata.{Label, equivalent, is_null}
use tesla.Ir.Messages.{
  field_assignment_eq-IsEquality, function_event_eq-IsEquality, identifier_eq-IsEquality,
}

-- The kind and the event that a label gives to the instrumentation: not the site of an assertion.
abbrev pub site : Label → Label
site (Label.assert_site l r) =
    Label.assert_site (record { filename = []; line = 0; counter = 0 }) []
site l = l

equivalent_sound : (l m : Label) → equivalent l m ≡ true → site l ≡ site m
unfolding equivalent
equivalent_sound Label.null Label.null h = refl
equivalent_sound (Label.assert_site a r) (Label.assert_site b s) h = refl
equivalent_sound (Label.fn a) (Label.fn b) h =
    ap Label.fn (function_event_eq-IsEquality.sound a b h)
equivalent_sound (Label.field_assign a) (Label.field_assign b) h =
    ap Label.field_assign (field_assignment_eq-IsEquality.sound a b h)
equivalent_sound (Label.sub_automaton a) (Label.sub_automaton b) h =
    ap Label.sub_automaton (identifier_eq-IsEquality.sound a b h)
equivalent_sound l m h = cc

pub equivalent_self : (l : Label) → equivalent l l ≡ true
unfolding equivalent
equivalent_self Label.null = refl
equivalent_self (Label.assert_site a r) = refl
equivalent_self (Label.fn a) = function_event_eq-IsEquality.self a
equivalent_self (Label.field_assign a) = field_assignment_eq-IsEquality.self a
equivalent_self (Label.sub_automaton a) = identifier_eq-IsEquality.self a

-- The site plays no part.
equivalent_at_site : (l m : Label) → equivalent l m ≡ equivalent l (site m)
unfolding equivalent
equivalent_at_site l Label.null = refl
equivalent_at_site Label.null (Label.assert_site a r) = refl
equivalent_at_site (Label.assert_site b s) (Label.assert_site a r) = refl
equivalent_at_site (Label.fn b) (Label.assert_site a r) = refl
equivalent_at_site (Label.field_assign b) (Label.assert_site a r) = refl
equivalent_at_site (Label.sub_automaton b) (Label.assert_site a r) = refl
equivalent_at_site l (Label.fn a) = refl
equivalent_at_site l (Label.field_assign a) = refl
equivalent_at_site l (Label.sub_automaton a) = refl

-- `EquivalentTo` holds exactly of labels that are equal but for the site of an assertion.
pub equivalent-site : (l m : Label) → (equivalent l m ≡ true) ↔ (site l ≡ site m)
equivalent-site l m = (
  equivalent_sound l m,
  λ e.
      equivalent_at_site l m
      ∙ ap (equivalent l) (sym e)
      ∙ sym (equivalent_at_site l l)
      ∙ equivalent_self l,
)

pub equivalent_symm : (l m : Label) → equivalent l m ≡ true → equivalent m l ≡ true
equivalent_symm l m h = (equivalent-site m l).1 (sym ((equivalent-site l m).0 h))

pub equivalent_trans :
    (l m n : Label) → equivalent l m ≡ true → equivalent m n ≡ true → equivalent l n ≡ true
equivalent_trans l m n h k =
    (equivalent-site l n).1 ((equivalent-site l m).0 h ∙ (equivalent-site m n).0 k)

pub equivalent_comm : (l m : Label) → equivalent l m ≡ equivalent m l
equivalent_comm l m =
    Bool-ext (equivalent l m) (equivalent m l) (equivalent_symm l m) (equivalent_symm m l)

-- An epsilon is equivalent to epsilons only.
pub equivalent_null : (l m : Label) → equivalent l m ≡ true → is_null l ≡ is_null m
equivalent_null l m h = sym (null_site l) ∙ ap is_null ((equivalent-site l m).0 h) ∙ null_site m
  where
    null_site : (l : Label) → is_null (site l) ≡ is_null l
    null_site Label.null = refl
    null_site (Label.assert_site a r) = refl
    null_site (Label.fn a) = refl
    null_site (Label.field_assign a) = refl
    null_site (Label.sub_automaton a) = refl

-- ===== src/Ir/Equal.antt =====
-- `operator ==` of tesla/common/Protocol.cpp on the messages: the fields present in both, with equal
-- values.
use tesla.Base.{
  ==_self, Bool, List, Option, [], ap, arith, false, none, not, refl, some, sym, true, ℕ, ◌&&◌,
  ◌==◌, ◌∙◌, ◌∷◌, ◌≡◌,
}
use tesla.Ir.{Argument, ArgumentKind, Attributes, FieldOf, Indirection, MatchKind, Text}

-- A test that decides equality.
pub record IsEquality {ℓ} {A : Type ℓ} (eq : A → A → Bool) : Type ℓ where
  pub sound : (x y : A) → eq x y ≡ true → x ≡ y
  pub self : (x : A) → eq x x ≡ true

pub bool_eq : Bool → Bool → Bool
bool_eq true b = b
bool_eq false b = not b

pub option_eq : {A : Type 0} → (A → A → Bool) → Option A → Option A → Bool
option_eq eq none none = true
option_eq eq (some x) (some y) = eq x y
option_eq eq _ _ = false

pub list_eq : {A : Type 0} → (A → A → Bool) → List A → List A → Bool
list_eq eq [] [] = true
list_eq eq (x ∷ xs) (y ∷ ys) = eq x y && list_eq eq xs ys
list_eq eq _ _ = false

abbrev pub number_eq : ℕ → ℕ → Bool
number_eq a b = a == b

pub text_eq : Text → Text → Bool
text_eq = list_eq number_eq

pub argument_kind_eq : ArgumentKind → ArgumentKind → Bool
argument_kind_eq ArgumentKind.constant ArgumentKind.constant = true
argument_kind_eq ArgumentKind.variable ArgumentKind.variable = true
argument_kind_eq ArgumentKind.any ArgumentKind.any = true
argument_kind_eq ArgumentKind.indirect ArgumentKind.indirect = true
argument_kind_eq ArgumentKind.field ArgumentKind.field = true
argument_kind_eq _ _ = false

match_kind_eq : MatchKind → MatchKind → Bool
match_kind_eq MatchKind.exact MatchKind.exact = true
match_kind_eq MatchKind.flags MatchKind.flags = true
match_kind_eq MatchKind.mask MatchKind.mask = true
match_kind_eq _ _ = false

pub pair_eq : {A B : Type 0} → (A → A → Bool) → (B → B → Bool) → A × B → A × B → Bool
pair_eq e f (a, b) (c, d) = e a c && f b d

-- The fields of a message, in order.
abbrev attribute_fields :
    Attributes
    → ((((ArgumentKind × Option ℕ) × Option Text) × Option Bool) × Option ℕ) × Option MatchKind
attribute_fields x = (((((x.kind, x.index), x.name), x.free), x.value), x.constant_match)

attributes_eq : Attributes → Attributes → Bool
attributes_eq x y =
    pair_eq
      (pair_eq
        (pair_eq (pair_eq (pair_eq argument_kind_eq (option_eq number_eq)) (option_eq text_eq))
          (option_eq bool_eq))
        (option_eq number_eq))
      (option_eq match_kind_eq) (attribute_fields x) (attribute_fields y)

mutual
  pub argument_eq : Argument → Argument → Bool
  argument_eq (Argument.argument a i f) (Argument.argument b j g) =
      attributes_eq a b && indirection_eq i j && field_of_eq f g

  indirection_eq : Indirection → Indirection → Bool
  indirection_eq Indirection.direct Indirection.direct = true
  indirection_eq (Indirection.through a) (Indirection.through b) = argument_eq a b
  indirection_eq _ _ = false

  field_of_eq : FieldOf → FieldOf → Bool
  field_of_eq FieldOf.no_field FieldOf.no_field = true
  field_of_eq (FieldOf.struct_field s a n i) (FieldOf.struct_field t b m j) =
      text_eq s t && argument_eq a b && text_eq n m && i == j
  field_of_eq _ _ = false

pub and-true : (a b : Bool) → (a && b) ≡ true → (a ≡ true) × (b ≡ true)
and-true true b h = (refl, h)
and-true false b h = cc

pub both-true : (a b : Bool) → a ≡ true → b ≡ true → (a && b) ≡ true
both-true a b p q = rw p q

pub number_eq-IsEquality : IsEquality number_eq
number_eq-IsEquality = record { sound = λ x y h. ground arith; self = λ x. ==_self x }

pub bool_eq-IsEquality : IsEquality bool_eq
unfolding bool_eq
bool_eq-IsEquality = record { sound = λ x y h. ground arith; self = λ x. ground arith }

argument_kind_eq-IsEquality : IsEquality argument_kind_eq
unfolding argument_kind_eq
argument_kind_eq-IsEquality = record { sound = λ x y h. ground arith; self = λ x. ground arith }

match_kind_eq-IsEquality : IsEquality match_kind_eq
unfolding match_kind_eq
match_kind_eq-IsEquality = record { sound = λ x y h. ground arith; self = λ x. ground arith }

module _ {A : Type 0} {eq : A → A → Bool} (e : IsEquality eq) where
  list_eq_sound : (xs ys : List A) → list_eq eq xs ys ≡ true → xs ≡ ys
  unfolding list_eq
  list_eq_sound [] [] h = refl
  list_eq_sound [] (y ∷ ys) h = cc
  list_eq_sound (x ∷ xs) [] h = cc
  list_eq_sound (x ∷ xs) (y ∷ ys) h =
      let (one, rest) = and-true (eq x y) (list_eq eq xs ys) h in
      let same = e.sound x y one in let same_rest = list_eq_sound xs ys rest in cc

  list_eq_self : (xs : List A) → list_eq eq xs xs ≡ true
  unfolding list_eq
  list_eq_self [] = refl
  list_eq_self (x ∷ xs) = both-true (eq x x) (list_eq eq xs xs) (e.self x) (list_eq_self xs)

  pub list_eq-IsEquality : IsEquality (list_eq eq)
  list_eq-IsEquality = record { sound = list_eq_sound; self = list_eq_self }

  option_eq_sound : (x y : Option A) → option_eq eq x y ≡ true → x ≡ y
  unfolding option_eq
  option_eq_sound none none h = refl
  option_eq_sound none (some y) h = cc
  option_eq_sound (some x) none h = cc
  option_eq_sound (some x) (some y) h = ap some (e.sound x y h)

  option_eq_self : (x : Option A) → option_eq eq x x ≡ true
  unfolding option_eq
  option_eq_self none = refl
  option_eq_self (some x) = e.self x

  pub option_eq-IsEquality : IsEquality (option_eq eq)
  option_eq-IsEquality = record { sound = option_eq_sound; self = option_eq_self }

pub text_eq-IsEquality : IsEquality text_eq
unfolding text_eq
text_eq-IsEquality = list_eq-IsEquality number_eq-IsEquality

module _ {A B : Type 0} {eq : A → A → Bool} {same : B → B → Bool} where
  pub pair_eq-IsEquality : IsEquality eq → IsEquality same → IsEquality (pair_eq eq same)
  unfolding pair_eq
  pair_eq-IsEquality e f = record {
    sound = λ x y h.
        let (a, b) = x in
        let (c, d) = y in
        let (p, q) = and-true (eq a c) (same b d) h in
        let left = e.sound a c p in let right = f.sound b d q in cc;
    self = λ x. let (a, b) = x in both-true (eq a a) (same b b) (e.self a) (f.self b);
  }

-- A test of a message's fields decides the equality of the messages.
module _ {A B : Type 0} {eq : B → B → Bool} (fields : A → B) (build : B → A) where
  pub fields-IsEquality :
      ((x : A) → build (fields x) ≡ x)
      → IsEquality eq
      → IsEquality (λ x y. eq (fields x) (fields y))
  fields-IsEquality back e = record {
    sound = λ x y h. sym (back x) ∙ ap build (e.sound (fields x) (fields y) h) ∙ back y;
    self = λ x. e.self (fields x);
  }

number_option : IsEquality (option_eq number_eq)
number_option = option_eq-IsEquality number_eq-IsEquality

attributes_eq-IsEquality : IsEquality attributes_eq
unfolding attributes_eq
attributes_eq-IsEquality =
    fields-IsEquality attribute_fields
      (λ p. record {
        kind = p.0.0.0.0.0;
        index = p.0.0.0.0.1;
        name = p.0.0.0.1;
        free = p.0.0.1;
        value = p.0.1;
        constant_match = p.1;
      })
      (λ x. refl)
      (pair_eq-IsEquality
        (pair_eq-IsEquality
          (pair_eq-IsEquality
            (pair_eq-IsEquality (pair_eq-IsEquality argument_kind_eq-IsEquality number_option)
              (option_eq-IsEquality text_eq-IsEquality))
            (option_eq-IsEquality bool_eq-IsEquality))
          number_option)
        (option_eq-IsEquality match_kind_eq-IsEquality))

mutual
  unfolding argument_eq

  argument_eq_sound : (x y : Argument) → argument_eq x y ≡ true → x ≡ y
  argument_eq_sound (Argument.argument a i f) (Argument.argument b j g) h =
      let (r, s) = and-true (attributes_eq a b && indirection_eq i j) (field_of_eq f g) h in
      let (p, q) = and-true (attributes_eq a b) (indirection_eq i j) r in
      let one = attributes_eq-IsEquality.sound a b p in
      let two = indirection_eq_sound i j q in let three = field_of_eq_sound f g s in cc

  indirection_eq_sound : (x y : Indirection) → indirection_eq x y ≡ true → x ≡ y
  indirection_eq_sound Indirection.direct Indirection.direct h = refl
  indirection_eq_sound Indirection.direct (Indirection.through b) h = cc
  indirection_eq_sound (Indirection.through a) Indirection.direct h = cc
  indirection_eq_sound (Indirection.through a) (Indirection.through b) h =
      ap Indirection.through (argument_eq_sound a b h)

  field_of_eq_sound : (x y : FieldOf) → field_of_eq x y ≡ true → x ≡ y
  field_of_eq_sound FieldOf.no_field FieldOf.no_field h = refl
  field_of_eq_sound FieldOf.no_field (FieldOf.struct_field t b m j) h = cc
  field_of_eq_sound (FieldOf.struct_field s a n i) FieldOf.no_field h = cc
  field_of_eq_sound (FieldOf.struct_field s a n i) (FieldOf.struct_field t b m j) h =
      let (v, w) = and-true (text_eq s t && argument_eq a b && text_eq n m) (i == j) h in
      let (r, u) = and-true (text_eq s t && argument_eq a b) (text_eq n m) v in
      let (p, q) = and-true (text_eq s t) (argument_eq a b) r in
      let one = text_eq-IsEquality.sound s t p in
      let two = argument_eq_sound a b q in
      let three = text_eq-IsEquality.sound n m u in
      let four = number_eq-IsEquality.sound i j w in cc

mutual
  unfolding argument_eq

  argument_eq_self : (x : Argument) → argument_eq x x ≡ true
  argument_eq_self (Argument.argument a i f) =
      rw (attributes_eq-IsEquality.self a, indirection_eq_self i, field_of_eq_self f)

  indirection_eq_self : (x : Indirection) → indirection_eq x x ≡ true
  indirection_eq_self Indirection.direct = refl
  indirection_eq_self (Indirection.through a) = argument_eq_self a

  field_of_eq_self : (x : FieldOf) → field_of_eq x x ≡ true
  field_of_eq_self FieldOf.no_field = refl
  field_of_eq_self (FieldOf.struct_field s a n i) = rw (
    text_eq-IsEquality.self s,
    argument_eq_self a,
    text_eq-IsEquality.self n,
    number_eq-IsEquality.self i,
  )

pub argument_eq-IsEquality : IsEquality argument_eq
argument_eq-IsEquality = record { sound = argument_eq_sound; self = argument_eq_self }

-- What an evaluation has to unfold.
unfoldable pub equal_code : Unit {0}
unfolding bool_eq option_eq list_eq text_eq argument_kind_eq match_kind_eq pair_eq attributes_eq
    argument_eq
equal_code = tt

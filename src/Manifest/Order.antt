-- ===== src/Manifest/Order.antt =====
-- The orders on texts, locations and identifiers are strict and total, on what they compare.
use mathlib.Core.Bool.{true≢false}
use mathlib.Core.Option.{some-injective}
use mathlib.Core.Path.{ap₂, subst}
use tesla.Base.{
  Bool, Bool-cases, Option, [], ap, arith, false, if◌then◌else◌, inl, inr, ltb, none, not, refl,
  some, sym, true, ℕ, ◌&&◌, ◌↔◌, ◌∙◌, ◌∷◌, ◌≡◌, ◌⊎◌,
}
use tesla.Ir.{Identifier, Location, Text}
use tesla.Manifest.{c_string, identifier_lt, location_lt, location_of, name_lt, text_lt}

pub record Orders {K : Type 0} (lt : K → K → Bool) : Type 0 where
  pub irreflexive : (a : K) → lt a a ≡ false
  pub transitive : (a b c : K) → lt a b ≡ true → lt b c ≡ true → lt a c ≡ true
  pub total : (a b : K) → lt a b ≡ false → lt b a ≡ false → a ≡ b

ltb-Orders : Orders ltb
ltb-Orders = record {
  irreflexive = λ a. ground arith;
  transitive = λ a b c h k. ground arith;
  total = λ a b h k. ground arith;
}

-- First by one order, and then by a test.
abbrev lex : {A : Type 0} → (A → A → Bool) → A → A → Bool → Bool
lex f a c rest = if f a c then true else if f c a then false else rest

module _ {A : Type 0} (f : A → A → Bool) (o : Orders f) where
  lex_self : (a : A) (r : Bool) → lex f a a r ≡ r
  lex_self a r = rw (o.irreflexive a)

  before : (a c : A) (r : Bool) → f a c ≡ true → lex f a c r ≡ true
  before a c r less = rw less

  after : (a c : A) (r : Bool) → f a c ≡ false → f c a ≡ true → lex f a c r ≡ false
  after a c r less more = rw (less, more)

  unreached : (a c : A) (r : Bool) → f a c ≡ false → f c a ≡ false → lex f a c r ≡ r
  unreached a c r less more = rw (less, more)

  lex-cases : (a c : A) (r : Bool) → lex f a c r ≡ true → (f a c ≡ true) ⊎ ((a ≡ c) × (r ≡ true))
  lex-cases a c r h = elim (Bool-cases (f a c)) [
    | inl less ↦ inl less
    | inr not_less ↦ elim (Bool-cases (f c a)) [
      | inl more ↦ absurd (true≢false (sym h ∙ after a c r not_less more))
      | inr not_more ↦
          inr (o.total a c not_less not_more, (sym (unreached a c r not_less not_more) ∙ h))
    ]
  ]

  lex-false :
      (a c : A) (r r' : Bool)
      → lex f a c r ≡ false
      → lex f c a r' ≡ false
      → (a ≡ c) × (r ≡ false) × (r' ≡ false)
  lex-false a c r r' h k = elim (Bool-cases (f a c)) [
    | inl less ↦ absurd (true≢false (sym (before a c r less) ∙ h))
    | inr not_less ↦ elim (Bool-cases (f c a)) [
      | inl more ↦ absurd (true≢false (sym (before c a r' more) ∙ k))
      | inr not_more ↦ (
        o.total a c not_less not_more,
        (sym (unreached a c r not_less not_more) ∙ h),
        (sym (unreached c a r' not_more not_less) ∙ k),
      )
    ]
  ]

  lex_trans :
      (a c e : A) (r r' q : Bool)
      → lex f a c r ≡ true
      → lex f c e r' ≡ true
      → (r ≡ true → r' ≡ true → q ≡ true)
      → lex f a e q ≡ true
  lex_trans a c e r r' q h k through = elim (lex-cases a c r h) [
    | inl less ↦ elim (lex-cases c e r' k) [
      | inl less' ↦ rw (o.transitive a c e less less')
      | inr (same, _) ↦ rw (subst (λ x. f a x ≡ true) same less)
    ]
    | inr (same, h') ↦ elim (lex-cases c e r' k) [
      | inl less' ↦ rw (subst (λ x. f x e ≡ true) (sym same) less')
      | inr (same', k') ↦
          subst (λ x. lex f a x q ≡ true) (same ∙ same') (lex_self a q ∙ through h' k')
    ]
  ]

text_lt_irreflexive : (a : Text) → text_lt a a ≡ false
unfolding text_lt
text_lt_irreflexive [] = refl
text_lt_irreflexive (x ∷ xs) = lex_self ltb ltb-Orders x (text_lt xs xs) ∙ text_lt_irreflexive xs

text_lt_transitive : (a b c : Text) → text_lt a b ≡ true → text_lt b c ≡ true → text_lt a c ≡ true
unfolding text_lt
text_lt_transitive [] [] c h k = cc
text_lt_transitive [] (y ∷ ys) [] h k = cc
text_lt_transitive [] b (z ∷ zs) h k = refl
text_lt_transitive (x ∷ xs) [] c h k = cc
text_lt_transitive (x ∷ xs) (y ∷ ys) [] h k = cc
text_lt_transitive (x ∷ xs) (y ∷ ys) (z ∷ zs) h k =
    lex_trans ltb ltb-Orders x y z (text_lt xs ys) (text_lt ys zs) (text_lt xs zs) h k
      (text_lt_transitive xs ys zs)

text_lt_total : (a b : Text) → text_lt a b ≡ false → text_lt b a ≡ false → a ≡ b
unfolding text_lt
text_lt_total [] [] h k = refl
text_lt_total [] (y ∷ ys) h k = cc
text_lt_total (x ∷ xs) [] h k = cc
text_lt_total (x ∷ xs) (y ∷ ys) h k =
    let (first, h', k') = lex-false ltb ltb-Orders x y (text_lt xs ys) (text_lt ys xs) h k in
    ap₂ (λ n ns. n ∷ ns) first (text_lt_total xs ys h' k')

text_lt-Orders : Orders text_lt
text_lt-Orders = record {
  irreflexive = text_lt_irreflexive;
  transitive = text_lt_transitive;
  total = text_lt_total;
}

-- What the order on identifiers looks at: the name, or else the location, of whose file name `strcmp`
-- reads the bytes before a NUL.
abbrev place_key : Option Text → Location → Text × (ℕ × ℕ)
place_key (some n) l = ([], (0, 0))
place_key none l = (c_string l.filename, (l.line, l.counter))

abbrev pub key_of_identifier : Identifier → Option Text × (Text × (ℕ × ℕ))
key_of_identifier id = (id.name, place_key id.name (location_of id))

location_lt_irreflexive : (x : Location) → location_lt x x ≡ false
unfolding location_lt
location_lt_irreflexive x =
    let a = c_string x.filename in
    lex_self text_lt text_lt-Orders a (lex ltb x.line x.line (ltb x.counter x.counter))
    ∙ lex_self ltb ltb-Orders x.line (ltb x.counter x.counter)
    ∙ ltb-Orders.irreflexive x.counter

location_lt_transitive :
    (x y z : Location) → location_lt x y ≡ true → location_lt y z ≡ true → location_lt x z ≡ true
unfolding location_lt
location_lt_transitive x y z h k =
    lex_trans text_lt text_lt-Orders (c_string x.filename) (c_string y.filename)
      (c_string z.filename) _ _ _ h k
      λ h' k'.
        lex_trans ltb ltb-Orders x.line y.line z.line _ _ _ h' k'
          (ltb-Orders.transitive x.counter y.counter z.counter)

location_lt_total :
    (x y : Location)
    → location_lt x y ≡ false
    → location_lt y x ≡ false
    → place_key none x ≡ place_key none y
unfolding location_lt
location_lt_total x y h k =
    let (file, h', k') =
      lex-false text_lt text_lt-Orders (c_string x.filename) (c_string y.filename) _ _ h k in
    let (line, h'', k'') = lex-false ltb ltb-Orders x.line y.line _ _ h' k' in
    ap₂ (λ f r. (f, r)) file
      (ap₂ (λ l c. (l, c)) line (ltb-Orders.total x.counter y.counter h'' k''))

abbrev default_location : Location
default_location = record { filename = []; line = 0; counter = 0 }

-- No location is before the default one.
location_lt_default : (x : Location) → location_lt x default_location ≡ false
unfolding location_lt text_lt c_string
location_lt_default x = least (c_string x.filename)
  where
    least : (f : Text) → lex text_lt f [] (lex ltb x.line 0 (ltb x.counter 0)) ≡ false
    least [] = ground arith
    least (c ∷ f) = refl

-- An identifier has a name or a location, and not both.
abbrev pub Proper : Identifier → Type 0
Proper id = (id.name ≡ none) ⊎ (location_of id ≡ default_location)

abbrev Settled : Option Text → Location → Type 0
Settled n l = (n ≡ none) ⊎ (l ≡ default_location)

abbrev before_named : Option Text → Location → Option Text → Location → Bool
before_named n l m l' = name_lt n m (location_lt l l')

-- An identifier without a name is before none that has one.
unnamed_last : (l l' : Location) (m : Text) → Settled (some m) l' → location_lt l l' ≡ false
unnamed_last l l' m (inl e) = cc
unnamed_last l l' m (inr e) = ap (location_lt l) e ∙ location_lt_default l

named_irreflexive : (n : Option Text) (l : Location) → before_named n l n l ≡ false
unfolding name_lt
named_irreflexive none l = location_lt_irreflexive l
named_irreflexive (some n) l = text_lt_irreflexive n

named_transitive :
    (n m p : Option Text) (l l' l'' : Location)
    → Settled m l'
    → Settled p l''
    → before_named n l m l' ≡ true
    → before_named m l' p l'' ≡ true
    → before_named n l p l'' ≡ true
unfolding name_lt
named_transitive none none none l l' l'' s r h k = location_lt_transitive l l' l'' h k
named_transitive none none (some p) l l' l'' s r h k =
    absurd (true≢false (sym k ∙ unnamed_last l' l'' p r))
named_transitive none (some m) p l l' l'' s r h k =
    absurd (true≢false (sym h ∙ unnamed_last l l' m s))
named_transitive (some n) none none l l' l'' s r h k = refl
named_transitive (some n) none (some p) l l' l'' s r h k =
    absurd (true≢false (sym k ∙ unnamed_last l' l'' p r))
named_transitive (some n) (some m) none l l' l'' s r h k = refl
named_transitive (some n) (some m) (some p) l l' l'' s r h k = text_lt_transitive n m p h k

named_total :
    (n m : Option Text) (l l' : Location)
    → before_named n l m l' ≡ false
    → before_named m l' n l ≡ false
    → (n ≡ m) × (place_key n l ≡ place_key m l')
unfolding name_lt
named_total none none l l' h k = (refl, location_lt_total l l' h k)
named_total none (some m) l l' h k = cc
named_total (some n) none l l' h k = cc
named_total (some n) (some m) l l' h k = (ap some (text_lt_total n m h k), refl)

abbrev keyed_lt : Text × (ℕ × ℕ) → Text × (ℕ × ℕ) → Bool
keyed_lt (f, (a, c)) (g, (b, d)) = lex text_lt f g (lex ltb a b (ltb c d))

-- The order depends on the keys only.
named_lt-key :
    (n m : Option Text) (l l' : Location)
    → n ≡ m
    → place_key n l ≡ place_key m l'
    → before_named n l m l' ≡ false
unfolding name_lt location_lt
named_lt-key none none l l' e f =
    subst (λ k. keyed_lt (place_key none l) k ≡ false) f (location_lt_irreflexive l)
named_lt-key none (some m) l l' e f = cc
named_lt-key (some n) none l l' e f = cc
named_lt-key (some n) (some m) l l' e f =
    subst (λ x. text_lt n x ≡ false) (some-injective n m e) (text_lt_irreflexive n)

pub identifier_lt_transitive :
    (x y z : Identifier)
    → Proper y
    → Proper z
    → identifier_lt x y ≡ true
    → identifier_lt y z ≡ true
    → identifier_lt x z ≡ true
unfolding identifier_lt
identifier_lt_transitive x y z =
    named_transitive x.name y.name z.name (location_of x) (location_of y) (location_of z)

-- Neither is before the other.
abbrev pub same_place : Identifier → Identifier → Bool
same_place x y = not (identifier_lt x y) && not (identifier_lt y x)

neither_before : (a b : Bool) → (not a && not b) ≡ true → (a ≡ false) × (b ≡ false)
neither_before a b h = ground arith

pub same_place-key :
    (x y : Identifier) → (same_place x y ≡ true) ↔ (key_of_identifier x ≡ key_of_identifier y)
unfolding identifier_lt
same_place-key x y = (
  λ h.
      let (a, b) = neither_before (identifier_lt x y) (identifier_lt y x) h in
      let (n, k) = named_total x.name y.name (location_of x) (location_of y) a b in
      ap₂ (λ u v. (u, v)) n k,
  λ e.
      let n : x.name ≡ y.name = ap (λ k. k.0) e in
      let k : place_key x.name (location_of x) ≡ place_key y.name (location_of y) =
        ap (λ k. k.1) e in
      let a = named_lt-key x.name y.name (location_of x) (location_of y) n k in
      let b = named_lt-key y.name x.name (location_of y) (location_of x) (sym n) (sym k) in
      rw (a, b),
)

pub identifier_lt_irreflexive : (x : Identifier) → identifier_lt x x ≡ false
unfolding identifier_lt
identifier_lt_irreflexive x = named_irreflexive x.name (location_of x)

-- The order on identifiers is irreflexive, and transitive on identifiers that have a name or a location
-- and not both; and neither of two identifiers is before the other exactly when they have the same
-- name and, without one, the same place: the file name up to a NUL, the line and the counter.
pub identifier_lt_orders :
    (x y z : Identifier)
    → Proper y
    → Proper z
    → (identifier_lt x x ≡ false)
      × ((identifier_lt x y ≡ false) ⊎ ((identifier_lt y z ≡ false) ⊎ (identifier_lt x z ≡ true)))
      × ((same_place x y ≡ true) ↔ (key_of_identifier x ≡ key_of_identifier y))
identifier_lt_orders x y z p q = (
  identifier_lt_irreflexive x,
  elim (Bool-cases (identifier_lt x y)) [
    | inr apart ↦ inl apart
    | inl h ↦ elim (Bool-cases (identifier_lt y z)) [
      | inr apart ↦ inr (inl apart)
      | inl k ↦ inr (inr (identifier_lt_transitive x y z p q h k))
    ]
  ],
  same_place-key x y,
)

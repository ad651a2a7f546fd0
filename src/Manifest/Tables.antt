-- ===== src/Manifest/Tables.antt =====
-- Entries of a `std::map` from identifiers.
use mathlib.Core.List.Memᴰ
use mathlib.Core.Bool.{true≢false}
use mathlib.Core.List.{Memᴰ}
use mathlib.Core.Path.{ap₂, subst}
use tesla.Base.{
  Bool, Bool-cases, Bool-ext, Option, [], ap, arith, false, if◌then◌else◌, inl, inr, mem-one, none,
  refl, some, sym, true, ◌∙◌, ◌∷◌, ◌≡◌, ◌⊎◌,
}
use tesla.Ir.{Identifier}
use tesla.Manifest.{Table, identifier_lt, look, put_entry}
use tesla.Manifest.Order.{
  Proper, identifier_lt_transitive, key_of_identifier, same_place, same_place-key,
}

-- The keys after `j` in a table.
abbrev pub After : {V : Type 0} → Identifier → Table V → Type 0
After {V} j t = (e : Identifier × V) → Memᴰ e t → identifier_lt j e.0 ≡ true

abbrev pub Sorted : {V : Type 0} → Table V → Type 0
Sorted [] = Unit {0}
Sorted ((j, u) ∷ t) = Proper j × After j t × Sorted t

same_cong :
    (a b j : Identifier)
    → key_of_identifier a ≡ key_of_identifier b
    → same_place a j ≡ same_place b j
same_cong a b j e =
    Bool-ext (same_place a j) (same_place b j)
      (λ h. (same_place-key b j).1 (sym e ∙ (same_place-key a j).0 h))
      (λ h. (same_place-key a j).1 (e ∙ (same_place-key b j).0 h))

same_symm : (a b : Identifier) → same_place a b ≡ same_place b a
same_symm a b =
    Bool-ext (same_place a b) (same_place b a)
      (λ h. (same_place-key b a).1 (sym ((same_place-key a b).0 h)))
      (λ h. (same_place-key a b).1 (sym ((same_place-key b a).0 h)))

-- What is before something is not at its place.
lt-apart : (i j : Identifier) → identifier_lt i j ≡ true → same_place i j ≡ false
lt-apart i j h = ground arith

module _ {V : Type 0} where
  pub look_cons :
      (k i : Identifier) (u : V) (t : Table V)
      → look k ((i, u) ∷ t) ≡ (if same_place k i then some u else look k t)
  unfolding look
  look_cons k i u t = refl

  pub look_nil : (k : Identifier) → look {V = V} k [] ≡ none
  unfolding look
  look_nil k = refl

  pub look-same :
      (a b : Identifier) (t : Table V)
      → key_of_identifier a ≡ key_of_identifier b
      → look a t ≡ look b t
  look-same a b [] e = look_nil a ∙ sym (look_nil b)
  look-same a b ((j, u) ∷ t) e =
      look_cons a j u t
      ∙ ap₂ (λ s o. if s then some u else o) (same_cong a b j e) (look-same a b t e)
      ∙ sym (look_cons b j u t)

  -- A key at the place of one that is before all entries is not there.
  pub look-none :
      (k j : Identifier) (t : Table V)
      → key_of_identifier k ≡ key_of_identifier j
      → After j t
      → look k t ≡ none
  look-none k j [] e after = look_nil k
  look-none k j ((i, u) ∷ t) e after =
      look_cons k i u t
      ∙ ap₂ (λ s o. if s then some u else o)
          (same_cong k j i e ∙ lt-apart j i (after (i, u) (Memᴰ.head refl)))
          (look-none k j t e (λ x m. after x (Memᴰ.tail m)))

  choose_apart :
      (a b : Bool) (v u : V) (o : Option V)
      → ((a ≡ true) → (b ≡ true) → ⊥)
      → (if b then some u else (if a then some v else o))
        ≡ (if a then some v else (if b then some u else o))
  choose_apart true true v u o apart = absurd (apart refl refl)
  choose_apart true false v u o apart = refl
  choose_apart false b v u o apart = refl

  choose_one :
      (a : Bool) (v u : V) (o : Option V)
      → (if a then some v else o) ≡ (if a then some v else (if a then some u else o))
  choose_one true v u o = refl
  choose_one false v u o = refl

  -- What is found after an entry has been made.
  pub look-put_entry :
      (k j : Identifier) (v : V) (t : Table V)
      → look k (put_entry j v t) ≡ (if same_place k j then some v else look k t)
  unfolding put_entry
  look-put_entry k j v [] = look_cons k j v []
  look-put_entry k j v ((i, u) ∷ t) = elim (Bool-cases (identifier_lt j i)) [
    | inl before ↦ rw before (look_cons k j v ((i, u) ∷ t))
    | inr not_before ↦ elim (Bool-cases (identifier_lt i j)) [
      | inl after ↦
          rw (not_before, after)
            (look_cons k i u (put_entry j v t)
              ∙ ap (λ o. if same_place k i then some u else o) (look-put_entry k j v t)
              ∙ choose_apart (same_place k j) (same_place k i) v u (look k t) (λ a b. true≢false (
                  sym (
                    (same_place-key i j).1
                      (sym ((same_place-key k i).0 b) ∙ (same_place-key k j).0 a))
                  ∙ lt-apart i j after))
              ∙ ap (λ o. if same_place k j then some v else o) (sym (look_cons k i u t)))
      | inr not_after ↦
          let one : same_place j i ≡ true = rw (not_before, not_after) in
          let here : same_place k j ≡ same_place k i =
            same_symm k j ∙ same_cong j i k ((same_place-key j i).0 one) ∙ same_symm i k in
          rw (not_before, not_after)
            (look_cons k i v t
              ∙ choose_one (same_place k i) v u (look k t)
              ∙ ap (λ b. if b then some v else (if same_place k i then some u else look k t))
                  (sym here)
              ∙ ap (λ o. if same_place k j then some v else o) (sym (look_cons k i u t)))
    ]
  ]

  put_entry-keys :
      (k : Identifier) (v : V) (t : Table V) (e : Identifier × V)
      → Memᴰ e (put_entry k v t)
      → (e.0 ≡ k) ⊎ ((x : Identifier × V) × Memᴰ x t × (x.0 ≡ e.0))
  unfolding put_entry
  put_entry-keys k v [] e m = inl (ap (λ x. x.0) (mem-one m))
  put_entry-keys k v ((j, u) ∷ t) e m = elim (Bool-cases (identifier_lt k j)) [
    | inl before ↦ elim (Memᴰ.cases_cons (rw before at m)) [
      | inl is ↦ inl (ap (λ x. x.0) is)
      | inr later ↦ inr (e, later, refl)
    ]
    | inr not_before ↦ elim (Bool-cases (identifier_lt j k)) [
      | inl after ↦ elim (Memᴰ.cases_cons (rw (not_before, after) at m)) [
        | inl is ↦ inr ((j, u), Memᴰ.head refl, ap (λ x. x.0) (sym is))
        | inr later ↦ elim (put_entry-keys k v t e later) [
          | inl new ↦ inl new
          | inr (x, n, same) ↦ inr (x, Memᴰ.tail n, same)
        ]
      ]
      | inr not_after ↦ elim (Memᴰ.cases_cons (rw (not_before, not_after) at m)) [
        | inl is ↦ inr ((j, u), Memᴰ.head refl, ap (λ x. x.0) (sym is))
        | inr later ↦ inr (e, Memᴰ.tail later, refl)
      ]
    ]
  ]

  Sorted-Proper : (t : Table V) (e : Identifier × V) → Sorted t → Memᴰ e t → Proper e.0
  Sorted-Proper [] e s m = absurd (Memᴰ.not-nil m)
  Sorted-Proper ((j, u) ∷ t) e (p, after, s) m = elim (Memᴰ.cases_cons m) [
    | inl is ↦ subst (λ (x : Identifier × V). Proper x.0) (sym is) p
    | inr later ↦ Sorted-Proper t e s later
  ]

  pub put_entry-Sorted :
      (k : Identifier) (v : V) (t : Table V) → Proper k → Sorted t → Sorted (put_entry k v t)
  unfolding put_entry
  put_entry-Sorted k v [] p s = (p, (λ e m. absurd (Memᴰ.not-nil m)), tt)
  put_entry-Sorted k v ((j, u) ∷ t) p (q, after, s) = elim (Bool-cases (identifier_lt k j)) [
    | inl before ↦ rw before (
      p,
      (λ e m. elim (Memᴰ.cases_cons m) [
        | inl is ↦ subst (λ (x : Identifier × V). identifier_lt k x.0 ≡ true) (sym is) before
        | inr later ↦
            identifier_lt_transitive k j e.0 q (Sorted-Proper t e s later) before (after e later)
      ]),
      (q, after, s),
    )
    | inr not_before ↦ elim (Bool-cases (identifier_lt j k)) [
      | inl behind ↦
          rw (not_before, behind)
            (
              q,
              (λ e m. elim (put_entry-keys k v t e m) [
                | inl new ↦ subst (λ x. identifier_lt j x ≡ true) (sym new) behind
                | inr (x, n, same) ↦ subst (λ y. identifier_lt j y ≡ true) same (after x n)
              ]),
              put_entry-Sorted k v t p s,
            )
      | inr not_behind ↦ rw (not_before, not_behind) (q, after, s)
    ]
  ]

-- ===== src/Manifest/Load.antt =====
-- What `Manifest::load` loads is what `FindAutomaton` finds.
use mathlib.Core.List.{Memᴰ}
use mathlib.Core.Option.{or_else, some-injective}
use mathlib.Core.Path.{ap₂, subst}
use tesla.Base.{
  Bool, Bool-cases, Fault, List, Option, Option-cases, Run, Yields, Yields-after, Yields-bind,
  Yields-ok, [], ap, false, fault, if◌then◌else◌, inl, inr, none, ok, refl, some, sym, true, ℕ, ◌+◌,
  ◌∙◌, ◌∷◌, ◌≡◌, ◌⊎◌,
}
use tesla.Automata.{GraphTransition}
use tesla.Class.Slots.{made}
use tesla.Ir.{AutomatonDescription, Identifier, Usage}
use tesla.Manifest.{
  AutomatonType, Built, Loaded, ManifestFile, Table, describe, find_automaton, lifetime_of, load,
  load_each, look, make_automaton, note_lifetime, note_uses, or_panic, put_entry,
}
use tesla.Manifest.Order.{Proper, same_place, same_place-key}
use tesla.Manifest.Tables.{
  After, Sorted, look-none, look-put_entry, look-same, look_cons, look_nil, put_entry-Sorted,
}

-- The last description of an identifier, and the last use of it among the roots.
abbrev pub described : Identifier → List AutomatonDescription → Option AutomatonDescription
described id [] = none
described id (a ∷ rest) =
    or_else (described id rest) (if same_place id a.identifier then some a else none)

abbrev pub used : Identifier → List Usage → Option Usage
used id [] = none
used id (u ∷ rest) = or_else (used id rest) (if same_place id u.identifier then some u else none)

abbrev pub AllProper : List AutomatonDescription → Type 0
AllProper ds = (a : AutomatonDescription) → Memᴰ a ds → Proper a.identifier

or_else-later :
    {V : Type 0} (o : Option V) (b : Bool) (v : V) (rest : Option V)
    → or_else o (if b then some v else rest) ≡ or_else (or_else o (if b then some v else none)) rest
unfolding or_else
or_else-later none true v rest = refl
or_else-later none false v rest = refl
or_else-later (some u) b v rest = refl

some≢none : {V : Type 0} (v : V) → some v ≡ none → ⊥
some≢none v e = cc

look-describe :
    (id : Identifier) (ds : List AutomatonDescription) (t : Table AutomatonDescription)
    → look id (describe ds t) ≡ or_else (described id ds) (look id t)
unfolding describe or_else
look-describe id [] t = refl
look-describe id (a ∷ rest) t =
    look-describe id rest (put_entry a.identifier a t)
    ∙ ap (or_else (described id rest)) (look-put_entry id a.identifier a t)
    ∙ or_else-later (described id rest) (same_place id a.identifier) a (look id t)

look-uses :
    (id : Identifier) (us : List Usage) (t : Table Usage)
    → look id (note_uses us t) ≡ or_else (used id us) (look id t)
unfolding note_uses or_else
look-uses id [] t = refl
look-uses id (u ∷ rest) t =
    look-uses id rest (put_entry u.identifier u t)
    ∙ ap (or_else (used id rest)) (look-put_entry id u.identifier u t)
    ∙ or_else-later (used id rest) (same_place id u.identifier) u (look id t)

describe-Sorted :
    (ds : List AutomatonDescription) (t : Table AutomatonDescription)
    → AllProper ds
    → Sorted t
    → Sorted (describe ds t)
unfolding describe
describe-Sorted [] t p s = s
describe-Sorted (a ∷ rest) t p s =
    describe-Sorted rest (put_entry a.identifier a t) (λ b m. p b (Memᴰ.tail m))
      (put_entry-Sorted a.identifier a t (p a (Memᴰ.head refl)) s)

or_else-none : {V : Type 0} (o : Option V) → or_else o none ≡ o
unfolding or_else
or_else-none none = refl
or_else-none (some v) = refl

module _ (begin : List GraphTransition → Option GraphTransition) (xor_only : Bool) (depth : ℕ)
    (rounds : ℕ) (kind : AutomatonType) (descriptions : Table AutomatonDescription)
    (uses : Table Usage) where
  abbrev make : ℕ → AutomatonDescription → Option Usage → Run Built
  make = make_automaton begin xor_only depth rounds kind descriptions

  -- `after` has, over `before`, the automata of the descriptions.
  record Makes (rest : Table AutomatonDescription) (before after : Loaded) : Type 0 where
    keeps :
        (id : Identifier) → look id rest ≡ none → look id after.automata ≡ look id before.automata
    makes :
        (id : Identifier) (d : AutomatonDescription)
        → look id rest ≡ some d
        → (i : ℕ) × (n : Built) × (make i d (look id uses) ≡ ok n)
          × (look id after.automata ≡ some n)

  Makes-cons :
      (i : ℕ) (j : Identifier) (d : AutomatonDescription) (rest : Table AutomatonDescription)
      (n : Built) (before middle after : Loaded)
      → After j rest
      → make i d (look j uses) ≡ ok n
      → middle.automata ≡ put_entry j n before.automata
      → Makes rest middle after
      → Makes ((j, d) ∷ rest) before after
  Makes-cons i j d rest n before middle after later made placed r = record {
    keeps = λ id nothing. elim (Bool-cases (same_place id j)) [
      | inl here ↦ absurd (some≢none d (sym (at_head id true here) ∙ nothing))
      | inr elsewhere ↦
          r.keeps id (sym (at_head id false elsewhere) ∙ nothing) ∙ in_middle id false elsewhere
    ];
    makes = λ id e found. elim (Bool-cases (same_place id j)) [
      | inl here ↦
          let keys = (same_place-key id j).0 here in
          let is : d ≡ e = some-injective d e (sym (at_head id true here) ∙ found) in
          (
            i,
            n,
            (ap₂ (make i) (sym is) (look-same id j uses keys) ∙ made),
            (r.keeps id (look-none id j rest keys later) ∙ in_middle id true here),
          )
      | inr elsewhere ↦ r.makes id e (sym (at_head id false elsewhere) ∙ found)
    ];
  }
    where
      at_head :
          (id : Identifier) (b : Bool)
          → same_place id j ≡ b
          → look id ((j, d) ∷ rest) ≡ (if b then some d else look id rest)
      at_head id b e = look_cons id j d rest ∙ ap (λ x. if x then some d else look id rest) e

      in_middle :
          (id : Identifier) (b : Bool)
          → same_place id j ≡ b
          → look id middle.automata ≡ (if b then some n else look id before.automata)
      in_middle id b e =
          ap (look id) placed
          ∙ look-put_entry id j n before.automata
          ∙ ap (λ x. if x then some n else look id before.automata) e

  load_each-Makes :
      (i : ℕ) (rest : Table AutomatonDescription) (m : Loaded)
      → Sorted rest
      → Yields
          (load_each begin xor_only depth rounds kind descriptions uses i rest m)
          (Makes rest m)
  unfolding load_each
  load_each-Makes i [] m s = Yields-ok (Makes [] m) m (record {
    keeps = λ id e. refl;
    makes = λ id d e. absurd (some≢none d (sym e ∙ look_nil id));
  })
  load_each-Makes i ((j, d) ∷ rest) m (p, after, s) =
      Yields-bind (λ n. make i d (look j uses) ≡ ok n) (Makes ((j, d) ∷ rest) m)
        (make i d (look j uses)) _ (λ n e. e)
        λ n made.
          Yields-after (Makes ((j, d) ∷ rest) m) (lifetime_of begin xor_only depth rounds d n) _
            λ l. Yields-after (Makes ((j, d) ∷ rest) m) (note_lifetime l m.lifetimes) _ λ ls m' run.
              Makes-cons i j d rest n m
                (record { automata = put_entry j n m.automata; lifetimes = ls }) m' after made refl
                (load_each-Makes (i + 1) rest _ s m' run)

-- What is found of an identifier in the manifest: the automaton of its last description and its last
-- use, or a panic where it has no description.
abbrev pub FindsLast :
    (List GraphTransition → Option GraphTransition)
    → Bool
    → ℕ
    → ℕ
    → AutomatonType
    → ManifestFile
    → Identifier
    → Loaded
    → Type 0
FindsLast begin xor_only depth rounds kind file id m =
    ((number : ℕ) × (d : AutomatonDescription) × (n : Built) × (described id file.automata ≡ some d)
      × (make_automaton begin xor_only depth rounds kind (describe file.automata []) number d
            (used id file.roots)
          ≡ ok n)
      × (find_automaton m id ≡ ok n))
    ⊎ ((described id file.automata ≡ none) × (find_automaton m id ≡ fault Fault.panicked))

-- Where a manifest is loaded from a file, each of whose descriptions has an identifier with a name or a
-- location and not both, `FindAutomaton` finds for an identifier the automaton that is made of the
-- last description with it and of the last use of it among the roots, if there is one, under some
-- number; it panics for an identifier without a description.
pub load-FindsLast :
    (begin : List GraphTransition → Option GraphTransition) (xor_only : Bool) (depth rounds : ℕ)
    (kind : AutomatonType) (file : ManifestFile) (m : Loaded) (id : Identifier)
    → AllProper file.automata
    → load begin xor_only depth rounds kind file ≡ ok m
    → FindsLast begin xor_only depth rounds kind file id m
unfolding load find_automaton or_panic
load-FindsLast begin xor_only depth rounds kind file m id proper run =
    let descriptions = describe file.automata [] in
    let uses = note_uses file.roots [] in
    let r =
      load_each-Makes begin xor_only depth rounds kind descriptions uses 0 descriptions
        (record { automata = []; lifetimes = [] }) (describe-Sorted file.automata [] proper tt) m
        run in
    let all : look id descriptions ≡ described id file.automata =
      look-describe id file.automata []
      ∙ ap (or_else (described id file.automata)) (look_nil id)
      ∙ or_else-none (described id file.automata) in
    let last_use : look id uses ≡ used id file.roots =
      look-uses id file.roots []
      ∙ ap (or_else (used id file.roots)) (look_nil id)
      ∙ or_else-none (used id file.roots) in
    elim (Option-cases (described id file.automata)) [
      | inl nothing ↦ inr (nothing, rw (r.keeps id (all ∙ nothing) ∙ look_nil id, find_automaton))
      | inr (d, last) ↦
          let (i, n, made, found) = r.makes id d (all ∙ last) in
          inl (
            i,
            d,
            n,
            last,
            subst (λ u. make_automaton begin xor_only depth rounds kind descriptions i d u ≡ ok n)
                last_use made,
            rw found,
          )
    ]

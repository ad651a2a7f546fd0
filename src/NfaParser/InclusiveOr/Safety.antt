-- ===== src/NfaParser/InclusiveOr/Safety.antt =====
-- The copies of chains of transitions, and the states they are between.
use mathlib.Core.List.Memᴰ
use mathlib.Core.List.{Memᴰ}
use mathlib.Core.Option.{some-injective}
use mathlib.Core.Path.{subst}
use tesla.Base.{
  Avoids-bind, Avoids-each_run, Avoids-if, Avoids-weaken, Bool-cases, Fault, List, Option, Safe, [],
  arith, at_address, each_run, false, if◌then◌else◌, inl, inr, length, length-append, mem-one, none,
  ok, refl, some, suc, sym, zero, ℕ, ◌++◌, ◌+◌, ◌<◌, ◌==◌, ◌∙◌, ◌∷◌, ◌≡◌, ◌≤◌,
}
use tesla.Automata.{GraphTransition, Label, is_null}
use tesla.Automata.Graph.{Graph, copy, out_of}
use tesla.Automata.Graph.Out.{out_of-mem}
use tesla.Automata.Graph.Safety.{
  Copied, Extends, Extends-self, Extends-trans, Linked, Valid, build_state-Extends, copy-Safe,
  create-Safe,
}
use tesla.NfaParser.InclusiveOr.{
  ChainCopy, StateMap, copy_between, copy_chain, copy_link, copy_state, last_of, mapped,
  reachable_between, seen, take_or_make,
}

-- Transitions of a graph.
abbrev pub Of : Graph → List GraphTransition → Type 0
Of g ts = (t : GraphTransition) → Memᴰ t ts → Memᴰ t g.transitions

pub reachable_between-Safe :
    (fuel : ℕ) (g : Graph) (end start : ℕ) (ts : List GraphTransition)
    → Of g ts
    → Safe (reachable_between fuel g end ts start) (Of g)
unfolding reachable_between
reachable_between-Safe zero g end start ts h = inr (Fault.exhausted, refl, λ e. cc)
reachable_between-Safe (suc fuel) g end start ts h =
    Avoids-if (Of g) (start == end) (ok ts) _ (λ _. inl (ts, refl, h))
      λ _.
        Avoids-each_run (Of g) _ (out_of start g.transitions) ts
          (λ t found m inside.
            Avoids-if (Of g) (seen found t.address) (ok found) _ (λ _. inl (found, refl, inside))
              λ _. reachable_between-Safe fuel g end t.to (found ++ t ∷ []) λ u k.
                elim (Memᴰ.append_cases found k) [
                  | inl old ↦ inside u old
                  | inr new ↦ Memᴰ.cast (mem-one new) (out_of-mem start g.transitions t m).0
                ])
          h

-- The copies of states are states.
abbrev MapInside : StateMap → ℕ → Type 0
MapInside m n = (s b : ℕ) → mapped m s ≡ some b → b < n

MapInside-cons : (s b n : ℕ) (m : StateMap) → b < n → MapInside m n → MapInside ((s, b) ∷ m) n
MapInside-cons s b n m h inside s' b' e = elim (Bool-cases (s == s')) [
  | inl same ↦
      let is : some b ≡ some b' =
        subst (λ x. (if x then some b else mapped m s') ≡ some b') same e in
      subst (λ x. x < n) (some-injective b b' is) h
  | inr other ↦ inside s' b' (subst (λ x. (if x then some b else mapped m s') ≡ some b') other e)
]

record Placed (g : Graph) (r : ℕ × StateMap × Graph) : Type 0 where
  grows : Extends g r.2
  inside : r.0 < length r.2.states
  map : MapInside r.1 (length r.2.states)

take_or_make-Placed :
    (found : Option ℕ) (s : ℕ) (m : StateMap) (g : Graph)
    → Valid g
    → MapInside m (length g.states)
    → ((b : ℕ) → found ≡ some b → b < length g.states)
    → Placed g (take_or_make found s m g)
unfolding take_or_make
take_or_make-Placed (some n) s m g v h f = record {
  grows = Extends-self g v;
  inside = f n refl;
  map = h;
}
take_or_make-Placed none s m g v h f =
    let (grows, inside) = build_state-Extends false false none g v in
    record {
      grows = grows;
      inside = inside;
      map =
          MapInside-cons s _ _ m inside
            (λ s' b e. let old = h s' b e in omega (arith, old, grows.states_le));
    }

copy_state-Placed :
    (s : ℕ) (m : StateMap) (g : Graph)
    → Valid g
    → MapInside m (length g.states)
    → Placed g (copy_state s m g)
unfolding copy_state
copy_state-Placed s m g v h = take_or_make-Placed (mapped m s) s m g v h (h s)

last_of-mem :
    (ts : List GraphTransition)
    → 0 < length ts
    → (t : GraphTransition) × (last_of ts ≡ some t) × Memᴰ t ts
last_of-mem [] h = absurd (omega arith)
last_of-mem (t ∷ []) h = (t, refl, Memᴰ.head refl)
last_of-mem (t ∷ u ∷ ts) h =
    let (w, e, m) = last_of-mem (u ∷ ts) (omega arith) in (w, e, Memᴰ.tail m)

copy_between-Safe :
    (t : GraphTransition) (from to : ℕ) (g : Graph)
    → Valid g
    → from < length g.states
    → to < length g.states
    → Safe (copy_between t from to g) (Linked g)
unfolding copy_between
copy_between-Safe t from to g v hf ht =
    Avoids-if (Linked g) (is_null t.label) _ _
      (λ _. create-Safe Label.null false false from to g v hf ht)
      λ other.
        Avoids-weaken (Copied t.label g) (Linked g) (copy from to t false g)
          (copy-Safe from to g v hf ht t false)
          λ g' c. record { grows = c.grows; some_transition = c.added other }

-- A chain copied so far.
pub record Chained (g : Graph) (n : ℕ) (c : ChainCopy) : Type 0 where
  pub grows : Extends g c.graph
  pub map : MapInside c.states (length c.graph.states)
  pub clones : (t : GraphTransition) → Memᴰ t c.clone → t.to < length c.graph.states
  pub count : length c.clone ≡ n

clones-append :
    (ts : List GraphTransition) (x : GraphTransition) (n m : ℕ)
    → ((t : GraphTransition) → Memᴰ t ts → t.to < n)
    → n ≤ m
    → x.to < m
    → (t : GraphTransition) → Memᴰ t (ts ++ x ∷ [])
    → t.to < m
clones-append ts x n m h le new t k = elim (Memᴰ.append_cases ts k) [
  | inl old ↦ let was = h t old in omega (arith, was, le)
  | inr is ↦ subst (λ (y : GraphTransition). y.to < m) (sym (mem-one is)) new
]

copy_link-Safe :
    (g : Graph) (n : ℕ) (t : GraphTransition) (c : ChainCopy)
    → Chained g n c
    → Safe (copy_link t c) (Chained g (suc n))
unfolding copy_link
copy_link-Safe g n t c h =
    let a = copy_state-Placed t.from c.states c.graph h.grows.valid h.map in
    let (from, m, g₁) = copy_state t.from c.states c.graph in
    let b = copy_state-Placed t.to m g₁ a.grows.valid a.map in
    let (to, m', g₂) = copy_state t.to m g₁ in
    Avoids-bind (Linked g₂) (Chained g (suc n)) (copy_between t from to g₂) _
      (copy_between-Safe t from to g₂ b.grows.valid (omega (arith, a.inside, b.grows.states_le))
        b.inside)
      λ g₃ r.
        let (back, at, mem) = last_of-mem g₃.transitions r.some_transition in
        Avoids-bind (λ (x : GraphTransition). x ≡ back) (Chained g (suc n))
          (at_address (last_of g₃.transitions)) _ (inl (back, rw at, refl))
          λ x same. inl (
            _,
            refl,
            record {
              grows =
                  Extends-trans g c.graph g₃ h.grows
                    (Extends-trans c.graph g₁ g₃ a.grows (Extends-trans g₁ g₂ g₃ b.grows r.grows));
              map = λ s' b' e. let old = b.map s' b' e in omega (arith, old, r.grows.states_le);
              clones =
                  clones-append c.clone x (length c.graph.states) (length g₃.states) h.clones
                    (omega (arith, a.grows.states_le, b.grows.states_le, r.grows.states_le))
                    (subst (λ (y : GraphTransition). y.to < length g₃.states) (sym same)
                      (r.grows.valid.inside back mem).1);
              count = length-append c.clone (x ∷ []) ∙ omega (arith, h.count);
            },
          )

copy_links-Safe :
    (g : Graph) (chain : List GraphTransition) (n : ℕ) (c : ChainCopy)
    → Chained g n c
    → Safe (each_run copy_link chain c) (Chained g (n + length chain))
copy_links-Safe g [] n c h = inl (c, refl, subst (λ k. Chained g k c) (omega arith) h)
copy_links-Safe g (t ∷ chain) n c h =
    Avoids-bind (Chained g (suc n)) (Chained g (n + length (t ∷ chain))) (copy_link t c)
      (each_run copy_link chain) (copy_link-Safe g n t c h)
      λ c' h'.
        Avoids-weaken (Chained g (suc n + length chain)) (Chained g (n + length (t ∷ chain)))
          (each_run copy_link chain c') (copy_links-Safe g chain (suc n) c' h')
          (λ r k. subst (λ m. Chained g m r) (omega arith) k)

pub copy_chain-Safe :
    (chain : List GraphTransition) (old_start new_start : ℕ) (g : Graph)
    → Valid g
    → new_start < length g.states
    → Safe (copy_chain chain old_start new_start g) (Chained g (length chain))
unfolding copy_chain
copy_chain-Safe chain old_start new_start g v h =
    Avoids-weaken (Chained g (0 + length chain)) (Chained g (length chain))
      (each_run copy_link chain _)
      (copy_links-Safe g chain 0 _ (record {
        grows = Extends-self g v;
        map = MapInside-cons old_start new_start _ [] h (λ s b e. cc);
        clones = λ t m. absurd (Memᴰ.not-nil m);
        count = refl;
      }))
      (λ r k. subst (λ m. Chained g m r) (omega arith) k)

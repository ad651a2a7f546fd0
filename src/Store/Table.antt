-- ===== src/Store/Table.antt =====
-- The table of classes as a map from automata: what one `tesla_class_get` promises the next.
use mathlib.Core.Bool.{true≢false}
use mathlib.Core.Path.{subst, subst⁻¹}
use tesla.Base.{
  ==_iff, >>=-eq-ok, Bool-cases, List, Option, ap, assert, assert-ok, at_address-ok, get_elem?, inl,
  inr, length, ltb, none, ok, ok-injective, read, refl, some, sym, true, ℕ, ◌==◌, ◌>>=◌, ◌∙◌, ◌≡◌,
  ◌≢◌, ◌⊎◌,
}
use tesla.Class.{class_acquire}
use tesla.Store.{class_get, hand_over, walk}
use tesla.Store.Walk.{
  Grows, Lives, Lives-Grows, Lives-owner, Lives-walk, empty≢same, fit-occupied, fit-same,
  walk-Grows, walk-Lives,
}
use tesla.Types.{Automaton, Class, Error, Output, Store}

abbrev Got : Type 0
Got = Error × Option ℕ × Store × List Output

-- The class given has instances.
record Ready (s : Store) (ci : ℕ) (out : List Output) : Type 0 where
  cls : Class
  stands : get_elem? s.classes ci ≡ some cls
  has : ltb 0 (length cls.instances) ≡ true
  locks : out ≡ class_acquire ci cls

hand_over-Ready :
    (s : Store) (found : Option ℕ) (r : Got)
    → hand_over s found ≡ ok r
    → (r.2 ≡ s) × ((ci : ℕ) → r.1 ≡ some ci → (found ≡ some ci) × Ready s ci r.3)
unfolding hand_over
hand_over-Ready s none r h =
    subst (λ (w : Got). (w.2 ≡ s) × ((ci : ℕ) → w.1 ≡ some ci → (none ≡ some ci) × Ready s ci w.3))
      (ok-injective h) (refl, λ ci q. cc)
hand_over-Ready s (some k) r h =
    let (c, e, h') = >>=-eq-ok (read s.classes k) _ h in
    let (u, has, h'') = >>=-eq-ok (assert (ltb 0 (length c.instances))) _ h' in
    subst
      (λ (w : Got). (w.2 ≡ s) × ((ci : ℕ) → w.1 ≡ some ci → (some k ≡ some ci) × Ready s ci w.3))
      (ok-injective h'')
      (
        refl,
        λ ci q.
            let same : k ≡ ci = cc in
            (
              q,
              subst (λ n. Ready s n (class_acquire k c)) same
                  (record {
                    cls = c;
                    stands = at_address-ok (get_elem? s.classes k) c e;
                    has = assert-ok (ltb 0 (length c.instances)) u has;
                    locks = refl;
                  }),
            ),
      )

Ready-hand_over :
    (s : Store) (ci : ℕ) (out : List Output)
    → Ready s ci out
    → hand_over s (some ci) ≡ ok (Error.success, some ci, s, out)
unfolding hand_over
Ready-hand_over s ci out h =
    rw (h.stands, ◌>>=◌, h.has) (ap (λ o. ok (Error.success, some ci, s, o)) (sym h.locks))

-- The outcome of a call that ends normally.
record After (s : Store) (a : Automaton) (r : Got) : Type 0 where
  size : r.2.size ≡ s.size
  grows : Grows s.classes r.2.classes
  found : (ci : ℕ) → r.1 ≡ some ci → Lives a s.size r.2.classes s.size 0 ci × Ready r.2 ci r.3

class_get-After : (s : Store) (a : Automaton) (r : Got) → class_get s a ≡ ok r → After s a r
unfolding class_get
class_get-After s a r h =
    let (w, e, h') = >>=-eq-ok (walk a s.size s.classes s.size 0) _ h in
    let s' = record s { classes = w.1 } in
    let (same, ready) = hand_over-Ready s' w.0 r h' in
    subst⁻¹ (λ (x : Store). After s a (r.0, r.1, x, r.3)) same
      (record {
        size = refl;
        grows = walk-Grows a s.size s.classes s.size 0 w e;
        found = λ ci q.
            let (here, there) = ready ci q in
            (walk-Lives a s.size s.classes s.size 0 w e ci here, there);
      })

-- A class that an automaton lives in and that has instances is found again.
found_again :
    (s : Store) (a : Automaton) (ci : ℕ) (out : List Output)
    → Lives a s.size s.classes s.size 0 ci
    → Ready s ci out
    → class_get s a ≡ ok (Error.success, some ci, s, out)
unfolding class_get
found_again s a ci out lives ready =
    rw (Lives-walk a s.size s.classes s.size 0 ci lives, ◌>>=◌) (Ready-hand_over s ci out ready)

-- A class given to one automaton stands in the table that a later walk leaves.
Ready-Grows :
    (s s' : Store) (a : Automaton) (ci : ℕ) (out : List Output)
    → Grows s.classes s'.classes
    → Lives a s.size s.classes s.size 0 ci
    → Ready s ci out
    → Ready s' ci out
Ready-Grows s s' a ci out grows lives ready =
    let (c, e, f) = Lives-owner a s.size s.classes s.size 0 ci lives in
    let same : ready.cls ≡ c = cc (ready.stands, e) in
    record {
      cls = ready.cls;
      stands = grows.kept ci ready.cls ready.stands (
          subst⁻¹ (λ (x : Class). x.automaton ≢ none) same
            (fit-occupied a c (λ w. empty≢same (sym w ∙ f))));
      has = ready.has;
      locks = ready.locks;
    }

-- A class that a call gave to an automaton is given to it again after one more call for any
-- automaton that ends normally, and the call that finds it again leaves the store as it is.
pub class_get_stable :
    (s : Store) (a b : Automaton) (first second : Got) (ci : ℕ)
    → class_get s a ≡ ok first
    → first.1 ≡ some ci
    → class_get first.2 b ≡ ok second
    → class_get second.2 a ≡ ok (Error.success, some ci, second.2, first.3)
class_get_stable s a b first second ci h q h' =
    let one = class_get-After s a first h in
    let two = class_get-After first.2 b second h' in
    let (lives, ready) = one.found ci q in
    let lives1 = subst⁻¹ (λ n. Lives a n first.2.classes n 0 ci) one.size lives in
    let lives2 =
      Lives-Grows a first.2.size first.2.classes second.2.classes first.2.size 0 ci two.grows
        lives1 in
    found_again second.2 a ci first.3
      (subst⁻¹ (λ n. Lives a n second.2.classes n 0 ci) two.size lives2)
      (Ready-Grows first.2 second.2 a ci first.3 two.grows lives1 ready)

-- Two calls in a row that give classes to automata at different addresses give different classes.
pub class_get_apart :
    (s : Store) (a b : Automaton) (first second : Got) (i j : ℕ)
    → class_get s a ≡ ok first
    → first.1 ≡ some i
    → class_get first.2 b ≡ ok second
    → second.1 ≡ some j
    → a.addr ≢ b.addr
    → i ≢ j
class_get_apart s a b first second i j h q h' q' apart same =
    let one = class_get-After s a first h in
    let two = class_get-After first.2 b second h' in
    let lives = subst⁻¹ (λ n. Lives a n first.2.classes n 0 i) one.size (one.found i q).0 in
    let after =
      Lives-Grows a first.2.size first.2.classes second.2.classes first.2.size 0 i two.grows
        lives in
    let (c, e, f) = Lives-owner a first.2.size second.2.classes first.2.size 0 i after in
    let (d, e', f') =
      Lives-owner b first.2.size second.2.classes first.2.size 0 j (two.found j q').0 in
    let (x, own, at) = fit-same a c f in let (y, own', at') = fit-same b d f' in apart cc

-- Two calls in a row that end normally, where the first one gives a class: the class is given to the
-- first automaton again after the second call, and the call that finds it again leaves the store as
-- it is; and the second call gives another class, unless the automata are at the same address.
pub class_get_map :
    (s : Store) (a b : Automaton) (first second : Got) (i : ℕ)
    → class_get s a ≡ ok first
    → first.1 ≡ some i
    → class_get first.2 b ≡ ok second
    → (class_get second.2 a ≡ ok (Error.success, some i, second.2, first.3))
      × ((a.addr ≡ b.addr) ⊎ (second.1 ≢ some i))
class_get_map s a b first second i h q h' = (
  class_get_stable s a b first second i h q h',
  elim (Bool-cases (a.addr == b.addr)) [
    | inl same ↦ inl ((==_iff a.addr b.addr).0 same)
    | inr differs ↦ inr (λ q'.
        class_get_apart s a b first second i i h q h' q'
          (λ e. true≢false (sym ((==_iff a.addr b.addr).1 e) ∙ differs)) refl)
  ],
)

-- The class that a call gives is acquired.
pub class_get-acquires :
    (s : Store) (a : Automaton) (r : Got) (ci : ℕ) (c : Class)
    → class_get s a ≡ ok r
    → r.1 ≡ some ci
    → get_elem? r.2.classes ci ≡ some c
    → r.3 ≡ class_acquire ci c
class_get-acquires s a r ci c h q stands =
    let ready = ((class_get-After s a r h).found ci q).1 in
    let same : ready.cls ≡ c = cc (ready.stands, stands) in
    ready.locks ∙ ap (λ (w : Class). class_acquire ci w) same

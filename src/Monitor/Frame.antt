-- ===== src/Monitor/Frame.antt =====
-- What an event leaves alone.
use mathlib.Core.Path.{subst}
use tesla.Base.{
  >>=-eq-ok, List, Option-cases, ap, get_elem?, get_elem?-set_ne, inl, inr, length, length-set, ok,
  ok-injective, read, refl, set, some, sym, ℕ, ◌>>=◌, ◌∙◌, ◌≡◌, ◌≢◌,
}
use tesla.Lifetime.{find_lifetime}
use tesla.Monitor.{update_class_state, update_live}
use tesla.Types.{Automaton, Class, Env, Key, LifetimeState, Output, Store}

-- The stores are alike but for class `ci`, and the lifetime of its automaton `a`.
pub record Frame (a : Automaton) (ci : ℕ) (s s' : Store) : Type 0 where
  pub size : s'.size ≡ s.size
  pub classes_count : length s'.classes ≡ length s.classes
  pub others : (k : ℕ) → k ≢ ci → get_elem? s'.classes k ≡ get_elem? s.classes k
  pub lifetimes_count : length s'.lifetimes ≡ length s.lifetimes
  pub other_lifetimes :
      (l : ℕ)
      → find_lifetime a.lifetime s.lifetimes ≢ some l
      → get_elem? s'.lifetimes l ≡ get_elem? s.lifetimes l

Frame-refl : (a : Automaton) (ci : ℕ) (s : Store) → Frame a ci s s
Frame-refl a ci s = record {
  size = refl;
  classes_count = refl;
  others = λ k n. refl;
  lifetimes_count = refl;
  other_lifetimes = λ l n. refl;
}

Frame-set :
    (a : Automaton) (ci li : ℕ) (s : Store) (c : Class) (ls : LifetimeState)
    → find_lifetime a.lifetime s.lifetimes ≡ some li
    → Frame a ci s (record s { classes = set s.classes ci c; lifetimes = set s.lifetimes li ls })
Frame-set a ci li s c ls found = record {
  size = refl;
  classes_count = length-set s.classes ci c;
  others = λ k n. get_elem?-set_ne s.classes ci k c (λ q. n (sym q));
  lifetimes_count = length-set s.lifetimes li ls;
  other_lifetimes = λ l n. get_elem?-set_ne s.lifetimes li l ls (λ q. n (found ∙ ap some q));
}

-- An event that ends normally for a class changes that class only, and of the lifetimes none but
-- the one that the search finds for the class's automaton: the store keeps its size, and its other
-- classes and lifetimes are as they were.
pub update_class_state-Frame :
    (env : Env) (s : Store) (ci symbol : ℕ) (pattern : Key) (c : Class) (a : Automaton)
    (r : Store × List Output)
    → get_elem? s.classes ci ≡ some c
    → c.automaton ≡ some a
    → update_class_state env s ci symbol pattern ≡ ok r
    → Frame a ci s r.0
unfolding update_class_state
update_class_state-Frame env s ci symbol pattern c a r e own h =
    let h₁ = rw (e, ◌>>=◌, own) at h in
    elim (Option-cases (find_lifetime a.lifetime s.lifetimes)) [
      | inl unknown ↦
          subst (λ (w : Store × List Output). Frame a ci s w.0) (ok-injective (rw unknown at h₁))
            (Frame-refl a ci s)
      | inr (li, found) ↦
          let (ls, read_it, h₂) = >>=-eq-ok (read s.lifetimes li) _ (rw found at h₁) in
          let (x, run, h₃) = >>=-eq-ok (update_live env ci a c ls symbol pattern) _ h₂ in
          subst (λ (w : Store × List Output). Frame a ci s w.0) (ok-injective h₃)
            (Frame-set a ci li s x.0 x.1 found)
    ]

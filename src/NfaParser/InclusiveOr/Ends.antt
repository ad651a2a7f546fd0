-- ===== src/NfaParser/InclusiveOr/Ends.antt =====
-- The depth of `CalculateReachableTransitionsBetween`.
use mathlib.Core.List.Memᴰ
use mathlib.Core.List.{Memᴰ}
use mathlib.Core.Path.{subst}
use tesla.Base.{
  ==_self, Avoids-each_run, Avoids-if, Avoids-weaken, Halts, List, [], arith, count_le, count_lt,
  false, if◌then◌else◌, inl, inr, length, ok, or-cases, or-left, or-right, refl, suc, true, zero, ℕ,
  ◌++◌, ◌<◌, ◌==◌, ◌∷◌, ◌≡◌, ◌≤◌,
}
use tesla.Automata.{GraphTransition}
use tesla.Automata.Graph.{Graph, out_of}
use tesla.Automata.Graph.Out.{out_of-mem}
use tesla.NfaParser.InclusiveOr.{reachable_between, seen}

-- How many of `ts` have not been found.
abbrev unvisited : List GraphTransition → List GraphTransition → ℕ
unvisited found [] = 0
unvisited found (t ∷ ts) =
    if seen found t.address then unvisited found ts else suc (unvisited found ts)

-- All that `f` has found, `r` has.
abbrev pub Keeps : List GraphTransition → List GraphTransition → Type 0
Keeps f r = (a : ℕ) → seen f a ≡ true → seen r a ≡ true

Keeps-append : (f : List GraphTransition) (t : GraphTransition) → Keeps f (f ++ t ∷ [])
Keeps-append [] t a e = cc
Keeps-append (u ∷ f) t a e = elim (or-cases (u.address == a) (seen f a) e) [
  | inl here ↦ or-left (u.address == a) (seen (f ++ t ∷ []) a) here
  | inr there ↦ or-right (u.address == a) (seen (f ++ t ∷ []) a) (Keeps-append f t a there)
]

seen-last : (f : List GraphTransition) (t : GraphTransition) → seen (f ++ t ∷ []) t.address ≡ true
seen-last [] t = or-left (t.address == t.address) false (==_self t.address)
seen-last (u ∷ f) t =
    or-right (u.address == t.address) (seen (f ++ t ∷ []) t.address) (seen-last f t)

unvisited_le : (f r ts : List GraphTransition) → Keeps f r → unvisited r ts ≤ unvisited f ts
unvisited_le f r [] k = omega arith
unvisited_le f r (t ∷ ts) k =
    count_le (seen f t.address) (seen r t.address) (unvisited r ts) (unvisited f ts) (k t.address)
      (unvisited_le f r ts k)

unvisited_lt :
    (f ts : List GraphTransition) (t : GraphTransition)
    → Memᴰ t ts
    → seen f t.address ≡ false
    → unvisited (f ++ t ∷ []) ts < unvisited f ts
unvisited_lt f [] t m new = absurd (Memᴰ.not-nil m)
unvisited_lt f (u ∷ ts) t m new = elim (Memᴰ.cases_cons m) [
  | inl same ↦
      let less = unvisited_le f (f ++ t ∷ []) ts (Keeps-append f t) in
      let before : seen f u.address ≡ false =
        subst (λ (x : GraphTransition). seen f x.address ≡ false) same new in
      let after : seen (f ++ t ∷ []) u.address ≡ true =
        subst (λ (x : GraphTransition). seen (f ++ t ∷ []) x.address ≡ true) same (seen-last f t) in
      ground arith
  | inr later ↦
      count_lt (seen f u.address) (seen (f ++ t ∷ []) u.address) (unvisited (f ++ t ∷ []) ts)
        (unvisited f ts) (Keeps-append f t u.address) (unvisited_lt f ts t later new)
]

unvisited-length : (f ts : List GraphTransition) → unvisited f ts ≤ length ts
unvisited-length f [] = omega arith
unvisited-length f (t ∷ ts) = let rest = unvisited-length f ts in ground arith

reachable_between-Keeps :
    (fuel : ℕ) (g : Graph) (end start : ℕ) (f : List GraphTransition)
    → unvisited f g.transitions < fuel
    → Halts (reachable_between fuel g end f start) (Keeps f)
unfolding reachable_between
reachable_between-Keeps zero g end start f h = absurd (omega arith)
reachable_between-Keeps (suc fuel) g end start f h =
    Avoids-if (Keeps f) (start == end) (ok f) _ (λ _. inl (f, refl, λ a e. e))
      λ _.
        Avoids-each_run (Keeps f) _ (out_of start g.transitions) f
          (λ t found m k.
            Avoids-if (Keeps f) (seen found t.address) (ok found) _ (λ _. inl (found, refl, k))
              λ new.
                let less =
                  unvisited_lt found g.transitions t (out_of-mem start g.transitions t m).0 new in
                let fewer = unvisited_le f found g.transitions k in
                Avoids-weaken (Keeps (found ++ t ∷ [])) (Keeps f)
                  (reachable_between fuel g end (found ++ t ∷ []) t.to)
                  (reachable_between-Keeps fuel g end t.to (found ++ t ∷ [])
                    (omega (arith, less, fewer, h)))
                  (λ r more a e. more a (Keeps-append found t a (k a e))))
          (λ a e. e)

-- On any graph, with cycles of any kind, the search for the transitions between two states ends
-- within as many levels of recursion as there are transitions and one, and loses none that it was
-- given.
pub reachable_between-Halts :
    (g : Graph) (start end fuel : ℕ) (f : List GraphTransition)
    → length g.transitions < fuel
    → Halts (reachable_between fuel g end f start) (Keeps f)
reachable_between-Halts g start end fuel f h =
    let few = unvisited-length f g.transitions in
    reachable_between-Keeps fuel g end start f (omega (arith, few, h))

-- ===== src/Automata/Lifetimes/Same.antt =====
-- When two lifetimes compare equal.
use mathlib.Core.Bool.{true≢false}
use mathlib.Core.Option.{some-injective}
use tesla.Base.{
  Bool, Bool-cases, Option, Returns, Run, ap, false, if◌then◌else◌, inl, inr, none, ok, refl, some,
  sym, true, ◌>>=◌, ◌↔◌, ◌∙◌, ◌≡◌,
}
use tesla.Automata.{Label, equivalent, has_message}
use tesla.Automata.Equivalent.{equivalent-site, site}
use tesla.Automata.Lifetimes.{
  AutomatonLifetime, automaton_lifetime_eq, context_eq, end_eq, message_eq,
}
use tesla.Ir.{DescriptionContext}
use tesla.Ir.Equal.{both-true}

-- The transition of a lifetime, if it has one, has a message.
abbrev pub Messaged : Option Label → Type 0
Messaged o = (l : Label) → o ≡ some l → has_message l ≡ true

-- The answer of a comparison.
abbrev pub Decides {ℓ} : {A : Type ℓ} → Run Bool → A → A → Type ℓ
Decides run x y = Returns run (λ b. (b ≡ true) ↔ (x ≡ y))

context_eq_iff : (c d : DescriptionContext) → (context_eq c d ≡ true) ↔ (c ≡ d)
unfolding context_eq
context_eq_iff DescriptionContext.global DescriptionContext.global = (λ e. refl, λ e. refl)
context_eq_iff DescriptionContext.thread_local DescriptionContext.thread_local =
    (λ e. refl, λ e. refl)
context_eq_iff DescriptionContext.global DescriptionContext.thread_local = (λ e. cc, λ e. cc)
context_eq_iff DescriptionContext.thread_local DescriptionContext.global = (λ e. cc, λ e. cc)

site_self : (l : Label) → has_message l ≡ true → site l ≡ l
unfolding has_message
site_self Label.null h = refl
site_self (Label.assert_site a r) h = cc
site_self (Label.fn e) h = refl
site_self (Label.field_assign e) h = refl
site_self (Label.sub_automaton i) h = refl

end_eq-Decides : (a b : Option Label) → Messaged a → Messaged b → Decides (end_eq a b) a b
unfolding end_eq message_eq
end_eq-Decides none none h k = (true, refl, (λ e. refl, λ e. refl))
end_eq-Decides none (some m) h k = (false, refl, (λ e. cc, λ e. cc))
end_eq-Decides (some l) none h k = (false, refl, (λ e. cc, λ e. cc))
end_eq-Decides (some l) (some m) h k =
    let hl = h l refl in
    let hm = k m refl in
    let (f, g) = equivalent-site l m in
    (
      equivalent l m,
      rw (both-true (has_message l) (has_message m) hl hm),
      (
        λ e. ap some (sym (site_self l hl) ∙ f e ∙ site_self m hm),
        λ e. g (ap site (some-injective l m e)),
      ),
    )

-- What a comparison of the two ends answers, when the contexts are equal.
ends-Decides :
    (x y : AutomatonLifetime)
    → x.context ≡ y.context
    → Decides (end_eq x.init y.init) x.init y.init
    → Decides (end_eq x.cleanup y.cleanup) x.cleanup y.cleanup
    → Decides
        (end_eq x.init y.init >>= (λ same. if same then end_eq x.cleanup y.cleanup else ok false))
        x
        y
ends-Decides x y e (true, run, (f, g)) (b, runs, (p, q)) = (
  b,
  rw (run, ◌>>=◌, runs),
  (
    λ t. let first = f refl in let last = p t in cc,
    λ same. q (ap (λ (z : AutomatonLifetime). z.cleanup) same),
  ),
)
ends-Decides x y e (false, run, (f, g)) last =
    (false, rw (run, ◌>>=◌), (λ t. cc, λ same. g (ap (λ (z : AutomatonLifetime). z.init) same)))

-- The comparison of two lifetimes, whose transitions have messages where there are transitions, ends
-- normally, and answers whether the lifetimes are equal.
pub automaton_lifetime_eq-Decides :
    (x y : AutomatonLifetime)
    → Messaged x.init
    → Messaged x.cleanup
    → Messaged y.init
    → Messaged y.cleanup
    → Decides (automaton_lifetime_eq x y) x y
unfolding automaton_lifetime_eq
automaton_lifetime_eq-Decides x y xi xc yi yc =
    let (f, g) = context_eq_iff x.context y.context in
    elim (Bool-cases (context_eq x.context y.context)) [
      | inl same ↦
          let (b, run, p) =
            ends-Decides x y (f same) (end_eq-Decides x.init y.init xi yi)
              (end_eq-Decides x.cleanup y.cleanup xc yc) in
          (b, rw (same, run), p)
      | inr differs ↦ (
        false,
        rw differs,
        (
          λ t. cc,
          λ e.
              absurd (true≢false (sym (g (ap (λ (z : AutomatonLifetime). z.context) e)) ∙ differs)),
        ),
      )
    ]

-- ===== src/Update/Clones.antt =====
-- "Move any clones into the class": a clone gets the first inactive instance, or there is none left.
use tesla.Base.{
  Bool, List, Returns, [], ap, at_address, get_elem?-lt, get_elem?-set_ne, get_elem?-set_self, inl,
  inr, ok, refl, true, ℕ, ◌++◌, ◌<◌, ◌>>=◌, ◌∙◌, ◌∷◌, ◌≡◌, ◌≢◌, ◌⊎◌,
}
use tesla.Action.{masked}
use tesla.Action.Fork.{action-fork, fork-key_union, fork-to_mask}
use tesla.Class.{instance_active, instance_clone}
use tesla.Class.Slots.{
  IsClass, IsFirstIdle, active-nonzero, instance_new-Returns, made, made-IsClass,
}
use tesla.Init.{Flow}
use tesla.Key.{key_union}
use tesla.Types.{Class, Error, Event, Instance, Message, Output, Transition}
use tesla.Update.{Clone, Step, add_clone, add_clones, emit_if, is_cleanup, name_clone, set_instance}
use tesla.Update.Named.{
  Admits, Each, Each-map, Named, Named-Expects, NamedFrom-set, SameShape, set_instance-IsClass,
}
use tesla.Update.Visit.{FlowOf, IsPlain, Pending, Stopped}

-- What the clone becomes.
abbrev clone_of : Step → Instance → Transition → Instance
clone_of e orig t = record {
  key = (key_union orig.key (masked e.pattern t.to_mask)).1;
  state = t.to;
}

abbrev cloned : Step → Class → ℕ → Instance → Transition → Class
cloned e c i orig t = set_instance (made c i orig.key orig.state) i (clone_of e orig t)

abbrev clone_output : Step → Clone → ℕ → List Output
clone_output e p i =
    Output.event (Event.clone e.ci p.old i p.transition)
    ∷ emit_if (is_cleanup p.transition) (Event.accept e.ci i)

abbrev same_instance : Instance → Instance
same_instance x = record { key = x.key; state = x.state }

name_clone-goes :
    (e : Step) (p : Clone) (c : Class) (i : ℕ) (new : Instance)
    → (key_union new.key (masked e.pattern p.transition.to_mask)).0 ≡ Error.success
    → name_clone e p c i new
      ≡ ok (Flow.goes (set_instance c i (clone_of e new p.transition), clone_output e p i))
unfolding name_clone
name_clone-goes e p c i new union = rw (union, name_clone)

module _ (mask_of : ℕ → ℕ) (e : Step) (admits : Admits mask_of e.pattern e.trans) where
  -- The two results of adding a clone; the union of the keys does not fail.
  abbrev AddResult : Class → Clone → Instance → Flow (Class × List Output) → Type 0
  AddResult c p orig r =
      ((i : ℕ) × IsFirstIdle c.instances i
        × (0 < c.free)
        × (r ≡ Flow.goes (cloned e c i orig p.transition, clone_output e p i)))
      ⊎ ((c.free ≡ 0)
          × (r
              ≡ Flow.returned c (
                  Output.event (Event.err e.autom e.symbol Error.enomem Message.clone_failed)
                  ∷ [])))

  add_clone-Returns :
      (c : Class) (p : Clone)
      → IsClass c
      → (h : Pending mask_of e c p) → Returns (add_clone e c p) (AddResult c p h.orig)
  unfolding add_clone instance_clone
  add_clone-Returns c p v h =
      let expects = Named-Expects mask_of e.pattern e.trans h.orig admits h.named in
      let (taken, kind) = action-fork h.orig e.pattern e.trans p.transition expects h.forked in
      let union = fork-key_union h.orig e.pattern e.trans p.transition expects h.forked in
      let (r, run, result) = instance_new-Returns c h.orig.key h.orig.state v in
      elim result [
        | inl (q, z, m) ↦ absurd (active-nonzero h.orig taken.active z m)
        | inr (inl (q, full, named)) ↦ (
          Flow.returned c
              (Output.event (Event.err e.autom e.symbol Error.enomem Message.clone_failed) ∷ []),
          rw (h.stands, run, q),
          inr (full, refl),
        )
        | inr (inr (i, q, idle, pos, named)) ↦
            let at =
              get_elem?-set_self c.instances i (same_instance h.orig)
                (get_elem?-lt c.instances i idle.old idle.stands) in
            (
              Flow.goes (cloned e c i h.orig p.transition, clone_output e p i),
              rw (h.stands, run, q)
                  (ap (λ o. at_address o >>= name_clone e p (made c i h.orig.key h.orig.state) i) at
                    ∙ name_clone-goes e p (made c i h.orig.key h.orig.state) i
                        (same_instance h.orig) union),
              inl (i, idle, pos, refl),
            )
      ]

  -- While clones are added.
  pub record IsAdding (c d : Class) (plain : Bool) (ps : List Clone) : Type 0 where
    pub valid : IsClass d
    pub shape : SameShape c d
    pub named : plain ≡ true → Named mask_of d.instances
    pub pending : Each (Pending mask_of e d) ps
    pub ordinary : plain ≡ true → Each IsPlain ps

  Pending-active :
      (d : Class) (p : Clone) → (h : Pending mask_of e d p) → instance_active h.orig ≡ true
  Pending-active d p h =
      let expects = Named-Expects mask_of e.pattern e.trans h.orig admits h.named in
      (action-fork h.orig e.pattern e.trans p.transition expects h.forked).0.active

  cloned-Pending :
      (d : Class) (i : ℕ) (orig : Instance) (t : Transition) (p : Clone)
      → IsFirstIdle d.instances i
      → Pending mask_of e d p
      → Pending mask_of e (cloned e d i orig t) p
  cloned-Pending d i orig t p idle h =
      let expects = Named-Expects mask_of e.pattern e.trans h.orig admits h.named in
      let act = (action-fork h.orig e.pattern e.trans p.transition expects h.forked).0.active in
      let ne : i ≢ p.old = λ q. cc (idle.idle) in
      record {
        orig = h.orig;
        stands =
            get_elem?-set_ne (made d i orig.key orig.state).instances i p.old (clone_of e orig t) ne
            ∙ get_elem?-set_ne d.instances i p.old (same_instance orig) ne
            ∙ h.stands;
        named = h.named;
        forked = h.forked;
      }

  cloned-IsClass :
      (d : Class) (i : ℕ) (orig : Instance) (t : Transition)
      → IsClass d
      → IsFirstIdle d.instances i
      → 0 < d.free
      → instance_active (same_instance orig) ≡ true
      → IsClass (cloned e d i orig t)
  cloned-IsClass d i orig t v idle pos act =
      set_instance-IsClass (made d i orig.key orig.state) i (same_instance orig) (clone_of e orig t)
        (made-IsClass d i orig.key orig.state v idle pos)
        (get_elem?-set_self d.instances i (same_instance orig)
          (get_elem?-lt d.instances i idle.old idle.stands))
        act

  cloned-Named :
      (d : Class) (i : ℕ) (p : Clone)
      → Named mask_of d.instances
      → (h : Pending mask_of e d p) → IsPlain p
      → Named mask_of (cloned e d i h.orig p.transition).instances
  cloned-Named d i p n h plain =
      let expects = Named-Expects mask_of e.pattern e.trans h.orig admits h.named in
      let (taken, kind) = action-fork h.orig e.pattern e.trans p.transition expects h.forked in
      let typed = admits.typed taken.place p.transition taken.stands in
      let gives = admits.gives taken.place p.transition taken.stands in
      NamedFrom-set mask_of 0 i (made d i h.orig.key h.orig.state).instances
        (clone_of e h.orig p.transition)
        (NamedFrom-set mask_of 0 i d.instances (same_instance h.orig) n h.named)
        λ act. elim kind.1 [
          | inl keeps ↦
              fork-to_mask h.orig e.pattern e.trans p.transition expects h.forked keeps gives
              ∙ typed.1
          | inr clean ↦ cc
        ]

  abbrev pub Added : Class → Bool → Flow (Class × List Output) → Type 0
  Added c plain =
      FlowOf (λ r. IsClass r.0 × SameShape c r.0 × (plain ≡ true → Named mask_of r.0.instances))
        (Stopped e c)

  add_clones-step :
      (c d : Class) (plain : Bool) (p : Clone) (ps : List Clone) (out : List Output)
      → IsAdding c d plain (p ∷ ps)
      → ((d' : Class) (out' : List Output)
          → IsAdding c d' plain ps
          → Returns (add_clones e d' ps out') (Added c plain))
      → Returns (add_clones e d (p ∷ ps) out) (Added c plain)
  unfolding add_clones
  add_clones-step c d plain p ps out h rest =
      let (r, run, result) = add_clone-Returns d p h.valid h.pending.0 in
      elim result [
        | inl (i, idle, pos, q) ↦
            let orig = h.pending.0.orig in
            let (f, run', post) =
              rest (cloned e d i orig p.transition) (out ++ clone_output e p i) (record {
                valid =
                    cloned-IsClass d i orig p.transition h.valid idle pos
                      (Pending-active d p h.pending.0);
                shape = h.shape;
                named = λ b. cloned-Named d i p (h.named b) h.pending.0 (h.ordinary b).0;
                pending =
                    Each-map _ _ (λ p'. cloned-Pending d i orig p.transition p' idle) ps
                      h.pending.1;
                ordinary = λ b. (h.ordinary b).1;
              }) in
            (f, rw (run, q) run', post)
        | inr (full, q) ↦ (
          Flow.returned d (
              out
              ++ Output.event (Event.err e.autom e.symbol Error.enomem Message.clone_failed) ∷ []),
          rw (run, q),
          (h.valid, h.shape, (Message.clone_failed, out, refl)),
        )
      ]

  -- Adding the clones does not fault. It keeps the class well formed, and named unless some clone
  -- was made at cleanup; it ends early only for want of a free instance.
  pub add_clones-Returns :
      (c d : Class) (plain : Bool) (ps : List Clone) (out : List Output)
      → IsAdding c d plain ps
      → Returns (add_clones e d ps out) (Added c plain)
  unfolding add_clones
  add_clones-Returns c d plain [] out h = (Flow.goes (d, out), refl, (h.valid, h.shape, h.named))
  add_clones-Returns c d plain (p ∷ ps) out h =
      add_clones-step c d plain p ps out h (λ d' out' h'. add_clones-Returns c d' plain ps out' h')

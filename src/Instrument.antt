-- ===== src/Instrument.antt =====
-- tesla/instrumenter/InstrContext.cpp: the constants that the instrumented program hands to libtesla.
-- `order` is the order in which LLVM's SmallPtrSet goes through a class. Strings that are only
-- printed, and the protocol buffers library, are parameters.
pub mod Alphabet
pub mod Compiled
pub mod Followed
pub mod Table
use tesla.Base.{
  List, Option, Run, [], assert, assertion, at_address, bad_address, bit_or, fault, get_elem?,
  if◌then◌else◌, length, ltb, map, none, ok, some, ℕ, ◌%◌, ◌++◌, ◌>>=◌, ◌>>◌, ◌^◌, ◌∷◌,
}
use tesla.Automata.{GraphTransition, Label, has_message}
use tesla.Automata.Classes.{EquivalenceClass, automaton_lifetime, classes_code, find_cleanup}
use tesla.Automata.Graph.{Graph, graph_code, state_mask}
use tesla.Ir.{Text}
use tesla.Types.{
  Automaton, Lifetime, LifetimeEvent, Transition, Transitions, trans_cleanup, trans_init,
}

-- Parameters: the bytes of a message, the third-party hash of them, the short label and the
-- printed form of a transition, and the lifetime that the LLVM module already has under a name.
pub record Emitter : Type 0 where
  pub serialize : Label → Text
  pub hash : Text → ℕ
  pub short_label : Label → Text
  pub printed : GraphTransition → Text
  pub existing : Text → Option Lifetime

-- `Mask` of a state
abbrev pub mask_at : Graph → ℕ → ℕ
mask_at g s = elim (get_elem? g.states s) [ none ↦ 0 | some state ↦ state_mask state ]

-- `BuildTransition`
pub build_transition : Graph → GraphTransition → Transition
build_transition g t = record {
  from = t.from % 2 ^ 32;
  from_mask = mask_at g t.from;
  to = t.to % 2 ^ 32;
  to_mask = mask_at g t.to;
  flags = bit_or (if t.init then trans_init else 0) (if t.cleanup then trans_cleanup else 0);
}

abbrev pub set_begin : List GraphTransition → Option GraphTransition
set_begin [] = none
set_begin (t ∷ ts) = some t

-- `BuildLifetimeEvent`: a call through a null pointer where there is no message
build_lifetime_event : Emitter → GraphTransition → Run LifetimeEvent
build_lifetime_event em t =
    let bytes = em.serialize t.label in
    if has_message t.label
    then ok (record { repr = bytes; len = length bytes; hash = em.hash bytes })
    else fault bad_address

-- The name of a lifetime
lifetime_name : Emitter → GraphTransition → GraphTransition → Text
lifetime_name em sunrise sunset =
    b'(' ∷ em.short_label sunrise.label
    ++ (b' ' ∷ b'-' ∷ b'>' ∷ b' ' ∷ em.short_label sunset.label)
    ++ b')' ∷ []

make_lifetime : Emitter → Text → GraphTransition → GraphTransition → Option Lifetime → Run Lifetime
make_lifetime em name sunrise sunset (some l) = ok l
make_lifetime em name sunrise sunset none = do
  first ← build_lifetime_event em sunrise
  last ← build_lifetime_event em sunset
  ok (record { begin_event = first; end_event = last; repr = name })

-- `BuildLifetime`, whose assertion wants both transitions
build_lifetime : Emitter → Option GraphTransition × Option GraphTransition → Run Lifetime
build_lifetime em (some sunrise, some sunset) =
    let name = lifetime_name em sunrise sunset in
    make_lifetime em name sunrise sunset (em.existing name)
build_lifetime em _ = fault assertion

module _ (order : List GraphTransition → List GraphTransition) where
  -- `begin` of a class
  abbrev pub begin_of : List GraphTransition → Option GraphTransition
  begin_of ts = set_begin (order ts)

  -- `BuildTransitions`
  pub build_transitions : Graph → EquivalenceClass → Run Transitions
  build_transitions g c = do
    assert (ltb 0 (length c.transitions))
    head ← at_address (begin_of c.transitions)
    ok (map (build_transition g) (order c.transitions))

  -- The loop of `BuildAutomatonDescription` over the classes: the transitions of each symbol, and the
  -- symbols' names
  pub build_symbols : Emitter → Graph → List EquivalenceClass → Run (List Transitions × List Text)
  build_symbols em g [] = ok ([], [])
  build_symbols em g (c ∷ cs) = do
    head ← at_address (begin_of c.transitions)
    ts ← build_transitions g c
    (symbols, names) ← build_symbols em g cs
    ok (ts ∷ symbols, em.printed head ∷ names)

  -- `BuildAutomatonDescription`: `addr` is where the constant will stand
  build_automaton_description :
      Emitter → ℕ → Text → Text → Graph → List EquivalenceClass → Run Automaton
  build_automaton_description em addr name source g cs = do
    (alphabet, names) ← build_symbols em g cs
    cleanup ← find_cleanup begin_of cs
    events ← automaton_lifetime begin_of cs
    lifetime ← build_lifetime em events
    ok (record {
      addr = addr;
      name = name;
      alphabet_size = length alphabet % 2 ^ 32;
      cleanup_symbol = cleanup.symbol;
      transitions = alphabet;
      description = source;
      symbol_names = names;
      lifetime = lifetime;
    })

-- What an evaluation has to unfold.
unfoldable pub instrument_code : Unit {0}
unfolding build_transition build_lifetime_event lifetime_name make_lifetime build_lifetime
    build_transitions build_symbols build_automaton_description classes_code graph_code
instrument_code = tt

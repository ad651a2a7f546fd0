-- ===== src/Tests/Sample.antt =====
-- The automaton of libtesla/test/repeat.cpp, and classes and stores made of it.
use tesla.Base.{[], none, replicate, some, suc, true, zero, ℕ, ◌∷◌}
use tesla.Types.{
  Automaton, Class, Context, Env, Instance, Key, Lifetime, Store, Transition, Transitions,
  trans_cleanup, trans_init, zero_instance,
}
use tesla.Update.{Step}

abbrev pub trans_of : ℕ → ℕ → ℕ → ℕ → ℕ → Transition
trans_of from from_mask to to_mask flags = record {
  from = from;
  from_mask = from_mask;
  to = to;
  to_mask = to_mask;
  flags = flags;
}

abbrev pub sample_lifetime : Lifetime
sample_lifetime = record {
  begin_event = record { repr = b'i' ∷ b'n' ∷ b'i' ∷ b't' ∷ []; len = 5; hash = 0 };
  end_event = record { repr = b'e' ∷ b'n' ∷ b'd' ∷ []; len = 4; hash = 1 };
  repr = [];
}

abbrev pub repeat_automaton : ℕ → Automaton
repeat_automaton addr = record {
  addr = addr;
  name = [];
  alphabet_size = 4;
  cleanup_symbol = 2;
  transitions =
      (trans_of 0 0 1 0 trans_init ∷ [])
      ∷ (trans_of 1 0 2 1 0 ∷ trans_of 2 1 2 1 0 ∷ [])
      ∷ (trans_of 1 0 3 1 trans_cleanup
          ∷ trans_of 2 1 3 1 trans_cleanup
          ∷ trans_of 4 1 3 1 trans_cleanup
          ∷ [])
      ∷ (trans_of 2 1 4 1 0 ∷ [])
      ∷ [];
  description = [];
  symbol_names = [];
  lifetime = sample_lifetime;
}

abbrev pub key_of : ℕ → ℕ → Key
key_of mask v = record {
  keys = record { w0 = v; w1 = 0; w2 = 0; w3 = 0 };
  mask = mask;
  freemask = 0;
}

abbrev pub debug_env : Env
debug_env = record {
  allocates = λ _. true;
  allocates_lifetimes = λ _. true;
  have_transitions = true;
}

abbrev pub class_of : Context → ℕ → Class
class_of context n = record {
  automaton = none;
  context = context;
  limit = n;
  free = n;
  instances = replicate n zero_instance;
}

-- A store of two classes of `n` instances.
abbrev pub store_of : ℕ → Store
store_of n = record {
  size = 2;
  classes = class_of Context.thread n ∷ class_of Context.thread n ∷ [];
  lifetimes = [];
}

abbrev pub instance_of : ℕ → Key → Instance
instance_of state k = record { key = k; state = state }

-- A class of the automaton in the middle of its life: an instance without a name, one named 7, and
-- a free one.
abbrev pub busy_class : Class
busy_class = record {
  automaton = some (repeat_automaton 0x1000);
  context = Context.global;
  limit = 3;
  free = 1;
  instances = instance_of 1 (key_of 0 0) ∷ instance_of 2 (key_of 1 7) ∷ zero_instance ∷ [];
}

-- The transitions of the second symbol.
abbrev pub call_transitions : Transitions
call_transitions = trans_of 1 0 2 1 0 ∷ trans_of 2 1 2 1 0 ∷ []

-- The variables of the states.
abbrev pub variables_of : ℕ → ℕ
variables_of zero = 0
variables_of (suc zero) = 0
variables_of (suc (suc n)) = 1

abbrev pub call_step : ℕ → Step
call_step v = record {
  ci = 0;
  autom = repeat_automaton 0x1000;
  max_clones = 1;
  symbol = 1;
  pattern = key_of 1 v;
  trans = call_transitions;
}

-- ===== src/Types.antt =====
-- The data of include/libtesla.h and libtesla/src/tesla_internal.h.
-- A `uint32_t` and a `uintptr_t` are numbers; text is the list of its bytes, without the NUL.
use tesla.Base.{Bool, List, Option, suc, zero, ℕ}

-- The error codes.
pub data Error : Type 0 where
  success : Error
  enoent : Error
  enomem : Error
  einval : Error
  unknown : Error

pub data Context : Type 0 where
  global : Context
  thread : Context

-- `tk_keys`, an array of `TESLA_KEY_SIZE` words.
pub record Words : Type 0 where
  pub w0 : ℕ
  pub w1 : ℕ
  pub w2 : ℕ
  pub w3 : ℕ

-- `tk_keys[i]`; the source reads and writes below `TESLA_KEY_SIZE` only.
unfoldable pub word : Words → ℕ → ℕ
word ws zero = ws.w0
word ws (suc zero) = ws.w1
word ws (suc (suc zero)) = ws.w2
word ws (suc (suc (suc zero))) = ws.w3
word ws _ = 0

unfoldable pub set_word : Words → ℕ → ℕ → Words
set_word ws zero v = record ws { w0 = v }
set_word ws (suc zero) v = record ws { w1 = v }
set_word ws (suc (suc zero)) v = record ws { w2 = v }
set_word ws (suc (suc (suc zero))) v = record ws { w3 = v }
set_word ws _ v = ws

abbrev pub key_size : ℕ
key_size = 4

pub record Key : Type 0 where
  pub keys : Words
  pub mask : ℕ
  pub freemask : ℕ

-- The bytes that `bzero` leaves.
abbrev pub zero_key : Key
zero_key = record { keys = record { w0 = 0; w1 = 0; w2 = 0; w3 = 0 }; mask = 0; freemask = 0 }

pub record Transition : Type 0 where
  pub from : ℕ
  pub from_mask : ℕ
  pub to : ℕ
  pub to_mask : ℕ
  pub flags : ℕ

abbrev pub trans_init : ℕ
trans_init = 0x02

abbrev pub trans_cleanup : ℕ
trans_cleanup = 0x04

-- `struct tesla_transitions`: its `length` is that of the list.
abbrev pub Transitions : Type 0
Transitions = List Transition

pub record LifetimeEvent : Type 0 where
  pub repr : List ℕ
  pub len : ℕ
  pub hash : ℕ

pub record Lifetime : Type 0 where
  pub begin_event : LifetimeEvent
  pub end_event : LifetimeEvent
  pub repr : List ℕ

-- `addr` is the address of the structure, by which the code tells automata apart.
pub record Automaton : Type 0 where
  pub addr : ℕ
  pub name : List ℕ
  pub alphabet_size : ℕ
  pub cleanup_symbol : ℕ
  pub transitions : List Transitions
  pub description : List ℕ
  pub symbol_names : List (List ℕ)
  pub lifetime : Lifetime

pub record Instance : Type 0 where
  pub key : Key
  pub state : ℕ

abbrev pub zero_instance : Instance
zero_instance = record { key = zero_key; state = 0 }

-- A null `tc_automaton` is `none`; a null `tc_instances` is the empty list, which no allocation
-- gives, since an array of instances has at least one.
pub record Class : Type 0 where
  pub automaton : Option Automaton
  pub context : Context
  pub limit : ℕ
  pub free : ℕ
  pub instances : List Instance

-- A pointer to a class is its index in `ts_classes`. Of `tls_dyn_classes` the list holds the first
-- `tls_dyn_count` slots.
pub record LifetimeState : Type 0 where
  pub begin_event : LifetimeEvent
  pub end_event : LifetimeEvent
  pub classes : List (Option ℕ)
  pub dyn_classes : List (Option ℕ)
  pub dyn_capacity : ℕ

-- `lifetimes` holds the first `ts_lifetime_count` slots of `ts_lifetimes`; the array itself has
-- `length` slots.
pub record Store : Type 0 where
  pub size : ℕ
  pub classes : List Class
  pub lifetimes : List LifetimeState

-- The messages of `ev_err`.
pub data Message : Type 0 where
  init_failed : Message
  no_init_transition : Message
  too_many_clones : Message
  clone_failed : Message
  union_failed : Message

-- Calls of the event handlers (ev_*). A class is its index in the store, an instance its index in
-- the class.
pub data Event : Type 0 where
  sunrise : Context → Lifetime → Event
  sunset : Context → Lifetime → Event
  new_instance : ℕ → ℕ → Event
  transition : ℕ → ℕ → Transition → Event
  clone : ℕ → ℕ → ℕ → Transition → Event
  no_instance : ℕ → ℕ → Key → Event
  bad_transition : ℕ → ℕ → ℕ → Event
  err : Automaton → ℕ → Error → Message → Event
  accept : ℕ → ℕ → Event
  ignored : ℕ → ℕ → Key → Event

-- What a call does to the world outside the store: events, and calls on the mutex of a class.
pub data Output : Type 0 where
  event : Event → Output
  mutex_init : ℕ → Output
  mutex_destroy : ℕ → Output
  mutex_lock : ℕ → Output
  mutex_unlock : ℕ → Output

-- What the code takes from its surroundings: whether an allocation of so many items succeeds,
-- whether that of so many lifetimes of a store does, and the flag `have_transitions` of libtesla/src/tesla_notification.c.
pub record Env : Type 0 where
  pub allocates : ℕ → Bool
  pub allocates_lifetimes : ℕ → Bool
  pub have_transitions : Bool

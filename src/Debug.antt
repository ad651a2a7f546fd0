-- ===== src/Debug.antt =====
-- libtesla/src/tesla_debug.c, in user space and with assertions: text for people. Text is the list
-- of its bytes; a buffer ends at an address, and each print goes on where the last one ended.
pub mod Buffer
use Prim.Native.Char.{code}
use Prim.Native.String.{String}
use tesla.Base.{
  Bool, List, Option, Run, [], assert, false, get_or, if◌then◌else◌, length, ltb, min, none, ok,
  some, suc, take, true, zero, ℕ, ◌%◌, ◌&&◌, ◌*◌, ◌++◌, ◌+◌, ◌-◌, ◌/◌, ◌==◌, ◌>>◌, ◌^◌, ◌∷◌,
}
use tesla.Action.{has_flag}
use tesla.Base.Bits.{bit}
use tesla.Lifetime.{strncmp_eq}
use tesla.Types.{Class, Key, Transition, Transitions, key_size, trans_cleanup, trans_init, word}

-- The bytes of a literal.
abbrev pub codes : String → List ℕ
codes String.[] = []
codes (String.◌∷◌ c s) = code c ∷ codes s

-- `SAFE_SPRINTF`'s view of a buffer: what stands before `current`, the text that stands at
-- `current`, and `end - current`.
pub record Cursor : Type 0 where
  pub written : List ℕ
  pub tail : List ℕ
  pub room : ℕ

-- The buffer of so many bytes.
abbrev pub open_buffer : ℕ → Cursor
open_buffer n = record { written = []; tail = []; room = n }

-- The string in the buffer.
abbrev pub shown : Cursor → List ℕ
shown c = c.written ++ c.tail

-- `SAFE_SPRINTF`: `snprintf` writes what fits in front of a NUL, and nothing into no room; the
-- pointer moves past a text that fits whole and is not empty.
pub safe_sprintf : List ℕ → Cursor → Cursor
safe_sprintf s c =
    if ltb 0 (length s) && ltb (length s) c.room
    then record { written = c.written ++ s; tail = []; room = c.room - length s }
    else record c { tail = elim (c.room == 0) [ true ↦ c.tail | false ↦ take (c.room - 1) s ] }

-- A digit of `%x`.
abbrev digit : ℕ → ℕ
digit d = if ltb d 10 then b'0' + d else b'a' + (d - 10)

-- The digits of a number below `base ^ fuel`, at least one.
in_base : ℕ → ℕ → ℕ → List ℕ
in_base base zero n = []
in_base base (suc fuel) n =
    let rest = in_base base fuel (n / base) in
    if ltb n base then digit n ∷ [] else rest ++ digit (n % base) ∷ []

-- `%tx`, of a word of 64 bits at most
pub hex : ℕ → List ℕ
hex n = in_base 16 16 n

-- `%d`, of a word of 32 bits, which it reads as signed
pub decimal : ℕ → List ℕ
decimal n = if ltb n (2 ^ 31) then in_base 10 10 n else b'-' ∷ in_base 10 10 (2 ^ 32 - n)

-- `sprint_transition`
pub sprint_transition : Transition → Cursor → Cursor
sprint_transition t c =
    let c₁ = safe_sprintf (codes "(" ++ (decimal t.from ++ codes ":")) c in
    let c₂ = safe_sprintf (codes "0x" ++ hex t.from_mask) c₁ in
    let c₃ = safe_sprintf (codes " -> " ++ (decimal t.to ++ codes ":")) c₂ in
    let c₄ = safe_sprintf (codes "0x" ++ hex t.to_mask) c₃ in
    let c₅ = if has_flag t.flags trans_init then safe_sprintf (codes " <init>") c₄ else c₄ in
    let c₆ = if has_flag t.flags trans_cleanup then safe_sprintf (codes " <clean>") c₅ else c₅ in
    safe_sprintf (codes ") ") c₆

-- The loop of `sprint_transitions`
pub sprint_each : Transitions → Cursor → Cursor
sprint_each [] c = c
sprint_each (t ∷ ts) c = sprint_each ts (sprint_transition t c)

-- `sprint_transitions`
pub sprint_transitions : Transitions → Cursor → Cursor
sprint_transitions ts c = safe_sprintf (codes "]") (sprint_each ts (safe_sprintf (codes "[ ") c))

-- The loop of `key_string`: the rounds left and the word.
pub key_words : ℕ → ℕ → Key → Cursor → Cursor
key_words zero i k c = c
key_words (suc n) i k c = key_words n (i + 1) k (
    if bit k.mask i
    then safe_sprintf (hex (word k.keys i) ++ codes " ") c
    else safe_sprintf (codes "X ") c)

-- `key_string`
pub key_string : Key → Cursor → Cursor
key_string k c =
    safe_sprintf (codes "]")
      (key_words key_size 0 k (safe_sprintf (codes "0x" ++ (hex k.mask ++ codes " [ ")) c))

-- `print_transition`, `print_transitions` and `print_key` when the debug name is on: the text
-- printed.
pub print_transition : Transition → List ℕ
print_transition t = shown (sprint_transition t (open_buffer 1024))

print_transitions : Transitions → List ℕ
print_transitions ts = shown (sprint_transitions ts (open_buffer 1024))

pub print_key : Key → Run (List ℕ)
print_key k = do
  let c = key_string k (open_buffer (15 * key_size + 10))
  assert (ltb 0 c.room)
  ok (shown c)

-- `tesla_debugging`: `matches` is `fnmatch` on a pattern and a name, `env` the value of
-- TESLA_DEBUG at the first call. A name shorter than the value, which agrees with it up to its
-- NUL, does not agree with it whole.
pub tesla_debugging : (List ℕ → List ℕ → Bool) → Option (List ℕ) → List ℕ → Bool
tesla_debugging matches none name = false
tesla_debugging matches (some []) name = false
tesla_debugging matches (some env) name =
    let n = min (length env) 100 in
    if strncmp_eq n env name && get_or name n 0 == b'.' then true else matches env name

-- The loop of `assert_instanceof`: the rounds left and the index.
belongs_from : ℕ → ℕ → ℕ → Bool
belongs_from zero i at = false
belongs_from (suc n) i at = if at == i then true else belongs_from n (i + 1) at

-- `assert_instanceof` on the index of an instance in the class's array.
assert_instanceof : Class → ℕ → Run (Unit {0})
assert_instanceof c at = assert (belongs_from c.limit 0 at)

-- What an evaluation has to unfold.
unfoldable pub debug_code : Unit {0}
unfolding safe_sprintf in_base hex decimal sprint_transition sprint_each sprint_transitions
    key_words key_string print_transition print_transitions print_key tesla_debugging belongs_from
    assert_instanceof
debug_code = tt

-- ===== src/Debug/Buffer.antt =====
-- The buffers that libtesla/src/tesla_debug.c prints into.
use tesla.Base.{
  Bool, Bool-cases, List, Returns, [], arith, false, if◌then◌else◌, inl, inr, length, length-append,
  length-take, ltb, suc, true, zero, ℕ, ◌&&◌, ◌*◌, ◌+◌, ◌-◌, ◌<◌, ◌==◌, ◌∷◌, ◌≡◌,
}
use tesla.Action.{has_flag}
use tesla.Base.Bits.{bit}
use tesla.Debug.{
  Cursor, key_string, key_words, open_buffer, print_key, safe_sprintf, shown, sprint_each,
  sprint_transition, sprint_transitions,
}
use tesla.Types.{Key, Transition, Transitions, key_size, trans_cleanup, trans_init}

-- What stands in a buffer of `n` bytes fits with its NUL, and the pointer is where the text before
-- it ends, short of the end of the buffer.
pub record Fits (n : ℕ) (c : Cursor) : Type 0 where
  pub inside : 0 < c.room
  pub at_end : length c.written + c.room ≡ n
  pub ends : length c.tail < c.room

open_buffer-Fits : (n : ℕ) → 0 < n → Fits n (open_buffer n)
open_buffer-Fits n h = record { inside = h; at_end = omega arith; ends = h }

safe_sprintf-Fits : (n : ℕ) (s : List ℕ) (c : Cursor) → Fits n c → Fits n (safe_sprintf s c)
unfolding safe_sprintf
safe_sprintf-Fits n s c h = elim (Bool-cases (ltb 0 (length s) && ltb (length s) c.room)) [
  | inl whole ↦
      let less : length s < c.room = ground arith in
      rw whole (record {
        inside = omega (arith, less);
        at_end = omega (arith, h.at_end, less, length-append c.written s);
        ends = omega (arith, less);
      })
  | inr cut ↦
      let some_room : c.room == 0 ≡ false = ground (arith, h.inside) in
      rw (cut, some_room)
        (record {
          inside = h.inside;
          at_end = h.at_end;
          ends = omega (arith, h.inside, length-take (c.room - 1) s);
        })
]

if-Fits : (n : ℕ) (b : Bool) (c d : Cursor) → Fits n c → Fits n d → Fits n (if b then c else d)
if-Fits n true c d p q = p
if-Fits n false c d p q = q

sprint_transition-Fits :
    (n : ℕ) (t : Transition) (c : Cursor) → Fits n c → Fits n (sprint_transition t c)
unfolding sprint_transition
sprint_transition-Fits n t c h =
    let h₄ =
      safe_sprintf-Fits n _ _
        (safe_sprintf-Fits n _ _ (safe_sprintf-Fits n _ _ (safe_sprintf-Fits n _ _ h))) in
    let h₅ = if-Fits n (has_flag t.flags trans_init) _ _ (safe_sprintf-Fits n _ _ h₄) h₄ in
    safe_sprintf-Fits n _ _
      (if-Fits n (has_flag t.flags trans_cleanup) _ _ (safe_sprintf-Fits n _ _ h₅) h₅)

sprint_each-Fits : (n : ℕ) (ts : Transitions) (c : Cursor) → Fits n c → Fits n (sprint_each ts c)
unfolding sprint_each
sprint_each-Fits n [] c h = h
sprint_each-Fits n (t ∷ ts) c h =
    sprint_each-Fits n ts (sprint_transition t c) (sprint_transition-Fits n t c h)

key_words-Fits :
    (n rounds i : ℕ) (k : Key) (c : Cursor) → Fits n c → Fits n (key_words rounds i k c)
unfolding key_words
key_words-Fits n zero i k c h = h
key_words-Fits n (suc rounds) i k c h =
    key_words-Fits n rounds (i + 1) k _
      (if-Fits n (bit k.mask i) _ _ (safe_sprintf-Fits n _ c h) (safe_sprintf-Fits n _ c h))

-- A list of transitions of any length, printed into a buffer of `n` bytes in which the text so far
-- fits, leaves a text that fits with its NUL.
pub sprint_transitions-Fits :
    (n : ℕ) (ts : Transitions) (c : Cursor) → Fits n c → Fits n (sprint_transitions ts c)
unfolding sprint_transitions
sprint_transitions-Fits n ts c h =
    safe_sprintf-Fits n _ _ (sprint_each-Fits n ts _ (safe_sprintf-Fits n _ c h))

key_string-Fits : (n : ℕ) (k : Key) (c : Cursor) → Fits n c → Fits n (key_string k c)
unfolding key_string
key_string-Fits n k c h =
    safe_sprintf-Fits n _ _ (key_words-Fits n key_size 0 k _ (safe_sprintf-Fits n _ c h))

-- `print_key` ends normally on every key, its assertion included, and prints fewer bytes than its
-- buffer has.
pub print_key-Returns : (k : Key) → Returns (print_key k) (λ text. length text < 15 * key_size + 10)
unfolding print_key
print_key-Returns k =
    let h = key_string-Fits _ k _ (open_buffer-Fits (15 * key_size + 10) (omega arith)) in
    let c = key_string k (open_buffer (15 * key_size + 10)) in
    let more : ltb 0 c.room ≡ true = ground (arith, h.inside) in
    (shown c, rw more, omega (arith, h.at_end, h.ends, length-append c.written c.tail))

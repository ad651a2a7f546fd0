-- ===== src/Key.antt =====
-- libtesla/src/tesla_key.h: keys that name automata instances.
pub mod Match
pub mod Union
use tesla.Base.{
  Bool, Option, bit_and, bit_or, false, if◌then◌else◌, none, not, some, suc, true, zero, ℕ, ◌+◌,
  ◌==◌, ◌^◌,
}
use tesla.Base.Bits.{subset}
use tesla.Types.{Error, Key, key_size, set_word, word}

-- The loop of `tesla_key_matches`, with the rounds left and the index.
words_match : ℕ → ℕ → Key → Key → Bool
words_match zero i pattern k = true
words_match (suc rounds) i pattern k =
    let rest = words_match rounds (i + 1) pattern k in
    if not (bit_and pattern.mask (2 ^ i) == 2 ^ i)
    then rest
    else if not (word pattern.keys i == word k.keys i)
    then false
    else rest

pub key_matches : Key → Key → Bool
key_matches pattern k =
    if not (subset (bit_or pattern.mask pattern.freemask) k.mask)
    then false
    else words_match key_size 0 pattern k

-- `IS_SET(mask, index)`
pub is_set : ℕ → ℕ → Bool
is_set mask index = not (bit_and mask (2 ^ index) == 0)

-- One round of `tesla_key_union`: the new destination, or `none` for the return of an error.
union_word : Key → Key → ℕ → Option Key
union_word dest source i =
    if is_set source.mask i
    then (if is_set dest.mask i
        then (if not (word dest.keys i == word source.keys i) then none else some dest)
        else some (record dest { keys = set_word dest.keys i (word source.keys i) }))
    else some dest

union_words : ℕ → ℕ → Key → Key → Error × Key
union_words zero i dest source =
    (Error.success, record dest { mask = bit_or dest.mask source.mask })
union_words (suc rounds) i dest source = elim (union_word dest source i) [
  | none ↦ (Error.einval, dest)
  | some d ↦ union_words rounds (i + 1) d source
]

-- The error code, and the destination as the call leaves it.
pub key_union : Key → Key → Error × Key
key_union dest source = union_words key_size 0 dest source

-- What an evaluation has to unfold.
unfoldable pub key_code : Unit {0}
unfolding words_match key_matches is_set union_word union_words key_union word set_word subset
key_code = tt

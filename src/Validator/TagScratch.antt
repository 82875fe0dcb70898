-- ===== src/Validator/TagScratch.antt =====
-- include/fix/core/Validator.hpp, `TagScratch`: one bit for each field of the message, in words of 64.
use fix_engine.Prelude.{
  ℕ, zero, suc, ◌+◌, ◌/◌, ◌%◌, Bool, true, false, ◌&&◌, List, [], ◌∷◌, ◌==◌, if◌then◌else◌,
}

-- A `uint64_t` by its bits: the bit 2 ^ i is at i, for i below 64.
abbrev pub Word : Type 0
Word = ℕ → Bool

abbrev pub zero_word : Word
zero_word _ = false

abbrev pub set_bit : Word → ℕ → Word
set_bit w k i = if i == k then true else w i

-- Are the first n bits of the word all set? With 64 of them it is `~uint64_t{0}`.
unfoldable pub all_set : ℕ → Word → Bool
all_set zero w = true
all_set (suc n) w = all_set n w && w n

abbrev pub TagScratch : Type 0
TagScratch = List Word

unfoldable pub resize : ℕ → TagScratch → TagScratch
resize zero ws = ws
resize (suc n) [] = zero_word ∷ resize n []
resize (suc n) (w ∷ ws) = w ∷ resize n ws

-- Words are added, none is taken away.
abbrev pub ensure_bits : ℕ → TagScratch → TagScratch
ensure_bits size ws = resize (size / 64 + 1) ws

unfoldable pub clear : TagScratch → TagScratch
clear [] = []
clear (w ∷ ws) = zero_word ∷ clear ws

unfoldable pub set_in : ℕ → ℕ → TagScratch → TagScratch
set_in k i [] = []
set_in zero i (w ∷ ws) = set_bit w i ∷ ws
set_in (suc k) i (w ∷ ws) = w ∷ set_in k i ws

abbrev pub set : ℕ → TagScratch → TagScratch
set index ws = set_in (index / 64) (index % 64) ws

-- The word at a position: 0 behind the end, where the source has none.
unfoldable pub word_at : ℕ → TagScratch → Word
word_at k [] = zero_word
word_at zero (w ∷ ws) = w
word_at (suc k) (w ∷ ws) = word_at k ws

abbrev pub get : ℕ → TagScratch → Bool
get index ws = word_at (index / 64) ws (index % 64)

-- The loop of `full` over the words that are used whole.
unfoldable pub full_words : ℕ → TagScratch → Bool
full_words zero ws = true
full_words (suc q) ws = full_words q ws && all_set 64 (word_at q ws)

-- Where r is 0 the mask is empty.
unfoldable pub full : ℕ → TagScratch → Bool
full size ws = full_words (size / 64) ws && all_set (size % 64) (word_at (size / 64) ws)

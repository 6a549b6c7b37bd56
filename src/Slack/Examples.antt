-- ===== src/Slack/Examples.antt =====
-- Concrete messages: "ab cd" under a small budget, and a text whose numbered chunks are too long.
use cyntr.Common.{ℕ, zero, suc, ◌≤◌, ◌⊎◌, ◌≡◌, refl, true, [], ◌∷◌, length, All, arith, any, ltb}
use cyntr.Slack.{rune_size, Bytes, split_text, chunk_message}
use cyntr.Slack.Chunks.{joined, joined-split_text, split_text-sizes}

abbrev text : Bytes
text = 97 ∷ 98 ∷ 32 ∷ 99 ∷ 100 ∷ []

joined-split_text_example : joined (split_text 5 3 text) ≡ text
joined-split_text_example = joined-split_text 5 3 text (omega arith)

-- The letter a and é, of two bytes.
abbrev accented : Bytes
accented = 97 ∷ 195 ∷ 169 ∷ []

split_text-sizes_example :
    All
      (λ c. (1 ≤ length c) × ((length c ≤ 1) ⊎ (length c ≡ rune_size c)))
      (split_text 3 1 accented)
split_text-sizes_example = split_text-sizes 3 1 accented

abbrev times : ℕ → ℕ → Bytes → Bytes
times zero b s = s
times (suc n) b s = b ∷ times n b s

-- Fourteen x, a space, thirteen y and a space.
abbrev pair_of_words : Bytes → Bytes
pair_of_words s = times 14 120 (32 ∷ times 13 121 (32 ∷ s))

-- Under 20 bytes a message, the room for "[6/6] " is kept free, but there are ten chunks, and a chunk
-- with "[1/10] " takes more than 20 bytes.
too_long :
    any
      (λ c. ltb 20 (length c))
      (chunk_message (pair_of_words (pair_of_words (pair_of_words (pair_of_words [])))) 20)
    ≡ true
unfolding chunk_message any
too_long = refl

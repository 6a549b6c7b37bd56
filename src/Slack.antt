-- ===== src/Slack.antt =====
-- modules/channel/slack/chunker.go: cutting a message into chunks. A text is its list of bytes; a
-- search that finds nothing is none.
mod Examples
pub mod Chunks
use cyntr.Common.{
  ℕ, zero, suc, ◌+◌, ◌-◌, ◌/◌, ◌%◌, Bool, true, false, not, ◌&&◌, ◌||◌, List, [], ◌∷◌, ◌++◌, Option,
  none, some, ltb, leb, ◌==◌, if◌then◌else◌, nat_eq, length, get_elem?, take, drop,
}

abbrev pub Bytes : Type 0
Bytes = List ℕ

unfoldable pub starts_with : Bytes → Bytes → Bool
starts_with [] s = true
starts_with (c ∷ sep) [] = false
starts_with (c ∷ sep) (b ∷ s) = if c == b then starts_with sep s else false

-- The loop of lastIndexBefore, from i down to 0.
unfoldable pub last_from : Bytes → Bytes → ℕ → Option ℕ
unfolding starts_with
last_from sep s zero = if starts_with sep s then some 0 else none
last_from sep s (suc i) =
    let rest = last_from sep s i in if starts_with sep (drop (suc i) s) then some (suc i) else rest

unfoldable pub last_index_before : Bytes → Bytes → ℕ → Option ℕ
unfolding last_from
last_index_before s sep max_pos =
    let sub = take max_pos s in
    if leb (length sep) (length sub) then last_from sep sub (length sub - length sep) else none

-- utf8.RuneStart, at an index that may be out of range
abbrev pub rune_start : ℕ → Bool
rune_start b = ltb b 0x80 || leb 0xc0 b

abbrev pub rune_start_at : Option ℕ → Bool
rune_start_at none = true
rune_start_at (some b) = rune_start b

unfoldable pub back_to_start : Bytes → ℕ → ℕ
back_to_start s zero = 0
back_to_start s (suc pos) =
    let rest = back_to_start s pos in
    if rune_start_at (get_elem? s (suc pos)) then suc pos else rest

unfoldable pub rune_boundary_at_or_before : Bytes → ℕ → ℕ
unfolding back_to_start
rune_boundary_at_or_before s pos = if leb (length s) pos then length s else back_to_start s pos

-- The size that utf8.DecodeRuneInString gives for a text that is not empty: 1 for a broken sequence.
abbrev pub between : ℕ → ℕ → ℕ → Bool
between lo hi b = leb lo b && leb b hi

abbrev pub second_ok : ℕ → ℕ → Bool
second_ok b0 b1 =
    if b0 == 0xe0
    then between 0xa0 0xbf b1
    else if b0 == 0xed
    then between 0x80 0x9f b1
    else if b0 == 0xf0
    then between 0x90 0xbf b1
    else if b0 == 0xf4
    then between 0x80 0x8f b1
    else between 0x80 0xbf b1

abbrev pub is_cont : ℕ → Bool
is_cont b = between 0x80 0xbf b

unfoldable pub rune_size : Bytes → ℕ
rune_size (b0 ∷ b1 ∷ b2 ∷ b3 ∷ s) =
    if between 0xc2 0xdf b0 && second_ok b0 b1
    then 2
    else if between 0xe0 0xef b0 && second_ok b0 b1 && is_cont b2
    then 3
    else if between 0xf0 0xf4 b0 && second_ok b0 b1 && is_cont b2 && is_cont b3
    then 4
    else 1
rune_size (b0 ∷ b1 ∷ b2 ∷ []) =
    if between 0xc2 0xdf b0 && second_ok b0 b1
    then 2
    else if between 0xe0 0xef b0 && second_ok b0 b1 && is_cont b2
    then 3
    else 1
rune_size (b0 ∷ b1 ∷ []) = if between 0xc2 0xdf b0 && second_ok b0 b1 then 2 else 1
rune_size _ = 1

-- The cut after a separator, if it is found past the start.
abbrev pub cut_after : ℕ → Option ℕ → ℕ → ℕ
cut_after n none otherwise = otherwise
cut_after n (some i) otherwise = if ltb 0 i then i + n else otherwise

unfoldable pub best_cut : Bytes → ℕ → ℕ
unfolding last_index_before
best_cut s budget = cut_after 2 (last_index_before s (10 ∷ 10 ∷ []) budget) (
    cut_after 1 (last_index_before s (10 ∷ []) budget)
      (cut_after 1 (last_index_before s (32 ∷ []) budget) budget))

unfoldable pub cut : Bytes → ℕ → ℕ
unfolding best_cut rune_boundary_at_or_before rune_size
cut s budget =
    let at = rune_boundary_at_or_before s (best_cut s budget) in
    if ltb 0 at then at else rune_size s

-- The loop of chunkMessage, on fuel: the length of the text is enough, since each chunk takes a byte.
unfoldable pub split_text : ℕ → ℕ → Bytes → List Bytes
unfolding cut
split_text zero budget s = []
split_text (suc fuel) budget [] = []
split_text (suc fuel) budget (b ∷ s) =
    let rest = split_text fuel budget (drop (cut (b ∷ s) budget) (b ∷ s)) in
    if leb (length (b ∷ s)) budget then (b ∷ s) ∷ [] else take (cut (b ∷ s) budget) (b ∷ s) ∷ rest

-- strconv of a number, on fuel: a number has fewer digits than itself and one more.
unfoldable pub digits_of : ℕ → ℕ → Bytes → Bytes
digits_of zero n out = out
digits_of (suc fuel) n out =
    let rest = digits_of fuel (n / 10) ((48 + n % 10) ∷ out) in
    if ltb n 10 then (48 + n) ∷ out else rest

abbrev pub decimal : ℕ → Bytes
decimal n = digits_of (n + 1) n []

-- "[%d/%d] "
unfoldable pub prefix : ℕ → ℕ → Bytes
unfolding digits_of
prefix i total = (91 ∷ decimal i) ++ (47 ∷ decimal total) ++ (93 ∷ 32 ∷ [])

unfoldable pub number_chunks : ℕ → ℕ → List Bytes → List Bytes
unfolding prefix
number_chunks i total [] = []
number_chunks i total (c ∷ cs) = (prefix i total ++ c) ∷ number_chunks (i + 1) total cs

abbrev pub with_prefixes : List Bytes → List Bytes
with_prefixes cs = if ltb 1 (length cs) then number_chunks 1 (length cs) cs else cs

unfoldable pub budget_of : Bytes → ℕ → ℕ
unfolding prefix
budget_of text max_len =
    let upper_bound = length text / max_len + 1 in
    let budget = max_len - length (prefix upper_bound upper_bound) in
    if ltb budget 1 then 1 else budget

unfoldable pub chunk_message : Bytes → ℕ → List Bytes
unfolding split_text number_chunks budget_of
chunk_message text max_len =
    if leb (length text) max_len
    then text ∷ []
    else with_prefixes (split_text (length text) (budget_of text max_len) text)

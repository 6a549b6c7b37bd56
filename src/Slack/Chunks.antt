-- ===== src/Slack/Chunks.antt =====
-- modules/channel/slack/chunker.go: what the chunks of a message hold.
use cyntr.Common.{
  sym, ltb→lt, leb→le, ℕ, zero, suc, ◌+◌, ◌-◌, ◌≤◌, ◌≡◌, refl, ap, ◌∙◌, List, [], ◌∷◌, ◌++◌, Option,
  none, some, ltb, leb, length, take, drop, arith, All, Bool-cases, inl, inr,
}
use cyntr.Slack.{
  between, second_ok, is_cont, Bytes, last_from, last_index_before, back_to_start,
  rune_boundary_at_or_before, rune_size, cut_after, best_cut, cut, split_text,
}
use cyntr.Common.{◌⊎◌}
use cyntr.Common.{◌&&◌}

unfoldable pub joined : List Bytes → Bytes
joined [] = []
joined (c ∷ cs) = c ++ joined cs

append_nil : (s : Bytes) → s ++ [] ≡ s
append_nil [] = refl
append_nil (b ∷ s) = ap (λ t. b ∷ t) (append_nil s)

take-drop : (n : ℕ) (s : Bytes) → take n s ++ drop n s ≡ s
take-drop zero s = refl
take-drop (suc n) [] = refl
take-drop (suc n) (b ∷ s) = ap (λ t. b ∷ t) (take-drop n s)

length-take : (n : ℕ) (s : Bytes) → length (take n s) ≤ n
length-take zero s = omega arith
length-take (suc n) [] = omega arith
length-take (suc n) (b ∷ s) = omega (arith, length-take n s)

length-drop : (n : ℕ) (s : Bytes) → length (drop n s) ≡ length s - n
length-drop zero s = omega arith
length-drop (suc n) [] = omega arith
length-drop (suc n) (b ∷ s) = omega (arith, length-drop n s)

rune_size-range : (s : Bytes) → (1 ≤ rune_size s) × (rune_size s ≤ 4)
unfolding rune_size
rune_size-range (b0 ∷ b1 ∷ b2 ∷ b3 ∷ s) = (ground arith, ground arith)
rune_size-range (b0 ∷ b1 ∷ b2 ∷ []) = (ground arith, ground arith)
rune_size-range (b0 ∷ b1 ∷ []) = (ground arith, ground arith)
rune_size-range (b0 ∷ []) = (omega arith, omega arith)
rune_size-range [] = (omega arith, omega arith)

last_from-le : (sep s : Bytes) (i j : ℕ) → last_from sep s i ≡ some j → j ≤ i
unfolding last_from
last_from-le sep s zero j e = ground arith
last_from-le sep s (suc i) j e = ground (arith, last_from-le sep s i j)

last_index_before-le :
    (s sep : Bytes) (n j : ℕ) → last_index_before s sep n ≡ some j → j + length sep ≤ n
unfolding last_index_before
last_index_before-le s sep n j e =
    ground (arith, last_from-le sep (take n s) (length (take n s) - length sep) j, length-take n s)

cut_after-le :
    (n m budget : ℕ) (o : Option ℕ)
    → ((j : ℕ) → o ≡ some j → j + n ≤ budget)
    → m ≤ budget
    → cut_after n o m ≤ budget
cut_after-le n m budget none h k = k
cut_after-le n m budget (some j) h k = ground (arith, h j refl)

best_cut-le : (s : Bytes) (budget : ℕ) → best_cut s budget ≤ budget
unfolding best_cut
best_cut-le s budget =
    cut_after-le 2 _ budget (last_index_before s (10 ∷ 10 ∷ []) budget)
      (last_index_before-le s (10 ∷ 10 ∷ []) budget)
      (cut_after-le 1 _ budget (last_index_before s (10 ∷ []) budget)
        (last_index_before-le s (10 ∷ []) budget)
        (cut_after-le 1 budget budget (last_index_before s (32 ∷ []) budget)
          (last_index_before-le s (32 ∷ []) budget) (omega arith)))

back_to_start-le : (s : Bytes) (pos : ℕ) → back_to_start s pos ≤ pos
unfolding back_to_start
back_to_start-le s zero = omega arith
back_to_start-le s (suc pos) = ground (arith, back_to_start-le s pos)

boundary-le : (s : Bytes) (pos : ℕ) → rune_boundary_at_or_before s pos ≤ pos
unfolding rune_boundary_at_or_before
boundary-le s pos = ground (arith, back_to_start-le s pos)

-- The first character, taken off, is a character of that size.
rune_size-take :
    (b : ℕ) (s : Bytes)
    → (length (take (rune_size (b ∷ s)) (b ∷ s)) ≡ rune_size (b ∷ s))
      × (rune_size (take (rune_size (b ∷ s)) (b ∷ s)) ≡ rune_size (b ∷ s))
unfolding rune_size
rune_size-take b0 (b1 ∷ b2 ∷ b3 ∷ s) = elim (Bool-cases (between 0xc2 0xdf b0 && second_ok b0 b1)) [
  | inl y ↦ rw y (refl, rw y refl)
  | inr n ↦ elim (Bool-cases (between 0xe0 0xef b0 && second_ok b0 b1 && is_cont b2)) [
    | inl y ↦ rw (n, y) (refl, rw (n, y) refl)
    | inr m ↦
        elim (Bool-cases (between 0xf0 0xf4 b0 && second_ok b0 b1 && is_cont b2 && is_cont b3)) [
          | inl y ↦ rw (n, m, y) (refl, rw (n, m, y) refl)
          | inr k ↦ rw (n, m, k) (refl, refl)
        ]
  ]
]
rune_size-take b0 (b1 ∷ b2 ∷ []) = elim (Bool-cases (between 0xc2 0xdf b0 && second_ok b0 b1)) [
  | inl y ↦ rw y (refl, rw y refl)
  | inr n ↦ elim (Bool-cases (between 0xe0 0xef b0 && second_ok b0 b1 && is_cont b2)) [
    | inl y ↦ rw (n, y) (refl, rw (n, y) refl)
    | inr m ↦ rw (n, m) (refl, refl)
  ]
]
rune_size-take b0 (b1 ∷ []) = elim (Bool-cases (between 0xc2 0xdf b0 && second_ok b0 b1)) [
  | inl y ↦ rw y (refl, rw y refl)
  | inr n ↦ rw n (refl, refl)
]
rune_size-take b0 [] = (refl, refl)

cut-pos : (s : Bytes) (budget : ℕ) → 1 ≤ cut s budget
unfolding cut
cut-pos s budget = elim (Bool-cases (ltb 0 (rune_boundary_at_or_before s (best_cut s budget)))) [
  | inl y ↦ rw y (ltb→lt 0 _ y)
  | inr n ↦ rw n (rune_size-range s).0
]

cut-Fits :
    (b : ℕ) (s : Bytes) (budget : ℕ)
    → (length (take (cut (b ∷ s) budget) (b ∷ s)) ≤ budget)
      ⊎ (length (take (cut (b ∷ s) budget) (b ∷ s)) ≡ rune_size (take (cut (b ∷ s) budget) (b ∷ s)))
unfolding cut
cut-Fits b s budget =
    let at = rune_boundary_at_or_before (b ∷ s) (best_cut (b ∷ s) budget) in
    elim (Bool-cases (ltb 0 at)) [
      | inl y ↦ rw y (
          inl (
            omega (
              arith,
              length-take at (b ∷ s),
              boundary-le (b ∷ s) (best_cut (b ∷ s) budget),
              best_cut-le (b ∷ s) budget,
            )))
      | inr n ↦ rw n (inr ((rune_size-take b s).0 ∙ sym (rune_size-take b s).1))
    ]

length-take_pos : (n : ℕ) (b : ℕ) (s : Bytes) → 1 ≤ n → 1 ≤ length (take n (b ∷ s))
length-take_pos zero b s h = absurd (omega arith)
length-take_pos (suc n) b s h = omega arith

-- Whatever the bytes and the budget, with fuel for the length of the text, the chunks put together
-- again are the text: nothing is lost, repeated or moved, and the loop ends.
pub joined-split_text :
    (fuel budget : ℕ) (s : Bytes) → length s ≤ fuel → joined (split_text fuel budget s) ≡ s
unfolding split_text joined
joined-split_text zero budget [] h = refl
joined-split_text zero budget (b ∷ s) h = absurd (omega (arith, h))
joined-split_text (suc fuel) budget [] h = refl
joined-split_text (suc fuel) budget (b ∷ s) h = elim (Bool-cases (leb (length (b ∷ s)) budget)) [
  | inl y ↦ rw y (append_nil (b ∷ s))
  | inr n ↦
      let c = cut (b ∷ s) budget in
      rw n (
        ap (λ r. take c (b ∷ s) ++ r)
          (joined-split_text fuel budget (drop c (b ∷ s))
            (omega (arith, h, length-drop c (b ∷ s), cut-pos (b ∷ s) budget)))
        ∙ take-drop c (b ∷ s))
]

-- Each chunk holds at least one byte, and it is within the budget or is a single character: its length is
-- the size of the character that it starts with.
pub split_text-sizes :
    (fuel budget : ℕ) (s : Bytes)
    → All
        (λ c. (1 ≤ length c) × ((length c ≤ budget) ⊎ (length c ≡ rune_size c)))
        (split_text fuel budget s)
unfolding split_text
split_text-sizes zero budget s = tt
split_text-sizes (suc fuel) budget [] = tt
split_text-sizes (suc fuel) budget (b ∷ s) = elim (Bool-cases (leb (length (b ∷ s)) budget)) [
  | inl y ↦ rw y ((omega arith, inl (leb→le (length (b ∷ s)) budget y)), tt)
  | inr n ↦ rw n (
    (length-take_pos (cut (b ∷ s) budget) b s (cut-pos (b ∷ s) budget), cut-Fits b s budget),
    split_text-sizes fuel budget (drop (cut (b ∷ s) budget) (b ∷ s)),
  )
]

-- ===== src/Channel/Code.antt =====
-- modules/channel/pairing.go: pairingCode. The bytes that crypto/rand yields are a list; it ends
-- where a read fails, and then the code is an error.
use mathlib.Core.Option.{some-injective}
use cyntr.Common.{
  In, length-append, All-append, inl, inr, sym, subst, ℕ, zero, suc, ◌+◌, ◌-◌, ◌%◌, ◌<◌, ◌≡◌, refl,
  Bool, false, ltb, List, [], ◌∷◌, Option, none, some, length, get_elem?, if◌then◌else◌, All,
  select, arith, nat_beq,
}
use cyntr.Common.{◌++◌}
use cyntr.Common.{Bool-cases}

abbrev pub alphabet : List ℕ
alphabet =
    65 ∷ 66 ∷ 67 ∷ 68 ∷ 69 ∷ 70 ∷ 71 ∷ 72 ∷ 74 ∷ 75 ∷ 77 ∷ 78 ∷ 80 ∷ 81 ∷ 82 ∷ 83 ∷ 84 ∷ 85 ∷ 86
    ∷ 87 ∷ 88 ∷ 89 ∷ 90 ∷ 50 ∷ 51 ∷ 52 ∷ 53 ∷ 54 ∷ 55 ∷ 56 ∷ 57 ∷ []

-- 256 % len(alphabet), taken from 256.
abbrev pub limit : ℕ
limit = 256 - 256 % length alphabet

abbrev pub push : Option ℕ → List ℕ → List ℕ
push none b = b
push (some c) b = b ++ (c ∷ [])

-- The loop: `left` is how many characters are still to be written.
unfoldable pub draw : ℕ → List ℕ → List ℕ → Option (List ℕ)
draw zero bytes b = some b
draw (suc left) [] b = none
draw (suc left) (x ∷ bytes) b =
    let rejected = draw (suc left) bytes b in
    let written = draw left bytes (push (get_elem? alphabet (x % length alphabet)) b) in
    if ltb x limit then written else rejected

unfoldable pub pairing_code : List ℕ → Option (List ℕ)
unfolding draw
pairing_code bytes = draw 6 bytes []

abbrev pub bytes_below : ℕ → List ℕ
bytes_below zero = []
bytes_below (suc n) = n ∷ bytes_below n

abbrev pub is_letter : ℕ → Option (List ℕ) → Bool
is_letter c (some (d ∷ [])) = nat_beq c d
is_letter c _ = false

-- Every character of the alphabet is the one drawn for exactly eight of the 256 byte values, so a
-- uniform byte gives a uniform character.
pub draw-uniform :
    All
      (λ c. length (select (λ x. is_letter c (draw 1 (x ∷ []) [])) (bytes_below 256)) ≡ 8)
      alphabet
unfolding select draw
draw-uniform = (
  refl,
  (
    refl,
    (
      refl,
      (
        refl,
        (
          refl,
          (
            refl,
            (
              refl,
              (
                refl,
                (
                  refl,
                  (
                    refl,
                    (
                      refl,
                      (
                        refl,
                        (
                          refl,
                          (
                            refl,
                            (
                              refl,
                              (
                                refl,
                                (
                                  refl,
                                  (
                                    refl,
                                    (
                                      refl,
                                      (
                                        refl,
                                        (
                                          refl,
                                          (
                                            refl,
                                            (
                                              refl,
                                              (
                                                refl,
                                                (
                                                  refl,
                                                  (
                                                    refl,
                                                    (refl, (refl, (refl, (refl, (refl, tt))))),
                                                  ),
                                                ),
                                              ),
                                            ),
                                          ),
                                        ),
                                      ),
                                    ),
                                  ),
                                ),
                              ),
                            ),
                          ),
                        ),
                      ),
                    ),
                  ),
                ),
              ),
            ),
          ),
        ),
      ),
    ),
  ),
)

element-In : (cs : List ℕ) (i : ℕ) → i < length cs → (c : ℕ) × ((get_elem? cs i ≡ some c) × In c cs)
element-In [] i h = absurd (omega arith)
element-In (c ∷ cs) zero h = (c, (refl, inl refl))
element-In (c ∷ cs) (suc i) h = let r = element-In cs i (omega arith) in (r.0, (r.1.0, inr r.1.1))

push-letters :
    (x : ℕ) (b : List ℕ)
    → All (λ c. In c alphabet) b
    → (length (push (get_elem? alphabet (x % 31)) b) ≡ suc (length b))
      × All (λ c. In c alphabet) (push (get_elem? alphabet (x % 31)) b)
push-letters x b a =
    let r = element-In alphabet (x % 31) (omega arith) in
    rw r.1.0 (
      rw (length-append b (r.0 ∷ []))
        (omega arith, All-append (λ c. In c alphabet) b (r.0 ∷ []) a (r.1.1, tt)))

draw-letters :
    (left : ℕ) (bytes b code : List ℕ)
    → All (λ c. In c alphabet) b
    → draw left bytes b ≡ some code
    → (length code ≡ length b + left) × All (λ c. In c alphabet) code
unfolding draw
draw-letters zero bytes b code a e =
    let k = some-injective _ _ e in (rw (sym k) (omega arith), subst (All (λ c. In c alphabet)) k a)
draw-letters (suc left) [] b code a e = absurd cc
draw-letters (suc left) (x ∷ bytes) b code a e = elim (Bool-cases (ltb x limit)) [
  | inl y ↦
      let r =
        draw-letters left bytes (push (get_elem? alphabet (x % 31)) b) code (push-letters x b a).1
          (rw y at e) in
      (omega (arith, r.0, (push-letters x b a).0), r.1)
  | inr n ↦ draw-letters (suc left) bytes b code a (rw n at e)
]

-- A code has six characters, each of the alphabet.
pub pairing_code-letters :
    (bytes code : List ℕ)
    → pairing_code bytes ≡ some code
    → (length code ≡ 6) × All (λ c. In c alphabet) code
unfolding pairing_code
pairing_code-letters bytes code e = draw-letters 6 bytes [] code tt e

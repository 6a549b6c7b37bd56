-- ===== src/Workflow/Text/Endless.antt =====
-- When substituteVar does not end.
use text.Mathlib.TextLemmas.{nil-append, cons-append}
use Prim.Native.Char.{Char, code}
use cyntr.Common.{
  ℕ, zero, suc, String, ◌<>◌, ◌≡◌, refl, sym, ap, ◌∙◌, subst, Option, none, some, nat_beq, inl, inr,
  Bool-cases, Option-cases,
}
use cyntr.Common.Text.{after_prefix, cut_at, prepend}
use cyntr.Workflow.Text.{substitute_var}

after_prefix-append :
    (p s b rest : String)
    → after_prefix p s ≡ some rest
    → after_prefix p (s <> b) ≡ some (rest <> b)
unfolding after_prefix
after_prefix-append String.[] s b rest h = cc h
after_prefix-append (String.◌∷◌ p ps) String.[] b rest h = absurd (cc h)
after_prefix-append (String.◌∷◌ p ps) (String.◌∷◌ c s) b rest h =
    elim (Bool-cases (nat_beq (code p) (code c))) [
      | inl y ↦
          ap (after_prefix (String.◌∷◌ p ps)) (cons-append c s b)
          ∙ rw y (after_prefix-append ps s b rest (rw y at h))
      | inr n ↦ absurd (cc (rw n at h))
    ]

-- The text is found somewhere.
abbrev pub Occurs : String → String → Type 0
Occurs old s = (cut : String × String) × (cut_at old s ≡ some cut)

-- It is found in `s` if a prefix of `s` fits, or if it is found behind the first character.
Occurs-head :
    (old : String) (c : Char) (s rest : String)
    → after_prefix old (String.◌∷◌ c s) ≡ some rest
    → Occurs old (String.◌∷◌ c s)
unfolding cut_at
Occurs-head old c s rest h = ((String.[], rest), rw (h, cut_at) refl)

Occurs-tail : (old : String) (c : Char) (s : String) → Occurs old s → Occurs old (String.◌∷◌ c s)
unfolding cut_at
Occurs-tail old c s (cut, h) = elim (Option-cases (after_prefix old (String.◌∷◌ c s))) [
  | inl n ↦ ((String.◌∷◌ c cut.0, cut.1), rw (n, cut_at, h) refl)
  | inr (rest, e) ↦ ((String.[], rest), rw (e, cut_at) refl)
]

Occurs-append_left : (old a s : String) → Occurs old s → Occurs old (a <> s)
Occurs-append_left old String.[] s h = subst (Occurs old) (sym (nil-append s)) h
Occurs-append_left old (String.◌∷◌ c a) s h =
    subst (Occurs old) (sym (cons-append c a s))
      (Occurs-tail old c (a <> s) (Occurs-append_left old a s h))

Occurs-empty : (old b rest : String) → after_prefix old b ≡ some rest → Occurs old b
unfolding cut_at
Occurs-empty old String.[] rest h = ((String.[], rest), rw (h, cut_at) refl)
Occurs-empty old (String.◌∷◌ c b) rest h = Occurs-head old c b rest h

prepend-some :
    (c : Char) (o : Option (String × String)) (cut : String × String)
    → prepend c o ≡ some cut
    → (k : String × String) × (o ≡ some k)
prepend-some c none cut h = absurd (cc h)
prepend-some c (some k) cut h = (k, refl)

Occurs-append_right : (old s b : String) → Occurs old s → Occurs old (s <> b)
unfolding cut_at
Occurs-append_right old String.[] b (cut, h) = elim (Option-cases (after_prefix old "")) [
  | inl n ↦ absurd (cc (rw (n, cut_at) at h))
  | inr (rest, e) ↦ Occurs-empty old ("" <> b) (rest <> b) (after_prefix-append old "" b rest e)
]
Occurs-append_right old (String.◌∷◌ c s) b (cut, h) =
    elim (Option-cases (after_prefix old (String.◌∷◌ c s))) [
      | inl n ↦
          let (k, e) = prepend-some c (cut_at old s) cut (rw (n, cut_at) at h) in
          subst (Occurs old) (sym (cons-append c s b))
            (Occurs-tail old c (s <> b) (Occurs-append_right old s b (k, e)))
      | inr (rest, e) ↦
          Occurs-empty old (String.◌∷◌ c s <> b) (rest <> b)
            (after_prefix-append old (String.◌∷◌ c s) b rest e)
    ]

-- If the placeholder occurs in the message and also in the text that is put in its place, the loop of
-- substituteVar never ends, whatever the fuel.
pub substitute_var-endless :
    (fuel : ℕ) (s old new : String)
    → Occurs old s
    → Occurs old new
    → substitute_var fuel s old new ≡ none
unfolding substitute_var
substitute_var-endless zero s old new h k = refl
substitute_var-endless (suc fuel) s old new (cut, e) k =
    rw (e, substitute_var)
      (substitute_var-endless fuel (cut.0 <> (new <> cut.1)) old new
        (Occurs-append_left old cut.0 (new <> cut.1) (Occurs-append_right old new cut.1 k)) k)

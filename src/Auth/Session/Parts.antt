-- ===== src/Auth/Session/Parts.antt =====
-- The parts of a token, and base64 without its padding: splitting and joining, trimming and padding.
use Prim.Native.Char.{Char, code}
use Prim.Native.String.{count}
use text.Mathlib.TextEquality.{Char-path}
use text.Mathlib.TextLemmas.{cons-append, nil-append, append-nil}
use cyntr.Common.{
  ◌%◌, String, ◌<>◌, ◌≡◌, refl, sym, ap, ◌∙◌, ◌⊎◌, inl, inr, List, [], ◌∷◌, some, true, false,
  nat_eq, nat_beq, nat_beq_iff, Bool-cases,
}
use cyntr.Auth.Session.{
  Crypto, cons_unless_pad, trim_pad, split_at, split_dots, base64url, base64url_decode,
}

-- strings.Join(parts, ".")
unfoldable pub join_dots : String → List String → String
join_dots part [] = part
join_dots part (next ∷ parts) = part <> ("." <> join_dots next parts)

abbrev dot : Char
dot = "."

dot-append : (s : String) → "." <> s ≡ String.◌∷◌ dot s
dot-append s = cons-append dot String.[] s ∙ ap (String.◌∷◌ dot) (nil-append s)

dot_cons : (c : Char) (s : String) → nat_beq (code c) b'.' ≡ true → "." <> s ≡ String.◌∷◌ c s
dot_cons c s h =
    dot-append s
    ∙ ap (λ d. String.◌∷◌ d s) (Char-path dot c (sym ((nat_beq_iff (code c) b'.').0 h)))

join_cons :
    (c : Char) (part : String) (parts : List String)
    → join_dots (String.◌∷◌ c part) parts ≡ String.◌∷◌ c (join_dots part parts)
unfolding join_dots
join_cons c part [] = refl
join_cons c part (next ∷ parts) = cons-append c part ("." <> join_dots next parts)

join-split_at :
    (c : Char) (p : String × List String)
    → join_dots (split_at c p).0 (split_at c p).1 ≡ String.◌∷◌ c (join_dots p.0 p.1)
unfolding join_dots
join-split_at c (part, parts) = elim (Bool-cases (nat_beq (code c) b'.')) [
  | inl y ↦ rw y (nil-append _ ∙ dot_cons c (join_dots part parts) y)
  | inr n ↦ rw n (join_cons c part parts)
]

pub join_dots-split_dots : (s : String) → join_dots (split_dots s).0 (split_dots s).1 ≡ s
unfolding split_dots join_dots
join_dots-split_dots String.[] = refl
join_dots-split_dots (String.◌∷◌ c s) =
    join-split_at c (split_dots s) ∙ ap (String.◌∷◌ c) (join_dots-split_dots s)

abbrev pub NoDot : String → Type 0
NoDot String.[] = Unit
NoDot (String.◌∷◌ c s) = (nat_beq (code c) b'.' ≡ false) × NoDot s

abbrev pub NoPad : String → Type 0
NoPad String.[] = Unit
NoPad (String.◌∷◌ c s) = (nat_beq (code c) b'=' ≡ false) × NoPad s

pub split_dots-join :
    (a s : String)
    → NoDot a
    → split_dots (a <> ("." <> s)) ≡ (a, (split_dots s).0 ∷ (split_dots s).1)
unfolding split_dots
split_dots-join String.[] s h = ap split_dots (nil-append ("." <> s) ∙ dot-append s)
split_dots-join (String.◌∷◌ c a) s h =
    ap split_dots (cons-append c a ("." <> s))
    ∙ ap (split_at c) (split_dots-join a s h.1)
    ∙ rw h.0 refl

pub split_dots-NoDot : (a : String) → NoDot a → split_dots a ≡ (a, [])
unfolding split_dots
split_dots-NoDot String.[] h = refl
split_dots-NoDot (String.◌∷◌ c a) h = ap (split_at c) (split_dots-NoDot a h.1) ∙ rw h.0 refl

cons_unless_pad-keeps :
    (c : Char) (s : String) → nat_beq (code c) b'=' ≡ false → cons_unless_pad c s ≡ String.◌∷◌ c s
cons_unless_pad-keeps c String.[] h = rw h refl
cons_unless_pad-keeps c (String.◌∷◌ d s) h = refl

pub trim_pad-append :
    (body pad : String) → NoPad body → trim_pad pad ≡ "" → trim_pad (body <> pad) ≡ body
unfolding trim_pad
trim_pad-append String.[] pad h e = ap trim_pad (nil-append pad) ∙ e
trim_pad-append (String.◌∷◌ c body) pad h e =
    ap trim_pad (cons-append c body pad)
    ∙ ap (cons_unless_pad c) (trim_pad-append body pad h.1 e)
    ∙ cons_unless_pad-keeps c body h.0

-- The text and the padding that the encoding adds to make the length a multiple of four.
pub record Encoded (c : Crypto) (text : String) : Type 0 where
  pub body : String
  pub pad : String
  pub whole : c.encode text ≡ body <> pad
  pub no_dot : NoDot body
  pub no_pad : NoPad body
  pub padded :
      ((pad ≡ "") × (count body % 4 ≡ 0))
      ⊎ ((pad ≡ "=") × (count body % 4 ≡ 3))
      ⊎ ((pad ≡ "==") × (count body % 4 ≡ 2))
  pub decodes : c.decode (body <> pad) ≡ some text

module _ (c : Crypto) (text : String) (e : Encoded c text) where
  pub base64url-body : base64url c text ≡ e.body
  unfolding base64url
  base64url-body =
      ap trim_pad e.whole
      ∙ trim_pad-append e.body e.pad e.no_pad (elim e.padded [
        | inl (p, k) ↦ rw p refl
        | inr (inl (p, k)) ↦ rw p refl
        | inr (inr (p, k)) ↦ rw p refl
      ])

  pub base64url_decode-body : base64url_decode c e.body ≡ some text
  unfolding base64url_decode
  base64url_decode-body = elim e.padded [
    | inl (p, k) ↦
        rw (k, base64url_decode)
          (ap c.decode (sym (append-nil e.body) ∙ ap (λ (q : String). e.body <> q) (sym p))
            ∙ e.decodes)
    | inr (inl (p, k)) ↦
        rw (k, base64url_decode) (ap (λ (q : String). c.decode (e.body <> q)) (sym p) ∙ e.decodes)
    | inr (inr (p, k)) ↦
        rw (k, base64url_decode) (ap (λ (q : String). c.decode (e.body <> q)) (sym p) ∙ e.decodes)
  ]

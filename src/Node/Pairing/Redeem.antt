-- ===== src/Node/Pairing/Redeem.antt =====
-- modules/node/pairing.go: what a pairing code gives, and that it gives it once.
use mathlib.Core.Option.{some-injective}
use Prim.Native.Char.{Char}
use mathlib.Core.Bool.{false≢true}
use cyntr.Common.{
  ℕ, String, ◌≡◌, refl, Bool, true, false, List, [], ◌∷◌, ◌++◌, Option, none, some, ◌==◌, string_eq,
  select, arith, Bool-cases, str_iff, inl, inr, In, All, ap, not,
}
use cyntr.Common.Text.{trim_space}
use cyntr.Node.Protocol.{all_capabilities}
use cyntr.Node.Pairing.{
  NodeStore, Waiting, Pairing, Answers, find_pending, redeem, redeem_found, issue_code, split_caps,
  join_caps, split_comma, keep_trimmed, or_all,
}

find_pending-select :
    (code : String) (ws : List Waiting)
    → find_pending code (select (λ v. not (v.code == code)) ws) ≡ none
unfolding find_pending select
find_pending-select code [] = refl
find_pending-select code (w ∷ ws) = ground (arith, find_pending-select code ws)

-- A code that has paired a node, its row deleted, never pairs again.
pub redeem-redeem :
    (db db' : Answers) (now later : ℕ) (code : String) (store : NodeStore) (p : Pairing)
    → db.deletes ≡ true
    → (redeem db now code store).1 ≡ some p
    → (redeem db' later code (redeem db now code store).0).1 ≡ none
unfolding redeem
redeem-redeem db db' now later code store p d e =
    ground (arith, find_pending-select (trim_space code) store.pending)

abbrev pub pairing_of : Waiting → Pairing
pairing_of w = record { tenant = w.tenant; node = w.node; allowed_caps = split_caps w.capabilities }

found-row :
    (db : Answers) (now : ℕ) (code : String) (o : Option Waiting) (store : NodeStore) (p : Pairing)
    → (redeem_found db now code o store).1 ≡ some p
    → (w : Waiting) × ((o ≡ some w) × (pairing_of w ≡ p))
found-row db now code none store p e = absurd cc
found-row db now code (some w) store p e = elim (Bool-cases db.stores) [
  | inl y ↦ (w, (refl, some-injective _ _ (rw y at e)))
  | inr n ↦ absurd (ground arith)
]

-- The pairing is the one of the waiting row of the code.
pub redeem-row :
    (db : Answers) (now : ℕ) (code : String) (store : NodeStore) (p : Pairing)
    → (redeem db now code store).1 ≡ some p
    → (w : Waiting) × ((find_pending (trim_space code) store.pending ≡ some w) × (pairing_of w ≡ p))
unfolding redeem
redeem-row db now code store p e = elim (Bool-cases (trim_space code == "")) [
  | inl y ↦ absurd (ground arith)
  | inr n ↦ elim (Bool-cases db.reads) [
    | inl r ↦
        found-row db now (trim_space code) (find_pending (trim_space code) store.pending) store p
          (rw (n, r) at e)
    | inr u ↦ absurd (ground arith)
  ]
]

join-cons :
    (c d : String) (cs : List String)
    → In c all_capabilities
    → split_comma (join_caps (c ∷ d ∷ cs)) ≡ c ∷ split_comma (join_caps (d ∷ cs))
unfolding split_comma join_caps
join-cons c d cs (inl e) = rw e refl
join-cons c d cs (inr (inl e)) = rw e refl
join-cons c d cs (inr (inr (inl e))) = rw e refl
join-cons c d cs (inr (inr (inr (inl e)))) = rw e refl
join-cons c d cs (inr (inr (inr (inr e)))) = absurd e

module _ (c : String) where
  one : In c all_capabilities → keep_trimmed (split_comma c) ≡ c ∷ []
  unfolding split_comma trim_space
  one (inl e) = rw e refl
  one (inr (inl e)) = rw e refl
  one (inr (inr (inl e))) = rw e refl
  one (inr (inr (inr (inl e)))) = rw e refl
  one (inr (inr (inr (inr e)))) = absurd e

  keep-known :
      (ps : List String) → In c all_capabilities → keep_trimmed (c ∷ ps) ≡ c ∷ keep_trimmed ps
  unfolding trim_space
  keep-known ps (inl e) = rw e refl
  keep-known ps (inr (inl e)) = rw e refl
  keep-known ps (inr (inr (inl e))) = rw e refl
  keep-known ps (inr (inr (inr (inl e)))) = rw e refl
  keep-known ps (inr (inr (inr (inr e)))) = absurd e

keep_trimmed-join :
    (c : String) (cs : List String)
    → All (λ c. In c all_capabilities) (c ∷ cs)
    → keep_trimmed (split_comma (join_caps (c ∷ cs))) ≡ c ∷ cs
unfolding join_caps
keep_trimmed-join c [] a = one c a.0
keep_trimmed-join c (d ∷ cs) a = rw (join-cons c d cs a.0) (
    rw (keep-known c (split_comma (join_caps (d ∷ cs))) a.0)
      (ap (λ r. c ∷ r) (keep_trimmed-join d cs a.1)))

abbrev is_nil : String → Bool
is_nil String.[] = true
is_nil (String.◌∷◌ c s) = false

cons-nonempty : (c : Char) (s : String) → (String.◌∷◌ c s == "") ≡ false
cons-nonempty c s = elim (Bool-cases (String.◌∷◌ c s == "")) [
  | inl y ↦ absurd (false≢true (ap is_nil ((str_iff (String.◌∷◌ c s) "").0 y)))
  | inr n ↦ n
]

join-nonempty :
    (c : String) (cs : List String) → In c all_capabilities → (join_caps (c ∷ cs) == "") ≡ false
unfolding join_caps
join-nonempty c [] (inl e) = rw e refl
join-nonempty c [] (inr (inl e)) = rw e refl
join-nonempty c [] (inr (inr (inl e))) = rw e refl
join-nonempty c [] (inr (inr (inr (inl e)))) = rw e refl
join-nonempty c [] (inr (inr (inr (inr e)))) = absurd e
join-nonempty c (d ∷ cs) (inl e) = rw e (cons-nonempty _ _)
join-nonempty c (d ∷ cs) (inr (inl e)) = rw e (cons-nonempty _ _)
join-nonempty c (d ∷ cs) (inr (inr (inl e))) = rw e (cons-nonempty _ _)
join-nonempty c (d ∷ cs) (inr (inr (inr (inl e)))) = rw e (cons-nonempty _ _)
join-nonempty c (d ∷ cs) (inr (inr (inr (inr e)))) = absurd e

split_caps-join :
    (cs : List String) → All (λ c. In c all_capabilities) cs → split_caps (join_caps cs) ≡ cs
unfolding split_caps join_caps
split_caps-join [] a = refl
split_caps-join (c ∷ cs) a = rw (join-nonempty c cs a.0) (keep_trimmed-join c cs a)

or_all-known :
    (cs : List String)
    → All (λ c. In c all_capabilities) cs
    → All (λ c. In c all_capabilities) (or_all cs)
or_all-known [] a =
    (inl refl, (inr (inl refl), (inr (inr (inl refl)), (inr (inr (inr (inl refl))), tt))))
or_all-known (c ∷ cs) a = a

find_pending-last :
    (w : Waiting) (ws : List Waiting)
    → find_pending w.code ws ≡ none
    → find_pending w.code (ws ++ (w ∷ [])) ≡ some w
unfolding find_pending
find_pending-last w [] e = rw ((str_iff w.code w.code).1 refl) refl
find_pending-last w (v ∷ ws) e = ground (arith, find_pending-last w ws)

-- A code without blanks around it that stands for no other node, issued for a named node of a named
-- tenant with known capabilities, pairs that node of that tenant, the database working, with the
-- capabilities that the operator allowed, all of them where it named none.
pub issue_code-redeem :
    (db : Answers) (now later : ℕ) (drawn tenant node : String) (allowed : List String)
    (store : NodeStore)
    → db.reads ≡ true
    → db.stores ≡ true
    → (tenant == "") ≡ false
    → (node == "") ≡ false
    → trim_space drawn ≡ drawn
    → (drawn == "") ≡ false
    → find_pending drawn store.pending ≡ none
    → All (λ c. In c all_capabilities) allowed
    → (redeem db later drawn (issue_code drawn now true tenant node allowed store).0).1
      ≡ some (record { tenant = tenant; node = node; allowed_caps = or_all allowed })
unfolding redeem issue_code
issue_code-redeem db now later drawn tenant node allowed store r s t n k d f a =
    rw (t, n)
      (rw f (
        rw k (
          rw d (
            rw r (
              rw
                (find_pending-last
                  (record {
                    code = drawn;
                    tenant = tenant;
                    node = node;
                    capabilities = join_caps (or_all allowed);
                    created_at = now;
                  })
                  store.pending f)
                (rw s (
                  ap (λ cs. some (record { tenant = tenant; node = node; allowed_caps = cs }))
                    (split_caps-join (or_all allowed) (or_all-known allowed a)))))))))

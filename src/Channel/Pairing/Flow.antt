-- ===== src/Channel/Pairing/Flow.antt =====
-- modules/channel/pairing.go: from the first message of a stranger to the first that gets through.
use cyntr.Common.{
  ℕ, String, ◌≡◌, refl, Bool, true, false, List, [], ◌∷◌, ◌++◌, Option, none, some, string_eq, any,
  arith, Bool-cases, inl, inr, str_iff, ◌∙◌, ap,
}
use cyntr.Common.Text.{trim_space}
use cyntr.Channel.Pairing.{
  Sender, PairingStore, Pending, Gate, your_code_is, no_reply, same_sender, has_sender, is_paired,
  upsert, issue_code, approve_locked, approve_code, find_code, policy_for, allowed, check,
}
use cyntr.Common.{sym}

same_sender_refl : (s : Sender) → same_sender s s ≡ true
same_sender_refl s = ground (
  arith,
  (str_iff s.tenant s.tenant).1 refl,
  (str_iff s.channel s.channel).1 refl,
  (str_iff s.user_id s.user_id).1 refl,
)

same_sender-eq : (s t : Sender) → same_sender s t ≡ true → s ≡ t
same_sender-eq s t e =
    let a = (str_iff s.tenant t.tenant).0 (ground arith) in
    let b = (str_iff s.channel t.channel).0 (ground arith) in
    let c = (str_iff s.user_id t.user_id).0 (ground arith) in
    λ i. record { tenant = a i; channel = b i; user_id = c i }

module _ (s : Sender) (code : String) where
  find_code-first :
      (p : Pending) (ps : List Pending)
      → p.sender ≡ s
      → p.code ≡ code
      → find_code s.tenant s.channel code (p ∷ ps) ≡ some s
  unfolding find_code
  find_code-first p ps e k = rw e (
      rw ((str_iff s.tenant s.tenant).1 refl)
        (rw ((str_iff s.channel s.channel).1 refl) (rw ((str_iff p.code code).1 k) refl)))

  find_code-rest :
      (p : Pending) (ps qs : List Pending)
      → find_code s.tenant s.channel code (p ∷ ps) ≡ none
      → (find_code s.tenant s.channel code ps ≡ none
          → find_code s.tenant s.channel code qs ≡ some s)
      → find_code s.tenant s.channel code (p ∷ qs) ≡ some s
  unfolding find_code
  find_code-rest p ps qs e ih = ground arith

  find_code-upsert :
      (now : ℕ) (ps : List Pending)
      → find_code s.tenant s.channel code ps ≡ none
      → find_code s.tenant s.channel code (upsert s code now ps) ≡ some s
  unfolding upsert
  find_code-upsert now [] e = find_code-first _ _ refl refl
  find_code-upsert now (p ∷ ps) e = elim (Bool-cases (same_sender s p.sender)) [
    | inl y ↦ rw y (
        find_code-first (record p { code = code; created_at = now }) ps
          (sym (same_sender-eq s p.sender y)) refl)
    | inr f ↦ rw f (find_code-rest p ps (upsert s code now ps) e (find_code-upsert now ps))
  ]

any-append :
    (p : Sender → Bool) (s : Sender) (ss : List Sender) → p s ≡ true → any p (ss ++ (s ∷ [])) ≡ true
unfolding any
any-append p s [] t = rw t refl
any-append p s (x ∷ ss) t = rw (any-append p s ss t) (ground arith)

approve-paired :
    (s : Sender) (d : Bool) (store : PairingStore)
    → has_sender s (approve_locked true d s store).0 ≡ true
unfolding approve_locked has_sender
approve-paired s d store =
    ground (arith, any-append (same_sender s) s store.paired (same_sender_refl s))

not-paired :
    (read : Bool) (s : Sender) (store : PairingStore)
    → has_sender s store ≡ false
    → is_paired read s store ≡ false
unfolding is_paired
not-paired true s store n = n
not-paired false s store n = refl

module _ (s : Sender) (g : Gate) (p : policy_for s.channel g ≡ "pairing") (store : PairingStore)
    (o : g.store ≡ some store) where
  check-paired :
      (drawn : Option String) (later : ℕ) (ok : Bool)
      → has_sender s store ≡ true
      → check drawn later true ok s g ≡ (g, true, no_reply)
  unfolding check is_paired
  check-paired drawn later ok y = rw p (rw o (rw y (ground arith)))

  check-asks :
      (code : String) (now : ℕ) (read : Bool)
      → allowed s.channel s.user_id g ≡ false
      → is_paired read s store ≡ false
      → check (some code) now read true s g ≡ (
        record g { store = some (issue_code (some code) now true s store).0 },
        false,
        your_code_is code,
      )
  unfolding check issue_code allowed
  check-asks code now read a n = rw p (rw o (rw a (rw n refl)))

approve_code-found :
    (s : Sender) (code : String) (store : PairingStore)
    → trim_space code ≡ code
    → find_code s.tenant s.channel code store.pending ≡ some s
    → approve_code true true s.tenant s.channel code store
      ≡ ((approve_locked true true s store).0, some s.user_id)
unfolding approve_code approve_locked
approve_code-found s code store t f = rw t (rw f refl)

-- A stranger under the pairing policy, on no list of allowed senders, is refused and told its code.
-- Once an operator has approved that code, which has no blanks around it and for which no other sender
-- of the tenant and channel waits, the database working, the answer of the approval names the
-- stranger, and its next message gets through, where the query of IsPaired works then.
pub check-approve_code-check :
    (code : String) (now : ℕ) (read : Bool) (s : Sender) (store : PairingStore) (g : Gate)
    → g.store ≡ some store
    → policy_for s.channel g ≡ "pairing"
    → allowed s.channel s.user_id g ≡ false
    → has_sender s store ≡ false
    → trim_space code ≡ code
    → find_code s.tenant s.channel code store.pending ≡ none
    → let asked = check (some code) now read true s g in
      let issued = issue_code (some code) now true s store in
      let approved = approve_code true true s.tenant s.channel code issued.0 in
      (asked ≡ (record g { store = some issued.0 }, false, your_code_is code))
      × (approved.1 ≡ some s.user_id)
      × ((drawn : Option String) (later : ℕ) (ok : Bool)
          → check drawn later true ok s (record g { store = some approved.0 })
            ≡ (record g { store = some approved.0 }, true, no_reply))
unfolding issue_code policy_for
check-approve_code-check code now read s store g o p a n t f =
    let issued = issue_code (some code) now true s store in
    let e = approve_code-found s code issued.0 t (find_code-upsert s code now store.pending f) in
    (
      check-asks s g p store o code now read a (not-paired read s store n),
      ap (λ r. r.1) e,
      λ drawn later ok.
          check-paired s
            (record g { store = some (approve_code true true s.tenant s.channel code issued.0).0 })
            p _ refl drawn later ok (ap (λ r. has_sender s r.0) e ∙ approve-paired s true issued.0),
    )

-- ===== src/Channel/Pairing/Approved.antt =====
-- modules/channel/pairing.go: who gets on the list of approved senders, over any sequence of calls.
use cyntr.Common.{
  ℕ, String, ◌≡◌, refl, Bool, true, false, List, [], ◌∷◌, ◌++◌, Option, none, some, string_eq, any,
  All, arith, Bool-cases, inl, inr, str_iff,
}
use cyntr.Common.Text.{trim_space}
use cyntr.Channel.Pairing.{
  Sender, PairingStore, Pending, same_sender, has_sender, is_paired, issue_code, approve_user,
  approve_locked, approve_code, approve_found, find_code,
}
use cyntr.Common.{◌∙◌}

pub data Event : Type 0 where
  issued : Option String → ℕ → Bool → Sender → Event
  user_approved : Bool → Bool → Sender → Event
  code_approved : Bool → Bool → String → String → String → Event

unfoldable pub step : PairingStore → Event → PairingStore
unfolding issue_code approve_user approve_code
step store (issued drawn now ok s) = (issue_code drawn now ok s store).0
step store (user_approved i d s) = (approve_user i d s store).0
step store (code_approved i d tenant channel code) = (approve_code i d tenant channel code store).0

unfoldable pub run : PairingStore → List Event → PairingStore
unfolding step
run store [] = store
run store (e ∷ es) = run (step store e) es

-- An operator's approval that reaches the sender: by name, or by a code of its tenant and channel.
abbrev pub IsApprovalOf : Sender → Event → Type 0
IsApprovalOf s (issued drawn now ok t) = ⊥
IsApprovalOf s (user_approved i d t) = same_sender s t ≡ true
IsApprovalOf s (code_approved i d tenant channel code) = (s.tenant ≡ tenant) × (s.channel ≡ channel)

any-append_one :
    (p : Sender → Bool) (s : Sender) (ss : List Sender)
    → p s ≡ false
    → any p (ss ++ (s ∷ [])) ≡ any p ss
unfolding any
any-append_one p s [] f = rw f refl
any-append_one p s (t ∷ ss) f = rw (any-append_one p s ss f) refl

approve-spares :
    (s t : Sender) (i d : Bool) (store : PairingStore)
    → same_sender s t ≡ false
    → has_sender s (approve_locked i d t store).0 ≡ has_sender s store
unfolding approve_locked has_sender
approve-spares s t true d store f = ground (arith, any-append_one (same_sender s) t store.paired f)
approve-spares s t false d store f = refl

found-same :
    (tenant channel code : String) (ps : List Pending) (t : Sender)
    → find_code tenant channel code ps ≡ some t
    → (t.tenant ≡ tenant) × (t.channel ≡ channel)
unfolding find_code
found-same tenant channel code (p ∷ ps) t e = ground (
  arith,
  found-same tenant channel code ps t,
  (str_iff p.sender.tenant tenant).0,
  (str_iff p.sender.channel channel).0,
)
found-same tenant channel code [] t e = absurd cc

other-sender :
    (s t : Sender) (tenant channel : String)
    → (t.tenant ≡ tenant) × (t.channel ≡ channel)
    → ¬ ((s.tenant ≡ tenant) × (s.channel ≡ channel))
    → same_sender s t ≡ false
other-sender s t tenant channel f n = elim (Bool-cases (same_sender s t)) [
  | inl y ↦ absurd (
      n (
        ground (arith, (str_iff s.tenant t.tenant).0, f.0),
        ground (arith, (str_iff s.channel t.channel).0, f.1),
      ))
  | inr e ↦ e
]

found-spares :
    (s : Sender) (i d : Bool) (tenant channel : String) (o : Option Sender) (store : PairingStore)
    → ¬ ((s.tenant ≡ tenant) × (s.channel ≡ channel))
    → ((t : Sender) → o ≡ some t → (t.tenant ≡ tenant) × (t.channel ≡ channel))
    → has_sender s (approve_found i d o store).0 ≡ has_sender s store
found-spares s i d tenant channel none store n f = refl
found-spares s i d tenant channel (some t) store n f =
    approve-spares s t i d store (other-sender s t tenant channel (f t refl) n)

module _ (s : Sender) where
  step-spares :
      (store : PairingStore) (e : Event)
      → ¬ IsApprovalOf s e
      → has_sender s (step store e) ≡ has_sender s store
  unfolding step has_sender
  step-spares store (issued none now ok t) n = refl
  step-spares store (issued (some c) now true t) n = refl
  step-spares store (issued (some c) now false t) n = refl
  step-spares store (user_approved i d t) n =
      approve-spares s t i d store
        (elim (Bool-cases (same_sender s t)) [ inl y ↦ absurd (n y) | inr f ↦ f ])
  step-spares store (code_approved i d tenant channel code) n =
      found-spares s i d tenant channel (find_code tenant channel (trim_space code) store.pending)
        store n (found-same tenant channel (trim_space code) store.pending)

  run-keeps :
      (store : PairingStore) (es : List Event)
      → All (λ e. ¬ IsApprovalOf s e) es
      → has_sender s (run store es) ≡ has_sender s store
  unfolding run
  run-keeps store [] n = refl
  run-keeps store (e ∷ es) n = run-keeps (step store e) es n.1 ∙ step-spares store e n.0

  -- Calls that are no approval of the sender by name, and no approval of a code of its tenant and
  -- channel, leave it approved exactly where it was: asking for a code approves nobody, and an
  -- operator of one tenant never approves a sender of another.
  pub run-spares :
      (store : PairingStore) (es : List Event) (read : Bool)
      → All (λ e. ¬ IsApprovalOf s e) es
      → is_paired read s (run store es) ≡ is_paired read s store
  unfolding is_paired
  run-spares store es true n = run-keeps store es n
  run-spares store es false n = refl

-- ===== src/Bus/Delivery/Moves.antt =====
-- kernel/ipc/bus.go: the moves of requests between inboxes, running handlers and replies.
use cyntr.Bus.{
  Inbox, RequestEnvelope, ReplyEnvelope, remove_at, close_at, close_found, close_topics, close_all,
  new_inbox, close_inbox,
}
use cyntr.Common.Dict.{Dict}
use mathlib.Core.Option.{some-injective}
use cyntr.Bus.Delivery.Events.{one, waiting, queued, replied, Fits}
use cyntr.Common.{
  String, ℕ, zero, suc, ◌+◌, ◌≡◌, ◌≤◌, refl, List, [], ◌∷◌, ◌++◌, Option, none, some, length,
  get_elem?, set, arith,
}
use cyntr.Common.{◌∙◌}
use cyntr.Common.{sym}
use cyntr.Common.{subst}
use cyntr.Common.{Bool-cases}
use cyntr.Bus.{String}
use cyntr.Common.{inl}
use cyntr.Bus.{Dict}
use cyntr.Common.{inr}
use cyntr.Common.{Option-cases}
use cyntr.Common.{All-get}

module _ {P : Type 0} where
  pub waiting-append :
      (t : ℕ) (rs : List (RequestEnvelope P)) (r : RequestEnvelope P)
      → waiting t (rs ++ (r ∷ [])) ≡ waiting t rs + one t r.ticket
  waiting-append t [] r = omega arith
  waiting-append t (x ∷ rs) r = omega (arith, waiting-append t rs r)

  pub replied-append :
      (t i : ℕ) (rs : List (ℕ × ReplyEnvelope P)) (r : ReplyEnvelope P)
      → replied t (rs ++ ((i, r) ∷ [])) ≡ replied t rs + one t i
  replied-append t i [] r = omega arith
  replied-append t i ((j, x) ∷ rs) r = omega (arith, replied-append t i rs r)

  pub queued-append :
      (t : ℕ) (bs : List (Inbox P)) → queued t (bs ++ (new_inbox ∷ [])) ≡ queued t bs
  queued-append t [] = refl
  queued-append t (b ∷ bs) = omega (arith, queued-append t bs)

  pub queued-set :
      (t i : ℕ) (bs : List (Inbox P)) (old new : Inbox P)
      → get_elem? bs i ≡ some old
      → queued t (set bs i new) + waiting t old.queue ≡ queued t bs + waiting t new.queue
  queued-set t i [] old new e = absurd cc
  queued-set t zero (b ∷ bs) old new e = rw (sym (some-injective _ _ e)) (omega arith)
  queued-set t (suc i) (b ∷ bs) old new e = omega (arith, queued-set t i bs old new e)

  pub waiting-remove_at :
      (t i : ℕ) (rs : List (RequestEnvelope P)) (r : RequestEnvelope P)
      → get_elem? rs i ≡ some r
      → waiting t (remove_at i rs) + one t r.ticket ≡ waiting t rs
  unfolding remove_at
  waiting-remove_at t i [] r e = absurd cc
  waiting-remove_at t zero (x ∷ rs) r e = rw (sym (some-injective _ _ e)) (omega arith)
  waiting-remove_at t (suc i) (x ∷ rs) r e = omega (arith, waiting-remove_at t i rs r e)

  pub Fits-set :
      (n i : ℕ) (bs : List (Inbox P)) (new : Inbox P)
      → Fits n bs
      → length new.queue ≤ n
      → Fits n (set bs i new)
  Fits-set n i [] new f h = f
  Fits-set n zero (b ∷ bs) new f h = (h, f.1)
  Fits-set n (suc i) (b ∷ bs) new f h = (f.0, Fits-set n i bs new f.1 h)

  pub Fits-append : (n : ℕ) (bs : List (Inbox P)) → Fits n bs → Fits n (bs ++ (new_inbox ∷ []))
  Fits-append n [] f = (omega arith, tt)
  Fits-append n (b ∷ bs) f = (f.0, Fits-append n bs f.1)

  -- The same requests stand in the inboxes.
  pub record Same (bs cs : List (Inbox P)) : Type 0 where
    pub count : (t : ℕ) → queued t cs ≡ queued t bs
    pub bound : (n : ℕ) → Fits n bs → Fits n cs

  pub Same-refl : (bs : List (Inbox P)) → Same bs bs
  Same-refl bs = record { count = λ t. refl; bound = λ n f. f }

  Same-trans : (ds bs cs : List (Inbox P)) → Same ds bs → Same bs cs → Same ds cs
  Same-trans ds bs cs p q = record {
    count = λ t. q.count t ∙ p.count t;
    bound = λ n f. q.bound n (p.bound n f);
  }

  close_found-Same :
      (i : ℕ) (o : Option (Inbox P)) (bs cs : List (Inbox P))
      → get_elem? bs i ≡ o
      → close_found i o bs ≡ some cs
      → Same bs cs
  close_found-Same i none bs cs e c = absurd cc
  close_found-Same i (some b) bs cs e c = elim (Bool-cases b.closed) [
    | inl y ↦ absurd (ground (arith, y, c))
    | inr n ↦ subst (Same bs) (some-injective _ _ (rw n at c)) (record {
      count = λ t. omega (arith, queued-set t i bs b (close_inbox b) e);
      bound = λ n f.
          Fits-set n i bs (close_inbox b) f (All-get (λ box. length box.queue ≤ n) bs i b f e);
    })
  ]

  pub close_at-Same : (o : Option ℕ) (bs cs : List (Inbox P)) → close_at o bs ≡ some cs → Same bs cs
  close_at-Same none bs cs c = subst (Same bs) (some-injective _ _ c) (Same-refl bs)
  close_at-Same (some i) bs cs c = close_found-Same i (get_elem? bs i) bs cs refl c

  close_topics-Same :
      (ts : List (String × ℕ)) (bs cs : List (Inbox P)) → close_topics ts bs ≡ some cs → Same bs cs
  unfolding close_topics
  close_topics-Same [] bs cs c = subst (Same bs) (some-injective _ _ c) (Same-refl bs)
  close_topics-Same ((topic, i) ∷ ts) bs cs c = elim (Option-cases (close_at (some i) bs)) [
    | inl n ↦ absurd cc
    | inr (left, e) ↦
        Same-trans bs left cs (close_at-Same (some i) bs left e)
          (close_topics-Same ts left cs (rw e at c))
  ]

  pub close_all-Same :
      (hs : List (String × Dict String ℕ)) (bs cs : List (Inbox P))
      → close_all hs bs ≡ some cs
      → Same bs cs
  unfolding close_all
  close_all-Same [] bs cs c = subst (Same bs) (some-injective _ _ c) (Same-refl bs)
  close_all-Same ((owner, ts) ∷ hs) bs cs c = elim (Option-cases (close_topics ts bs)) [
    | inl n ↦ absurd cc
    | inr (left, e) ↦
        Same-trans bs left cs (close_topics-Same ts bs left e)
          (close_all-Same hs left cs (rw e at c))
  ]

-- ===== src/Bus/Delivery/Replies.antt =====
-- kernel/ipc/bus.go: what the wait of a request receives.
use cyntr.Bus.Subscriptions.{subscribe, unsubscribe}
use cyntr.Bus.{
  Bus, Message, Inbox, Outcome, RequestEnvelope, ReplyEnvelope, find_reply, receive, reply,
  reply_to, register, send, send_to, completed, take_request, take_from, start_first, end_handler,
  end_running, close, close_at, close_all, topics_of, new_bus,
}
use mathlib.Core.Option.{some-injective}
use cyntr.Common.Dict.{get}
use cyntr.Common.{
  ℕ, zero, suc, ◌≡◌, ◌≤◌, String, List, [], ◌∷◌, ◌++◌, Bool, false, Option, some, none, get_elem?,
  length, ltb, arith, refl, sym, ◌∙◌, ap, subst, inl, inr, ◌==◌, nat_eq, string_eq, Bool-cases,
  Option-cases,
}
use cyntr.Bus.Delivery.Events.{
  Event, registers, sends, takes, ends, subscribes, unsubscribes, closes, apply, run, waiting,
  replied,
}
use cyntr.Bus.Delivery.Kept.{run-Kept}

module _ {P : Type 0} where
  find_reply-append :
      (t : ℕ) (rs : List (ℕ × ReplyEnvelope P)) (x : ReplyEnvelope P)
      → replied t rs ≡ 0
      → find_reply t (rs ++ ((t, x) ∷ [])) ≡ some x
  unfolding find_reply
  find_reply-append t [] x h = ground arith
  find_reply-append t ((i, y) ∷ rs) x h = ground (arith, h, find_reply-append t rs x)

  waiting-pos :
      (i : ℕ) (rs : List (RequestEnvelope P)) (r : RequestEnvelope P)
      → get_elem? rs i ≡ some r
      → 1 ≤ waiting r.ticket rs
  waiting-pos i [] r e = absurd cc
  waiting-pos zero (x ∷ rs) r e = rw (sym (some-injective _ _ e)) (ground arith)
  waiting-pos (suc i) (x ∷ rs) r e = omega (arith, waiting-pos i rs r e)

  find_reply-stays :
      (t : ℕ) (rs more : List (ℕ × ReplyEnvelope P)) (x : ReplyEnvelope P)
      → find_reply t rs ≡ some x
      → find_reply t (rs ++ more) ≡ some x
  unfolding find_reply
  find_reply-stays t [] more x h = absurd cc
  find_reply-stays t ((i, y) ∷ rs) more x h = elim (Bool-cases (i == t)) [
    | inl e ↦ rw e (rw e at h)
    | inr n ↦ rw n (find_reply-stays t rs more x (rw n at h))
  ]

  -- A send changes no reply.
  send_to-answered :
      (m : Message P) (i : ℕ) (o : Option (Inbox P)) (b : Bus P)
      → (send_to m i o b).0.answered ≡ b.answered
  send_to-answered m i none b = refl
  send_to-answered m i (some box) b = elim (Bool-cases box.closed) [
    | inl y ↦ rw y refl
    | inr n ↦ elim (Bool-cases (ltb (length box.queue) b.buffer_size)) [
      | inl y ↦ rw (n, y) refl
      | inr f ↦ rw (n, f) refl
    ]
  ]

  send-answered :
      (id trace : String) (deadline : Option ℕ) (m : Message P) (b : Bus P)
      → (send id trace deadline m b).0.answered ≡ b.answered
  unfolding send
  send-answered id trace deadline m b = elim (Bool-cases b.closed) [
    | inl y ↦ rw y refl
    | inr n ↦ elim (Option-cases (get m.target b.handlers)) [
      | inl h ↦ rw (n, h) refl
      | inr (topics, h) ↦ elim (Option-cases (get m.topic topics)) [
        | inl g ↦ rw (n, h, g) refl
        | inr (i, g) ↦
            rw (n, h, g)
              (send_to-answered (completed id trace deadline m) i (get_elem? b.inboxes i) b)
      ]
    ]
  ]

  take_from-answered :
      (i : ℕ) (o : Option (Inbox P)) (b : Bus P) → (take_from i o b).answered ≡ b.answered
  take_from-answered i none b = refl
  take_from-answered i (some box) b =
      elim box.queue as (λ q. (start_first i box q b).answered ≡ b.answered) [
        | [] ↦ refl
        | r ∷ rest ↦ refl
      ]

  -- The ticket has its reply.
  abbrev Replied : ℕ → ReplyEnvelope P → Bus P → Type 0
  Replied t x b = find_reply t b.answered ≡ some x

  end_running-Replied :
      (i t : ℕ) (o : Outcome P) (r : Option (RequestEnvelope P)) (b : Bus P) (x : ReplyEnvelope P)
      → Replied t x b
      → Replied t x (end_running i o r b)
  end_running-Replied i t o none b x h = h
  end_running-Replied i t o (some r) b x h =
      find_reply-stays t b.answered ((r.ticket, reply_to r.msg o) ∷ []) x h

  register-Replied :
      (owner topic : String) (b after : Bus P) (t : ℕ) (x : ReplyEnvelope P)
      → register owner topic b ≡ some after
      → Replied t x b
      → Replied t x after
  unfolding register
  register-Replied owner topic b after t x e h =
      elim (Option-cases (close_at (get topic (topics_of (get owner b.handlers))) b.inboxes)) [
        | inl n ↦ absurd (ground (arith, n, e))
        | inr (boxes, c) ↦ subst (Replied t x) (some-injective _ _ (rw c at e)) h
      ]

  close-Replied :
      (b after : Bus P) (t : ℕ) (x : ReplyEnvelope P)
      → close b ≡ some after
      → Replied t x b
      → Replied t x after
  unfolding close
  close-Replied b after t x e h = elim (Bool-cases b.closed) [
    | inl y ↦ subst (Replied t x) (some-injective _ _ (rw y at e)) h
    | inr n ↦ elim (Option-cases (close_all b.handlers b.inboxes)) [
      | inl m ↦ absurd (ground (arith, n, m, e))
      | inr (boxes, c) ↦ subst (Replied t x) (some-injective _ _ (rw (n, c) at e)) h
    ]
  ]

  apply-Replied :
      (ev : Event P) (b after : Bus P) (t : ℕ) (x : ReplyEnvelope P)
      → apply ev b ≡ some after
      → Replied t x b
      → Replied t x after
  unfolding apply take_request end_handler subscribe unsubscribe
  apply-Replied (registers owner topic) b after t x e h =
      register-Replied owner topic b after t x e h
  apply-Replied (sends id trace deadline m) b after t x e h =
      subst (Replied t x) (some-injective _ _ e)
        (ap (find_reply t) (send-answered id trace deadline m b) ∙ h)
  apply-Replied (takes i) b after t x e h =
      subst (Replied t x) (some-injective _ _ e)
        (ap (find_reply t) (take_from-answered i (get_elem? b.inboxes i) b) ∙ h)
  apply-Replied (ends i o) b after t x e h =
      subst (Replied t x) (some-injective _ _ e)
        (end_running-Replied i t o (get_elem? b.running i) b x h)
  apply-Replied (subscribes owner topic id) b after t x e h = elim (Bool-cases b.closed) [
    | inl y ↦ subst (Replied t x) (some-injective _ _ (rw y at e)) h
    | inr n ↦ subst (Replied t x) (some-injective _ _ (rw n at e)) h
  ]
  apply-Replied (unsubscribes topic id) b after t x e h =
      elim (Option-cases (get topic b.subscribers)) [
        | inl n ↦ subst (Replied t x) (some-injective _ _ (rw (n, unsubscribe) at e)) h
        | inr (subs, g) ↦ subst (Replied t x) (some-injective _ _ (rw (g, unsubscribe) at e)) h
      ]
  apply-Replied closes b after t x e h = close-Replied b after t x e h

  run-Replied :
      (es : List (Event P)) (b after : Bus P) (t : ℕ) (x : ReplyEnvelope P)
      → run es b ≡ some after
      → Replied t x b
      → Replied t x after
  unfolding run
  run-Replied [] b after t x e h = subst (Replied t x) (some-injective _ _ e) h
  run-Replied (ev ∷ es) b after t x e h = elim (Option-cases (apply ev b)) [
    | inl n ↦ absurd (ground (arith, n, e))
    | inr (mid, g) ↦
        run-Replied es mid after t x (rw (g, run) at e) (apply-Replied ev b mid t x g h)
  ]

  -- In every bus that a run reaches, a handler that ends gives the request it ran for its outcome, whatever
  -- the other requests did before and whatever happens afterwards: a wait that no context ends receives the
  -- reply made of this request's message, or the handler's error.
  pub end_handler-receive :
      (n : ℕ) (es later : List (Event P)) (b after : Bus P) (i : ℕ) (r : RequestEnvelope P)
      (o : Outcome P) (first : Bool)
      → run es (new_bus n) ≡ some b
      → get_elem? b.running i ≡ some r
      → run later (end_handler i o b) ≡ some after
      → receive r.ticket false first after ≡ some (reply (reply_to r.msg o))
  unfolding end_handler receive
  end_handler-receive n es later b after i r o first e g l =
      let k = run-Kept n es b e in
      let h =
        find_reply-append r.ticket b.answered (reply_to r.msg o)
          (ground (arith, k.each r.ticket, waiting-pos i b.running r g)) in
      rw (run-Replied later _ after r.ticket (reply_to r.msg o) (rw g at l) h, receive) refl

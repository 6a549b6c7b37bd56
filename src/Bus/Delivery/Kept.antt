-- ===== src/Bus/Delivery/Kept.antt =====
-- kernel/ipc/bus.go: every operation and every move keeps each request in one place.
use cyntr.Bus.Subscriptions.{subscribe, unsubscribe}
use cyntr.Bus.{
  Bus, Message, Outcome, Inbox, RequestEnvelope, register, send, send_to, completed, take_request,
  take_from, start_first, end_handler, end_running, reply_to, close, close_at, close_all, new_inbox,
  new_bus, topics_of,
}
use cyntr.Bus.Delivery.Events.{
  waiting, Kept, Event, registers, sends, takes, ends, subscribes, unsubscribes, closes, apply, run,
}
use cyntr.Bus.Delivery.Moves.{
  Same, Same-refl, close_at-Same, close_all-Same, queued-append, queued-set, waiting-append,
  replied-append, waiting-remove_at, Fits-set, Fits-append,
}
use mathlib.Core.Option.{some-injective}
use cyntr.Common.Dict.{get}
use cyntr.Common.{
  true, ap, ◌∙◌, length-append, All-get, nat_eq, ltb, string_eq, ℕ, ◌+◌, ◌≡◌, ◌≤◌, refl, String,
  List, [], ◌∷◌, ◌++◌, Option, none, some, length, get_elem?, set, arith, Bool-cases, Option-cases,
  inl, inr, subst,
}

module _ {P : Type 0} where
  -- The inboxes are replaced by others with the same requests.
  boxes-Kept :
      (b after : Bus P)
      → Same b.inboxes after.inboxes
      → after.running ≡ b.running
      → after.answered ≡ b.answered
      → after.sent ≡ b.sent
      → after.buffer_size ≡ b.buffer_size
      → Kept b
      → Kept after
  boxes-Kept b after s r a n z k = record {
    each = λ t. rw (r, a, n, s.count t) (k.each t);
    fits = rw z (s.bound b.buffer_size k.fits);
  }

  opened-Same : (bs cs : List (Inbox P)) → Same bs cs → Same bs (cs ++ (new_inbox ∷ []))
  opened-Same bs cs s = record {
    count = λ t. queued-append t cs ∙ s.count t;
    bound = λ n f. Fits-append n cs (s.bound n f);
  }

  register-Kept :
      (owner topic : String) (b after : Bus P)
      → register owner topic b ≡ some after
      → Kept b
      → Kept after
  unfolding register
  register-Kept owner topic b after e k =
      elim (Option-cases (close_at (get topic (topics_of (get owner b.handlers))) b.inboxes)) [
        | inl n ↦ absurd (ground (arith, n, e))
        | inr (boxes, h) ↦ subst Kept (some-injective _ _ (rw h at e)) (
            boxes-Kept b _ (opened-Same b.inboxes boxes (close_at-Same _ b.inboxes boxes h)) refl
              refl refl refl k)
      ]

  close-Kept : (b after : Bus P) → close b ≡ some after → Kept b → Kept after
  unfolding close
  close-Kept b after e k = elim (Bool-cases b.closed) [
    | inl y ↦
        subst Kept (some-injective _ _ (rw y at e))
          (boxes-Kept b _ (Same-refl b.inboxes) refl refl refl refl k)
    | inr n ↦ elim (Option-cases (close_all b.handlers b.inboxes)) [
      | inl m ↦ absurd (ground (arith, n, m, e))
      | inr (boxes, h) ↦
          subst Kept (some-injective _ _ (rw (n, h) at e))
            (boxes-Kept b _ (close_all-Same b.handlers b.inboxes boxes h) refl refl refl refl k)
    ]
  ]

  queue_at-Kept :
      (m : Message P) (i : ℕ) (box new : Inbox P) (b : Bus P)
      → get_elem? b.inboxes i ≡ some box
      → new.queue ≡ box.queue ++ (record { msg = m; ticket = b.sent } ∷ [])
      → ltb (length box.queue) b.buffer_size ≡ true
      → Kept b
      → Kept (record b { inboxes = set b.inboxes i new; sent = b.sent + 1 })
  queue_at-Kept m i box new b e q l k =
      let env : RequestEnvelope P = record { msg = m; ticket = b.sent } in
      record {
        each = λ t. ground (
          arith,
          queued-set t i b.inboxes box new e,
          ap (waiting t) q,
          waiting-append t box.queue env,
          k.each t,
        );
        fits =
            Fits-set b.buffer_size i b.inboxes new k.fits
              (ground (arith, ap length q, length-append box.queue (env ∷ []), l));
      }

  send_to-Kept :
      (m : Message P) (i : ℕ) (o : Option (Inbox P)) (b : Bus P)
      → get_elem? b.inboxes i ≡ o
      → Kept b
      → Kept (send_to m i o b).0
  send_to-Kept m i none b e k = k
  send_to-Kept m i (some box) b e k = elim (Bool-cases box.closed) [
    | inl y ↦ rw y k
    | inr n ↦ elim (Bool-cases (ltb (length box.queue) b.buffer_size)) [
      | inl y ↦ rw (n, y) (queue_at-Kept m i box _ b e refl y k)
      | inr f ↦ rw (n, f) k
    ]
  ]

  send-Kept :
      (id trace : String) (deadline : Option ℕ) (m : Message P) (b : Bus P)
      → Kept b
      → Kept (send id trace deadline m b).0
  unfolding send
  send-Kept id trace deadline m b k = elim (Bool-cases b.closed) [
    | inl y ↦ subst Kept (ground (arith, y)) k
    | inr n ↦ elim (Option-cases (get m.target b.handlers)) [
      | inl h ↦ subst Kept (ground (arith, n, h)) k
      | inr (topics, h) ↦ elim (Option-cases (get m.topic topics)) [
        | inl g ↦ subst Kept (ground (arith, n, h, g)) k
        | inr (i, g) ↦
            subst Kept (ground (arith, n, h, g))
              (send_to-Kept (completed id trace deadline m) i (get_elem? b.inboxes i) b refl k)
      ]
    ]
  ]

  start_first-Kept :
      (i : ℕ) (box : Inbox P) (q : List (RequestEnvelope P)) (b : Bus P)
      → get_elem? b.inboxes i ≡ some box
      → box.queue ≡ q
      → Kept b
      → Kept (start_first i box q b)
  start_first-Kept i box [] b e h k = k
  start_first-Kept i box (r ∷ rest) b e h k = record {
    each = λ t. omega (
      arith,
      queued-set t i b.inboxes box (record box { queue = rest }) e,
      ap (waiting t) h,
      waiting-append t b.running r,
      k.each t,
    );
    fits =
        Fits-set b.buffer_size i b.inboxes (record box { queue = rest }) k.fits
          (omega (
            arith,
            ap length h,
            All-get (λ x. length x.queue ≤ b.buffer_size) b.inboxes i box k.fits e,
          ));
  }

  take_from-Kept :
      (i : ℕ) (o : Option (Inbox P)) (b : Bus P)
      → get_elem? b.inboxes i ≡ o
      → Kept b
      → Kept (take_from i o b)
  take_from-Kept i none b e k = k
  take_from-Kept i (some box) b e k = start_first-Kept i box box.queue b e refl k

  end_running-Kept :
      (i : ℕ) (o : Outcome P) (r : Option (RequestEnvelope P)) (b : Bus P)
      → get_elem? b.running i ≡ r
      → Kept b
      → Kept (end_running i o r b)
  end_running-Kept i o none b e k = k
  end_running-Kept i o (some r) b e k = record {
    each = λ t. omega (
      arith,
      k.each t,
      waiting-remove_at t i b.running r e,
      replied-append t r.ticket b.answered (reply_to r.msg o),
    );
    fits = k.fits;
  }

  apply-Kept : (ev : Event P) (b after : Bus P) → apply ev b ≡ some after → Kept b → Kept after
  unfolding apply take_request end_handler subscribe unsubscribe
  apply-Kept (registers owner topic) b after e k = register-Kept owner topic b after e k
  apply-Kept (sends id trace deadline m) b after e k =
      subst Kept (some-injective _ _ e) (send-Kept id trace deadline m b k)
  apply-Kept (takes i) b after e k =
      subst Kept (some-injective _ _ e) (take_from-Kept i (get_elem? b.inboxes i) b refl k)
  apply-Kept (ends i o) b after e k =
      subst Kept (some-injective _ _ e) (end_running-Kept i o (get_elem? b.running i) b refl k)
  apply-Kept (subscribes owner topic id) b after e k = elim (Bool-cases b.closed) [
    | inl y ↦
        subst Kept (some-injective _ _ (rw y at e))
          (boxes-Kept b _ (Same-refl b.inboxes) refl refl refl refl k)
    | inr n ↦
        subst Kept (some-injective _ _ (rw n at e))
          (boxes-Kept b _ (Same-refl b.inboxes) refl refl refl refl k)
  ]
  apply-Kept (unsubscribes topic id) b after e k = elim (Option-cases (get topic b.subscribers)) [
    | inl n ↦ subst Kept (some-injective _ _ (rw (n, unsubscribe) at e)) k
    | inr (subs, h) ↦
        subst Kept (some-injective _ _ (rw (h, unsubscribe) at e))
          (boxes-Kept b _ (Same-refl b.inboxes) refl refl refl refl k)
  ]
  apply-Kept closes b after e k = close-Kept b after e k

  run-keeps : (es : List (Event P)) (b after : Bus P) → run es b ≡ some after → Kept b → Kept after
  unfolding run
  run-keeps [] b after e k = subst Kept (some-injective _ _ e) k
  run-keeps (ev ∷ es) b after e k = elim (Option-cases (apply ev b)) [
    | inl n ↦ absurd (ground (arith, n, e))
    | inr (mid, h) ↦ run-keeps es mid after (rw (h, run) at e) (apply-Kept ev b mid h k)
  ]

  -- Through every run from a new bus, each ticket of a request that was sent stands in exactly one place,
  -- once (an inbox, the running handlers or the replies), no other ticket stands anywhere, and no inbox
  -- holds more requests than its buffer.
  pub run-Kept : (n : ℕ) (es : List (Event P)) (b : Bus P) → run es (new_bus n) ≡ some b → Kept b
  unfolding new_bus
  run-Kept n es b e = run-keeps es (new_bus n) b e (record { each = λ t. ground arith; fits = tt })

-- ===== src/Bus/Delivery/Events.antt =====
-- kernel/ipc/bus.go: runs of the bus, and the places of a request.
use cyntr.Bus.Subscriptions.{subscribe, unsubscribe}
use cyntr.Bus.{
  Bus, Message, Outcome, Inbox, RequestEnvelope, ReplyEnvelope, register, send, take_request,
  end_handler, close,
}
use cyntr.Common.{
  ℕ, ◌+◌, ◌≡◌, ◌≤◌, String, List, [], ◌∷◌, Option, none, some, ◌==◌, if◌then◌else◌, ltb, length,
  All, nat_eq,
}

-- What happens at the bus, one after the other.
pub data Event (P : Type 0) : Type 0 where
  registers : String → String → Event P
  sends : String → String → Option ℕ → Message P → Event P
  takes : ℕ → Event P
  ends : ℕ → Outcome P → Event P
  subscribes : String → String → String → Event P
  unsubscribes : String → String → Event P
  closes : Event P

abbrev pub one : ℕ → ℕ → ℕ
one t i = if i == t then 1 else 0

module _ {P : Type 0} where
  unfoldable pub apply : Event P → Bus P → Option (Bus P)
  apply (registers owner topic) b = register owner topic b
  apply (sends id trace deadline m) b = some (send id trace deadline m b).0
  apply (takes i) b = some (take_request i b)
  apply (ends i o) b = some (end_handler i o b)
  apply (subscribes owner topic id) b = some (subscribe owner topic id b)
  apply (unsubscribes topic id) b = some (unsubscribe topic id b)
  apply closes b = close b

  -- A panic of the bus ends the run.
  unfoldable pub run : List (Event P) → Bus P → Option (Bus P)
  unfolding apply
  run [] b = some b
  run (e ∷ es) b = elim (apply e b) [ none ↦ none | some after ↦ run es after ]

  -- How often a ticket stands in a list of requests, in the inboxes, among the replies.
  abbrev pub waiting : ℕ → List (RequestEnvelope P) → ℕ
  waiting t [] = 0
  waiting t (r ∷ rs) = one t r.ticket + waiting t rs

  abbrev pub queued : ℕ → List (Inbox P) → ℕ
  queued t [] = 0
  queued t (b ∷ bs) = waiting t b.queue + queued t bs

  abbrev pub replied : ℕ → List (ℕ × ReplyEnvelope P) → ℕ
  replied t [] = 0
  replied t ((i, r) ∷ rest) = one t i + replied t rest

  abbrev held : ℕ → Bus P → ℕ
  held t b = queued t b.inboxes + waiting t b.running + replied t b.answered

  abbrev pub Fits : ℕ → List (Inbox P) → Type 0
  Fits n boxes = All (λ box. length box.queue ≤ n) boxes

  -- Each request that was sent stands in exactly one place, and no inbox is over its buffer.
  pub record Kept (b : Bus P) : Type 0 where
    pub each : (t : ℕ) → held t b ≡ (if ltb t b.sent then 1 else 0)
    pub fits : Fits b.buffer_size b.inboxes

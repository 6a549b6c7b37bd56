-- ===== src/Bus.antt =====
-- kernel/ipc/bus.go and types.go: requests between modules and events. Each operation that holds the lock
-- is a step, and so is each move of a goroutine: the consumer of an inbox takes a request, a handler
-- ends. What a handler answers, drawn IDs and the clock are arguments. The buffer holds at least one
-- request, as an inbox without one takes a request only while its consumer waits. Closing a closed inbox
-- panics, where the result is none.
pub mod Delivery
pub mod Subscriptions
mod Examples
use cyntr.Common.{
  ◌>>=◌, ℕ, zero, suc, ◌+◌, String, List, [], ◌∷◌, ◌++◌, Option, none, some, Bool, true, false,
  ◌==◌, string_eq, nat_eq, ltb, if◌then◌else◌, length, get_elem?, set,
}
use cyntr.Common.Dict.{Dict, get, put}

pub data MessageType : Type 0 where
  request response event : MessageType

-- The payload is a value of any type.
pub record Message (P : Type 0) : Type 0 where
  pub id : String
  pub source : String
  pub target : String
  pub kind : MessageType
  pub topic : String
  pub payload : P
  pub deadline : Option ℕ
  pub trace_id : String

pub data BusError : Type 0 where
  module_overloaded module_not_found timeout bus_closed no_handler : BusError

-- What a handler does with a message: it answers, returns an error, or panics.
pub data Outcome (P : Type 0) : Type 0 where
  answers : Message P → Outcome P
  errs panics : String → Outcome P

pub data ReplyEnvelope (P : Type 0) : Type 0 where
  message : Message P → ReplyEnvelope P
  failed handler_panicked : String → ReplyEnvelope P

-- A request's reply channel is a number: the requests are counted as they are sent.
pub record RequestEnvelope (P : Type 0) : Type 0 where
  pub msg : Message P
  pub ticket : ℕ

pub record Inbox (P : Type 0) : Type 0 where
  pub queue : List (RequestEnvelope P)
  pub closed : Bool

pub record SubscriberEntry : Type 0 where
  pub owner : String
  pub id : String

-- Inboxes are numbered in the order they are made, and stay when a handler is replaced, as their consumer
-- goes on until they are empty. `running` are the goroutines of handlers, `answered` the replies sent.
pub record Bus (P : Type 0) : Type 0 where
  pub handlers : Dict String (Dict String ℕ)
  pub inboxes : List (Inbox P)
  pub subscribers : Dict String (List SubscriberEntry)
  pub closed : Bool
  pub buffer_size : ℕ
  pub sent : ℕ
  pub running : List (RequestEnvelope P)
  pub answered : List (ℕ × ReplyEnvelope P)

abbrev pub topics_of : Option (Dict String ℕ) → Dict String ℕ
topics_of none = []
topics_of (some topics) = topics

abbrev pub or_drawn : String → String → String
or_drawn drawn id = if id == "" then drawn else id

abbrev or_deadline : Option ℕ → Option ℕ → Option ℕ
or_deadline none d = d
or_deadline (some t) d = some t

pub data Received (P : Type 0) : Type 0 where
  reply : ReplyEnvelope P → Received P
  error : BusError → Received P

module _ {P : Type 0} where
  abbrev pub close_inbox : Inbox P → Inbox P
  close_inbox b = record b { closed = true }

  abbrev pub close_found : ℕ → Option (Inbox P) → List (Inbox P) → Option (List (Inbox P))
  close_found i none boxes = none
  close_found i (some b) boxes = if b.closed then none else some (set boxes i (close_inbox b))

  abbrev pub close_at : Option ℕ → List (Inbox P) → Option (List (Inbox P))
  close_at none boxes = some boxes
  close_at (some i) boxes = close_found i (get_elem? boxes i) boxes

  abbrev pub new_inbox : Inbox P
  new_inbox = record { queue = []; closed = false }

  unfoldable pub new_bus : ℕ → Bus P
  new_bus buffer_size = record {
    handlers = [];
    inboxes = [];
    subscribers = [];
    closed = false;
    buffer_size = buffer_size;
    sent = 0;
    running = [];
    answered = [];
  }

  -- Handle: an earlier handler's inbox is closed.
  unfoldable pub register : String → String → Bus P → Option (Bus P)
  register owner topic b = do
    let topics = topics_of (get owner b.handlers)
    boxes ← close_at (get topic topics) b.inboxes
    some (record b {
      handlers = put owner (put topic (length boxes) topics) b.handlers;
      inboxes = boxes ++ (new_inbox ∷ []);
    })

  -- The message as Request sends it, with an ID, a trace and the deadline of the context.
  abbrev pub completed : String → String → Option ℕ → Message P → Message P
  completed id trace deadline m = record m {
    id = or_drawn id m.id;
    trace_id = or_drawn trace m.trace_id;
    deadline = or_deadline deadline m.deadline;
  }

  -- A send on a closed channel panics, which is recovered as the error of a closed bus.
  abbrev pub send_to : Message P → ℕ → Option (Inbox P) → Bus P → Bus P × Option BusError
  send_to m i none b = (b, some bus_closed)
  send_to m i (some box) b =
      if box.closed
      then (b, some bus_closed)
      else if ltb (length box.queue) b.buffer_size
      then (
        record b {
          inboxes =
              set b.inboxes i
                (record box { queue = box.queue ++ (record { msg = m; ticket = b.sent } ∷ []) });
          sent = b.sent + 1;
        },
        none,
      )
      else (b, some module_overloaded)

  -- Request, up to its wait; with no error the reply has the number of requests sent before.
  unfoldable pub send : String → String → Option ℕ → Message P → Bus P → Bus P × Option BusError
  send id trace deadline m b =
      if b.closed then (b, some bus_closed) else elim (get m.target b.handlers) [
        | none ↦ (b, some no_handler)
        | some topics ↦ elim (get m.topic topics) [
          | none ↦ (b, some no_handler)
          | some i ↦ send_to (completed id trace deadline m) i (get_elem? b.inboxes i) b
        ]
      ]

  abbrev pub start_first : ℕ → Inbox P → List (RequestEnvelope P) → Bus P → Bus P
  start_first i box [] b = b
  start_first i box (r ∷ rest) b = record b {
    inboxes = set b.inboxes i (record box { queue = rest });
    running = b.running ++ (r ∷ []);
  }

  abbrev pub take_from : ℕ → Option (Inbox P) → Bus P → Bus P
  take_from i none b = b
  take_from i (some box) b = start_first i box box.queue b

  -- The consumer of inbox i takes the next request and starts its handler.
  unfoldable pub take_request : ℕ → Bus P → Bus P
  take_request i b = take_from i (get_elem? b.inboxes i) b

  -- A reply goes back to where the request came from, under its ID and trace.
  abbrev pub reply_to : Message P → Outcome P → ReplyEnvelope P
  reply_to m (errs e) = failed e
  reply_to m (panics e) = handler_panicked e
  reply_to m (answers r) =
      message (record r { id = m.id; source = m.target; target = m.source; trace_id = m.trace_id })

  unfoldable pub remove_at : ℕ → List (RequestEnvelope P) → List (RequestEnvelope P)
  remove_at i [] = []
  remove_at zero (r ∷ rs) = rs
  remove_at (suc i) (r ∷ rs) = r ∷ remove_at i rs

  abbrev pub end_running : ℕ → Outcome P → Option (RequestEnvelope P) → Bus P → Bus P
  end_running i o none b = b
  end_running i o (some r) b = record b {
    running = remove_at i b.running;
    answered = b.answered ++ ((r.ticket, reply_to r.msg o) ∷ []);
  }

  -- The i-th running handler ends.
  unfoldable pub end_handler : ℕ → Outcome P → Bus P → Bus P
  unfolding remove_at
  end_handler i o b = end_running i o (get_elem? b.running i) b

  unfoldable pub find_reply : ℕ → List (ℕ × ReplyEnvelope P) → Option (ReplyEnvelope P)
  find_reply t [] = none
  find_reply t ((ticket, r) ∷ rest) = if ticket == t then some r else find_reply t rest

  -- The end of Request's wait: a reply that is there, or the end of the context. Where both are there, Go
  -- chooses, which `first` stands for; none is to wait on.
  unfoldable pub receive : ℕ → Bool → Bool → Bus P → Option (Received P)
  unfolding find_reply
  receive t done first b = elim (find_reply t b.answered) [
    | none ↦ if done then some (error timeout) else none
    | some r ↦
        if done then (if first then some (reply r) else some (error timeout)) else some (reply r)
  ]

  unfoldable pub close_topics : List (String × ℕ) → List (Inbox P) → Option (List (Inbox P))
  close_topics [] boxes = some boxes
  close_topics ((topic, i) ∷ rest) boxes = do left ← close_at (some i) boxes; close_topics rest left

  unfoldable pub close_all :
      List (String × Dict String ℕ) → List (Inbox P) → Option (List (Inbox P))
  unfolding close_topics
  close_all [] boxes = some boxes
  close_all ((owner, topics) ∷ rest) boxes = do
    left ← close_topics topics boxes
    close_all rest left

  unfoldable pub close : Bus P → Option (Bus P)
  unfolding close_all
  close b = if b.closed then some b else do
    boxes ← close_all b.handlers b.inboxes
    some (record b { closed = true; inboxes = boxes })

-- ===== src/Bus/Subscriptions.antt =====
-- kernel/ipc/bus.go: events and who is called for them. The deliveries are the list of the subscribers.
use cyntr.Common.{
  String, List, [], ◌∷◌, ◌++◌, Option, none, some, ◌==◌, string_eq, nat_eq, if◌then◌else◌,
}
use cyntr.Common.Dict.{Dict, get, put}
use cyntr.Bus.{Bus, Message, SubscriberEntry, or_drawn}

-- The first entry whose ID it is, taken out.
unfoldable without_first : String → List SubscriberEntry → List SubscriberEntry
without_first id [] = []
without_first id (s ∷ ss) = let rest = s ∷ without_first id ss in if s.id == id then ss else rest

unfoldable subscribers_of : String → Dict String (List SubscriberEntry) → List SubscriberEntry
subscribers_of topic m = elim (get topic m) [ none ↦ [] | some subs ↦ subs ]

module _ {P : Type 0} where
  -- Subscribe; a closed bus takes no subscription.
  unfoldable pub subscribe : String → String → String → Bus P → Bus P
  unfolding subscribers_of
  subscribe owner topic id b = if b.closed then b else record b {
    subscribers =
        put topic (subscribers_of topic b.subscribers ++ (record { owner = owner; id = id } ∷ []))
          b.subscribers;
  }

  unfoldable pub unsubscribe : String → String → Bus P → Bus P
  unfolding subscribers_of without_first
  unsubscribe topic id b = elim (get topic b.subscribers) [
    | none ↦ b
    | some subs ↦ record b { subscribers = put topic (without_first id subs) b.subscribers }
  ]

  -- Publish: the subscribers that are called, each in a goroutine of its own, with the message; none is
  -- the error of a closed bus.
  unfoldable pub publish : String → Message P → Bus P → Option (List SubscriberEntry × Message P)
  unfolding subscribers_of
  publish id m b =
      if b.closed
      then none
      else some (subscribers_of m.topic b.subscribers, record m { id = or_drawn id m.id })

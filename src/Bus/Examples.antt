-- ===== src/Bus/Examples.antt =====
-- kernel/ipc/bus.go on concrete requests.
use cyntr.Bus.Subscriptions.{subscribe}
use cyntr.Bus.{
  Bus, Message, answers, RequestEnvelope, new_bus, request, message, receive, reply, end_handler,
}
use cyntr.Bus.Delivery.Events.{Event, registers, sends, takes, subscribes, closes, run, Kept}
use cyntr.Bus.Delivery.Kept.{run-Kept}
use cyntr.Bus.Delivery.Replies.{end_handler-receive}
use cyntr.Common.Dict.{get, put}
use cyntr.Bus.{register, close, send, take_request}
use cyntr.Common.{ℕ, ◌≡◌, refl, List, [], ◌∷◌, some, none, true, false, Option}

abbrev asked : Message ℕ
asked = record {
  id = "";
  source = "proxy";
  target = "policy";
  kind = request;
  topic = "policy.check";
  payload = 1;
  deadline = none;
  trace_id = "t1";
}

-- Three requests for a buffer of two, one of which is taken.
abbrev filled : List (Event ℕ)
filled =
    registers "policy" "policy.check"
    ∷ subscribes "audit" "policy.reload" "s1"
    ∷ sends "r1" "t9" none asked
    ∷ takes 0
    ∷ sends "r2" "t9" (some 50) asked
    ∷ sends "r3" "t9" none asked
    ∷ sends "r4" "t9" none asked
    ∷ []

abbrev or_new : Option (Bus ℕ) → Bus ℕ
or_new none = new_bus 2
or_new (some b) = b

abbrev after_filled : Bus ℕ
unfolding run new_bus
after_filled = or_new (run filled (new_bus 2))

run-Kept_example : Kept after_filled
unfolding run new_bus register get send take_request subscribe put
run-Kept_example = run-Kept 2 filled after_filled refl

abbrev first_request : RequestEnvelope ℕ
first_request = record { msg = record asked { id = "r1" }; ticket = 0 }

-- The handler that runs has answered, another is started and the bus is closed.
abbrev ended_later : Bus ℕ
unfolding run new_bus
ended_later = or_new (
    run (takes 0 ∷ closes ∷ [])
      (end_handler 0 (answers (record asked { payload = 7 })) after_filled))

end_handler-receive_example :
    receive 0 false true ended_later
    ≡ some (
        reply
          (message (record asked { id = "r1"; source = "policy"; target = "proxy"; payload = 7 })))
unfolding run new_bus register get send take_request subscribe put end_handler close
end_handler-receive_example =
    end_handler-receive 2 filled (takes 0 ∷ closes ∷ []) after_filled ended_later 0 first_request
      (answers (record asked { payload = 7 })) true refl refl refl

-- The fourth request finds the buffer full.
after_filled-sent : after_filled.sent ≡ 3
unfolding run new_bus register get send take_request subscribe put
after_filled-sent = refl

-- A handler is registered anew on a bus that was closed.
register-close :
    run (registers "m" "t" ∷ closes ∷ registers "m" "t" ∷ []) (new_bus {P = ℕ} 2) ≡ none
unfolding run new_bus register get close put
register-close = refl

-- ===== src/Channel/Examples.antt =====
-- Concrete runs of the pairing of senders.
use cyntr.Common.{
  ℕ, String, ◌≡◌, refl, Bool, true, false, List, [], ◌∷◌, Option, some, string_eq, arith, str_iff,
  any,
}
use cyntr.Common.Text.{trim_space}
use cyntr.Common.Dict.{get}
use cyntr.Channel.Pairing.{
  Sender, PairingStore, Gate, no_reply, your_code_is, has_sender, is_paired, issue_code,
  approve_code, check, policy_for, allowed, find_code,
}
use cyntr.Channel.Pairing.Approved.{Event, issued, user_approved, code_approved, run, run-spares}
use cyntr.Channel.Pairing.Flow.{check-approve_code-check}

abbrev stranger : Sender
stranger = record { tenant = "acme"; channel = "slack"; user_id = "u1" }

abbrev other : Sender
other = record { tenant = "globex"; channel = "slack"; user_id = "u1" }

abbrev store : PairingStore
store = record { paired = []; pending = [] }

abbrev gate : Gate
gate = record { store = some store; default_policy = "pairing"; policies = []; allow_from = [] }

abbrev calls : List Event
calls =
    issued (some "ABCDEF") 5 true stranger
    ∷ user_approved true true other
    ∷ code_approved true true "globex" "slack" "ABCDEF"
    ∷ []

run-spares_example : is_paired true stranger (run store calls) ≡ is_paired true stranger store
run-spares_example = run-spares stranger store calls true (
  (λ b. b),
  (
    (λ e. absurd (ground arith)),
    ((λ e. absurd (ground (arith, (str_iff "acme" "globex").1 e.0))), tt),
  ),
)

check-approve_code-check_example :
    let asked = check (some "ABCDEF") 5 true true stranger gate in
    let waiting = issue_code (some "ABCDEF") 5 true stranger store in
    let approved = approve_code true true "acme" "slack" "ABCDEF" waiting.0 in
    (asked ≡ (record gate { store = some waiting.0 }, false, your_code_is "ABCDEF"))
    × (approved.1 ≡ some "u1")
    × ((drawn : Option String) (later : ℕ) (ok : Bool)
        → check drawn later true ok stranger (record gate { store = some approved.0 })
          ≡ (record gate { store = some approved.0 }, true, no_reply))
unfolding is_paired has_sender policy_for allowed find_code trim_space any get
check-approve_code-check_example =
    check-approve_code-check "ABCDEF" 5 true stranger store gate refl refl refl refl refl refl

abbrev letters : List ℕ
letters = 65 ∷ 65 ∷ 66 ∷ 74 ∷ 57 ∷ 65 ∷ []

-- ===== src/Node/Examples.antt =====
-- Concrete connections of a companion device.
use cyntr.Common.{◌≡◌, refl, true, [], ◌∷◌, some, string_eq, All, inl, inr, select, any}
use cyntr.Common.Text.{trim_space}
use cyntr.Node.Protocol.{Frame, empty_frame, negotiate_capabilities}
use cyntr.Node.Pairing.{
  NodeStore, Waiting, Pairing, Answers, redeem, issue_code, find_pending, split_caps,
}
use cyntr.Node.Pairing.Redeem.{issue_code-redeem}
use cyntr.Node.Server.{Server, Session, handle}
use cyntr.Node.Server.Granted.{IsOwn, IsIssued, handle-Owns}

abbrev waiting : Waiting
waiting = record {
  code = "K7";
  tenant = "acme";
  node = "phone";
  capabilities = "voice";
  created_at = 1;
}

abbrev store : NodeStore
store = record { pending = waiting ∷ []; pairings = [] }

abbrev works : Answers
works = record { reads = true; stores = true; deletes = true }

abbrev pairing : Pairing
pairing = record { tenant = "acme"; node = "phone"; allowed_caps = "voice" ∷ [] }

issue_code-redeem_example :
    (redeem works 9 "M2"
      (issue_code "M2" 4 true "globex" "tablet" ("voice" ∷ "canvas" ∷ []) store).0).1
    ≡ some (record { tenant = "globex"; node = "tablet"; allowed_caps = "voice" ∷ "canvas" ∷ [] })
unfolding find_pending trim_space
issue_code-redeem_example =
    issue_code-redeem works 4 9 "M2" "globex" "tablet" ("voice" ∷ "canvas" ∷ []) store refl refl
      refl refl refl refl refl (inl refl, (inr (inl refl), tt))

abbrev pair_frame : Frame
pair_frame = record empty_frame {
  kind = "pair";
  code = "K7";
  capabilities = "voice" ∷ "canvas" ∷ [];
}

abbrev canvas_frame : Frame
canvas_frame = record empty_frame { kind = "canvas"; tenant = "globex" }

abbrev server : Server
server = record { store = store; audited = true; log = []; sessions = [] }

abbrev session : Session
session = record { tenant = "acme"; node = "phone"; id = "ns_Q8"; capabilities = "voice" ∷ [] }

handle-Owns_example :
    All (IsOwn session) (handle works 5 "Q8" true (pair_frame ∷ canvas_frame ∷ []) server).written
    × IsIssued "K7" store session
unfolding handle redeem find_pending trim_space split_caps negotiate_capabilities select any
handle-Owns_example =
    handle-Owns works 5 "Q8" true pair_frame (canvas_frame ∷ []) server session refl

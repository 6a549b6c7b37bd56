-- ===== src/Node/Protocol.antt =====
-- modules/node/protocol.go: the frames and the negotiation of capabilities.
use cyntr.Common.{inr}
use cyntr.Common.{
  String, ◌≡◌, Bool, true, ◌&&◌, List, [], ◌∷◌, Option, none, some, ◌==◌, ◌!=◌, if◌then◌else◌,
  string_eq, any, select, In, In-select, str_iff, arith,
}
use cyntr.Common.{Bool-cases}
use cyntr.Common.{inl}
use cyntr.Common.{sym}

-- Messages of error frames; the second wording quotes the type that came.
pub data Message : Type 0 where
  text : String → Message
  expected_pair_got : String → Message

-- The fields that the server reads or writes; the payloads of voice and canvas frames are not read.
pub record Frame : Type 0 where
  pub kind : String
  pub code : String
  pub node : String
  pub capabilities : List String
  pub tenant : String
  pub session : String
  pub error_code : String
  pub message : Message
  pub ref : String

abbrev pub empty_frame : Frame
empty_frame = record {
  kind = "";
  code = "";
  node = "";
  capabilities = [];
  tenant = "";
  session = "";
  error_code = "";
  message = text "";
  ref = "";
}

abbrev pub all_capabilities : List String
all_capabilities = "voice" ∷ "canvas" ∷ "camera" ∷ "screen" ∷ []

unfoldable pub valid_capability : String → Bool
valid_capability c = any (λ k. k == c) all_capabilities

-- The maps of the source are sets; a key is in one where the list it is filled from has it.
unfoldable pub negotiate_capabilities : List String → List String → List String
unfolding valid_capability
negotiate_capabilities offered allowed =
    select (λ c. any (λ o. o == c) (select valid_capability offered) && any (λ a. a == c) allowed)
      all_capabilities

unfoldable pub err_frame : String → Message → Frame
err_frame code msg = record empty_frame { kind = "error"; error_code = code; message = msg }

-- none where the frame is sound, else the error.
unfoldable pub validate_pair_frame : Frame → Option Message
validate_pair_frame f =
    if f.kind != "pair"
    then some (expected_pair_got f.kind)
    else if f.code == ""
    then some (text "pairing code is required")
    else none

pub any-In : (c : String) (cs : List String) → any (λ k. k == c) cs ≡ true → In c cs
unfolding any
any-In c [] e = absurd cc
any-In c (k ∷ cs) e = elim (Bool-cases (k == c)) [
  | inl y ↦ inl (sym ((str_iff k c).0 y))
  | inr n ↦ inr (any-In c cs (rw n at e))
]

-- What is negotiated was offered by the device, allowed by its pairing, and is a known capability.
pub negotiate_capabilities-In :
    (offered allowed : List String) (c : String)
    → In c (negotiate_capabilities offered allowed)
    → In c offered × In c allowed × In c all_capabilities
unfolding negotiate_capabilities
negotiate_capabilities-In offered allowed c i =
    let (known, t) =
      In-select
        (λ c. any (λ o. o == c) (select valid_capability offered) && any (λ a. a == c) allowed) c
        all_capabilities i in
    (
      (In-select valid_capability c offered (any-In c _ (ground arith))).0,
      any-In c allowed (ground arith),
      known,
    )

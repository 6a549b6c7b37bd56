-- ===== src/Node/Server.antt =====
-- modules/node/pairing.go: the server's side of one connection. The frames that the device sends are
-- a list, and reading fails at its end; the frames that the server writes are the result.
pub mod Granted
use cyntr.Common.{
  ℕ, String, Bool, true, false, List, [], ◌∷◌, ◌++◌, Option, none, some, ◌==◌, ◌!=◌, if◌then◌else◌,
  string_eq, any, ◌||◌,
}
use cyntr.Common.Dict.{Dict, put, remove}
use cyntr.Node.Protocol.{
  Frame, Message, text, empty_frame, err_frame, validate_pair_frame, negotiate_capabilities,
}
use cyntr.Node.Pairing.{NodeStore, Pairing, Answers, redeem, append_text}

pub record Session : Type 0 where
  pub tenant : String
  pub node : String
  pub id : String
  pub capabilities : List String

unfoldable pub has_cap : String → Session → Bool
has_cap c sess = any (λ k. k == c) sess.capabilities

-- An entry of the audit log: `kind` is the action's type.
pub record Entry : Type 0 where
  pub tenant : String
  pub node : String
  pub kind : String
  pub status : String

pub record Server : Type 0 where
  pub store : NodeStore
  pub audited : Bool
  pub log : List Entry
  pub sessions : Dict String Session

unfoldable pub new_server : NodeStore → Bool → Server
new_server store audited = record { store = store; audited = audited; log = []; sessions = [] }

unfoldable pub add_session : Session → Server → Server
add_session sess srv = record srv { sessions = put sess.id sess srv.sessions }

unfoldable pub remove_session : String → Server → Server
remove_session id srv = record srv { sessions = remove id srv.sessions }

abbrev pub emit : Entry → Server → Server
emit entry srv = record srv { log = if srv.audited then srv.log ++ (entry ∷ []) else srv.log }

unfoldable pub emit_auth : String → String → String → String → Server → Server
emit_auth tenant node kind status srv =
    emit (record { tenant = tenant; node = node; kind = kind; status = status }) srv

unfoldable pub emit_negotiation : Session → Server → Server
emit_negotiation sess srv =
    emit
      (record {
        tenant = sess.tenant;
        node = sess.node;
        kind = "node_capabilities";
        status = "negotiated";
      })
      srv

-- dispatch: the frames written, and whether the connection goes on.
unfoldable pub dispatch : Session → Frame → List Frame × Bool
unfolding has_cap err_frame
dispatch sess f =
    if f.kind == "ping"
    then (record empty_frame { kind = "pong" } ∷ [], true)
    else if f.kind == "voice"
    then (if has_cap "voice" sess
        then (
          record empty_frame {
            kind = "ack";
            ref = "voice";
            tenant = sess.tenant;
            session = sess.id;
          }
              ∷ [],
          true,
        )
        else (err_frame "NOT_NEGOTIATED" (text "voice capability not negotiated") ∷ [], true))
    else if f.kind == "canvas"
    then (if has_cap "canvas" sess
        then (
          record empty_frame {
            kind = "ack";
            ref = "canvas";
            tenant = sess.tenant;
            session = sess.id;
          }
              ∷ [],
          true,
        )
        else (err_frame "NOT_NEGOTIATED" (text "canvas capability not negotiated") ∷ [], true))
    else if f.kind == "pair" || f.kind == "hello"
    then (err_frame "PROTOCOL" (text "already paired") ∷ [], true)
    else (err_frame "PROTOCOL" (text (append_text "unknown frame type: " f.kind)) ∷ [], true)

-- The message loop, to the first read that fails.
unfoldable pub converse : Session → List Frame → List Frame
unfolding dispatch
converse sess [] = []
converse sess (f ∷ fs) =
    let (out, more) = dispatch sess f in
    let rest = converse sess fs in if more then out ++ rest else out

-- What a connection leaves: the server, the frames written and the session it established.
pub record Served : Type 0 where
  pub server : Server
  pub written : List Frame
  pub session : Option Session

abbrev pub closed : Server → List Frame → Served
closed srv out = record { server = srv; written = out; session = none }

unfoldable pub session_of : String → Pairing → List String → Session
unfolding negotiate_capabilities
session_of drawn pairing offered = record {
  tenant = pairing.tenant;
  node = pairing.node;
  id = append_text "ns_" drawn;
  capabilities = negotiate_capabilities offered pairing.allowed_caps;
}

unfoldable pub welcome : Session → Frame
welcome sess = record empty_frame {
  kind = "welcome";
  tenant = sess.tenant;
  session = sess.id;
  capabilities = sess.capabilities;
}

-- From the session's entry to the end. `welcomed` says whether the welcome frame could be written.
unfoldable pub established : Bool → Session → List Frame → Server → Served
unfolding add_session remove_session emit_negotiation converse welcome
established welcomed sess fs srv = record {
  server =
      remove_session sess.id
        (if welcomed then emit_negotiation sess (add_session sess srv) else add_session sess srv);
  written = welcome sess ∷ (if welcomed then converse sess fs else []);
  session = some sess;
}

-- The capabilities come on the pair frame, or else on a hello frame that follows.
abbrev pub greeted : String → Bool → Pairing → List String → List Frame → Server → Served
greeted drawn welcomed pairing (c ∷ cs) fs srv =
    established welcomed (session_of drawn pairing (c ∷ cs)) fs srv
greeted drawn welcomed pairing [] [] srv = closed srv []
greeted drawn welcomed pairing [] (hello ∷ fs) srv =
    if hello.kind != "hello"
    then closed srv (err_frame "PROTOCOL" (text "expected hello frame after pairing") ∷ [])
    else established welcomed (session_of drawn pairing hello.capabilities) fs srv

abbrev pub redeemed :
    String → Bool → Frame → List Frame → Server → NodeStore × Option Pairing → Served
redeemed drawn welcomed first fs srv (store, none) =
    closed (emit_auth "" first.node "node_pair" "rejected" (record srv { store = store }))
      (err_frame "BAD_PAIRING" (text "pairing failed") ∷ [])
redeemed drawn welcomed first fs srv (store, some p) =
    greeted drawn welcomed p first.capabilities fs
      (emit_auth p.tenant p.node "node_pair" "success" (record srv { store = store }))

abbrev pub validated :
    Answers → ℕ → String → Bool → Frame → List Frame → Server → Option Message → Served
validated db now drawn welcomed first fs srv (some msg) = closed srv (err_frame "PROTOCOL" msg ∷ [])
validated db now drawn welcomed first fs srv none =
    redeemed drawn welcomed first fs srv (redeem db now first.code srv.store)

-- handle: the whole connection. `drawn` is the random part of the session's name.
unfoldable pub handle : Answers → ℕ → String → Bool → List Frame → Server → Served
unfolding validate_pair_frame established emit_auth session_of
handle db now drawn welcomed [] srv = closed srv []
handle db now drawn welcomed (first ∷ fs) srv =
    validated db now drawn welcomed first fs srv (validate_pair_frame first)

-- ===== src/Node/Server/Granted.antt =====
-- modules/node/pairing.go: what a device can get out of a connection.
use mathlib.Core.Option.{some-injective}
use cyntr.Common.{
  ℕ, String, ◌≡◌, refl, sym, ap, Bool, true, false, List, [], ◌∷◌, Option, none, some, ◌==◌,
  string_eq, arith, Bool-cases, inl, inr, In, All, All-append, ◌⊎◌, str_iff,
}
use cyntr.Common.Text.{trim_space}
use cyntr.Node.Protocol.{
  Frame, Message, negotiate_capabilities-In, err_frame, validate_pair_frame, any-In,
}
use cyntr.Node.Pairing.{NodeStore, Pairing, Waiting, Answers, redeem, find_pending, split_caps}
use cyntr.Node.Pairing.Redeem.{redeem-row, pairing_of}
use cyntr.Node.Server.{
  Session, Server, Served, dispatch, converse, handle, established, greeted, redeemed, validated,
  has_cap, session_of, welcome,
}
use cyntr.Common.{◌||◌}
use cyntr.Common.{◌!=◌}
use cyntr.Common.{subst}

-- A frame to the device names no tenant but that of the session, and acknowledges a frame only of a
-- capability of the session.
abbrev pub IsOwn : Session → Frame → Type 0
IsOwn sess f =
    ((f.tenant ≡ "") ⊎ (f.tenant ≡ sess.tenant)) × (f.kind ≡ "ack" → In f.ref sess.capabilities)

abbrev pub IsWelcome : Session → Frame → Type 0
IsWelcome sess f = (f.tenant ≡ sess.tenant) × (f.capabilities ≡ sess.capabilities)

not_ack : (k : String) → (k == "ack") ≡ false → {A : Type 0} → k ≡ "ack" → A
not_ack k n e = absurd (ground (arith, (str_iff k "ack").1 e))

cap-In : (c : String) (sess : Session) → has_cap c sess ≡ true → In c sess.capabilities
unfolding has_cap
cap-In c sess h = any-In c sess.capabilities h

dispatch-IsOwn : (sess : Session) (f : Frame) → All (IsOwn sess) (dispatch sess f).0
unfolding dispatch err_frame
dispatch-IsOwn sess f = elim (Bool-cases (f.kind == "ping")) [
  | inl y ↦ rw y ((inl refl, not_ack "pong" refl), tt)
  | inr n ↦ rw n (elim (Bool-cases (f.kind == "voice")) [
    | inl y ↦ rw y (elim (Bool-cases (has_cap "voice" sess)) [
      | inl h ↦ rw h ((inr refl, λ e. cap-In "voice" sess h), tt)
      | inr h ↦ rw h ((inl refl, not_ack "error" refl), tt)
    ])
    | inr m ↦ rw m (elim (Bool-cases (f.kind == "canvas")) [
      | inl y ↦ rw y (elim (Bool-cases (has_cap "canvas" sess)) [
        | inl h ↦ rw h ((inr refl, λ e. cap-In "canvas" sess h), tt)
        | inr h ↦ rw h ((inl refl, not_ack "error" refl), tt)
      ])
      | inr k ↦ rw k (elim (Bool-cases (f.kind == "pair" || f.kind == "hello")) [
        | inl y ↦ rw y ((inl refl, not_ack "error" refl), tt)
        | inr h ↦ rw h ((inl refl, not_ack "error" refl), tt)
      ])
    ])
  ])
]

converse-IsOwn : (sess : Session) (fs : List Frame) → All (IsOwn sess) (converse sess fs)
unfolding converse
converse-IsOwn sess [] = tt
converse-IsOwn sess (f ∷ fs) = elim (Bool-cases (dispatch sess f).1) [
  | inl y ↦ rw y (
      All-append (IsOwn sess) (dispatch sess f).0 (converse sess fs) (dispatch-IsOwn sess f)
        (converse-IsOwn sess fs))
  | inr n ↦ rw n (dispatch-IsOwn sess f)
]

-- What a session has from the waiting row of its code: the tenant, the node and, of the row's
-- capabilities, some.
abbrev pub IsFrom : Waiting → Session → Type 0
IsFrom w sess =
    (sess.tenant ≡ w.tenant)
    × (sess.node ≡ w.node)
    × ((c : String) → In c sess.capabilities → In c (split_caps w.capabilities))

session_of-IsFrom :
    (drawn : String) (w : Waiting) (p : Pairing) (offered : List String)
    → pairing_of w ≡ p
    → IsFrom w (session_of drawn p offered)
unfolding session_of
session_of-IsFrom drawn w p offered e = (
  sym (ap (λ q. q.tenant) e),
  sym (ap (λ q. q.node) e),
  λ c i.
      subst (λ cs. In c cs) (sym (ap (λ q. q.allowed_caps) e))
        (negotiate_capabilities-In offered p.allowed_caps c i).1,
)

established-IsOwn :
    (welcomed : Bool) (sess : Session) (fs : List Frame) (srv : Server)
    → All (IsOwn sess) (established welcomed sess fs srv).written
unfolding established welcome
established-IsOwn true sess fs srv = ((inr refl, not_ack "welcome" refl), converse-IsOwn sess fs)
established-IsOwn false sess fs srv = ((inr refl, not_ack "welcome" refl), tt)

-- The session of a connection, where it has one, owns all it wrote and has the property.
abbrev Owns : (Session → Type 0) → Served → Type 0
Owns P r = (s : Session) → r.session ≡ some s → All (IsOwn s) r.written × P s

established-Owns :
    (P : Session → Type 0) (welcomed : Bool) (sess : Session) (fs : List Frame) (srv : Server)
    → P sess
    → Owns P (established welcomed sess fs srv)
unfolding established
established-Owns P welcomed sess fs srv h s e =
    subst (λ t. All (IsOwn t) (established welcomed sess fs srv).written × P t)
      (some-injective _ _ e) (established-IsOwn welcomed sess fs srv, h)

greeted-Owns :
    (P : Session → Type 0) (drawn : String) (welcomed : Bool) (p : Pairing) (offered : List String)
    (fs : List Frame) (srv : Server)
    → ((cs : List String) → P (session_of drawn p cs))
    → Owns P (greeted drawn welcomed p offered fs srv)
greeted-Owns P drawn welcomed p (c ∷ cs) fs srv h =
    established-Owns P welcomed (session_of drawn p (c ∷ cs)) fs srv (h (c ∷ cs))
greeted-Owns P drawn welcomed p [] [] srv h = λ s e. absurd cc
greeted-Owns P drawn welcomed p [] (hello ∷ fs) srv h = elim (Bool-cases (hello.kind != "hello")) [
  | inl y ↦ rw y (λ s e. absurd cc)
  | inr n ↦ rw n (
      established-Owns P welcomed (session_of drawn p hello.capabilities) fs srv
        (h hello.capabilities))
]

-- The session comes from a row that waited under the first frame's code.
abbrev pub IsIssued : String → NodeStore → Session → Type 0
IsIssued code store sess =
    (w : Waiting) × ((find_pending (trim_space code) store.pending ≡ some w) × IsFrom w sess)

redeemed-Owns :
    (drawn : String) (welcomed : Bool) (first : Frame) (fs : List Frame) (srv : Server)
    (r : NodeStore × Option Pairing)
    → ((p : Pairing)
        → r.1 ≡ some p
        → (w : Waiting) × ((find_pending (trim_space first.code) srv.store.pending ≡ some w)
            × (pairing_of w ≡ p)))
    → Owns (IsIssued first.code srv.store) (redeemed drawn welcomed first fs srv r)
redeemed-Owns drawn welcomed first fs srv (store, none) h = λ s e. absurd cc
redeemed-Owns drawn welcomed first fs srv (store, some p) h =
    let (w, (found, e)) = h p refl in
    greeted-Owns (IsIssued first.code srv.store) drawn welcomed p first.capabilities fs _
      (λ cs. (w, (found, session_of-IsFrom drawn w p cs e)))

validated-Owns :
    (db : Answers) (now : ℕ) (drawn : String) (welcomed : Bool) (first : Frame) (fs : List Frame)
    (srv : Server) (o : Option Message)
    → Owns (IsIssued first.code srv.store) (validated db now drawn welcomed first fs srv o)
validated-Owns db now drawn welcomed first fs srv (some msg) = λ s e. absurd cc
validated-Owns db now drawn welcomed first fs srv none =
    redeemed-Owns drawn welcomed first fs srv (redeem db now first.code srv.store)
      (redeem-row db now first.code srv.store)

-- A connection that establishes a session has it from a row that waited under the code of its first
-- frame: that row's tenant and node, and no capability beyond that row's. Whatever the device sends
-- after, each frame that it is sent names that tenant or none, and acknowledges no frame but of a
-- capability of the session.
pub handle-Owns :
    (db : Answers) (now : ℕ) (drawn : String) (welcomed : Bool) (first : Frame) (fs : List Frame)
    (srv : Server) (s : Session)
    → (handle db now drawn welcomed (first ∷ fs) srv).session ≡ some s
    → All (IsOwn s) (handle db now drawn welcomed (first ∷ fs) srv).written
      × IsIssued first.code srv.store s
unfolding handle
handle-Owns db now drawn welcomed first fs srv s e =
    validated-Owns db now drawn welcomed first fs srv (validate_pair_frame first) s e

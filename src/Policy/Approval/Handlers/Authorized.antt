-- ===== src/Policy/Approval/Handlers/Authorized.antt =====
-- Who can make the handlers approve or deny a request.
use cyntr.Common.{
  ℕ, String, ◌≡◌, ◌≢◌, refl, sym, ap, ◌∙◌, ◌⊎◌, inl, inr, Option, none, some, string_eq, Bool, true,
  false, ◌==◌, if◌then◌else◌, not, str_iff, arith, Bool-cases, Option-cases,
}
use cyntr.Common.Dict.{Dict, get, get-put, get-range, IsDistinct, through, put-IsDistinct}
use cyntr.Policy.Approval.{
  ApprovalRequest, ApprovalQueue, ApprovalStatus, ApprovalError, approved, denied, approve,
  deny_request, list_pending, submit, sweep, sweep_request, is_pending, insert_new, id_or,
}
use cyntr.Policy.Approval.Handlers.{
  Reply, decided, text, unknown, approve_params, deny_params, submit_params, get_text, approved_ok,
  denied_ok, is_status_source, Topic, approval_submit, approval_list, approval_approve,
  approval_deny, approval_get, Moment, Message, Payload, params, handle, is_decision_source, param,
  request_of, not_authorized,
}
use cyntr.Common.Dict.{put}

-- The two verdicts that a person gives.
abbrev pub is_verdict : ApprovalStatus → Bool
is_verdict approved = true
is_verdict denied = true
is_verdict _ = false

-- A verdict of `after` that `before` did not hold comes from `by`.
abbrev pub VerdictsFrom : String → ApprovalQueue → ApprovalQueue → Type 0
VerdictsFrom by before after =
    (id : String) (r : ApprovalRequest)
    → get id after.requests ≡ some r
    → is_verdict r.status ≡ true
    → (get id before.requests ≡ some r) ⊎ (r.decided_by ≡ by)

sweep-verdict :
    (retain now : ℕ) (r : ApprovalRequest) (o : Option ApprovalRequest)
    → through (sweep_request retain now) o ≡ some r
    → is_verdict r.status ≡ true
    → o ≡ some r
unfolding sweep_request
sweep-verdict retain now r none h v = cc
sweep-verdict retain now r (some s) h v = ground arith

-- A sweep gives no verdict.
sweep-VerdictsFrom :
    (now : ℕ) (q : ApprovalQueue)
    → IsDistinct q.requests
    → (id : String) (r : ApprovalRequest) → get id (sweep now q).requests ≡ some r
    → is_verdict r.status ≡ true
    → get id q.requests ≡ some r
unfolding sweep
sweep-VerdictsFrom now q d id r h v =
    sweep-verdict q.retain now r (get id q.requests)
      (sym (get-range (sweep_request q.retain now) id q.requests d) ∙ h) v

put-verdict :
    (j id : String) (s r : ApprovalRequest) (q : ApprovalQueue)
    → get id (put j s q.requests) ≡ some r
    → (get id q.requests ≡ some r) ⊎ (s ≡ r)
put-verdict j id s r q h = ground (arith, get-put j id s q.requests)

approve-VerdictsFrom :
    (j by : String) (now decided : ℕ) (q : ApprovalQueue)
    → VerdictsFrom by q (approve j by now decided q).0
unfolding approve
approve-VerdictsFrom j by now decided q id r h v = elim (Option-cases (get j q.requests)) [
  | inl n ↦ inl (rw (n, approve) at h)
  | inr s ↦ elim (Bool-cases (is_pending s.0.status)) [
    | inl p ↦ grind (arith, put-verdict, s.1, p)
    | inr f ↦ inl (rw f at (rw (s.1, approve) at h))
  ]
]

deny-VerdictsFrom :
    (j by : String) (decided : ℕ) (q : ApprovalQueue)
    → VerdictsFrom by q (deny_request j by decided q).0
unfolding deny_request
deny-VerdictsFrom j by decided q id r h v = elim (Option-cases (get j q.requests)) [
  | inl n ↦ inl (rw (n, deny_request) at h)
  | inr s ↦ elim (Bool-cases (is_pending s.0.status)) [
    | inl p ↦ grind (arith, put-verdict, s.1, p)
    | inr f ↦ inl (rw f at (rw (s.1, deny_request) at h))
  ]
]

decided-state :
    (ok : Reply) (out : ApprovalQueue × Option ApprovalError) → (decided ok out).0 ≡ out.0
decided-state ok (q, none) = refl
decided-state ok (q, some e) = refl

-- A new verdict is attributed, and its message came from a decision source.
abbrev pub Attributed : Message → ApprovalQueue → ApprovalQueue → Type 0
Attributed msg before after =
    (id : String) (r : ApprovalRequest)
    → get id after.requests ≡ some r
    → is_verdict r.status ≡ true
    → (get id before.requests ≡ some r)
      ⊎ ((is_decision_source msg.source ≡ true) × (r.decided_by ≢ ""))

attribute :
    (msg : Message) (by : String) (q q' : ApprovalQueue)
    → is_decision_source msg.source ≡ true
    → by ≢ ""
    → VerdictsFrom by q q'
    → Attributed msg q q'
attribute msg by q q' s ne h id r g v = elim (h id r g v) [
  | inl old ↦ inl old
  | inr e ↦ inr (s, λ x. ne (sym e ∙ x))
]

unchanged : (msg : Message) (q q' : ApprovalQueue) → q' ≡ q → Attributed msg q q'
unchanged msg q q' e id r g v = inl (rw e at g)

beq-ne : (by : String) → (by == "") ≡ false → by ≢ ""
beq-ne by f e = cc ((str_iff by "").1 e)

approve-Attributed :
    (t : Moment) (msg : Message) (q : ApprovalQueue) (p : Payload)
    → is_decision_source msg.source ≡ true
    → Attributed msg q (approve_params t p q).0
approve-Attributed t msg q (params m) s = elim (Bool-cases (param "decided_by" m == "")) [
  | inl e ↦ unchanged msg q (approve_params t (params m) q).0 (rw e)
  | inr f ↦ rw f (
      rw
        (decided-state approved_ok
          (approve (param "id" m) (param "decided_by" m) t.first t.second q))
        (attribute msg (param "decided_by" m) q
          (approve (param "id" m) (param "decided_by" m) t.first t.second q).0 s
          (beq-ne (param "decided_by" m) f)
          (approve-VerdictsFrom (param "id" m) (param "decided_by" m) t.first t.second q)))
]
approve-Attributed t msg q (text x) s = unchanged msg q q refl
approve-Attributed t msg q unknown s = unchanged msg q q refl

deny-Attributed :
    (t : Moment) (msg : Message) (q : ApprovalQueue) (p : Payload)
    → is_decision_source msg.source ≡ true
    → Attributed msg q (deny_params t p q).0
deny-Attributed t msg q (params m) s = elim (Bool-cases (param "decided_by" m == "")) [
  | inl e ↦ unchanged msg q (deny_params t (params m) q).0 (rw e)
  | inr f ↦ rw f (
      rw (decided-state denied_ok (deny_request (param "id" m) (param "decided_by" m) t.first q)) (
        attribute msg (param "decided_by" m) q
          (deny_request (param "id" m) (param "decided_by" m) t.first q).0 s
          (beq-ne (param "decided_by" m) f)
          (deny-VerdictsFrom (param "id" m) (param "decided_by" m) t.first q)))
]
deny-Attributed t msg q (text x) s = unchanged msg q q refl
deny-Attributed t msg q unknown s = unchanged msg q q refl

submit-Attributed :
    (t : Moment) (msg : Message) (q : ApprovalQueue) (m : Dict String String)
    → IsDistinct q.requests
    → Attributed msg q (submit t.fresh t.first t.second (request_of m) q).0
unfolding submit
submit-Attributed t msg q m d id r g v =
    inl
      (elim (put-verdict (id_or t.fresh (request_of m)) id _ r q (
        sweep-VerdictsFrom t.second (insert_new t.fresh t.first (request_of m) q)
          (put-IsDistinct _ _ q.requests d) id r g v)) [
            | inl old ↦ old
            | inr e ↦ absurd (cc (ap (λ (x : ApprovalRequest). is_verdict x.status) e))
          ])

get-state : (p : Payload) (q : ApprovalQueue) → (get_text p q).0 ≡ q
get-state (params m) q = refl
get-state unknown q = refl
get-state (text id) q = ground arith

guarded :
    (b : Bool) (msg : Message) (q : ApprovalQueue) (out : ApprovalQueue × Reply) (r : Reply)
    → (b ≡ true → Attributed msg q out.0)
    → Attributed msg q (if not b then (q, r) else out).0
guarded true msg q out r k = k refl
guarded false msg q out r k = unchanged msg q q refl

-- Whatever a message on an approval topic does, a request that is approved or denied afterwards was
-- already so, exactly as it stands, or the message came from "api" or "cli" and the verdict carries
-- the name of a decider.
pub handle-Attributed :
    (topic : Topic) (t : Moment) (msg : Message) (q : ApprovalQueue)
    → IsDistinct q.requests
    → Attributed msg q (handle topic t msg q).0
unfolding handle list_pending
handle-Attributed approval_submit t msg q d = by_payload msg.payload
  where
    by_payload : (p : Payload) → Attributed msg q (submit_params t p q).0
    by_payload (params m) = submit-Attributed t msg q m d
    by_payload (text x) = unchanged msg q q refl
    by_payload unknown = unchanged msg q q refl
handle-Attributed approval_list t msg q d =
    guarded (is_decision_source msg.source) msg q _ not_authorized
      (λ s id r g v. inl (sweep-VerdictsFrom t.first q d id r g v))
handle-Attributed approval_approve t msg q d =
    guarded (is_decision_source msg.source) msg q (approve_params t msg.payload q) not_authorized
      (approve-Attributed t msg q msg.payload)
handle-Attributed approval_deny t msg q d =
    guarded (is_decision_source msg.source) msg q (deny_params t msg.payload q) not_authorized
      (deny-Attributed t msg q msg.payload)
handle-Attributed approval_get t msg q d =
    guarded (is_status_source msg.source) msg q (get_text msg.payload q) not_authorized
      (λ s. unchanged msg q (get_text msg.payload q).0 (get-state msg.payload q))

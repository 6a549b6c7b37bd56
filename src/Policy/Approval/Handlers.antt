-- ===== src/Policy/Approval/Handlers.antt =====
-- modules/policy/engine.go: the bus handlers of the approval topics.
pub mod Authorized
use cyntr.Common.{
  ℕ, String, List, [], ◌∷◌, Option, none, some, string_eq, Bool, true, false, ◌==◌, if◌then◌else◌,
  any, not,
}
use cyntr.Common.Dict.{Dict, get}
use cyntr.Policy.Approval.{
  ApprovalRequest, ApprovalQueue, ApprovalStatus, ApprovalError, pending, approve, deny_request,
  list_pending, lookup_request, submit,
}

-- A payload of type `any`: the types that these handlers assert, and any other.
pub data Payload : Type 0 where
  params : Dict String String → Payload
  text : String → Payload
  unknown : Payload

pub record Message : Type 0 where
  pub source : String
  pub payload : Payload

pub data Topic : Type 0 where
  approval_submit approval_list approval_approve approval_deny approval_get : Topic

pub data Reply : Type 0 where
  listed : List ApprovalRequest → Reply
  submitted : String → Reply
  approved_ok denied_ok : Reply
  status_is : ApprovalStatus → Reply
  not_authorized bad_payload decided_by_required not_found : Reply
  refused : ApprovalError → Reply

-- params[key], which is "" where the key is missing
unfoldable pub param : String → Dict String String → String
param key m = elim (get key m) [ none ↦ "" | some v ↦ v ]

abbrev pub is_decision_source : String → Bool
is_decision_source s = if s == "api" then true else s == "cli"

abbrev pub is_status_source : String → Bool
is_status_source s = if s == "api" then true else if s == "cli" then true else s == "agent_runtime"

-- The clock as the handlers read it: two readings, and the identifier that a submission draws.
pub record Moment : Type 0 where
  pub first : ℕ
  pub second : ℕ
  pub fresh : String

abbrev pub decided : Reply → ApprovalQueue × Option ApprovalError → ApprovalQueue × Reply
decided ok (q, none) = (q, ok)
decided ok (q, some e) = (q, refused e)

unfoldable pub handle_list : Moment → Message → ApprovalQueue → ApprovalQueue × Reply
handle_list t msg q =
    if not (is_decision_source msg.source)
    then (q, not_authorized)
    else let (q', l) = list_pending t.first q in (q', listed l)

abbrev pub approve_params : Moment → Payload → ApprovalQueue → ApprovalQueue × Reply
approve_params t (params m) q =
    let by = param "decided_by" m in
    if by == ""
    then (q, decided_by_required)
    else decided approved_ok (approve (param "id" m) by t.first t.second q)
approve_params t _ q = (q, bad_payload)

unfoldable pub handle_approve : Moment → Message → ApprovalQueue → ApprovalQueue × Reply
handle_approve t msg q =
    if not (is_decision_source msg.source)
    then (q, not_authorized)
    else approve_params t msg.payload q

abbrev pub deny_params : Moment → Payload → ApprovalQueue → ApprovalQueue × Reply
deny_params t (params m) q =
    let by = param "decided_by" m in
    if by == ""
    then (q, decided_by_required)
    else decided denied_ok (deny_request (param "id" m) by t.first q)
deny_params t _ q = (q, bad_payload)

unfoldable pub handle_deny : Moment → Message → ApprovalQueue → ApprovalQueue × Reply
handle_deny t msg q =
    if not (is_decision_source msg.source) then (q, not_authorized) else deny_params t msg.payload q

abbrev pub request_of : Dict String String → ApprovalRequest
request_of m = record {
  id = "";
  tenant = param "tenant" m;
  user = param "user" m;
  agent = param "agent" m;
  action = param "action" m;
  tool = param "tool" m;
  rule = "";
  status = pending;
  created_at = 0;
  expires_at = 0;
  decided_by = "";
  decided_at = 0;
}

abbrev pub submit_params : Moment → Payload → ApprovalQueue → ApprovalQueue × Reply
submit_params t (params m) q =
    let (q', id) = submit t.fresh t.first t.second (request_of m) q in (q', submitted id)
submit_params t _ q = (q, bad_payload)

unfoldable pub handle_submit : Moment → Message → ApprovalQueue → ApprovalQueue × Reply
handle_submit t msg q = submit_params t msg.payload q

abbrev pub get_text : Payload → ApprovalQueue → ApprovalQueue × Reply
get_text (text id) q = elim (lookup_request id q) [
  | none ↦ (q, not_found)
  | some r ↦ (q, status_is r.status)
]
get_text _ q = (q, bad_payload)

unfoldable pub handle_get : Moment → Message → ApprovalQueue → ApprovalQueue × Reply
handle_get t msg q =
    if not (is_status_source msg.source) then (q, not_authorized) else get_text msg.payload q

-- The topics as Engine.Start registers them.
unfoldable pub handle : Topic → Moment → Message → ApprovalQueue → ApprovalQueue × Reply
unfolding handle_submit handle_list handle_approve handle_deny handle_get
handle approval_submit = handle_submit
handle approval_list = handle_list
handle approval_approve = handle_approve
handle approval_deny = handle_deny
handle approval_get = handle_get

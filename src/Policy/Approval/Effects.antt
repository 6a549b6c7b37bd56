-- ===== src/Policy/Approval/Effects.antt =====
-- What Approve and Deny do on each branch, and what they leave alone.
use cyntr.Common.{
  ℕ, ◌≤◌, String, ◌≡◌, ◌≢◌, inl, inr, none, some, string_eq, str_iff, arith, Option-cases,
}
use cyntr.Common.Dict.{Dict, get, put, get-put}
use cyntr.Policy.Approval.{ApprovalRequest, ApprovalQueue, pending, approved, approve}

-- The requests other than `id`, and the settings, are as they were.
pub record Untouched (id : String) (before after : ApprovalQueue) : Type 0 where
  pub others : (j : String) → j ≢ id → get j after.requests ≡ get j before.requests
  pub ttl : after.ttl ≡ before.ttl
  pub retain : after.retain ≡ before.retain

-- A write at another key leaves this one alone.
pub get-put_ne :
    (id j : String) (r : ApprovalRequest) (m : Dict String ApprovalRequest)
    → j ≢ id
    → get j (put id r m) ≡ get j m
get-put_ne id j r m ne = ground (arith, get-put id j r m, str_iff id j)

pub get-put_self :
    (id : String) (r : ApprovalRequest) (m : Dict String ApprovalRequest)
    → get id (put id r m) ≡ some r
get-put_self id r m = ground (arith, get-put id id r m, str_iff id id)

module _ (id by : String) (now decided : ℕ) (q : ApprovalQueue) where
  approve-others :
      (j : String) → j ≢ id → get j (approve id by now decided q).0.requests ≡ get j q.requests
  unfolding approve
  approve-others j ne = grind (arith, get-put_ne)

  pub approve-Untouched : Untouched id q (approve id by now decided q).0
  unfolding approve
  approve-Untouched = record { others = approve-others; ttl = ground arith; retain = ground arith }

  -- A request that Approve decided: it was pending and within its deadline.
  pub record Granted (r : ApprovalRequest) : Type 0 where
    pub found : get id q.requests ≡ some r
    pub was_pending : r.status ≡ pending
    pub in_time : now ≤ r.expires_at
    pub stored :
        get id (approve id by now decided q).0.requests
        ≡ some (record r { status = approved; decided_by = by; decided_at = decided })
    pub rest : Untouched id q (approve id by now decided q).0

  no_request : get id q.requests ≡ none → (approve id by now decided q).1 ≢ none
  unfolding approve
  no_request n h = ground arith

  grant_found :
      (r : ApprovalRequest)
      → get id q.requests ≡ some r
      → (approve id by now decided q).1 ≡ none
      → Granted r
  unfolding approve
  grant_found r f h = record {
    found = f;
    was_pending = ground arith;
    in_time = ground arith;
    stored = ground (
      arith,
      get-put_self id (record r { status = approved; decided_by = by; decided_at = decided })
          q.requests,
    );
    rest = approve-Untouched;
  }

  -- Approve returns nil only if the request is there, is pending and its deadline has not passed, and
  -- then it stores exactly that request with the new status, the decider and the time of the
  -- decision, and leaves every other request and the settings alone.
  pub approve-Granted : (approve id by now decided q).1 ≡ none → (r : ApprovalRequest) × Granted r
  approve-Granted h = elim (Option-cases (get id q.requests)) [
    | inl n ↦ absurd (no_request n h)
    | inr s ↦ (s.0, grant_found s.0 s.1 h)
  ]

-- ===== src/Policy/Approval/Decided.antt =====
-- Every operation of the queue, and what a whole history of them does to a decided request.
use cyntr.Common.{
  ℕ, ◌≤◌, String, ◌≡◌, ◌≢◌, ◌⊎◌, List, [], ◌∷◌, none, some, ◌==◌, if◌then◌else◌, string_eq, nat_eq,
  arith,
}
use cyntr.Common.Dict.{get, get-range, IsDistinct}
use cyntr.Policy.Approval.{id_or, insert_new}
use cyntr.Policy.Approval.Effects.{get-put_ne}
use cyntr.Policy.Approval.{
  ApprovalRequest, ApprovalQueue, pending, approve, deny_request, submit, sweep, sweep_request,
  list_pending,
}
use cyntr.Common.{Option-cases}
use cyntr.Common.{All}
use cyntr.Common.Dict.{range-IsDistinct}
use cyntr.Common.Dict.{put-IsDistinct}
use cyntr.Common.{inl}
use cyntr.Common.{inr}
use cyntr.Common.{Bool-cases}
use cyntr.Policy.Approval.{is_pending}
use cyntr.Common.{sym}
use cyntr.Common.{ltb}

-- The operations that change the queue, with the readings of the clock that they make.
pub data Op : Type 0 where
  -- fresh identifier, creation time, time of the sweep
  do_submit : String → ℕ → ℕ → ApprovalRequest → Op
  do_approve : String → String → ℕ → ℕ → Op
  do_deny : String → String → ℕ → Op
  do_sweep : ℕ → Op
  do_list : ℕ → Op

unfoldable pub step : ApprovalQueue → Op → ApprovalQueue
unfolding submit approve deny_request list_pending
step q (do_submit fresh created now req) = (submit fresh created now req q).0
step q (do_approve id by now decided) = (approve id by now decided q).0
step q (do_deny id by decided) = (deny_request id by decided q).0
step q (do_sweep now) = sweep now q
step q (do_list now) = (list_pending now q).0

unfoldable pub run : ApprovalQueue → List Op → ApprovalQueue
run q [] = q
run q (op ∷ ops) = run (step q op) ops

-- A submission does not take the identifier `id` again.
abbrev pub Spares : String → Op → Type 0
Spares id (do_submit fresh created now req) = id_or fresh req ≢ id
Spares id _ = Unit

-- The operation sweeps, if at all, no later than `bound`.
abbrev pub SweepsBy : ℕ → Op → Type 0
SweepsBy bound (do_submit fresh created now req) = now ≤ bound
SweepsBy bound (do_sweep now) = now ≤ bound
SweepsBy bound (do_list now) = now ≤ bound
SweepsBy bound _ = Unit

-- When a terminal request was settled.
abbrev pub settled_at : ApprovalRequest → ℕ
settled_at r = if r.decided_at == 0 then r.expires_at else r.decided_at

approve-IsDistinct :
    (j by : String) (now decided : ℕ) (q : ApprovalQueue)
    → IsDistinct q.requests
    → IsDistinct (approve j by now decided q).0.requests
unfolding approve
approve-IsDistinct j by now decided q d = elim (Option-cases (get j q.requests)) [
  | inl n ↦ rw (n, approve) d
  | inr s ↦ elim (Bool-cases (is_pending s.0.status)) [
    | inl p ↦
        rw (s.1, approve)
          (rw p (elim (Bool-cases (ltb s.0.expires_at now)) [
            | inl t ↦ rw t (put-IsDistinct j _ q.requests d)
            | inr f ↦ rw f (put-IsDistinct j _ q.requests d)
          ]))
    | inr f ↦ rw (s.1, approve) (rw f d)
  ]
]

deny-IsDistinct :
    (j by : String) (decided : ℕ) (q : ApprovalQueue)
    → IsDistinct q.requests
    → IsDistinct (deny_request j by decided q).0.requests
unfolding deny_request
deny-IsDistinct j by decided q d = elim (Option-cases (get j q.requests)) [
  | inl n ↦ rw (n, deny_request) d
  | inr s ↦ elim (Bool-cases (is_pending s.0.status)) [
    | inl p ↦ rw (s.1, deny_request) (rw p (put-IsDistinct j _ q.requests d))
    | inr f ↦ rw (s.1, deny_request) (rw f d)
  ]
]

sweep-IsDistinct :
    (now : ℕ) (q : ApprovalQueue) → IsDistinct q.requests → IsDistinct (sweep now q).requests
unfolding sweep
sweep-IsDistinct now q d = range-IsDistinct (sweep_request q.retain now) q.requests d

-- Every operation keeps the identifiers distinct.
pub step-IsDistinct :
    (q : ApprovalQueue) (op : Op) → IsDistinct q.requests → IsDistinct (step q op).requests
unfolding step
step-IsDistinct q (do_submit fresh created now req) d =
    sweep-IsDistinct now (insert_new fresh created req q) (put-IsDistinct _ _ q.requests d)
step-IsDistinct q (do_approve j by now decided) d = approve-IsDistinct j by now decided q d
step-IsDistinct q (do_deny j by decided) d = deny-IsDistinct j by decided q d
step-IsDistinct q (do_sweep now) d = sweep-IsDistinct now q d
step-IsDistinct q (do_list now) d = sweep-IsDistinct now q d

module _ (id : String) (r : ApprovalRequest) (settled : r.status ≢ pending) where
  -- The queue still holds `r`, or has dropped it.
  abbrev pub HeldOrGone : ApprovalQueue → Type 0
  HeldOrGone q = (get id q.requests ≡ some r) ⊎ (get id q.requests ≡ none)

  sweep_settled :
      (retain now : ℕ) → (sweep_request retain now r ≡ some r) ⊎ (sweep_request retain now r ≡ none)
  unfolding sweep_request
  sweep_settled retain now = ground arith

  sweep-HeldOrGone :
      (now : ℕ) (q : ApprovalQueue)
      → IsDistinct q.requests
      → HeldOrGone q
      → HeldOrGone (sweep now q)
  unfolding sweep
  sweep-HeldOrGone now q d h =
      ground
        (arith, get-range (sweep_request q.retain now) id q.requests d, sweep_settled q.retain now)

  -- Approving or denying touches no settled request, whatever identifier it names.
  pub approve-settled :
      (j by : String) (now decided : ℕ) (q : ApprovalQueue)
      → HeldOrGone q
      → get id (approve j by now decided q).0.requests ≡ get id q.requests
  unfolding approve
  approve-settled j by now decided q h = elim (Option-cases (get j q.requests)) [
    | inl n ↦ rw (n, approve)
    | inr s ↦ elim (Bool-cases (is_pending s.0.status)) [
      | inl p ↦ grind (arith, get-put_ne, s.1, p)
      | inr f ↦ rw (s.1, approve) (rw f)
    ]
  ]

  pub deny-settled :
      (j by : String) (decided : ℕ) (q : ApprovalQueue)
      → HeldOrGone q
      → get id (deny_request j by decided q).0.requests ≡ get id q.requests
  unfolding deny_request
  deny-settled j by decided q h = elim (Option-cases (get j q.requests)) [
    | inl n ↦ rw (n, deny_request)
    | inr s ↦ elim (Bool-cases (is_pending s.0.status)) [
      | inl p ↦ grind (arith, get-put_ne, s.1, p)
      | inr f ↦ rw (s.1, deny_request) (rw f)
    ]
  ]

  step-HeldOrGone :
      (q : ApprovalQueue) (op : Op)
      → IsDistinct q.requests
      → Spares id op
      → HeldOrGone q
      → HeldOrGone (step q op)
  unfolding step
  step-HeldOrGone q (do_submit fresh created now req) d s h =
      sweep-HeldOrGone now (insert_new fresh created req q) (put-IsDistinct _ _ q.requests d)
        (rw (get-put_ne (id_or fresh req) id _ q.requests (λ e. s (sym e))) h)
  step-HeldOrGone q (do_approve j by now decided) d s h =
      rw (approve-settled j by now decided q h) h
  step-HeldOrGone q (do_deny j by decided) d s h = rw (deny-settled j by decided q h) h
  step-HeldOrGone q (do_sweep now) d s h = sweep-HeldOrGone now q d h
  step-HeldOrGone q (do_list now) d s h = sweep-HeldOrGone now q d h

  -- A decision is final: once a request is approved, denied or expired, any history of operations
  -- that does not submit its identifier again leaves it exactly as it is, or drops it.
  pub run-final :
      (q : ApprovalQueue) (ops : List Op)
      → IsDistinct q.requests
      → All (Spares id) ops
      → HeldOrGone q
      → HeldOrGone (run q ops)
  unfolding run
  run-final q [] d s h = h
  run-final q (op ∷ ops) d s h =
      run-final (step q op) ops (step-IsDistinct q op d) s.1 (step-HeldOrGone q op d s.0 h)

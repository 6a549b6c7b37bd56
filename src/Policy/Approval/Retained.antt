-- ===== src/Policy/Approval/Retained.antt =====
-- How long a waiter can still read the outcome of a request.
use cyntr.Common.{
  ℕ, ◌+◌, ◌≤◌, String, ◌≡◌, ◌≢◌, refl, List, [], ◌∷◌, some, string_eq, arith, All, inl,
}
use cyntr.Common.Dict.{get, get-range, IsDistinct, put-IsDistinct}
use cyntr.Policy.Approval.{
  ApprovalRequest, ApprovalQueue, pending, sweep, sweep_request, insert_new, id_or,
}
use cyntr.Policy.Approval.Effects.{get-put_ne}
use cyntr.Policy.Approval.Decided.{
  Op, do_submit, do_approve, do_deny, do_sweep, do_list, step, run, Spares, SweepsBy, settled_at,
  approve-settled, deny-settled, step-IsDistinct,
}
use cyntr.Common.{◌∙◌}
use cyntr.Common.{sym}

step-retain : (q : ApprovalQueue) (op : Op) → (step q op).retain ≡ q.retain
unfolding step
step-retain q (do_submit fresh created now req) = refl
step-retain q (do_approve j by now decided) = ground arith
step-retain q (do_deny j by decided) = ground arith
step-retain q (do_sweep now) = refl
step-retain q (do_list now) = refl

module _ (id : String) (r : ApprovalRequest) (settled : r.status ≢ pending) (retain : ℕ) where
  sweep-kept :
      (now : ℕ) (q : ApprovalQueue)
      → IsDistinct q.requests
      → q.retain ≡ retain
      → now ≤ settled_at r + retain
      → get id q.requests ≡ some r
      → get id (sweep now q).requests ≡ some r
  unfolding sweep
  sweep-kept now q d e b h = ground (arith, get-range (sweep_request q.retain now) id q.requests d)

  step-kept :
      (q : ApprovalQueue) (op : Op)
      → IsDistinct q.requests
      → q.retain ≡ retain
      → Spares id op
      → SweepsBy (settled_at r + retain) op
      → get id q.requests ≡ some r
      → get id (step q op).requests ≡ some r
  unfolding step
  step-kept q (do_submit fresh created now req) d e s b h =
      sweep-kept now (insert_new fresh created req q) (put-IsDistinct _ _ q.requests d) e b
        (rw (get-put_ne (id_or fresh req) id _ q.requests (λ c. s (sym c))) h)
  step-kept q (do_approve j by now decided) d e s b h =
      rw (approve-settled id r settled j by now decided q (inl h)) h
  step-kept q (do_deny j by decided) d e s b h =
      rw (deny-settled id r settled j by decided q (inl h)) h
  step-kept q (do_sweep now) d e s b h = sweep-kept now q d e b h
  step-kept q (do_list now) d e s b h = sweep-kept now q d e b h

  -- Until the retention time after its settlement has passed, a settled request can be read back
  -- unchanged, whatever other operations are made, its identifier not being submitted again.
  pub run-kept :
      (q : ApprovalQueue) (ops : List Op)
      → IsDistinct q.requests
      → q.retain ≡ retain
      → All (Spares id) ops
      → All (SweepsBy (settled_at r + retain)) ops
      → get id q.requests ≡ some r
      → get id (run q ops).requests ≡ some r
  unfolding run
  run-kept q [] d e s b h = h
  run-kept q (op ∷ ops) d e s b h =
      run-kept (step q op) ops (step-IsDistinct q op d) (step-retain q op ∙ e) s.1 b.1
        (step-kept q op d e s.0 b.0 h)

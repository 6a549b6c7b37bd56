-- ===== src/Policy/Approval/Listing.antt =====
-- ListPending returns exactly the requests that are pending and within their deadline.
use cyntr.Common.{
  ℕ, ◌≤◌, String, ◌≡◌, [], ◌∷◌, Option, none, some, string_eq, str_iff, arith, In, inl, inr, ◌↔◌,
  In-select, select-In, true, ◌==◌,
}
use cyntr.Common.Dict.{Dict, get, get-range, IsDistinct, range-IsDistinct, range, through}
use cyntr.Common.Order.{sort_by-In, In-sort_by, IsSorted, sort_by-IsSorted}
use cyntr.Policy.Approval.{
  ApprovalRequest, ApprovalQueue, pending, sweep_request, list_pending, values, created_before,
  is_pending,
}
use cyntr.Common.{◌∙◌}
use cyntr.Common.{Bool-cases}
use cyntr.Common.{ap}

-- A value that is listed stands at some key, and the other way round.
In-values :
    (x : ApprovalRequest) (m : Dict String ApprovalRequest)
    → IsDistinct m
    → In x (values m)
    → (k : String) × (get k m ≡ some x)
unfolding get
In-values x [] d h = absurd h
In-values x ((j, v) ∷ m) d (inl e) = (j, ground (arith, str_iff j j))
In-values x ((j, v) ∷ m) d (inr i) =
    let (k, g) = In-values x m d.1 i in (k, ground (arith, str_iff j k, d.0))

values-In :
    (k : String) (x : ApprovalRequest) (m : Dict String ApprovalRequest)
    → get k m ≡ some x
    → In x (values m)
unfolding get
values-In k x [] h = cc
values-In k x ((j, v) ∷ m) h = elim (Bool-cases (j == k)) [
  | inl t ↦ inl (ground arith)
  | inr f ↦ inr (values-In k x m (rw (f, get) at h))
]

-- A request that is pending at `now`.
pub record IsOpen (now : ℕ) (q : ApprovalQueue) (x : ApprovalRequest) : Type 0 where
  pub key : String
  pub stored : get key q.requests ≡ some x
  pub was_pending : x.status ≡ pending
  pub in_time : now ≤ x.expires_at

swept-open :
    (now retain : ℕ) (x : ApprovalRequest) (o : Option ApprovalRequest)
    → through (sweep_request retain now) o ≡ some x
    → is_pending x.status ≡ true
    → (o ≡ some x) × (x.status ≡ pending) × (now ≤ x.expires_at)
unfolding sweep_request
swept-open now retain x none h p = cc
swept-open now retain x (some y) h p = (ground arith, ground arith, ground arith)

open-swept :
    (now retain : ℕ) (x : ApprovalRequest)
    → x.status ≡ pending
    → now ≤ x.expires_at
    → sweep_request retain now x ≡ some x
unfolding sweep_request
open-swept now retain x p t = ground arith

module _ (now : ℕ) (q : ApprovalQueue) (distinct : IsDistinct q.requests) where
  listed-IsOpen : (x : ApprovalRequest) → In x (list_pending now q).1 → IsOpen now q x
  unfolding list_pending
  listed-IsOpen x h =
      let m = range (sweep_request q.retain now) q.requests in
      let (i, p) =
        In-select (λ (r : ApprovalRequest). is_pending r.status) x (values m)
          (sort_by-In created_before x _ h) in
      let (k, g) =
        In-values x m (range-IsDistinct (sweep_request q.retain now) q.requests distinct) i in
      let (f, s, t) =
        swept-open now q.retain x (get k q.requests)
          (rw (get-range (sweep_request q.retain now) k q.requests distinct) at g) p in
      record { key = k; stored = f; was_pending = s; in_time = t }

  IsOpen-listed : (x : ApprovalRequest) → IsOpen now q x → In x (list_pending now q).1
  unfolding list_pending
  IsOpen-listed x o =
      let m = range (sweep_request q.retain now) q.requests in
      In-sort_by created_before x _ (
        select-In (λ (r : ApprovalRequest). is_pending r.status) x (values m)
          (values-In o.key x m (
            get-range (sweep_request q.retain now) o.key q.requests distinct
            ∙ (rw o.stored (open-swept now q.retain x o.was_pending o.in_time))))
          (ap is_pending o.was_pending))

  -- With distinct identifiers, the listing holds a request exactly if it is stored, pending and not
  -- past its deadline, and it is in order of creation.
  pub list_pending-IsOpen :
      ((x : ApprovalRequest) → In x (list_pending now q).1 ↔ IsOpen now q x)
      × IsSorted created_before (list_pending now q).1
  unfolding list_pending
  list_pending-IsOpen = (
    λ x. (listed-IsOpen x, IsOpen-listed x),
    sort_by-IsSorted created_before (λ x y h. ground arith) (λ x y z h k. ground arith) _,
  )

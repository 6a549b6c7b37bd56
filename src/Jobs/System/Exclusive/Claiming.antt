-- ===== src/Jobs/System/Exclusive/Claiming.antt =====
-- A lease, one candidate at a time, keeps the invariant of rows and workers.
use cyntr.Common.{
  ℕ, zero, suc, String, ◌≡◌, ◌≢◌, refl, ap, ◌∙◌, inl, inr, Bool, true, false, List, [], ◌∷◌, Option,
  none, some, ◌==◌, string_eq, nat_eq, str_iff, arith, Bool-cases, All, All-imp, All-take, ◌&&◌,
}
use cyntr.Common.Order.{sort_by-All}
use cyntr.Jobs.{Job, pending, running, Queue, find_job, is_pending}
use cyntr.Jobs.Rows.{
  IsKeyed, find_job-update_where, update_where-IsKeyed, find-claimable, All-update_where,
  id-find_job,
}
use cyntr.Jobs.Lease.{
  claim_row, mark_running, claimable, candidates, is_empty, free_slots, may_reserve,
}
use cyntr.Common.Dict.{Dict}
use cyntr.Jobs.Inflight.{reserve, release}
use cyntr.Jobs.System.{
  System, Pass, Phase, snapshot, listed, reserved, lost, take_next, go_on, take_candidate,
  after_update, open_pass, list_candidates, list_from,
}
use cyntr.Common.{select}
use cyntr.Jobs.System.Exclusive.{Exclusive, RowOk, Held, cands_in, cands_of, Budgeted}

mark-Held :
    (id : String) (now : ℕ) (rows : List Job) (j : Job)
    → Held rows j
    → Held (mark_running id now rows) j
unfolding mark_running
mark-Held id now rows j (r, f, s) = (
  r,
  find_job-update_where (claimable id) (λ r. record r { state = running; updated_at = now })
        (λ r. refl) j.id rows
      ∙ (rw f (ground (arith, s))),
  s,
)

find-marked :
    (id : String) (now : ℕ) (rows : List Job) (r : Job)
    → find_job id rows ≡ some r
    → r.state ≡ pending
    → find_job id (mark_running id now rows) ≡ some (record r { state = running; updated_at = now })
unfolding mark_running
find-marked id now rows r f p =
    find_job-update_where (claimable id) (λ r. record r { state = running; updated_at = now })
      (λ r. refl) id rows
    ∙ (rw f (ground (arith, str_iff r.id id, id-find_job id rows r f)))

mark-RowOk :
    (budget : ℕ) (id : String) (now : ℕ) (rows : List Job)
    → All (RowOk budget) rows
    → All (RowOk budget) (mark_running id now rows)
unfolding mark_running
mark-RowOk budget id now rows a =
    All-update_where (RowOk budget) (claimable id)
      (λ r. record r { state = running; updated_at = now }) (λ r t w. ground (arith, w)) rows a

module _ (budget : ℕ) where
  -- What the rows must satisfy beside the active jobs.
  abbrev Holds : List Job → List Job → Type 0
  Holds rows active = IsKeyed rows × All (RowOk budget) rows × All (Held rows) active

  mark-Holds :
      (id : String) (now : ℕ) (rows active : List Job)
      → Holds rows active
      → Holds (mark_running id now rows) active
  unfolding mark_running
  mark-Holds id now rows active h = (
    update_where-IsKeyed (claimable id) (λ r. record r { state = running; updated_at = now })
        (λ r. refl) rows h.0,
    mark-RowOk budget id now rows h.1,
    All-imp (Held rows) (Held (mark_running id now rows)) (mark-Held id now rows) active h.2,
  )

  claim_row-Holds :
      (ok : Bool) (id : String) (now : ℕ) (rows active : List Job)
      → Holds rows active
      → Holds (claim_row ok id now rows).0 active
  unfolding claim_row
  claim_row-Holds true id now rows active h = mark-Holds id now rows active h
  claim_row-Holds false id now rows active h = h

  -- A claim that succeeds found its row pending: the row runs now, and no active job has it.
  claim_row_fresh :
      (ok : Bool) (now : ℕ) (rows active : List Job) (c j : Job)
      → Holds rows active
      → j.id ≡ c.id
      → (claim_row ok c.id now rows).1 ≡ true
      → Held (claim_row ok c.id now rows).0 j × All (λ k. k.id ≢ j.id) active
  unfolding claim_row
  claim_row_fresh false now rows active c j h e t = cc
  claim_row_fresh true now rows active c j h e t =
      let (r, f, p) = find-claimable c.id rows h.0 (ground arith) in
      (
        (
          record r { state = running; updated_at = now },
          rw e (find-marked c.id now rows r f p),
          refl,
        ),
        All-imp (Held rows) (λ k. k.id ≢ j.id)
            (λ k w i. cc (ap (λ (x : String). find_job x rows) (i ∙ e), w.1, w.2, f, p)) active h.2,
      )

  moved-Exclusive :
      (s : System) (o : Option Pass)
      → All (Budgeted budget) (cands_of o)
      → Exclusive budget s
      → Exclusive budget (record s { pass = o })
  moved-Exclusive s o b x = record {
    keyed = x.keyed;
    rows_ok = x.rows_ok;
    held = x.held;
    apart = x.apart;
    active_ok = x.active_ok;
    cands_ok = b;
    setting = x.setting;
  }

  -- The end of a claim, on what the UPDATE gave.
  update-Exclusive :
      (p : Pass) (s : System) (c : Job) (cs : List Job) (out : List Job × Bool)
      → Exclusive budget s
      → Holds out.0 s.active
      → (out.1 ≡ true → Held out.0 (record c { state = running }) × All (λ k. k.id ≢ c.id) s.active)
      → All (Budgeted budget) (c ∷ cs)
      → Exclusive budget (after_update p s c cs out)
  update-Exclusive p s c cs (rows, false) x h k b = record {
    keyed = h.0;
    rows_ok = h.1;
    held = h.2;
    apart = x.apart;
    active_ok = x.active_ok;
    cands_ok = b.1;
    setting = x.setting;
  }
  update-Exclusive p s c cs (rows, true) x h k b = record {
    keyed = h.0;
    rows_ok = h.1;
    held = ((k refl).0, h.2);
    apart = ((k refl).1, x.apart);
    active_ok = (b.0, x.active_ok);
    cands_ok = b.1;
    setting = x.setting;
  }

  -- The counts are no part of it.
  recounted-Exclusive :
      (s : System) (m : Dict String ℕ) (o : Option Pass)
      → All (Budgeted budget) (cands_of o)
      → Exclusive budget s
      → Exclusive budget (record s { queue = record s.queue { inflight = m }; pass = o })
  recounted-Exclusive s m o b x = record {
    keyed = x.keyed;
    rows_ok = x.rows_ok;
    held = x.held;
    apart = x.apart;
    active_ok = x.active_ok;
    cands_ok = b;
    setting = x.setting;
  }

  take-Exclusive :
      (p : Pass) (s : System) (slots : ℕ) (cs : List Job)
      → All (Budgeted budget) cs
      → Exclusive budget s
      → Exclusive budget (take_candidate p s slots cs)
  take-Exclusive p s zero cs b x = moved-Exclusive s none tt x
  take-Exclusive p s (suc slots) [] b x = moved-Exclusive s none tt x
  take-Exclusive p s (suc slots) (c ∷ cs) b x = elim (Bool-cases (may_reserve p.kinds c s.queue)) [
    | inr f ↦ rw f (moved-Exclusive s _ b.1 x)
    | inl t ↦ rw t (recounted-Exclusive s (reserve c.tenant s.queue.inflight) _ b x)
  ]

  go_on-Exclusive :
      (ok : Bool) (p : Pass) (s : System) (ph : Phase)
      → All (Budgeted budget) (cands_in ph)
      → Exclusive budget s
      → Exclusive budget (go_on ok p s ph)
  go_on-Exclusive ok p s snapshot b x = x
  go_on-Exclusive ok p s (listed cs) b x = take-Exclusive p s p.slots cs b x
  go_on-Exclusive ok p s (reserved c cs) b x =
      update-Exclusive p s c cs (claim_row ok c.id p.now s.queue.rows) x
        (claim_row-Holds ok c.id p.now s.queue.rows s.active (x.keyed, x.rows_ok, x.held))
        (claim_row_fresh ok p.now s.queue.rows s.active c (record c { state = running })
          (x.keyed, x.rows_ok, x.held) refl)
        b
  go_on-Exclusive ok p s (lost c cs) b x =
      recounted-Exclusive s (release c.tenant s.queue.inflight) _ b x

  pub next-Exclusive :
      (ok : Bool) (o : Option Pass) (s : System)
      → All (Budgeted budget) (cands_of o)
      → Exclusive budget s
      → Exclusive budget (take_next ok o s)
  unfolding take_next
  next-Exclusive ok none s b x = x
  next-Exclusive ok (some p) s b x = go_on-Exclusive ok p s p.phase b x

  pending-Budgeted :
      (text_le : ℕ → ℕ → Bool) (now : ℕ) (rows : List Job)
      → All (RowOk budget) rows
      → All (Budgeted budget) (select (λ r. is_pending r.state && text_le r.run_after now) rows)
  unfolding select
  pending-Budgeted text_le now [] a = tt
  pending-Budgeted text_le now (r ∷ rows) a =
      elim (Bool-cases (is_pending r.state && text_le r.run_after now)) [
        | inl t ↦ rw t (ground (arith, a.0), pending-Budgeted text_le now rows a.1)
        | inr f ↦ rw f (pending-Budgeted text_le now rows a.1)
      ]

  candidates-Budgeted :
      (text_le : ℕ → ℕ → Bool) (now : ℕ) (q : Queue)
      → All (RowOk budget) q.rows
      → All (Budgeted budget) (candidates text_le now q)
  unfolding candidates
  candidates-Budgeted text_le now q a =
      All-take (Budgeted budget) q.lease_batch _
        (sort_by-All _ (Budgeted budget) _ (pending-Budgeted text_le now q.rows a))

  list-Exclusive :
      (ok : Bool) (text_le : ℕ → ℕ → Bool) (now : ℕ) (p : Pass) (s : System) (ph : Phase)
      → Exclusive budget s
      → Exclusive budget (list_from ok text_le now p s ph)
  list-Exclusive false text_le now p s snapshot x = moved-Exclusive s none tt x
  list-Exclusive true text_le now p s snapshot x =
      moved-Exclusive s _ (candidates-Budgeted text_le now s.queue x.rows_ok) x
  list-Exclusive ok text_le now p s (listed cs) x = x
  list-Exclusive ok text_le now p s (reserved c cs) x = x
  list-Exclusive ok text_le now p s (lost c cs) x = x

  pub query-Exclusive :
      (ok : Bool) (text_le : ℕ → ℕ → Bool) (now : ℕ) (o : Option Pass) (s : System)
      → Exclusive budget s
      → Exclusive budget (list_candidates ok text_le now o s)
  unfolding list_candidates
  query-Exclusive ok text_le now none s x = x
  query-Exclusive ok text_le now (some p) s x = list-Exclusive ok text_le now p s p.phase x

  pub begin-Exclusive :
      (o : Option Pass) (s : System) → Exclusive budget s → Exclusive budget (open_pass o s)
  begin-Exclusive (some p) s x = x
  begin-Exclusive none s x = elim (Bool-cases (is_empty s.queue.handlers)) [
    | inl t ↦ rw t x
    | inr f ↦ rw f (elim (Bool-cases (free_slots s.queue == 0)) [
      | inl t ↦ rw t x
      | inr g ↦ rw g (moved-Exclusive s _ tt x)
    ])
  ]

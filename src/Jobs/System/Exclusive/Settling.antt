-- ===== src/Jobs/System/Exclusive/Settling.antt =====
-- A worker that settles its job keeps the invariant of rows and workers.
use cyntr.Common.{
  Bool, true, false, ℕ, zero, suc, ◌≡◌, ◌≢◌, refl, sym, ◌∙◌, List, [], ◌∷◌, Option, none, some,
  ◌==◌, string_eq, nat_eq, str_iff, arith, get_elem?, All, All-imp, All-get, All-and,
}
use cyntr.Jobs.{Job, running, Queue, ErrorText}
use cyntr.Jobs.Rows.{
  IsKeyed, find_job-update_where, update_where-IsKeyed, id-find_job, found-All, All-update_by,
}
use cyntr.Jobs.Lease.{settle, settle_row}
use cyntr.Jobs.System.{System, settle_active, remove_at}
use cyntr.Jobs.System.Exclusive.{Exclusive, RowOk, Held, IsApart, Budgeted}

module _ (budget : ℕ) where
  -- A row that a worker settles, and the rows of the other workers.
  settle_row-id :
      (q : Queue) (now : ℕ) (j : Job) (err : Option ErrorText) (r : Job)
      → (settle_row q now j err r).id ≡ r.id
  settle_row-id q now j none r = refl
  settle_row-id q now j (some e) r = ground arith

  settle_row-RowOk :
      (q : Queue) (now : ℕ) (j : Job) (err : Option ErrorText) (r : Job)
      → q.max_attempts ≡ budget
      → Budgeted budget j
      → RowOk budget r
      → r.state ≡ running
      → RowOk budget (settle_row q now j err r)
  settle_row-RowOk q now j none r m b w s = ground arith
  settle_row-RowOk q now j (some e) r m b w s = ground arith

  settle-Held :
      (saved : Bool) (q : Queue) (now : ℕ) (j : Job) (err : Option ErrorText) (k : Job)
      → k.id ≢ j.id
      → Held q.rows k
      → Held (settle saved now j err q).rows k
  unfolding settle
  settle-Held false q now j err k ne h = h
  settle-Held true q now j err k ne (r, f, s) = (
    r,
    find_job-update_where (λ r. r.id == j.id) (settle_row q now j err) (settle_row-id q now j err)
          k.id q.rows
        ∙ (rw f (ground (arith, str_iff r.id j.id, id-find_job k.id q.rows r f))),
    s,
  )

  settle-IsKeyed :
      (saved : Bool) (q : Queue) (now : ℕ) (j : Job) (err : Option ErrorText)
      → IsKeyed q.rows
      → IsKeyed (settle saved now j err q).rows
  unfolding settle
  settle-IsKeyed false q now j err k = k
  settle-IsKeyed true q now j err k =
      update_where-IsKeyed (λ r. r.id == j.id) (settle_row q now j err) (settle_row-id q now j err)
        q.rows k

  settle-RowOk :
      (saved : Bool) (q : Queue) (now : ℕ) (j : Job) (err : Option ErrorText)
      → q.max_attempts ≡ budget
      → Budgeted budget j
      → IsKeyed q.rows
      → All (RowOk budget) q.rows
      → Held q.rows j
      → All (RowOk budget) (settle saved now j err q).rows
  unfolding settle
  settle-RowOk false q now j err m b k a h = a
  settle-RowOk true q now j err m b k a (r, f, s) =
      All-update_by (λ x. RowOk budget x × (x.id ≡ j.id → x.state ≡ r.state)) (RowOk budget)
        (λ x. x.id == j.id) (settle_row q now j err)
        (λ x t w. settle_row-RowOk q now j err x m b w.0 (w.1 ((str_iff x.id j.id).0 t) ∙ s))
        (λ x w. w.0) q.rows
        (All-and (RowOk budget) (λ x. x.id ≡ j.id → x.state ≡ r.state) q.rows a
          (found-All j.id q.rows r k f))

  All-remove_at : (P : Job → Type 0) (i : ℕ) (js : List Job) → All P js → All P (remove_at i js)
  unfolding remove_at
  All-remove_at P i [] a = tt
  All-remove_at P zero (k ∷ js) a = a.1
  All-remove_at P (suc i) (k ∷ js) a = (a.0, All-remove_at P i js a.1)

  -- What is left after one job is taken out is apart, also from that job.
  remove_at-IsApart :
      (i : ℕ) (js : List Job) (j : Job)
      → get_elem? js i ≡ some j
      → IsApart js
      → All (λ k. k.id ≢ j.id) (remove_at i js) × IsApart (remove_at i js)
  unfolding remove_at
  remove_at-IsApart i [] j h a = absurd (cc)
  remove_at-IsApart zero (k ∷ js) j h a =
      (All-imp (λ x. x.id ≢ k.id) (λ x. x.id ≢ j.id) (λ x ne e. ne (e ∙ ground arith)) js a.0, a.1)
  remove_at-IsApart (suc i) (k ∷ js) j h a =
      let (ne, ap') = remove_at-IsApart i js j h a.1 in
      (
        (λ e. All-get (λ x. x.id ≢ k.id) js i j a.0 h (sym e), ne),
        (All-remove_at (λ x. x.id ≢ k.id) i js a.0, ap'),
      )

  pub finish-Exclusive :
      (saved : Bool) (i now : ℕ) (err : Option ErrorText) (o : Option Job) (s : System)
      → get_elem? s.active i ≡ o
      → Exclusive budget s
      → Exclusive budget (settle_active saved i now err o s)
  finish-Exclusive saved i now err none s e x = x
  finish-Exclusive saved i now err (some j) s e x =
      let b = All-get (Budgeted budget) s.active i j x.active_ok e in
      let w = All-get (Held s.queue.rows) s.active i j x.held e in
      let (ne, ap') = remove_at-IsApart i s.active j e x.apart in
      record {
        keyed = settle-IsKeyed saved s.queue now j err x.keyed;
        rows_ok = settle-RowOk saved s.queue now j err x.setting b x.keyed x.rows_ok w;
        held =
            All-imp (λ k. Held s.queue.rows k × (k.id ≢ j.id))
              (Held (settle saved now j err s.queue).rows)
              (λ k h. settle-Held saved s.queue now j err k h.1 h.0) (remove_at i s.active)
              (All-and (Held s.queue.rows) (λ k. k.id ≢ j.id) (remove_at i s.active)
                (All-remove_at (Held s.queue.rows) i s.active x.held) ne);
        apart = ap';
        active_ok = All-remove_at (Budgeted budget) i s.active x.active_ok;
        cands_ok = x.cands_ok;
        setting = unfold settle in x.setting;
      }

-- ===== src/Jobs/System/Lifecycle.antt =====
-- Whole histories of the queue: the invariant of its rows and workers, and rows that are settled.
use cyntr.Common.{
  ℕ, ◌<◌, String, ◌≡◌, refl, ◌∙◌, inl, inr, Bool, List, [], ◌∷◌, ◌++◌, none, ◌==◌, string_eq,
  nat_eq, arith, Bool-cases, get_elem?, All, All-imp, All-append, ◌&&◌, ◌||◌,
}
use cyntr.Jobs.{
  Job, pending, running, Queue, enqueue, register, recover, find_job, same_state, is_none,
}
use cyntr.Jobs.Rows.{
  IsKeyed, update_where-IsKeyed, All-update_where, find_job-append, append-IsKeyed,
}
use cyntr.Jobs.System.{
  System, Event, add_handler, submit, begin, query, next, finish, restart, step, run_events, opened,
}
use cyntr.Jobs.System.Exclusive.{Exclusive, RowOk, Held}
use cyntr.Jobs.System.Exclusive.Claiming.{next-Exclusive, query-Exclusive, begin-Exclusive}
use cyntr.Jobs.System.Exclusive.Settling.{finish-Exclusive}

module _ (budget : ℕ) (positive : 0 < budget) where
  append-Held : (rows : List Job) (j k : Job) → Held rows k → Held (rows ++ (j ∷ [])) k
  append-Held rows j k (r, f, s) = (r, find_job-append k.id rows j ∙ (rw f), s)

  insert-Exclusive :
      (s : System) (j : Job)
      → Exclusive budget s
      → find_job j.id s.queue.rows ≡ none
      → j.state ≡ pending
      → j.attempts ≡ 0
      → Exclusive budget (record s { queue = record s.queue { rows = s.queue.rows ++ (j ∷ []) } })
  insert-Exclusive s j x f p z = record {
    keyed = append-IsKeyed s.queue.rows j x.keyed f;
    rows_ok = All-append (RowOk budget) s.queue.rows (j ∷ []) x.rows_ok (ground arith, tt);
    held =
        All-imp (Held s.queue.rows) (Held (s.queue.rows ++ (j ∷ []))) (append-Held s.queue.rows j)
          s.active x.held;
    apart = x.apart;
    active_ok = x.active_ok;
    cands_ok = x.cands_ok;
    setting = x.setting;
  }

  enqueue-Exclusive :
      (fresh : String) (now : ℕ) (inserted : Bool) (tenant kind payload : String) (run_after : ℕ)
      (s : System)
      → Exclusive budget s
      → Exclusive budget (record s {
        queue = (enqueue fresh now inserted tenant kind payload run_after s.queue).0;
      })
  unfolding enqueue
  enqueue-Exclusive fresh now inserted tenant kind payload run_after s x =
      elim (Bool-cases (tenant == "" || kind == "")) [
        | inl t ↦ rw t x
        | inr f ↦ rw f (elim (Bool-cases (inserted && is_none (find_job fresh s.queue.rows))) [
          | inl t ↦ rw t (insert-Exclusive s _ x (ground arith) refl refl)
          | inr g ↦ rw g x
        ])
      ]

  recover-RowOk : (rows : List Job) → All (RowOk budget) rows → All (RowOk budget) (recover rows)
  unfolding recover
  recover-RowOk =
      All-update_where (RowOk budget) (λ r. same_state r.state running)
        (λ r. record r { state = pending }) (λ r t w. ground (arith, w))

  recover-IsKeyed : (rows : List Job) → IsKeyed rows → IsKeyed (recover rows)
  unfolding recover
  recover-IsKeyed =
      update_where-IsKeyed (λ r. same_state r.state running) (λ r. record r { state = pending })
        (λ r. refl)

  opened-Exclusive :
      (q : Queue)
      → q.max_attempts ≡ budget
      → IsKeyed q.rows
      → All (RowOk budget) q.rows
      → Exclusive budget (opened q)
  opened-Exclusive q m k a = record {
    keyed = recover-IsKeyed q.rows k;
    rows_ok = recover-RowOk q.rows a;
    held = tt;
    apart = tt;
    active_ok = tt;
    cands_ok = tt;
    setting = m;
  }

  pub step-Exclusive : (s : System) (e : Event) → Exclusive budget s → Exclusive budget (step s e)
  unfolding step register
  step-Exclusive s (add_handler kind h) x = record {
    keyed = x.keyed;
    rows_ok = x.rows_ok;
    held = x.held;
    apart = x.apart;
    active_ok = x.active_ok;
    cands_ok = x.cands_ok;
    setting = x.setting;
  }
  step-Exclusive s (submit fresh now inserted tenant kind payload run_after) x =
      enqueue-Exclusive fresh now inserted tenant kind payload run_after s x
  step-Exclusive s begin x = begin-Exclusive budget s.pass s x
  step-Exclusive s (query ok text_le now) x = query-Exclusive budget ok text_le now s.pass s x
  step-Exclusive s (next ok) x = next-Exclusive budget ok s.pass s x.cands_ok x
  step-Exclusive s (finish saved i now err) x =
      finish-Exclusive budget saved i now err (get_elem? s.active i) s refl x
  step-Exclusive s restart x = opened-Exclusive s.queue x.setting x.keyed x.rows_ok

  run_events-Exclusive :
      (s : System) (es : List Event) → Exclusive budget s → Exclusive budget (run_events s es)
  unfolding run_events
  run_events-Exclusive s [] x = x
  run_events-Exclusive s (e ∷ es) x = run_events-Exclusive (step s e) es (step-Exclusive s e x)

-- From any table with distinct identifiers whose rows are within the budget of attempts, opened with
-- that budget, and after any interleaving of events, whether or not the UPDATEs work: no two active jobs have one identifier, the row
-- of every active job is in the running state, every pending, running and done row has used fewer
-- attempts than the budget, and every failed row has used exactly the budget.
pub events-Exclusive :
    (q : Queue) (es : List Event)
    → 0 < q.max_attempts
    → IsKeyed q.rows
    → All (RowOk q.max_attempts) q.rows
    → Exclusive q.max_attempts (run_events (opened q) es)
events-Exclusive q es p k a =
    run_events-Exclusive q.max_attempts p (opened q) es
      (opened-Exclusive q.max_attempts p q refl k a)

-- ===== src/Jobs/System/Terminal.antt =====
-- A row that is done or failed never changes again.
use cyntr.Common.{
  ℕ, zero, suc, ◌<◌, String, ◌≡◌, refl, ◌∙◌, inl, inr, Bool, true, false, List, [], ◌∷◌, Option,
  none, some, ◌==◌, string_eq, nat_eq, str_iff, arith, Bool-cases, get_elem?, All-get,
}
use cyntr.Jobs.{
  Job, State, pending, running, done, failed, Queue, ErrorText, enqueue, register, recover,
  update_where, find_job, same_state,
}
use cyntr.Jobs.Rows.{find_job-update_where, find_job-append, id-find_job}
use cyntr.Jobs.Lease.{claim_row, mark_running, claimable, settle, settle_row, may_reserve}
use cyntr.Jobs.System.{
  System, Pass, Phase, snapshot, listed, reserved, lost, Event, add_handler, submit, begin, query,
  next, finish, restart, step, run_events, take_next, go_on, take_candidate, after_update,
  open_pass, list_candidates, list_from, settle_active,
}
use cyntr.Jobs.System.Exclusive.{Exclusive, Held}
use cyntr.Jobs.System.Lifecycle.{step-Exclusive}

abbrev pub is_terminal : State → Bool
is_terminal done = true
is_terminal failed = true
is_terminal _ = false

module _ (id : String) (r : Job) (terminal : is_terminal r.state ≡ true) where
  -- The table still has the row `r`.
  abbrev pub Kept : List Job → Type 0
  Kept rows = find_job id rows ≡ some r

  update-Kept :
      (p : Job → Bool) (f : Job → Job)
      → ((x : Job) → (f x).id ≡ x.id)
      → p r ≡ false
      → (rows : List Job) → Kept rows
      → Kept (update_where p f rows)
  update-Kept p f h n rows k = find_job-update_where p f h id rows ∙ (rw k (rw n))

  claim_row-Kept :
      (ok : Bool) (j : String) (now : ℕ) (rows : List Job)
      → Kept rows
      → Kept (claim_row ok j now rows).0
  unfolding claim_row mark_running
  claim_row-Kept true j now rows k =
      update-Kept (claimable j) (λ x. record x { state = running; updated_at = now }) (λ x. refl)
        (ground (arith, terminal)) rows k
  claim_row-Kept false j now rows k = k

  update_claim-Kept :
      (p : Pass) (s : System) (c : Job) (cs : List Job) (out : List Job × Bool)
      → Kept out.0
      → Kept (after_update p s c cs out).queue.rows
  update_claim-Kept p s c cs (rows, true) k = k
  update_claim-Kept p s c cs (rows, false) k = k

  take-Kept :
      (p : Pass) (s : System) (slots : ℕ) (cs : List Job)
      → Kept s.queue.rows
      → Kept (take_candidate p s slots cs).queue.rows
  take-Kept p s zero cs k = k
  take-Kept p s (suc slots) [] k = k
  take-Kept p s (suc slots) (c ∷ cs) k = elim (Bool-cases (may_reserve p.kinds c s.queue)) [
    | inl t ↦ rw t k
    | inr f ↦ rw f k
  ]

  go_on-Kept :
      (ok : Bool) (p : Pass) (s : System) (ph : Phase)
      → Kept s.queue.rows
      → Kept (go_on ok p s ph).queue.rows
  go_on-Kept ok p s snapshot k = k
  go_on-Kept ok p s (listed cs) k = take-Kept p s p.slots cs k
  go_on-Kept ok p s (reserved c cs) k =
      update_claim-Kept p s c cs (claim_row ok c.id p.now s.queue.rows)
        (claim_row-Kept ok c.id p.now s.queue.rows k)
  go_on-Kept ok p s (lost c cs) k = k

  next-Kept :
      (ok : Bool) (o : Option Pass) (s : System)
      → Kept s.queue.rows
      → Kept (take_next ok o s).queue.rows
  unfolding take_next
  next-Kept ok none s k = k
  next-Kept ok (some p) s k = go_on-Kept ok p s p.phase k

  list-Kept :
      (ok : Bool) (text_le : ℕ → ℕ → Bool) (now : ℕ) (p : Pass) (s : System) (ph : Phase)
      → Kept s.queue.rows
      → Kept (list_from ok text_le now p s ph).queue.rows
  list-Kept ok text_le now p s snapshot k = k
  list-Kept ok text_le now p s (listed cs) k = k
  list-Kept ok text_le now p s (reserved c cs) k = k
  list-Kept ok text_le now p s (lost c cs) k = k

  query-Kept :
      (ok : Bool) (text_le : ℕ → ℕ → Bool) (now : ℕ) (o : Option Pass) (s : System)
      → Kept s.queue.rows
      → Kept (list_candidates ok text_le now o s).queue.rows
  unfolding list_candidates
  query-Kept ok text_le now none s k = k
  query-Kept ok text_le now (some p) s k = list-Kept ok text_le now p s p.phase k

  settle_row-id :
      (q : Queue) (now : ℕ) (j : Job) (err : Option ErrorText) (x : Job)
      → (settle_row q now j err x).id ≡ x.id
  settle_row-id q now j none x = refl
  settle_row-id q now j (some e) x = ground arith

  -- A worker settles only the row that it holds, which is running.
  finish-Kept :
      (budget : ℕ) (saved : Bool) (i now : ℕ) (err : Option ErrorText) (o : Option Job) (s : System)
      → get_elem? s.active i ≡ o
      → Exclusive budget s
      → Kept s.queue.rows
      → Kept (settle_active saved i now err o s).queue.rows
  unfolding settle
  finish-Kept budget saved i now err none s e x k = k
  finish-Kept budget false i now err (some j) s e x k = k
  finish-Kept budget true i now err (some j) s e x k =
      let (w, f, st) = All-get (Held s.queue.rows) s.active i j x.held e in
      update-Kept (λ y. y.id == j.id) (settle_row s.queue now j err)
        (settle_row-id s.queue now j err) (other j w f st) s.queue.rows k
    where
      other :
          (j w : Job)
          → find_job j.id s.queue.rows ≡ some w
          → w.state ≡ running
          → (r.id == j.id) ≡ false
      other j w f st = ground (arith, str_iff r.id j.id, id-find_job id s.queue.rows r k, terminal)

  begin-Kept : (o : Option Pass) (s : System) → Kept s.queue.rows → Kept (open_pass o s).queue.rows
  begin-Kept (some p) s k = k
  begin-Kept none s k = ground arith

  enqueue-Kept :
      (fresh : String) (now : ℕ) (inserted : Bool) (tenant kind payload : String) (run_after : ℕ)
      (q : Queue)
      → Kept q.rows
      → Kept (enqueue fresh now inserted tenant kind payload run_after q).0.rows
  unfolding enqueue
  enqueue-Kept fresh now inserted tenant kind payload run_after q k = grind (arith, find_job-append)

  step-Kept :
      (budget : ℕ) (s : System) (e : Event)
      → Exclusive budget s
      → Kept s.queue.rows
      → Kept (step s e).queue.rows
  unfolding step register recover
  step-Kept budget s (add_handler kind h) x k = k
  step-Kept budget s (submit fresh now inserted tenant kind payload run_after) x k =
      enqueue-Kept fresh now inserted tenant kind payload run_after s.queue k
  step-Kept budget s begin x k = begin-Kept s.pass s k
  step-Kept budget s (query ok text_le now) x k = query-Kept ok text_le now s.pass s k
  step-Kept budget s (next ok) x k = next-Kept ok s.pass s k
  step-Kept budget s (finish saved i now err) x k =
      finish-Kept budget saved i now err (get_elem? s.active i) s refl x k
  step-Kept budget s restart x k =
      update-Kept (λ y. same_state y.state running) (λ y. record y { state = pending }) (λ y. refl)
        (ground (arith, terminal)) s.queue.rows k

  -- In every state that meets the invariant of rows and workers, and over every history of events from
  -- it, a row that is done or failed stays exactly as it is.
  pub run_events-Kept :
      (budget : ℕ) (positive : 0 < budget) (s : System) (es : List Event)
      → Exclusive budget s
      → Kept s.queue.rows
      → Kept (run_events s es).queue.rows
  unfolding run_events
  run_events-Kept budget positive s [] x k = k
  run_events-Kept budget positive s (e ∷ es) x k =
      run_events-Kept budget positive (step s e) es (step-Exclusive budget positive s e x)
        (step-Kept budget s e x k)

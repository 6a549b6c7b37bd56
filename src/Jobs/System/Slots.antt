-- ===== src/Jobs/System/Slots.antt =====
-- The caps: at every moment the running jobs are those that the counts account for.
use cyntr.Common.{
  ℕ, zero, suc, ◌+◌, ◌≤◌, ◌≡◌, refl, ◌∙◌, inl, inr, Bool, true, false, List, [], ◌∷◌, ◌++◌, Option,
  none, some, ◌==◌, string_eq, nat_eq, arith, Bool-cases, length, get_elem?,
}
use cyntr.Jobs.{Job, Queue, ErrorText, enqueue, register, running}
use cyntr.Jobs.Inflight.{release}
use cyntr.Jobs.Lease.{settle, free_slots, is_empty, may_reserve, claim_row}
use cyntr.Jobs.System.{
  System, Pass, Phase, snapshot, listed, reserved, lost, Event, add_handler, submit, begin, query,
  next, finish, restart, step, run_events, open_pass, list_candidates, list_from, take_candidate,
  after_update, go_on, take_next, settle_active, remove_at, opened,
}
use cyntr.Jobs.System.Accounts.{
  reserved_in, Counted, Accounted, SlotLeft, reserved_of, open_slots, empty-Counted,
  reserve-Counted, claimed-Counted, release-Counted, length-remove_at,
}

module _ (tc gc : ℕ) where
  -- The lease goes on or ends, with no slot reserved before or after.
  moved :
      (s : System) (o : Option Pass)
      → Counted tc s.queue.inflight (reserved_of o ++ s.active)
      → SlotLeft o
      → length s.active + open_slots o ≤ gc
      → Accounted tc gc s
      → Accounted tc gc (record s { pass = o })
  moved s o k l g a = record {
    counted = k;
    slot_left = l;
    global_capped = g;
    tenant_setting = a.tenant_setting;
    global_setting = a.global_setting;
  }

  begin-Accounted :
      (o : Option Pass) (s : System)
      → s.pass ≡ o
      → Accounted tc gc s
      → Accounted tc gc (open_pass o s)
  unfolding free_slots
  begin-Accounted (some p) s e a = a
  begin-Accounted none s e a = elim (Bool-cases (is_empty s.queue.handlers)) [
    | inl t ↦ rw t a
    | inr f ↦ rw f (elim (Bool-cases (free_slots s.queue == 0)) [
      | inl t ↦ rw t a
      | inr g ↦
          let k : Counted tc s.queue.inflight s.active = rw e at a.counted in
          rw g (moved s _ k tt (omega (arith, k.total, a.global_setting, a.global_capped)) a)
    ])
  ]

  list-Accounted :
      (ok : Bool) (text_le : ℕ → ℕ → Bool) (now : ℕ) (p : Pass) (s : System) (ph : Phase)
      → p.phase ≡ ph
      → s.pass ≡ some p
      → Accounted tc gc s
      → Accounted tc gc (list_from ok text_le now p s ph)
  list-Accounted false text_le now p s snapshot h e a =
      moved s none (rw (e, h) at a.counted) tt (omega (arith, a.global_capped)) a
  list-Accounted true text_le now p s snapshot h e a =
      moved s _ (rw (e, h) at a.counted) tt (rw e at a.global_capped) a
  list-Accounted ok text_le now p s (listed cs) h e a = a
  list-Accounted ok text_le now p s (reserved c cs) h e a = a
  list-Accounted ok text_le now p s (lost c cs) h e a = a

  query-Accounted :
      (ok : Bool) (text_le : ℕ → ℕ → Bool) (now : ℕ) (o : Option Pass) (s : System)
      → s.pass ≡ o
      → Accounted tc gc s
      → Accounted tc gc (list_candidates ok text_le now o s)
  unfolding list_candidates
  query-Accounted ok text_le now none s e a = a
  query-Accounted ok text_le now (some p) s e a = list-Accounted ok text_le now p s p.phase refl e a

  take-Accounted :
      (p : Pass) (s : System) (slots : ℕ) (cs : List Job)
      → p.slots ≡ slots
      → Counted tc s.queue.inflight s.active
      → length s.active + p.slots ≤ gc
      → Accounted tc gc s
      → Accounted tc gc (take_candidate p s slots cs)
  take-Accounted p s zero cs e k g a = moved s none k tt (omega (arith, g)) a
  take-Accounted p s (suc slots) [] e k g a = moved s none k tt (omega (arith, g)) a
  take-Accounted p s (suc slots) (c ∷ cs) e k g a =
      elim (Bool-cases (may_reserve p.kinds c s.queue)) [
        | inr f ↦ rw f (moved s _ k tt g a)
        | inl t ↦ rw t (record {
          counted =
              reserve-Counted tc c s.queue.inflight s.active (ground (arith, t, a.tenant_setting))
                k;
          slot_left = omega (arith, e);
          global_capped = g;
          tenant_setting = a.tenant_setting;
          global_setting = a.global_setting;
        })
      ]

  update-Accounted :
      (p : Pass) (s : System) (c : Job) (cs : List Job) (out : List Job × Bool)
      → Counted tc s.queue.inflight (c ∷ s.active)
      → 1 ≤ p.slots
      → length s.active + p.slots ≤ gc
      → Accounted tc gc s
      → Accounted tc gc (after_update p s c cs out)
  update-Accounted p s c cs (rows, true) k l g a = record {
    counted = claimed-Counted tc c (record c { state = running }) s.queue.inflight s.active refl k;
    slot_left = tt;
    global_capped = omega (arith, l, g);
    tenant_setting = a.tenant_setting;
    global_setting = a.global_setting;
  }
  update-Accounted p s c cs (rows, false) k l g a = record {
    counted = k;
    slot_left = tt;
    global_capped = g;
    tenant_setting = a.tenant_setting;
    global_setting = a.global_setting;
  }

  go_on-Accounted :
      (ok : Bool) (p : Pass) (s : System) (ph : Phase)
      → p.phase ≡ ph
      → s.pass ≡ some p
      → Accounted tc gc s
      → Accounted tc gc (go_on ok p s ph)
  unfolding remove_at
  go_on-Accounted ok p s snapshot h e a = a
  go_on-Accounted ok p s (listed cs) h e a =
      take-Accounted p s p.slots cs refl (rw (e, h) at a.counted) (rw e at a.global_capped) a
  go_on-Accounted ok p s (reserved c cs) h e a =
      update-Accounted p s c cs (claim_row ok c.id p.now s.queue.rows) (rw (e, h) at a.counted)
        (rw (e, h) at a.slot_left) (rw e at a.global_capped) a
  go_on-Accounted ok p s (lost c cs) h e a = record {
    counted = release-Counted tc 0 c s.queue.inflight (c ∷ s.active) refl (rw (e, h) at a.counted);
    slot_left = tt;
    global_capped = rw e at a.global_capped;
    tenant_setting = a.tenant_setting;
    global_setting = a.global_setting;
  }

  next-Accounted :
      (ok : Bool) (o : Option Pass) (s : System)
      → s.pass ≡ o
      → Accounted tc gc s
      → Accounted tc gc (take_next ok o s)
  unfolding take_next
  next-Accounted ok none s e a = a
  next-Accounted ok (some p) s e a = go_on-Accounted ok p s p.phase refl e a

  -- One active job fewer, whether or not a slot is reserved.
  settled-Counted :
      (i : ℕ) (j : Job) (o : Option Pass) (s : System)
      → get_elem? s.active i ≡ some j
      → Counted tc s.queue.inflight (reserved_of o ++ s.active)
      → Counted tc (release j.tenant s.queue.inflight) (reserved_of o ++ remove_at i s.active)
  unfolding remove_at
  settled-Counted i j none s e k = release-Counted tc i j s.queue.inflight s.active e k
  settled-Counted i j (some p) s e k = by_phase p.phase k
    where
      by_phase :
          (ph : Phase)
          → Counted tc s.queue.inflight (reserved_in ph ++ s.active)
          → Counted tc (release j.tenant s.queue.inflight) (reserved_in ph ++ remove_at i s.active)
      by_phase snapshot k = release-Counted tc i j s.queue.inflight s.active e k
      by_phase (listed cs) k = release-Counted tc i j s.queue.inflight s.active e k
      by_phase (reserved c cs) k = release-Counted tc (suc i) j s.queue.inflight (c ∷ s.active) e k
      by_phase (lost c cs) k = release-Counted tc (suc i) j s.queue.inflight (c ∷ s.active) e k

  finish-Accounted :
      (saved : Bool) (i now : ℕ) (err : Option ErrorText) (o : Option Job) (s : System)
      → get_elem? s.active i ≡ o
      → Accounted tc gc s
      → Accounted tc gc (settle_active saved i now err o s)
  unfolding settle
  finish-Accounted saved i now err none s e a = a
  finish-Accounted saved i now err (some j) s e a = record {
    counted = settled-Counted i j s.pass s e a.counted;
    slot_left = a.slot_left;
    global_capped = omega (arith, a.global_capped, length-remove_at i s.active j e);
    tenant_setting = a.tenant_setting;
    global_setting = a.global_setting;
  }

  -- A queue with the same counts and settings is accounted for alike.
  recount :
      (s : System) (q : Queue)
      → q.inflight ≡ s.queue.inflight
      → q.per_tenant_cap ≡ s.queue.per_tenant_cap
      → q.global_cap ≡ s.queue.global_cap
      → Accounted tc gc s
      → Accounted tc gc (record s { queue = q })
  recount s q e t g a = record {
    counted = rw e a.counted;
    slot_left = a.slot_left;
    global_capped = a.global_capped;
    tenant_setting = t ∙ a.tenant_setting;
    global_setting = g ∙ a.global_setting;
  }

  emptied-Accounted :
      (q : Queue) → q.per_tenant_cap ≡ tc → q.global_cap ≡ gc → Accounted tc gc (opened q)
  emptied-Accounted q t g = record {
    counted = empty-Counted tc;
    slot_left = tt;
    global_capped = omega arith;
    tenant_setting = t;
    global_setting = g;
  }

  step-Accounted : (s : System) (e : Event) → Accounted tc gc s → Accounted tc gc (step s e)
  unfolding step enqueue register
  step-Accounted s (add_handler kind h) a = recount s (register kind h s.queue) refl refl refl a
  step-Accounted s (submit fresh now inserted tenant kind payload run_after) a =
      recount s (enqueue fresh now inserted tenant kind payload run_after s.queue).0 (ground arith)
        (ground arith) (ground arith) a
  step-Accounted s begin a = begin-Accounted s.pass s refl a
  step-Accounted s (query ok text_le now) a = query-Accounted ok text_le now s.pass s refl a
  step-Accounted s (next ok) a = next-Accounted ok s.pass s refl a
  step-Accounted s (finish saved i now err) a =
      finish-Accounted saved i now err (get_elem? s.active i) s refl a
  step-Accounted s restart a = emptied-Accounted s.queue a.tenant_setting a.global_setting

  run_events-Accounted :
      (s : System) (es : List Event) → Accounted tc gc s → Accounted tc gc (run_events s es)
  unfolding run_events
  run_events-Accounted s [] a = a
  run_events-Accounted s (e ∷ es) a = run_events-Accounted (step s e) es (step-Accounted s e a)

-- From a queue that was just opened, after any interleaving of enqueues, registrations, the steps of one
-- lease at a time (its snapshot, its query, and for each candidate the reservation of a slot, the UPDATE
-- and the return of the slot), handlers that end in any order with any outcome and their rows written or
-- not, and restarts: the map of counts holds for each tenant exactly its active jobs and the candidate
-- whose slot the lease has reserved, no tenant has more of these than the tenant cap, and the active jobs,
-- with the slots that are left to the lease, are no more than the global cap.
pub events-Accounted :
    (q : Queue) (es : List Event)
    → Accounted q.per_tenant_cap q.global_cap (run_events (opened q) es)
events-Accounted q es =
    run_events-Accounted q.per_tenant_cap q.global_cap (opened q) es
      (emptied-Accounted q.per_tenant_cap q.global_cap q refl refl)

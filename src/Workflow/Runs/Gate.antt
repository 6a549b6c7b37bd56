-- ===== src/Workflow/Runs/Gate.antt =====
-- A step that can be reached only through an approval runs only when the approval was given.
use cyntr.Common.{
  ℕ, zero, suc, ◌+◌, ◌++◌, String, ◌≡◌, ◌≢◌, refl, sym, ap, ◌∙◌, ◌⊎◌, inl, inr, subst, Option, some,
  true, false, ◌==◌, string_eq, str_iff, Bool-cases, Option-cases,
}
use mathlib.Core.Option.{some-injective}
use cyntr.Common.Int.{pos_part}
use cyntr.Workflow.{Step, StepType, approval, Workflow, StepResult}
use cyntr.Workflow.Calls.{
  World, Exec, Outcome, ApprovalReply, answered, approval_error, store, is_success,
  approval_request, config_of, or_default,
}
use cyntr.Workflow.Nested.{last_step}
use cyntr.Workflow.Steps.{dispatch, execute_step, execute_approval, approval_result}
use cyntr.Workflow.Runs.{at, on_failure, enter, retry, attempt, round}
use cyntr.Common.{◌∷◌}
use cyntr.Common.{List}
use cyntr.Common.{[]}

last_step-id : (id : String) (ss : List Step) (s : Step) → last_step id ss ≡ some s → s.id ≡ id
unfolding last_step
last_step-id id [] s h = absurd (cc h)
last_step-id id (t ∷ ss) s h = elim (Option-cases (last_step id ss)) [
  | inr (u, e) ↦ last_step-id id ss s (e ∙ (rw (e, last_step) at h))
  | inl n ↦ elim (Bool-cases (t.id == id)) [
    | inl y ↦
        ap (λ (x : Step). x.id) (sym (some-injective _ _ (rw (n, last_step, y) at h)))
        ∙ (str_iff t.id id).0 y
    | inr f ↦ absurd (cc (rw (n, last_step, f) at h))
  ]
]

module _ (fuel : ℕ) (w : World) (wf : Option Workflow) where
  -- The loop of executeWorkflow comes to stand before a step.
  pub data Visits (running : Workflow) (x₀ : Exec) : String → Exec → Type 0 where
    start : Visits running x₀ running.start_step x₀
    follow :
        {id : String} {x : Exec} {next : String} {y : Exec}
        → Visits running x₀ id x
        → (id == "") ≡ false
        → round fuel w wf running id x ≡ some (at next y)
        → Visits running x₀ next y

  -- A step's success edge was taken, with the attempt that succeeded.
  record Led (s : Step) (next : String) (y : Exec) : Type 0 where
    led : next ≡ s.on_success
    before : Exec
    result : StepResult
    after : Exec
    ran : execute_step fuel w wf s before ≡ some (result, after)
    succeeded : is_success result ≡ true
    stored : y ≡ store s.id result after

  at-injective : (i j : String) (x y : Exec) → some (at i x) ≡ some (at j y) → (i ≡ j) × (x ≡ y)
  at-injective i j x y e = (cc e, cc e)

  on_failure-edge :
      (s : Step) (error : String) (x : Exec) (next : String) (y : Exec)
      → some (on_failure s error x) ≡ some (at next y)
      → next ≡ s.on_failure
  on_failure-edge s error x next y e = elim (Bool-cases (s.on_failure == "")) [
    | inl t ↦ absurd (cc (rw t at e))
    | inr n ↦ sym ((at-injective s.on_failure next x y (rw n at e)).0)
  ]

  success-edge :
      (s : Step) (x : Exec) (r : StepResult) (z : Exec) (next : String) (y : Exec)
      → execute_step fuel w wf s x ≡ some (r, z)
      → is_success r ≡ true
      → some (at s.on_success (store s.id r z)) ≡ some (at next y)
      → Led s next y
  success-edge s x r z next y e t h =
      let i = at-injective s.on_success next (store s.id r z) y h in
      record {
        led = sym i.0;
        before = x;
        result = r;
        after = z;
        ran = e;
        succeeded = t;
        stored = sym i.1;
      }

  retry-edge :
      (s : Step) (error : String) (n : ℕ) (x : Exec) (next : String) (y : Exec)
      → retry fuel w wf s error n x ≡ some (at next y)
      → (next ≡ s.on_failure) ⊎ Led s next y
  unfolding retry
  retry-edge s error zero x next y h = inl (on_failure-edge s error x next y h)
  retry-edge s error (suc n) x next y h = elim (Option-cases (execute_step fuel w wf s x)) [
    | inl e ↦ absurd (cc (rw (e, retry) at h))
    | inr ((r, z), e) ↦ elim (Bool-cases (is_success r)) [
      | inl t ↦ inr (success-edge s x r z next y e t (rw (e, retry, t) at h))
      | inr f ↦ retry-edge s error n (store s.id r z) next y (rw (e, retry, f) at h)
    ]
  ]

  attempt-edge :
      (s : Step) (x : Exec) (next : String) (y : Exec)
      → attempt fuel w wf s x ≡ some (at next y)
      → (next ≡ s.on_failure) ⊎ Led s next y
  unfolding attempt
  attempt-edge s x next y h = elim (Option-cases (execute_step fuel w wf s x)) [
    | inl e ↦ absurd (cc (rw (e, attempt) at h))
    | inr ((r, z), e) ↦ elim (Bool-cases (is_success r)) [
      | inl t ↦ inr (success-edge s x r z next y e t (rw (e, attempt, t) at h))
      | inr f ↦
          retry-edge s r.error (pos_part s.retry_count) (store s.id r z) next y
            (rw (e, attempt, f) at h)
    ]
  ]

  round-edge :
      (running : Workflow) (id : String) (x : Exec) (next : String) (y : Exec)
      → round fuel w wf running id x ≡ some (at next y)
      → (s : Step) × (last_step id running.steps ≡ some s) × ((next ≡ s.on_failure) ⊎ Led s next y)
  unfolding round
  round-edge running id x next y h = elim (Option-cases (last_step id running.steps)) [
    | inl e ↦ absurd (cc (rw (e, round) at h))
    | inr (s, e) ↦ (s, e, attempt-edge s (enter id x) next y (rw (e, round) at h))
  ]

  -- The last call that the run has made is the approval request of the step, answered "approved".
  pub record Approved (id : String) (y : Exec) : Type 0 where
    pub before : Exec
    pub reason : String
    pub asked :
        y.sent
        ≡ before.sent ++ (approval_request before.run.workflow_id before.run.id id reason ∷ [])
    pub counted : y.calls ≡ before.calls + 1
    pub given : w.approve before.calls ≡ answered "approved"

  approval_result-approved :
      (s : Step) (r : ApprovalReply)
      → is_success (approval_result s r) ≡ true
      → r ≡ answered "approved"
  approval_result-approved s (approval_error e) h = absurd (cc h)
  approval_result-approved s (answered text) h = elim (Bool-cases (text == "approved")) [
    | inl y ↦ ap answered ((str_iff text "approved").0 y)
    | inr n ↦ absurd (cc (rw n at h))
  ]

  dispatch-Approved :
      (f : ℕ) (rec : Step → Exec → Outcome) (k : StepType) (s : Step) (x : Exec) (r : StepResult)
      (y : Exec)
      → k ≡ approval
      → dispatch f w wf rec k s x ≡ some (r, y)
      → is_success r ≡ true
      → Approved s.id y
  unfolding execute_approval
  dispatch-Approved f rec k s x r y e h t =
      let h' : some (execute_approval w s x) ≡ some (r, y) = rw e at h in
      let same = some-injective _ _ h' in
      let r' = ap (λ (p : StepResult × Exec). p.0) same in
      record {
        before = x;
        reason = or_default "Approval required to continue workflow" (config_of "reason" s);
        asked = sym (ap (λ (p : StepResult × Exec). p.1.sent) same);
        counted = sym (ap (λ (p : StepResult × Exec). p.1.calls) same);
        given = approval_result-approved s (w.approve x.calls) (ap is_success r' ∙ t);
      }

  execute_step-Approved :
      (f : ℕ) (s : Step) (x : Exec) (r : StepResult) (y : Exec)
      → s.kind ≡ approval
      → execute_step f w wf s x ≡ some (r, y)
      → is_success r ≡ true
      → Approved s.id y
  unfolding execute_step
  execute_step-Approved zero s x r y k h t = absurd (cc h)
  execute_step-Approved (suc f) s x r y k h t =
      dispatch-Approved (suc f) (execute_step f w wf) s.kind s x r y k h t

  -- The only edge to the step `guarded` is the success edge of the approval step `gate`.
  pub record Guards (running : Workflow) (gate guarded : String) : Type 0 where
    pub gate_step : Step
    pub found : last_step gate running.steps ≡ some gate_step
    pub asks : gate_step.kind ≡ approval
    pub not_first : guarded ≢ running.start_step
    pub no_failure_edge : gate_step.on_failure ≢ guarded
    pub no_other_edge :
        (id : String) (s : Step)
        → last_step id running.steps ≡ some s
        → id ≢ gate
        → (s.on_success ≢ guarded) × (s.on_failure ≢ guarded)

  store-Approved :
      (id key : String) (r : StepResult) (y : Exec) → Approved id y → Approved id (store key r y)
  store-Approved id key r y a = record {
    before = a.before;
    reason = a.reason;
    asked = a.asked;
    counted = a.counted;
    given = a.given;
  }

  Led-Approved :
      (s : Step) (next : String) (y : Exec) → s.kind ≡ approval → Led s next y → Approved s.id y
  Led-Approved s next y k l = subst (Approved s.id) (sym l.stored) (
      store-Approved s.id s.id l.result l.after
        (execute_step-Approved fuel s l.before l.result l.after k l.ran l.succeeded))

  edge-Approved :
      (running : Workflow) (gate guarded id : String) (s : Step) (y : Exec)
      → Guards running gate guarded
      → last_step id running.steps ≡ some s
      → (guarded ≡ s.on_failure) ⊎ Led s guarded y
      → Approved gate y
  edge-Approved running gate guarded id s y g e edge = elim (Bool-cases (id == gate)) [
    | inr n ↦
        let other = g.no_other_edge id s e (λ p. cc (n, (str_iff id gate).1 p)) in
        elim edge [ inl f ↦ absurd (other.1 (sym f)) | inr l ↦ absurd (other.0 (sym l.led)) ]
    | inl p ↦
        let same : g.gate_step ≡ s = some-injective _ _ (
          sym g.found
          ∙ ap (λ (i : String). last_step i running.steps) (sym ((str_iff id gate).0 p))
          ∙ e) in
        elim edge [
          | inl f ↦ absurd (g.no_failure_edge (ap (λ (t : Step). t.on_failure) same ∙ sym f))
          | inr l ↦
              subst (λ (i : String). Approved i y)
                (last_step-id id running.steps s e ∙ (str_iff id gate).0 p)
                (Led-Approved s guarded y (ap (λ (t : Step). t.kind) (sym same) ∙ g.asks) l)
        ]
  ]

  Visits-Approved :
      (running : Workflow) (x₀ : Exec) (gate guarded id : String) (y : Exec)
      → Guards running gate guarded
      → id ≡ guarded
      → Visits running x₀ id y
      → Approved gate y
  Visits-Approved running x₀ gate guarded id y g e start = absurd (g.not_first (sym e))
  Visits-Approved running x₀ gate guarded id y g e (follow {id = from} {x = x} v live h) =
      let (s, found, edge) = round-edge running from x id y h in
      edge-Approved running gate guarded from s y g found
        (subst (λ (n : String). (n ≡ s.on_failure) ⊎ Led s n y) e edge)

-- Whenever a run comes to stand before a step whose only edge comes from the success of an approval
-- step, and which is not the first step, the last call that the run has made is the request of that
-- approval, and it was answered "approved": errors, other answers and failure edges do not lead there.
pub gate-Approved :
    (fuel : ℕ) (w : World) (wf : Option Workflow) (running : Workflow) (x₀ y : Exec)
    (gate guarded : String)
    → Guards fuel w wf running gate guarded
    → Visits fuel w wf running x₀ guarded y
    → Approved fuel w wf gate y
gate-Approved fuel w wf running x₀ y gate guarded g v =
    Visits-Approved fuel w wf running x₀ gate guarded guarded y g refl v

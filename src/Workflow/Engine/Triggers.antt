-- ===== src/Workflow/Engine/Triggers.antt =====
-- The cache of compiled patterns does not change which workflows an event starts.
use Prim.Native.String.{len}
use cyntr.Common.{
  String, ◌≡◌, refl, sym, ap, ◌∙◌, inl, inr, List, [], ◌∷◌, Option, none, some, Bool, true, false,
  ◌==◌, string_eq, str_iff, ltb, if◌then◌else◌, Bool-cases, Option-cases, arith, map, select,
}
use cyntr.Common.Dict.{Dict, get, get-put}
use cyntr.Workflow.{Trigger}
use cyntr.Workflow.Engine.{
  Regex, Engine, Topic, Payload, Reply, compile_pattern, remember, match_triggers, fire,
  append_trigger, add_payload, activity_payload, register_payload, run_payload, text_payload,
  submit_payload, send_input, submit, register_workflow, run_workflow, run_status, workflow_of,
  trigger_of, new_engine, fires, workflow, params, text, trigger, activity, register, run, status,
  list, list_runs, get_workflow, submit_input, trigger_add, trigger_list, agent_activity,
}
use cyntr.Workflow.Engine.{handle}
use cyntr.Workflow.Engine.{add_trigger}

register_cache : (p : Payload) (e : Engine) → (register_payload p e).0.regex_cache ≡ e.regex_cache
unfolding register_workflow
register_cache (workflow wf) e = ground arith
register_cache _ e = refl

run_cache : (p : Payload) (e : Engine) → (run_payload p e).0.regex_cache ≡ e.regex_cache
unfolding run_workflow
run_cache (params m) e = ground arith
run_cache _ e = refl

text_cache :
    (f : String → Engine → Reply) (p : Payload) (e : Engine)
    → (text_payload f p e).0.regex_cache ≡ e.regex_cache
text_cache f (text id) e = refl
text_cache f _ e = refl

send_cache :
    (id input : String) (o : Option (Option String)) (e : Engine)
    → (send_input id input o e).0.regex_cache ≡ e.regex_cache
send_cache id input none e = refl
send_cache id input (some none) e = refl
send_cache id input (some (some earlier)) e = refl

submit_cache : (p : Payload) (e : Engine) → (submit_payload p e).0.regex_cache ≡ e.regex_cache
unfolding submit
submit_cache (params m) e = send_cache _ _ _ e
submit_cache _ e = refl

module _ (compile : String → Option Regex) where
  -- Go's regexp on a pattern that is allowed.
  abbrev pub allowed : String → Option Regex
  allowed pattern =
      if pattern == "" then none else if ltb 512 (len pattern) then none else compile pattern

  abbrev pub matched : String → String → Option Regex → Bool
  matched event detail none = false
  matched event detail (some re) = if re event then true else re detail

  -- Whether a trigger fires, without the cache.
  abbrev pub fires_on : String → String → Trigger → Bool
  fires_on event detail t =
      if t.kind == "audit_event" then matched event detail (allowed t.pattern) else false

  abbrev pub target : Trigger → String
  target t = t.workflow_id

  -- The cache holds what compiling gives.
  abbrev CacheOk : Engine → Type 0
  CacheOk e = (p : String) (re : Regex) → get p e.regex_cache ≡ some re → compile p ≡ some re

  record Compiled (pattern : String) (e : Engine) : Type 0 where
    same : (compile_pattern compile pattern e).1 ≡ allowed pattern
    cache : CacheOk (compile_pattern compile pattern e).0
    triggers : (compile_pattern compile pattern e).0.triggers ≡ e.triggers

  remember-CacheOk :
      (pattern : String) (o : Option Regex) (e : Engine)
      → compile pattern ≡ o
      → CacheOk e
      → CacheOk (remember pattern o e).0
  remember-CacheOk pattern none e h k p re g = k p re g
  remember-CacheOk pattern (some re') e h k p re g = elim (Bool-cases (pattern == p)) [
    | inl y ↦
        ap compile (sym ((str_iff pattern p).0 y))
        ∙ h
        ∙ (rw y at (sym (get-put pattern p re' e.regex_cache) ∙ g))
    | inr n ↦ k p re (rw n at (sym (get-put pattern p re' e.regex_cache) ∙ g))
  ]

  remember-result :
      (pattern : String) (o : Option Regex) (e : Engine) → (remember pattern o e).1 ≡ o
  remember-result pattern none e = refl
  remember-result pattern (some re) e = refl

  remember-triggers :
      (pattern : String) (o : Option Regex) (e : Engine)
      → (remember pattern o e).0.triggers ≡ e.triggers
  remember-triggers pattern none e = refl
  remember-triggers pattern (some re) e = refl

  compile_pattern-Compiled : (pattern : String) (e : Engine) → CacheOk e → Compiled pattern e
  unfolding compile_pattern
  compile_pattern-Compiled pattern e k = elim (Bool-cases (pattern == "")) [
    | inl y ↦ record { same = rw y refl; cache = rw y k; triggers = rw y refl }
    | inr n ↦ elim (Bool-cases (ltb 512 (len pattern))) [
      | inl y ↦ record { same = rw (n, y) refl; cache = rw (n, y) k; triggers = rw (n, y) refl }
      | inr m ↦ elim (Option-cases (get pattern e.regex_cache)) [
        | inl g ↦ record {
          same = rw (n, m, g) (remember-result pattern (compile pattern) e);
          cache = rw (n, m, g) (remember-CacheOk pattern (compile pattern) e refl k);
          triggers = rw (n, m, g) (remember-triggers pattern (compile pattern) e);
        }
        | inr (re, g) ↦ record {
          same = rw (n, m, g) (sym (k pattern re g));
          cache = rw (n, m, g) k;
          triggers = rw (n, m, g) refl;
        }
      ]
    ]
  ]

  record Matched (event detail : String) (ts : List Trigger) (e : Engine) : Type 0 where
    ids :
        (match_triggers compile event detail ts e).1
        ≡ map target (select (fires_on event detail) ts)
    cache : CacheOk (match_triggers compile event detail ts e).0

  fire-matched :
      (event detail : String) (t : Trigger) (o : Option Regex) (ts : List Trigger)
      → fire t event detail o (map target (select (fires_on event detail) ts)) ≡ (
          if matched event detail o
          then t.workflow_id ∷ map target (select (fires_on event detail) ts)
          else map target (select (fires_on event detail) ts))
  fire-matched event detail t none ts = refl
  fire-matched event detail t (some re) ts = elim (Bool-cases (re event)) [
    | inl y ↦ rw y refl
    | inr n ↦ rw n refl
  ]

  select-if :
      (event detail : String) (t : Trigger) (ts : List Trigger) (b : Bool)
      → fires_on event detail t ≡ b
      → map target (select (fires_on event detail) (t ∷ ts)) ≡ (
          if b
          then t.workflow_id ∷ map target (select (fires_on event detail) ts)
          else map target (select (fires_on event detail) ts))
  unfolding select
  select-if event detail t ts true h = rw h refl
  select-if event detail t ts false h = rw h refl

  match_triggers-Matched :
      (event detail : String) (ts : List Trigger) (e : Engine)
      → CacheOk e
      → Matched event detail ts e
  unfolding match_triggers select
  match_triggers-Matched event detail [] e k = record { ids = refl; cache = k }
  match_triggers-Matched event detail (t ∷ ts) e k = elim (Bool-cases (t.kind == "audit_event")) [
    | inr n ↦
        let ih = match_triggers-Matched event detail ts e k in
        let l : (match_triggers compile event detail (t ∷ ts) e).1
            ≡ map target (select (fires_on event detail) ts) =
          rw (n, match_triggers) ih.ids in
        let off : fires_on event detail t ≡ false = rw n refl in
        record {
          ids = l ∙ sym (select-if event detail t ts false off);
          cache = rw (n, match_triggers) ih.cache;
        }
    | inl y ↦
        let c = compile_pattern-Compiled t.pattern e k in
        let ih =
          match_triggers-Matched event detail ts (compile_pattern compile t.pattern e).0 c.cache in
        let rest = map target (select (fires_on event detail) ts) in
        let l : (match_triggers compile event detail (t ∷ ts) e).1
            ≡ (if matched event detail (allowed t.pattern) then t.workflow_id ∷ rest else rest) =
          rw (y, match_triggers)
            (ap (fire t event detail (compile_pattern compile t.pattern e).1) ih.ids
              ∙ fire-matched event detail t (compile_pattern compile t.pattern e).1 ts
              ∙ ap
                  (λ (o : Option Regex).
                    if matched event detail o then t.workflow_id ∷ rest else rest)
                  c.same) in
        let on : fires_on event detail t ≡ matched event detail (allowed t.pattern) = rw y refl in
        record {
          ids = l ∙ sym (select-if event detail t ts (matched event detail (allowed t.pattern)) on);
          cache = rw (y, match_triggers) ih.cache;
        }
  ]

  same_cache : (e e' : Engine) → e'.regex_cache ≡ e.regex_cache → CacheOk e → CacheOk e'
  same_cache e e' h k p re g = k p re (ap (λ (m : Dict String Regex). get p m) (sym h) ∙ g)

  append-CacheOk :
      (t : Trigger) (r : Engine × Option Regex) → CacheOk r.0 → CacheOk (append_trigger t r).0
  append-CacheOk t (e, none) k p re g = k p re g
  append-CacheOk t (e, some r) k p re g = k p re g

  add_trigger-CacheOk : (t : Trigger) (e : Engine) → CacheOk e → CacheOk (add_trigger compile t e).0
  unfolding add_trigger
  add_trigger-CacheOk t e k =
      append-CacheOk t (compile_pattern compile t.pattern e)
        (compile_pattern-Compiled t.pattern e k).cache

  add_payload-CacheOk : (p : Payload) (e : Engine) → CacheOk e → CacheOk (add_payload compile p e).0
  add_payload-CacheOk (trigger t) e k = add_trigger-CacheOk t e k
  add_payload-CacheOk (params m) e k = add_trigger-CacheOk (trigger_of m) e k
  add_payload-CacheOk _ e k = k

  activity-CacheOk :
      (p : Payload) (e : Engine) → CacheOk e → CacheOk (activity_payload compile p e).0
  activity-CacheOk (activity event detail) e k =
      (match_triggers-Matched event detail e.triggers e k).cache
  activity-CacheOk _ e k = k

  handle-CacheOk :
      (topic : Topic) (p : Payload) (e : Engine) → CacheOk e → CacheOk (handle compile topic p e).0
  unfolding handle
  handle-CacheOk register p e k = same_cache e (register_payload p e).0 (register_cache p e) k
  handle-CacheOk run p e k = same_cache e (run_payload p e).0 (run_cache p e) k
  handle-CacheOk status p e k =
      same_cache e (text_payload run_status p e).0 (text_cache run_status p e) k
  handle-CacheOk list p e k = k
  handle-CacheOk list_runs p e k = k
  handle-CacheOk get_workflow p e k =
      same_cache e (text_payload workflow_of p e).0 (text_cache workflow_of p e) k
  handle-CacheOk submit_input p e k = same_cache e (submit_payload p e).0 (submit_cache p e) k
  handle-CacheOk trigger_add p e k = add_payload-CacheOk p e k
  handle-CacheOk trigger_list p e k = k
  handle-CacheOk agent_activity p e k = activity-CacheOk p e k

  -- The engine after messages on any topics.
  unfoldable pub handle_all : List (Topic × Payload) → Engine → Engine
  handle_all [] e = e
  handle_all ((topic, p) ∷ rest) e = handle_all rest (handle compile topic p e).0

  handle_all-CacheOk :
      (msgs : List (Topic × Payload)) (e : Engine) → CacheOk e → CacheOk (handle_all msgs e)
  unfolding handle_all
  handle_all-CacheOk [] e k = k
  handle_all-CacheOk ((topic, p) ∷ rest) e k =
      handle_all-CacheOk rest _ (handle-CacheOk topic p e k)

-- After any messages to a new engine, an activity event starts exactly the workflows of those triggers,
-- in order, that are of type audit_event and whose pattern is neither empty nor longer than 512 bytes,
-- compiles, and matches the event's type or its detail: as if every pattern were compiled anew.
pub agent_activity-fires :
    (compile : String → Option Regex) (msgs : List (Topic × Payload)) (event detail : String)
    → let e = handle_all compile msgs new_engine in
      (handle compile agent_activity (activity event detail) e).1
      ≡ fires (map (target compile) (select (fires_on compile event detail) e.triggers))
unfolding handle new_engine get
agent_activity-fires compile msgs event detail =
    let e = handle_all compile msgs new_engine in
    let k = handle_all-CacheOk compile msgs new_engine (λ p re g. absurd (cc g)) in
    ap fires (match_triggers-Matched compile event detail e.triggers e k).ids

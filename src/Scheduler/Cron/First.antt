-- ===== src/Scheduler/Cron/First.antt =====
-- Next finds the first minute that matches, within its bound.
use cyntr.Common.{
  ℕ, zero, suc, ◌+◌, ◌-◌, ◌*◌, ◌%◌, ◌≤◌, ◌<◌, ◌≡◌, sym, ap, ◌∙◌, ◌⊎◌, inl, inr, Bool, true, false,
  Bool-cases, arith,
}
use cyntr.Scheduler.Cron.{Calendar, CronSchedule, matches, minute_ns, max_rounds, next_from, next}

module _ (calendar : ℕ → Calendar) (cs : CronSchedule) where
  -- Whether the schedule matches k minutes after a moment.
  abbrev pub on : ℕ → ℕ → Bool
  on t k = matches cs (calendar (t + k * 60_000_000_000))

  -- The first match among the minutes from t on, of which there are `bound`.
  pub record IsFirst (bound t result : ℕ) : Type 0 where
    pub minutes : ℕ
    pub within : minutes < bound
    pub at : result ≡ t + minutes * 60_000_000_000
    pub matching : on t minutes ≡ true
    pub none_before : (j : ℕ) → j < minutes → on t j ≡ false

  -- No minute among them matches; the result is the moment behind them.
  pub record IsGivenUp (bound t result : ℕ) : Type 0 where
    pub at : result ≡ t + bound * 60_000_000_000
    pub none_there : (j : ℕ) → j < bound → on t j ≡ false

  on-zero : (t : ℕ) → on t 0 ≡ matches cs (calendar t)
  on-zero t = ap (λ (x : ℕ). matches cs (calendar x)) (omega arith)

  on-suc : (t j : ℕ) → on (t + minute_ns) j ≡ on t (suc j)
  on-suc t j = ap (λ (x : ℕ). matches cs (calendar x)) (omega arith)

  before-suc :
      (t n : ℕ)
      → matches cs (calendar t) ≡ false
      → ((j : ℕ) → j < n → on (t + minute_ns) j ≡ false)
      → (j : ℕ) → j < suc n
      → on t j ≡ false
  before-suc t n f h zero l = on-zero t ∙ f
  before-suc t n f h (suc j) l = sym (on-suc t j) ∙ h j (omega (arith, l))

  next_from-cases :
      (n t : ℕ)
      → IsFirst n t (next_from calendar cs n t) ⊎ IsGivenUp n t (next_from calendar cs n t)
  unfolding next_from
  next_from-cases zero t =
      inr (record { at = omega arith; none_there = λ j l. absurd (omega (arith, l)) })
  next_from-cases (suc n) t = elim (Bool-cases (matches cs (calendar t))) [
    | inl m ↦ inl (
        rw (m, next_from)
          (record {
            minutes = 0;
            within = omega arith;
            at = omega arith;
            matching = on-zero t ∙ m;
            none_before = λ j l. absurd (omega (arith, l));
          }))
    | inr f ↦ elim (next_from-cases n (t + minute_ns)) [
      | inl r ↦ inl (
          rw (f, next_from)
            (record {
              minutes = suc r.minutes;
              within = omega (arith, r.within);
              at = omega (arith, r.at);
              matching = sym (on-suc t r.minutes) ∙ r.matching;
              none_before = before-suc t r.minutes f r.none_before;
            }))
      | inr r ↦ inr (
          rw (f, next_from)
            (record { at = omega (arith, r.at); none_there = before-suc t n f r.none_there }))
    ]
  ]

-- Where the search of Next starts: the first whole minute after `from`.
pub record IsNext (calendar : ℕ → Calendar) (cs : CronSchedule) (from result : ℕ) : Type 0 where
  pub start : ℕ
  pub whole : start % 60_000_000_000 ≡ 0
  pub later : from < start
  pub soon : start ≤ from + 60_000_000_000
  pub found : IsFirst calendar cs 525_960 start result ⊎ IsGivenUp calendar cs 525_960 start result

-- From the first whole minute after `from` on, Next gives the first minute that matches the schedule; if
-- none of 525,960 minutes (about a year) matches, it gives the minute behind them, without a test
-- of whether that one matches.
pub next-IsNext :
    (calendar : ℕ → Calendar) (cs : CronSchedule) (from : ℕ)
    → IsNext calendar cs from (next calendar cs from)
unfolding next
next-IsNext calendar cs from = record {
  start = from - from % minute_ns + minute_ns;
  whole = omega arith;
  later = omega arith;
  soon = omega arith;
  found = next_from-cases calendar cs max_rounds (from - from % minute_ns + minute_ns);
}

-- ===== src/Scheduler/Cron.antt =====
-- modules/scheduler/cron.go: five-field cron expressions. Numbers are unbounded: a step so large that
-- adding it to a minute overflows an int64 is outside the model.
pub mod First
pub mod Rounds
use Prim.Native.Char.{Char, code}
use cyntr.Common.{
  ◌>>=◌, ℕ, zero, suc, ◌+◌, ◌-◌, ◌*◌, ◌^◌, ◌%◌, String, List, [], ◌∷◌, ◌++◌, Option, none, some,
  Bool, true, false, ◌&&◌, ◌||◌, ◌==◌, string_eq, nat_eq, nat_beq, ltb, leb, if◌then◌else◌, any,
}
use cyntr.Common.Text.{is_space, split_list, split_on, cut_at}

pub record CronSchedule : Type 0 where
  pub minutes : List ℕ
  pub hours : List ℕ
  pub days : List ℕ
  pub months : List ℕ
  pub weekdays : List ℕ

abbrev pub not_empty : String → List String → List String
not_empty String.[] words = words
not_empty (String.◌∷◌ c s) words = String.◌∷◌ c s ∷ words

abbrev pub next_char : Char → String × List String → String × List String
next_char c (word, words) =
    if is_space (code c) then (String.[], not_empty word words) else (String.◌∷◌ c word, words)

-- strings.Fields: the word under way, and the words behind it.
unfoldable pub words_of : String → String × List String
words_of String.[] = (String.[], [])
words_of (String.◌∷◌ c s) = next_char c (words_of s)

unfoldable pub fields : String → List String
unfolding words_of is_space
fields s = let (word, words) = words_of s in not_empty word words

-- The value of decimal digits behind a value; none at another character.
unfoldable pub digits_from : ℕ → String → Option ℕ
digits_from n String.[] = some n
digits_from n (String.◌∷◌ c s) =
    let rest = digits_from (n * 10 + (code c - b'0')) s in
    if leb b'0' (code c) && leb (code c) b'9' then rest else none

abbrev pub in_int64 : Option ℕ → Option ℕ
in_int64 none = none
in_int64 (some n) = if ltb n (2 ^ 63) then some n else none

abbrev pub zero_only : Option ℕ → Option ℕ
zero_only none = none
zero_only (some zero) = some 0
zero_only (some (suc n)) = none

-- strconv.Atoi for the numbers that are not negative, "-0" among them: a negative number gives none, and
-- every caller makes an error of it too.
unfoldable pub atoi : String → Option ℕ
unfolding digits_from
atoi String.[] = none
atoi (String.◌∷◌ c String.[]) = in_int64 (digits_from 0 (String.◌∷◌ c String.[]))
atoi (String.◌∷◌ c (String.◌∷◌ d s)) =
    if nat_beq (code c) b'+'
    then in_int64 (digits_from 0 (String.◌∷◌ d s))
    else if nat_beq (code c) b'-'
    then zero_only (digits_from 0 (String.◌∷◌ d s))
    else in_int64 (digits_from 0 (String.◌∷◌ c (String.◌∷◌ d s)))

-- n values from `start` on
unfoldable pub count_up : ℕ → ℕ → List ℕ
count_up start zero = []
count_up start (suc n) = start ∷ count_up (start + 1) n

abbrev pub checked_range : ℕ → ℕ → Option ℕ → Option ℕ → Option (ℕ × ℕ)
checked_range lo hi (some start) (some end) =
    if ltb start lo || ltb hi end || ltb end start then none else some (start, end)
checked_range lo hi _ _ = none

-- The bounds of a range: the text before its first "-" and the text behind it.
unfoldable pub range_bounds : ℕ → ℕ → String → Option (ℕ × ℕ)
unfolding atoi
range_bounds lo hi s = elim (cut_at "-" s) [
  | none ↦ none
  | some (before, after) ↦ checked_range lo hi (atoi before) (atoi after)
]

abbrev pub values_between : ℕ × ℕ → List ℕ
values_between (start, end) = count_up start (end - start + 1)

unfoldable pub parse_range : ℕ → ℕ → String → Option (List ℕ)
unfolding range_bounds count_up
parse_range lo hi s = elim (range_bounds lo hi s) [ none ↦ none | some r ↦ some (values_between r) ]

-- for i := start; i <= end; i += step, on fuel: one round for each value up to the end is enough.
unfoldable pub step_up : ℕ → ℕ → ℕ → ℕ → List ℕ
step_up zero i end step = []
step_up (suc fuel) i end step =
    let rest = i ∷ step_up fuel (i + step) end step in if leb i end then rest else []

abbrev pub steps_in : ℕ → Option (ℕ × ℕ) → Option (List ℕ)
steps_in step none = none
steps_in step (some (start, end)) = some (step_up (end + 1 - start) start end step)

abbrev pub step_part : ℕ → ℕ → String → Option ℕ → Option (List ℕ)
step_part lo hi base none = none
step_part lo hi base (some zero) = none
step_part lo hi base (some (suc n)) =
    steps_in (suc n) (if base == "*" then some (lo, hi) else range_bounds lo hi base)

abbrev pub value_part : ℕ → ℕ → Option ℕ → Option (List ℕ)
value_part lo hi none = none
value_part lo hi (some v) = if ltb v lo || ltb hi v then none else some (v ∷ [])

abbrev pub plain_part : ℕ → ℕ → String → Option (String × String) → Option (List ℕ)
plain_part lo hi part none = value_part lo hi (atoi part)
plain_part lo hi part (some _) = parse_range lo hi part

-- One part of a field: with a step, a range, or a value.
unfoldable pub parse_part : ℕ → ℕ → String → Option (List ℕ)
unfolding parse_range step_up range_bounds atoi
parse_part lo hi part = elim (cut_at "/" part) [
  | some (base, step) ↦ step_part lo hi base (atoi step)
  | none ↦ plain_part lo hi part (cut_at "-" part)
]

unfoldable pub parse_parts : ℕ → ℕ → List String → Option (List ℕ)
unfolding parse_part
parse_parts lo hi [] = some []
parse_parts lo hi (part ∷ parts) =
    let rest = parse_parts lo hi parts in
    elim (parse_part lo hi part) [
      | none ↦ none
      | some vs ↦ elim rest [ none ↦ none | some more ↦ some (vs ++ more) ]
    ]

unfoldable pub parse_field : String → ℕ → ℕ → Option (List ℕ)
unfolding parse_parts count_up
parse_field field lo hi =
    if field == "*"
    then some (count_up lo (hi - lo + 1))
    else parse_parts lo hi (split_list b',' field)

abbrev pub parse_five : List String → Option CronSchedule
parse_five (m ∷ h ∷ d ∷ mo ∷ wd ∷ []) = do
  minutes ← parse_field m 0 59
  hours ← parse_field h 0 23
  days ← parse_field d 1 31
  months ← parse_field mo 1 12
  weekdays ← parse_field wd 0 6
  some (record {
    minutes = minutes;
    hours = hours;
    days = days;
    months = months;
    weekdays = weekdays;
  })
parse_five _ = none

-- None stands for every error.
unfoldable pub parse_cron : String → Option CronSchedule
unfolding parse_field fields
parse_cron expr = parse_five (fields expr)

unfoldable pub contains : List ℕ → ℕ → Bool
contains vals v = any (λ (x : ℕ). x == v) vals

-- What time.Time tells of a moment in its location.
pub record Calendar : Type 0 where
  pub minute : ℕ
  pub hour : ℕ
  pub day : ℕ
  pub month : ℕ
  pub weekday : ℕ

unfoldable pub matches : CronSchedule → Calendar → Bool
unfolding contains
matches cs t =
    contains cs.minutes t.minute
    && contains cs.hours t.hour
    && contains cs.days t.day
    && contains cs.months t.month
    && contains cs.weekdays t.weekday

abbrev pub minute_ns : ℕ
minute_ns = 60_000_000_000

-- The loop of Next, by the rounds left.
unfoldable pub next_from : (ℕ → Calendar) → CronSchedule → ℕ → ℕ → ℕ
next_from calendar cs zero t = t
next_from calendar cs (suc left) t =
    let later = next_from calendar cs left (t + minute_ns) in
    if matches cs (calendar t) then t else later

abbrev pub max_rounds : ℕ
max_rounds = 525_960

unfoldable pub next : (ℕ → Calendar) → CronSchedule → ℕ → ℕ
next calendar cs from = next_from calendar cs max_rounds (from - from % minute_ns + minute_ns)

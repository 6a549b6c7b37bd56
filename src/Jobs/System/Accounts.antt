-- ===== src/Jobs/System/Accounts.antt =====
-- What the counts account for: the active jobs, and the one whose slot a lease has reserved.
use cyntr.Common.{
  ℕ, zero, suc, ◌+◌, ◌≤◌, ◌<◌, String, ◌≡◌, refl, List, [], ◌∷◌, ◌++◌, Option, none, some, ◌==◌,
  if◌then◌else◌, string_eq, nat_eq, str_iff, arith, length, get_elem?,
}
use cyntr.Common.Dict.{Dict, IsDistinct, get}
use cyntr.Jobs.{Job}
use cyntr.Jobs.Inflight.{
  running_of, used, reserve, release, running_of-reserve, used-reserve, reserve-IsDistinct,
  running_of-same, running_of-release, used-release, release-IsDistinct,
}
use cyntr.Jobs.System.{System, Pass, Phase, snapshot, listed, reserved, lost, remove_at}

-- How many of the jobs are a tenant's.
unfoldable pub count_tenant : String → List Job → ℕ
count_tenant t [] = 0
count_tenant t (j ∷ js) = let rest = count_tenant t js in if j.tenant == t then rest + 1 else rest

-- The slots that the lease under way may still fill.
abbrev pub open_slots : Option Pass → ℕ
open_slots none = 0
open_slots (some p) = p.slots

-- The candidate whose slot it has reserved.
abbrev pub reserved_in : Phase → List Job
reserved_in snapshot = []
reserved_in (listed cs) = []
reserved_in (reserved c cs) = c ∷ []
reserved_in (lost c cs) = c ∷ []

abbrev pub reserved_of : Option Pass → List Job
reserved_of none = []
reserved_of (some p) = reserved_in p.phase

-- The counts are those of the jobs, and no tenant has more of them than its cap.
pub record Counted (cap : ℕ) (m : Dict String ℕ) (jobs : List Job) : Type 0 where
  pub each : (t : String) → running_of t m ≡ count_tenant t jobs
  pub total : used m ≡ length jobs
  pub distinct : IsDistinct m
  pub capped : (t : String) → count_tenant t jobs ≤ cap

-- Where a slot is reserved for a row, one is left.
abbrev pub HasSlot : ℕ → Phase → Type 0
HasSlot slots snapshot = Unit
HasSlot slots (listed cs) = Unit
HasSlot slots (reserved c cs) = 1 ≤ slots
HasSlot slots (lost c cs) = Unit

abbrev pub SlotLeft : Option Pass → Type 0
SlotLeft none = Unit
SlotLeft (some p) = HasSlot p.slots p.phase

pub record Accounted (tenant_cap global_cap : ℕ) (s : System) : Type 0 where
  pub counted : Counted tenant_cap s.queue.inflight (reserved_of s.pass ++ s.active)
  pub slot_left : SlotLeft s.pass
  pub global_capped : length s.active + open_slots s.pass ≤ global_cap
  pub tenant_setting : s.queue.per_tenant_cap ≡ tenant_cap
  pub global_setting : s.queue.global_cap ≡ global_cap

pub empty-Counted : (cap : ℕ) → Counted cap [] []
unfolding running_of used get count_tenant
empty-Counted cap = record {
  each = λ t. refl;
  total = refl;
  distinct = tt;
  capped = λ t. omega arith;
}

-- Taking one job out lowers its tenant's count, and the length, by one.
count_tenant-remove_at :
    (i : ℕ) (js : List Job) (j : Job) (t : String)
    → get_elem? js i ≡ some j
    → count_tenant t js ≡ (
        if j.tenant == t
        then count_tenant t (remove_at i js) + 1
        else count_tenant t (remove_at i js))
unfolding count_tenant remove_at
count_tenant-remove_at i [] j t h = cc
count_tenant-remove_at zero (k ∷ js) j t h = ground arith
count_tenant-remove_at (suc i) (k ∷ js) j t h = ground (arith, count_tenant-remove_at i js j t)

pub length-remove_at :
    (i : ℕ) (js : List Job) (j : Job)
    → get_elem? js i ≡ some j
    → length js ≡ length (remove_at i js) + 1
unfolding remove_at
length-remove_at i [] j h = cc
length-remove_at zero (k ∷ js) j h = omega arith
length-remove_at (suc i) (k ∷ js) j h = omega (arith, length-remove_at i js j h)

module _ (cap : ℕ) where
  pub reserve-Counted :
      (c : Job) (m : Dict String ℕ) (jobs : List Job)
      → running_of c.tenant m < cap
      → Counted cap m jobs
      → Counted cap (reserve c.tenant m) (c ∷ jobs)
  unfolding count_tenant
  reserve-Counted c m jobs b a = record {
    each = λ t. ground (
      arith,
      running_of-reserve c.tenant t m,
      a.each t,
      str_iff c.tenant t,
      running_of-same c.tenant t m,
    );
    total = omega (arith, used-reserve c.tenant m, a.total);
    distinct = reserve-IsDistinct c.tenant m a.distinct;
    capped = λ t. ground (
      arith,
      a.capped t,
      a.each c.tenant,
      a.each t,
      b,
      str_iff c.tenant t,
      running_of-same c.tenant t m,
    );
  }

  -- The job that is claimed is the candidate in another state.
  pub claimed-Counted :
      (c j : Job) (m : Dict String ℕ) (jobs : List Job)
      → j.tenant ≡ c.tenant
      → Counted cap m (c ∷ jobs)
      → Counted cap m (j ∷ jobs)
  unfolding count_tenant
  claimed-Counted c j m jobs e a = record {
    each = λ t. rw e (a.each t);
    total = a.total;
    distinct = a.distinct;
    capped = λ t. rw e (a.capped t);
  }

  running_of-Counted :
      (i : ℕ) (j : Job) (m : Dict String ℕ) (jobs : List Job)
      → get_elem? jobs i ≡ some j
      → Counted cap m jobs
      → 0 < running_of j.tenant m
  running_of-Counted i j m jobs e a = ground (
    arith,
    a.each j.tenant,
    count_tenant-remove_at i jobs j j.tenant e,
    str_iff j.tenant j.tenant,
  )

  pub release-Counted :
      (i : ℕ) (j : Job) (m : Dict String ℕ) (jobs : List Job)
      → get_elem? jobs i ≡ some j
      → Counted cap m jobs
      → Counted cap (release j.tenant m) (remove_at i jobs)
  release-Counted i j m jobs e a = record {
    each = λ t. ground (
      arith,
      running_of-release j.tenant t m,
      a.each t,
      a.each j.tenant,
      count_tenant-remove_at i jobs j t e,
      count_tenant-remove_at i jobs j j.tenant e,
      str_iff j.tenant t,
      str_iff j.tenant j.tenant,
      running_of-same j.tenant t m,
    );
    total = omega (
      arith,
      used-release j.tenant m a.distinct (running_of-Counted i j m jobs e a),
      a.total,
      length-remove_at i jobs j e,
    );
    distinct = release-IsDistinct j.tenant m a.distinct;
    capped = λ t. ground (arith, a.capped t, count_tenant-remove_at i jobs j t e);
  }

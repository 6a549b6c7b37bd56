-- ===== src/Jobs/Rows.antt =====
-- The `jobs` table under its updates: which row stands at an identifier.
use cyntr.Common.{
  ◌<◌, String, ◌≡◌, ◌≢◌, refl, sym, inl, inr, Bool, true, false, List, [], ◌∷◌, ◌++◌, Option, none,
  some, ◌==◌, All-imp, if◌then◌else◌, string_eq, str_iff, arith, Bool-cases, All, ◌∙◌,
}
use cyntr.Jobs.{Job, pending, update_where, count_where, find_job}
use cyntr.Jobs.Lease.{claimable}

-- Identifiers are a primary key.
abbrev pub IsKeyed : List Job → Type 0
IsKeyed [] = Unit
IsKeyed (r ∷ rs) = (find_job r.id rs ≡ none) × IsKeyed rs

abbrev pub touch : (Job → Bool) → (Job → Job) → Option Job → Option Job
touch p f none = none
touch p f (some r) = some (if p r then f r else r)

module _ (p : Job → Bool) (f : Job → Job) (keeps : (r : Job) → (f r).id ≡ r.id) where
  pub find_job-update_where :
      (id : String) (rows : List Job)
      → find_job id (update_where p f rows) ≡ touch p f (find_job id rows)
  unfolding find_job update_where
  find_job-update_where id [] = refl
  find_job-update_where id (r ∷ rows) = ground (arith, keeps r, find_job-update_where id rows)

  pub update_where-IsKeyed : (rows : List Job) → IsKeyed rows → IsKeyed (update_where p f rows)
  unfolding update_where
  update_where-IsKeyed [] k = tt
  update_where-IsKeyed (r ∷ rows) k =
      (find_job-update_where _ rows ∙ (rw (same_id r) (rw k.0)), update_where-IsKeyed rows k.1)
    where
      same_id : (r : Job) → (if p r then f r else r).id ≡ r.id
      same_id r = ground (arith, keeps r)

-- A claimable row is the row of its identifier, and it is pending.
pub find-claimable :
    (id : String) (rows : List Job)
    → IsKeyed rows
    → 0 < count_where (claimable id) rows
    → (r : Job) × (find_job id rows ≡ some r) × (r.state ≡ pending)
unfolding count_where find_job
find-claimable id [] k h = absurd (omega arith)
find-claimable id (r ∷ rows) k h = elim (Bool-cases (claimable id r)) [
  | inl t ↦ (r, ground arith, ground arith)
  | inr f ↦ later f (find-claimable id rows k.1 (rw (f, count_where) at h))
]
  where
    later :
        claimable id r ≡ false
        → (s : Job) × (find_job id rows ≡ some s) × (s.state ≡ pending)
        → (s : Job) × (find_job id (r ∷ rows) ≡ some s) × (s.state ≡ pending)
    later f (s, g, p) = (s, ground (arith, k.0, str_iff r.id id), p)

pub All-update_where :
    (P : Job → Type 0) (p : Job → Bool) (f : Job → Job)
    → ((r : Job) → p r ≡ true → P r → P (f r))
    → (rows : List Job) → All P rows
    → All P (update_where p f rows)
unfolding update_where
All-update_where P p f h [] a = tt
All-update_where P p f h (r ∷ rows) a = elim (Bool-cases (p r)) [
  | inl t ↦ rw t (h r t a.0, All-update_where P p f h rows a.1)
  | inr n ↦ rw n (a.0, All-update_where P p f h rows a.1)
]

-- A row that is appended is found where no other has its identifier.
pub find_job-append :
    (id : String) (rows : List Job) (j : Job)
    → find_job id (rows ++ (j ∷ []))
      ≡ elim (find_job id rows) [ none ↦ (if j.id == id then some j else none) | some r ↦ some r ]
unfolding find_job
find_job-append id [] j = refl
find_job-append id (r ∷ rows) j = ground (arith, find_job-append id rows j)

pub append-IsKeyed :
    (rows : List Job) (j : Job)
    → IsKeyed rows
    → find_job j.id rows ≡ none
    → IsKeyed (rows ++ (j ∷ []))
unfolding find_job
append-IsKeyed [] j k h = (refl, tt)
append-IsKeyed (r ∷ rows) j k h = (
  ground (arith, find_job-append r.id rows j, k.0, str_iff r.id j.id, str_iff j.id r.id),
  append-IsKeyed rows j k.1 (ground arith),
)

pub id-find_job : (id : String) (rows : List Job) (r : Job) → find_job id rows ≡ some r → r.id ≡ id
unfolding find_job
id-find_job id [] r h = cc
id-find_job id (s ∷ rows) r h = ground (arith, id-find_job id rows r, str_iff s.id id)

absent-All : (id : String) (rows : List Job) → find_job id rows ≡ none → All (λ x. x.id ≢ id) rows
unfolding find_job
absent-All id [] h = tt
absent-All id (r ∷ rows) h =
    (λ e. ground (arith, str_iff r.id id), absent-All id rows (ground (arith, str_iff r.id id)))

-- All rows of an identifier are the one that is found.
pub found-All :
    (id : String) (rows : List Job) (r : Job)
    → IsKeyed rows
    → find_job id rows ≡ some r
    → All (λ x. x.id ≡ id → x.state ≡ r.state) rows
unfolding find_job
found-All id [] r k h = tt
found-All id (x ∷ rows) r k h = elim (Bool-cases (x.id == id)) [
  | inl t ↦ (
    λ e. ground arith,
    All-imp (λ y. y.id ≢ x.id) (λ y. y.id ≡ id → y.state ≡ r.state)
        (λ y ne e. absurd (ne (e ∙ sym ((str_iff x.id id).0 t)))) rows (absent-All x.id rows k.0),
  )
  | inr f ↦ (λ e. ground (arith, str_iff x.id id), found-All id rows r k.1 (rw (f, find_job) at h))
]

pub All-update_by :
    (P Q : Job → Type 0) (p : Job → Bool) (f : Job → Job)
    → ((r : Job) → p r ≡ true → P r → Q (f r))
    → ((r : Job) → P r → Q r)
    → (rows : List Job) → All P rows
    → All Q (update_where p f rows)
unfolding update_where
All-update_by P Q p f h g [] a = tt
All-update_by P Q p f h g (r ∷ rows) a = elim (Bool-cases (p r)) [
  | inl t ↦ rw t (h r t a.0, All-update_by P Q p f h g rows a.1)
  | inr n ↦ rw n (g r a.0, All-update_by P Q p f h g rows a.1)
]

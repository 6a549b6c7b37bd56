-- ===== src/Resource/Caps.antt =====
-- Histories of acquisitions and releases by any tenants.
use cyntr.Common.{
  ℕ, ◌+◌, ◌-◌, ◌≤◌, String, ◌≡◌, refl, ◌∙◌, inl, inr, Bool, true, false, List, [], ◌∷◌, ◌==◌,
  if◌then◌else◌, string_eq, str_iff, arith, Bool-cases,
}
use cyntr.Common.Int.{ℤ, pos, ltb_ℤ, beq_ℤ}
use cyntr.Resource.{
  ResourceType, resource_eq, resource_beq_iff, Manager, usage_of, get_limit, acquire, release,
  unlimited,
}
use cyntr.Resource.Laws.{
  usage_of-acquire, get_limit-acquire, usage_of-release, get_limit-release, acquire_iff,
}
use cyntr.Common.{◌⊎◌}

pub data Op : Type 0 where
  do_acquire do_release : String → ResourceType → Op

unfoldable pub step : Manager → Op → Manager
step m (do_acquire t r) = (acquire t r m).0
step m (do_release t r) = release t r m

unfoldable pub run : Manager → List Op → Manager
run m [] = m
run m (op ∷ ops) = run (step m op) ops

module _ (tenant : String) (res : ResourceType) where
  abbrev is_own : String → ResourceType → Bool
  is_own t r = if t == tenant then r == res else false

  -- The counter of one tenant and resource alone, with its limit: what the manager is to be for it.
  unfoldable pub tally : ℤ → List Op → ℕ → ℕ
  tally limit [] n = n
  tally limit (do_acquire t r ∷ ops) n = tally limit ops (
      if is_own t r
      then (if beq_ℤ limit unlimited then n + 1 else if ltb_ℤ (pos n) limit then n + 1 else n)
      else n)
  tally limit (do_release t r ∷ ops) n = tally limit ops (if is_own t r then n - 1 else n)

  acquire-own :
      (t : String) (r : ResourceType) (m : Manager)
      → usage_of tenant res (acquire t r m).0 ≡ (
          if is_own t r
          then (if beq_ℤ (get_limit tenant res m) unlimited
              then usage_of tenant res m + 1
              else if ltb_ℤ (pos (usage_of tenant res m)) (get_limit tenant res m)
              then usage_of tenant res m + 1
              else usage_of tenant res m)
          else usage_of tenant res m)
  acquire-own t r m = elim (Bool-cases (t == tenant)) [
    | inl e ↦ by_resource ((str_iff t tenant).0 e) (Bool-cases (r == res))
    | inr n ↦ rw (usage_of-acquire t tenant r res m) (rw n (ground arith))
  ]
    where
      by_resource :
          t ≡ tenant
          → ((r == res) ≡ true) ⊎ ((r == res) ≡ false)
          → usage_of tenant res (acquire t r m).0 ≡ (
              if is_own t r
              then (if beq_ℤ (get_limit tenant res m) unlimited
                  then usage_of tenant res m + 1
                  else if ltb_ℤ (pos (usage_of tenant res m)) (get_limit tenant res m)
                  then usage_of tenant res m + 1
                  else usage_of tenant res m)
              else usage_of tenant res m)
      by_resource e (inl f) = ground (
        arith,
        usage_of-acquire t tenant r res m,
        acquire_iff t r m,
        str_iff t tenant,
        resource_beq_iff r res,
      )
      by_resource e (inr f) = ground (arith, usage_of-acquire t tenant r res m, str_iff t tenant)

  -- Whatever the tenants do, the usage that the manager keeps for one tenant and resource is that of a
  -- counter of its own under its limit: other tenants and resources never show in it.
  pub run-tally :
      (ops : List Op) (m : Manager)
      → usage_of tenant res (run m ops) ≡ tally (get_limit tenant res m) ops (usage_of tenant res m)
  unfolding run step tally
  run-tally [] m = refl
  run-tally (do_acquire t r ∷ ops) m =
      run-tally ops (acquire t r m).0 ∙ (rw (get_limit-acquire t tenant r res m, acquire-own t r m))
  run-tally (do_release t r ∷ ops) m =
      run-tally ops (release t r m)
      ∙ (rw (get_limit-release t tenant r res m, usage_of-release t tenant r res m) (ground arith))

  tally-le : (limit : ℕ) (ops : List Op) (n : ℕ) → n ≤ limit → tally (pos limit) ops n ≤ limit
  unfolding tally
  tally-le limit [] n h = h
  tally-le limit (do_acquire t r ∷ ops) n h = tally-le limit ops _ (ground arith)
  tally-le limit (do_release t r ∷ ops) n h = tally-le limit ops _ (ground arith)

  -- A configured limit, also 0, is never exceeded: from a usage within it, every history of
  -- acquisitions and releases by any tenants keeps the usage within it.
  pub run-le-limit :
      (ops : List Op) (m : Manager) (limit : ℕ)
      → get_limit tenant res m ≡ pos limit
      → usage_of tenant res m ≤ limit
      → usage_of tenant res (run m ops) ≤ limit
  run-le-limit ops m limit e h =
      rw (run-tally ops m) (rw e (tally-le limit ops (usage_of tenant res m) h))

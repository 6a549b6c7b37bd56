-- ===== src/Resource/Laws.antt =====
-- How each operation changes what `usage_of` and `get_limit` read.
use cyntr.Common.{
  ℕ, ◌+◌, ◌-◌, String, ◌≡◌, true, ◌==◌, if◌then◌else◌, string_eq, str_iff, nat_eq, arith,
}
use cyntr.Common.Int.{pos, ltb_ℤ, beq_ℤ}
use cyntr.Common.Dict.{get, put, get-put}
use cyntr.Resource.{
  ResourceType, resource_eq, resource_beq_iff, Manager, inner, usage_of, get_limit, ensure,
  write_usage, acquire, release, unlimited,
}

-- A write at one tenant and resource, read at any.
pub usage_of-write :
    (t j : String) (r k : ResourceType) (n : ℕ) (m : Manager)
    → usage_of j k (write_usage t r n m)
      ≡ (if t == j then (if r == k then n else usage_of j k m) else usage_of j k m)
unfolding usage_of
usage_of-write t j r k n m = ground (
  arith,
  str_iff t j,
  get-put t j (put r n (inner (get t m.usage))) m.usage,
  get-put r k n (inner (get t m.usage)),
  same t j m,
)
  where
    same : (t j : String) (m : Manager) → t ≡ j → get t m.usage ≡ get j m.usage
    same t j m e = rw e

pub usage_of-ensure :
    (t j : String) (k : ResourceType) (m : Manager) → usage_of j k (ensure t m) ≡ usage_of j k m
unfolding usage_of
usage_of-ensure t j k m =
    ground (arith, str_iff t j, get-put t j (inner (get t m.usage)) m.usage, same t j m)
  where
    same : (t j : String) (m : Manager) → t ≡ j → get t m.usage ≡ get j m.usage
    same t j m e = rw e

-- Acquire changes no limit, and no usage but, where it is granted, the one it is for.
pub usage_of-acquire :
    (t j : String) (r k : ResourceType) (m : Manager)
    → usage_of j k (acquire t r m).0 ≡ (
        if (acquire t r m).1
        then (if t == j
            then (if r == k then usage_of j k m + 1 else usage_of j k m)
            else usage_of j k m)
        else usage_of j k m)
unfolding acquire
usage_of-acquire t j r k m = ground (
  arith,
  usage_of-ensure t j k m,
  usage_of-ensure t t r m,
  usage_of-write t j r k (usage_of t r (ensure t m) + 1) (ensure t m),
  str_iff t j,
  resource_beq_iff r k,
)

pub get_limit-acquire :
    (t j : String) (r k : ResourceType) (m : Manager)
    → get_limit j k (acquire t r m).0 ≡ get_limit j k m
unfolding acquire get_limit
get_limit-acquire t j r k m = ground arith

pub usage_of-release :
    (t j : String) (r k : ResourceType) (m : Manager)
    → usage_of j k (release t r m)
      ≡ (if t == j then (if r == k then usage_of j k m - 1 else usage_of j k m) else usage_of j k m)
unfolding release
usage_of-release t j r k m =
    ground (arith, usage_of-write t j r k (usage_of t r m - 1) m, str_iff t j, resource_beq_iff r k)

pub get_limit-release :
    (t j : String) (r k : ResourceType) (m : Manager)
    → get_limit j k (release t r m) ≡ get_limit j k m
unfolding release get_limit
get_limit-release t j r k m = ground arith

-- Acquire is granted exactly where there is no limit or the usage is below it.
pub acquire_iff :
    (t : String) (r : ResourceType) (m : Manager)
    → (acquire t r m).1 ≡ (
        if beq_ℤ (get_limit t r m) unlimited
        then true
        else ltb_ℤ (pos (usage_of t r m)) (get_limit t r m))
unfolding acquire
acquire_iff t r m = ground (arith, usage_of-ensure t t r m)

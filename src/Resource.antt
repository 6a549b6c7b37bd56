-- ===== src/Resource.antt =====
-- kernel/resource/manager.go: usage and limits per tenant and resource. The counters are int64 in the
-- source and unbounded here: they only grow by one for each Acquire that is granted.
mod Examples
pub mod Laws
pub mod Caps
use cyntr.Common.{
  ℕ, ◌+◌, ◌-◌, String, Bool, true, false, not, ◌&&◌, List, [], ◌∷◌, Option, none, some, ltb, ◌==◌,
  if◌then◌else◌, string_eq, nat_eq, HasEq, ◌≡◌, ◌↔◌, refl, arith,
}
use cyntr.Common.Int.{ℤ, pos, negsuc, ltb_ℤ, beq_ℤ}
use cyntr.Common.Dict.{Dict, get, put, remove}

pub data ResourceType : Type 0 where
  goroutines file_descriptors api_calls : ResourceType

abbrev pub resource_beq : ResourceType → ResourceType → Bool
resource_beq goroutines goroutines = true
resource_beq file_descriptors file_descriptors = true
resource_beq api_calls api_calls = true
resource_beq _ _ = false

pub resource_beq_iff : (a b : ResourceType) → (resource_beq a b ≡ true) ↔ (a ≡ b)
resource_beq_iff a b = ground arith

instance abbrev pub resource_eq : HasEq ResourceType
resource_eq = record { equals = resource_beq; equals_iff = resource_beq_iff }

-- The limit that means "no cap".
abbrev pub unlimited : ℤ
unlimited = negsuc 0

pub record Manager : Type 0 where
  pub usage : Dict String (Dict ResourceType ℕ)
  pub limits : Dict String (Dict ResourceType ℤ)

unfoldable pub new_manager : Manager
new_manager = record { usage = []; limits = [] }

-- A nil inner map reads as empty.
abbrev pub inner {ℓ} : {V : Type ℓ} → Option (Dict ResourceType V) → Dict ResourceType V
inner none = []
inner (some m) = m

abbrev pub or_zero : Option ℕ → ℕ
or_zero none = 0
or_zero (some n) = n

abbrev pub or_unlimited : Option ℤ → ℤ
or_unlimited none = unlimited
or_unlimited (some l) = l

unfoldable pub set_limit : String → ResourceType → ℤ → Manager → Manager
set_limit tenant res limit m = record m {
  limits = put tenant (put res limit (inner (get tenant m.limits))) m.limits;
}

unfoldable pub usage_of : String → ResourceType → Manager → ℕ
usage_of tenant res m = or_zero (get res (inner (get tenant m.usage)))

unfoldable pub get_limit : String → ResourceType → Manager → ℤ
get_limit tenant res m = or_unlimited (get res (inner (get tenant m.limits)))

-- `m.usage[tenant] = make(…)` where it is nil
abbrev pub ensure : String → Manager → Manager
ensure tenant m = record m { usage = put tenant (inner (get tenant m.usage)) m.usage }

abbrev pub write_usage : String → ResourceType → ℕ → Manager → Manager
write_usage tenant res n m = record m {
  usage = put tenant (put res n (inner (get tenant m.usage))) m.usage;
}

-- Acquire; `false` is ErrLimitExceeded.
unfoldable pub acquire : String → ResourceType → Manager → Manager × Bool
acquire tenant res m =
    let m' = ensure tenant m in
    let current = usage_of tenant res m' in
    let limit = get_limit tenant res m in
    if not (beq_ℤ limit unlimited) && not (ltb_ℤ (pos current) limit)
    then (m', false)
    else (write_usage tenant res (current + 1) m', true)

unfoldable pub release : String → ResourceType → Manager → Manager
release tenant res m =
    let current = usage_of tenant res m in
    if ltb 0 current then write_usage tenant res (current - 1) m else m

unfoldable pub remove_tenant : String → Manager → Manager
remove_tenant tenant m = record { usage = remove tenant m.usage; limits = remove tenant m.limits }

-- Snapshot: an entry for each configured limit, then one with limit 0 for each other usage.
pub record UsageEntry : Type 0 where
  pub current : ℕ
  pub limit : ℤ

unfoldable pub limit_entries :
    String
    → Manager
    → Dict ResourceType ℤ
    → Dict ResourceType UsageEntry
    → Dict ResourceType UsageEntry
limit_entries tenant m [] out = out
limit_entries tenant m ((res, limit) ∷ ls) out =
    limit_entries tenant m ls
      (put res (record { current = usage_of tenant res m; limit = limit }) out)

abbrev pub add_missing :
    ResourceType
    → ℕ
    → Dict ResourceType UsageEntry
    → Option UsageEntry
    → Dict ResourceType UsageEntry
add_missing res n out (some e) = out
add_missing res n out none = put res (record { current = n; limit = pos 0 }) out

unfoldable pub usage_entries :
    Dict ResourceType ℕ → Dict ResourceType UsageEntry → Dict ResourceType UsageEntry
usage_entries [] out = out
usage_entries ((res, n) ∷ us) out = usage_entries us (add_missing res n out (get res out))

unfoldable pub snapshot : String → Manager → Dict ResourceType UsageEntry
unfolding limit_entries usage_entries
snapshot tenant m =
    usage_entries (inner (get tenant m.usage))
      (limit_entries tenant m (inner (get tenant m.limits)) [])

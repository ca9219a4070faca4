-- ===== src/ResourceManager.antt =====
-- src/resource_manager.cpp: the memory budget of a worker, in std::uint64_t.
pub mod Laws
mod Tests
use adaptive_ai_inference_ru.Prelude.{ℕ, ◌+◌, ◌-◌, ◌^◌, Bool, if◌then◌else◌, ltb, leb, u64}
use adaptive_ai_inference_ru.Status.{ErrorCode, Status, success, error}

pub record ResourceManager : Type 0 where
  pub budget : ℕ
  pub used : ℕ

unfoldable pub make : ℕ → ResourceManager
make memory_budget_bytes = record { budget = memory_budget_bytes; used = 0 }

-- `budget_ - used_`, which wraps if more is used than there is.
unfoldable pub available : ResourceManager → ℕ
available r = u64 (r.budget + 2 ^ 64 - r.used)

unfoldable pub can_reserve : ℕ → ResourceManager → Bool
unfolding available
can_reserve bytes r = leb bytes (available r)

abbrev pub cannot_reserve : Status
cannot_reserve = error ErrorCode.insufficient_memory "cannot reserve memory"

abbrev pub over_release : Status
over_release = error ErrorCode.internal_error "over-release of memory"

unfoldable pub reserve : ℕ → ResourceManager → Status × ResourceManager
unfolding available
reserve bytes r =
    if ltb (available r) bytes
    then (cannot_reserve, r)
    else (success, record r { used = u64 (r.used + bytes) })

unfoldable pub release : ℕ → ResourceManager → Status × ResourceManager
release bytes r =
    if ltb r.used bytes then (over_release, r) else (success, record r { used = r.used - bytes })

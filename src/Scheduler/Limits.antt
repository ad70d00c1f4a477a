-- ===== src/Scheduler/Limits.antt =====
-- SchedulerLimits of orchestrator/scheduler.py.
use claude_router.Prelude.{
  Bool, Option, Result, false, ltb, none, ok, raise_if, refl, some, suc, zero, ℕ, ◌-◌, ◌>>◌, ◌||◌,
  ◌≡◌,
}
use claude_router.Models.Checks.{Error, value_error}

pub record SchedulerLimits : Type 0 where
  pub max_managers : Option ℕ
  pub max_parallel_managers : ℕ
  pub max_workers_per_manager : ℕ
  pub max_parallel_workers_per_manager : Option ℕ
  pub max_parallel_workers : ℕ
  pub max_workstreams : ℕ
  pub max_work_items_per_stream : ℕ

-- `value or fallback`: 0 is false in Python.
unfoldable pub or_number : Option ℕ → ℕ → ℕ
or_number none fallback = fallback
or_number (some zero) fallback = fallback
or_number (some (suc n)) fallback = suc n

unfoldable pub coders_per_manager : SchedulerLimits → ℕ
coders_per_manager l = l.max_workers_per_manager - 1

unfoldable pub manager_cap : SchedulerLimits → ℕ
unfolding or_number
manager_cap l = or_number l.max_managers l.max_parallel_managers

unfoldable pub worker_parallel_cap : SchedulerLimits → ℕ
unfolding or_number coders_per_manager
worker_parallel_cap l = or_number l.max_parallel_workers_per_manager (coders_per_manager l)

unfoldable pub is_zero : Option ℕ → Bool
is_zero none = false
is_zero (some n) = ltb n 1

-- `__post_init__`
unfoldable pub scheduler_limits : SchedulerLimits → Result Error SchedulerLimits
unfolding manager_cap worker_parallel_cap coders_per_manager is_zero
scheduler_limits l = do
  raise_if (ltb l.max_workers_per_manager 2) value_error
  raise_if
      (ltb l.max_parallel_managers 1
        || ltb l.max_parallel_workers 1
        || ltb l.max_workstreams 1
        || ltb l.max_work_items_per_stream 1)
      value_error
  raise_if (is_zero l.max_managers || is_zero l.max_parallel_workers_per_manager) value_error
  raise_if (ltb (manager_cap l) l.max_parallel_managers) value_error
  raise_if (ltb (coders_per_manager l) (worker_parallel_cap l)) value_error
  ok l

-- `SchedulerLimits()`
abbrev pub default_limits : SchedulerLimits
default_limits = record {
  max_managers = none;
  max_parallel_managers = 4;
  max_workers_per_manager = 5;
  max_parallel_workers_per_manager = none;
  max_parallel_workers = 8;
  max_workstreams = 64;
  max_work_items_per_stream = 128;
}

pub default_limits-valid : scheduler_limits default_limits ≡ ok default_limits
unfolding scheduler_limits
default_limits-valid = refl

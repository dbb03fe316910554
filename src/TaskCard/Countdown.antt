-- ===== src/TaskCard/Countdown.antt =====
-- The countdown on a card: how it agrees with the lease.
use mcp_project_server.Prelude.{
  false, leb, ℕ, ◌+◌, ◌-◌, ◌*◌, ◌≤◌, ◌<◌, ◌≡◌, refl, Option, some, arith,
}
use mcp_project_server.Js.Str.{Str}
use mcp_project_server.Api.Plans.{PlanTask}
use mcp_project_server.PlanTasks.{active, lease_state, is_lease_expired}
use mcp_project_server.TaskCard.{countdown, countdown_text, format_countdown}

-- The minutes are less than an hour, and the time is given in whole minutes, rounded down.
pub countdown_floor :
    (ms : ℕ)
    → let (hours, minutes) = countdown ms in
      (minutes < 60)
      × ((hours * 60 + minutes) * 60_000 ≤ ms)
      × (ms < (hours * 60 + minutes + 1) * 60_000)
unfolding countdown
countdown_floor ms = (omega arith, omega arith, omega arith)

-- What stands in the badge of an active lease whose date is valid.
pub record CountsDown (show : ℕ → Str) (ends now : ℕ) (text : Str) : Type 0 where
  pub hours : ℕ
  pub minutes : ℕ
  pub later : now < ends
  pub short : minutes < 60
  pub not_more : (hours * 60 + minutes) * 60_000 ≤ ends - now
  pub not_less : ends - now < (hours * 60 + minutes + 1) * 60_000
  pub shown : text ≡ countdown_text show (hours, minutes)

-- The badge of an active lease that ends at a valid date never says that it has expired: it shows
-- the hours and the minutes, fewer than sixty, that are left until that date, rounded down to
-- whole minutes.
pub active-CountsDown :
    (get_time : Str → Option ℕ) (show : ℕ → Str) (task : PlanTask) (now : ℕ) (text : Str) (ends : ℕ)
    → task.lease_expires_at ≡ some text
    → get_time text ≡ some ends
    → lease_state get_time task now ≡ active
    → CountsDown show ends now (format_countdown get_time show text now)
unfolding format_countdown lease_state is_lease_expired
active-CountsDown get_time show task now text ends written date lease =
    let later : now < ends = ground arith in
    let not_ended : leb ends now ≡ false = ground arith in
    let floor = countdown_floor (ends - now) in
    record {
      hours = (countdown (ends - now)).0;
      minutes = (countdown (ends - now)).1;
      later = later;
      short = floor.0;
      not_more = floor.1;
      not_less = floor.2;
      shown = rw (format_countdown, date, not_ended) refl;
    }

-- ===== src/Watchdog/Samples.antt =====
-- A queue that no worker consumes: examples of the watchdog's theorems.
use general_agent_framework.Prelude.{
  ℕ, ◌+◌, ◌≡◌, refl, ◌↔◌, ◌≤◌, true, Option, none, some, List, [], ◌∷◌, arith, length, All, ◌==◌,
  if◌then◌else◌,
}
use general_agent_framework.Outcome.{Outcome, returned, raised, timeout_error}
use general_agent_framework.Watchdog.{
  Settings, WorkerHeartbeat, BrokerBacklogSnapshot, WorkerHealthSummary, Watchdog, HealthStatus,
  Action, summarize_worker_health, react, ticks, seconds, max_spawn_attempts,
}
use general_agent_framework.Watchdog.Health.{
  Stuck, IsOld, stall_detected_iff, Reports, summarize-Reports,
}
use general_agent_framework.Watchdog.Spawning.{
  IsSound, ticks-IsSound, spawned-le-attempts_left, MayStart, attempt_iff, IsQuiet, attempt-IsQuiet,
  second_check_starts,
}

abbrev settings : Settings
settings = record {
  worker_heartbeat_stale_seconds = 90;
  queue_stall_seconds = 60;
  visibility_timeout_seconds = 3600;
  worker_auto_recover = true;
}

abbrev heartbeats : List WorkerHeartbeat
heartbeats = record { worker_id = "worker-1"; beat_at = 1000000 } ∷ []

abbrev backlog : BrokerBacklogSnapshot
backlog = record { reachable = true; ready = 2; unacked = 0; oldest_unacked_age = none }

abbrev summary : WorkerHealthSummary
summary = record {
  status = HealthStatus.stalled;
  heartbeats = heartbeats;
  live_worker_ids = [];
  stale_worker_ids = "worker-1" ∷ [];
  backlog = backlog;
  stall_detected = true;
}

abbrev fresh : Watchdog
fresh = record {
  stall_since = none;
  last_check_at = none;
  checks = 0;
  recoveries = 0;
  spawn_attempts = 0;
  last_action = Action.nothing;
  last_action_at = none;
  spawned_pids = [];
}

abbrev waiting : Watchdog
waiting = record fresh { stall_since = some 0; checks = 1 }

-- the first check's start fails
abbrev spawn : ℕ → Outcome ℕ
spawn n = if n == 1 then raised (record { class = timeout_error; text = "start" }) else returned 100

abbrev minutes : List (ℕ × Option WorkerHealthSummary)
minutes =
    (0, some summary)
    ∷ (seconds 60, some summary)
    ∷ (seconds 100, none)
    ∷ (seconds 120, some summary)
    ∷ []

fresh-IsSound : IsSound fresh
fresh-IsSound = record { bounded = omega arith; counted = refl }

stall_detected_iff_example :
    ((summarize_worker_health settings 200000000 heartbeats backlog).stall_detected ≡ true)
    ↔ (All (IsOld 90 200000000) heartbeats × Stuck settings backlog)
stall_detected_iff_example = stall_detected_iff settings 200000000 heartbeats backlog

summarize-Reports_example :
    Reports settings 200000000 heartbeats backlog
      (summarize_worker_health settings 200000000 heartbeats backlog).status
summarize-Reports_example = summarize-Reports settings 200000000 heartbeats backlog

ticks-IsSound_example : IsSound (ticks settings spawn minutes fresh)
ticks-IsSound_example = ticks-IsSound settings spawn minutes fresh fresh-IsSound

spawned-le-attempts_left_example :
    length (ticks settings spawn minutes fresh).spawned_pids + 0 ≤ 0 + max_spawn_attempts
spawned-le-attempts_left_example =
    spawned-le-attempts_left settings spawn minutes fresh fresh-IsSound (refl, (refl, (refl, tt)))

attempt_iff_example :
    ((react settings spawn (seconds 60) summary waiting).spawn_attempts ≡ 1)
    ↔ MayStart settings (seconds 60) summary waiting
attempt_iff_example = attempt_iff settings spawn (seconds 60) summary waiting

waiting-MayStart : MayStart settings (seconds 60) summary waiting
waiting-MayStart = (refl, refl, refl, omega arith, (0, refl, omega arith))

attempt-IsQuiet_example : IsQuiet (react settings spawn (seconds 60) summary waiting) (
    ticks settings spawn
      ((seconds 119, some summary) ∷ [])
      (react settings spawn (seconds 60) summary waiting))
attempt-IsQuiet_example =
    attempt-IsQuiet settings spawn (seconds 60) summary waiting ((seconds 119, some summary) ∷ [])
      waiting-MayStart (omega arith, omega arith, tt)

second_check_starts_example :
    (ticks settings spawn ((0, some summary) ∷ (seconds 60, some summary) ∷ []) fresh).spawned_pids
    ≡ 100 ∷ []
second_check_starts_example =
    second_check_starts settings spawn 0 (seconds 60) 100 summary summary fresh refl refl refl refl
      refl (omega arith) refl (omega arith) refl

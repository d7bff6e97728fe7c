-- ===== src/Watchdog.antt =====
-- Worker supervision: app/services/worker_supervisor.py, with the heartbeats of
-- app/infra/worker_health.py and the backlog of app/infra/celery_broker.py. A time is a number of
-- microseconds. What Redis answers is an argument, and so is what starting a process gives:
-- `spawn n` is the outcome of the start that the `n`-th check makes.
pub mod Health
pub mod Spawning
mod Samples
use general_agent_framework.Prelude.{
  ℕ, String, ◌+◌, ◌-◌, ◌*◌, ◌/◌, Bool, true, false, not, Option, none, some, List, [], ◌∷◌, ◌++◌,
  ltb, leb, ◌==◌, str_eq, if◌then◌else◌,
}
use general_agent_framework.Outcome.{Outcome, Exception, returned, raised}

pub record Settings : Type 0 where
  pub worker_heartbeat_stale_seconds : ℕ
  pub queue_stall_seconds : ℕ
  pub visibility_timeout_seconds : ℕ
  pub worker_auto_recover : Bool

pub record WorkerHeartbeat : Type 0 where
  pub worker_id : String
  pub beat_at : ℕ

-- in seconds on both sides: the microseconds of a number of seconds
abbrev pub seconds : ℕ → ℕ
seconds n = n * 1000000

-- `max(0.0, now - beat_at)`: the subtraction stops at 0
unfoldable pub age : WorkerHeartbeat → ℕ → ℕ
age h now = now - h.beat_at

unfoldable pub is_stale : ℕ → ℕ → WorkerHeartbeat → Bool
unfolding age
is_stale stale_seconds now h = ltb (seconds stale_seconds) (age h now)

pub record BrokerBacklogSnapshot : Type 0 where
  pub reachable : Bool
  pub ready : ℕ
  pub unacked : ℕ
  -- in microseconds
  pub oldest_unacked_age : Option ℕ

unfoldable pub is_stalled : Settings → BrokerBacklogSnapshot → Bool
is_stalled st b =
    if not b.reachable
    then false
    else if ltb 0 b.ready
    then true
    else if b.unacked == 0
    then false
    else elim b.oldest_unacked_age [
      | none ↦ false
      | some a ↦ ltb (seconds st.visibility_timeout_seconds) a
    ]

pub data HealthStatus : Type 0 where
  ready degraded stalled offline : HealthStatus

pub record WorkerHealthSummary : Type 0 where
  pub status : HealthStatus
  pub heartbeats : List WorkerHeartbeat
  pub live_worker_ids : List String
  pub stale_worker_ids : List String
  pub backlog : BrokerBacklogSnapshot
  pub stall_detected : Bool

-- The two comprehensions, where `wanted` says whether the stale ones are meant.
abbrev pub chosen : Bool → Bool → Bool
chosen wanted stale = if wanted then stale else not stale

unfoldable pub ids_with : Bool → ℕ → ℕ → List WorkerHeartbeat → List String
ids_with wanted stale_seconds now [] = []
ids_with wanted stale_seconds now (h ∷ hs) =
    let rest = ids_with wanted stale_seconds now hs in
    if chosen wanted (is_stale stale_seconds now h) then h.worker_id ∷ rest else rest

abbrev pub non_empty : List String → Bool
non_empty [] = false
non_empty (_ ∷ _) = true

-- The four branches, which a detected stall overrides. `live` and `stale` say that there are some.
unfoldable pub health_status : (reachable live stale stall : Bool) → HealthStatus
health_status reachable live stale stall =
    let base =
      if not reachable
      then degraded
      else if live
      then ready
      else if stale
      then stalled
      else offline in
    if stall then stalled else base

-- `heartbeats` is what was read of the broker: a failed read gives none. The clock, which each test of
-- a heartbeat reads anew, is taken to stand still in one summary.
unfoldable pub summarize_worker_health :
    Settings → ℕ → List WorkerHeartbeat → BrokerBacklogSnapshot → WorkerHealthSummary
unfolding ids_with is_stalled health_status
summarize_worker_health st now heartbeats backlog =
    let live = ids_with false st.worker_heartbeat_stale_seconds now heartbeats in
    let stale = ids_with true st.worker_heartbeat_stale_seconds now heartbeats in
    let stall = if non_empty live then false else is_stalled st backlog in
    record {
      status = health_status backlog.reachable (non_empty live) (non_empty stale) stall;
      heartbeats = heartbeats;
      live_worker_ids = live;
      stale_worker_ids = stale;
      backlog = backlog;
      stall_detected = stall;
    }

-- `last_action` and its message
pub data Action : Type 0 where
  nothing healthy auto_recover_disabled spawn_limit_reached : Action
  stall_detected : (ready unacked : ℕ) → Action
  spawn_failed : Exception → Action
  spawned_worker : (pid : ℕ) → Action

-- `WorkerWatchdogState` with the watchdog's own `_stall_since`
pub record Watchdog : Type 0 where
  pub stall_since : Option ℕ
  pub last_check_at : Option ℕ
  pub checks : ℕ
  pub recoveries : ℕ
  pub spawn_attempts : ℕ
  pub last_action : Action
  pub last_action_at : Option ℕ
  pub spawned_pids : List ℕ

abbrev pub max_spawn_attempts : ℕ
max_spawn_attempts = 3

-- `_record`
abbrev recorded : Action → ℕ → Watchdog → Watchdog
recorded action at d = record d { last_action = action; last_action_at = some at }

abbrev is_healthy : Action → Bool
is_healthy healthy = true
is_healthy _ = false

-- the branch of a live worker
on_live : ℕ → Watchdog → Watchdog
on_live now d =
    let d' = record d { stall_since = none; spawn_attempts = 0 } in
    if is_healthy d.last_action then d' else recorded healthy now d'

-- the handler around the start of a process
spawned : Outcome ℕ → ℕ → Watchdog → Watchdog
spawned (raised e) now d = recorded (spawn_failed e) now d
spawned (returned pid) now d =
    recorded (spawned_worker pid) now
      (record d { recoveries = d.recoveries + 1; spawned_pids = d.spawned_pids ++ pid ∷ [] })

-- the stall has lasted for `queue_stall_seconds`
recover : Settings → (ℕ → Outcome ℕ) → ℕ → Watchdog → Watchdog
unfolding spawned
recover st spawn now d =
    if not st.worker_auto_recover
    then recorded auto_recover_disabled now (record d { stall_since = some now })
    else if leb max_spawn_attempts d.spawn_attempts
    then recorded spawn_limit_reached now (record d { stall_since = some now })
    else spawned (spawn d.checks) now
        (record d { stall_since = some now; spawn_attempts = d.spawn_attempts + 1 })

on_stall : Settings → (ℕ → Outcome ℕ) → ℕ → BrokerBacklogSnapshot → Option ℕ → Watchdog → Watchdog
unfolding recover
on_stall st spawn now b none d =
    recorded (stall_detected b.ready b.unacked) now (record d { stall_since = some now })
on_stall st spawn now b (some since) d =
    if ltb (now - since) (seconds st.queue_stall_seconds) then d else recover st spawn now d

unfoldable pub react : Settings → (ℕ → Outcome ℕ) → ℕ → WorkerHealthSummary → Watchdog → Watchdog
unfolding on_live on_stall
react st spawn now s d =
    let d' = record d { checks = d.checks + 1; last_check_at = some now } in
    if non_empty s.live_worker_ids
    then on_live now d'
    else if not s.stall_detected
    then record d' { stall_since = none }
    else on_stall st spawn now s.backlog d'.stall_since d'

-- The loop's ticks: each is the time of a check and the summary that it got. A tick whose summary
-- could not be had reacts to nothing.
unfoldable pub ticks :
    Settings → (ℕ → Outcome ℕ) → List (ℕ × Option WorkerHealthSummary) → Watchdog → Watchdog
unfolding react
ticks st spawn [] d = d
ticks st spawn ((now, none) ∷ ts) d = ticks st spawn ts d
ticks st spawn ((now, some s) ∷ ts) d = ticks st spawn ts (react st spawn now s d)

-- `interval_seconds`
unfoldable pub interval_seconds : Settings → ℕ
interval_seconds st =
    let third = st.queue_stall_seconds / 3 in
    let capped = if ltb third 60 then third else 60 in if ltb 10 capped then capped else 10

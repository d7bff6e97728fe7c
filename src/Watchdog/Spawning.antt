-- ===== src/Watchdog/Spawning.antt =====
-- When the watchdog starts a process, and how often it may.
use general_agent_framework.Prelude.{
  ℕ, suc, ◌+◌, ◌-◌, ◌≤◌, ◌<◌, ◌≡◌, refl, ◌↔◌, true, Option, none, some, List, [], ◌∷◌, ◌++◌, arith,
  length, length-append, ap, ◌∙◌,
}
use general_agent_framework.Outcome.{Outcome, returned, raised}
use general_agent_framework.Watchdog.{
  Settings, WorkerHealthSummary, Watchdog, max_spawn_attempts, seconds, react, ticks,
}

-- The attempts are bounded, and each recovery is one process.
pub record IsSound (d : Watchdog) : Type 0 where
  pub bounded : d.spawn_attempts ≤ max_spawn_attempts
  pub counted : d.recoveries ≡ length d.spawned_pids

react-IsSound :
    (st : Settings) (spawn : ℕ → Outcome ℕ) (now : ℕ) (s : WorkerHealthSummary) (d : Watchdog)
    → IsSound d
    → IsSound (react st spawn now s d)
unfolding react
react-IsSound st spawn now s d v = grind (arith, length-append)

-- The check finds no live worker, or gets no summary.
abbrev pub Lifeless : List (ℕ × Option WorkerHealthSummary) → Type 0
Lifeless [] = Unit
Lifeless ((now, none) ∷ ts) = Lifeless ts
Lifeless ((now, some s) ∷ ts) = (s.live_worker_ids ≡ []) × Lifeless ts

-- A process costs an attempt, where no live worker resets them.
react_budget :
    (st : Settings) (spawn : ℕ → Outcome ℕ) (now : ℕ) (s : WorkerHealthSummary) (d : Watchdog)
    → s.live_worker_ids ≡ []
    → length (react st spawn now s d).spawned_pids + d.spawn_attempts
      ≤ length d.spawned_pids + (react st spawn now s d).spawn_attempts
unfolding react
react_budget st spawn now s d h = grind (arith, length-append)

-- After any ticks the attempts stay at most 3, and the recoveries number the processes started.
pub ticks-IsSound :
    (st : Settings) (spawn : ℕ → Outcome ℕ) (ts : List (ℕ × Option WorkerHealthSummary))
    (d : Watchdog)
    → IsSound d
    → IsSound (ticks st spawn ts d)
unfolding ticks
ticks-IsSound st spawn [] d v = v
ticks-IsSound st spawn ((now, none) ∷ ts) d v = ticks-IsSound st spawn ts d v
ticks-IsSound st spawn ((now, some s) ∷ ts) d v =
    ticks-IsSound st spawn ts (react st spawn now s d) (react-IsSound st spawn now s d v)

ticks_budget :
    (st : Settings) (spawn : ℕ → Outcome ℕ) (ts : List (ℕ × Option WorkerHealthSummary))
    (d : Watchdog)
    → Lifeless ts
    → length (ticks st spawn ts d).spawned_pids + d.spawn_attempts
      ≤ length d.spawned_pids + (ticks st spawn ts d).spawn_attempts
unfolding ticks
ticks_budget st spawn [] d h = omega arith
ticks_budget st spawn ((now, none) ∷ ts) d h = ticks_budget st spawn ts d h
ticks_budget st spawn ((now, some s) ∷ ts) d h = omega (
  arith,
  ticks_budget st spawn ts (react st spawn now s d) h.1,
  react_budget st spawn now s d h.0,
)

-- From a sound state, ticks among which no check finds a live worker start at most as many
-- processes as attempts were left of the 3, however long they go on and whatever the starts give.
pub spawned-le-attempts_left :
    (st : Settings) (spawn : ℕ → Outcome ℕ) (ts : List (ℕ × Option WorkerHealthSummary))
    (d : Watchdog)
    → IsSound d
    → Lifeless ts
    → length (ticks st spawn ts d).spawned_pids + d.spawn_attempts
      ≤ length d.spawned_pids + max_spawn_attempts
spawned-le-attempts_left st spawn ts d v h =
    omega (arith, ticks_budget st spawn ts d h, (ticks-IsSound st spawn ts d v).bounded)

-- What must hold for a check to start a process.
abbrev pub MayStart : Settings → ℕ → WorkerHealthSummary → Watchdog → Type 0
MayStart st now s d =
    (s.live_worker_ids ≡ [])
    × (s.stall_detected ≡ true)
    × (st.worker_auto_recover ≡ true)
    × (d.spawn_attempts < max_spawn_attempts)
    × ((since : ℕ) × (d.stall_since ≡ some since) × (seconds st.queue_stall_seconds ≤ now - since))

-- A check raises the number of attempts exactly where it may: no worker is live, a stall is
-- reported and was first seen, or last acted on, at least `queue_stall_seconds` ago, recovery is
-- enabled and fewer than 3 attempts were made.
pub attempt_iff :
    (st : Settings) (spawn : ℕ → Outcome ℕ) (now : ℕ) (s : WorkerHealthSummary) (d : Watchdog)
    → ((react st spawn now s d).spawn_attempts ≡ suc d.spawn_attempts) ↔ MayStart st now s d
unfolding react
attempt_iff st spawn now s d = (λ h. ground arith, λ h. ground arith)

-- The ticks from `t0` on, before `queue_stall_seconds` have passed.
abbrev pub AreWithin : Settings → ℕ → List (ℕ × Option WorkerHealthSummary) → Type 0
AreWithin st t0 [] = Unit
AreWithin st t0 ((now, o) ∷ ts) =
    (t0 ≤ now) × (now < t0 + seconds st.queue_stall_seconds) × AreWithin st t0 ts

-- A stall, if one is noted, is counted from `t0` or later.
abbrev pub IsRested : ℕ → Option ℕ → Type 0
IsRested t0 o = (since : ℕ) → o ≡ some since → t0 ≤ since

-- No process was started, and no attempt was made.
abbrev pub IsQuiet : Watchdog → Watchdog → Type 0
IsQuiet d d' = (d'.spawned_pids ≡ d.spawned_pids) × (d'.spawn_attempts ≤ d.spawn_attempts)

react-IsQuiet :
    (st : Settings) (spawn : ℕ → Outcome ℕ) (t0 now : ℕ) (s : WorkerHealthSummary) (d : Watchdog)
    → t0 ≤ now
    → now < t0 + seconds st.queue_stall_seconds
    → IsRested t0 d.stall_since
    → IsQuiet d (react st spawn now s d) × IsRested t0 (react st spawn now s d).stall_since
unfolding react
react-IsQuiet st spawn t0 now s d from before rested = go d.stall_since refl
  where
    go :
        (o : Option ℕ)
        → d.stall_since ≡ o
        → IsQuiet d (react st spawn now s d) × IsRested t0 (react st spawn now s d).stall_since
    go none e = ((ground arith, ground arith), λ x q. ground arith)
    go (some since) e =
        let late : t0 ≤ since = rested since e in
        ((ground arith, ground arith), λ x q. ground arith)

ticks-IsQuiet :
    (st : Settings) (spawn : ℕ → Outcome ℕ) (t0 : ℕ) (ts : List (ℕ × Option WorkerHealthSummary))
    (d : Watchdog)
    → AreWithin st t0 ts
    → IsRested t0 d.stall_since
    → IsQuiet d (ticks st spawn ts d)
unfolding ticks
ticks-IsQuiet st spawn t0 [] d within rested = (refl, omega arith)
ticks-IsQuiet st spawn t0 ((now, none) ∷ ts) d (from, before, within) rested =
    ticks-IsQuiet st spawn t0 ts d within rested
ticks-IsQuiet st spawn t0 ((now, some s) ∷ ts) d (from, before, within) rested =
    let ((pids, attempts), rested') = react-IsQuiet st spawn t0 now s d from before rested in
    let (pids', attempts') = ticks-IsQuiet st spawn t0 ts (react st spawn now s d) within rested' in
    (pids' ∙ pids, omega arith)

attempt-IsRested :
    (st : Settings) (spawn : ℕ → Outcome ℕ) (now : ℕ) (s : WorkerHealthSummary) (d : Watchdog)
    → MayStart st now s d
    → (react st spawn now s d).stall_since ≡ some now
unfolding react
attempt-IsRested st spawn now s d may = go (spawn (d.checks + 1)) refl
  where
    go :
        (o : Outcome ℕ) → spawn (d.checks + 1) ≡ o → (react st spawn now s d).stall_since ≡ some now
    go (returned pid) e = ground arith
    go (raised x) e = ground arith

-- After a check that may start a process, whether the start succeeds or raises, no further process is
-- started and no attempt is added for `queue_stall_seconds`, whatever the checks find meanwhile: also
-- where workers come and go between them.
pub attempt-IsQuiet :
    (st : Settings) (spawn : ℕ → Outcome ℕ) (t0 : ℕ) (s : WorkerHealthSummary) (d : Watchdog)
    (ts : List (ℕ × Option WorkerHealthSummary))
    → MayStart st t0 s d
    → AreWithin st t0 ts
    → IsQuiet (react st spawn t0 s d) (ticks st spawn ts (react st spawn t0 s d))
attempt-IsQuiet st spawn t0 s d ts may within =
    ticks-IsQuiet st spawn t0 ts (react st spawn t0 s d) within
      (λ x q. ground (arith, attempt-IsRested st spawn t0 s d may))

spawn_index : (spawn : ℕ → Outcome ℕ) (n : ℕ) → spawn (n + 1 + 1) ≡ spawn (n + 2)
spawn_index spawn n = ap spawn (omega arith)

-- A stall is acted on at the second check that sees it, `queue_stall_seconds` after the first or
-- later, where recovery is enabled, attempts are left and a process can be started.
pub second_check_starts :
    (st : Settings) (spawn : ℕ → Outcome ℕ) (t0 t1 pid : ℕ) (s0 s1 : WorkerHealthSummary)
    (d : Watchdog)
    → d.stall_since ≡ none
    → s0.live_worker_ids ≡ []
    → s0.stall_detected ≡ true
    → s1.live_worker_ids ≡ []
    → s1.stall_detected ≡ true
    → t0 + seconds st.queue_stall_seconds ≤ t1
    → st.worker_auto_recover ≡ true
    → d.spawn_attempts < max_spawn_attempts
    → spawn (d.checks + 2) ≡ returned pid
    → (ticks st spawn ((t0, some s0) ∷ (t1, some s1) ∷ []) d).spawned_pids
      ≡ d.spawned_pids ++ pid ∷ []
unfolding ticks
second_check_starts st spawn t0 t1 pid s0 s1 d n0 l0 d0 l1 d1 later auto left starts =
    ground (arith, spawn_index spawn d.checks)

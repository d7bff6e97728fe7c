-- ===== src/Watchdog/Health.antt =====
-- The health summary against what it promises: when a stall is reported, and which worker counts.
use general_agent_framework.Prelude.{
  ℕ, ◌-◌, ◌<◌, ◌≡◌, refl, ◌↔◌, ◌⊎◌, inl, inr, Bool, true, false, some, List, [], ◌∷◌, ◌++◌, map,
  arith, All, Bool-cases, if◌then◌else◌,
}
use mathlib.Core.List.{Perm, perm_middle}
use mathlib.Core.List.Perm
use general_agent_framework.Watchdog.{
  Settings, WorkerHeartbeat, BrokerBacklogSnapshot, HealthStatus, ready, degraded, stalled, offline,
  seconds, is_stale, is_stalled, ids_with, non_empty, health_status, summarize_worker_health,
}

-- Messages wait that nobody can take: some are queued, or one was taken too long ago.
abbrev pub Stuck : Settings → BrokerBacklogSnapshot → Type 0
Stuck st b =
    (b.reachable ≡ true)
    × ((0 < b.ready)
        ⊎ ((0 < b.unacked)
            × ((a : ℕ) × (b.oldest_unacked_age ≡ some a)
                × (seconds st.visibility_timeout_seconds < a))))

is_stalled_iff : (st : Settings) (b : BrokerBacklogSnapshot) → (is_stalled st b ≡ true) ↔ Stuck st b
unfolding is_stalled
is_stalled_iff st b = (λ h. ground arith, λ h. ground arith)

-- The ids of the workers whose last beat is at most the threshold old, and those of the others.
ids_with-perm :
    (n now : ℕ) (hs : List WorkerHeartbeat)
    → Perm (ids_with false n now hs ++ ids_with true n now hs) (map (λ h. h.worker_id) hs)
unfolding ids_with
ids_with-perm n now [] = Perm.rfl
ids_with-perm n now (h ∷ hs) = elim (Bool-cases (is_stale n now h)) [
  | inl e ↦ rw e (Perm.trans (perm_middle _ _) (Perm.cons h.worker_id (ids_with-perm n now hs)))
  | inr e ↦ rw e (Perm.cons h.worker_id (ids_with-perm n now hs))
]

-- The last beat is older than the threshold of `n` seconds.
abbrev pub IsOld : ℕ → ℕ → WorkerHeartbeat → Type 0
IsOld n now h = seconds n < now - h.beat_at

none_live :
    (n now : ℕ) (hs : List WorkerHeartbeat)
    → non_empty (ids_with false n now hs) ≡ false
    → All (IsOld n now) hs
unfolding ids_with is_stale
none_live n now [] e = tt
none_live n now (h ∷ hs) e = (ground arith, none_live n now hs (ground arith))

all_old :
    (n now : ℕ) (hs : List WorkerHeartbeat)
    → All (IsOld n now) hs
    → non_empty (ids_with false n now hs) ≡ false
unfolding ids_with is_stale
all_old n now [] a = refl
all_old n now (h ∷ hs) a = ground (arith, all_old n now hs a.1)

-- A health summary reports a stall exactly where every heartbeat is older than the threshold and
-- the broker, which could be read, holds messages that are stuck: some are queued, or some are
-- unacknowledged and the oldest of these has passed the visibility timeout.
pub stall_detected_iff :
    (st : Settings) (now : ℕ) (hs : List WorkerHeartbeat) (b : BrokerBacklogSnapshot)
    → ((summarize_worker_health st now hs b).stall_detected ≡ true)
      ↔ (All (IsOld st.worker_heartbeat_stale_seconds now) hs × Stuck st b)
unfolding summarize_worker_health
stall_detected_iff st now hs b =
    let n = st.worker_heartbeat_stale_seconds in
    let parts : (if non_empty (ids_with false n now hs) then false else is_stalled st b) ≡ true
        → (non_empty (ids_with false n now hs) ≡ false) × (is_stalled st b ≡ true) =
      λ e. ground arith in
    (
      λ e.
          let (quiet, stall) = parts e in (none_live n now hs quiet, (is_stalled_iff st b).0 stall),
      λ (old, stuck). rw (all_old n now hs old) ((is_stalled_iff st b).1 stuck),
    )

-- What each status of a summary says.
abbrev pub Reports :
    Settings → ℕ → List WorkerHeartbeat → BrokerBacklogSnapshot → HealthStatus → Type 0
Reports st now hs b ready =
    (b.reachable ≡ true) × ¬ All (IsOld st.worker_heartbeat_stale_seconds now) hs
Reports st now hs b degraded = b.reachable ≡ false
Reports st now hs b stalled =
    (b.reachable ≡ true) × All (IsOld st.worker_heartbeat_stale_seconds now) hs
Reports st now hs b offline = (b.reachable ≡ true) × (hs ≡ []) × ¬ Stuck st b

both_empty :
    (n now : ℕ) (hs : List WorkerHeartbeat)
    → non_empty (ids_with false n now hs) ≡ false
    → non_empty (ids_with true n now hs) ≡ false
    → hs ≡ []
unfolding ids_with
both_empty n now [] l k = refl
both_empty n now (h ∷ hs) l k = ground arith

-- The status of a health summary is `ready` only where the broker could be read and some heartbeat
-- is recent, `degraded` only where it could not be read, `stalled` only where it could and every
-- heartbeat is old, and `offline` only where it could, there is no heartbeat and nothing is stuck.
pub summarize-Reports :
    (st : Settings) (now : ℕ) (hs : List WorkerHeartbeat) (b : BrokerBacklogSnapshot)
    → Reports st now hs b (summarize_worker_health st now hs b).status
unfolding summarize_worker_health
summarize-Reports st now hs b =
    go b.reachable (non_empty (ids_with false n now hs)) (non_empty (ids_with true n now hs))
      (is_stalled st b) refl refl refl refl
  where
    n : ℕ
    n = st.worker_heartbeat_stale_seconds

    go :
        (r l k s : Bool)
        → b.reachable ≡ r
        → non_empty (ids_with false n now hs) ≡ l
        → non_empty (ids_with true n now hs) ≡ k
        → is_stalled st b ≡ s
        → Reports st now hs b (health_status r l k (if l then false else s))
    go true true k s er el ek es = (er, λ old. cc (all_old n now hs old))
    go true false k true er el ek es = (er, none_live n now hs el)
    go true false true false er el ek es = (er, none_live n now hs el)
    go true false false false er el ek es =
        (er, both_empty n now hs el ek, λ stuck. cc ((is_stalled_iff st b).1 stuck))
    go false true k s er el ek es = er
    go false false k true er el ek es = cc (((is_stalled_iff st b).0 es).0)
    go false false k false er el ek es = er

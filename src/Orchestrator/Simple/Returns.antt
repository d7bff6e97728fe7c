-- ===== src/Orchestrator/Simple/Returns.antt =====
-- When a run of the simple orchestrator returns.
use general_agent_framework.Prelude.{ℕ, String, ◌≡◌, some}
use general_agent_framework.Outcome.{returned}
use general_agent_framework.Orchestrator.Base.{Services}
use general_agent_framework.Memory.{MemoryService}

-- The extraction of memories returns a number, whatever the texts of the turn.
abbrev pub Extracts : MemoryService → Type 0
Extracts service =
    (user assistant : String) → (n : ℕ) × (service.extract user assistant ≡ returned n)

-- The memory service of a run, if it has one, extracts without an exception.
abbrev pub MayExtract : Services → Type 0
MayExtract sv = (service : MemoryService) → sv.memory_service ≡ some service → Extracts service

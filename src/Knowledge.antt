-- ===== src/Knowledge.antt =====
-- Knowledge retrieval, app/knowledge: the hits, and the controls on their diversity between fusion
-- and reranking. A score is kept as the JSON number that it is.
pub mod Chunking
pub mod Diversity
pub mod Quota
pub mod Siblings
pub mod Seeds
mod Samples
use general_agent_framework.Prelude.{String, str_eq, if◌then◌else◌}
use general_agent_framework.Json.{Value, Fields}

pub record KnowledgeHit : Type 0 where
  pub id : String
  pub title : String
  pub content : String
  pub score : Value
  pub source : String
  pub parent_id : String
  pub parent_text : String
  pub metadata_payload : Fields

-- Python's `a or b` on texts
unfoldable pub or_else : String → String → String
or_else a b = if str_eq a "" then b else a

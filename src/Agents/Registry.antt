-- ===== src/Agents/Registry.antt =====
-- The agent registry: app/agents/registry/agent_registry.py. A class is what `create` instantiates:
-- its metadata, which `build_metadata` returns, and its logic.
use Prim.Native.String.{◌++◌ as append}
use general_agent_framework.Prelude.{
  String, ◌≡◌, refl, Bool, none, some, List, [], ◌∷◌, arith, eq_iff,
}
use general_agent_framework.Prelude.Dict.{Dict, get, put, has, get-put}
use general_agent_framework.Outcome.{
  Outcome, returned, raised, ◌>>=◌, value_error, key_error, repr_message,
}
use general_agent_framework.Agents.{Agent, AgentMetadata}

pub record AgentRegistry : Type 0 where
  pub agent_classes : Dict Agent
  pub agent_metadata : Dict AgentMetadata

abbrev pub empty : AgentRegistry
empty = record { agent_classes = []; agent_metadata = [] }

unfoldable pub register : Agent → AgentRegistry → Outcome AgentRegistry
register c r = elim (get c.metadata.agent_id r.agent_metadata) [
  | some _ ↦ raised (record {
    class = value_error;
    text = append "Agent '" (append c.metadata.agent_id "' is already registered.");
  })
  | none ↦ returned (record {
    agent_classes = put c.metadata.agent_id c r.agent_classes;
    agent_metadata = put c.metadata.agent_id c.metadata r.agent_metadata;
  })
]

-- one round of `register_many`, with the further ones
unfoldable pub after_register :
    Agent
    → (AgentRegistry → Outcome (List Agent) × AgentRegistry)
    → AgentRegistry
    → Outcome AgentRegistry
    → Outcome (List Agent) × AgentRegistry
after_register c rest r (raised e) = (raised e, r)
after_register c rest r (returned r') =
    let (o, r'') = rest r' in (o >>= λ cs. returned (c ∷ cs), r'')

-- A class that is refused ends the loop; what was registered before it stays.
unfoldable pub register_many : List Agent → AgentRegistry → Outcome (List Agent) × AgentRegistry
unfolding after_register
register_many [] r = (returned [], r)
register_many (c ∷ cs) r = after_register c (register_many cs) r (register c r)

unfoldable pub exists : AgentRegistry → String → Bool
exists r agent_id = has agent_id r.agent_classes

unfoldable pub create : AgentRegistry → String → Outcome Agent
create r agent_id = elim (get agent_id r.agent_classes) [
  | some c ↦ returned c
  | none ↦ raised (record {
    class = key_error;
    text = repr_message (append "Agent '" (append agent_id "' is not registered."));
  })
]

unfoldable pub get_metadata : AgentRegistry → String → Outcome AgentMetadata
get_metadata r agent_id = elim (get agent_id r.agent_metadata) [
  | some m ↦ returned m
  | none ↦ raised (record {
    class = key_error;
    text = repr_message (append "Agent '" (append agent_id "' is not registered."));
  })
]

-- Each class stands under its own id, with its own metadata beside it.
pub record IsConsistent (r : AgentRegistry) : Type 0 where
  pub class_id : (k : String) (c : Agent) → get k r.agent_classes ≡ some c → c.metadata.agent_id ≡ k
  pub class_metadata :
      (k : String) (c : Agent)
      → get k r.agent_classes ≡ some c
      → get k r.agent_metadata ≡ some c.metadata
  pub metadata_class : (k : String) → get k r.agent_classes ≡ none → get k r.agent_metadata ≡ none

pub empty-IsConsistent : IsConsistent empty
unfolding get
empty-IsConsistent = record {
  class_id = λ k c h. cc;
  class_metadata = λ k c h. cc;
  metadata_class = λ k h. refl;
}

-- What a successful registration adds, and that it replaces nothing.
pub register-returned :
    (c : Agent) (r r' : AgentRegistry)
    → register c r ≡ returned r'
    → (get c.metadata.agent_id r.agent_metadata ≡ none)
      × (r'.agent_classes ≡ put c.metadata.agent_id c r.agent_classes)
      × (r'.agent_metadata ≡ put c.metadata.agent_id c.metadata r.agent_metadata)
unfolding register
register-returned c r r' h = ground arith

pub register-IsConsistent :
    (c : Agent) (r r' : AgentRegistry)
    → IsConsistent r
    → register c r ≡ returned r'
    → IsConsistent r'
register-IsConsistent c r r' v h =
    let (fresh, ec, em) = register-returned c r r' h in
    let id = c.metadata.agent_id in
    record {
      class_id =
          λ k d e. ground (arith, get-put id k c r.agent_classes, eq_iff id k, v.class_id k d);
      class_metadata = λ k d e. ground (
        arith,
        get-put id k c r.agent_classes,
        get-put id k c.metadata r.agent_metadata,
        eq_iff id k,
        v.class_metadata k d,
      );
      metadata_class = λ k e. ground (
        arith,
        get-put id k c r.agent_classes,
        get-put id k c.metadata r.agent_metadata,
        eq_iff id k,
        v.metadata_class k,
      );
    }

-- However many classes are registered, and even where one of them is refused, a consistent registry
-- stays consistent: each class stands under its own id, with its own metadata beside it.
pub register_many-IsConsistent :
    (cs : List Agent) (r : AgentRegistry) → IsConsistent r → IsConsistent (register_many cs r).1
unfolding register_many
register_many-IsConsistent [] r v = v
register_many-IsConsistent (c ∷ cs) r v =
    go (register c r) refl
      (λ r' h. register_many-IsConsistent cs r' (register-IsConsistent c r r' v h))
  where
    go :
        (o : Outcome AgentRegistry)
        → register c r ≡ o
        → ((r' : AgentRegistry) → register c r ≡ returned r' → IsConsistent (register_many cs r').1)
        → IsConsistent (after_register c (register_many cs) r o).1
    go (raised e) h k = v
    go (returned r') h k = k r' h

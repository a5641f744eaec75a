-- ===== src/Identity/Service.antt =====
-- `IdentityService` of src/modules/identity/identity.service.ts, with the entity and the transfer objects
-- that it uses. The database, the recovery of a signer and the contract calls are parameters.
pub mod Laws
pub mod Updates
pub mod Tests
use a2a_agent_layer.Common.{
  ℕ, Bool, true, false, ◌||◌, ◌&&◌, ◌≡◌, Option, none, some, List, [], ◌∷◌, ◌++◌, if◌then◌else◌,
  get_or, Text, codes, text_eq, lower_case, Outcome, ok, throw, forbidden, not_found, conflict,
  Action, proceed,
}
use a2a_agent_layer.Blockchain.Retry.{RetryOptions, Waiting, with_retry}
use a2a_agent_layer.Identity.Claim.{RegistrationClaim, verify_did_controller}

pub data AgentStatus : Type 0 where
  active inactive : AgentStatus

-- The columns of a new row; the database fills in an absent status.
pub record AgentData : Type 0 where
  pub agent_did : Text
  pub owner : Text
  pub public_key : Text
  pub endpoint : Text
  pub status : AgentStatus

pub record Agent : Type 0 where
  pub id : Text
  pub columns : AgentData
  pub created_at : ℕ
  pub updated_at : ℕ

pub record RegisterAgentDto : Type 0 where
  pub agent_did : Text
  pub owner : Text
  pub public_key : Text
  pub endpoint : Text
  pub owner_signature : Text
  pub status : Option AgentStatus

pub record UpdateAgentDto : Type 0 where
  pub public_key : Option Text
  pub endpoint : Option Text
  pub status : Option AgentStatus

-- A call of the registry contract, with its arguments.
pub data RegistryCall : Type 0 where
  register_agent update_agent : Text → Text → Text → RegistryCall
  deactivate_agent : Text → RegistryCall

-- The agents' table. `insert` saves a new row, `save` one that was read before.
pub record AgentRepository : Type 1 where
  pub Db : Type 0
  pub rows : Db → List Agent
  pub insert : AgentData → Action Db Agent
  pub save : Agent → Action Db Agent
  pub find_one_by : (Agent → Bool) → Db → Outcome (Option Agent)
  pub find : Db → Outcome (List Agent)

pub record IdentityDeps : Type 1 where
  pub agent_repo : AgentRepository
  pub registry_address : Text
  pub verify_message : Text → Text → Option Text
  -- the chain, the contract at an address, and one call with its receipt
  pub Chain : Type 0
  pub get_contract : Text → Outcome (Unit {0})
  pub submit : RegistryCall → Action Chain Text
  pub scale : ℕ → ℕ

pub record World (Db Chain : Type 0) : Type 0 where
  pub db : Db
  pub chain : Waiting Chain

abbrev no_options : RetryOptions
no_options = record {
  max_attempts = none;
  initial_delay_ms = none;
  max_delay_ms = none;
  factor = none;
  jitter = none;
  should_retry = none;
}

abbrev pub claim_of : RegisterAgentDto → RegistrationClaim
claim_of dto = record {
  agent_did = dto.agent_did;
  owner = dto.owner;
  public_key = dto.public_key;
  endpoint = dto.endpoint;
}

-- `{ ...claim, owner: claim.owner.toLowerCase() }`
abbrev pub row_of : RegisterAgentDto → AgentData
row_of dto = record {
  agent_did = dto.agent_did;
  owner = lower_case dto.owner;
  public_key = dto.public_key;
  endpoint = dto.endpoint;
  status = get_or dto.status active;
}

-- `Object.assign(agent, data)`
abbrev pub assign : Agent → UpdateAgentDto → Agent
assign agent dto = record agent {
  columns = record agent.columns {
    public_key = get_or dto.public_key agent.columns.public_key;
    endpoint = get_or dto.endpoint agent.columns.endpoint;
    status = get_or dto.status agent.columns.status;
  };
}

-- Whether a text is there and not empty.
abbrev pub truthy : Option Text → Bool
truthy none = false
truthy (some []) = false
truthy (some (c ∷ s)) = true

module _ (deps : IdentityDeps) where
  open deps use {agent_repo, registry_address, verify_message, Chain, get_contract, submit, scale}

  abbrev pub State : Type 0
  State = World agent_repo.Db Chain

  -- The retried contract call inside its `try`: an error is logged, and nothing more.
  unfoldable pub on_chain : RegistryCall → State → State
  on_chain call w = elim (get_contract registry_address) [
    | throw e ↦ w
    | ok _ ↦ record w { chain = (with_retry scale (submit call) no_options w.chain).1 }
  ]

  unfoldable pub register : RegisterAgentDto → Action State Agent
  register dto w =
      if verify_did_controller verify_message (claim_of dto) dto.owner_signature
      then elim (agent_repo.find_one_by (λ a. text_eq a.columns.agent_did dto.agent_did) w.db) [
        | throw e ↦ (throw e, w)
        | ok (some existing) ↦ (
          throw (conflict (codes "Agent " ++ dto.agent_did ++ codes " is already registered")),
          w,
        )
        | ok none ↦
            let (answer, db) = agent_repo.insert (row_of dto) w.db in
            proceed (answer, record w { db = db })
              (λ saved w'. (
                ok saved,
                if truthy (some registry_address)
                    then on_chain
                        (register_agent saved.columns.agent_did saved.columns.public_key
                          saved.columns.endpoint)
                        w'
                    else w',
              ))
      ]
      else (
        throw (
            forbidden (codes "ownerSignature does not prove control of the claimed owner address")),
        w,
      )

  unfoldable pub find_all : State → Outcome (List Agent)
  find_all w = agent_repo.find w.db

  unfoldable pub find_one : Text → State → Outcome Agent
  find_one id w = elim (agent_repo.find_one_by (λ a. text_eq a.id id) w.db) [
    | throw e ↦ throw e
    | ok none ↦ throw (not_found (codes "Agent " ++ id ++ codes " not found"))
    | ok (some agent) ↦ ok agent
  ]

  unfoldable pub find_by_did : Text → State → Outcome Agent
  find_by_did did w = elim (agent_repo.find_one_by (λ a. text_eq a.columns.agent_did did) w.db) [
    | throw e ↦ throw e
    | ok none ↦ throw (not_found (codes "Agent with DID " ++ did ++ codes " not found"))
    | ok (some agent) ↦ ok agent
  ]

  unfoldable pub update : Text → UpdateAgentDto → Action State Agent
  update id dto w =
      proceed (find_one id w, w)
        (λ agent w₁.
          let (answer, db) = agent_repo.save (assign agent dto) w₁.db in
          proceed (answer, record w₁ { db = db })
            (λ saved w₂. (
              ok saved,
              if truthy (some registry_address) && (truthy dto.public_key || truthy dto.endpoint)
                  then on_chain
                      (update_agent saved.columns.agent_did saved.columns.public_key
                        saved.columns.endpoint)
                      w₂
                  else w₂,
            )))

  unfoldable pub deactivate : Text → Action State Agent
  deactivate id w =
      proceed (find_one id w, w)
        (λ agent w₁.
          let (answer, db) =
            agent_repo.save (record agent { columns = record agent.columns { status = inactive } })
              w₁.db in
          proceed (answer, record w₁ { db = db })
            (λ saved w₂. (
              ok saved,
              if truthy (some registry_address)
                  then on_chain (deactivate_agent saved.columns.agent_did) w₂
                  else w₂,
            )))

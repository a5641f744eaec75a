-- ===== src/Identity/Service/Laws.antt =====
-- Who can be registered, and that each DID is registered once.
use a2a_agent_layer.Common.{
  Bool, true, false, get_or, lower_case, text_eq_iff, ◌≡◌, refl, ◌∙◌, ap, ap₂, inl, inr, Option,
  Option-cases, none, some, List, [], ◌∷◌, ◌++◌, All, if◌then◌else◌, Bool-cases, Text, codes,
  text_eq, Outcome, Outcome-cases, ok, throw, Exception, conflict, forbidden, proceed,
  proceed_value, proceed_throw,
}
use a2a_agent_layer.Identity.Claim.{build_registration_message, verify_did_controller}
use a2a_agent_layer.Identity.Service.{
  AgentData, Agent, active, RegisterAgentDto, AgentRepository, IdentityDeps, claim_of, row_of,
  State, RegistryCall, on_chain, register, register_agent, truthy,
}

-- What the database promises: `insert` adds one row with the given columns, or none if it throws, and
-- `find_one_by` answers none exactly if no row meets the condition.
pub record IsAgentRepository (repo : AgentRepository) : Type 0 where
  pub inserted :
      (x : AgentData) (db db' : repo.Db) (a : Agent)
      → repo.insert x db ≡ (ok a, db')
      → (a.columns ≡ x) × (repo.rows db' ≡ a ∷ repo.rows db)
  pub not_inserted :
      (x : AgentData) (db db' : repo.Db) (e : Exception)
      → repo.insert x db ≡ (throw e, db')
      → repo.rows db' ≡ repo.rows db
  pub missing :
      (p : Agent → Bool) (db : repo.Db)
      → repo.find_one_by p db ≡ ok none
      → All (λ a. p a ≡ false) (repo.rows db)

-- No two agents have one DID.
abbrev pub Unique : List Agent → Type 0
Unique [] = Unit
Unique (a ∷ rows) =
    All (λ b. text_eq b.columns.agent_did a.columns.agent_did ≡ false) rows × Unique rows

module _ (deps : IdentityDeps) where
  on_chain-db : (call : RegistryCall) (w : State deps) → (on_chain deps call w).db ≡ w.db
  unfolding on_chain
  on_chain-db call w = elim (Outcome-cases (deps.get_contract deps.registry_address)) [
    | inl (u, e) ↦ rw (e, on_chain)
    | inr (x, e) ↦ rw (e, on_chain)
  ]

  if-db : (b : Bool) (v w : State deps) → v.db ≡ w.db → (if b then v else w).db ≡ w.db
  if-db true v w e = e
  if-db false v w e = refl

module _ (deps : IdentityDeps) (dto : RegisterAgentDto) (w : State deps) where
  open deps use {agent_repo, verify_message, registry_address}

  abbrev pub same_did : Agent → Bool
  same_did a = text_eq a.columns.agent_did dto.agent_did

  abbrev pub proved : Bool
  proved = verify_did_controller verify_message (claim_of dto) dto.owner_signature

  abbrev stored : Outcome Agent × agent_repo.Db
  stored = agent_repo.insert (row_of dto) w.db

  abbrev announce : Agent → State deps → Outcome Agent × State deps
  announce saved v = (
    ok saved,
    if truthy (some registry_address)
        then on_chain deps
            (register_agent saved.columns.agent_did saved.columns.public_key saved.columns.endpoint)
            v
        else v,
  )

  register_unproved :
      proved ≡ false → (message : Text) × (register deps dto w ≡ (throw (forbidden message), w))
  unfolding register
  register_unproved p =
      (codes "ownerSignature does not prove control of the claimed owner address", rw p)

  register_unread :
      (e : Exception)
      → proved ≡ true
      → agent_repo.find_one_by same_did w.db ≡ throw e
      → register deps dto w ≡ (throw e, w)
  unfolding register
  register_unread e p f = rw (p, f, register)

  register_taken :
      (a : Agent)
      → proved ≡ true
      → agent_repo.find_one_by same_did w.db ≡ ok (some a)
      → (message : Text) × (register deps dto w ≡ (throw (conflict message), w))
  unfolding register
  register_taken a p f =
      (codes "Agent " ++ dto.agent_did ++ codes " is already registered", rw (p, f, register))

  register_new :
      proved ≡ true
      → agent_repo.find_one_by same_did w.db ≡ ok none
      → register deps dto w ≡ proceed (stored.0, record w { db = stored.1 }) announce
  unfolding register
  register_new p f = rw (p, f, register)

  -- The signer of the claim's message is the owner, whatever the case of the letters.
  abbrev pub SignedByOwner : Type 0
  SignedByOwner =
      (signer : Text) × (verify_message
          (build_registration_message (record {
            agent_did = dto.agent_did;
            owner = dto.owner;
            public_key = dto.public_key;
            endpoint = dto.endpoint;
          }))
          dto.owner_signature
        ≡ some signer)
      × (lower_case signer ≡ lower_case dto.owner)

  -- The columns of the claim, with the owner in lower case, and active unless the claim says otherwise.
  abbrev pub HoldsClaim : AgentData → Type 0
  HoldsClaim x =
      (x.agent_did ≡ dto.agent_did)
      × (x.owner ≡ lower_case dto.owner)
      × (x.public_key ≡ dto.public_key)
      × (x.endpoint ≡ dto.endpoint)
      × (x.status ≡ get_or dto.status active)

  is_owner :
      (recovered : Option Text)
      → elim recovered [
        | none ↦ false
        | some signer ↦ text_eq (lower_case signer) (lower_case dto.owner)
      ]
        ≡ true
      → (signer : Text) × (recovered ≡ some signer) × (lower_case signer ≡ lower_case dto.owner)
  is_owner none h = cc
  is_owner (some signer) h =
      (signer, refl, (text_eq_iff (lower_case signer) (lower_case dto.owner)).0 h)

  proved-SignedByOwner : proved ≡ true → SignedByOwner
  unfolding verify_did_controller
  proved-SignedByOwner p =
      is_owner (verify_message (build_registration_message (claim_of dto)) dto.owner_signature) p

  row_of-HoldsClaim : (x : AgentData) → x ≡ row_of dto → HoldsClaim x
  row_of-HoldsClaim x e = (
    ap (λ y. y.agent_did) e,
    ap (λ y. y.owner) e,
    ap (λ y. y.public_key) e,
    ap (λ y. y.endpoint) e,
    ap (λ y. y.status) e,
  )

  -- How a registration ends.
  pub data Registered (before after : List Agent) : Outcome Agent → Type 0 where
    refused : {e : Exception} → after ≡ before → Registered before after (throw e)
    added :
        {a : Agent}
        → SignedByOwner
        → All (λ b. text_eq b.columns.agent_did dto.agent_did ≡ false) before
        → HoldsClaim a.columns
        → after ≡ a ∷ before
        → Registered before after (ok a)

  module _ (law : IsAgentRepository agent_repo) where
    new_row :
        proved ≡ true
        → agent_repo.find_one_by same_did w.db ≡ ok none
        → Registered
            (agent_repo.rows w.db)
            (agent_repo.rows (proceed (stored.0, record w { db = stored.1 }) announce).1.db)
            (proceed (stored.0, record w { db = stored.1 }) announce).0
    new_row p f = elim (Outcome-cases stored.0) [
      | inl (a, e) ↦
          let (columns, rows) =
            law.inserted (row_of dto) w.db stored.1 a (ap₂ (λ x y. (x, y)) e refl) in
          let call = proceed_value (stored.0, record w { db = stored.1 }) announce a e in
          let announced =
            if-db deps (truthy (some registry_address))
              (on_chain deps
                (register_agent a.columns.agent_did a.columns.public_key a.columns.endpoint)
                (record w { db = stored.1 }))
              (record w { db = stored.1 }) (on_chain-db deps _ _) in
          rw call (
            added (proved-SignedByOwner p) (law.missing same_did w.db f)
              (row_of-HoldsClaim a.columns columns) (ap (λ d. agent_repo.rows d) announced ∙ rows))
      | inr (x, e) ↦
          let call = proceed_throw (stored.0, record w { db = stored.1 }) announce x e in
          rw call
            (refused (law.not_inserted (row_of dto) w.db stored.1 x (ap₂ (λ a b. (a, b)) e refl)))
    ]

    -- Over an agents' table that keeps its contract, a registration that throws leaves the table as it
    -- was. One that returns has added the row that it returns and nothing else: the address that the
    -- signature recovers from the claim's message is the owner's, up to the case of letters, no agent had
    -- the DID, and the row holds the claim with the owner in lower case, active unless the claim says
    -- otherwise. The contract call does not matter.
    pub register-Registered :
        Registered
          (agent_repo.rows w.db)
          (agent_repo.rows (register deps dto w).1.db)
          (register deps dto w).0
    register-Registered = elim (Bool-cases proved) [
      | inr no_ ↦ let (m, e) = register_unproved no_ in rw e (refused refl)
      | inl p ↦ elim (Outcome-cases (agent_repo.find_one_by same_did w.db)) [
        | inr (x, f) ↦ rw (register_unread x p f) (refused refl)
        | inl (o, f) ↦ elim (Option-cases o) [
          | inl e ↦ let missing = f ∙ ap ok e in rw (register_new p missing) (new_row p missing)
          | inr (a, e) ↦ let (m, r) = register_taken a p (f ∙ ap ok e) in rw r (refused refl)
        ]
      ]
    ]

    Registered-Unique :
        {after : List Agent} {answer : Outcome Agent}
        → Registered (agent_repo.rows w.db) after answer
        → Unique (agent_repo.rows w.db)
        → Unique after
    Registered-Unique (refused e) u = rw e u
    Registered-Unique (added p new columns e) u = rw (e, columns.0) (new, u)

    -- Over an agents' table that keeps its contract, if no two agents have one DID, then none do after a
    -- registration, however it ends.
    pub register-Unique :
        Unique (agent_repo.rows w.db) → Unique (agent_repo.rows (register deps dto w).1.db)
    register-Unique u = Registered-Unique register-Registered u

-- ===== src/Identity/Service/Updates.antt =====
-- What an update and a deactivation change of an agent.
use a2a_agent_layer.Common.{◌≡◌, refl, sym, ◌∙◌, ap, ap₂, Text, get_or, ok, proceed_ok, ok_inj}
use a2a_agent_layer.Identity.Service.{
  Agent, inactive, UpdateAgentDto, AgentRepository, IdentityDeps, State, assign, find_one, update,
  deactivate,
}

-- What the database promises of `save`: the row that it returns has the columns that it was given.
abbrev pub Saves : AgentRepository → Type 0
Saves repo =
    (a : Agent) (db db' : repo.Db) (r : Agent)
    → repo.save a db ≡ (ok r, db')
    → r.columns ≡ a.columns

module _ (deps : IdentityDeps) (saves : Saves deps.agent_repo) where
  open deps use {agent_repo}

  saved_columns :
      (a r : Agent) (db : agent_repo.Db) → (agent_repo.save a db).0 ≡ ok r → r.columns ≡ a.columns
  saved_columns a r db e = saves a db (agent_repo.save a db).1 r (ap₂ (λ x y. (x, y)) e refl)

  -- A deactivation that returns has read the agent with the given id, and what it returns has that
  -- agent's columns, with the status inactive.
  pub deactivate-IsInactive :
      (id : Text) (w : State deps) (a : Agent)
      → (deactivate deps id w).0 ≡ ok a
      → (b : Agent) × (find_one deps id w ≡ ok b)
        × (a.columns ≡ record b.columns { status = inactive })
  unfolding deactivate
  deactivate-IsInactive id w a e =
      let (b, found, e₁) = proceed_ok _ _ e in
      let (r, saved, e₂) = proceed_ok _ _ (sym (ap (λ x. x.0) e₁) ∙ e) in
      let same : r ≡ a = ok_inj (sym (ap (λ x. x.0) e₂) ∙ sym (ap (λ x. x.0) e₁) ∙ e) in
      (b, found, ap (λ x. x.columns) (sym same) ∙ saved_columns _ r w.db saved)

  -- An update that returns has read the agent with the given id. What it returns has that agent's DID
  -- and owner, and the public key and the endpoint that were given, or else the agent's own.
  pub update_keeps :
      (id : Text) (dto : UpdateAgentDto) (w : State deps) (a : Agent)
      → (update deps id dto w).0 ≡ ok a
      → (b : Agent) × (find_one deps id w ≡ ok b)
        × (a.columns.agent_did ≡ b.columns.agent_did)
        × (a.columns.owner ≡ b.columns.owner)
        × (a.columns.public_key ≡ get_or dto.public_key b.columns.public_key)
        × (a.columns.endpoint ≡ get_or dto.endpoint b.columns.endpoint)
  unfolding update
  update_keeps id dto w a e =
      let (b, found, e₁) = proceed_ok _ _ e in
      let (r, saved, e₂) = proceed_ok _ _ (sym (ap (λ x. x.0) e₁) ∙ e) in
      let same : r ≡ a = ok_inj (sym (ap (λ x. x.0) e₂) ∙ sym (ap (λ x. x.0) e₁) ∙ e) in
      let columns : a.columns ≡ (assign b dto).columns =
        ap (λ x. x.columns) (sym same) ∙ saved_columns (assign b dto) r w.db saved in
      (
        b,
        found,
        ap (λ c. c.agent_did) columns,
        ap (λ c. c.owner) columns,
        ap (λ c. c.public_key) columns,
        ap (λ c. c.endpoint) columns,
      )

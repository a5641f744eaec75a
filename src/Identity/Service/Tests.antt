-- ===== src/Identity/Service/Tests.antt =====
-- A registry of agents in a list.
use a2a_agent_layer.Common.{
  Bool, false, ◌≡◌, refl, sym, ◌∙◌, ap, none, some, List, [], ◌∷◌, All, find, Bool-cases, inl, inr,
  codes, text_eq, ok, throw, error, ok_inj,
}
use a2a_agent_layer.Identity.Service.{
  AgentData, Agent, active, RegisterAgentDto, AgentRepository, IdentityDeps, State, register,
  inactive, UpdateAgentDto, find_one, update, deactivate,
}
use a2a_agent_layer.Identity.Service.Laws.{
  IsAgentRepository, Unique, Registered, register-Registered, register-Unique,
}

abbrev new_agent : AgentData → Agent
new_agent x = record { id = codes "a"; columns = x; created_at = 0; updated_at = 0 }

abbrev repo : AgentRepository
repo = record {
  Db = List Agent;
  rows = λ db. db;
  insert = λ x db. (ok (new_agent x), new_agent x ∷ db);
  save = λ a db. (ok a, db);
  find_one_by = λ p db. ok (find p db);
  find = λ db. ok db;
}

find-none : (p : Agent → Bool) (db : List Agent) → find p db ≡ none → All (λ a. p a ≡ false) db
find-none p [] e = tt
find-none p (a ∷ db) e = elim (Bool-cases (p a)) [
  | inl h ↦ absurd (cc (rw h at e))
  | inr h ↦ (h, find-none p db (rw h at e))
]

repo-IsAgentRepository : IsAgentRepository repo
repo-IsAgentRepository = record {
  inserted = λ x db db' a e. (
    ap (λ b. b.columns) (sym (ok_inj (ap (λ y. y.0) e))),
    sym (ap (λ y. y.1) e) ∙ ap (λ b. b ∷ db) (ok_inj (ap (λ y. y.0) e)),
  );
  not_inserted = λ x db db' f e. cc (ap (λ y. y.0) e);
  missing = λ p db e. find-none p db (ok_inj e);
}

-- The chain is down, and each signature is its signer.
abbrev deps : IdentityDeps
deps = record {
  agent_repo = repo;
  registry_address = codes "0x1";
  verify_message = λ message signature. some signature;
  Chain = Unit {0};
  get_contract = λ address. ok tt;
  submit = λ call chain. (throw (error (codes "network down")), chain);
  scale = λ d. d;
}

abbrev dto : RegisterAgentDto
dto = record {
  agent_did = codes "did:x:1";
  owner = codes "0xA";
  public_key = codes "k";
  endpoint = codes "http://e";
  owner_signature = codes "0xa";
  status = none;
}

abbrev other : Agent
other = new_agent (record {
  agent_did = codes "did:x:2";
  owner = codes "0xb";
  public_key = codes "k";
  endpoint = codes "http://f";
  status = active;
})

abbrev start : State deps
start = record { db = other ∷ []; chain = record { inner = tt; waits = [] } }

register-Registered_example :
    Registered deps dto start
      (other ∷ [])
      (register deps dto start).1.db
      (register deps dto start).0
register-Registered_example = register-Registered deps dto start repo-IsAgentRepository

register-Unique_example : Unique (register deps dto start).1.db
register-Unique_example = register-Unique deps dto start repo-IsAgentRepository (tt, tt)

deactivate_ok :
    (deactivate deps (codes "a") start).0
    ≡ ok (record other { columns = record other.columns { status = inactive } })
unfolding deactivate find_one text_eq
deactivate_ok = refl

abbrev moved : UpdateAgentDto
moved = record { public_key = none; endpoint = some (codes "http://g"); status = none }

updated :
    (update deps (codes "a") moved start).0
    ≡ ok (record other { columns = record other.columns { endpoint = codes "http://g" } })
unfolding update find_one text_eq
updated = refl

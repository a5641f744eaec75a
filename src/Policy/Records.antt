-- ===== src/Policy/Records.antt =====
-- `PolicyService` of src/modules/policy/policy.service.ts, over the table of policies, which is a parameter.
pub mod Laws
use a2a_agent_layer.Common.{
  Bool, Option, none, some, List, [], ◌∷◌, if◌then◌else◌, get_or, Text, text_eq, Outcome, ok, throw,
  Action, proceed,
}
use a2a_agent_layer.Policy.Service.{Policy, PolicyRules}

-- `Partial<Policy>`: the columns that are given.
pub record PolicyColumns : Type 0 where
  pub agent_id : Option Text
  pub name : Option Text
  pub rules : Option PolicyRules
  pub signature : Option Text
  pub is_active : Option Bool

-- The calls of the repository. `update` changes the given columns of the row with an id.
pub record PolicyRepository : Type 1 where
  pub Db : Type 0
  pub save : PolicyColumns → Action Db Policy
  pub find : Db → Outcome (List Policy)
  pub find_one_by : Text → Db → Outcome (Option Policy)
  pub update : Text → PolicyColumns → Action Db (Unit {0})

module _ (repo : PolicyRepository) where
  unfoldable pub create_policy : PolicyColumns → Action repo.Db Policy
  create_policy columns db = repo.save columns db

  unfoldable pub find_policies : Action repo.Db (List Policy)
  find_policies db = (repo.find db, db)

  unfoldable pub find_policy : Text → Action repo.Db (Option Policy)
  find_policy id db = (repo.find_one_by id db, db)

  unfoldable pub update_policy : Text → PolicyColumns → Action repo.Db (Option Policy)
  unfolding find_policy
  update_policy id columns db = proceed (repo.update id columns db) (λ _ db'. find_policy id db')

-- ===== src/Policy/Records/Laws.antt =====
-- What an update of a policy answers with.
use a2a_agent_layer.Common.{◌≡◌, ap, ◌∙◌, Option, none, some, get_or, Text, ok, proceed_value}
use a2a_agent_layer.Policy.Service.{Policy}
use a2a_agent_layer.Policy.Records.{PolicyColumns, PolicyRepository, find_policy, update_policy}

-- A row with the columns that are given, and its own for the others.
abbrev pub merged : PolicyColumns → Policy → Policy
merged columns policy = record {
  id = policy.id;
  agent_id = get_or columns.agent_id policy.agent_id;
  name = get_or columns.name policy.name;
  rules = get_or columns.rules policy.rules;
  signature = elim columns.signature [ none ↦ policy.signature | some s ↦ some s ];
  is_active = get_or columns.is_active policy.is_active;
}

abbrev merged_row : PolicyColumns → Option Policy → Option Policy
merged_row columns none = none
merged_row columns (some policy) = some (merged columns policy)

-- An update that succeeds changes the row with the id, if there is one.
abbrev pub IsPolicyRepository : PolicyRepository → Type 0
IsPolicyRepository repo =
    (id : Text) (columns : PolicyColumns) (db : repo.Db) (row : Option Policy)
    → repo.find_one_by id db ≡ ok row
    → (repo.update id columns db).0 ≡ ok tt
    → repo.find_one_by id (repo.update id columns db).1 ≡ ok (merged_row columns row)

-- Over a table that keeps its contract, an update whose statement succeeds answers with the row that was
-- there, with the columns that are given, or with none if there was none.
pub update_policy-merged :
    (repo : PolicyRepository) (id : Text) (columns : PolicyColumns) (db : repo.Db)
    (row : Option Policy)
    → IsPolicyRepository repo
    → repo.find_one_by id db ≡ ok row
    → (repo.update id columns db).0 ≡ ok tt
    → (update_policy repo id columns db).0 ≡ ok (merged_row columns row)
unfolding update_policy find_policy
update_policy-merged repo id columns db row c e u =
    ap (λ p. p.0)
      (proceed_value (repo.update id columns db) (λ _ db'. (repo.find_one_by id db', db')) tt u)
    ∙ c id columns db row e u

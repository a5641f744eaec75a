-- ===== src/Pricing.antt =====
-- src/modules/pricing/pricing.service.ts and the tariff entity.
pub mod Batch
pub mod Tests
use a2a_agent_layer.Common.{
  ℕ, Bool, true, ◌||◌, Option, none, some, List, [], ◌∷◌, ◌++◌, if◌then◌else◌, any, Text, text_eq,
  get, set, Outcome, ok, throw, Action, ◌>>=◌,
}

pub data TariffType : Type 0 where
  per_request per_token per_second fixed_variable : TariffType

pub record TariffData : Type 0 where
  pub agent_id : Text
  pub service_id : Text
  pub tariff_type : TariffType
  pub base_price : Text
  pub variable_price : Option Text
  pub currency : Text
  pub metadata_uri : Option Text
  pub metadata_hash : Option Text

pub record Tariff : Type 0 where
  pub id : Text
  pub columns : TariffData
  pub created_at : ℕ

-- The tariffs' table. `find` asks for the rows that meet a condition, with the newest first; rows of the
-- same time may come in any order, and in another one the next time.
pub record TariffRepository : Type 1 where
  pub Db : Type 0
  pub rows : Db → List Tariff
  pub save : TariffData → Action Db Tariff
  pub find : (Tariff → Bool) → Db → Outcome (List Tariff)
  pub find_one_by : (Tariff → Bool) → Db → Outcome (Option Tariff)

-- `filter.serviceId ? { serviceId: filter.serviceId } : {}`
abbrev pub where_service : Option Text → Tariff → Bool
where_service none t = true
where_service (some []) t = true
where_service (some (c ∷ s)) t = text_eq t.columns.service_id (c ∷ s)

-- `In(ids)`
abbrev pub in_ids : List Text → Tariff → Bool
in_ids ids t = any (λ id. text_eq id t.columns.service_id) ids

-- `Array.from(new Set(ids))`: each id where it first stands, with the ids seen so far.
unfoldable pub distinct : List Text → List Text → List Text
distinct seen [] = []
distinct seen (id ∷ ids) =
    let rest = distinct seen ids in
    let longer = distinct (id ∷ seen) ids in
    if any (λ j. text_eq j id) seen then rest else id ∷ longer

-- One turn of the loop that groups.
unfoldable pub push : List (Text × List Tariff) → Tariff → List (Text × List Tariff)
unfolding get set
push grouped t = elim (get grouped t.columns.service_id) [
  | some bucket ↦ set grouped t.columns.service_id (bucket ++ t ∷ [])
  | none ↦ set grouped t.columns.service_id (t ∷ [])
]

unfoldable pub group : List (Text × List Tariff) → List Tariff → List (Text × List Tariff)
unfolding push
group grouped [] = grouped
group grouped (t ∷ tariffs) = group (push grouped t) tariffs

module _ (repo : TariffRepository) where
  unfoldable pub create : TariffData → Action repo.Db Tariff
  create x db = repo.save x db

  unfoldable pub find_all : Option Text → repo.Db → Outcome (List Tariff)
  find_all service_id db = repo.find (where_service service_id) db

  unfoldable pub find_one : Text → repo.Db → Outcome (Option Tariff)
  find_one id db = repo.find_one_by (λ t. text_eq t.id id) db

  abbrev pub grouped_by : List Text → repo.Db → Outcome (List (Text × List Tariff))
  grouped_by [] db = ok []
  grouped_by (id ∷ ids) db = repo.find (in_ids (id ∷ ids)) db >>= λ tariffs. ok (group [] tariffs)

  unfoldable pub find_by_service_ids : List Text → repo.Db → Outcome (List (Text × List Tariff))
  unfolding distinct group
  find_by_service_ids service_ids db = grouped_by (distinct [] service_ids) db

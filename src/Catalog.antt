-- ===== src/Catalog.antt =====
-- src/modules/catalog/catalog.service.ts, its entity and its query object.
pub mod Like
pub mod Listing
pub mod Tests
use a2a_agent_layer.Common.{
  ℕ, suc, ◌-◌, ◌*◌, Bool, true, false, ◌||◌, Option, none, some, List, [], ◌∷◌, ◌++◌, map, leb,
  ◌==◌, if◌then◌else◌, get_or, Text, codes, text_eq, get, Outcome, ok, throw, Action, ◌>>=◌,
}
use a2a_agent_layer.Common.Json.{Json}
use mathlib.Core.List.{reverse}
use a2a_agent_layer.Common.Trim.{trim}
use a2a_agent_layer.Pricing.{Tariff, TariffRepository, find_by_service_ids}

pub record ServiceData : Type 0 where
  pub agent_id : Text
  pub name : Text
  pub description : Text
  pub input_schema : Option Json
  pub output_schema : Option Json
  pub sla_hints : Option Json

pub record Service : Type 0 where
  pub id : Text
  pub columns : ServiceData
  pub created_at : ℕ

pub record ServiceWithTariffs : Type 0 where
  pub service : Service
  pub tariffs : List Tariff

pub record ListServicesDto : Type 0 where
  pub agent_id : Option Text
  pub q : Option Text
  pub include : Option Text
  pub page : Option ℕ
  pub limit : Option ℕ

-- What the query builder holds when `getMany` runs: always newest first.
pub record ServiceQuery : Type 0 where
  pub agent_id : Option Text
  pub like : Option Text
  pub take : Option ℕ
  pub skip : Option ℕ

pub record ServiceRepository : Type 1 where
  pub Db : Type 0
  pub save : ServiceData → Action Db Service
  pub get_many : ServiceQuery → Db → Outcome (List Service)
  pub find_one_by : (Service → Bool) → Db → Outcome (Option Service)

abbrev pub percent : ℕ
percent = b'%'

abbrev pub underscore : ℕ
underscore = b'_'

abbrev pub backslash : ℕ
backslash = 92

-- `value.replace(/[\\%_]/g, (char) => `\\${char}`)`
unfoldable pub escape_like : Text → Text
escape_like [] = []
escape_like (c ∷ s) =
    let rest = escape_like s in
    if c == backslash || c == percent || c == underscore then backslash ∷ c ∷ rest else c ∷ rest

-- `query.q?.trim()`, as the pattern of the condition if it is not empty.
abbrev pub like_of_trimmed : Text → Option Text
like_of_trimmed [] = none
like_of_trimmed (c ∷ s) = some (percent ∷ escape_like (c ∷ s) ++ percent ∷ [])

abbrev like_of : Option Text → Option Text
like_of none = none
like_of (some q) = like_of_trimmed (trim q)

-- A value that is there and not empty, or not zero.
abbrev given_text : Option Text → Option Text
given_text none = none
given_text (some []) = none
given_text (some (c ∷ s)) = some (c ∷ s)

abbrev given_number : Option ℕ → Option ℕ
given_number none = none
given_number (some n) = if n == 0 then none else some n

-- `((query.page ?? 1) - 1) * query.limit`; the query object admits no page below 1.
abbrev skip_of : Option ℕ → Option ℕ → Option ℕ
skip_of page none = none
skip_of page (some n) = some ((get_or page 1 - 1) * n)

unfoldable pub build_query : ListServicesDto → ServiceQuery
unfolding trim escape_like
build_query dto = record {
  agent_id = given_text dto.agent_id;
  like = like_of dto.q;
  take = given_number dto.limit;
  skip = skip_of dto.page (given_number dto.limit);
}

pub data ServiceList : Type 0 where
  services : List Service → ServiceList
  with_tariffs : List ServiceWithTariffs → ServiceList

abbrev wants_tariffs : Option Text → Bool
wants_tariffs none = false
wants_tariffs (some s) = text_eq s (codes "tariffs")

abbrev pub embed : List (Text × List Tariff) → Service → ServiceWithTariffs
embed tariffs service = record { service = service; tariffs = get_or (get tariffs service.id) [] }

module _ (repo : ServiceRepository) (pricing : TariffRepository) where
  unfoldable pub create_service : ServiceData → Action repo.Db Service
  create_service x db = repo.save x db

  unfoldable pub list_services : ListServicesDto → repo.Db → pricing.Db → Outcome ServiceList
  unfolding build_query get text_eq
  list_services dto db prices = repo.get_many (build_query dto) db >>= λ found.
      if wants_tariffs dto.include
      then (find_by_service_ids pricing (map (λ s. s.id) found) prices >>= λ tariffs.
          ok (with_tariffs (map (embed tariffs) found)))
      else ok (services found)

  unfoldable pub find_service : Text → repo.Db → Outcome (Option Service)
  unfolding text_eq
  find_service id db = repo.find_one_by (λ s. text_eq s.id id) db

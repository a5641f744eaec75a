-- ===== src/Catalog/Tests.antt =====
-- A search for a text with a wildcard in it, and a listing with one service.
use a2a_agent_layer.Common.{
  ◌≡◌, refl, none, some, List, [], ◌∷◌, All, find, codes, lower_case, text_eq, get, ok,
}
use a2a_agent_layer.Pricing.{find_by_service_ids}
use a2a_agent_layer.Pricing.Tests.{repo, repo-IsOrdered, table, tariff}
use a2a_agent_layer.Catalog.{
  Service, ServiceWithTariffs, ListServicesDto, ServiceRepository, with_tariffs, list_services,
}
use a2a_agent_layer.Catalog.Like.{Contains}
use a2a_agent_layer.Catalog.Listing.{IsPriced, list_services-IsPriced}

abbrev sale : ListServicesDto
sale = record {
  agent_id = none;
  q = some (codes " 50% Off ");
  include = none;
  page = none;
  limit = none;
}

not_wild : Contains (codes "now 50% OFF") (codes "50% Off")
unfolding lower_case
not_wild = (codes "now ", codes "50% OFF", [], refl, refl)

abbrev service : Service
service = record {
  id = codes "s";
  columns = record {
    agent_id = codes "a";
    name = codes "n";
    description = codes "d";
    input_schema = none;
    output_schema = none;
    sla_hints = none;
  };
  created_at = 1;
}

abbrev catalog : ServiceRepository
catalog = record {
  Db = List Service;
  save = λ x db. (ok service, service ∷ db);
  get_many = λ query db. ok db;
  find_one_by = λ p db. ok (find p db);
}

abbrev dto : ListServicesDto
dto = record {
  agent_id = none;
  q = none;
  include = some (codes "tariffs");
  page = none;
  limit = none;
}

abbrev rows : List ServiceWithTariffs
rows = record { service = service; tariffs = tariff 3 (codes "s") ∷ tariff 1 (codes "s") ∷ [] } ∷ []

listed : list_services catalog repo dto (service ∷ []) table ≡ ok (with_tariffs rows)
unfolding list_services find_by_service_ids text_eq get
listed = refl

list_services-IsPriced_example :
    (ok (service ∷ []) ≡ ok (service ∷ [])) × All (IsPriced catalog repo repo-IsOrdered table) rows
list_services-IsPriced_example =
    list_services-IsPriced catalog repo repo-IsOrdered table dto (service ∷ []) rows listed

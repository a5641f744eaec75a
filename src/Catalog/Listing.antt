-- ===== src/Catalog/Listing.antt =====
-- A listing with its tariffs, and the lookups that it replaces.
use a2a_agent_layer.Common.{
  ℕ, true, ◌≡◌, refl, sym, ◌∙◌, ap, some, inl, inr, List, [], ◌∷◌, map, any, All, Bool-cases, Text,
  text_eq, text_eq_refl, ok, bind_ok, ok_inj, arith,
}
use a2a_agent_layer.Pricing.{Tariff, TariffRepository, find_all, find_by_service_ids}
use a2a_agent_layer.Pricing.Batch.{IsOrdered, SameTariffs, find_by_service_ids-find_all}
use a2a_agent_layer.Catalog.{
  Service, ServiceWithTariffs, ListServicesDto, ServiceRepository, build_query, with_tariffs,
  wants_tariffs, embed, list_services,
}

module _ (repo : ServiceRepository) (pricing : TariffRepository) (ordered : IsOrdered pricing)
    (prices : pricing.Db) where
  -- The row's tariffs are those that a lookup of its service would return, up to the order of tariffs of
  -- the same time.
  abbrev pub IsPriced : ServiceWithTariffs → Type 0
  IsPriced row =
      (c : ℕ) (s : Text) (xs : List Tariff)
      → row.service.id ≡ c ∷ s
      → find_all pricing (some (c ∷ s)) prices ≡ ok xs
      → SameTariffs row.tariffs xs

  module _ (ids : List Text) (m : List (Text × List Tariff))
      (batch : find_by_service_ids pricing ids prices ≡ ok m) where
    embed-IsPriced : (s : Service) → any (λ j. text_eq j s.id) ids ≡ true → IsPriced (embed m s)
    embed-IsPriced s e c t xs same single = rw same (
        find_by_service_ids-find_all pricing ordered prices ids c t m xs (rw same at e) batch
          single)

    embed-All :
        (found : List Service)
        → All (λ s. any (λ j. text_eq j s.id) ids ≡ true) found
        → All IsPriced (map (embed m) found)
    embed-All [] l = tt
    embed-All (s ∷ found) l = (embed-IsPriced s l.0, embed-All found l.1)

  listed_more :
      (j : Text) (ids : List Text) (found : List Service)
      → All (λ s. any (λ k. text_eq k s.id) ids ≡ true) found
      → All (λ s. any (λ k. text_eq k s.id) (j ∷ ids) ≡ true) found
  listed_more j ids [] l = tt
  listed_more j ids (s ∷ found) l = (ground (arith, l.0), listed_more j ids found l.1)

  all_listed :
      (found : List Service)
      → All (λ s. any (λ j. text_eq j s.id) (map (λ x. x.id) found) ≡ true) found
  all_listed [] = tt
  all_listed (s ∷ found) =
      (rw (text_eq_refl s.id), listed_more s.id (map (λ x. x.id) found) found (all_listed found))

  services_embed :
      (m : List (Text × List Tariff)) (found : List Service)
      → map (λ row. row.service) (map (embed m) found) ≡ found
  services_embed m [] = refl
  services_embed m (s ∷ found) = ap (λ x. s ∷ x) (services_embed m found)

  -- A listing with tariffs holds the services that the query returned, in their order, and with each
  -- of them the tariffs that a lookup of this service returns, each as often, and newest first as well,
  -- if the tariffs' table answers with the rows that meet a condition, newest first.
  pub list_services-IsPriced :
      (dto : ListServicesDto) (db : repo.Db) (rows : List ServiceWithTariffs)
      → list_services repo pricing dto db prices ≡ ok (with_tariffs rows)
      → (repo.get_many (build_query dto) db ≡ ok (map (λ row. row.service) rows))
        × All IsPriced rows
  unfolding list_services
  list_services-IsPriced dto db rows e =
      let (found, queried, e₁) = bind_ok _ _ e in
      elim (Bool-cases (wants_tariffs dto.include)) [
        | inl wanted ↦
            let (m, batch, e₂) = bind_ok _ _ (rw wanted at e₁) in
            let same : map (embed m) found ≡ rows = cc (ok_inj e₂) in
            (
              queried ∙ ap ok (sym (services_embed m found) ∙ ap (map (λ row. row.service)) same),
              rw (← same) (embed-All (map (λ s. s.id) found) m batch found (all_listed found)),
            )
        | inr plain ↦ absurd (cc (rw plain at e₁))
      ]

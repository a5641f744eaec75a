-- ===== src/Pricing/Batch.antt =====
-- The batched lookup answers as the lookups one by one.
use mathlib.Core.List.{Permᴰ}
use mathlib.Core.List.Permᴰ
use a2a_agent_layer.Common.{
  ℕ, ◌≤◌, All, Bool, true, false, ◌≡◌, refl, sym, ◌∙◌, ap, Option-cases, inl, inr, some, List, [],
  ◌∷◌, ◌++◌, append-nil, append_assoc, filter, any, if◌then◌else◌, get_or, Bool-cases, Text,
  text_eq, text_eq_iff, text_eq_refl, get, set, get-set, ok, ok_inj, bind_ok, arith,
}
use a2a_agent_layer.Pricing.{
  Tariff, TariffRepository, where_service, in_ids, distinct, push, group, grouped_by, find_all,
  find_by_service_ids,
}

-- The times of creation do not increase.
abbrev pub NewestFirst : List Tariff → Type 0
NewestFirst [] = Unit
NewestFirst (t ∷ tariffs) = All (λ u. u.created_at ≤ t.created_at) tariffs × NewestFirst tariffs

-- What the database promises of `find`: it answers with the rows that meet the condition, newest first.
abbrev pub IsOrdered : TariffRepository → Type 0
IsOrdered repo =
    (p : Tariff → Bool) (db : repo.Db) (xs : List Tariff)
    → repo.find p db ≡ ok xs
    → Permᴰ xs (filter p (repo.rows db)) × NewestFirst xs

-- The same tariffs, each as often, with the newest first in both lists.
abbrev pub SameTariffs : List Tariff → List Tariff → Type 0
SameTariffs xs ys = Permᴰ xs ys × NewestFirst xs × NewestFirst ys

filter-perm :
    (p : Tariff → Bool) {xs ys : List Tariff} → Permᴰ xs ys → Permᴰ (filter p xs) (filter p ys)
filter-perm p Permᴰ.nil = Permᴰ.nil
filter-perm p (Permᴰ.cons {b = b} e d) = rw e (elim (Bool-cases (p b)) [
  | inl h ↦ rw h (Permᴰ.cons refl (filter-perm p d))
  | inr h ↦ rw h (filter-perm p d)
])
filter-perm p (Permᴰ.swap {a' = a} {b' = b} {l = l} e f) =
    rw (e, f)
      (elim (Bool-cases (p a)) [
        | inl h ↦ elim (Bool-cases (p b)) [
          | inl k ↦ rw (h, k) (Permᴰ.swap refl refl)
          | inr k ↦ rw (h, k) (Permᴰ.refl (a ∷ filter p l))
        ]
        | inr h ↦ elim (Bool-cases (p b)) [
          | inl k ↦ rw (h, k) (Permᴰ.refl (b ∷ filter p l))
          | inr k ↦ rw (h, k) (Permᴰ.refl (filter p l))
        ]
      ])
filter-perm p (Permᴰ.trans d e) = Permᴰ.trans (filter-perm p d) (filter-perm p e)

All-filter :
    (P : Tariff → Type 0) (p : Tariff → Bool) (xs : List Tariff) → All P xs → All P (filter p xs)
All-filter P p [] a = tt
All-filter P p (x ∷ xs) (a, rest) = elim (Bool-cases (p x)) [
  | inl h ↦ rw h (a, All-filter P p xs rest)
  | inr h ↦ rw h (All-filter P p xs rest)
]

filter-NewestFirst :
    (p : Tariff → Bool) (xs : List Tariff) → NewestFirst xs → NewestFirst (filter p xs)
filter-NewestFirst p [] n = tt
filter-NewestFirst p (x ∷ xs) (a, rest) = elim (Bool-cases (p x)) [
  | inl h ↦
      rw h (All-filter (λ u. u.created_at ≤ x.created_at) p xs a, filter-NewestFirst p xs rest)
  | inr h ↦ rw h (filter-NewestFirst p xs rest)
]

abbrev bucket : List (Text × List Tariff) → Text → List Tariff
bucket m id = get_or (get m id) []

abbrev of_service : Text → Tariff → Bool
of_service id t = text_eq t.columns.service_id id

set-bucket :
    (m : List (Text × List Tariff)) (k : Text) (v : List Tariff) (id : Text)
    → bucket (set m k v) id ≡ (if text_eq k id then v else bucket m id)
set-bucket m k v id =
    rw (get-set m k v id) (elim (Bool-cases (text_eq k id)) [ inl h ↦ rw h | inr h ↦ rw h ])

-- A turn of the loop puts a tariff behind those of its service.
push-set :
    (m : List (Text × List Tariff)) (t : Tariff)
    → push m t ≡ set m t.columns.service_id (bucket m t.columns.service_id ++ t ∷ [])
unfolding push
push-set m t = elim (Option-cases (get m t.columns.service_id)) [
  | inl e ↦ rw (e, push)
  | inr (b, e) ↦ rw (e, push)
]

push-bucket :
    (m : List (Text × List Tariff)) (t : Tariff) (id : Text)
    → bucket (push m t) id ≡ (if of_service id t then bucket m id ++ t ∷ [] else bucket m id)
push-bucket m t id =
    ap (λ x. bucket x id) (push-set m t)
    ∙ set-bucket m t.columns.service_id _ id
    ∙ elim (Bool-cases (text_eq t.columns.service_id id)) [
      | inl h ↦ rw (h, (text_eq_iff t.columns.service_id id).0 h)
      | inr h ↦ rw h
    ]

group-bucket :
    (tariffs : List Tariff) (m : List (Text × List Tariff)) (id : Text)
    → bucket (group m tariffs) id ≡ bucket m id ++ filter (of_service id) tariffs
unfolding group
group-bucket [] m id = sym (append-nil (bucket m id))
group-bucket (t ∷ tariffs) m id =
    group-bucket tariffs (push m t) id
    ∙ ap (λ x. x ++ filter (of_service id) tariffs) (push-bucket m t id)
    ∙ elim (Bool-cases (of_service id t)) [
      | inl h ↦ rw h (append_assoc (bucket m id) (t ∷ []) (filter (of_service id) tariffs))
      | inr h ↦ rw h
    ]

-- `id` is among the distinct ids.
distinct-any :
    (ids seen : List Text) (id : Text)
    → any (λ j. text_eq j id) ids ≡ true
    → any (λ j. text_eq j id) seen ≡ false
    → any (λ j. text_eq j id) (distinct seen ids) ≡ true
unfolding distinct
distinct-any [] seen id e n = cc
distinct-any (j ∷ ids) seen id e n = elim (Bool-cases (text_eq j id)) [
  | inl h ↦ let same = (text_eq_iff j id).0 h in rw (same, n, text_eq_refl id)
  | inr h ↦ ground (arith, h, distinct-any ids seen id, distinct-any ids (j ∷ seen) id)
]

filter-in_ids :
    (ids : List Text) (id : Text) (rows : List Tariff)
    → any (λ j. text_eq j id) ids ≡ true
    → filter (of_service id) (filter (in_ids ids) rows) ≡ filter (of_service id) rows
filter-in_ids ids id [] e = refl
filter-in_ids ids id (t ∷ rows) e =
    ground (arith, text_eq_iff t.columns.service_id id, filter-in_ids ids id rows e)

module _ (repo : TariffRepository) (ordered : IsOrdered repo) (db : repo.Db) where
  grouped_ok :
      (ids : List Text) (m : List (Text × List Tariff)) (id : Text)
      → any (λ j. text_eq j id) ids ≡ true
      → grouped_by repo ids db ≡ ok m
      → Permᴰ (bucket m id) (filter (of_service id) (repo.rows db)) × NewestFirst (bucket m id)
  unfolding get
  grouped_ok [] m id e h = cc
  grouped_ok (j ∷ ids) m id e h =
      let (tariffs, found, made) = bind_ok _ _ h in
      let (perm, newest) = ordered (in_ids (j ∷ ids)) db tariffs found in
      let held : bucket m id ≡ filter (of_service id) tariffs =
        ap (λ x. bucket x id) (sym (ok_inj made)) ∙ group-bucket tariffs [] id in
      let of_id : Permᴰ (filter (of_service id) tariffs)
          (filter (of_service id) (filter (in_ids (j ∷ ids)) (repo.rows db))) =
        filter-perm (of_service id) perm in
      rw held (
        rw (filter-in_ids (j ∷ ids) id (repo.rows db) e) at of_id,
        filter-NewestFirst (of_service id) tariffs newest,
      )

  -- Over a table whose queries answer with the rows that meet the condition, newest first, and with rows
  -- of the same time in any order: where the batched lookup and the lookup of one of its services both
  -- return, the batch holds under that service's id just the tariffs that the single lookup returns,
  -- newest first as well.
  pub find_by_service_ids-find_all :
      (service_ids : List Text) (c : ℕ) (s : Text) (m : List (Text × List Tariff))
      (xs : List Tariff)
      → any (λ j. text_eq j (c ∷ s)) service_ids ≡ true
      → find_by_service_ids repo service_ids db ≡ ok m
      → find_all repo (some (c ∷ s)) db ≡ ok xs
      → SameTariffs (get_or (get m (c ∷ s)) []) xs
  unfolding find_by_service_ids find_all
  find_by_service_ids-find_all service_ids c s m xs e batch single =
      let (held, newest) =
        grouped_ok (distinct [] service_ids) m (c ∷ s) (distinct-any service_ids [] (c ∷ s) e refl)
          batch in
      let (found, sorted) = ordered (where_service (some (c ∷ s))) db xs single in
      (Permᴰ.trans held (Permᴰ.symm found), newest, sorted)

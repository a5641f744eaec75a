-- ===== src/Pricing/Tests.antt =====
-- Two services with three tariffs.
use mathlib.Core.List.{Permᴰ}
use mathlib.Core.List.Permᴰ
use a2a_agent_layer.Common.{
  ℕ, ◌≤◌, leb, leb→le, All, Bool-cases, inl, inr, if◌then◌else◌, ok_inj, arith, ◌≡◌, refl, none,
  some, List, [], ◌∷◌, filter, find, Text, codes, text_eq, ok,
}
use a2a_agent_layer.Pricing.Batch.{NewestFirst, IsOrdered}
use a2a_agent_layer.Pricing.{
  per_request, TariffData, Tariff, TariffRepository, find_all, find_by_service_ids,
}

abbrev columns : Text → TariffData
columns service_id = record {
  agent_id = codes "a";
  service_id = service_id;
  tariff_type = per_request;
  base_price = codes "1";
  variable_price = none;
  currency = codes "PROM";
  metadata_uri = none;
  metadata_hash = none;
}

abbrev pub tariff : ℕ → Text → Tariff
tariff n service_id = record { id = n ∷ []; columns = columns service_id; created_at = n }

-- A tariff put where the times say.
abbrev insert : Tariff → List Tariff → List Tariff
insert t [] = t ∷ []
insert t (u ∷ tariffs) =
    if leb u.created_at t.created_at then t ∷ u ∷ tariffs else u ∷ insert t tariffs

abbrev sort : List Tariff → List Tariff
sort [] = []
sort (t ∷ tariffs) = insert t (sort tariffs)

insert-perm : (t : Tariff) (xs : List Tariff) → Permᴰ (insert t xs) (t ∷ xs)
insert-perm t [] = Permᴰ.refl (t ∷ [])
insert-perm t (u ∷ xs) = elim (Bool-cases (leb u.created_at t.created_at)) [
  | inl h ↦ rw h (Permᴰ.refl (t ∷ u ∷ xs))
  | inr h ↦ rw h (Permᴰ.trans (Permᴰ.cons refl (insert-perm t xs)) (Permᴰ.swap refl refl))
]

sort-perm : (xs : List Tariff) → Permᴰ (sort xs) xs
sort-perm [] = Permᴰ.nil
sort-perm (t ∷ xs) = Permᴰ.trans (insert-perm t (sort xs)) (Permᴰ.cons refl (sort-perm xs))

All-insert :
    (n : ℕ) (t : Tariff) (xs : List Tariff)
    → t.created_at ≤ n
    → All (λ u. u.created_at ≤ n) xs
    → All (λ u. u.created_at ≤ n) (insert t xs)
All-insert n t [] h a = (h, tt)
All-insert n t (u ∷ xs) h (b, a) = elim (Bool-cases (leb u.created_at t.created_at)) [
  | inl k ↦ rw k (h, (b, a))
  | inr k ↦ rw k (b, All-insert n t xs h a)
]

All-below :
    (n k : ℕ) (xs : List Tariff)
    → n ≤ k
    → All (λ u. u.created_at ≤ n) xs
    → All (λ u. u.created_at ≤ k) xs
All-below n k [] h a = tt
All-below n k (u ∷ xs) h (b, a) = (omega (arith, h, b), All-below n k xs h a)

insert-NewestFirst : (t : Tariff) (xs : List Tariff) → NewestFirst xs → NewestFirst (insert t xs)
insert-NewestFirst t [] n = (tt, tt)
insert-NewestFirst t (u ∷ xs) (a, n) = elim (Bool-cases (leb u.created_at t.created_at)) [
  | inl h ↦
      let le = leb→le u.created_at t.created_at h in
      rw h ((le, All-below u.created_at t.created_at xs le a), (a, n))
  | inr h ↦ rw h (All-insert u.created_at t xs (ground arith) a, insert-NewestFirst t xs n)
]

sort-NewestFirst : (xs : List Tariff) → NewestFirst (sort xs)
sort-NewestFirst [] = tt
sort-NewestFirst (t ∷ xs) = insert-NewestFirst t (sort xs) (sort-NewestFirst xs)

abbrev pub repo : TariffRepository
repo = record {
  Db = List Tariff;
  rows = λ db. db;
  save = λ x db. (ok (tariff 9 x.service_id), tariff 9 x.service_id ∷ db);
  find = λ p db. ok (sort (filter p db));
  find_one_by = λ p db. ok (find p db);
}

pub repo-IsOrdered : IsOrdered repo
repo-IsOrdered p db xs e =
    let same : sort (filter p db) ≡ xs = ok_inj e in
    rw (← same) (sort-perm (filter p db), sort-NewestFirst (filter p db))

abbrev pub table : List Tariff
table = tariff 3 (codes "s") ∷ tariff 2 (codes "t") ∷ tariff 1 (codes "s") ∷ []

abbrev batch : List (Text × List Tariff)
batch =
    (codes "s", tariff 3 (codes "s") ∷ tariff 1 (codes "s") ∷ [])
    ∷ (codes "t", tariff 2 (codes "t") ∷ [])
    ∷ []

batch_found : find_by_service_ids repo (codes "t" ∷ codes "s" ∷ codes "t" ∷ []) table ≡ ok batch
unfolding find_by_service_ids text_eq
batch_found = refl

single_found :
    find_all repo (some (codes "s")) table ≡ ok (tariff 3 (codes "s") ∷ tariff 1 (codes "s") ∷ [])
unfolding find_all text_eq
single_found = refl

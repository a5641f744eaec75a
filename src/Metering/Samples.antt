-- ===== src/Metering/Samples.antt =====
-- Repositories over lists, for the tests.
use mathlib.Core.List.{Permᴰ}
use a2a_agent_layer.Common.{◌≡◌, refl, ap, List, [], ◌∷◌, filter, codes, ok, ok_inj}
use a2a_agent_layer.Metering.{
  Repository, MeteringDeps, UsageData, UsageRecord, ReceiptData, Receipt,
}
use a2a_agent_layer.Metering.Laws.{IsRepository, UsageKept, ReceiptKept}
use a2a_agent_layer.Crypto.Canonical.Order.{same}

perm_refl : {A : Type 0} (xs : List A) → Permᴰ xs xs
perm_refl [] = Permᴰ.nil
perm_refl (x ∷ xs) = Permᴰ.cons refl (perm_refl xs)

module _ {D R : Type 0} (make : D → R) where
  abbrev pub list_repository : Repository D R
  list_repository = record {
    Db = List R;
    rows = λ db. db;
    save = λ x db. (ok (make x), make x ∷ db);
    find = λ p db. ok (filter p db);
  }

  pub list_repository-IsRepository :
      (columns : R → D) (KeptAs : R → R → Type 0)
      → ((x : D) → columns (make x) ≡ x)
      → ((r : R) → KeptAs r r)
      → IsRepository list_repository columns KeptAs
  list_repository-IsRepository columns KeptAs made kept = record {
    saved = λ x db db' r e.
        let row : make x ≡ r = ok_inj (ap (λ p. p.0) e) in
        let table : make x ∷ db ≡ db' = ap (λ p. p.1) e in
        rw (← row, ← table) (made x, (make x, kept (make x), Permᴰ.cons refl (perm_refl db)));
    not_saved = λ x db db' f e. cc (ap (λ p. p.0) e);
    found = λ p db xs e. rw (← ok_inj e) (perm_refl (filter p db));
  }

abbrev pub usage_row : UsageData → UsageRecord
usage_row x = record { id = codes "u"; created_at = 1; columns = x }

abbrev pub receipt_row : ReceiptData → Receipt
receipt_row x = record { id = codes "r"; created_at = 1; columns = x }

abbrev pub sample_deps : MeteringDeps
sample_deps = record {
  usage_repo = list_repository usage_row;
  receipt_repo = list_repository receipt_row;
  sign_message = λ s. ok s;
}

pub usage_repo-IsRepository : IsRepository (list_repository usage_row) (λ r. r.columns) UsageKept
usage_repo-IsRepository =
    list_repository-IsRepository usage_row (λ r. r.columns) UsageKept (λ x. refl) (λ r. refl)

pub ReceiptKept-same : (r : Receipt) → ReceiptKept (λ s. s) r r
ReceiptKept-same r = record {
  id = refl;
  created_at = refl;
  session_id = refl;
  request_hash = refl;
  result_hash = refl;
  usage_metrics = same;
  price_computed = refl;
  nonce = refl;
  signature = refl;
}

pub receipt_repo-IsRepository :
    IsRepository (list_repository receipt_row) (λ r. r.columns) (ReceiptKept (λ s. s))
receipt_repo-IsRepository =
    list_repository-IsRepository receipt_row (λ r. r.columns) (ReceiptKept (λ s. s)) (λ x. refl)
      ReceiptKept-same

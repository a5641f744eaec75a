-- ===== src/Metering/Laws.antt =====
-- What the metering service relies on of its repositories, and that a receipt is signed.
use mathlib.Core.List.{Permᴰ}
use a2a_agent_layer.Common.{
  ◌≡◌, refl, sym, ◌∙◌, ap, List, ◌∷◌, Bool, filter, Text, ok, throw, Exception, Outcome-cases, inl,
  inr, ap₂,
}
use a2a_agent_layer.Crypto.Canonical.Order.{SameJson}
use a2a_agent_layer.Metering.{
  Repository, UsageRecord, MeteringDeps, ReceiptData, Receipt, ReceiptParams, message_to_sign,
  receipt_of, create_signed_receipt,
}

-- A repository whose `save` returns the given columns with what was generated for them, and adds one row
-- that keeps them as the types of the columns do, or none if it throws, and whose `find` reads the rows
-- that meet the condition, in some order.
pub record IsRepository {D R : Type 0} (repo : Repository D R) (columns : R → D)
    (KeptAs : R → R → Type 0) : Type 0 where
  pub saved :
      (x : D) (db db' : repo.Db) (r : R)
      → repo.save x db ≡ (ok r, db')
      → (columns r ≡ x) × ((row : R) × KeptAs r row × Permᴰ (repo.rows db') (row ∷ repo.rows db))
  pub not_saved :
      (x : D) (db db' : repo.Db) (e : Exception)
      → repo.save x db ≡ (throw e, db')
      → repo.rows db' ≡ repo.rows db
  pub found :
      (p : R → Bool) (db : repo.Db) (xs : List R)
      → repo.find p db ≡ ok xs
      → Permᴰ xs (filter p (repo.rows db))

-- A row of usage keeps everything as it is.
abbrev pub UsageKept : UsageRecord → UsageRecord → Type 0
UsageKept r row = row ≡ r

-- A row of receipts keeps the texts; a jsonb column does not keep the order of properties, and a decimal
-- column writes a number in its own way.
pub record ReceiptKept (as_decimal : Text → Text) (r row : Receipt) : Type 0 where
  pub id : row.id ≡ r.id
  pub created_at : row.created_at ≡ r.created_at
  pub session_id : row.columns.session_id ≡ r.columns.session_id
  pub request_hash : row.columns.request_hash ≡ r.columns.request_hash
  pub result_hash : row.columns.result_hash ≡ r.columns.result_hash
  pub usage_metrics : SameJson r.columns.usage_metrics row.columns.usage_metrics
  pub price_computed : row.columns.price_computed ≡ as_decimal r.columns.price_computed
  pub nonce : row.columns.nonce ≡ r.columns.nonce
  pub signature : row.columns.signature ≡ r.columns.signature

-- The parameters under which a returned receipt was made.
abbrev pub params_of : ReceiptData → ReceiptParams
params_of r = record {
  session_id = r.session_id;
  request_hash = r.request_hash;
  result_hash = r.result_hash;
  usage_metrics = r.usage_metrics;
  price_computed = r.price_computed;
}

module _ (deps : MeteringDeps) where
  open deps use {receipt_repo, sign_message}

  -- The signature is the one over the receipt's own content and nonce.
  abbrev pub IsSigned : Receipt → Type 0
  IsSigned r =
      sign_message (message_to_sign (params_of r.columns) r.columns.nonce) ≡ ok r.columns.signature

  create_signed_receipt_signed :
      (p : ReceiptParams) (nonce signature : Text) (db : receipt_repo.Db)
      → sign_message (message_to_sign p nonce) ≡ ok signature
      → create_signed_receipt deps p nonce db ≡ receipt_repo.save (receipt_of p nonce signature) db
  unfolding create_signed_receipt
  create_signed_receipt_signed p nonce signature db e = rw (e, create_signed_receipt)

  create_signed_receipt_unsigned :
      (p : ReceiptParams) (nonce : Text) (db : receipt_repo.Db) (e : Exception)
      → sign_message (message_to_sign p nonce) ≡ throw e
      → create_signed_receipt deps p nonce db ≡ (throw e, db)
  unfolding create_signed_receipt
  create_signed_receipt_unsigned p nonce db e h = rw (h, create_signed_receipt)

  module _ (KeptAs : Receipt → Receipt → Type 0)
      (law : IsRepository receipt_repo (λ r. r.columns) KeptAs) (p : ReceiptParams) (nonce : Text)
      (db : receipt_repo.Db) where
    -- A call that returns a receipt has added one row to the table, in which it is kept. The receipt
    -- holds the parameters and the nonce, and its signature is the one over them.
    pub create_signed_receipt-IsSigned :
        (r : Receipt)
        → (create_signed_receipt deps p nonce db).0 ≡ ok r
        → (params_of r.columns ≡ p)
          × (r.columns.nonce ≡ nonce)
          × IsSigned r
          × ((row : Receipt) × KeptAs r row
              × Permᴰ
                  (receipt_repo.rows (create_signed_receipt deps p nonce db).1)
                  (row ∷ receipt_repo.rows db))
    create_signed_receipt-IsSigned r h =
        elim (Outcome-cases (sign_message (message_to_sign p nonce))) [
          | inl (signature, signed) ↦
              let call = create_signed_receipt_signed p nonce signature db signed in
              let returned = ap₂ (λ a b. (a, b)) (ap (λ x. x.0) (sym call) ∙ h) refl in
              let (same, (row, kept, added)) =
                law.saved (receipt_of p nonce signature) db _ r returned in
              (rw same, rw same, rw same signed, (row, kept, rw call added))
          | inr (e, failed) ↦
              absurd (cc (ap (λ x. x.0) (create_signed_receipt_unsigned p nonce db e failed), h))
        ]

    -- A call that throws, at the signature or at the database, has added no row.
    pub create_signed_receipt_failed :
        (e : Exception)
        → (create_signed_receipt deps p nonce db).0 ≡ throw e
        → receipt_repo.rows (create_signed_receipt deps p nonce db).1 ≡ receipt_repo.rows db
    create_signed_receipt_failed e h =
        elim (Outcome-cases (sign_message (message_to_sign p nonce))) [
          | inl (signature, signed) ↦
              let call = create_signed_receipt_signed p nonce signature db signed in
              let threw = ap₂ (λ a b. (a, b)) (ap (λ x. x.0) (sym call) ∙ h) refl in
              rw call (law.not_saved (receipt_of p nonce signature) db _ e threw)
          | inr (x, failed) ↦ rw (create_signed_receipt_unsigned p nonce db x failed)
        ]

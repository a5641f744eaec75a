-- ===== src/Metering.antt =====
-- src/modules/metering/metering.service.ts and the rows of src/modules/metering/entities. The
-- database is a parameter of the services that use it.
pub mod Laws
pub mod Rollup
pub mod Samples
pub mod Tests
use a2a_agent_layer.Common.{
  ℕ, Bool, ◌≡◌, Option, none, some, List, ◌∷◌, Text, codes, text_eq, Outcome, ok, throw, Action,
  proceed,
}
use a2a_agent_layer.Common.Json.{Json, null, str, obj, end, field}
use a2a_agent_layer.Crypto.Canonical.Stringify.{stringify}

-- The columns of a usage record that the code sets.
pub record UsageData : Type 0 where
  pub session_id : Text
  pub agent_id : Text
  pub tokens_used : ℕ
  pub cpu_ms : ℕ
  pub bytes_in : Text
  pub bytes_out : Text
  pub model_id : Option Text
  pub tool_calls_count : ℕ

-- A stored row: what the database generates, and the columns.
pub record UsageRecord : Type 0 where
  pub id : Text
  pub created_at : ℕ
  pub columns : UsageData

pub record ReceiptData : Type 0 where
  pub session_id : Text
  pub request_hash : Text
  pub result_hash : Option Text
  pub usage_metrics : Json
  pub price_computed : Text
  pub nonce : Text
  pub signature : Text

pub record Receipt : Type 0 where
  pub id : Text
  pub created_at : ℕ
  pub columns : ReceiptData

-- A TypeORM repository: `save` inserts a new row, `find` reads the rows that meet a condition, and
-- `rows` is the table's content.
pub record Repository (D R : Type 0) : Type 1 where
  pub Db : Type 0
  pub rows : Db → List R
  pub save : D → Action Db R
  pub find : (R → Bool) → Db → Outcome (List R)

-- What the code calls of other modules.
pub record MeteringDeps : Type 1 where
  pub usage_repo : Repository UsageData UsageRecord
  pub receipt_repo : Repository ReceiptData Receipt
  -- `blockchainService.signMessage`
  pub sign_message : Text → Outcome Text

pub record ReceiptParams : Type 0 where
  pub session_id : Text
  pub request_hash : Text
  pub result_hash : Option Text
  pub usage_metrics : Json
  pub price_computed : Text

-- `value ?? null` as JSON.
abbrev or_null : Option Text → Json
or_null none = null
or_null (some s) = str s

-- `JSON.stringify` of the receipt's content.
unfoldable pub message_to_sign : ReceiptParams → Text → Text
message_to_sign p nonce = stringify (
    obj (
      field (codes "sessionId") (str p.session_id) (
        field (codes "requestHash") (str p.request_hash) (
          field (codes "resultHash") (or_null p.result_hash) (
            field (codes "usageMetrics") p.usage_metrics (
              field (codes "priceComputed") (str p.price_computed)
                (field (codes "nonce") (str nonce) end)))))))

abbrev pub receipt_of : ReceiptParams → Text → Text → ReceiptData
receipt_of p nonce signature = record {
  session_id = p.session_id;
  request_hash = p.request_hash;
  result_hash = p.result_hash;
  usage_metrics = p.usage_metrics;
  price_computed = p.price_computed;
  nonce = nonce;
  signature = signature;
}

module _ (deps : MeteringDeps) where
  open deps use {usage_repo, receipt_repo, sign_message}

  unfoldable pub record_usage : UsageData → Action usage_repo.Db UsageRecord
  record_usage usage db = usage_repo.save usage db

  unfoldable pub get_usage_by_session : Text → usage_repo.Db → Outcome (List UsageRecord)
  get_usage_by_session session_id db =
      usage_repo.find (λ r. text_eq r.columns.session_id session_id) db

  -- `nonce` is the fresh `randomUUID()`.
  unfoldable pub create_signed_receipt : ReceiptParams → Text → Action receipt_repo.Db Receipt
  create_signed_receipt p nonce db = elim (sign_message (message_to_sign p nonce)) [
    | throw e ↦ (throw e, db)
    | ok signature ↦ receipt_repo.save (receipt_of p nonce signature) db
  ]

  unfoldable pub create_receipt : ReceiptData → Action receipt_repo.Db Receipt
  create_receipt r db = receipt_repo.save r db

  unfoldable pub get_receipts_by_session : Text → receipt_repo.Db → Outcome (List Receipt)
  get_receipts_by_session session_id db =
      receipt_repo.find (λ r. text_eq r.columns.session_id session_id) db

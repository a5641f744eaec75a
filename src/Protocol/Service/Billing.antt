-- ===== src/Protocol/Service/Billing.antt =====
-- What an answered request writes, and what a failed one leaves behind.
use mathlib.Core.List.{Permᴰ}
use a2a_agent_layer.Common.{◌≡◌, sym, ◌∙◌, ap, ap₂, ◌∷◌, Text, ok_inj, ok, proceed_ok}
use a2a_agent_layer.Crypto.Canonical.Stringify.{stringify}
use a2a_agent_layer.Metering.{
  message_to_sign, UsageRecord, Receipt, record_usage, create_signed_receipt,
}
use a2a_agent_layer.Metering.Laws.{
  IsRepository, UsageKept, ReceiptKept, params_of, create_signed_receipt-IsSigned,
}
use a2a_agent_layer.Protocol.Service.{
  ProtocolDeps, A2aRequestDto, A2aResponse, Readings, State, result_payload, usage_metrics_of,
  usage_data_of, response_of, receipt_params, check_hash, meter, issue_receipt, handle_request,
}
use a2a_agent_layer.Protocol.Service.Steps.{
  after_nonce, after_policy, after_meter, handle_request-IsAnswered,
}
use a2a_agent_layer.Protocol.Service.Frames.{
  check_hash_frame, meter_frame, issue_receipt_frame, check_policy_frame, check_nonce_frame,
}

module _ (deps : ProtocolDeps) (dto : A2aRequestDto) (r : Readings) (w : State deps) where
  open deps use {metering, hash_data}

  policy_frame :
      ((after_policy deps dto r w).usage ≡ w.usage)
      × ((after_policy deps dto r w).receipts ≡ w.receipts)
  policy_frame =
      let (_, _, u, t) = check_hash_frame deps dto r w in
      let nonce = check_nonce_frame deps dto.agent_from_id r (check_hash deps dto w) dto.nonce in
      let policy = check_policy_frame deps dto r (after_nonce deps dto r w) in
      (
        ap (λ x. x.1.usage) policy ∙ ap (λ s. s.usage) nonce ∙ u,
        ap (λ x. x.1.receipts) policy ∙ ap (λ s. s.receipts) nonce ∙ t,
      )

  -- The row that `meter` stored, if it returned.
  meter_row :
      (s : State deps)
      → (meter deps dto r s).0 ≡ ok tt
      → (row : UsageRecord) × ((record_usage metering
            (usage_data_of dto (usage_metrics_of dto r))
            s.usage).0
          ≡ ok row)
  unfolding meter
  meter_row s e = let (row, h, _) = proceed_ok _ _ e in (row, h)

  issued_receipt :
      (s : State deps) (answer : A2aResponse)
      → (issue_receipt deps dto r s).0 ≡ ok answer
      → (receipt : Receipt) × ((create_signed_receipt metering
            (receipt_params deps dto r)
            r.receipt_nonce
            s.receipts).0
          ≡ ok receipt)
        × (answer
            ≡ response_of dto.session_id
                (hash_data (stringify (result_payload dto r.timestamp)))
                receipt)
  unfolding issue_receipt
  issued_receipt s answer e =
      let (receipt, h, call) = proceed_ok _ _ e in (receipt, h, ok_inj (sym e ∙ ap (λ x. x.0) call))

  -- One usage record and one receipt were added to the tables. The record holds the metrics of this
  -- request. The receipt holds its hashes, metrics and price, and the fresh nonce, and is signed over
  -- these; the table keeps it as its columns do, and the response shows it.
  pub record IsBilled (as_decimal : Text → Text) (answer : A2aResponse) : Type 0 where
    pub row : UsageRecord
    pub receipt : Receipt
    pub kept : Receipt
    pub kept_as : ReceiptKept as_decimal receipt kept
    pub usage_added :
        Permᴰ
          (metering.usage_repo.rows (handle_request deps dto r w).1.usage)
          (row ∷ metering.usage_repo.rows w.usage)
    pub receipt_added :
        Permᴰ
          (metering.receipt_repo.rows (handle_request deps dto r w).1.receipts)
          (kept ∷ metering.receipt_repo.rows w.receipts)
    pub usage_columns : row.columns ≡ usage_data_of dto (usage_metrics_of dto r)
    pub receipt_content : params_of receipt.columns ≡ receipt_params deps dto r
    pub receipt_nonce : receipt.columns.nonce ≡ r.receipt_nonce
    pub signed :
        metering.sign_message (message_to_sign (receipt_params deps dto r) r.receipt_nonce)
        ≡ ok receipt.columns.signature
    pub response :
        answer
        ≡ response_of dto.session_id
            (hash_data (stringify (result_payload dto r.timestamp)))
            receipt

  module _ (as_decimal : Text → Text)
      (usage_law : IsRepository metering.usage_repo (λ u. u.columns) UsageKept)
      (receipt_law : IsRepository metering.receipt_repo
        (λ u. u.columns)
        (ReceiptKept as_decimal)) where
    usage_call :
        (row : UsageRecord)
        → (record_usage metering
            (usage_data_of dto (usage_metrics_of dto r))
            (after_policy deps dto r w).usage).0
          ≡ ok row
        → handle_request deps dto r w ≡ issue_receipt deps dto r (after_meter deps dto r w)
        → metering.usage_repo.save (usage_data_of dto (usage_metrics_of dto r)) w.usage
          ≡ (ok row, (handle_request deps dto r w).1.usage)
    unfolding record_usage
    usage_call row stored final =
        let data_ = usage_data_of dto (usage_metrics_of dto r) in
        let before = sym policy_frame.0 in
        let after =
          ap (λ x. x.1.usage) final
          ∙ ap (λ s. s.usage) (issue_receipt_frame deps dto r (after_meter deps dto r w))
          ∙ ap (λ s. s.usage) (meter_frame deps dto r (after_policy deps dto r w)) in
        ap₂ (λ a b. (a, b)) (ap (λ d. (metering.usage_repo.save data_ d).0) before ∙ stored)
          (ap (λ d. (metering.usage_repo.save data_ d).1) before ∙ sym after)

    -- Over repositories that keep their contract, an answered request has added one usage record, with
    -- its metrics, and one receipt, with its hashes, metrics and price and the fresh nonce, which is
    -- signed over these; the row that keeps the receipt has the same texts, the price as a decimal column
    -- writes it, and the same metrics up to the order of properties; the response shows the receipt.
    pub handle_request-IsBilled :
        (answer : A2aResponse)
        → (handle_request deps dto r w).0 ≡ ok answer
        → IsBilled as_decimal answer
    handle_request-IsBilled answer e =
        let a = handle_request-IsAnswered deps dto r w answer e in
        let (row, stored) = meter_row (after_policy deps dto r w) a.metered in
        let (receipt, issued, answered) =
          issued_receipt (after_meter deps dto r w) answer a.issued in
        let (same_usage, (usage_kept, usage_same, usage_added)) =
          usage_law.saved _ w.usage _ row (usage_call row stored a.final) in
        let untouched =
          ap (λ s. s.receipts) (meter_frame deps dto r (after_policy deps dto r w))
          ∙ policy_frame.1 in
        let create = create_signed_receipt metering (receipt_params deps dto r) r.receipt_nonce in
        let (content, nonce, signed, (kept, kept_as, receipt_added)) =
          create_signed_receipt-IsSigned metering (ReceiptKept as_decimal) receipt_law
            (receipt_params deps dto r) r.receipt_nonce w.receipts receipt
            (ap (λ d. (create d).0) (sym untouched) ∙ issued) in
        let left =
          ap (λ x. x.1.receipts) a.final
          ∙ ap (λ s. s.receipts) (issue_receipt_frame deps dto r (after_meter deps dto r w))
          ∙ ap (λ d. (create d).1) untouched in
        record {
          row = row;
          receipt = receipt;
          kept = kept;
          kept_as = kept_as;
          usage_added = rw usage_same at usage_added;
          receipt_added = rw left receipt_added;
          usage_columns = same_usage;
          receipt_content = content;
          receipt_nonce = nonce;
          signed =
              ap₂ (λ p n. metering.sign_message (message_to_sign p n)) (sym content) (sym nonce)
              ∙ signed;
          response = answered;
        }

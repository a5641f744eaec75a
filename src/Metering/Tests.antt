-- ===== src/Metering/Tests.antt =====
-- A receipt that is stored.
use a2a_agent_layer.Common.{◌≡◌, refl, none, [], codes, ok}
use a2a_agent_layer.Common.Json.{obj, end}
use a2a_agent_layer.Metering.{
  Receipt, ReceiptParams, receipt_of, create_signed_receipt, message_to_sign,
}
use a2a_agent_layer.Metering.Samples.{receipt_row, sample_deps}

abbrev params : ReceiptParams
params = record {
  session_id = codes "s";
  request_hash = codes "h";
  result_hash = none;
  usage_metrics = obj end;
  price_computed = codes "0";
}

abbrev stored : Receipt
stored = receipt_row (receipt_of params (codes "n") (message_to_sign params (codes "n")))

returned : (create_signed_receipt sample_deps params (codes "n") []).0 ≡ ok stored
unfolding create_signed_receipt
returned = refl

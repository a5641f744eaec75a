-- ===== src/Observability/Tracing/Laws.antt =====
-- Tracing a call does not change what it answers.
use a2a_agent_layer.Common.{
  ℕ, suc, ◌≡◌, inl, inr, refl, ap, ◌∙◌, Bool, false, ◌++◌, Option, none, some, List, [], ◌∷◌, ◌==◌,
  Bool-cases, if◌then◌else◌, Text, codes, Outcome, ok, throw,
}
use a2a_agent_layer.Observability.Tracing.{
  Span, ReceiptLike, set_attribute, shown, mark_reverted, record_receipt, message_of, start_span,
  settle_call, traced_call,
}

-- The result looks like a receipt of a transaction that was mined and reverted.
abbrev pub is_reverted : Option ReceiptLike → Bool
is_reverted none = false
is_reverted (some receipt) = elim receipt.status [ none ↦ false | some status ↦ status == 0 ]

-- What a span keeps, however it gets attributes: all but the error status.
abbrev SameLife : Span → Span → Type 0
SameLife s t = (t.ended ≡ s.ended) × (t.exceptions ≡ s.exceptions)

set_attribute-SameLife :
    (key : Text) (value : Option Text) (s : Span)
    → SameLife s (set_attribute key value s)
      × ((set_attribute key value s).error_status ≡ s.error_status)
set_attribute-SameLife key none s = ((refl, refl), refl)
set_attribute-SameLife key (some v) s = ((refl, refl), refl)

mark_reverted-SameLife : (status : Option ℕ) (s : Span) → SameLife s (mark_reverted status s)
mark_reverted-SameLife none s = (refl, refl)
mark_reverted-SameLife (some status) s = elim (Bool-cases (status == 0)) [
  | inl h ↦ rw h (refl, refl)
  | inr h ↦ rw h (refl, refl)
]

reverted_status :
    (status : Option ℕ) (s : Span)
    → (mark_reverted status s).error_status ≡ (
        if elim status [ none ↦ false | some n ↦ n == 0 ]
        then some (codes "transaction reverted")
        else s.error_status)
reverted_status none s = refl
reverted_status (some status) s = elim (Bool-cases (status == 0)) [
  | inl h ↦ rw h refl
  | inr h ↦ rw h refl
]

record_receipt-SameLife :
    (receipt : Option ReceiptLike) (s : Span)
    → SameLife s (record_receipt receipt s)
      × ((record_receipt receipt s).error_status
          ≡ (if is_reverted receipt then some (codes "transaction reverted") else s.error_status))
unfolding record_receipt
record_receipt-SameLife none s = ((refl, refl), refl)
record_receipt-SameLife (some receipt) s =
    let first = set_attribute (codes "blockchain.tx_hash") receipt.hash s in
    let second =
      set_attribute (codes "blockchain.block_number") (shown receipt.block_number) first in
    let (a, e) = set_attribute-SameLife (codes "blockchain.tx_hash") receipt.hash s in
    let (b, f) =
      set_attribute-SameLife (codes "blockchain.block_number") (shown receipt.block_number) first in
    let c = mark_reverted-SameLife receipt.status second in
    (
      (c.0 ∙ b.0 ∙ a.0, c.1 ∙ b.1 ∙ a.1),
      reverted_status receipt.status second
          ∙ ap
              (λ status.
                if is_reverted (some receipt) then some (codes "transaction reverted") else status)
              (f ∙ e),
    )

module _ {T : Type 0} (receipt_of : T → Option ReceiptLike) where
  -- What tracing makes of the answer of a callback.
  abbrev pub IsTraced : Outcome T × Span → Outcome T × Span → Type 0
  IsTraced (ok result, s) (o, t) =
      (o ≡ ok result)
      × (t.ended ≡ suc s.ended)
      × (t.exceptions ≡ s.exceptions)
      × (t.error_status ≡ (
          if is_reverted (receipt_of result)
          then some (codes "transaction reverted")
          else s.error_status))
  IsTraced (throw e, s) (o, t) =
      (o ≡ throw e)
      × (t.ended ≡ suc s.ended)
      × (t.exceptions ≡ s.exceptions ++ (message_of e ∷ []))
      × (t.error_status ≡ some (message_of e))

  settle_call-IsTraced : (r : Outcome T × Span) → IsTraced r (settle_call receipt_of r)
  settle_call-IsTraced (ok result, s) =
      let (life, status) = record_receipt-SameLife (receipt_of result) s in
      (refl, ap suc life.0, life.1, status)
  settle_call-IsTraced (throw e, s) = (refl, refl, refl, refl)

  -- A traced call ends as its callback does, with the same value or the same exception, and its span is
  -- ended once more than the callback ended it. An exception is recorded and sets the error status; of a
  -- value the status is an error exactly if it is the receipt of a reverted transaction, or else as the
  -- callback left it.
  pub traced_call-IsTraced :
      (name : Text) (attributes : List (Text × Text)) (request_id : Option Text)
      (fn : Span → Outcome T × Span)
      → IsTraced
          (fn (start_span name attributes request_id))
          (traced_call receipt_of name attributes request_id fn)
  unfolding traced_call
  traced_call-IsTraced name attributes request_id fn =
      settle_call-IsTraced (fn (start_span name attributes request_id))

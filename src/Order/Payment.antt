-- ===== src/Order/Payment.antt =====
-- src/services/order/services/payment.service.ts. Stripe's two calls are parameters: what each
-- answers, or throws, for what it is asked. The requests sent are kept in a log.
use advanced_node.Common.{
  ℕ, ◌*◌, String, Bool, false, Option, none, some, List, [], ◌∷◌, ◌++◌, ◌==◌,
}
use advanced_node.Exec.{Exec, Result, ok, thrown}
use advanced_node.Shared.Errors.{message_of}

pub record PaymentData : Type 0 where
  pub order_id : String
  pub amount : ℕ
  pub payment_method_id : String

-- The fields of the call that vary; the currency is 'usd', confirmed at once, with no redirects.
pub record IntentRequest : Type 0 where
  pub amount : ℕ
  pub payment_method : String
  pub order_id : String

pub data StripeCall : Type 0 where
  create_intent : IntentRequest → StripeCall
  create_refund : String → StripeCall

-- A payment intent or a refund.
pub record StripeObject : Type 0 where
  pub id : String
  pub status : String

pub record PaymentResult : Type 0 where
  pub success : Bool
  -- `transactionId`, or `refundId`
  pub reference : Option String
  pub error : Option String

-- `Math.round(amount * 100)` of a whole amount
abbrev pub to_cents : ℕ → ℕ
to_cents amount = amount * 100

abbrev pub intent_request : PaymentData → IntentRequest
intent_request d = record {
  amount = to_cents d.amount;
  payment_method = d.payment_method_id;
  order_id = d.order_id;
}

-- The object's status decides; what is thrown is caught.
abbrev pub payment_result : Result StripeObject → PaymentResult
payment_result (ok o) = record {
  success = o.status == "succeeded";
  reference = some o.id;
  error = none;
}
payment_result (thrown e) = record {
  success = false;
  reference = none;
  error = some (message_of e);
}

module _ (stripe : StripeCall → Result StripeObject) where
  unfoldable pub process_payment : PaymentData → Exec (List StripeCall) PaymentResult
  process_payment d calls =
      let call = create_intent (intent_request d) in
      (ok (payment_result (stripe call)), calls ++ call ∷ [])

  unfoldable pub refund_payment : String → Exec (List StripeCall) PaymentResult
  refund_payment transaction_id calls =
      let call = create_refund transaction_id in
      (ok (payment_result (stripe call)), calls ++ call ∷ [])

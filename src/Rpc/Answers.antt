-- ===== src/Rpc/Answers.antt =====
-- What the callbacks tell the channel, and what the caller then learns.
use advanced_node.Common.{
  ℕ, suc, ◌≤◌, String, ◌≡◌, refl, Bool-cases, Option, none, some, List, [], ◌∷◌, ◌++◌, arith, inl,
  inr, ◌==◌, if◌then◌else◌,
}
use advanced_node.Exec.{Exec, Result, ok, thrown}
use advanced_node.Shared.Errors.{error, message_of}
use advanced_node.Rpc.Client.{
  Body, ConsumeMessage, Settlement, resolved, rejected, error_body, settlement, settlement_by,
}
use advanced_node.Rpc.Server.{
  Action, send, ack, nack, reply_with, handled, consumed, serve_message, consume_message,
  rpc_outcome, consume_outcome,
}

module _ {A : Type 0} where
  -- How often the message is settled.
  abbrev pub verdicts : List (Action A) → ℕ
  verdicts [] = 0
  verdicts (send q b id ∷ acts) = verdicts acts
  verdicts (ack ∷ acts) = suc (verdicts acts)
  verdicts (nack ∷ acts) = suc (verdicts acts)

  abbrev pub sends : List (Action A) → ℕ
  sends [] = 0
  sends (send q b id ∷ acts) = suc (sends acts)
  sends (ack ∷ acts) = sends acts
  sends (nack ∷ acts) = sends acts

  pub record IsSettledOnce (acts : List (Action A)) : Type 0 where
    pub one_verdict : verdicts acts ≡ 1
    pub one_reply : sends acts ≤ 1

  reply_with-last :
      (q id : Option String) (b : Body A) (last : Action A)
      → verdicts (last ∷ []) ≡ 1
      → sends (last ∷ []) ≡ 0
      → IsSettledOnce (reply_with q id b ++ last ∷ [])
  reply_with-last none id b last one zero = record {
    one_verdict = one;
    one_reply = omega (arith, zero);
  }
  reply_with-last (some q) id b last one zero = elim (Bool-cases (q == "")) [
    | inl absent ↦ rw absent (record { one_verdict = one; one_reply = omega (arith, zero) })
    | inr given ↦ rw given (record { one_verdict = one; one_reply = omega (arith, zero) })
  ]

module _ {S A : Type 0} (handler : Body A → Exec S (Body A)) where
  rpc_outcome-IsSettledOnce :
      (msg : ConsumeMessage A) (r : Result (Body A)) → IsSettledOnce (rpc_outcome handler msg r)
  rpc_outcome-IsSettledOnce msg (ok response) =
      reply_with-last msg.reply_to msg.correlation_id response ack refl refl
  rpc_outcome-IsSettledOnce msg (thrown e) =
      reply_with-last msg.reply_to msg.correlation_id (error_body e) nack refl refl

  -- What the caller should learn of the handler's result.
  abbrev pub learnt : Result (Body A) → Settlement A
  learnt (ok response) = settlement_by response response.error
  learnt (thrown e) =
      if message_of e == "" then resolved (error_body e) else rejected (error (message_of e))

  abbrev pub verdict : Result (Body A) → Action A
  verdict (ok response) = ack
  verdict (thrown e) = nack

  abbrev pub Answered : String → String → Result (Body A) → List (Action A) → Type 0
  Answered queue id r acts =
      (body : Body A) × (acts ≡ send queue body (some id) ∷ verdict r ∷ [])
      × (settlement (ok body) ≡ learnt r)

consume_outcome-IsSettledOnce :
    {S A : Type 0} (handler : Body A → Exec S (Unit {0})) (r : Result (Unit {0}))
    → IsSettledOnce (consume_outcome handler r)
consume_outcome-IsSettledOnce handler (ok done) = record {
  one_verdict = refl;
  one_reply = omega arith;
}
consume_outcome-IsSettledOnce handler (thrown e) = record {
  one_verdict = refl;
  one_reply = omega arith;
}

-- Whatever the message holds and whatever the handler does, an RPC server and a consumer settle each
-- message exactly once, and send at most one answer to it.
pub messages-IsSettledOnce :
    {S A : Type 0} (rpc : Body A → Exec S (Body A)) (consumer : Body A → Exec S (Unit {0}))
    (msg : ConsumeMessage A) (s : S)
    → IsSettledOnce (serve_message rpc msg s).0 × IsSettledOnce (consume_message consumer msg s).0
unfolding serve_message consume_message
messages-IsSettledOnce rpc consumer msg s = (
  rpc_outcome-IsSettledOnce rpc msg (handled rpc msg.content s).0,
  consume_outcome-IsSettledOnce consumer (consumed consumer msg.content s).0,
)

-- ===== src/Rpc/Server.antt =====
-- The callbacks that `setupRPCServer` and `consume` give the channel, of
-- src/shared/messaging/rabbitmq.client.ts. The handler reads and writes the service's state; what
-- the channel is told to do is a list. The channel's own calls are taken to succeed.
use advanced_node.Common.{String, Option, none, some, List, [], ◌∷◌, ◌++◌, ◌==◌, if◌then◌else◌}
use advanced_node.Exec.{Exec, Result, ok, thrown}
use advanced_node.Rpc.Client.{Body, ConsumeMessage, error_body}

pub data Action (A : Type 0) : Type 0 where
  -- `sendToQueue(queue, body, { correlationId })`
  send : (queue : String) → Body A → (correlation_id : Option String) → Action A
  ack : Action A
  -- `nack(msg, false, false)`: this message, which is not to be queued again.
  nack : Action A

-- `if (msg.properties.replyTo)`: the empty text counts as absent.
abbrev pub reply_with : {A : Type 0} → Option String → Option String → Body A → List (Action A)
reply_with none id body = []
reply_with (some queue) id body = if queue == "" then [] else send queue body id ∷ []

module _ {S A : Type 0} (handler : Body A → Exec S (Body A)) where
  abbrev pub rpc_outcome : ConsumeMessage A → Result (Body A) → List (Action A)
  rpc_outcome msg (ok response) = reply_with msg.reply_to msg.correlation_id response ++ ack ∷ []
  rpc_outcome msg (thrown e) =
      reply_with msg.reply_to msg.correlation_id (error_body e) ++ nack ∷ []

  abbrev pub handled : Result (Body A) → S → Result (Body A) × S
  handled (ok content) s = handler content s
  handled (thrown e) s = (thrown e, s)

  -- The state after, and what the channel was told.
  unfoldable pub serve_message : ConsumeMessage A → S → List (Action A) × S
  serve_message msg s = let (r, s') = handled msg.content s in (rpc_outcome msg r, s')

module _ {S A : Type 0} (handler : Body A → Exec S (Unit {0})) where
  abbrev pub consume_outcome : Result (Unit {0}) → List (Action A)
  consume_outcome (ok done) = ack ∷ []
  consume_outcome (thrown e) = nack ∷ []

  abbrev pub consumed : Result (Body A) → S → Result (Unit {0}) × S
  consumed (ok content) s = handler content s
  consumed (thrown e) s = (thrown e, s)

  unfoldable pub consume_message : ConsumeMessage A → S → List (Action A) × S
  consume_message msg s = let (r, s') = consumed msg.content s in (consume_outcome r, s')

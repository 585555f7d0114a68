-- ===== src/Rpc/Client.antt =====
-- The class RabbitMQClient of src/shared/messaging/rabbitmq.client.ts. The broker is a third party:
-- what `connect` gets from it is an argument, and what the client hands to the channel is a log. A
-- call's promise is known by its correlation identifier. How long a timer runs is left out: a timer
-- that is set and not cleared may fire at any time.
use advanced_node.Common.{
  String, Bool, true, false, ◌||◌, Option, none, some, List, [], ◌∷◌, ◌++◌, ◌==◌, if◌then◌else◌,
}
use advanced_node.Exec.{Exec, Result, ok, thrown}
use advanced_node.Shared.Errors.{Exception, error, message_of}

-- A message's body as an object: its field `error` and all else.
pub record Body (A : Type 0) : Type 0 where
  pub content : Option A
  pub error : Option String

-- `{ error: error.message }`
abbrev pub error_body : {A : Type 0} → Exception → Body A
error_body e = record { content = none; error = some (message_of e) }

pub record MessageOptions : Type 0 where
  pub correlation_id : Option String
  pub reply_to : Option String
  pub expiration : Option String
  pub persistent : Option Bool

-- `options.persistent !== false`
abbrev pub is_persistent : Option Bool → Bool
is_persistent none = true
is_persistent (some b) = b

-- What the client hands to its channel: `publish` names an exchange and a routing key,
-- `sendToQueue` a queue.
pub data Target : Type 0 where
  to_exchange : (exchange routing_key : String) → Target
  to_queue : String → Target

pub record Sent (A : Type 0) : Type 0 where
  pub target : Target
  pub body : Body A
  pub persistent : Bool
  pub correlation_id : Option String
  pub reply_to : Option String
  pub expiration : Option String

-- A message from the broker; `content` is what `JSON.parse` makes of its bytes, or throws.
pub record ConsumeMessage (A : Type 0) : Type 0 where
  pub content : Result (Body A)
  pub correlation_id : Option String
  pub reply_to : Option String

pub data Settlement (A : Type 0) : Type 0 where
  resolved : Body A → Settlement A
  rejected : Exception → Settlement A

pub record Client (A : Type 0) : Type 0 where
  pub channel : Bool
  pub reply_queue : Option String
  -- The keys of `pendingRPCs`.
  pub pending : List String
  -- The timers that are set and neither cleared nor fired, by the call they belong to.
  pub timers : List String
  -- Each call of `resolve` or `reject`, in order.
  pub settled : List (String × Settlement A)
  pub sent : List (Sent A)

abbrev pub remove : String → List String → List String
remove id [] = []
remove id (x ∷ xs) = let rest = remove id xs in if x == id then rest else x ∷ rest

abbrev pub has : String → List String → Bool
has id [] = false
has id (x ∷ xs) = (x == id) || has id xs

-- `Map.set`: a key that is there keeps its place.
abbrev pub set_key : String → List String → List String
set_key id xs = if has id xs then xs else xs ++ id ∷ []

-- The broker gives a channel and the name of the reply queue, or fails before or after the channel.
pub data Connection : Type 0 where
  no_channel : Exception → Connection
  no_queue : Exception → Connection
  connected : String → Connection

abbrev no_channel_error : Exception
no_channel_error = error "Channel not initialized"

module _ {A : Type 0} where
  abbrev pub new_client : Client A
  new_client = record {
    channel = false;
    reply_queue = none;
    pending = [];
    timers = [];
    settled = [];
    sent = [];
  }

  unfoldable pub connect : Connection → Exec (Client A) (Unit {0})
  connect (no_channel e) c = (thrown e, c)
  connect (no_queue e) c = (thrown e, record c { channel = true })
  connect (connected queue) c = (ok tt, record c { channel = true; reply_queue = some queue })

  -- `r` is what closing the channel and the connection comes to; the client keeps both.
  unfoldable pub disconnect : Result (Unit {0}) → Exec (Client A) (Unit {0})
  disconnect r c = (ok tt, c)

  -- A call of the channel that only tells the broker something, and comes to `r`.
  abbrev pub declare : Result (Unit {0}) → Exec (Client A) (Unit {0})
  declare r c = if c.channel then (r, c) else (thrown no_channel_error, c)

  unfoldable pub assert_queue : (queue : String) → Result (Unit {0}) → Exec (Client A) (Unit {0})
  assert_queue queue = declare

  unfoldable pub assert_exchange :
      (exchange type : String) → Result (Unit {0}) → Exec (Client A) (Unit {0})
  assert_exchange exchange type = declare

  unfoldable pub bind_queue :
      (queue exchange routing_key : String) → Result (Unit {0}) → Exec (Client A) (Unit {0})
  bind_queue queue exchange routing_key = declare

  abbrev hand_over : Target → Body A → MessageOptions → Exec (Client A) (Unit {0})
  hand_over target body o c =
      if c.channel
      then (
        ok tt,
        record c {
          sent =
              c.sent
              ++ record {
                target = target;
                body = body;
                persistent = is_persistent o.persistent;
                correlation_id = o.correlation_id;
                reply_to = o.reply_to;
                expiration = o.expiration;
              }
                ∷ [];
        },
      )
      else (thrown no_channel_error, c)

  unfoldable pub publish : String → String → Body A → MessageOptions → Exec (Client A) (Unit {0})
  publish exchange routing_key = hand_over (to_exchange exchange routing_key)

  unfoldable pub send_to_queue : String → Body A → MessageOptions → Exec (Client A) (Unit {0})
  send_to_queue queue = hand_over (to_queue queue)

  -- The call's identifier is what `uuid()` draws. The promise of `sendToQueue` is not awaited.
  abbrev pub start_call : String → String → Body A → Option Bool → String → Client A → Client A
  start_call id queue body persistent reply_queue c =
      (send_to_queue queue body
        (record {
          correlation_id = some id;
          reply_to = some reply_queue;
          expiration = none;
          persistent = persistent;
        })
        (record c { timers = c.timers ++ id ∷ []; pending = set_key id c.pending })).1

  abbrev pub call_on :
      Bool → Option String → String → String → Body A → Option Bool → Exec (Client A) (Unit {0})
  call_on true (some reply_queue) id queue body persistent c =
      (ok tt, start_call id queue body persistent reply_queue c)
  call_on _ _ id queue body persistent c =
      (thrown (error "Channel or reply queue not initialized"), c)

  unfoldable pub rpc_call : String → String → Body A → Option Bool → Exec (Client A) (Unit {0})
  unfolding send_to_queue
  rpc_call id queue body persistent c = call_on c.channel c.reply_queue id queue body persistent c

  -- The function that `setTimeout` is given, when the timer fires.
  unfoldable pub time_out : String → Client A → Client A
  time_out id c =
      if has id c.timers
      then record c {
        timers = remove id c.timers;
        pending = remove id c.pending;
        settled = c.settled ++ (id, rejected (error "RPC timeout")) ∷ [];
      }
      else c

  -- `if (response.error)`: an empty text counts as none.
  abbrev pub settlement_by : Body A → Option String → Settlement A
  settlement_by body none = resolved body
  settlement_by body (some m) = if m == "" then resolved body else rejected (error m)

  abbrev pub settlement : Result (Body A) → Settlement A
  settlement (ok body) = settlement_by body body.error
  settlement (thrown e) = rejected e

  abbrev pub respond_to : Option String → Result (Body A) → Client A → Client A
  respond_to none content c = c
  respond_to (some id) content c =
      if has id c.pending
      then record c {
        timers = remove id c.timers;
        pending = remove id c.pending;
        settled = c.settled ++ (id, settlement content) ∷ [];
      }
      else c

  unfoldable pub handle_rpc_response : ConsumeMessage A → Client A → Client A
  handle_rpc_response msg c = respond_to msg.correlation_id msg.content c

-- ===== src/Rpc/Calls.antt =====
-- What becomes of the calls of a client, over any sequence of connections, calls, messages, timers
-- and replies.
use advanced_node.Common.{
  ◌+◌, ◌≤◌, String, ◌≡◌, refl, sym, ap, ◌∙◌, Bool, true, false, Bool-cases, Option, none, some, [],
  ◌∷◌, ◌++◌, arith, eq_iff, inl, inr, if◌then◌else◌,
}
use advanced_node.Exec.{Result}
use advanced_node.Rpc.Client
use advanced_node.Rpc.Client.{
  Client, Sent, Body, Settlement, MessageOptions, ConsumeMessage, Connection, Target, new_client,
  connect, publish, send_to_queue, rpc_call, time_out, handle_rpc_response, respond_to, settlement,
  remove, has, set_key, rejected, resolved, call_on, disconnect, assert_queue, assert_exchange,
  bind_queue,
}
use advanced_node.Rpc.Counts.{
  count, settled_count, sent_count, one_if, settled_count-append, sent_count-append, count-append,
  count-remove, count-has,
}

module _ {A : Type 0} where
  -- The clients that a run of the program may come to. An identifier is drawn for one call alone,
  -- which is `uuid`'s promise, and the messages that are no calls carry none.
  pub data Reachable : Client A → Type 0 where
    begins : Reachable new_client
    connects : {c : Client A} (k : Connection) → Reachable c → Reachable (connect k c).1
    disconnects :
        {c : Client A} (r : Result (Unit {0})) → Reachable c → Reachable (disconnect r c).1
    asserts_queue :
        {c : Client A} (queue : String) (r : Result (Unit {0}))
        → Reachable c
        → Reachable (assert_queue queue r c).1
    asserts_exchange :
        {c : Client A} (exchange type : String) (r : Result (Unit {0}))
        → Reachable c
        → Reachable (assert_exchange exchange type r c).1
    binds_queue :
        {c : Client A} (queue exchange routing_key : String) (r : Result (Unit {0}))
        → Reachable c
        → Reachable (bind_queue queue exchange routing_key r c).1
    publishes :
        {c : Client A} (exchange routing_key : String) (body : Body A) (o : MessageOptions)
        → o.correlation_id ≡ none
        → Reachable c
        → Reachable (publish exchange routing_key body o c).1
    calls :
        {c : Client A} (id queue : String) (body : Body A) (persistent : Option Bool)
        → sent_count id c.sent ≡ 0
        → Reachable c
        → Reachable (rpc_call id queue body persistent c).1
    times_out : {c : Client A} (id : String) → Reachable c → Reachable (time_out id c)
    hears :
        {c : Client A} (msg : ConsumeMessage A)
        → Reachable c
        → Reachable (handle_rpc_response msg c)

  -- Each call that was started is either pending or was settled, once; the timers that run are those
  -- of the pending calls.
  pub record IsAccounted (c : Client A) : Type 0 where
    pub timed : c.timers ≡ c.pending
    pub balance :
        (id : String) → count id c.pending + settled_count id c.settled ≡ sent_count id c.sent
    pub once : (id : String) → sent_count id c.sent ≤ 1

  -- A call leaves the pending ones as it is settled.
  settle-IsAccounted :
      (id : String) (s : Settlement A) (c : Client A)
      → has id c.pending ≡ true
      → IsAccounted c
      → IsAccounted (record c {
        timers = remove id c.timers;
        pending = remove id c.pending;
        settled = c.settled ++ (id, s) ∷ [];
      })
  settle-IsAccounted id s c there h = record {
    timed = ap (remove id) h.timed;
    balance = λ j. ground (
      arith,
      eq_iff id j,
      count-remove j id c.pending,
      settled_count-append j id s c.settled,
      h.balance j,
      h.balance id,
      h.once id,
      count-has id c.pending there,
    );
    once = h.once;
  }

  time_out-IsAccounted : (id : String) (c : Client A) → IsAccounted c → IsAccounted (time_out id c)
  unfolding time_out
  time_out-IsAccounted id c h = elim (Bool-cases (has id c.timers)) [
    | inr cleared ↦ rw cleared h
    | inl set ↦ rw set (settle-IsAccounted id _ c (rw h.timed at set) h)
  ]

  respond_to-IsAccounted :
      (id : Option String) (r : Result (Body A)) (c : Client A)
      → IsAccounted c
      → IsAccounted (respond_to id r c)
  respond_to-IsAccounted none r c h = h
  respond_to-IsAccounted (some id) r c h = elim (Bool-cases (has id c.pending)) [
    | inr unknown ↦ rw unknown h
    | inl waiting ↦ rw waiting (settle-IsAccounted id _ c waiting h)
  ]

  -- A message that carries no identifier.
  silent-IsAccounted :
      (x : Sent A) (c : Client A)
      → x.correlation_id ≡ none
      → IsAccounted c
      → IsAccounted (record c { sent = c.sent ++ x ∷ [] })
  silent-IsAccounted x c none_given h = record {
    timed = h.timed;
    balance =
        λ j. omega (arith, sent_count-append j x c.sent, h.balance j, (ap (one_if j) none_given));
    once = λ j. omega (arith, sent_count-append j x c.sent, h.once j, (ap (one_if j) none_given));
  }

  call-IsAccounted :
      (id : String) (x : Sent A) (c : Client A)
      → x.correlation_id ≡ some id
      → sent_count id c.sent ≡ 0
      → IsAccounted c
      → IsAccounted (record c {
        timers = c.timers ++ id ∷ [];
        pending = set_key id c.pending;
        sent = c.sent ++ x ∷ [];
      })
  call-IsAccounted id x c given fresh h = elim (Bool-cases (has id c.pending)) [
    | inl waiting ↦ absurd (omega (arith, h.balance id, count-has id c.pending waiting, fresh))
    | inr unknown ↦ rw unknown (record {
      timed = ap (λ xs. xs ++ id ∷ []) h.timed;
      balance = λ j. ground (
        arith,
        eq_iff id j,
        count-append j id c.pending,
        sent_count-append j x c.sent,
        ap (one_if j) given,
        h.balance j,
      );
      once = λ j.
          ground (
            arith,
            eq_iff id j,
            sent_count-append j x c.sent,
            ap (one_if j) given,
            h.once j,
            fresh,
          );
    })
  ]

  choice-IsAccounted :
      (b : Bool) (x y : Result (Unit {0}) × Client A)
      → (b ≡ true → IsAccounted x.1)
      → (b ≡ false → IsAccounted y.1)
      → IsAccounted (if b then x else y).1
  choice-IsAccounted true x y h k = h refl
  choice-IsAccounted false x y h k = k refl

  connect-IsAccounted :
      (k : Connection) (c : Client A) → IsAccounted c → IsAccounted (connect k c).1
  unfolding connect
  connect-IsAccounted (Client.no_channel e) c h = h
  connect-IsAccounted (Client.no_queue e) c h = record {
    timed = h.timed;
    balance = h.balance;
    once = h.once;
  }
  connect-IsAccounted (Client.connected queue) c h = record {
    timed = h.timed;
    balance = h.balance;
    once = h.once;
  }

  publish-IsAccounted :
      (exchange routing_key : String) (body : Body A) (o : MessageOptions) (c : Client A)
      → o.correlation_id ≡ none
      → IsAccounted c
      → IsAccounted (publish exchange routing_key body o c).1
  unfolding publish
  publish-IsAccounted exchange routing_key body o c silent h =
      choice-IsAccounted c.channel _ _ (λ _. silent-IsAccounted _ c silent h) (λ _. h)

  call_on-IsAccounted :
      (b : Bool) (q : Option String) (id queue : String) (body : Body A) (persistent : Option Bool)
      (c : Client A)
      → c.channel ≡ b
      → sent_count id c.sent ≡ 0
      → IsAccounted c
      → IsAccounted (call_on b q id queue body persistent c).1
  unfolding send_to_queue
  call_on-IsAccounted true (some q) id queue body persistent c opened fresh h =
      choice-IsAccounted c.channel _ _ (λ _. call-IsAccounted id _ c refl fresh h)
        (λ closed. let clash : true ≡ false = sym opened ∙ closed in absurd (cc))
  call_on-IsAccounted true none id queue body persistent c opened fresh h = h
  call_on-IsAccounted false q id queue body persistent c opened fresh h = h

  rpc_call-IsAccounted :
      (id queue : String) (body : Body A) (persistent : Option Bool) (c : Client A)
      → sent_count id c.sent ≡ 0
      → IsAccounted c
      → IsAccounted (rpc_call id queue body persistent c).1
  unfolding rpc_call
  rpc_call-IsAccounted id queue body persistent c fresh h =
      call_on-IsAccounted c.channel c.reply_queue id queue body persistent c refl fresh h

  -- Of each identifier that a call of the client was started with, exactly one of two things holds
  -- after any run: its call is pending, with a timer that runs, or it was settled exactly once.
  pub calls-IsAccounted : {c : Client A} → Reachable c → IsAccounted c
  unfolding handle_rpc_response disconnect assert_queue assert_exchange bind_queue
  calls-IsAccounted (disconnects r m) = calls-IsAccounted m
  calls-IsAccounted (asserts_queue {c} queue r m) =
      choice-IsAccounted c.channel _ _ (λ _. calls-IsAccounted m) (λ _. calls-IsAccounted m)
  calls-IsAccounted (asserts_exchange {c} exchange type r m) =
      choice-IsAccounted c.channel _ _ (λ _. calls-IsAccounted m) (λ _. calls-IsAccounted m)
  calls-IsAccounted (binds_queue {c} queue exchange routing_key r m) =
      choice-IsAccounted c.channel _ _ (λ _. calls-IsAccounted m) (λ _. calls-IsAccounted m)
  calls-IsAccounted begins = record { timed = refl; balance = λ id. refl; once = λ id. omega arith }
  calls-IsAccounted (connects {c} k r) = connect-IsAccounted k c (calls-IsAccounted r)
  calls-IsAccounted (publishes {c} exchange routing_key body o silent r) =
      publish-IsAccounted exchange routing_key body o c silent (calls-IsAccounted r)
  calls-IsAccounted (calls {c} id queue body persistent fresh r) =
      rpc_call-IsAccounted id queue body persistent c fresh (calls-IsAccounted r)
  calls-IsAccounted (times_out {c} id r) = time_out-IsAccounted id c (calls-IsAccounted r)
  calls-IsAccounted (hears {c} msg r) =
      respond_to-IsAccounted msg.correlation_id msg.content c (calls-IsAccounted r)

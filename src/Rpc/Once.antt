-- ===== src/Rpc/Once.antt =====
-- A reply and a timeout, in either order.
use advanced_node.Common.{
  String, ◌≡◌, refl, true, false, Bool-cases, Option, some, arith, inl, inr, ◌⊎◌, [], ◌∷◌, ◌++◌, ap,
  ◌∙◌, eq_iff,
}
use advanced_node.Exec.{Result}
use advanced_node.Shared.Errors.{error}
use advanced_node.Rpc.Client.{
  Client, Body, Settlement, rejected, settlement, ConsumeMessage, time_out, handle_rpc_response,
  has,
}
use advanced_node.Rpc.Counts.{
  settled_count, sent_count, settled_count-append, count-has, count-lacks,
}
use advanced_node.Rpc.Calls.{Reachable, calls-IsAccounted}

module _ {A : Type 0} where
  abbrev reply : String → Result (Body A) → Option String → ConsumeMessage A
  reply id content reply_to = record {
    content = content;
    correlation_id = some id;
    reply_to = reply_to;
  }

  -- The call waits, and both a reply and its timer settle it.
  pub record Waits (id : String) (c : Client A) : Type 0 where
    pub unsettled : settled_count id c.settled ≡ 0
    pub by_reply :
        (r : Result (Body A)) (to : Option String)
        → settled_count id (handle_rpc_response (reply id r to) c).settled ≡ 1
    pub by_timer : settled_count id (time_out id c).settled ≡ 1

  -- The call was settled, and neither a reply nor its timer does anything.
  pub record IsOver (id : String) (c : Client A) : Type 0 where
    pub settled_once : settled_count id c.settled ≡ 1
    pub late_reply :
        (r : Result (Body A)) (to : Option String) → handle_rpc_response (reply id r to) c ≡ c
    pub late_timer : time_out id c ≡ c

  settled_now :
      (id : String) (c : Client A)
      → settled_count id c.settled ≡ 0
      → (s : Settlement A) → settled_count id (c.settled ++ (id, s) ∷ []) ≡ 1
  settled_now id c none_yet s =
      ground (arith, settled_count-append id id s c.settled, none_yet, eq_iff id id)

  -- After any run, a call that was started either waits, and then a reply with its identifier and
  -- its timer each settle it, or is over, and then a late reply or timer changes nothing.
  pub call-Waits_or_IsOver :
      {c : Client A}
      → Reachable c
      → (id : String) → sent_count id c.sent ≡ 1
      → Waits id c ⊎ IsOver id c
  unfolding handle_rpc_response time_out
  call-Waits_or_IsOver {c} run id started =
      let h = calls-IsAccounted run in
      elim (Bool-cases (has id c.pending)) [
        | inl waiting ↦
            let set : has id c.timers ≡ true = ap (has id) h.timed ∙ waiting in
            let none_yet : settled_count id c.settled ≡ 0 =
              omega (arith, h.balance id, started, count-has id c.pending waiting) in
            let after = settled_now id c none_yet in
            inl (record {
              unsettled = none_yet;
              by_reply = λ r to. rw waiting (after (settlement r));
              by_timer = rw set (after (rejected (error "RPC timeout")));
            })
        | inr gone ↦
            let unset : has id c.timers ≡ false = ap (has id) h.timed ∙ gone in
            inr (record {
              settled_once = omega (arith, h.balance id, started, count-lacks id c.pending gone);
              late_reply = λ r to. rw gone refl;
              late_timer = rw unset refl;
            })
      ]

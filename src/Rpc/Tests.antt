-- ===== src/Rpc/Tests.antt =====
-- The theorems on the RPC client and server at one call.
use advanced_node.Common.{ℕ, ◌≡◌, refl, none, some, ◌⊎◌}
use advanced_node.Exec.{Exec, ok, thrown}
use advanced_node.Shared.Errors.{error}
use advanced_node.Rpc.Client
use advanced_node.Rpc.Client.{
  Client, Body, ConsumeMessage, new_client, connect, rpc_call, time_out, send_to_queue,
}
use advanced_node.Rpc.Counts.{sent_count}
use advanced_node.Rpc.Calls.{
  Reachable, begins, connects, calls, times_out, IsAccounted, calls-IsAccounted,
}
use advanced_node.Rpc.Once.{Waits, IsOver, call-Waits_or_IsOver}
use advanced_node.Rpc.Server.{serve_message, consume_message}
use advanced_node.Rpc.Answers.{IsSettledOnce, messages-IsSettledOnce}

abbrev ask : Body ℕ
ask = record { content = some 1; error = none }

abbrev opened : Client ℕ
opened = (connect (Client.connected "amq.gen-1") new_client).1

abbrev asked : Client ℕ
asked = (rpc_call "call-1" "inventory.reserve" ask none opened).1

fresh : sent_count "call-1" opened.sent ≡ 0
unfolding connect
fresh = refl

run : Reachable (time_out "call-1" asked)
run = times_out "call-1" (
    calls "call-1" "inventory.reserve" ask none fresh
      (connects (Client.connected "amq.gen-1") begins))

calls-IsAccounted_example : IsAccounted (time_out "call-1" asked)
calls-IsAccounted_example = calls-IsAccounted run

asked_once : sent_count "call-1" (time_out "call-1" asked).sent ≡ 1
unfolding connect rpc_call time_out send_to_queue
asked_once = refl

call-Waits_or_IsOver_example :
    Waits "call-1" (time_out "call-1" asked) ⊎ IsOver "call-1" (time_out "call-1" asked)
call-Waits_or_IsOver_example = call-Waits_or_IsOver run "call-1" asked_once

abbrev fails : Body ℕ → Exec ℕ (Body ℕ)
fails b s = (thrown (error "Insufficient stock"), s)

abbrev drops : Body ℕ → Exec ℕ (Unit {0})
drops b s = (ok tt, s)

abbrev broken : ConsumeMessage ℕ
broken = record {
  content = thrown (error "Unexpected token");
  correlation_id = none;
  reply_to = none;
}

messages-IsSettledOnce_example :
    IsSettledOnce (serve_message fails broken 0).0
    × IsSettledOnce (consume_message drops broken 0).0
messages-IsSettledOnce_example = messages-IsSettledOnce fails drops broken 0

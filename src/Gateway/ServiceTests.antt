-- ===== src/Gateway/ServiceTests.antt =====
-- The theorems on the gateway's calls, with a broker that answers from a list and then never again.
use advanced_node.Common.{ℕ, String, ◌≡◌, refl, true, none, some, List, [], ◌∷◌, ◌++◌}
use advanced_node.Exec.{Result, ok, thrown}
use advanced_node.Exec.Ensures.{Ensures}
use advanced_node.Shared.Errors.{error}
use advanced_node.Rpc.Wire.{Response}
use advanced_node.Gateway.Services.{
  Object, Call, Bus, rpc_with_retry, ask, create_order, create_product, unless_timeout,
}
use advanced_node.Gateway.Retries.{Succeeded, Failed, ask-Answered}
use advanced_node.Gateway.Twice.{SentTwice, order_call, product_call, of_product, creates-SentTwice}

pub record Scripted : Type 0 where
  pub answers : List (Result (Response ℕ))
  pub made : List (Call String)

abbrev pub next :
    Call String → List (Result (Response ℕ)) → List (Call String) → Result (Response ℕ) × Scripted
next c [] made = (thrown (error "RPC timeout"), record { answers = []; made = made ++ c ∷ [] })
next c (a ∷ rest) made = (a, record { answers = rest; made = made ++ c ∷ [] })

pub next-made :
    (c : Call String) (answers : List (Result (Response ℕ))) (made : List (Call String))
    → (next c answers made).1.made ≡ made ++ c ∷ []
next-made c [] made = refl
next-made c (a ∷ rest) made = refl

abbrev pub broker : Bus String ℕ
broker = record {
  Net = Scripted;
  rpc_call = λ c n. next c n.answers n.made;
  pause = λ ms n. n;
  calls = λ n. n.made;
  called = λ c n. next-made c n.answers n.made;
  paused = λ ms n. refl;
}

abbrev pub placed : Response ℕ
placed = record { success = true; content = some 7; error = none }

abbrev pub late : Scripted
late = record { answers = thrown (error "RPC timeout") ∷ ok placed ∷ []; made = [] }

abbrev tea : Object String
tea = ("userId", "u1") ∷ ("productId", "tea") ∷ []

late_order : (create_order broker tea late).0 ≡ ok (some 7)
unfolding ask rpc_with_retry
late_order = refl

ask-Answered_example :
    Ensures
      (Succeeded broker (order_call tea) late)
      (Failed broker (order_call tea) "Failed" unless_timeout late)
      (ask broker (order_call tea) "Failed" unless_timeout late)
ask-Answered_example = ask-Answered broker (order_call tea) "Failed" unless_timeout late

abbrev half_way : Scripted
half_way = record { answers = ok placed ∷ []; made = product_call tea ∷ [] }

creates-SentTwice_example :
    SentTwice broker (product_call tea) late (create_product broker tea late).1
creates-SentTwice_example =
    creates-SentTwice broker of_product tea late half_way (error "RPC timeout") refl

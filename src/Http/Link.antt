-- ===== src/Http/Link.antt =====
-- The gateway's calls with the catalogue at the other end: what rpcCall of
-- src/shared/messaging/rabbitmq.client.ts comes to when the handler of
-- src/services/product-catalog/services/messaging.service.ts serves the queue. Whether an answer
-- comes in time is an argument, call by call; nobody else asks the catalogue meanwhile.
use advanced_node.Common.{
  ℕ, suc, String, ◌≡◌, refl, Bool, false, Option, none, some, List, [], ◌∷◌, ◌++◌, ◌==◌,
  if◌then◌else◌,
}
use advanced_node.Exec.{Exec, Result, ok, thrown}
use advanced_node.Rpc.Wire.{Response, settled}
use advanced_node.Shared.AddErrorHelper.{ErrorEntry, App}
use advanced_node.Shared.Errors.{error, message_of}
use advanced_node.Catalog.Messaging.{Site, Shop, Content, get_product}
use advanced_node.Gateway.Services.{Object, Call, Bus}

-- The answer comes in time; or too late, after the handler did its work; or the call never arrives.
pub data Fate : Type 0 where
  in_time late lost : Fate

-- The payload's field, none if there is none; of two with one name the later counts.
abbrev pub or_field : Option String → String → Option String
or_field none v = some v
or_field (some later) v = some later

abbrev pub field : String → Object String → Option String
field name [] = none
field name ((key, v) ∷ o) = let rest = field name o in if key == name then or_field rest v else rest

pub record Link (s : Site) : Type 0 where
  pub shop : App (Shop s)
  pub calls : List (Call String)
  -- What becomes of the calls from now on.
  pub fates : ℕ → Fate

module _ (s : Site) (stores : ErrorEntry → Bool)
    (others : Call String → Exec (App (Shop s)) (Response Content)) where
  abbrev pub product_at : Option String → Call String → Exec (App (Shop s)) (Response Content)
  product_at none c = others c
  product_at (some id) c = get_product s stores id

  -- The handler of the call's queue; `others` stands for those of the other queues.
  unfoldable pub serving_queue : Call String → Exec (App (Shop s)) (Response Content)
  serving_queue c =
      if c.queue == "product.get.rpc" then product_at (field "productId" c.payload) c else others c

  abbrev pub next : Call String → App (Shop s) → Link s → Link s
  next c shop n = record { shop = shop; calls = n.calls ++ c ∷ []; fates = λ k. n.fates (suc k) }

  -- What the caller's promise comes to, when the handler returns or throws.
  abbrev pub replied : Result (Response Content) → Result (Response Content)
  replied (ok r) = settled r
  replied (thrown e) =
      settled (record { success = false; content = none; error = some (message_of e) })

  abbrev pub arrives : Fate → Call String → Exec (Link s) (Response Content)
  arrives in_time c n = (replied (serving_queue c n.shop).0, next c (serving_queue c n.shop).1 n)
  arrives late c n = (thrown (error "RPC timeout"), next c (serving_queue c n.shop).1 n)
  arrives lost c n = (thrown (error "RPC timeout"), next c n.shop n)

  pub logged :
      (f : Fate) (c : Call String) (n : Link s) → (arrives f c n).1.calls ≡ n.calls ++ c ∷ []
  logged in_time c n = refl
  logged late c n = refl
  logged lost c n = refl

  abbrev pub bus : Bus String Content
  bus = record {
    Net = Link s;
    rpc_call = λ c n. arrives (n.fates 0) c n;
    pause = λ ms n. n;
    calls = λ n. n.calls;
    called = λ c n. logged (n.fates 0) c n;
    paused = λ ms n. refl;
  }

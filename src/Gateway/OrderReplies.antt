-- ===== src/Gateway/OrderReplies.antt =====
-- What the gateway's order routes ask of the order service, and what they make of its answers.
use Prim.Native.String.{◌++◌ as join}
use advanced_node.Common.{ℕ, String, ◌≡◌, ◌≢◌, refl, false, Option, none, some, ◌==◌}
use advanced_node.Exec.{Exec, Result, ok}
use advanced_node.Shared.Reply.{Reply, or_text, or_text?}
use advanced_node.Gateway.Parties.{JwtPayload}
use advanced_node.Gateway.Access.{passes, auth_middleware}
use advanced_node.Gateway.Uuid.Groups.{IsUuid}
use advanced_node.Gateway.Proxy.{
  Network, Config, Method, Proxy, HttpOutcome, answered, refused, unreachable, get, post, put,
  request, resolve_base_url,
}
use advanced_node.Gateway.Hooks.{valid, send_reply, replying}
use advanced_node.Gateway.Handled.{Handled}
use advanced_node.Gateway.Orders.{
  Payload, CreateOrder, Request, Settings, list, show, create, cancel, user, payload_of, path_of,
  dig, forwarded,
}
use advanced_node.Gateway.Orders

or_text_full : (a b : String) → (a == "") ≡ false → or_text a b ≡ a
or_text_full a b full = rw full refl

module _ {D : Type 0} (n : Network Payload D) (config : Config) (o : Settings D)
    (verify_access : String → Result JwtPayload) (now random : ℕ) where
  -- The reply to what a request came to: the answer's data, or status 500 with the text of the
  -- service's error.
  abbrev pub Told : ℕ → String → String → HttpOutcome D → Reply D → Type 0
  Told status message field (answered d) r =
      r ≡ send_reply status message (dig n config o verify_access now random field d) ""
  Told status message field (refused m) r =
      r
      ≡ send_reply 500 (or_text? m "Service request failed") none
          (or_text? m "Service request failed")
  Told status message field unreachable r =
      r ≡ send_reply 500 "Service unavailable" none "Service unavailable"

  -- One request went to the order service, at the base URL that was found for it.
  pub record Asked (path : String) (method : Method) (content : Payload) (status : ℕ)
      (message field : String) (s : Proxy n config) (out : Reply D × Proxy n config) : Type 0 where
    pub base : String
    pub before : Proxy n config
    pub found :
        resolve_base_url n config o.service_name o.service_url now random s ≡ (ok base, before)
    pub outcome : HttpOutcome D
    pub world : n.World
    pub sent :
        n.axios (request method (join base path) (some content)) before.world ≡ (outcome, world)
    pub after : out.1 ≡ record before { world = world }
    pub told : Told status message field outcome out.0

  module _ (path : String) (method : Method) (content : Payload) (status : ℕ)
      (message fallback field : String) (s : Proxy n config) where
    exchange : Exec (Proxy n config) (Reply D)
    exchange =
        replying status message fallback (dig n config o verify_access now random field)
          (forwarded n config o verify_access now random path method content)

  -- Refused without a token that verifies; or handled for the user whose token it is.
  pub data ForUser (header : Option String) (Ready : Type 0)
      (Passed : JwtPayload → Reply D × Proxy n config → Type 0) (s : Proxy n config)
      (out : Reply D × Proxy n config) : Type 0 where
    unknown :
        ((u : JwtPayload) → auth_middleware verify_access header ≢ passes u)
        → out.1 ≡ s
        → out.0.status_code ≡ 401
        → ForUser header Ready Passed s out
    known :
        (u : JwtPayload)
        → auth_middleware verify_access header ≡ passes u
        → Handled Ready (Passed u) s out
        → ForUser header Ready Passed s out

  -- What each request is to come to, for the user of its token.
  abbrev pub Served : Request → Proxy n config → Reply D × Proxy n config → Type 0
  Served (list header parsed) s out =
      ForUser header ((q : Unit {0}) × (parsed ≡ valid q))
        (λ u. Asked "/orders" get (user u.user_id) 200 "Orders fetched successfully" "orders" s) s
        out
  Served (show header id) s out =
      ForUser header (IsUuid id)
        (λ u. Asked (path_of id) get (user u.user_id) 200 "Order fetched successfully" "order" s) s
        out
  Served (create header parsed) s out =
      ForUser header ((d : CreateOrder) × (parsed ≡ valid d))
        (λ u out.
          (d : CreateOrder) × (parsed ≡ valid d)
          × Asked "/orders" post (payload_of u.user_id d) 201 "Order created successfully" "order" s
              out)
        s out
  Served (cancel header id) s out =
      ForUser header (IsUuid id)
        (λ u.
          Asked (join (path_of id) "/cancel") put (user u.user_id) 200
            "Order cancelled successfully" "order" s)
        s out

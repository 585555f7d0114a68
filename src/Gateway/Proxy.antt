-- ===== src/Gateway/Proxy.antt =====
-- src/services/api-gateway/services/proxy.service.ts and the look-up of
-- src/shared/service-discovery/consul.ts. The registry and the HTTP client are third parties:
-- `health` is what the registry's list of passing instances comes to, `axios` what a request does.
-- The time and the random number are arguments.
use Prim.Native.String.{◌++◌ as join}
use advanced_node.Common.{
  ℕ, zero, suc, ◌%◌, String, Bool, true, false, Option, none, some, List, [], ◌∷◌, length, ◌==◌,
  if◌then◌else◌,
}
use advanced_node.Common.Int.{ℤ, pos, ◌+ℤ◌, ltb_ℤ}
use advanced_node.Exec.{Exec, Result, ok, thrown, ◌>>=◌}
use advanced_node.Shared.Text.{parse_int}
use advanced_node.Shared.Decimal.{decimal}
use advanced_node.Shared.Reply.{or_text?}
use advanced_node.Shared.Query.{or_number}
use advanced_node.Shared.Errors.{app, internal_server}

pub record Target : Type 0 where
  pub address : String
  pub port : ℕ

-- The methods that the routes use.
pub data Method : Type 0 where
  get post put patch delete : Method

-- A request's data goes into its body or its query; its content type is JSON.
pub record HttpRequest (V : Type 0) : Type 0 where
  pub method : Method
  pub url : String
  pub body : Option V
  pub params : Option V

-- A response's data; an error with a response, by the message in its data; any other error.
pub data HttpOutcome (D : Type 0) : Type 0 where
  answered : D → HttpOutcome D
  refused : Option String → HttpOutcome D
  unreachable : HttpOutcome D

pub record Network (V D : Type 0) : Type 1 where
  pub World : Type 0
  pub health : String → Exec World (List Target)
  pub axios : HttpRequest V → World → HttpOutcome D × World

pub record Cached : Type 0 where
  pub expires_at : ℤ
  pub targets : List Target

-- The settings from the environment.
pub record Config : Type 0 where
  pub consul : Bool
  pub discovery_ttl_ms : Option String

-- `parseInt(process.env.SERVICE_DISCOVERY_TTL_MS || '5000', 10) || 5000`
abbrev pub ttl_of : Config → ℤ
ttl_of c = or_number (parse_int (or_text? c.discovery_ttl_ms "5000")) (pos 5000)

abbrev pub find : String → List (String × Cached) → Option Cached
find k [] = none
find k ((j, c) ∷ cache) = if j == k then some c else find k cache

-- `Map.set`
abbrev pub store : String → Cached → List (String × Cached) → List (String × Cached)
store k c [] = (k, c) ∷ []
store k c ((j, d) ∷ cache) = if j == k then (k, c) ∷ cache else (j, d) ∷ store k c cache

abbrev pub nth : ℕ → Target → List Target → Target
nth zero t ts = t
nth (suc i) t [] = t
nth (suc i) t (u ∷ ts) = nth i u ts

-- `targets[Math.floor(Math.random() * targets.length)]`, if there are any: any of them.
abbrev pub pick : ℕ → List Target → Option Target
pick random [] = none
pick random (t ∷ ts) = some (nth (random % length (t ∷ ts)) t ts)

abbrev pub url_of : Target → String
url_of t = join "http://" (join t.address (join ":" (decimal t.port)))

abbrev pub url_or : String → Option Target → String
url_or fallback none = fallback
url_or fallback (some t) = url_of t

abbrev pub fresh_target : ℕ → ℕ → Option Cached → Option Target
fresh_target now random none = none
fresh_target now random (some c) =
    if ltb_ℤ (pos now) c.expires_at then pick random c.targets else none

-- `['POST', 'PUT', 'PATCH'].includes(method)`
abbrev pub has_body : Method → Bool
has_body post = true
has_body put = true
has_body patch = true
has_body _ = false

abbrev pub request : {V : Type 0} → Method → String → Option V → HttpRequest V
request method url content =
    if has_body method
    then record { method = method; url = url; body = content; params = none }
    else record { method = method; url = url; body = none; params = content }

module _ {V D : Type 0} (n : Network V D) (config : Config) where
  pub record Proxy : Type 0 where
    pub cache : List (String × Cached)
    pub world : n.World

  -- Without an address of the registry, no target is known.
  abbrev pub discover : String → Exec n.World (List Target)
  discover service w = if config.consul then n.health service w else (ok [], w)

  abbrev pub found :
      String → String → ℕ → ℕ → Result (List Target) × n.World → Proxy → Result String × Proxy
  found service fallback now random (ok targets, w) s = (
    ok (url_or fallback (pick random targets)),
    record s {
      cache =
          store service (record { expires_at = pos now +ℤ ttl_of config; targets = targets })
            s.cache;
      world = w;
    },
  )
  found service fallback now random (thrown e, w) s = (ok fallback, record s { world = w })

  abbrev pub resolve_unless_fresh : String → String → ℕ → ℕ → Option Target → Exec Proxy String
  resolve_unless_fresh service fallback now random (some t) s = (ok (url_of t), s)
  resolve_unless_fresh service fallback now random none s =
      found service fallback now random (discover service s.world) s

  unfoldable pub resolve_base_url : String → String → ℕ → ℕ → Exec Proxy String
  resolve_base_url service fallback now random s =
      resolve_unless_fresh service fallback now random
        (fresh_target now random (find service s.cache)) s

  abbrev pub response_of : HttpOutcome D → Result D
  response_of (answered content) = ok content
  response_of (refused message) =
      thrown (app (internal_server (or_text? message "Service request failed")))
  response_of unreachable = thrown (app (internal_server "Service unavailable"))

  abbrev pub send : HttpRequest V → Exec Proxy D
  send r s = let (out, w) = n.axios r s.world in (response_of out, record s { world = w })

  unfoldable pub forward :
      String → String → ℕ → ℕ → (path : String) → Method → Option V → Exec Proxy D
  unfolding resolve_base_url
  forward service fallback now random path method content = do
    base ← resolve_base_url service fallback now random
    send (request method (join base path) content)

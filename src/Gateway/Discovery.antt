-- ===== src/Gateway/Discovery.antt =====
-- What the proxy remembers of the registry, and for how long.
use advanced_node.Common.{
  ℕ, zero, suc, ◌%◌, String, ◌≡◌, refl, ap, ◌∙◌, true, false, Bool-cases, Option, none, some, List,
  [], ◌∷◌, All, Has, length, inl, inr, arith, eq_iff, eq_refl, ◌==◌, if◌then◌else◌,
}
use advanced_node.Common.Int.{ℤ, pos, ◌+ℤ◌, ltb_ℤ}
use advanced_node.Exec.{Result, ok, thrown}
use advanced_node.Gateway.Proxy.{
  Target, Cached, Network, Config, Proxy, ttl_of, find, store, nth, url_of, fresh_target, discover,
  found, resolve_base_url, resolve_unless_fresh,
}

find-store :
    (k j : String) (c : Cached) (cache : List (String × Cached))
    → find j (store k c cache) ≡ (if k == j then some c else find j cache)
find-store k j c [] = refl
find-store k j c ((i, d) ∷ cache) =
    ground (arith, eq_iff k j, eq_iff i k, eq_iff i j, find-store k j c cache)

nth-Has : (i : ℕ) (t : Target) (ts : List Target) → Has (nth i t ts) (t ∷ ts)
nth-Has zero t ts = inl refl
nth-Has (suc i) t [] = inl refl
nth-Has (suc i) t (u ∷ ts) = inr (nth-Has i u ts)

module _ {V D : Type 0} (n : Network V D) (config : Config) where
  -- The cache holds these targets of the service, good before `until`.
  abbrev pub Remembers : String → ℤ → List Target → Proxy n config → Type 0
  Remembers service until targets s =
      find service s.cache ≡ some (record { expires_at = until; targets = targets })

  -- One of the targets, as a base URL.
  abbrev pub IsUrlOf : List Target → Result String → Type 0
  IsUrlOf targets r = (t : Target) × Has t targets × (r ≡ ok (url_of t))

  found-total :
      (service fallback : String) (now random : ℕ) (r : Result (List Target)) (w : n.World)
      (s : Proxy n config)
      → (base : String) × (s' : Proxy n config) × (found n config service fallback now random
            (r, w)
            s
          ≡ (ok base, s'))
  found-total service fallback now random (ok targets) w s = (_, _, refl)
  found-total service fallback now random (thrown e) w s = (_, _, refl)

  unless_fresh-total :
      (service fallback : String) (now random : ℕ) (o : Option Target) (s : Proxy n config)
      → (base : String) × (s' : Proxy n config) × (resolve_unless_fresh n config service fallback
            now random o s
          ≡ (ok base, s'))
  unless_fresh-total service fallback now random (some t) s = (_, _, refl)
  unless_fresh-total service fallback now random none s =
      found-total service fallback now random (discover n config service s.world).0
        (discover n config service s.world).1 s

  -- `resolveBaseUrl` never throws.
  pub resolve-total :
      (service fallback : String) (now random : ℕ) (s : Proxy n config)
      → (base : String) × (s' : Proxy n config) × (resolve_base_url n config service fallback now
            random s
          ≡ (ok base, s'))
  unfolding resolve_base_url
  resolve-total service fallback now random s = unless_fresh-total service fallback now random _ s

  pub record Ask : Type 0 where
    pub service : String
    pub fallback : String
    pub now : ℕ
    pub random : ℕ

  abbrev pub resolve : Ask → Proxy n config → Result String × Proxy n config
  resolve a = resolve_base_url n config a.service a.fallback a.now a.random

  -- The calls one after another.
  unfoldable pub resolve_all : List Ask → Proxy n config → Proxy n config
  resolve_all [] s = s
  resolve_all (a ∷ rest) s = resolve_all rest (resolve a s).1

  abbrev pub IsBefore : ℤ → Ask → Type 0
  IsBefore until a = ltb_ℤ (pos a.now) until ≡ true

  -- Another service's answer changes nothing of what is remembered.
  found-Remembers :
      (service : String) (until : ℤ) (targets : List Target) (a : Ask) (s : Proxy n config)
      → (a.service == service) ≡ false
      → Remembers service until targets s
      → (r : Result (List Target)) (w : n.World)
      → Remembers service until targets
          (found n config a.service a.fallback a.now a.random (r, w) s).1
  found-Remembers service until targets a s other h (ok ts) w =
      find-store a.service service _ s.cache ∙ (rw other h)
  found-Remembers service until targets a s other h (thrown e) w = h

  other-Remembers :
      (service : String) (until : ℤ) (targets : List Target) (a : Ask) (s : Proxy n config)
      → (a.service == service) ≡ false
      → Remembers service until targets s
      → (o : Option Target)
      → Remembers service until targets
          (resolve_unless_fresh n config a.service a.fallback a.now a.random o s).1
  other-Remembers service until targets a s other h (some t) = h
  other-Remembers service until targets a s other h none =
      found-Remembers service until targets a s other h (discover n config a.service s.world).0
        (discover n config a.service s.world).1

  -- A call of the service itself answers from the cache.
  fresh :
      (until : ℤ) (t : Target) (ts : List Target) (a : Ask) (s : Proxy n config)
      → Remembers a.service until (t ∷ ts) s
      → IsBefore until a
      → ((resolve a s).1 ≡ s) × IsUrlOf (t ∷ ts) (resolve a s).0
  unfolding resolve_base_url
  fresh until t ts a s h early =
      rw h (rw early (refl, (nth (a.random % length (t ∷ ts)) t ts, nth-Has _ t ts, refl)))

  resolve-Remembers :
      (service : String) (until : ℤ) (t : Target) (ts : List Target) (a : Ask) (s : Proxy n config)
      → IsBefore until a
      → Remembers service until (t ∷ ts) s
      → Remembers service until (t ∷ ts) (resolve a s).1
  unfolding resolve_base_url
  resolve-Remembers service until t ts a s early h = elim (Bool-cases (a.service == service)) [
    | inl same ↦
        let own : Remembers a.service until (t ∷ ts) s =
          ap (λ k. find k s.cache) ((eq_iff a.service service).0 same) ∙ h in
        ap (λ (x : Proxy n config). find service x.cache) ((fresh until t ts a s own early).0) ∙ h
    | inr other ↦ other-Remembers service until (t ∷ ts) a s other h _
  ]

  resolve_all-Remembers :
      (service : String) (until : ℤ) (t : Target) (ts : List Target) (asks : List Ask)
      (s : Proxy n config)
      → All (IsBefore until) asks
      → Remembers service until (t ∷ ts) s
      → Remembers service until (t ∷ ts) (resolve_all asks s)
  unfolding resolve_all
  resolve_all-Remembers service until t ts [] s early h = h
  resolve_all-Remembers service until t ts (a ∷ asks) s (now, later) h =
      resolve_all-Remembers service until t ts asks (resolve a s).1 later
        (resolve-Remembers service until t ts a s now h)

  -- An answer of the registry, asked because nothing good was cached, with its state afterwards.
  abbrev pub AsksRegistry : Ask → Proxy n config → List Target → n.World → Type 0
  AsksRegistry a s targets w =
      (fresh_target a.now a.random (find a.service s.cache) ≡ none)
      × (discover n config a.service s.world ≡ (ok targets, w))

  abbrev expiry : Ask → ℤ
  expiry a = pos a.now +ℤ ttl_of config

  asked :
      (a : Ask) (s : Proxy n config) (t : Target) (ts : List Target) (w : n.World)
      → AsksRegistry a s (t ∷ ts) w
      → ((resolve a s).1.world ≡ w)
        × IsUrlOf (t ∷ ts) (resolve a s).0
        × Remembers a.service (expiry a) (t ∷ ts) (resolve a s).1
  unfolding resolve_base_url
  asked a s t ts w (stale, answer) = rw stale (
      rw answer (
        refl,
        (nth (a.random % length (t ∷ ts)) t ts, nth-Has _ t ts, refl),
        find-store a.service a.service _ s.cache ∙ (rw eq_refl refl),
      ))

  -- When the registry names targets of a service, `resolveBaseUrl` gives the URL of one of them, and
  -- goes on to do so until the answer's time is over, whatever services are asked for in between and
  -- whatever the registry says of others: a later call for the service gives the URL of one of these
  -- targets and leaves the registry and the cache alone.
  pub resolve-remembered :
      (a b : Ask) (s : Proxy n config) (t : Target) (ts : List Target) (w : n.World)
      (between : List Ask)
      → AsksRegistry a s (t ∷ ts) w
      → b.service ≡ a.service
      → All (IsBefore (expiry a)) between
      → IsBefore (expiry a) b
      → IsUrlOf (t ∷ ts) (resolve a s).0
        × IsUrlOf (t ∷ ts) (resolve b (resolve_all between (resolve a s).1)).0
        × ((resolve b (resolve_all between (resolve a s).1)).1
            ≡ resolve_all between (resolve a s).1)
  resolve-remembered a b s t ts w between asks same early now =
      let (_, url, kept) = asked a s t ts w asks in
      let still =
        resolve_all-Remembers a.service (expiry a) t ts between (resolve a s).1 early kept in
      let s2 = resolve_all between (resolve a s).1 in
      let (unchanged, later) =
        fresh (expiry a) t ts b s2 (ap (λ k. find k s2.cache) same ∙ still) now in
      (url, later, unchanged)

  -- A call that finds nothing good in the cache and gets no target falls back to the given URL.
  pub resolve-fallback :
      (a : Ask) (s : Proxy n config) (w : n.World) (r : Result (List Target))
      → fresh_target a.now a.random (find a.service s.cache) ≡ none
      → discover n config a.service s.world ≡ (r, w)
      → ((targets : List Target) → r ≡ ok targets → targets ≡ [])
      → (resolve a s).0 ≡ ok a.fallback
  unfolding resolve_base_url
  resolve-fallback a s w (ok []) stale answer empty = rw stale (rw answer refl)
  resolve-fallback a s w (ok (t ∷ ts)) stale answer empty =
      let clash : (t ∷ ts) ≡ [] = empty (t ∷ ts) refl in absurd (cc)
  resolve-fallback a s w (thrown e) stale answer empty = rw stale (rw answer refl)

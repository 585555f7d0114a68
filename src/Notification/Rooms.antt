-- ===== src/Notification/Rooms.antt =====
-- The names of rooms in src/services/notification/services/socket.service.ts, kept apart, and who of
-- a list has which.
use Prim.Native.Char.{Char, code}
use advanced_node.Common.{
  ℕ, String, ◌≡◌, ◌≢◌, refl, ap, sym, ◌∙◌, Bool, true, false, ◌||◌, ◌&&◌, Bool-cases, List, [], ◌∷◌,
  inl, inr, eq_iff, eq_refl, ◌==◌, if◌then◌else◌, prefixed, join-prefixed, arith,
}
use advanced_node.Notification.Sockets.{JwtPayload, room_of}

first_or : Char → String → Char
first_or c String.[] = c
first_or c (String.◌∷◌ d t) = d

rest_of : String → String
rest_of String.[] = String.[]
rest_of (String.◌∷◌ d t) = t

pub room_of-prefixed : (u : String) → room_of u ≡ prefixed "user:" u
unfolding room_of
room_of-prefixed u = join-prefixed "user:" u

codes_differ : (a u : ℕ) → a ≡ 97 → u ≡ 117 → a ≢ u
codes_differ a u is_97 is_117 same = omega arith

pub room_of-admins : (u : String) → ("admins" == room_of u) ≡ false
unfolding first_or
room_of-admins u = elim (Bool-cases ("admins" == room_of u)) [
  | inl same ↦
      let heads : first_or "x" "admins" ≡ first_or "x" (prefixed "user:" u) =
        ap (first_or "x") ((eq_iff "admins" (room_of u)).0 same ∙ room_of-prefixed u) in
      absurd (codes_differ (code "a") (code "u") refl refl (ap code heads))
  | inr other ↦ other
]

pub admins-room_of : (u : String) → (room_of u == "admins") ≡ false
admins-room_of u = elim (Bool-cases (room_of u == "admins")) [
  | inl same ↦
      let reversed : ("admins" == room_of u) ≡ true =
        (eq_iff "admins" (room_of u)).1 (sym ((eq_iff (room_of u) "admins").0 same)) in
      absurd (cc (room_of-admins u))
  | inr other ↦ other
]

room_of-injective : (u v : String) → room_of u ≡ room_of v → u ≡ v
unfolding rest_of
room_of-injective u v e =
    ap (λ t. rest_of (rest_of (rest_of (rest_of (rest_of t)))))
      (sym (room_of-prefixed u) ∙ e ∙ room_of-prefixed v)

pub room_of-eq : (u v : String) → (room_of u == room_of v) ≡ (u == v)
room_of-eq u v = elim (Bool-cases (u == v)) [
  | inl same ↦ rw ((eq_iff u v).0 same) (rw (eq_refl v) (eq_refl (room_of v)))
  | inr other ↦ elim (Bool-cases (room_of u == room_of v)) [
    | inl same ↦
        let equal : (u == v) ≡ true =
          (eq_iff u v).1 (room_of-injective u v ((eq_iff (room_of u) (room_of v)).0 same)) in
        absurd (cc)
    | inr apart ↦ cc
  ]
]

abbrev pub any : (JwtPayload → Bool) → List JwtPayload → Bool
any f [] = false
any f (p ∷ ps) = f p || any f ps

abbrev pub is_admin : JwtPayload → Bool
is_admin p = p.role == "ADMIN"

abbrev pub is_of : String → JwtPayload → Bool
is_of u p = p.user_id == u

abbrev pub anyone : JwtPayload → Bool
anyone p = true

pub other_room : (b : Bool) {c : Bool} → c ≡ false → (m : Bool) → (b && c) || m ≡ m
other_room false e m = refl
other_room true e m = ap (λ x. x || m) e

pub and_true : (b : Bool) → (b && true) ≡ b
and_true false = refl
and_true true = refl

pub same_either : {A : Type 0} (b : Bool) (a : A) → (if b then a else a) ≡ a
same_either true a = refl
same_either false a = refl

module _ (b : Bool) (f : JwtPayload → Bool) where
  pub added :
      (p : JwtPayload) (ps : List JwtPayload) {m : Bool}
      → m ≡ any f ps
      → (b && f p) || m ≡ any f (if b then p ∷ ps else ps)
  added p ps e = elim (Bool-cases b) [
    | inl is ↦ rw is (ap (λ x. f p || x) e)
    | inr isnt ↦ rw isnt e
  ]

  pub removed :
      (ps : List JwtPayload) {m : Bool}
      → m ≡ any f ps
      → (if b then false else m) ≡ any f (if b then [] else ps)
  removed ps e = elim (Bool-cases b) [ inl is ↦ rw is refl | inr isnt ↦ rw isnt e ]

-- ===== src/Notification/Heard.antt =====
-- Who hears what of the socket service: src/services/notification/services/socket.service.ts.
use advanced_node.Common.{String, ◌≡◌, Bool, false, none, some, List, [], ◌∷◌, ◌==◌, if◌then◌else◌}
use advanced_node.Exec.{Result, ok, thrown}
use advanced_node.Notification.Sockets.{
  JwtPayload, SocketIo, Sockets, Step, connection, disconnection, to_user, to_admins, to_all,
  room_of, authenticate,
}
use advanced_node.Notification.Rooms.{any, is_admin, is_of, anyone}

module _ {D : Type 0} (s : SocketIo D) where
  -- No socket's identifier is the name of a room that the service uses.
  abbrev pub IsApart : Type 0
  IsApart =
      (i : s.SocketId)
      → (("admins" == s.name i) ≡ false) × ((u : String) → (room_of u == s.name i) ≡ false)

  -- What `j` has received once the server is up.
  abbrev pub received_of : Sockets s → s.SocketId → List (String × D)
  received_of none j = []
  received_of (some io) j = s.received io j

  module _ (verify_access : String → Result JwtPayload) where
    -- Who signed in on a socket, after a handshake that ended in `r`.
    abbrev pub signed_in : Result JwtPayload → List JwtPayload → List JwtPayload
    signed_in (ok p) ps = p ∷ ps
    signed_in (thrown e) ps = ps

    abbrev pub heard_if : Bool → String → D → List (String × D) → List (String × D)
    heard_if b e d rest = if b then (e, d) ∷ rest else rest

    -- What socket `j` is to hear, when those in `ps` are signed in on it: what is sent to all while
    -- anybody is, what is sent to administrators while one is, what is sent to a user while that
    -- user is.
    unfoldable pub heard : s.SocketId → List (Step s) → List JwtPayload → List (String × D)
    heard j [] ps = []
    heard j (connection i token ∷ xs) ps =
        heard j xs (if s.same i j then signed_in (authenticate verify_access token) ps else ps)
    heard j (disconnection i ∷ xs) ps = heard j xs (if s.same i j then [] else ps)
    heard j (to_user u e d ∷ xs) ps = heard_if (any (is_of u) ps) e d (heard j xs ps)
    heard j (to_admins e d ∷ xs) ps = heard_if (any is_admin ps) e d (heard j xs ps)
    heard j (to_all e d ∷ xs) ps = heard_if (any anyone ps) e d (heard j xs ps)

    -- The rooms of a socket are those of the users signed in on it.
    record Seats (j : s.SocketId) (ps : List JwtPayload) (io : s.Io) : Type 0 where
      all : s.member io none j ≡ any anyone ps
      admins : s.member io (some "admins") j ≡ any is_admin ps
      user : (u : String) → s.member io (some (room_of u)) j ≡ any (is_of u) ps

    module _ (i j : s.SocketId) (p : JwtPayload) (io : s.Io) where
      abbrev before_admins : s.Io
      before_admins = s.join_room i (room_of p.user_id) (s.connect i io)

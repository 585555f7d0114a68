-- ===== src/Notification/Sockets.antt =====
-- src/services/notification/services/socket.service.ts: who is connected, and who is told what.
-- Socket.IO is a parameter with the laws of its documentation: who is in a room, and that an event
-- goes to those who are in it at that time. Log lines are left out.
use Prim.Native.String.{◌++◌ as join}
use advanced_node.Common.{
  String, ◌≡◌, Bool, false, ◌||◌, ◌&&◌, Option, none, some, List, [], ◌∷◌, ◌++◌, ◌==◌,
  if◌then◌else◌,
}
use advanced_node.Exec.{Result, ok, thrown}
use advanced_node.Shared.Errors.{error}

-- src/services/notification/utils/jwt.ts
pub record JwtPayload : Type 0 where
  pub user_id : String
  pub email : String
  pub role : String

-- A room is a text; `none` stands for everybody who is connected.
pub record SocketIo (D : Type 0) : Type 1 where
  pub Io : Type 0
  pub SocketId : Type 0
  pub same : SocketId → SocketId → Bool
  -- The room that a socket is in from the start, named by its identifier.
  pub name : SocketId → String
  pub fresh : Io
  pub connect : SocketId → Io → Io
  pub join_room : SocketId → String → Io → Io
  pub leave : SocketId → Io → Io
  pub emit : Option String → String → D → Io → Io
  pub member : Io → Option String → SocketId → Bool
  pub received : Io → SocketId → List (String × D)
  pub fresh_member : (r : Option String) (j : SocketId) → member fresh r j ≡ false
  pub connect_all :
      (i j : SocketId) (io : Io) → member (connect i io) none j ≡ same i j || member io none j
  pub connect_room :
      (i j : SocketId) (r : String) (io : Io)
      → (r == name i) ≡ false
      → member (connect i io) (some r) j ≡ member io (some r) j
  pub join_all :
      (i j : SocketId) (q : String) (io : Io) → member (join_room i q io) none j ≡ member io none j
  pub join_member :
      (i j : SocketId) (q r : String) (io : Io)
      → member (join_room i q io) (some r) j ≡ (same i j && (q == r)) || member io (some r) j
  pub leave_member :
      (i j : SocketId) (r : Option String) (io : Io)
      → member (leave i io) r j ≡ (if same i j then false else member io r j)
  pub emit_member :
      (q r : Option String) (e : String) (d : D) (j : SocketId) (io : Io)
      → member (emit q e d io) r j ≡ member io r j
  pub fresh_received : (j : SocketId) → received fresh j ≡ []
  pub connect_received : (i j : SocketId) (io : Io) → received (connect i io) j ≡ received io j
  pub join_received :
      (i j : SocketId) (q : String) (io : Io) → received (join_room i q io) j ≡ received io j
  pub leave_received : (i j : SocketId) (io : Io) → received (leave i io) j ≡ received io j
  pub emit_received :
      (r : Option String) (e : String) (d : D) (j : SocketId) (io : Io)
      → received (emit r e d io) j
        ≡ (if member io r j then received io j ++ (e, d) ∷ [] else received io j)

-- `user:${userId}`
unfoldable pub room_of : String → String
room_of user_id = join "user:" user_id

-- The middleware's two ways to refuse have one error.
module _ (verify_access : String → Result JwtPayload) where
  abbrev verified : Result JwtPayload → Result JwtPayload
  verified (ok payload) = ok payload
  verified (thrown e) = thrown (error "Authentication error")

  unfoldable pub authenticate : Option String → Result JwtPayload
  authenticate none = thrown (error "Authentication error")
  authenticate (some token) =
      if token == "" then thrown (error "Authentication error") else verified (verify_access token)

module _ {D : Type 0} (s : SocketIo D) where
  -- `private io`, which is null until `initialize`.
  abbrev pub Sockets : Type 0
  Sockets = Option s.Io

  abbrev pub initialize : Sockets → Sockets
  initialize io = some s.fresh

  abbrev pub joined_admins : s.SocketId → String → s.Io → s.Io
  joined_admins i role io = if role == "ADMIN" then s.join_room i "admins" io else io

  abbrev pub admitted : s.SocketId → Result JwtPayload → s.Io → s.Io
  admitted i (thrown e) io = io
  admitted i (ok payload) io =
      joined_admins i payload.role (s.join_room i (room_of payload.user_id) (s.connect i io))

  abbrev pub emit_in : Option String → String → D → Sockets → Sockets
  emit_in room event content none = none
  emit_in room event content (some io) = some (s.emit room event content io)

  unfoldable pub emit_to_user : String → String → D → Sockets → Sockets
  emit_to_user user_id = emit_in (some (room_of user_id))

  unfoldable pub emit_to_admins : String → D → Sockets → Sockets
  emit_to_admins = emit_in (some "admins")

  unfoldable pub broadcast : String → D → Sockets → Sockets
  broadcast = emit_in none

  -- What happens to a server that listens.
  pub data Step : Type 0 where
    connection : s.SocketId → (token : Option String) → Step
    disconnection : s.SocketId → Step
    to_user : (user_id event : String) → D → Step
    to_admins : (event : String) → D → Step
    to_all : (event : String) → D → Step

  module _ (verify_access : String → Result JwtPayload) where
    abbrev pub connected : s.SocketId → Option String → Sockets → Sockets
    connected i token none = none
    connected i token (some io) = some (admitted i (authenticate verify_access token) io)

    abbrev pub disconnected : s.SocketId → Sockets → Sockets
    disconnected i none = none
    disconnected i (some io) = some (s.leave i io)

    unfoldable pub step : Step → Sockets → Sockets
    step (connection i token) = connected i token
    step (disconnection i) = disconnected i
    step (to_user u e d) = emit_to_user u e d
    step (to_admins e d) = emit_to_admins e d
    step (to_all e d) = broadcast e d

    unfoldable pub run : List Step → Sockets → Sockets
    run [] io = io
    run (x ∷ xs) io = run xs (step x io)

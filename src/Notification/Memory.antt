-- ===== src/Notification/Memory.antt =====
-- Rooms in memory: the laws of Socket.IO can be met.
use advanced_node.Common.{
  ℕ, String, ◌≡◌, refl, Bool, false, ◌||◌, ◌&&◌, Option, none, some, List, [], ◌∷◌, ◌++◌, nat_eq,
  ◌==◌, if◌then◌else◌, Bool-cases, inl, inr, eq_iff, sym, ◌∙◌, prefixed,
}
use advanced_node.Notification.Sockets.{SocketIo, room_of}
use advanced_node.Notification.Rooms.{room_of-prefixed}
use advanced_node.Notification.Heard.{IsApart}

room_of-empty : (u : String) → (room_of u == "") ≡ false
room_of-empty u = elim (Bool-cases (room_of u == "")) [
  | inl same ↦
      let emptied : prefixed "user:" u ≡ "" =
        sym (room_of-prefixed u) ∙ (eq_iff (room_of u) "").0 same in
      absurd (cc)
  | inr other ↦ other
]

module _ (D : Type 0) where
  pub record Hall : Type 0 where
    pub member : Option String → ℕ → Bool
    pub received : ℕ → List (String × D)

  abbrev pub nobody : Hall
  nobody = record { member = λ r j. false; received = λ j. [] }

  abbrev pub entered : ℕ → Hall → Option String → ℕ → Bool
  entered i io none j = nat_eq i j || io.member none j
  entered i io (some r) j = io.member (some r) j

  abbrev pub seated : ℕ → String → Hall → Option String → ℕ → Bool
  seated i q io none j = io.member none j
  seated i q io (some r) j = (nat_eq i j && (q == r)) || io.member (some r) j

  abbrev pub hall : SocketIo D
  hall = record {
    Io = Hall;
    SocketId = ℕ;
    same = nat_eq;
    name = λ i. "";
    fresh = nobody;
    connect = λ i io. record io { member = entered i io };
    join_room = λ i q io. record io { member = seated i q io };
    leave = λ i io. record io { member = λ r j. if nat_eq i j then false else io.member r j };
    emit = λ r e d io. record io {
      received = λ j. if io.member r j then io.received j ++ (e, d) ∷ [] else io.received j;
    };
    member = λ io r j. io.member r j;
    received = λ io j. io.received j;
    fresh_member = λ r j. refl;
    connect_all = λ i j io. refl;
    connect_room = λ i j r io e. refl;
    join_all = λ i j q io. refl;
    join_member = λ i j q r io. refl;
    leave_member = λ i j r io. refl;
    emit_member = λ q r e d j io. refl;
    fresh_received = λ j. refl;
    connect_received = λ i j io. refl;
    join_received = λ i j q io. refl;
    leave_received = λ i j io. refl;
    emit_received = λ r e d j io. refl;
  }

  pub hall-IsApart : IsApart hall
  hall-IsApart i = (refl, room_of-empty)

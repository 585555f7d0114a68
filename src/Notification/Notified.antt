-- ===== src/Notification/Notified.antt =====
-- What the consumers of src/services/notification make of a sequence of events.
use mathlib.Core.Path.{ap₂}
use mathlib.Core.List.{append-nil, append_assoc}
use advanced_node.Common.{
  String, ◌≡◌, refl, ap, sym, ◌∙◌, Bool, true, false, none, some, List, [], ◌∷◌, ◌++◌, map,
  if◌then◌else◌,
}
use advanced_node.Shared.AddErrorHelper.{ErrorEntry, App}
use advanced_node.Rpc.Server.{Action}
use advanced_node.Notification.Sockets.{Sockets, emit_to_admins}
use advanced_node.Notification.Email.{LowStock, Parties, Desk}
use advanced_node.Notification.Consumers.{Event, served, serve_all}
use advanced_node.Notification.Heard.{received_of}
use advanced_node.Notification.Grown.{
  verdict, outcome, sent, stored, alerts, told, Grown, served-Grown,
}

abbrev flat : {A B : Type 0} → (A → List B) → List A → List B
flat f [] = []
flat f (x ∷ xs) = f x ++ flat f xs

chained :
    {A : Type 0} (l0 xs ys : List A) {l1 l2 : List A}
    → l1 ≡ l0 ++ xs
    → l2 ≡ l1 ++ ys
    → l2 ≡ l0 ++ (xs ++ ys)
chained l0 xs ys e f = f ∙ ap (λ l. l ++ ys) e ∙ append_assoc l0 xs ys

module _ (p : Parties) (stores : ErrorEntry → Bool) where
  told-append :
      (xs ys : List LowStock) (io : Sockets p.socket_io)
      → told p stores (xs ++ ys) io ≡ told p stores ys (told p stores xs io)
  told-append [] ys io = refl
  told-append (d ∷ xs) ys io = told-append xs ys (emit_to_admins p.socket_io "low-stock-alert" d io)

  -- Whether a socket is in the room of the administrators.
  abbrev sees_alerts : Sockets p.socket_io → p.socket_io.SocketId → Bool
  sees_alerts none j = false
  sees_alerts (some io) j = p.socket_io.member io (some "admins") j

  abbrev alert_event : LowStock → String × LowStock
  alert_event d = ("low-stock-alert", d)

  told-received :
      (j : p.socket_io.SocketId) (ds : List LowStock) (io : p.socket_io.Io) (b : Bool)
      → p.socket_io.member io (some "admins") j ≡ b
      → received_of p.socket_io (told p stores ds (some io)) j
        ≡ p.socket_io.received io j ++ (if b then map alert_event ds else [])
  unfolding emit_to_admins
  told-received j [] io true h = sym (append-nil (p.socket_io.received io j))
  told-received j [] io false h = sym (append-nil (p.socket_io.received io j))
  told-received j (d ∷ ds) io true h =
      let after : p.socket_io.Io = p.socket_io.emit (some "admins") "low-stock-alert" d io in
      told-received j ds after true (p.socket_io.emit_member _ _ _ _ j io ∙ h)
      ∙ ap (λ l. l ++ map alert_event ds) (p.socket_io.emit_received _ _ _ j io ∙ rw h refl)
      ∙ append_assoc (p.socket_io.received io j) (alert_event d ∷ []) (map alert_event ds)
  told-received j (d ∷ ds) io false h =
      let after : p.socket_io.Io = p.socket_io.emit (some "admins") "low-stock-alert" d io in
      told-received j ds after false (p.socket_io.emit_member _ _ _ _ j io ∙ h)
      ∙ ap (λ l. l ++ []) (p.socket_io.emit_received _ _ _ j io ∙ rw h refl)

  told_none : (ds : List LowStock) → told p stores ds none ≡ none
  unfolding emit_to_admins
  told_none [] = refl
  told_none (d ∷ ds) = told_none ds

  sockets-received :
      (j : p.socket_io.SocketId) (ds : List LowStock) (io : Sockets p.socket_io)
      → received_of p.socket_io (told p stores ds io) j
        ≡ received_of p.socket_io io j ++ (if sees_alerts io j then map alert_event ds else [])
  sockets-received j ds none = ap (λ io. received_of p.socket_io io j) (told_none ds)
  sockets-received j ds (some io) =
      told-received j ds io (p.socket_io.member io (some "admins") j) refl

  abbrev told_by : Event → List LowStock
  told_by e = alerts p stores e (outcome p stores e)

  record GrownBy (es : List Event) (s : App (Desk p))
      (out : List (List (Action Event)) × App (Desk p)) : Type 0 where
    verdicts : out.0 ≡ map (λ e. verdict (outcome p stores e)) es
    mails : out.1.db.mails ≡ s.db.mails ++ flat (λ e. sent p stores e (outcome p stores e)) es
    errors : out.1.errors ≡ s.errors ++ flat (λ e. stored p stores e (outcome p stores e)) es
    sockets : out.1.db.sockets ≡ told p stores (flat told_by es) s.db.sockets

  serve_all-Grown : (es : List Event) (s : App (Desk p)) → GrownBy es s (serve_all p stores es s)
  unfolding serve_all
  serve_all-Grown [] s = record {
    verdicts = refl;
    mails = sym (append-nil s.db.mails);
    errors = sym (append-nil s.errors);
    sockets = refl;
  }
  serve_all-Grown (e ∷ es) s =
      let s1 : App (Desk p) = (served p stores e s).1 in
      let first : Grown p stores e (outcome p stores e) s (served p stores e s) =
        served-Grown p stores e s in
      let rest : GrownBy es s1 (serve_all p stores es s1) = serve_all-Grown es s1 in
      record {
        verdicts = ap₂ (λ v vs. v ∷ vs) first.verdict rest.verdicts;
        mails = chained _ _ _ first.mails rest.mails;
        errors = chained _ _ _ first.errors rest.errors;
        sockets =
            rest.sockets
            ∙ ap (told p stores (flat told_by es)) first.sockets
            ∙ sym (told-append (told_by e) (flat told_by es) s.db.sockets);
      }

  -- What a run over the events `es` leaves: each message's verdict, the mails, the rows of errors
  -- and what each socket received.
  pub record Notified (es : List Event) (s : App (Desk p))
      (out : List (List (Action Event)) × App (Desk p)) : Type 0 where
    pub verdicts : out.0 ≡ map (λ e. verdict (outcome p stores e)) es
    pub mails : out.1.db.mails ≡ s.db.mails ++ flat (λ e. sent p stores e (outcome p stores e)) es
    pub errors : out.1.errors ≡ s.errors ++ flat (λ e. stored p stores e (outcome p stores e)) es
    pub received :
        (j : p.socket_io.SocketId)
        → received_of p.socket_io out.1.db.sockets j
          ≡ received_of p.socket_io s.db.sockets j
            ++ (if sees_alerts s.db.sockets j then map alert_event (flat told_by es) else [])

  -- Served one after another, the messages of any events leave exactly this. A message is
  -- acknowledged if its mail was taken, or if it asks for none, and else dropped. The mails sent p stores are
  -- those taken, in the events' order. Each mail refused leaves two rows of errors, under the mail's
  -- name and the consumer's, where the table takes them, and no other rows appear. A socket in the
  -- room of the administrators receives the low-stock alerts p stores whose mail was taken, in order, and a
  -- socket outside it receives nothing.
  pub serve_all-Notified :
      (es : List Event) (s : App (Desk p)) → Notified es s (serve_all p stores es s)
  serve_all-Notified es s =
      let grown : GrownBy es s (serve_all p stores es s) = serve_all-Grown es s in
      record {
        verdicts = grown.verdicts;
        mails = grown.mails;
        errors = grown.errors;
        received = λ j.
            ap (λ io. received_of p.socket_io io j) grown.sockets
            ∙ sockets-received j (flat told_by es) s.db.sockets;
      }

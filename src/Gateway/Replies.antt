-- ===== src/Gateway/Replies.antt =====
-- What the routes of accounts answer.
use advanced_node.Common.{Bool}
use advanced_node.Shared.Reply.{send_ok, send_created}
use advanced_node.Shared.AddErrorHelper.{ErrorEntry, App, lift}
use advanced_node.Shared.Catch.{respond, success}
use advanced_node.Shared.Consistent.{
  IsConsistent, decorate_reply-IsConsistent, respond-IsConsistent, plain-IsConsistent, sent,
  sent_parsed,
}
use advanced_node.Gateway.Parties.{Parties, State}
use advanced_node.Gateway.Auth
use advanced_node.Gateway.Routes
use advanced_node.Gateway.Routes.{
  Request, Content, handle, registered_reply, login_reply, refreshed_reply, linked_reply,
  redirect_reply, session, access,
}

module _ (p : Parties) (stores : ErrorEntry → Bool) where
  -- Whatever the request and whatever fails, each route of accounts answers with a redirect, or with
  -- a body that repeats the status of the reply and has a message.
  pub handle_auth-IsConsistent :
      (r : Request) (s : App (State p)) → IsConsistent (respond (handle p stores r) s).0
  unfolding handle Routes.register_route Routes.login_route Routes.refresh_route Routes.google_route
      Routes.callback_route
  handle_auth-IsConsistent (Routes.register drawn now parsed) s =
      respond-IsConsistent stores _ _ _ _ s (
        sent_parsed parsed (λ body. lift (Auth.register p drawn now body)) registered_reply s
          (λ r.
            decorate_reply-IsConsistent send_created
              (success "User registered successfully" (session r))))
  handle_auth-IsConsistent (Routes.log_in drawn now parsed) s =
      respond-IsConsistent stores _ _ _ _ s (
        sent_parsed parsed (λ body. lift (Auth.log_in p drawn now body.email body.password))
          login_reply s
          (λ r. decorate_reply-IsConsistent send_ok (success "Login successful" (session r))))
  handle_auth-IsConsistent (Routes.refresh now parsed) s = respond-IsConsistent stores _ _ _ _ s (
      sent_parsed parsed (λ token. lift (Auth.refresh p now token)) refreshed_reply s
        (λ a.
          decorate_reply-IsConsistent send_ok (success "Token refreshed successfully" (access a))))
  handle_auth-IsConsistent (Routes.google_start state now) s =
      plain-IsConsistent _ s
        (sent (lift (Auth.google_start p state now)) redirect_reply s (λ r. tt))
  handle_auth-IsConsistent (Routes.google_callback drawn now code state) s =
      plain-IsConsistent _ s (
        sent (lift (Auth.google_callback p drawn now code state)) linked_reply s
          (λ r. decorate_reply-IsConsistent send_ok (success "OAuth login successful" (session r))))

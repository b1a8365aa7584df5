-- ===== src/Websocket/AuthHandshake/SingleUse.antt =====
-- Redemptions of a ticket of app/websocket/auth_handshake.py.
use text.Mathlib.TextPositions.{eq_refl}
use realtime_notification_pl.Prelude.{
  ℕ, ◌<◌, String, ◌≡◌, ◌≢◌, ◌∙◌, ap, ◌+◌, Option, none, some, arith, ltb, if◌then◌else◌,
}
use realtime_notification_pl.Platform.{Platform}
use realtime_notification_pl.Keys.{ticket_key}
use realtime_notification_pl.World.{World, ok, calm, wait, command, ◌>>=◌}
use realtime_notification_pl.World.Keeps.{
  Stored, Outcome, Triple, Triple-pure, Triple-call, Triple-bind,
}
use realtime_notification_pl.Websocket.AuthHandshake.{
  WsTicketAuth, issue_ticket, user_of, redeem_ticket,
}

module _ ⦃p : Platform⦄ where
  -- With Redis answering, a ticket issued for a user is redeemed for that user until its positive
  -- lifetime has passed, and for nobody after that.
  pub redeem-issue :
      (self : WsTicketAuth) (ticket user_id : String) (n : ℕ) (w : World)
      → 0 < self.ttl_seconds
      → (redeem_ticket ticket (wait n (issue_ticket self ticket user_id (calm w)).1)).0
        ≡ ok (if ltb n self.ttl_seconds then some user_id else none)
  unfolding redeem_ticket issue_ticket ◌>>=◌
  redeem-issue self ticket user_id n w pos =
      simp (p.redis.peek-elapse, p.redis.peek-set_ex, eq_refl, pos) (ground arith)

  abbrev Anything : Stored
  Anything s db ses = Unit

  module _ (ticket : String) where
    abbrev Spent : Stored
    Spent s db ses = (d : ℕ) → p.redis.peek s d (ticket_key ticket) ≡ none

    abbrev Told : Option String → Stored
    Told user s db ses = user ≡ none

    redeem-Spent : Triple Anything Anything (λ _. Spent) (redeem_ticket ticket)
    unfolding redeem_ticket command
    redeem-Spent =
        Triple-bind Anything Anything (λ _. Spent) (λ _. Spent) _ _
          (Triple-call Anything Anything (λ _. Spent) _
            (λ w h d. simp (p.redis.peek-delete, eq_refl)) (λ w h. tt) (λ a w h. tt))
          (λ v. Triple-pure Anything Spent (λ _. Spent) (user_of v) (λ w h. h))

    redeem-Told : Triple Anything Spent Told (redeem_ticket ticket)
    unfolding redeem_ticket command
    redeem-Told =
        Triple-bind Anything Spent (λ v s db ses. v ≡ none) Told _ _
          (Triple-call Anything Spent (λ v s db ses. v ≡ none) _ (λ w h. h 0) (λ w h. tt)
            (λ a w h. tt))
          (λ v. Triple-pure Anything _ Told (user_of v) (λ w h. ap user_of h))

    -- When a redemption of a ticket was answered, whatever fails later, and however long one
    -- waits, the ticket is redeemed for nobody.
    pub redeem_twice :
        (u : Option String) (v : String) (n : ℕ) (w : World)
        → (redeem_ticket ticket w).0 ≡ ok u
        → (redeem_ticket ticket (wait n (redeem_ticket ticket w).1)).0 ≢ ok (some v)
    redeem_twice u v n w h again =
        let first : Outcome Anything (λ _. Spent) (ok u) (redeem_ticket ticket w).1 =
          rw h at (redeem-Spent.at w tt) in
        let w' = wait n (redeem_ticket ticket w).1 in
        let second : Outcome Anything Told (ok (some v)) (redeem_ticket ticket w').1 = rw again at (
          redeem-Told.at w' (λ d.
            p.redis.peek-elapse n (redeem_ticket ticket w).1.cache d (ticket_key ticket)
            ∙ first (n + d))) in
        cc second

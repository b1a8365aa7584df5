-- ===== src/Api/Notifications/Interleaving/Steps.antt =====
-- What one call of a handler adds to what is stored and published of a notification.
use realtime_notification_pl.Prelude.{
  ℕ, ◌+◌, ◌≤◌, String, ◌≡◌, refl, Bool, true, false, Option, none, some, List, [], ◌∷◌, ◌++◌, arith,
}
use realtime_notification_pl.Prelude.Lists.{count}
use realtime_notification_pl.Postgres.{Uuid, Notification, NewNotification}
use realtime_notification_pl.Platform.{Platform}
use realtime_notification_pl.World.{
  World, Result, ok, err, Action, Fault, answered, refused, lost, serve, call, ◌>>=◌,
}
use realtime_notification_pl.World.Keeps.{Outcome}
use realtime_notification_pl.World.Quiet.{Untold, Within}
use realtime_notification_pl.Pubsub.Publisher.{instance_channel, publish_to_instance}
use realtime_notification_pl.Api.Notifications.{Api, live_message}
use realtime_notification_pl.Api.Notifications.Stages.{
  Stage, arrived, unseen, stored, placing, checking, sending, sent, answered as done, failed, next,
  persisted, after_seen, after_flag, after_lookup, after_alive, persisted, send, advance,
}
use realtime_notification_pl.Api.Notifications.Interleaving.Ledger.{
  present, weight, count-append_one, is_notice, is_notice-live_message,
}
use realtime_notification_pl.Api.Notifications.Interleaving.Tables.{
  Done, has_seen-Untold, flag-Untold, lookup-Untold, is_alive-Untold, store-Published,
  record_delivery-Published, stored_lem, delivered_lem,
}

-- 1 for a handler that has stored the notification and may still publish it
abbrev pub pending : Uuid → Stage → ℕ
pending n (stored o) = weight n o
pending n (placing row) = weight n (some row)
pending n (checking row owner) = weight n (some row)
pending n (sending row owner) = weight n (some row)
pending n _ = 0

module _ ⦃p : Platform⦄ (n : Uuid) where
  open p use {postgres}

  abbrev pub notices : World → ℕ
  notices w = count (is_notice n) w.published

  abbrev pub rows : World → ℕ
  rows w = present n (postgres.notifications w.database)

  -- publishes and pending publishes grow by no more than the rows do
  abbrev pub Grows : ℕ → ℕ → World → World → Type 0
  Grows a b w w' = notices w' + b + rows w ≤ notices w + a + rows w'

  next-Grows :
      {A : Type 0} (a : ℕ) (f : A → Stage) (r : Result A) (w w' : World)
      → ((x : A) → Grows a (pending n (f x)) w w')
      → Grows a 0 w w'
      → Grows a (pending n (next f (r, w')).0) w (next f (r, w')).1
  next-Grows a f (ok x) w w' h k = h x
  next-Grows a f (err e) w w' h k = k

  -- a call that stores and publishes nothing
  quiet-Grows :
      {A : Type 0} (a : ℕ) (f : A → Stage) (m : Action A) (w : World)
      → Within Untold m
      → ((x : A) → pending n (f x) ≤ a)
      → Grows a (pending n (next f (m w)).0) w (next f (m w)).1
  quiet-Grows a f m w q small =
      let (told, kept) = q.at w in
      next-Grows a f (m w).0 w (m w).1 (λ x. rw (told, kept) (omega (arith, small x)))
        (rw (told, kept) (omega arith))

  -- from the facts on the tables and on the channels to both
  Outcome-Grows :
      {A : Type 0} (f : A → Stage) (r : Result A) (w w' : World)
      → w'.published ≡ w.published
      → Outcome (Done n w.database 0) (λ x. Done n w.database (pending n (f x))) r w'
      → Grows 0 (pending n (next f (r, w')).0) w (next f (r, w')).1
  Outcome-Grows f (ok x) w w' told h = rw told (omega (arith, h))
  Outcome-Grows f (err e) w w' told h = rw told (omega (arith, h))

  -- the message that goes out weighs what the row weighs
  module _ (body : NewNotification) (owner : String) (row : Notification) (now : ℕ) where
    abbrev sending_world : World → Unit {0} × World
    sending_world w = (
      tt,
      record w {
        published =
            w.published
            ++ (instance_channel owner, p.dumps (live_message row body.user_id now)) ∷ [];
      },
    )

    abbrev Told : World → World → Type 0
    Told w w' = (notices w' ≤ notices w + weight n (some row)) × (w'.database ≡ w.database)

    sent-Told : (w : World) → Told w (sending_world w).1
    sent-Told w =
        rw
          (
            count-append_one (is_notice n) w.published
                (instance_channel owner, p.dumps (live_message row body.user_id now)),
            is_notice-live_message n (instance_channel owner) row body.user_id now,
          )
          (omega arith, refl)

    serve-Told : (fs : List Fault) (w : World) → Told w (serve fs sending_world w).1
    serve-Told [] w = sent-Told w
    serve-Told (answered ∷ fs) w = sent-Told (record w { schedule = fs })
    serve-Told (refused ∷ fs) w = (omega arith, refl)
    serve-Told (lost ∷ fs) w = sent-Told (record w { schedule = fs })

    publish-Told :
        (w : World) → Told w (publish_to_instance owner (live_message row body.user_id now) w).1
    unfolding publish_to_instance call
    publish-Told w = serve-Told w.schedule w

  send-Grows :
      (body : NewNotification) (owner : String) (row : Notification) (w : World)
      → Grows
          (weight n (some row))
          (pending n (next (λ _. sent row) (send body row owner w)).0)
          w
          (next (λ _. sent row) (send body row owner w)).1
  unfolding send ◌>>=◌
  send-Grows body owner row w =
      let (few, kept) = publish-Told body owner row w.now w in
      next-Grows (weight n (some row)) (λ _. sent row) (send body row owner w).0 w
        (send body row owner w).1 (λ _. rw kept (omega (arith, few))) (rw kept (omega (arith, few)))

  after_seen_small : (body : NewNotification) (b : Bool) → pending n (after_seen body b) ≤ 0
  after_seen_small body true = omega arith
  after_seen_small body false = omega arith

  after_flag_small :
      (body : NewNotification) (o : Option Notification)
      → pending n (after_flag body o) ≤ weight n o
  after_flag_small body none = omega arith
  after_flag_small body (some row) = omega arith

  after_lookup_small :
      (body : NewNotification) (row : Notification) (o : Option String)
      → pending n (after_lookup body row o) ≤ weight n (some row)
  after_lookup_small body row none = omega arith
  after_lookup_small body row (some owner) = omega arith

  after_alive_small :
      (body : NewNotification) (row : Notification) (owner : String) (b : Bool)
      → pending n (after_alive body row owner b) ≤ weight n (some row)
  after_alive_small body row owner true = omega arith
  after_alive_small body row owner false = omega arith

  -- A call of a handler, whether it is answered or not, adds to the publishes, made and pending, no
  -- more than to the rows.
  pub advance-Grows :
      (self : Api) (body : NewNotification) (st : Stage) (w : World)
      → Grows (pending n st) (pending n (advance self body st w).0) w (advance self body st w).1
  unfolding advance
  advance-Grows self body arrived w =
      quiet-Grows 0 (after_seen body) _ w (has_seen-Untold body.notification_id)
        (after_seen_small body)
  advance-Grows self body unseen w =
      Outcome-Grows stored _ w _ ((store-Published body).at w)
        ((stored_lem n w.database body).at w refl)
  advance-Grows self body (stored o) w =
      quiet-Grows (weight n o) (λ _. after_flag body o) _ w (flag-Untold self body o)
        (λ _. after_flag_small body o)
  advance-Grows self body (placing row) w =
      quiet-Grows (weight n (some row)) (after_lookup body row) _ w
        (lookup-Untold (p.uuid_text body.user_id)) (after_lookup_small body row)
  advance-Grows self body (checking row owner) w =
      quiet-Grows (weight n (some row)) (after_alive body row owner) _ w (is_alive-Untold owner)
        (after_alive_small body row owner)
  advance-Grows self body (sending row owner) w = send-Grows body owner row w
  advance-Grows self body (sent row) w =
      Outcome-Grows (λ _. done (persisted body true)) _ w _ ((record_delivery-Published row).at w)
        ((delivered_lem n w.database row).at w refl)
  advance-Grows self body (done r) w = omega arith
  advance-Grows self body (failed e) w = omega arith

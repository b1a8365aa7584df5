-- ===== src/Websocket/MessageRouter/Acknowledged.antt =====
-- A read receipt that the router lets pass without an answer.
use realtime_notification_pl.Prelude.{
  ◌≡◌, ◌≢◌, refl, Bool, true, false, Option, none, some, inl, inr, Bool-cases, String, ℕ, List, [],
  ◌∷◌, map, arith, ==_iff, if◌then◌else◌,
}
use realtime_notification_pl.Prelude.Lists.{All}
use realtime_notification_pl.Json.{Json}
use realtime_notification_pl.Postgres.{Uuid, Notification}
use realtime_notification_pl.Platform.{Platform}
use realtime_notification_pl.World.{World, Result, ok, err, validation, Action, modify, ◌>>=◌}
use realtime_notification_pl.World.Keeps.{
  Stored, Outcome, Triple, Triple-pure, Triple-bind, Triple-weaken, Anything, any-Keeps,
}
use realtime_notification_pl.Db.Repository.{mark_read}
use realtime_notification_pl.Db.Repository.Reads.{
  NotOwned, is_users, mark_row, Start, Either, Told, mark_read-Told,
}
use realtime_notification_pl.Websocket.Messages.{read_receipt_message}
use realtime_notification_pl.Websocket.MessageRouter.{
  MessageRouter, count_receipt, on_read_receipt, acknowledge, on_receipt, dispatch, rescued, rescue,
  limited, route_dict, route,
}

-- the row is not the notification `n` of the user `u`, or it is read
abbrev pub IsRead : Uuid → Uuid → Notification → Type 0
IsRead n u row = row.notification_id ≡ n → row.user_id ≡ u → row.read_at ≢ none

mark_row-IsRead : (n u : Uuid) (t : ℕ) (row : Notification) → IsRead n u (mark_row n u t row)
mark_row-IsRead n u t row = elim (Bool-cases (is_users n u row)) [
  | inl e ↦ rw e (λ id user h. absurd (cc h))
  | inr e ↦
      rw e (λ id user h.
        ground (arith, e, id, user, ==_iff row.notification_id n, ==_iff row.user_id u))
]

marked-IsRead :
    (n u : Uuid) (t : ℕ) (rows : List Notification) → All (IsRead n u) (map (mark_row n u t) rows)
marked-IsRead n u t [] = tt
marked-IsRead n u t (row ∷ rows) = (mark_row-IsRead n u t row, marked-IsRead n u t rows)

NotOwned-IsRead : (n u : Uuid) (row : Notification) → NotOwned n u row → IsRead n u row
NotOwned-IsRead n u row (inl h) id user unread = h id
NotOwned-IsRead n u row (inr h) id user unread = h user

others-IsRead :
    (n u : Uuid) (rows : List Notification) → All (NotOwned n u) rows → All (IsRead n u) rows
others-IsRead n u [] h = tt
others-IsRead n u (row ∷ rows) h = (NotOwned-IsRead n u row h.0, others-IsRead n u rows h.1)

module _ ⦃p : Platform⦄ (n v : Uuid) where
  abbrev Read : Stored
  Read s db ses = All (IsRead n v) (p.postgres.notifications db)

  -- what the absence of an answer says
  abbrev Silent : Option Json → Stored
  Silent none = Read
  Silent (some answer) = Anything

  Told-Read :
      (t : ℕ) (d : p.postgres.State) (b : Bool) (w : World)
      → Told n v t d b w.cache w.database w.session
      → Read w.cache w.database w.session
  Told-Read t d true w h = rw (h.rows) (marked-IsRead n v t (p.postgres.notifications d))
  Told-Read t d false w h = rw (h.0.rows) (others-IsRead n v (p.postgres.notifications d) h.1)

  mark_read-Read :
      (t : ℕ) (d : p.postgres.State) → Triple Anything (Start d) (λ _. Read) (mark_read n v t)
  mark_read-Read t d =
      Triple-weaken (Either n v t d) Anything (Start d) (Told n v t d) (λ _. Read) _ (λ w h. tt)
        (λ b w h. Told-Read t d b w h) (mark_read-Told n v t d)

  count_receipt-Read : (b : Bool) → Triple Anything Read (λ _. Read) (count_receipt b)
  unfolding modify
  count_receipt-Read true = record { at = λ w h. h }
  count_receipt-Read false = Triple-pure Anything Read (λ _. Read) _ (λ w h. h)

  module _ (u : String) (same : p.uuid_parse u ≡ some v) where
    on_read_receipt-Read : (t : ℕ) → Triple Anything Anything (λ _. Read) (on_read_receipt n u t)
    unfolding on_read_receipt modify ◌>>=◌
    on_read_receipt-Read t = rw same (record {
      at = λ w h.
          (Triple-bind Anything (Start w.database) (λ _. Read) (λ _. Read) (mark_read n v t)
              count_receipt (mark_read-Read t w.database) count_receipt-Read).at
            (record w { session = w.database }) (refl, refl);
    })

    acknowledge-Silent : Triple Anything Anything Silent (acknowledge u (some n))
    acknowledge-Silent =
        Triple-bind Anything Anything (λ _. Anything) Silent _ _ (any-Keeps _)
          (λ now.
            Triple-bind Anything Anything (λ _. Read) Silent _ _ (on_read_receipt-Read now)
              (λ _. Triple-pure Anything Read Silent none (λ w h. h)))

    rescued-Silent :
        (r : Result (Option Json)) (w : World)
        → Outcome Anything Silent r w
        → Outcome Anything Silent (rescued r) w
    rescued-Silent (ok o) w h = h
    rescued-Silent (err validation) w h = tt
    rescued-Silent (err _) w h = tt

    rescue-Silent :
        (m : Action (Option Json))
        → Triple Anything Anything Silent m
        → Triple Anything Anything Silent (rescue m)
    rescue-Silent m k = record { at = λ w h. rescued-Silent (m w).0 (m w).1 (k.at w h) }

    limited-Silent : Triple Anything Anything Silent limited
    unfolding limited
    limited-Silent =
        Triple-bind Anything Anything (λ _. Anything) Silent _ _ (any-Keeps _)
          (λ _. Triple-pure Anything Anything Silent _ (λ w h. tt))

    turn-Silent :
        (b : Bool)
        → Triple Anything Anything Silent (if b then rescue (acknowledge u (some n)) else limited)
    turn-Silent true = rescue-Silent _ acknowledge-Silent
    turn-Silent false = limited-Silent

    route-Silent :
        (self : MessageRouter) (id : String)
        → Triple Anything Anything Silent (route self u id (read_receipt_message n))
    unfolding route route_dict dispatch on_receipt
    route-Silent self id =
        Triple-bind Anything Anything (λ _. Anything) Silent _ _ (any-Keeps _)
          (λ _.
            Triple-bind Anything Anything (λ _. Anything) Silent _ _ (any-Keeps _)
              (λ b. rw p.uuid_field-text (turn-Silent b)))

    silent :
        (r : Result (Option Json)) (w : World)
        → Outcome Anything Silent r w
        → r ≡ ok none
        → All (IsRead n v) (p.postgres.notifications w.database)
    silent (ok none) w h e = h
    silent (ok (some answer)) w h e = absurd (cc e)
    silent (err x) w h e = absurd (cc e)

  -- whatever calls fail, no committed row of the user with the receipt's id is unread
  pub route-IsRead :
      (self : MessageRouter) (u id : String) (w : World)
      → p.uuid_parse u ≡ some v
      → (route self u id (read_receipt_message n) w).0 ≡ ok none
      → All
          (IsRead n v)
          (p.postgres.notifications (route self u id (read_receipt_message n) w).1.database)
  route-IsRead self u id w same = silent u same _ _ ((route-Silent u same self id).at w tt)

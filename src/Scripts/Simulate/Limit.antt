-- ===== src/Scripts/Simulate/Limit.antt =====
-- scripts/simulate_notifications.py against the limit on the callers of the API.
use Prim.Native.Nat.{◌^◌, min}
use mathlib.Core.Path.{subst}
use realtime_notification_pl.Prelude.{
  ℕ, suc, ◌+◌, ◌-◌, ◌≤◌, ◌<◌, String, Bool, true, false, ◌≡◌, refl, sym, ap, ◌∙◌, Bool-cases, inl,
  inr, Option, some, List, [], ◌∷◌, arith, leb, if◌then◌else◌,
}
use realtime_notification_pl.Prelude.Lists.{length}
use realtime_notification_pl.Json.{str, obj}
use realtime_notification_pl.Postgres.{Uuid, NewNotification}
use realtime_notification_pl.Platform.{Platform}
use realtime_notification_pl.World.{World, Result, ok, err, http, calm, raise, wait, ◌>>=◌}
use realtime_notification_pl.World.Frame.{calm-eq}
use realtime_notification_pl.Core.RateLimiter.{RateLimiter, allow}
use realtime_notification_pl.Core.RateLimiter.Window.{
  IsOpen, IsFresh, sum, allow_first, allow_next, allow-calm, wait-IsOpen,
}
use realtime_notification_pl.Api.Notifications.{
  Api, caller_key, create_notification, when_allowed, unless_seen,
}
use realtime_notification_pl.Api.Notifications.Answered.{Returns, unless_seen-answered}
use realtime_notification_pl.Schemas.Notifications.{
  type_field, payload_field, model_validate, max_payload_bytes, post_notifications,
}
use realtime_notification_pl.Scripts.Simulate.{Run, index, payload, send_notifications}

module _ ⦃p : Platform⦄ where
  abbrev exhausted : Result Unit
  exhausted = err (http 429 "Rate limit exceeded for notification triggers from this caller")

  -- as many answers as there are turns or calls left, and the error of the limit for a turn too many
  abbrev Runs : ℕ → ℕ → Run → Type 0
  Runs turns left (printed, end, w) =
      (length printed ≡ min turns left) × (end ≡ (if leb turns left then ok tt else exhausted))

  module _ (self : Api) (client : Option String) (uuid4 : ℕ → Uuid) (user_id : Uuid)
      (notification_type : String)
      (typed : type_field (str notification_type) ≡ some notification_type) where
    -- the payload of a turn fits
    abbrev Fits : ℕ → Type 0
    Fits i = p.encoded_bytes (p.dumps (obj (index i))) ≤ max_payload_bytes

    abbrev made : ℕ → NewNotification
    made i = record {
      notification_id = uuid4 i;
      user_id = user_id;
      type = notification_type;
      payload = index i;
    }

    model_validate-payload :
        (i : ℕ)
        → Fits i
        → model_validate (payload (uuid4 i) (p.uuid_text user_id) notification_type i)
          ≡ some (made i)
    unfolding model_validate payload_field
    model_validate-payload i small =
        let fits : leb (p.encoded_bytes (p.dumps (obj (index i)))) max_payload_bytes ≡ true =
          ground (arith, small) in
        simp (p.uuid_field-text, typed, fits)

    post-allow :
        (i : ℕ) (w : World) (b : Bool)
        → Fits i
        → (allow self.api_rate_limiter (caller_key client) w).0 ≡ ok b
        → post_notifications self client
            (payload (uuid4 i) (p.uuid_text user_id) notification_type i)
            w
          ≡ when_allowed self (made i) b (allow self.api_rate_limiter (caller_key client) w).1
    unfolding post_notifications create_notification ◌>>=◌
    post-allow i w b small h = rw (model_validate-payload i small, h) refl

    abbrev send : ℕ → List ℕ → World → Run
    send = send_notifications self client uuid4 (p.uuid_text user_id) notification_type

    abbrev limiter : RateLimiter
    limiter = self.api_rate_limiter

    abbrev caller : String
    caller = caller_key client

    abbrev asked : World → Result Bool × World
    asked w = allow limiter caller w

    unless_seen-Returns :
        (i : ℕ) (w : World)
        → 0 < self.idempotency_guard.ttl_seconds
        → w.schedule ≡ []
        → Returns w (unless_seen self (made i) w)
    unless_seen-Returns i w pos answering =
        subst (λ fs. Returns w (unless_seen self (made i) (record w { schedule = fs })))
          (sym answering) (unless_seen-answered self (made i) w pos)

    -- a turn that is granted leaves the window as the limiter left it
    send-granted :
        (i gap n left room : ℕ) (gaps : List ℕ) (w : World)
        → Fits i
        → 0 < self.idempotency_guard.ttl_seconds
        → (asked (wait gap w)).0 ≡ ok true
        → (asked (wait gap w)).1.schedule ≡ []
        → IsOpen (asked (wait gap w)).1 caller n left
        → 0 < room
        → ((w' : World)
            → IsOpen w' caller n left
            → Runs (length gaps) (room - 1) (send (suc i) gaps (calm w')))
        → Runs (suc (length gaps)) room (send i (gap ∷ gaps) w)
    unfolding send_notifications
    send-granted i gap n left room gaps w small pos granted answering h some_left rest =
        let w1 = (asked (wait gap w)).1 in
        let (r, returned, kept) = unless_seen-Returns i w1 pos answering in
        let w2 = (unless_seen self (made i) w1).1 in
        let going : Runs (length gaps) (room - 1) (send (suc i) gaps w2) =
          subst (λ v. Runs (length gaps) (room - 1) (send (suc i) gaps v))
            (calm-eq w2 kept.answering) (rest w2 (λ d. kept.windows d caller ∙ h d)) in
        let one_less : leb (suc (length gaps)) room ≡ leb (length gaps) (room - 1) =
          ground (arith, some_left) in
        rw (post-allow i (wait gap w) true small granted, returned, one_less) (omega arith, going.1)

    -- a turn after `n` calls of the window: one that the limiter refuses ends the script
    send-turn :
        (i gap n left room : ℕ) (gaps : List ℕ) (w : World)
        → Fits i
        → 0 < self.idempotency_guard.ttl_seconds
        → (asked (wait gap w)).0 ≡ ok (leb (suc n) limiter.limit)
        → (asked (wait gap w)).1.schedule ≡ []
        → IsOpen (asked (wait gap w)).1 caller (suc n) left
        → room ≡ limiter.limit - n
        → (0 < room
            → (w' : World) → IsOpen w' caller (suc n) left
            → Runs (length gaps) (room - 1) (send (suc i) gaps (calm w')))
        → Runs (suc (length gaps)) room (send i (gap ∷ gaps) w)
    unfolding send_notifications raise
    send-turn i gap n left room gaps w small pos answered answering h rooms rest =
        elim (Bool-cases (leb (suc n) limiter.limit)) [
          | inl more ↦
              let some_left : 0 < room = ground (arith, more, rooms) in
              send-granted i gap (suc n) left room gaps w small pos (answered ∙ ap ok more)
                answering h some_left (rest some_left)
          | inr full ↦
              let none_left : room ≡ 0 = ground (arith, full, rooms) in
              let over : leb (suc (length gaps)) room ≡ false = ground (arith, none_left) in
              rw (post-allow i (wait gap w) false small (answered ∙ ap ok full), over)
                (omega arith, refl)
        ]

    -- from the second turn on
    send-Runs :
        (gaps : List ℕ) (i : ℕ) (w : World) (n left room : ℕ)
        → ((j : ℕ) → i ≤ j → j < i + length gaps → Fits j)
        → 0 < self.idempotency_guard.ttl_seconds
        → sum gaps < left
        → suc n + length gaps < 2 ^ 63
        → IsOpen w caller (suc n) left
        → room ≡ limiter.limit - suc n
        → Runs (length gaps) room (send i gaps (calm w))
    unfolding send_notifications
    send-Runs [] i w n left room small pos lt few h rooms = (omega arith, ground arith)
    send-Runs (gap ∷ gaps) i w n left room small pos lt few h rooms =
        let waited = wait-IsOpen limiter caller w gap (suc n) left (omega arith) h in
        let (answered, still) =
          allow_next limiter caller (wait gap w) n (left - gap) (omega arith) (omega arith)
            waited in
        send-turn i gap (suc n) (left - gap) room gaps (calm w)
          (small i (omega arith) (omega arith)) pos answered
          (allow-calm limiter caller (wait gap w)) still rooms
          (λ some_left w' opened.
            send-Runs gaps (suc i) w' (suc n) (left - gap) (room - 1)
              (λ j le lt. small j (omega arith) (omega arith)) pos (omega arith) (omega arith)
              opened (omega (arith, rooms)))

    -- While every call is answered, a batch whose posts fall into one window of a caller that has no
    -- open one, fewer than 2 ^ 63, with a valid type and with payloads that fit, is printed up to the
    -- limit of the API; the script ends well exactly if the batch is no larger, and on the limiter's
    -- 429 otherwise.
    pub send_notifications-limit :
        (gap : ℕ) (gaps : List ℕ) (w : World)
        → ((i : ℕ) → i < suc (length gaps) → Fits i)
        → 0 < self.idempotency_guard.ttl_seconds
        → IsFresh (wait gap w) caller
        → sum gaps < limiter.window_seconds
        → suc (length gaps) < 2 ^ 63
        → Runs (suc (length gaps)) limiter.limit (
            send_notifications self client uuid4
              (p.uuid_text user_id)
              notification_type
              0
              (gap ∷ gaps)
              (calm w))
    send_notifications-limit gap gaps w small pos fresh lt few =
        let (answered, opened) = allow_first limiter caller (wait gap w) (omega arith) fresh in
        send-turn 0 gap 0 limiter.window_seconds limiter.limit gaps (calm w) (small 0 (omega arith))
          pos answered (allow-calm limiter caller (wait gap w)) opened (omega arith)
          (λ some_left w' opened'.
            send-Runs gaps 1 w' 0 limiter.window_seconds (limiter.limit - 1)
              (λ j le lt. small j (omega arith)) pos lt (omega arith) opened' refl)

-- ===== src/Api/Notifications/Interleaving/Ledger.antt =====
-- What is stored and what is published of one notification.
use text.Mathlib.TextPositions.{eq_refl}
use realtime_notification_pl.Prelude.{
  ℕ, ◌+◌, ◌≤◌, String, ◌≡◌, sym, ◌∙◌, Bool, true, false, Option, none, some, inl, inr, List, [],
  ◌∷◌, ◌++◌, arith, ◌==◌, ==_iff, str_eq, if◌then◌else◌, Bool-cases,
}
use realtime_notification_pl.Prelude.Lists.{count}
use realtime_notification_pl.Json.{Json, str, obj, get}
use realtime_notification_pl.Postgres.{Uuid, Notification, NewNotification, has_id, Postgres}
use realtime_notification_pl.Platform.{Platform, uuid_text-injective}
use realtime_notification_pl.Keys.Distinct.{eq_false}
use realtime_notification_pl.Api.Notifications.{live_message}

has_id-append_one :
    (n : Uuid) (xs : List Notification) (y : Notification)
    → has_id n (xs ++ y ∷ []) ≡ (if y.notification_id == n then true else has_id n xs)
has_id-append_one n [] y = ground arith
has_id-append_one n (x ∷ xs) y = ground (arith, has_id-append_one n xs y)

-- 1 if a row has the id
abbrev pub present : Uuid → List Notification → ℕ
present n rows = if has_id n rows then 1 else 0

abbrev pub weight : Uuid → Option Notification → ℕ
weight n none = 0
weight n (some row) = if row.notification_id == n then 1 else 0

-- An INSERT that returns a row makes it present.
pub insert-present :
    (db : Postgres) (n : Uuid) (v : NewNotification) (s : db.State)
    → weight n (db.insert v s).0 + present n (db.notifications s)
      ≤ present n (db.notifications (db.insert v s).1)
insert-present db n v s = elim (Bool-cases (has_id v.notification_id (db.notifications s))) [
  | inl old ↦ let (refused, same) = db.insert_conflict v s old in rw (refused, same) (omega arith)
  | inr new ↦
      let (made, rows) = db.insert_fresh v s new in
      rw (made, rows, has_id-append_one n (db.notifications s) (db.new_row v s))
        (let same = (db.new_row_values v s).0 in
          elim (Bool-cases ((db.new_row v s).notification_id == n)) [
            | inl e ↦
                let this : v.notification_id ≡ n = sym same ∙ (==_iff _ n).0 e in
                rw (e, rw this at new) (omega arith)
            | inr e ↦ rw e (omega arith)
          ])
]

pub count-append_one {ℓ} :
    {A : Type ℓ} (q : A → Bool) (xs : List A) (x : A)
    → count q (xs ++ x ∷ []) ≡ count q xs + (if q x then 1 else 0)
count-append_one q [] x = ground arith
count-append_one q (y ∷ ys) x = ground (arith, count-append_one q ys x)

module _ ⦃p : Platform⦄ where
  -- the id in a message on a channel
  abbrev named : Option Json → Option Json
  named (some (obj f)) = get "notification_id" f
  named _ = none

  abbrev inner : Option Json → Option Json
  inner (some (obj f)) = get "notification" f
  inner _ = none

  abbrev is_text : Uuid → Option Json → Bool
  is_text n (some (str s)) = str_eq s (p.uuid_text n)
  is_text n _ = false

  -- a message that carries the notification
  abbrev pub is_notice : Uuid → String × p.Wire → Bool
  is_notice n (channel, wire) = is_text n (named (inner (p.loads wire)))

  text_eq : (a b : Uuid) → str_eq (p.uuid_text a) (p.uuid_text b) ≡ (a == b)
  text_eq a b = elim (Bool-cases (a == b)) [
    | inl e ↦ rw (e, (==_iff a b).0 e) (eq_refl (p.uuid_text b))
    | inr e ↦ rw e (
        eq_false _ _
          (λ same. let h : (a == b) ≡ true = (==_iff a b).1 (uuid_text-injective p a b same) in cc))
  ]

  pub is_notice-live_message :
      (n : Uuid) (channel : String) (row : Notification) (u : Uuid) (now : ℕ)
      → is_notice n (channel, p.dumps (live_message row u now)) ≡ (row.notification_id == n)
  is_notice-live_message n channel row u now =
      rw (p.loads-dumps (live_message row u now)) (text_eq row.notification_id n)

-- ===== src/Api/Notifications/Carried.antt =====
-- A row that carries what a caller of POST /notifications sent.
use mathlib.Core.List.{Mem, mem-map_of_mem}
use realtime_notification_pl.Prelude.{
  ◌≡◌, Bool, none, inl, inr, List, map, Bool-cases, if◌then◌else◌,
}
use realtime_notification_pl.Postgres.{Notification, NewNotification}
use realtime_notification_pl.Platform.{Platform}
use realtime_notification_pl.Db.Repository.{set_delivered}

-- an unread row of what the caller sent
pub record Carries (body : NewNotification) (row : Notification) : Type 0 where
  pub notification_id : row.notification_id ≡ body.notification_id
  pub user_id : row.user_id ≡ body.user_id
  pub type : row.type ≡ body.type
  pub payload : row.payload ≡ body.payload
  pub unread : row.read_at ≡ none

abbrev pub IsStoredIn : NewNotification → List Notification → Type 0
IsStoredIn body rows = (row : Notification) × Mem row rows × Carries body row

delivered-Carries :
    (body : NewNotification) (q : Notification → Bool) (row : Notification)
    → Carries body row
    → Carries body (if q row then set_delivered row else row)
delivered-Carries body q row h = elim (Bool-cases (q row)) [
  | inl e ↦ rw e (record {
    notification_id = h.notification_id;
    user_id = h.user_id;
    type = h.type;
    payload = h.payload;
    unread = h.unread;
  })
  | inr e ↦ rw e h
]

pub delivered-IsStoredIn :
    (body : NewNotification) (q : Notification → Bool) (xs : List Notification)
    → IsStoredIn body xs
    → IsStoredIn body (map (λ r. if q r then set_delivered r else r) xs)
delivered-IsStoredIn body q xs (row, there, carries) = (
  if q row then set_delivered row else row,
  mem-map_of_mem (λ r. if q r then set_delivered r else r) there,
  delivered-Carries body q row carries,
)

module _ ⦃p : Platform⦄ where
  pub new_row-Carries :
      (body : NewNotification) (s : p.postgres.State) → Carries body (p.postgres.new_row body s)
  new_row-Carries body s =
      let (id, user, type, payload, _, unread) = p.postgres.new_row_values body s in
      record {
        notification_id = id;
        user_id = user;
        type = type;
        payload = payload;
        unread = unread;
      }

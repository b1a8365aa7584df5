-- ===== src/Presence/Manager.antt =====
-- app/presence/presence_manager.py, and GET /presence/{user_id} of app/api/routes/presence.py
use realtime_notification_pl.Prelude.{ℕ, String, Option, str_eq, if◌then◌else◌}
use realtime_notification_pl.Platform.{Platform}
use realtime_notification_pl.World.{Action, value, pure, raise, ◌>>=◌}
use realtime_notification_pl.Presence.Store.{
  set_online, set_away, refresh, clear, get_status, get_last_seen,
}

pub data PresenceStatus : Type 0 where
  online away offline : PresenceStatus

pub record PresenceInfo : Type 0 where
  pub user_id : String
  pub status : PresenceStatus
  pub last_seen : Option ℕ

pub record PresenceManager : Type 0 where
  pub ttl_seconds : ℕ

-- the value of the Enum's member
abbrev pub status_value : PresenceStatus → String
status_value online = "online"
status_value away = "away"
status_value offline = "offline"

module _ ⦃p : Platform⦄ where
  unfoldable pub mark_online : PresenceManager → String → Action Unit
  unfolding set_online
  mark_online self user_id = set_online user_id self.ttl_seconds

  unfoldable pub mark_away : PresenceManager → String → Action Unit
  unfolding set_away
  mark_away self user_id = set_away user_id self.ttl_seconds

  unfoldable pub heartbeat : PresenceManager → String → Action Unit
  unfolding refresh
  heartbeat self user_id = refresh user_id self.ttl_seconds

  unfoldable pub mark_offline : String → Action Unit
  unfolding clear
  mark_offline user_id = clear user_id

  -- `PresenceStatus(status)`
  abbrev pub to_status : String → Action PresenceStatus
  to_status s =
      if str_eq s "online"
      then pure online
      else if str_eq s "away"
      then pure away
      else if str_eq s "offline"
      then pure offline
      else raise value

  unfoldable pub get : String → Action PresenceInfo
  get user_id = do
    raw ← get_status user_id
    seen ← get_last_seen user_id
    status ← to_status raw
    pure (record { user_id = user_id; status = status; last_seen = seen })

  -- the route, with the fields of `PresenceRead`
  unfoldable pub get_presence :
      String → Action (record { user_id : String; status : String; last_seen : Option ℕ })
  unfolding get
  get_presence user_id = do
    info ← get user_id
    pure (record {
      user_id = info.user_id;
      status = status_value info.status;
      last_seen = info.last_seen;
    })

-- ===== src/Presence/Machine.antt =====
-- The presence of one user as a state machine (the docstring of PresenceManager), and the store
-- under its key as an implementation of it.
use text.Mathlib.TextPositions.{eq_refl}
use realtime_notification_pl.Prelude.{
  ℕ, ◌+◌, ◌-◌, ◌<◌, String, ◌≡◌, refl, Option, none, some, List, [], ◌∷◌, arith, ltb, if◌then◌else◌,
}
use realtime_notification_pl.Redis.{Value, plain}
use realtime_notification_pl.Platform.{Platform}
use realtime_notification_pl.Keys.{presence_key, last_seen_key}
use realtime_notification_pl.Keys.Distinct.{keys}
use realtime_notification_pl.World.{World, Action, ok, calm, wait, modify, pure, ◌>>=◌}
use realtime_notification_pl.Presence.Store.{status_of, last_seen_of, get_status, get_last_seen}
use realtime_notification_pl.Presence.Manager.{
  PresenceStatus, PresenceManager, PresenceInfo, status_value, mark_online, mark_away, heartbeat,
  mark_offline, to_status, get,
}

pub data Liveness : Type 0 where
  gone : Liveness
  -- connected or away, with the seconds that are left
  present : PresenceStatus → ℕ → Liveness

pub record Machine : Type 0 where
  pub liveness : Liveness
  pub last_seen : Option ℕ
  pub now : ℕ

pub data Event : Type 0 where
  go_online go_away beat leave : Event
  pass : ℕ → Event

abbrev renewed : ℕ → Liveness → Liveness
renewed ttl gone = gone
renewed ttl (present s left) = present s ttl

abbrev aged : ℕ → Liveness → Liveness
aged n gone = gone
aged n (present s left) = if ltb n left then present s (left - n) else gone

-- Only `go_online` and `go_away` bring a user back; a heartbeat renews what is there.
abbrev pub step : ℕ → Event → Machine → Machine
step ttl go_online m = record m {
  liveness = present PresenceStatus.online ttl;
  last_seen = some m.now;
}
step ttl go_away m = record m { liveness = present PresenceStatus.away ttl; last_seen = some m.now }
step ttl beat m = record m { liveness = renewed ttl m.liveness; last_seen = some m.now }
step ttl leave m = record m { liveness = gone }
step ttl (pass n) m = record m { liveness = aged n m.liveness; now = m.now + n }

abbrev pub run : ℕ → List Event → Machine → Machine
run ttl [] m = m
run ttl (e ∷ es) m = run ttl es (step ttl e m)

abbrev pub status : Liveness → PresenceStatus
status gone = PresenceStatus.offline
status (present s left) = s

-- a user that is there is online or away, and has time left
abbrev pub IsLive : Liveness → Type 0
IsLive gone = Unit
IsLive (present PresenceStatus.offline left) = ⊥
IsLive (present _ left) = 0 < left

-- what is under the key `d` seconds from now
abbrev pub shown : Liveness → ℕ → Option Value
shown gone d = none
shown (present s left) d = if ltb d left then some (plain (status_value s)) else none

renewed-IsLive : (ttl : ℕ) (l : Liveness) → 0 < ttl → IsLive l → IsLive (renewed ttl l)
renewed-IsLive ttl gone pos h = tt
renewed-IsLive ttl (present PresenceStatus.online left) pos h = pos
renewed-IsLive ttl (present PresenceStatus.away left) pos h = pos
renewed-IsLive ttl (present PresenceStatus.offline left) pos h = h

shown-renewed :
    (ttl d : ℕ) (l : Liveness)
    → IsLive l
    → (if ltb d ttl then shown l 0 else none) ≡ shown (renewed ttl l) d
shown-renewed ttl d gone h = ground arith
shown-renewed ttl d (present PresenceStatus.online left) h = ground arith
shown-renewed ttl d (present PresenceStatus.away left) h = ground arith
shown-renewed ttl d (present PresenceStatus.offline left) h = absurd h

aged-IsLive : (n : ℕ) (l : Liveness) → IsLive l → IsLive (aged n l)
aged-IsLive n gone h = tt
aged-IsLive n (present PresenceStatus.online left) h = ground arith
aged-IsLive n (present PresenceStatus.away left) h = ground arith
aged-IsLive n (present PresenceStatus.offline left) h = absurd h

shown-aged : (n d : ℕ) (l : Liveness) → shown l (n + d) ≡ shown (aged n l) d
shown-aged n d gone = refl
shown-aged n d (present s left) = ground arith

module _ ⦃p : Platform⦄ where
  abbrev pub perform : PresenceManager → String → Event → Action Unit
  perform self u go_online = mark_online self u
  perform self u go_away = mark_away self u
  perform self u beat = heartbeat self u
  perform self u leave = mark_offline u
  perform self u (pass n) = modify (wait n)

  abbrev pub play : PresenceManager → String → List Event → World → World
  play self u [] w = w
  play self u (e ∷ es) w = play self u es (perform self u e (calm w)).1

  abbrev pub seen_text : Option ℕ → Option Value
  seen_text none = none
  seen_text (some t) = some (plain (p.isoformat t))

  pub record Shows (u : String) (m : Machine) (w : World) : Type 0 where
    pub live : IsLive m.liveness
    pub key : (d : ℕ) → p.redis.peek w.cache d (presence_key u) ≡ shown m.liveness d
    pub seen : (d : ℕ) → p.redis.peek w.cache d (last_seen_key u) ≡ seen_text m.last_seen
    pub clock : w.now ≡ m.now

  module _ (self : PresenceManager) (u : String) (pos : 0 < self.ttl_seconds) where
    step-Shows :
        (e : Event) (m : Machine) (w : World)
        → Shows u m w
        → Shows u (step self.ttl_seconds e m) (perform self u e (calm w)).1
    unfolding mark_online mark_away heartbeat mark_offline ◌>>=◌
    step-Shows go_online m w h = record {
      live = pos;
      key = λ d. simp (p.redis.peek-set, p.redis.peek-set_ex, keys, eq_refl, pos);
      seen = λ d. simp (p.redis.peek-set, eq_refl, h.clock);
      clock = h.clock;
    }
    step-Shows go_away m w h = record {
      live = pos;
      key = λ d. simp (p.redis.peek-set, p.redis.peek-set_ex, keys, eq_refl, pos);
      seen = λ d. simp (p.redis.peek-set, eq_refl, h.clock);
      clock = h.clock;
    }
    step-Shows beat m w h = record {
      live = renewed-IsLive self.ttl_seconds m.liveness pos h.live;
      key = λ d.
          simp (p.redis.peek-set, p.redis.peek-expire, keys, eq_refl, pos, h.key)
            (shown-renewed self.ttl_seconds d m.liveness h.live);
      seen = λ d. simp (p.redis.peek-set, eq_refl, h.clock);
      clock = h.clock;
    }
    step-Shows leave m w h = record {
      live = tt;
      key = λ d. simp (p.redis.peek-delete, eq_refl);
      seen = λ d. simp (p.redis.peek-delete, keys) (h.seen d);
      clock = h.clock;
    }
    step-Shows (pass n) m w h = record {
      live = aged-IsLive n m.liveness h.live;
      key = λ d. simp (p.redis.peek-elapse, h.key) (shown-aged n d m.liveness);
      seen = λ d. simp (p.redis.peek-elapse) (h.seen (n + d));
      clock = rw h.clock;
    }

    play-Shows :
        (es : List Event) (m : Machine) (w : World)
        → Shows u m w
        → Shows u (run self.ttl_seconds es m) (play self u es w)
    play-Shows [] m w h = h
    play-Shows (e ∷ es) m w h =
        play-Shows es (step self.ttl_seconds e m) (perform self u e (calm w)).1 (step-Shows e m w h)

  -- what GET /presence/{user_id} answers
  abbrev pub info : String → Machine → PresenceInfo
  info u m = record { user_id = u; status = status m.liveness; last_seen = m.last_seen }

  shown_status : (l : Liveness) → IsLive l → status_of (shown l 0) ≡ status_value (status l)
  shown_status gone h = refl
  shown_status (present PresenceStatus.online left) h = ground arith
  shown_status (present PresenceStatus.away left) h = ground arith
  shown_status (present PresenceStatus.offline left) h = absurd h

  get_status-Shows :
      (u : String) (m : Machine) (w : World)
      → Shows u m w
      → get_status u (calm w) ≡ (ok (status_value (status m.liveness)), calm w)
  unfolding get_status ◌>>=◌
  get_status-Shows u m w h = rw (h.key 0, shown_status m.liveness h.live)

  last_seen-parses : (t : Option ℕ) (w : World) → last_seen_of (seen_text t) w ≡ (ok t, w)
  unfolding pure
  last_seen-parses none w = refl
  last_seen-parses (some t) w = rw p.fromisoformat-isoformat

  get_last_seen-Shows :
      (u : String) (m : Machine) (w : World)
      → Shows u m w
      → get_last_seen u (calm w) ≡ (ok m.last_seen, calm w)
  unfolding get_last_seen ◌>>=◌
  get_last_seen-Shows u m w h = rw (h.seen 0) (last_seen-parses m.last_seen (calm w))

  to_status-status_value :
      (s : PresenceStatus) (w : World) → to_status (status_value s) w ≡ (ok s, w)
  unfolding pure
  to_status-status_value PresenceStatus.online w = refl
  to_status-status_value PresenceStatus.away w = refl
  to_status-status_value PresenceStatus.offline w = refl

  get-Shows :
      (u : String) (m : Machine) (w : World) → Shows u m w → (get u (calm w)).0 ≡ ok (info u m)
  unfolding get ◌>>=◌
  get-Shows u m w h = rw (
    get_status-Shows u m w h,
    get_last_seen-Shows u m w h,
    to_status-status_value (status m.liveness) (calm w),
  )

  -- If the entries of a user show the machine, then after any sequence of events of the user, with
  -- Redis answering, the presence that is read is that of the machine. The lifetime of an entry is
  -- positive.
  pub play-get :
      (self : PresenceManager) (u : String) (es : List Event) (m : Machine) (w : World)
      → 0 < self.ttl_seconds
      → Shows u m w
      → (get u (calm (play self u es w))).0 ≡ ok (info u (run self.ttl_seconds es m))
  play-get self u es m w pos h =
      get-Shows u (run self.ttl_seconds es m) (play self u es w) (play-Shows self u pos es m w h)

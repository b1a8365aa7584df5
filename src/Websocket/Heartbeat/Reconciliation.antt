-- ===== src/Websocket/Heartbeat/Reconciliation.antt =====
-- The reconciliation loop of app/websocket/heartbeat.py.
use text.Mathlib.TextPositions.{eq_refl}
use mathlib.Core.List.{append_assoc, append-nil}
use realtime_notification_pl.Prelude.{
  ℕ, zero, suc, ◌+◌, ◌≤◌, String, ◌≡◌, refl, sym, ap, ◌∙◌, true, false, ◌≢◌, ◌⊎◌, Option, none,
  some, inl, inr, List, [], ◌∷◌, ◌++◌, map, arith, str_eq, eq_iff, eq_iff, Bool-cases,
}
use realtime_notification_pl.Prelude.Lists.{count, filter}
use realtime_notification_pl.Prelude.Dict.{keys, listed, listed-keys}
use realtime_notification_pl.Platform.{Platform}
use realtime_notification_pl.Keys.{registry_key}
use realtime_notification_pl.World.{World, ok, calm, wait, ◌>>=◌}
use realtime_notification_pl.Pubsub.InstanceRegistry.{owner_of, lookup as owner}
use realtime_notification_pl.Websocket.ConnectionManager.{is_connected, connected_user_ids}
use realtime_notification_pl.Websocket.Heartbeat.{
  ReconciliationLoop, drifts, reconcile_each, reconcile, passes,
}
use realtime_notification_pl.Websocket.Heartbeat.Expiry.{IsLost}

drifts-true : (instance : String) (o : Option String) → drifts instance o ≡ true → o ≢ some instance
drifts-true instance none h e = cc e
drifts-true instance (some owner) h e =
    ground (arith, h, e, eq_iff owner instance, eq_refl instance)

drifts-false :
    (instance : String) (o : Option String) → drifts instance o ≡ false → o ≡ some instance
drifts-false instance none h = absurd (cc h)
drifts-false instance (some owner) h = ap some ((eq_iff owner instance).0 (ground (arith, h)))

module _ ⦃p : Platform⦄ where
  -- the owner that Redis names at the moment
  abbrev pub owner_now : World → String → Option String
  owner_now w u = owner_of (p.redis.peek w.cache 0 (registry_key u))

  -- the users whose owner is not the instance
  abbrev pub drift : String → World → List String → List (String × Option String)
  drift instance w us = filter (λ x. drifts instance x.1) (map (λ u. (u, owner_now w u)) us)

  -- with this log
  abbrev pub logged : List (String × Option String) → World → World
  logged xs w = record w { process = record (w.process) { drift_warnings = xs } }

  reconcile_each_lem :
      (instance : String) (us : List String) (w : World)
      → reconcile_each instance us (calm w)
        ≡ (ok tt, logged (w.process.drift_warnings ++ drift instance w us) (calm w))
  unfolding reconcile_each owner ◌>>=◌
  reconcile_each_lem instance [] w =
      ap (λ xs. (ok tt, logged xs (calm w))) (sym (append-nil w.process.drift_warnings))
  reconcile_each_lem instance (u ∷ us) w = elim (Bool-cases (drifts instance (owner_now w u))) [
    | inl e ↦
        let before = w.process.drift_warnings in
        rw e (
          reconcile_each_lem instance us (logged (before ++ (u, owner_now w u) ∷ []) w)
          ∙ ap (λ xs. (ok tt, logged xs (calm w)))
              (append_assoc before ((u, owner_now w u) ∷ []) (drift instance w us)))
    | inr e ↦ rw e (reconcile_each_lem instance us w)
  ]

  reconcile_lem :
      (instance : String) (w : World)
      → reconcile instance (calm w) ≡ (
        ok tt,
        logged (w.process.drift_warnings ++ drift instance w (keys w.connections)) (calm w),
      )
  unfolding reconcile connected_user_ids ◌>>=◌
  reconcile_lem instance w = reconcile_each_lem instance (keys w.connections) w

  -- what is to be reported of a list of users: a user whom Redis names the instance for is left out,
  -- and every other one is reported with the owner that was found, in the order of the list
  abbrev pub Reports : String → World → List String → List (String × Option String) → Type 0
  Reports instance w [] xs = xs ≡ []
  Reports instance w (u ∷ us) xs =
      ((owner_now w u ≡ some instance) × Reports instance w us xs)
      ⊎ ((owner_now w u ≢ some instance)
          × (rest : List (String × Option String)) × (xs ≡ (u, owner_now w u) ∷ rest)
          × Reports instance w us rest)

  drift-Reports :
      (instance : String) (w : World) (us : List String)
      → Reports instance w us (drift instance w us)
  drift-Reports instance w [] = refl
  drift-Reports instance w (u ∷ us) = elim (Bool-cases (drifts instance (owner_now w u))) [
    | inl e ↦ inr (
      drifts-true instance (owner_now w u) e,
      drift instance w us,
      rw e refl,
      drift-Reports instance w us,
    )
    | inr e ↦ inl (drifts-false instance (owner_now w u) e, rw e (drift-Reports instance w us))
  ]

  -- With Redis answering, a reconciliation pass logs the users that are connected here and for whom
  -- Redis does not name this instance, with the owner that was found, in the order of their
  -- connections, and no others; it changes nothing else.
  pub reconcile-Reports :
      (instance : String) (w : World)
      → (xs : List (String × Option String)) × (reconcile instance (calm w)
          ≡ (ok tt, logged (w.process.drift_warnings ++ xs) (calm w)))
        × Reports instance w (keys w.connections) xs
  reconcile-Reports instance w = (
    drift instance w (keys w.connections),
    reconcile_lem instance w,
    drift-Reports instance w (keys w.connections),
  )

  -- the warnings about one user
  abbrev pub warnings : String → List (String × Option String) → ℕ
  warnings u = count (λ x. str_eq x.0 u)

  warnings-append :
      (u : String) (xs ys : List (String × Option String))
      → warnings u (xs ++ ys) ≡ warnings u xs + warnings u ys
  warnings-append u [] ys = omega arith
  warnings-append u (x ∷ xs) ys = ground (arith, warnings-append u xs ys)

  -- a user without an entry drifts, wherever it is listed
  warnings-drift :
      (u instance : String) (w : World) (us : List String)
      → owner_now w u ≡ none
      → listed u us ≡ true
      → 1 ≤ warnings u (drift instance w us)
  warnings-drift u instance w [] h there = cc there
  warnings-drift u instance w (v ∷ us) h there = elim (Bool-cases (str_eq v u)) [
    | inl e ↦ rw ((eq_iff v u).0 e) (rw h (rw (eq_refl u) (omega arith)))
    | inr e ↦
        let rest = warnings-drift u instance w us h (rw e at there) in
        elim (Bool-cases (drifts instance (owner_now w v))) [
          | inl d ↦ rw (d, e) rest
          | inr d ↦ rw d rest
        ]
  ]

  wait-IsLost : (u : String) (n : ℕ) (w : World) → IsLost u w → IsLost u (wait n w)
  wait-IsLost u n w h = record {
    presence = λ d. rw p.redis.peek-elapse (h.presence (n + d));
    owner = λ d. rw p.redis.peek-elapse (h.owner (n + d));
  }

  -- With Redis answering, each pass warns of a connected user whose entries have expired, and none
  -- repairs it: after any number of passes the user is still offline and unowned.
  pub passes_only_warn :
      (self : ReconciliationLoop) (n : ℕ) (u : String) (w : World)
      → IsLost u w
      → is_connected u w ≡ true
      → let w' = (passes self n (calm w)).1 in
        IsLost u w'
        × (n + warnings u w.process.drift_warnings ≤ warnings u w'.process.drift_warnings)
  unfolding passes is_connected ◌>>=◌
  passes_only_warn self zero u w h there =
      (record { presence = h.presence; owner = h.owner }, omega arith)
  passes_only_warn self (suc n) u w h there =
      let w1 = wait self.interval_seconds w in
      let lost = wait-IsLost u self.interval_seconds w h in
      let log = w.process.drift_warnings ++ drift self.instance_id w1 (keys w.connections) in
      let (after, more) =
        passes_only_warn self n u (logged log w1)
          (record { presence = lost.presence; owner = lost.owner }) there in
      rw (reconcile_lem self.instance_id w1) (
        after,
        omega (
          arith,
          more,
          warnings-append u w.process.drift_warnings
              (drift self.instance_id w1 (keys w.connections)),
          warnings-drift u self.instance_id w1 (keys w.connections) (rw (lost.owner 0) refl)
              (listed-keys u w.connections there),
        ),
      )

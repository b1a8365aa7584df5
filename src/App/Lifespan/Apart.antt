-- ===== src/App/Lifespan/Apart.antt =====
-- What the removal of the connections and of their entries leaves alone.
use realtime_notification_pl.Prelude.{ℕ, ◌≡◌, refl, ◌∙◌, String, Option, none, some, List, [], ◌∷◌}
use realtime_notification_pl.Platform.{Platform}
use realtime_notification_pl.World.{
  World, Action, Socket, command, modify, suppress, pure, gets, call, ◌>>=◌,
}
use realtime_notification_pl.World.Quiet.{
  Keeping, Within, Within-pure, Within-gets, Within-modify, Within-call, Within-bind,
}
use realtime_notification_pl.Presence.Store.{clear}
use realtime_notification_pl.Presence.Manager.{mark_offline}
use realtime_notification_pl.Pubsub.InstanceRegistry.{unregister}
use realtime_notification_pl.Websocket.ConnectionManager.{
  close_popped, close_one, close_each, close_all, shut,
}
use realtime_notification_pl.Api.Shutdown.{forget_each, shutdown}

module _ ⦃p : Platform⦄ where
  -- the connections and their entries are no part of the process's own state
  abbrev pub Apart : World → World → Type 0
  Apart w w' = w'.process ≡ w.process

  Apart-Keeping : Keeping Apart
  Apart-Keeping = record {
    same = λ w. refl;
    and_then = λ w w' w'' h k. k ∙ h;
    later = λ fs w w' h. h;
  }

  pure-Apart : {A : Type 0} (a : A) → Within Apart (pure a)
  pure-Apart a = Within-pure Apart Apart-Keeping a

  gets-Apart : {A : Type 0} (f : World → A) → Within Apart (gets f)
  gets-Apart f = Within-gets Apart Apart-Keeping f

  modify-Apart :
      (f : World → World) → ((w : World) → (f w).process ≡ w.process) → Within Apart (modify f)
  modify-Apart f h = Within-modify Apart Apart-Keeping f h

  call-Apart :
      {A : Type 0} (f : World → A × World)
      → ((w : World) → (f w).1.process ≡ w.process)
      → Within Apart (call f)
  call-Apart f h = Within-call Apart Apart-Keeping f h

  command-Apart : {A : Type 0} (f : p.redis.State → A × p.redis.State) → Within Apart (command f)
  unfolding command
  command-Apart f = call-Apart _ (λ w. refl)

  bind-Apart :
      {A B : Type 0} (m : Action A) (f : A → Action B)
      → Within Apart m
      → ((a : A) → Within Apart (f a))
      → Within Apart (m >>= f)
  bind-Apart m f km kf = Within-bind Apart Apart-Keeping m f km kf

  suppress-Apart : (m : Action Unit) → Within Apart m → Within Apart (suppress m)
  suppress-Apart m k = record { at = k.at }

  ruleset apart_rules = (
    pure-Apart, gets-Apart, modify-Apart, call-Apart, command-Apart, bind-Apart, suppress-Apart,
    refl,
  )

  close_popped-Apart : (code : ℕ) (o : Option Socket) → Within Apart (close_popped code o)
  unfolding shut
  close_popped-Apart code none = search apart_rules
  close_popped-Apart code (some socket) = search apart_rules

  close_each-Apart : (code : ℕ) (us : List String) → Within Apart (close_each code us)
  unfolding close_each close_one
  close_each-Apart code [] = search apart_rules
  close_each-Apart code (u ∷ us) =
      bind-Apart _ _ (search (apart_rules, close_popped-Apart)) (λ _. close_each-Apart code us)

  forget_each-Apart : (us : List String) → Within Apart (forget_each us)
  unfolding forget_each unregister mark_offline clear
  forget_each-Apart [] = search apart_rules
  forget_each-Apart (u ∷ us) =
      bind-Apart _ _ (command-Apart _)
        (λ _. bind-Apart _ _ (command-Apart _) (λ _. forget_each-Apart us))

  pub close_all-Apart : (code : ℕ) → Within Apart (close_all code)
  unfolding close_all
  close_all-Apart code = search (apart_rules, close_each-Apart) depth 9

  pub shutdown-Apart : Within Apart shutdown
  unfolding shutdown
  shutdown-Apart = search (apart_rules, close_all-Apart, forget_each-Apart) depth 9

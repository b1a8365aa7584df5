-- ===== src/World/Quiet.antt =====
-- Actions that publish nothing, and actions that leave the committed tables alone as well.
use realtime_notification_pl.Prelude.{
  Bool, true, false, if◌then◌else◌, ◌≡◌, refl, ◌∙◌, List, [], ◌∷◌,
}
use realtime_notification_pl.Platform.{Platform}
use realtime_notification_pl.World.{
  World, Result, ok, err, Fault, answered, refused, lost, Action, Error, raise, pure, gets, serve,
  call, command, modify, continue, ◌>>=◌,
}

module _ ⦃p : Platform⦄ where
  abbrev pub Published : World → World → Type 0
  Published w w' = w'.published ≡ w.published

  abbrev pub Untold : World → World → Type 0
  Untold w w' = (w'.published ≡ w.published) × (w'.database ≡ w.database)

  -- a relation of the world before and after, that no schedule is part of
  pub record Keeping (R : World → World → Type 0) : Type 0 where
    pub same : (w : World) → R w w
    pub and_then : (w w' w'' : World) → R w w' → R w' w'' → R w w''
    pub later : (fs : List Fault) (w w' : World) → R (record w { schedule = fs }) w' → R w w'

  pub Published-Keeping : Keeping Published
  Published-Keeping = record {
    same = λ w. refl;
    and_then = λ w w' w'' h k. k ∙ h;
    later = λ fs w w' h. h;
  }

  pub Untold-Keeping : Keeping Untold
  Untold-Keeping = record {
    same = λ w. (refl, refl);
    and_then = λ w w' w'' h k. (k.0 ∙ h.0, k.1 ∙ h.1);
    later = λ fs w w' h. h;
  }

  -- an action that stays within the relation, whatever fails
  pub record Within {A : Type 0} (R : World → World → Type 0) (m : Action A) : Type 0 where
    pub at : (w : World) → R w (m w).1

  module _ (R : World → World → Type 0) (keeping : Keeping R) where
    pub Within-pure : {A : Type 0} (a : A) → Within R (pure a)
    unfolding pure
    Within-pure a = record { at = keeping.same }

    pub Within-gets : {A : Type 0} (f : World → A) → Within R (gets f)
    unfolding gets
    Within-gets f = record { at = keeping.same }

    pub Within-raise : {A : Type 0} (e : Error) → Within R (raise {A = A} e)
    unfolding raise
    Within-raise e = record { at = keeping.same }

    pub Within-modify : (f : World → World) → ((w : World) → R w (f w)) → Within R (modify f)
    unfolding modify
    Within-modify f h = record { at = h }

    module _ {A : Type 0} (m : World → A × World) (h : (w : World) → R w (m w).1) where
      serve-Within : (fs : List Fault) (w : World) → R w (serve fs m w).1
      serve-Within [] w = h w
      serve-Within (answered ∷ fs) w = keeping.later fs w _ (h (record w { schedule = fs }))
      serve-Within (refused ∷ fs) w =
          keeping.later fs w _ (keeping.same (record w { schedule = fs }))
      serve-Within (lost ∷ fs) w = keeping.later fs w _ (h (record w { schedule = fs }))

      pub Within-call : Within R (call m)
      unfolding call
      Within-call = record { at = λ w. serve-Within w.schedule w }

    module _ {A B : Type 0} where
      continue-Within :
          (r : Result A) (f : A → Action B) (w : World)
          → ((a : A) → Within R (f a))
          → R w (continue r f w).1
      continue-Within (ok a) f w k = (k a).at w
      continue-Within (err e) f w k = keeping.same w

      pub Within-bind :
          (m : Action A) (f : A → Action B)
          → Within R m
          → ((a : A) → Within R (f a))
          → Within R (m >>= f)
      unfolding ◌>>=◌
      Within-bind m f km kf = record {
        at = λ w. keeping.and_then w (m w).1 _ (km.at w) (continue-Within (m w).0 f (m w).1 kf);
      }

  pub Within-if :
      {A : Type 0} (R : World → World → Type 0) (b : Bool) (m n : Action A)
      → Within R m
      → Within R n
      → Within R (if b then m else n)
  Within-if R true m n km kn = km
  Within-if R false m n km kn = kn

  -- Redis is not PostgreSQL
  pub Within-command :
      {A : Type 0} (f : p.redis.State → A × p.redis.State) → Within Untold (command f)
  unfolding command
  Within-command f = Within-call Untold Untold-Keeping _ (λ w. (refl, refl))

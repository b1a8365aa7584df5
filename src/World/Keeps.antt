-- ===== src/World/Keeps.antt =====
-- Properties of what is stored, under every schedule of faults: one rule for each way to build an
-- action. What holds when an exception ends an action stands beside what holds when it returns.
use realtime_notification_pl.Prelude.{Bool, true, false, List, [], ◌∷◌, if◌then◌else◌}
use realtime_notification_pl.Platform.{Platform}
use realtime_notification_pl.World.{
  World, Result, ok, err, Error, Fault, answered, refused, lost, Action, pure, raise, gets, settle,
  serve, call, command, query, modify, continue, ◌>>=◌,
}

module _ ⦃p : Platform⦄ where
  -- a property of Redis, of the committed tables and of the tables that the session sees
  abbrev pub Stored : Type 1
  Stored = p.redis.State → p.postgres.State → p.postgres.State → Type 0

  abbrev pub In : Stored → World → Type 0
  In P w = P w.cache w.database w.session

  -- what holds after a result
  abbrev pub Outcome : {A : Type 0} → Stored → (A → Stored) → Result A → World → Type 0
  Outcome E Q (ok a) w = In (Q a) w
  Outcome E Q (err e) w = In E w

  -- From `P` the action returns `a` in `Q a`, or raises in `E`.
  pub record Triple {A : Type 0} (E P : Stored) (Q : A → Stored) (m : Action A) : Type 0 where
    pub at : (w : World) → In P w → Outcome E Q (m w).0 (m w).1

  abbrev pub Keeps : {A : Type 0} → Stored → Action A → Type 0
  Keeps P m = Triple P P (λ _. P) m

  module _ (E P : Stored) {A : Type 0} (Q : A → Stored) where
    pub Triple-pure : (a : A) → ((w : World) → In P w → In (Q a) w) → Triple E P Q (pure a)
    unfolding pure
    Triple-pure a k = record { at = k }

    pub Triple-raise : (e : Error) → ((w : World) → In P w → In E w) → Triple E P Q (raise e)
    unfolding raise
    Triple-raise e k = record { at = k }

    abbrev pub Answers : (World → A × World) → Type 0
    Answers m = (w : World) → In P w → In (Q (m w).0) (m w).1

    module _ (m : World → A × World) (yields : Answers m) where
      module _ (weak : (w : World) → In P w → In E w)
          (strong : (a : A) (w : World) → In (Q a) w → In E w) where
        settle-Outcome :
            (f : Fault) (w : World) → In P w → Outcome E Q (settle f w (m w)).0 (settle f w (m w)).1
        settle-Outcome answered w h = yields w h
        settle-Outcome refused w h = weak w h
        settle-Outcome lost w h = strong (m w).0 (m w).1 (yields w h)

        serve-Outcome :
            (fs : List Fault) (w : World) → In P w → Outcome E Q (serve fs m w).0 (serve fs m w).1
        serve-Outcome [] w h = yields w h
        serve-Outcome (f ∷ fs) w h = settle-Outcome f (record w { schedule = fs }) h

        pub Triple-call : Triple E P Q (call m)
        unfolding call
        Triple-call = record { at = λ w h. serve-Outcome w.schedule w h }

  module _ (E P : Stored) {A B : Type 0} (Q : A → Stored) (R : B → Stored) where
    continue-Outcome :
        (f : A → Action B) (r : Result A) (w : World)
        → ((a : A) → Triple E (Q a) R (f a))
        → Outcome E Q r w
        → Outcome E R (continue r f w).0 (continue r f w).1
    continue-Outcome f (ok a) w kf h = (kf a).at w h
    continue-Outcome f (err e) w kf h = h

    pub Triple-bind :
        (m : Action A) (f : A → Action B)
        → Triple E P Q m
        → ((a : A) → Triple E (Q a) R (f a))
        → Triple E P R (m >>= f)
    unfolding ◌>>=◌
    Triple-bind m f km kf = record { at = λ w h. continue-Outcome f (m w).0 (m w).1 kf (km.at w h) }

  -- more may hold than is said
  module _ (E E' P : Stored) {A : Type 0} (Q R : A → Stored) where
    weaken-Outcome :
        (r : Result A) (w : World)
        → ((w : World) → In E w → In E' w)
        → ((a : A) (w : World) → In (Q a) w → In (R a) w)
        → Outcome E Q r w
        → Outcome E' R r w
    weaken-Outcome (ok a) w raised returned h = returned a w h
    weaken-Outcome (err e) w raised returned h = raised w h

    pub Triple-weaken :
        (m : Action A)
        → ((w : World) → In E w → In E' w)
        → ((a : A) (w : World) → In (Q a) w → In (R a) w)
        → Triple E P Q m
        → Triple E' P R m
    Triple-weaken m raised returned km = record {
      at = λ w h. weaken-Outcome (m w).0 (m w).1 raised returned (km.at w h);
    }

  module _ (P : Stored) where
    pub Keeps-pure : {A : Type 0} (a : A) → Keeps P (pure a)
    unfolding pure
    Keeps-pure a = record { at = λ w h. h }

    pub Keeps-raise : {A : Type 0} (e : Error) → Keeps P (raise {A = A} e)
    unfolding raise
    Keeps-raise e = record { at = λ w h. h }

    pub Keeps-gets : {A : Type 0} (f : World → A) → Keeps P (gets f)
    unfolding gets
    Keeps-gets f = record { at = λ w h. h }

    pub Keeps-modify :
        (f : World → World) → ((w : World) → In P w → In P (f w)) → Keeps P (modify f)
    unfolding modify
    Keeps-modify f k = record { at = k }

    pub Keeps-call :
        {A : Type 0} (m : World → A × World)
        → ((w : World) → In P w → In P (m w).1)
        → Keeps P (call m)
    Keeps-call m k = Triple-call P P (λ _. P) m k (λ w h. h) (λ a w h. h)

    pub Keeps-query : {A : Type 0} (f : p.redis.State → A) → Keeps P (query f)
    unfolding command
    Keeps-query f = Keeps-call _ (λ w h. h)

    pub Keeps-if :
        {A : Type 0} (b : Bool) (m n : Action A)
        → Keeps P m
        → Keeps P n
        → Keeps P (if b then m else n)
    Keeps-if true m n km kn = km
    Keeps-if false m n km kn = kn

    pub Keeps-bind :
        {A B : Type 0} (m : Action A) (f : A → Action B)
        → Keeps P m
        → ((a : A) → Keeps P (f a))
        → Keeps P (m >>= f)
    Keeps-bind m f km kf = Triple-bind P P (λ _. P) (λ _. P) m f km kf

    -- the state after a result of any kind
    pub Outcome-In : {A : Type 0} (r : Result A) (w : World) → Outcome P (λ _. P) r w → In P w
    Outcome-In (ok a) w h = h
    Outcome-In (err e) w h = h

    pub Keeps-In : {A : Type 0} (m : Action A) → Keeps P m → (w : World) → In P w → In P (m w).1
    Keeps-In m km w h = Outcome-In (m w).0 (m w).1 (km.at w h)

    pub any_Outcome : {A : Type 0} (r : Result A) (w : World) → In P w → Outcome P (λ _. P) r w
    any_Outcome (ok a) w h = h
    any_Outcome (err e) w h = h

    pub Keeps-of_In :
        {A : Type 0} (m : Action A) → ((w : World) → In P w → In P (m w).1) → Keeps P m
    Keeps-of_In m k = record { at = λ w h. any_Outcome (m w).0 (m w).1 (k w h) }

  abbrev pub Anything : Stored
  Anything s db ses = Unit

  pub any-Keeps : {A : Type 0} (m : Action A) → Keeps Anything m
  any-Keeps m = Keeps-of_In Anything m (λ w h. tt)

  pub ruleset keeps_rules = (Keeps-pure, Keeps-raise, Keeps-gets, Keeps-query, Keeps-if, Keeps-bind)

-- ===== src/Db/Connection/Pool.antt =====
-- The globals of app/db/connection.py: the engine, the factory, and what became of the engines.
use realtime_notification_pl.Prelude.{
  ℕ, ◌+◌, ◌<◌, ◌≡◌, refl, sym, ap, ◌∙◌, ◌⊎◌, inl, inr, none, some, List, [], ◌∷◌, ◌++◌, arith,
}
use native.Mathlib.Decide.{dec_lt}
use realtime_notification_pl.World.{Process}

abbrev pub HoldsEngine : ℕ → List ℕ → Type 0
HoldsEngine n [] = ⊥
HoldsEngine n (m ∷ ms) = (m ≡ n) ⊎ HoldsEngine n ms

-- A factory is bound to the current engine, and every engine that was made and is not the current
-- one has been disposed of.
pub record IsPooled (g : Process) : Type 0 where
  pub bound : (g.session_factory ≡ none) ⊎ (g.session_factory ≡ g.engine)
  pub made : (n : ℕ) → g.engine ≡ some n → n < g.engines
  pub released : (n : ℕ) → n < g.engines → (g.engine ≡ some n) ⊎ HoldsEngine n g.disposed

HoldsEngine-append : (n : ℕ) (ms : List ℕ) (m : ℕ) → HoldsEngine n ms → HoldsEngine n (ms ++ m ∷ [])
HoldsEngine-append n [] m h = absurd h
HoldsEngine-append n (k ∷ ms) m (inl e) = inl e
HoldsEngine-append n (k ∷ ms) m (inr h) = inr (HoldsEngine-append n ms m h)

HoldsEngine-append_last : (n : ℕ) (ms : List ℕ) → HoldsEngine n (ms ++ n ∷ [])
HoldsEngine-append_last n [] = inl refl
HoldsEngine-append_last n (k ∷ ms) = inr (HoldsEngine-append_last n ms)

pub create-IsPooled :
    (g : Process)
    → IsPooled g
    → g.engine ≡ none
    → IsPooled (record g { engines = g.engines + 1; engine = some g.engines })
create-IsPooled g h missing = record {
  bound = no_factory h.bound;
  made = λ n e. ground (arith, e);
  released = λ n lt. elim (dec_lt n g.engines) [
    | yes old ↦ inr (gone n (h.released n old))
    | no new ↦ inl (ap some (omega arith))
  ];
}
  where
    no_factory :
        (g.session_factory ≡ none) ⊎ (g.session_factory ≡ g.engine)
        → (g.session_factory ≡ none) ⊎ (g.session_factory ≡ some g.engines)
    no_factory (inl e) = inl e
    no_factory (inr e) = inl (e ∙ missing)

    gone : (n : ℕ) → (g.engine ≡ some n) ⊎ HoldsEngine n g.disposed → HoldsEngine n g.disposed
    gone n (inl e) = absurd (cc (e, missing))
    gone n (inr d) = d

pub bind-IsPooled :
    (g : Process) (n : ℕ)
    → IsPooled g
    → g.engine ≡ some n
    → IsPooled (record g { session_factory = some n })
bind-IsPooled g n h e = record { bound = inr (sym e); made = h.made; released = h.released }

-- the engine is disposed of, and the globals are not reset yet
pub disposing-IsPooled :
    (g : Process) (n : ℕ) → IsPooled g → IsPooled (record g { disposed = g.disposed ++ n ∷ [] })
disposing-IsPooled g n h = record {
  bound = h.bound;
  made = h.made;
  released = λ m lt. kept m (h.released m lt);
}
  where
    kept :
        (m : ℕ)
        → (g.engine ≡ some m) ⊎ HoldsEngine m g.disposed
        → (g.engine ≡ some m) ⊎ HoldsEngine m (g.disposed ++ n ∷ [])
    kept m (inl e) = inl e
    kept m (inr d) = inr (HoldsEngine-append m g.disposed n d)

abbrev pub cleared : Process → Process
cleared g = record g { engine = none; session_factory = none }

pub reset_none-IsPooled : (g : Process) → IsPooled g → g.engine ≡ none → IsPooled (cleared g)
reset_none-IsPooled g h e = record {
  bound = inl refl;
  made = λ n f. absurd (cc f);
  released = λ n lt. inr (kept n (h.released n lt));
}
  where
    kept : (n : ℕ) → (g.engine ≡ some n) ⊎ HoldsEngine n g.disposed → HoldsEngine n g.disposed
    kept n (inl f) = absurd (cc (f, e))
    kept n (inr d) = d

pub reset-IsPooled :
    (g : Process) (n : ℕ)
    → IsPooled g
    → g.engine ≡ some n
    → IsPooled (cleared (record g { disposed = g.disposed ++ n ∷ [] }))
reset-IsPooled g n h e = record {
  bound = inl refl;
  made = λ m f. absurd (cc f);
  released = λ m lt. inr (kept m (h.released m lt));
}
  where
    kept :
        (m : ℕ)
        → (g.engine ≡ some m) ⊎ HoldsEngine m g.disposed
        → HoldsEngine m (g.disposed ++ n ∷ [])
    kept m (inl f) =
        let same : n ≡ m = ground (arith, f, e) in rw same (HoldsEngine-append_last m g.disposed)
    kept m (inr d) = HoldsEngine-append m g.disposed n d

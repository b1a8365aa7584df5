-- ===== src/Redis.antt =====
-- The Redis server, which the program calls through redis.asyncio: an interface of commands with
-- the behaviour that the Redis manual documents for them. It is a parameter of the model.
pub mod Table
use Prim.Native.Nat.{◌^◌}
use realtime_notification_pl.Prelude.{
  ℕ, ◌+◌, ◌<◌, String, ◌≡◌, false, Option, none, some, ltb, str_eq, if◌then◌else◌,
}

-- A stored string, apart from the decimal strings that INCR maintains.
pub data Value : Type 0 where
  plain : String → Value
  integer : ℕ → Value

-- INCR of what a key holds, when it holds a counter.
abbrev pub bump : Option Value → Option Value
bump none = none
bump (some (plain t)) = some (plain t)
bump (some (integer n)) = some (integer (n + 1))

pub record Redis : Type 1 where
  pub State : Type 0
  -- what GET would find under a key `d` seconds from now, if no command came before
  pub peek : State → ℕ → String → Option Value
  pub set : String → Value → State → State
  pub set_ex : String → Value → ℕ → State → State
  pub expire : String → ℕ → State → State
  pub delete : String → State → State
  -- the new count, or nothing where the server answers with an error
  pub incr : String → State → Option ℕ × State
  pub elapse : ℕ → State → State
  pub peek-set :
      (k : String) (v : Value) (s : State) (d : ℕ) (j : String)
      → peek (set k v s) d j ≡ (if str_eq k j then some v else peek s d j)
  pub peek-set_ex :
      (k : String) (v : Value) (ttl : ℕ) (s : State) (d : ℕ) (j : String)
      → 0 < ttl
      → peek (set_ex k v ttl s) d j
        ≡ (if str_eq k j then if ltb d ttl then some v else none else peek s d j)
  pub peek-expire :
      (k : String) (ttl : ℕ) (s : State) (d : ℕ) (j : String)
      → 0 < ttl
      → peek (expire k ttl s) d j
        ≡ (if str_eq k j then if ltb d ttl then peek s 0 j else none else peek s d j)
  pub peek-delete :
      (k : String) (s : State) (d : ℕ) (j : String)
      → peek (delete k s) d j ≡ (if str_eq k j then none else peek s d j)
  pub peek-elapse :
      (n : ℕ) (s : State) (d : ℕ) (j : String) → peek (elapse n s) d j ≡ peek s (n + d) j
  -- a missing key counts from 0, and has no expiry
  pub incr_missing : (k : String) (s : State) → peek s 0 k ≡ none → (incr k s).0 ≡ some 1
  pub peek-incr_missing :
      (k : String) (s : State) (d : ℕ) (j : String)
      → peek s 0 k ≡ none
      → peek (incr k s).1 d j ≡ (if str_eq k j then some (integer 1) else peek s d j)
  -- a counter keeps its expiry, and its values are signed 64-bit integers
  pub incr_counter :
      (k : String) (s : State) (n : ℕ)
      → peek s 0 k ≡ some (integer n)
      → n + 1 < 2 ^ 63
      → (incr k s).0 ≡ some (n + 1)
  pub peek-incr_counter :
      (k : String) (s : State) (n d : ℕ) (j : String)
      → peek s 0 k ≡ some (integer n)
      → n + 1 < 2 ^ 63
      → peek (incr k s).1 d j ≡ (if str_eq k j then bump (peek s d j) else peek s d j)
  -- whether or not it succeeds
  pub peek-incr_ne :
      (k : String) (s : State) (d : ℕ) (j : String)
      → str_eq k j ≡ false
      → peek (incr k s).1 d j ≡ peek s d j

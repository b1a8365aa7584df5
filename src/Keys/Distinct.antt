-- ===== src/Keys/Distinct.antt =====
-- The Redis keys of different components.
use Prim.Native.Char.{Char, code}
use Prim.Native.String as Text
use Prim.Native.String.{◌++◌}
use text.Mathlib.TextLemmas.{cons-append, append_assoc, append_cancel_left, append_cancel_right}
use text.Mathlib.TextLemmas.{length-append}
use realtime_notification_pl.Prelude.{
  ℕ, String, ◌≡◌, ◌≢◌, sym, ap, ◌∙◌, false, inl, inr, arith, str_eq, eq_iff, Bool-cases,
}
use realtime_notification_pl.Keys.{
  ticket_key, registry_key, liveness_key, presence_key, last_seen_key, rate_limit_key, dedup_key,
}

pub registry_key-injective : (u v : String) → registry_key u ≡ registry_key v → u ≡ v
unfolding registry_key
registry_key-injective u v e = append_cancel_left "user:" u v e

pub presence_key-injective : (u v : String) → presence_key u ≡ presence_key v → u ≡ v
unfolding presence_key
presence_key-injective u v e = append_cancel_left "presence:" u v e

pub dedup_key-injective : (u v : String) → dedup_key u ≡ dedup_key v → u ≡ v
unfolding dedup_key
dedup_key-injective u v e = append_cancel_left "notification_dedup:" u v e

pub rate_limit_key-injective : (u v : String) → rate_limit_key u ≡ rate_limit_key v → u ≡ v
unfolding rate_limit_key
rate_limit_key-injective u v e = append_cancel_left "rate_limit:" u v e

pub ticket_key-injective : (u v : String) → ticket_key u ≡ ticket_key v → u ≡ v
unfolding ticket_key
ticket_key-injective u v e = append_cancel_left "ws_ticket:" u v e

pub liveness_key-injective : (u v : String) → liveness_key u ≡ liveness_key v → u ≡ v
unfolding liveness_key
liveness_key-injective u v e =
    append_cancel_right u v ":alive"
      (append_cancel_left "instance:" (u ++ ":alive") (v ++ ":alive") e)

-- the first letter of a key
abbrev initial : String → ℕ
initial Text.[] = 0
initial (Text.◌∷◌ c s) = code c

initial-append : (c : Char) (a s : String) → initial ((Text.◌∷◌ c a) ++ s) ≡ code c
initial-append c a s = ap initial (cons-append c a s)

initial-ticket : (u : String) → initial (ticket_key u) ≡ b'w'
unfolding ticket_key
initial-ticket u = initial-append "w" "s_ticket:" u

initial-registry : (u : String) → initial (registry_key u) ≡ b'u'
unfolding registry_key
initial-registry u = initial-append "u" "ser:" u

initial-liveness : (u : String) → initial (liveness_key u) ≡ b'i'
unfolding liveness_key
initial-liveness u = initial-append "i" "nstance:" (u ++ ":alive")

initial-presence : (u : String) → initial (presence_key u) ≡ b'p'
unfolding presence_key
initial-presence u = initial-append "p" "resence:" u

initial-last_seen : (u : String) → initial (last_seen_key u) ≡ b'p'
unfolding last_seen_key
initial-last_seen u = initial-append "p" "resence:last_seen:" u

initial-rate_limit : (u : String) → initial (rate_limit_key u) ≡ b'r'
unfolding rate_limit_key
initial-rate_limit u = initial-append "r" "ate_limit:" u

initial-dedup : (u : String) → initial (dedup_key u) ≡ b'n'
unfolding dedup_key
initial-dedup u = initial-append "n" "otification_dedup:" u

pub eq_false : (s t : String) → s ≢ t → str_eq s t ≡ false
eq_false s t h = elim (Bool-cases (str_eq s t)) [
  | inl e ↦ absurd (h ((eq_iff s t).0 e))
  | inr e ↦ e
]

differ : (s t : String) {a b : ℕ} → initial s ≡ a → initial t ≡ b → a ≢ b → str_eq s t ≡ false
differ s t p q h = eq_false s t (λ e. h (cc (p, q, ap initial e)))

pub ticket-ne-registry : (u v : String) → str_eq (ticket_key u) (registry_key v) ≡ false
ticket-ne-registry u v = differ _ _ (initial-ticket u) (initial-registry v) (omega arith)

pub ticket-ne-liveness : (u v : String) → str_eq (ticket_key u) (liveness_key v) ≡ false
ticket-ne-liveness u v = differ _ _ (initial-ticket u) (initial-liveness v) (omega arith)

pub ticket-ne-presence : (u v : String) → str_eq (ticket_key u) (presence_key v) ≡ false
ticket-ne-presence u v = differ _ _ (initial-ticket u) (initial-presence v) (omega arith)

pub ticket-ne-last_seen : (u v : String) → str_eq (ticket_key u) (last_seen_key v) ≡ false
ticket-ne-last_seen u v = differ _ _ (initial-ticket u) (initial-last_seen v) (omega arith)

pub ticket-ne-rate_limit : (u v : String) → str_eq (ticket_key u) (rate_limit_key v) ≡ false
ticket-ne-rate_limit u v = differ _ _ (initial-ticket u) (initial-rate_limit v) (omega arith)

pub ticket-ne-dedup : (u v : String) → str_eq (ticket_key u) (dedup_key v) ≡ false
ticket-ne-dedup u v = differ _ _ (initial-ticket u) (initial-dedup v) (omega arith)

pub registry-ne-ticket : (u v : String) → str_eq (registry_key u) (ticket_key v) ≡ false
registry-ne-ticket u v = differ _ _ (initial-registry u) (initial-ticket v) (omega arith)

pub registry-ne-liveness : (u v : String) → str_eq (registry_key u) (liveness_key v) ≡ false
registry-ne-liveness u v = differ _ _ (initial-registry u) (initial-liveness v) (omega arith)

pub registry-ne-presence : (u v : String) → str_eq (registry_key u) (presence_key v) ≡ false
registry-ne-presence u v = differ _ _ (initial-registry u) (initial-presence v) (omega arith)

pub registry-ne-last_seen : (u v : String) → str_eq (registry_key u) (last_seen_key v) ≡ false
registry-ne-last_seen u v = differ _ _ (initial-registry u) (initial-last_seen v) (omega arith)

pub registry-ne-rate_limit : (u v : String) → str_eq (registry_key u) (rate_limit_key v) ≡ false
registry-ne-rate_limit u v = differ _ _ (initial-registry u) (initial-rate_limit v) (omega arith)

pub registry-ne-dedup : (u v : String) → str_eq (registry_key u) (dedup_key v) ≡ false
registry-ne-dedup u v = differ _ _ (initial-registry u) (initial-dedup v) (omega arith)

pub liveness-ne-ticket : (u v : String) → str_eq (liveness_key u) (ticket_key v) ≡ false
liveness-ne-ticket u v = differ _ _ (initial-liveness u) (initial-ticket v) (omega arith)

pub liveness-ne-registry : (u v : String) → str_eq (liveness_key u) (registry_key v) ≡ false
liveness-ne-registry u v = differ _ _ (initial-liveness u) (initial-registry v) (omega arith)

pub liveness-ne-presence : (u v : String) → str_eq (liveness_key u) (presence_key v) ≡ false
liveness-ne-presence u v = differ _ _ (initial-liveness u) (initial-presence v) (omega arith)

pub liveness-ne-last_seen : (u v : String) → str_eq (liveness_key u) (last_seen_key v) ≡ false
liveness-ne-last_seen u v = differ _ _ (initial-liveness u) (initial-last_seen v) (omega arith)

pub liveness-ne-rate_limit : (u v : String) → str_eq (liveness_key u) (rate_limit_key v) ≡ false
liveness-ne-rate_limit u v = differ _ _ (initial-liveness u) (initial-rate_limit v) (omega arith)

pub liveness-ne-dedup : (u v : String) → str_eq (liveness_key u) (dedup_key v) ≡ false
liveness-ne-dedup u v = differ _ _ (initial-liveness u) (initial-dedup v) (omega arith)

pub presence-ne-ticket : (u v : String) → str_eq (presence_key u) (ticket_key v) ≡ false
presence-ne-ticket u v = differ _ _ (initial-presence u) (initial-ticket v) (omega arith)

pub presence-ne-registry : (u v : String) → str_eq (presence_key u) (registry_key v) ≡ false
presence-ne-registry u v = differ _ _ (initial-presence u) (initial-registry v) (omega arith)

pub presence-ne-liveness : (u v : String) → str_eq (presence_key u) (liveness_key v) ≡ false
presence-ne-liveness u v = differ _ _ (initial-presence u) (initial-liveness v) (omega arith)

pub presence-ne-rate_limit : (u v : String) → str_eq (presence_key u) (rate_limit_key v) ≡ false
presence-ne-rate_limit u v = differ _ _ (initial-presence u) (initial-rate_limit v) (omega arith)

pub presence-ne-dedup : (u v : String) → str_eq (presence_key u) (dedup_key v) ≡ false
presence-ne-dedup u v = differ _ _ (initial-presence u) (initial-dedup v) (omega arith)

pub last_seen-ne-ticket : (u v : String) → str_eq (last_seen_key u) (ticket_key v) ≡ false
last_seen-ne-ticket u v = differ _ _ (initial-last_seen u) (initial-ticket v) (omega arith)

pub last_seen-ne-registry : (u v : String) → str_eq (last_seen_key u) (registry_key v) ≡ false
last_seen-ne-registry u v = differ _ _ (initial-last_seen u) (initial-registry v) (omega arith)

pub last_seen-ne-liveness : (u v : String) → str_eq (last_seen_key u) (liveness_key v) ≡ false
last_seen-ne-liveness u v = differ _ _ (initial-last_seen u) (initial-liveness v) (omega arith)

pub last_seen-ne-rate_limit : (u v : String) → str_eq (last_seen_key u) (rate_limit_key v) ≡ false
last_seen-ne-rate_limit u v = differ _ _ (initial-last_seen u) (initial-rate_limit v) (omega arith)

pub last_seen-ne-dedup : (u v : String) → str_eq (last_seen_key u) (dedup_key v) ≡ false
last_seen-ne-dedup u v = differ _ _ (initial-last_seen u) (initial-dedup v) (omega arith)

pub rate_limit-ne-ticket : (u v : String) → str_eq (rate_limit_key u) (ticket_key v) ≡ false
rate_limit-ne-ticket u v = differ _ _ (initial-rate_limit u) (initial-ticket v) (omega arith)

pub rate_limit-ne-registry : (u v : String) → str_eq (rate_limit_key u) (registry_key v) ≡ false
rate_limit-ne-registry u v = differ _ _ (initial-rate_limit u) (initial-registry v) (omega arith)

pub rate_limit-ne-liveness : (u v : String) → str_eq (rate_limit_key u) (liveness_key v) ≡ false
rate_limit-ne-liveness u v = differ _ _ (initial-rate_limit u) (initial-liveness v) (omega arith)

pub rate_limit-ne-presence : (u v : String) → str_eq (rate_limit_key u) (presence_key v) ≡ false
rate_limit-ne-presence u v = differ _ _ (initial-rate_limit u) (initial-presence v) (omega arith)

pub rate_limit-ne-last_seen : (u v : String) → str_eq (rate_limit_key u) (last_seen_key v) ≡ false
rate_limit-ne-last_seen u v = differ _ _ (initial-rate_limit u) (initial-last_seen v) (omega arith)

pub rate_limit-ne-dedup : (u v : String) → str_eq (rate_limit_key u) (dedup_key v) ≡ false
rate_limit-ne-dedup u v = differ _ _ (initial-rate_limit u) (initial-dedup v) (omega arith)

pub dedup-ne-ticket : (u v : String) → str_eq (dedup_key u) (ticket_key v) ≡ false
dedup-ne-ticket u v = differ _ _ (initial-dedup u) (initial-ticket v) (omega arith)

pub dedup-ne-registry : (u v : String) → str_eq (dedup_key u) (registry_key v) ≡ false
dedup-ne-registry u v = differ _ _ (initial-dedup u) (initial-registry v) (omega arith)

pub dedup-ne-liveness : (u v : String) → str_eq (dedup_key u) (liveness_key v) ≡ false
dedup-ne-liveness u v = differ _ _ (initial-dedup u) (initial-liveness v) (omega arith)

pub dedup-ne-presence : (u v : String) → str_eq (dedup_key u) (presence_key v) ≡ false
dedup-ne-presence u v = differ _ _ (initial-dedup u) (initial-presence v) (omega arith)

pub dedup-ne-last_seen : (u v : String) → str_eq (dedup_key u) (last_seen_key v) ≡ false
dedup-ne-last_seen u v = differ _ _ (initial-dedup u) (initial-last_seen v) (omega arith)

pub dedup-ne-rate_limit : (u v : String) → str_eq (dedup_key u) (rate_limit_key v) ≡ false
dedup-ne-rate_limit u v = differ _ _ (initial-dedup u) (initial-rate_limit v) (omega arith)

-- the two keys of one user differ, since their lengths do
presence-ne-last_seen_self : (u : String) → presence_key u ≢ last_seen_key u
unfolding presence_key last_seen_key
presence-ne-last_seen_self u e =
    let longer : u ≡ "last_seen:" ++ u =
      append_cancel_left "presence:" u ("last_seen:" ++ u)
        (e ∙ append_assoc "presence:" "last_seen:" u) in
    omega (arith, ap Text.count longer, length-append "last_seen:" u)

pub presence-ne-last_seen : (u : String) → str_eq (presence_key u) (last_seen_key u) ≡ false
presence-ne-last_seen u = eq_false _ _ (presence-ne-last_seen_self u)

pub last_seen-ne-presence : (u : String) → str_eq (last_seen_key u) (presence_key u) ≡ false
last_seen-ne-presence u = eq_false _ _ (λ e. presence-ne-last_seen_self u (sym e))

-- keys of different components
pub ruleset keys = (
  ticket-ne-registry, ticket-ne-liveness, ticket-ne-presence, ticket-ne-last_seen,
  ticket-ne-rate_limit, ticket-ne-dedup, registry-ne-ticket, registry-ne-liveness,
  registry-ne-presence, registry-ne-last_seen, registry-ne-rate_limit, registry-ne-dedup,
  liveness-ne-ticket, liveness-ne-registry, liveness-ne-presence, liveness-ne-last_seen,
  liveness-ne-rate_limit, liveness-ne-dedup, presence-ne-ticket, presence-ne-registry,
  presence-ne-liveness, presence-ne-rate_limit, presence-ne-dedup, last_seen-ne-ticket,
  last_seen-ne-registry, last_seen-ne-liveness, last_seen-ne-rate_limit, last_seen-ne-dedup,
  rate_limit-ne-ticket, rate_limit-ne-registry, rate_limit-ne-liveness, rate_limit-ne-presence,
  rate_limit-ne-last_seen, rate_limit-ne-dedup, dedup-ne-ticket, dedup-ne-registry,
  dedup-ne-liveness, dedup-ne-presence, dedup-ne-last_seen, dedup-ne-rate_limit,
  presence-ne-last_seen, last_seen-ne-presence,
)

-- ===== src/Schemas/Notifications/Bodies.antt =====
-- app/schemas/notifications.py: the bodies that pass validation.
use realtime_notification_pl.Prelude.{
  ◌≤◌, String, ◌≡◌, refl, sym, ap, ◌∙◌, Bool-cases, inl, inr, ◌⊎◌, Option, none, some, arith, leb,
}
use realtime_notification_pl.Prelude.Lists.{length}
use realtime_notification_pl.Regex.{codes}
use realtime_notification_pl.Json.{Json, Fields, obj, str, done, get}
use realtime_notification_pl.Postgres.{NewNotification}
use realtime_notification_pl.Platform.{Platform}
use realtime_notification_pl.Schemas.Notifications.{
  type_field, payload_field, payload_within_size_limit, model_validate, max_payload_bytes, ◌>>=◌,
}
use realtime_notification_pl.Schemas.Notifications.Types.{IsDotted, type_field_iff}

-- a chain that gives a value has one at its head
head_value {ℓ} :
    {A B : Type 0} {P : Type ℓ} (o : Option A) {f : A → Option B} {b : B}
    → (o >>= f) ≡ some b
    → ((a : A) → o ≡ some a → f a ≡ some b → P)
    → P
head_value none h next = absurd (cc h)
head_value (some a) h next = next a refl h

module _ ⦃p : Platform⦄ where
  -- the payload is the body's own, and within the limit
  abbrev pub IsPayload : Option Json → Fields → Type 0
  IsPayload o payload =
      ((o ≡ none) × (payload ≡ done))
      ⊎ ((o ≡ some (obj payload)) × (p.encoded_bytes (p.dumps (obj payload)) ≤ max_payload_bytes))

  abbrev pub IsValid : Fields → NewNotification → Type 0
  IsValid body new =
      (get "type" body ≡ some (str new.type))
      × (IsDotted (codes new.type) × (length (codes new.type) ≤ 50))
      × IsPayload (get "payload" body) new.payload

  within_limit :
      (f g : Fields)
      → payload_within_size_limit f ≡ some g
      → (g ≡ f) × (p.encoded_bytes (p.dumps (obj f)) ≤ max_payload_bytes)
  within_limit f g h =
      elim (Bool-cases (leb (p.encoded_bytes (p.dumps (obj f))) max_payload_bytes)) [
        | inl e ↦ (cc (rw e at h), ground (arith, e))
        | inr e ↦ absurd (cc (rw e at h))
      ]

  payload_field-IsPayload :
      (o : Option Json) (payload : Fields) → payload_field o ≡ some payload → IsPayload o payload
  unfolding payload_field
  payload_field-IsPayload none payload h = inl (refl, cc h)
  payload_field-IsPayload (some (obj f)) payload h =
      let (q, b) = within_limit f payload h in inr (rw q refl, rw q b)
  payload_field-IsPayload (some _) payload h = absurd (cc h)

  type_of : (j : Json) (t : String) → type_field j ≡ some t → j ≡ str t
  unfolding type_field
  type_of (str s) t h = ap str (sym ((type_field_iff s t).0 h).0)
  type_of _ t h = absurd (cc h)

  type-IsDotted :
      (j : Json) (t : String) → type_field j ≡ some t → IsDotted (codes t) × (length (codes t) ≤ 50)
  type-IsDotted j t h =
      let (_, dotted, short) = (type_field_iff t t).0 (sym (ap type_field (type_of j t h)) ∙ h) in
      (dotted, short)

  -- what the fields of a record say of it
  built :
      (body : Fields) (new' new : NewNotification) (j : Json)
      → get "type" body ≡ some j
      → type_field j ≡ some new'.type
      → payload_field (get "payload" body) ≡ some new'.payload
      → new' ≡ new
      → IsValid body new
  built body new' new j j_of t_of f_of e =
      let valid : IsValid body new' = (
        j_of ∙ ap some (type_of j new'.type t_of),
        type-IsDotted j new'.type t_of,
        payload_field-IsPayload (get "payload" body) new'.payload f_of,
      ) in
      rw e at valid

  -- A body that passes validation has the type it was sent with, which is two segments or more
  -- with a stop between each two, 50 characters at most, as the column that stores it allows;
  -- and its payload is the one it was sent with, of 32768 bytes of JSON at most, or the empty one
  -- when it was sent without.
  pub model_validate-IsValid :
      (body : Fields) (new : NewNotification) → model_validate body ≡ some new → IsValid body new
  unfolding model_validate
  model_validate-IsValid body new h = head_value (get "notification_id" body) h λ i _ h.
      head_value (p.uuid_field i) h λ n _ h. head_value (get "user_id" body) h λ u _ h.
        head_value (p.uuid_field u) h λ v _ h. head_value (get "type" body) h λ j j_of h.
          head_value (type_field j) h λ t t_of h.
            head_value (payload_field (get "payload" body)) h λ f f_of h.
              built body (record { notification_id = n; user_id = v; type = t; payload = f }) new j
                j_of t_of f_of (cc h)

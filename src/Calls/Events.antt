-- ===== src/Calls/Events.antt =====
-- modules/calls/CallEvents.js: the events of a call, the fields that each must have, and the check.
use arnacon_webrtc_service.Shared.{
  Bool, true, false, Option, none, some, List, [], ◌∷◌, ◌≡◌, refl, ap, sym, ◌∙◌, All, if-cases,
  if◌then◌else◌, Text, text,
}

-- `CallEvents`.
pub data CallEvent : Type 0 where
  call_offer_received data_channel_opened call_ring_requested route_resolved : CallEvent
  route_start_requested callee_answered route_connected call_end_requested : CallEvent
  call_cancel_requested remote_bye_received end_renegotiation_received dtmf_received : CallEvent
  call_failed session_destroy_requested : CallEvent

pub data Field : Type 0 where
  kind source payload destination reason error : Field
  remote_dialog_id notify_client propagate_linked_session at : Field

-- A value of JavaScript: `other` is none of undefined, null and a string.
pub data Value : Type 0 where
  undefined null other : Value
  string : Text → Value

-- An event: `event_type` is none where its type is not one of `CallEvents`, and `value_of` has its other
-- fields.
pub record Event : Type 0 where
  pub event_type : Option CallEvent
  pub value_of : Field → Value

-- `EVENT_REQUIRED_FIELDS`; its "type" is `kind`.
unfoldable pub required_fields : CallEvent → List Field
required_fields call_offer_received = kind ∷ source ∷ payload ∷ []
required_fields data_channel_opened = kind ∷ source ∷ []
required_fields call_ring_requested = kind ∷ source ∷ payload ∷ []
required_fields route_resolved = kind ∷ source ∷ destination ∷ []
required_fields route_start_requested = kind ∷ source ∷ destination ∷ []
required_fields callee_answered = kind ∷ source ∷ payload ∷ []
required_fields route_connected = kind ∷ source ∷ []
required_fields call_end_requested = kind ∷ source ∷ reason ∷ []
required_fields call_cancel_requested = kind ∷ source ∷ reason ∷ []
required_fields remote_bye_received = kind ∷ source ∷ reason ∷ []
required_fields end_renegotiation_received = kind ∷ source ∷ payload ∷ []
required_fields dtmf_received = kind ∷ source ∷ payload ∷ []
required_fields call_failed = kind ∷ source ∷ reason ∷ error ∷ []
required_fields session_destroy_requested = kind ∷ source ∷ reason ∷ []

-- The test of a field: not undefined, null or the empty string.
unfoldable pub is_present : Value → Bool
is_present undefined = false
is_present null = false
is_present other = true
is_present (string []) = false
is_present (string (c ∷ cs)) = true

-- `event[field]`, of an event whose type is one of `CallEvents`.
abbrev field_of : (Field → Value) → Field → Value
field_of f kind = other
field_of f source = f source
field_of f payload = f payload
field_of f destination = f destination
field_of f reason = f reason
field_of f error = f error
field_of f remote_dialog_id = f remote_dialog_id
field_of f notify_client = f notify_client
field_of f propagate_linked_session = f propagate_linked_session
field_of f at = f at

-- What the check returns, or throws.
pub data Validation : Type 0 where
  valid unsupported : Validation
  missing : Field → Validation

unfoldable pub check_fields : (Field → Value) → List Field → Validation
unfolding is_present
check_fields f [] = valid
check_fields f (x ∷ xs) =
    let rest = check_fields f xs in if is_present (field_of f x) then rest else missing x

-- `validateCallEvent`.
unfoldable pub validate_call_event : Event → Validation
unfolding required_fields check_fields
validate_call_event e = elim e.event_type [
  | none ↦ unsupported
  | some t ↦ check_fields e.value_of (required_fields t)
]

-- A parameter with a default, which undefined alone takes.
unfoldable pub or_default : Value → Value → Value
or_default undefined d = d
or_default null d = null
or_default other d = other
or_default (string t) d = string t

unfoldable pub remote_bye_fields : Value → Value → Value → Value → Value → Value → Field → Value
unfolding or_default
remote_bye_fields s r dialog notify propagate time kind = other
remote_bye_fields s r dialog notify propagate time source = s
remote_bye_fields s r dialog notify propagate time payload = undefined
remote_bye_fields s r dialog notify propagate time destination = undefined
remote_bye_fields s r dialog notify propagate time reason =
    or_default r (string (text "remote-bye"))
remote_bye_fields s r dialog notify propagate time error = undefined
remote_bye_fields s r dialog notify propagate time remote_dialog_id = or_default dialog null
remote_bye_fields s r dialog notify propagate time notify_client = or_default notify other
remote_bye_fields s r dialog notify propagate time propagate_linked_session =
    or_default propagate other
remote_bye_fields s r dialog notify propagate time at = or_default time other

-- `createRemoteByeReceivedEvent`.
unfoldable pub create_remote_bye_received_event :
    Value → Value → Value → Value → Value → Value → Event
unfolding remote_bye_fields
create_remote_bye_received_event s r dialog notify propagate time = record {
  event_type = some remote_bye_received;
  value_of = remote_bye_fields s r dialog notify propagate time;
}

-- Fields pass the check only where all of them are present.
check_fields-All :
    (f : Field → Value) (xs : List Field)
    → check_fields f xs ≡ valid
    → All (λ x. is_present (field_of f x) ≡ true) xs
unfolding check_fields
check_fields-All f [] h = tt
check_fields-All f (x ∷ xs) h =
    if-cases
      (λ (v : Validation).
        v ≡ valid
        → (is_present (field_of f x) ≡ true) × All (λ y. is_present (field_of f y) ≡ true) xs)
      (is_present (field_of f x)) _ _ (λ e h'. (e, check_fields-All f xs h')) (λ _ h'. cc) h

All-check_fields :
    (f : Field → Value) (xs : List Field)
    → All (λ x. is_present (field_of f x) ≡ true) xs
    → check_fields f xs ≡ valid
unfolding check_fields
All-check_fields f [] h = refl
All-check_fields f (x ∷ xs) h =
    ap (λ b. if b then check_fields f xs else missing x) h.0 ∙ All-check_fields f xs h.1

-- The check of fields names one that is not present.
check_fields-missing :
    (f : Field → Value) (x : Field) (xs : List Field)
    → check_fields f xs ≡ missing x
    → is_present (field_of f x) ≡ false
unfolding check_fields
check_fields-missing f x [] h = cc
check_fields-missing f x (y ∷ ys) h =
    if-cases (λ (v : Validation). v ≡ missing x → is_present (field_of f x) ≡ false)
      (is_present (field_of f y)) _ _ (λ _ h'. check_fields-missing f x ys h')
      (λ e h'. ap (λ z. is_present (field_of f z)) (sym (missing-injective h')) ∙ e) h
  where
    missing-injective : {x y : Field} → missing x ≡ missing y → x ≡ y
    missing-injective h = cc

check_fields-unsupported :
    (f : Field → Value) (xs : List Field) → check_fields f xs ≡ unsupported → ⊥
unfolding check_fields
check_fields-unsupported f [] h = cc
check_fields-unsupported f (x ∷ xs) h =
    if-cases (λ (v : Validation). v ≡ unsupported → ⊥) (is_present (field_of f x)) _ _
      (λ _ h'. check_fields-unsupported f xs h') (λ _ h'. cc) h

-- What the check of an event says: where it accepts, the type is known and each required field of it is
-- present, and where it names a field, that field is not.
unfoldable pub Judges : Event → Validation → Type 0
unfolding required_fields is_present
Judges e valid =
    (t : CallEvent) × (e.event_type ≡ some t)
    × All (λ x. is_present (field_of e.value_of x) ≡ true) (required_fields t)
Judges e unsupported = e.event_type ≡ none
Judges e (missing x) = is_present (field_of e.value_of x) ≡ false

-- The check of an event accepts where its type is known and each of the type's fields is present; it
-- refuses the type only where it is unknown, and names only a field that is not present.
pub validate_call_event-Judges : (e : Event) → Judges e (validate_call_event e)
unfolding validate_call_event Judges
validate_call_event-Judges e = of_type e.event_type e.value_of
  where
    of_result :
        (t : CallEvent) (f : Field → Value) (v : Validation)
        → check_fields f (required_fields t) ≡ v
        → Judges (record { event_type = some t; value_of = f }) v
    of_result t f valid h = (t, refl, check_fields-All f (required_fields t) h)
    of_result t f unsupported h = absurd (check_fields-unsupported f (required_fields t) h)
    of_result t f (missing x) h = check_fields-missing f x (required_fields t) h

    of_type :
        (o : Option CallEvent) (f : Field → Value)
        → Judges
            (record { event_type = o; value_of = f })
            (validate_call_event (record { event_type = o; value_of = f }))
    of_type none f = refl
    of_type (some t) f = of_result t f (check_fields f (required_fields t)) refl

-- An event that is created for a remote BYE, with a source, passes the check just where its reason is
-- neither null nor the empty string.
pub remote_bye-validates :
    (s r dialog notify propagate time : Value)
    → is_present s ≡ true
    → is_present (or_default r (string (text "remote-bye"))) ≡ true
    → validate_call_event (create_remote_bye_received_event s r dialog notify propagate time)
      ≡ valid
unfolding validate_call_event create_remote_bye_received_event
remote_bye-validates s r dialog notify propagate time hs hr =
    All-check_fields (remote_bye_fields s r dialog notify propagate time)
      (kind ∷ source ∷ reason ∷ []) (refl, (hs, (hr, tt)))

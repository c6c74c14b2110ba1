-- ===== src/Codec/Uds.antt =====
-- fielddeck/protocols/uds.py: the decoding of a UDS message. The hexadecimal texts of numbers are
-- the numbers.
pub mod Classify
pub mod Highest
mod Tests
use field_deck.Prelude.{
  ℕ, ◌+◌, ◌-◌, ◌*◌, ◌%◌, String, Bool, true, false, ◌&&◌, Option, none, some, List, [], ◌∷◌, length,
  if◌then◌else◌, leb, ltb, ◌==◌,
}
use field_deck.Prelude.Bytes.{Bytes}
use field_deck.Common.Permission.{
  PermissionLevel, passive, query, control, power, flash, destructive, rank,
}
use field_deck.Codec.UdsTables.{
  UdsService, services, nrc_names, data_identifiers, session_types, reset_types,
}

abbrev named_in : ℕ → List (ℕ × String) → Option String
named_in k [] = none
named_in k ((j, name) ∷ rest) = if j == k then some name else named_in k rest

abbrev pub service_in : ℕ → List UdsService → Option UdsService
service_in k [] = none
service_in k (s ∷ rest) = if s.sid == k then some s else service_in k rest

-- `SERVICES.get(sid)`
unfoldable pub find_service : ℕ → Option UdsService
find_service sid = service_in sid services

pub data Label : Type 0 where
  named : String → Label
  vendor_specific unknown_code plain_code : ℕ → Label
  unknown : Label

-- `_unknown_sid`
abbrev unknown_sid : Option ℕ → Label
unknown_sid none = unknown
unknown_sid (some sid) =
    if leb 0xa0 sid && leb sid 0xbe then vendor_specific sid else unknown_code sid

abbrev pub service_label : Option ℕ → Option UdsService → Label
service_label sid (some s) = named s.name
service_label sid none = unknown_sid sid

abbrev or_code : ℕ → Option String → Label
or_code k none = plain_code k
or_code k (some name) = named name

pub data MessageKind : Type 0 where
  empty negative_response response request : MessageKind

pub data SecurityPhase : Type 0 where
  request_seed send_key : SecurityPhase

pub data Detail : Type 0 where
  no_detail : Detail
  negative : Option ℕ → Option Label → Bool → Detail
  data_identifier : ℕ → Option String → Option Bytes → Detail
  session reset : Label → Detail
  security : ℕ → SecurityPhase → Detail
  routine : Label → ℕ → Detail
  download : ℕ → ℕ → Detail

pub record UdsMessage : Type 0 where
  pub kind : MessageKind
  pub service_id : Option ℕ
  pub service : Label
  pub permission_to_transmit : Option PermissionLevel
  pub detail : Detail

abbrev empty_message : UdsMessage
empty_message = record {
  kind = empty;
  service_id = none;
  service = unknown;
  permission_to_transmit = none;
  detail = no_detail;
}

abbrev pub first_byte : Bytes → Option ℕ
first_byte [] = none
first_byte (b ∷ bs) = some b

abbrev pub rest_of : Bytes → Bytes
rest_of [] = []
rest_of (b ∷ bs) = bs

abbrev pub looked_up : Option ℕ → Option UdsService
looked_up none = none
looked_up (some sid) = find_service sid

abbrev nrc_label : Option ℕ → Option Label
nrc_label none = none
nrc_label (some code) = elim (named_in code nrc_names) [
  | none ↦ some unknown
  | some name ↦ some (named name)
]

abbrev is_pending : Option ℕ → Bool
is_pending none = false
is_pending (some code) = code == 0x78

abbrev pub negative_message : Option ℕ → Option ℕ → UdsMessage
negative_message request_sid code = record {
  kind = negative_response;
  service_id = request_sid;
  service = service_label request_sid (looked_up request_sid);
  permission_to_transmit = none;
  detail = negative code (nrc_label code) (is_pending code);
}

abbrev is_some_service : Option UdsService → Bool
is_some_service none = false
is_some_service (some s) = true

abbrev pub is_positive : ℕ → Bool
is_positive first = leb 0x40 first && is_some_service (find_service (first - 0x40))

abbrev pub sid_of : ℕ → ℕ
sid_of first = if is_positive first then first - 0x40 else first

abbrev pub permission_of : Option UdsService → Option PermissionLevel
permission_of none = none
permission_of (some s) = some s.permission

abbrev routine_control : ℕ → Label
routine_control k = or_code k (named_in k ((1, "start") ∷ (2, "stop") ∷ (3, "requestResults") ∷ []))

-- The details of a body, by its service.
abbrev detail_of : ℕ → Bool → Bytes → Detail
detail_of sid positive [] = no_detail
detail_of sid positive (b ∷ []) =
    if sid == 0x10
    then session (or_code b (named_in (b % 0x80) session_types))
    else if sid == 0x11
    then reset (or_code b (named_in (b % 0x80) reset_types))
    else if sid == 0x27
    then security b (if b % 2 == 1 then request_seed else send_key)
    else no_detail
detail_of sid positive (b ∷ c ∷ body) =
    if sid == 0x22
    then data_identifier (b * 256 + c) (named_in (b * 256 + c) data_identifiers)
        (if positive then some body else none)
    else if sid == 0x10
    then session (or_code b (named_in (b % 0x80) session_types))
    else if sid == 0x11
    then reset (or_code b (named_in (b % 0x80) reset_types))
    else if sid == 0x27
    then security b (if b % 2 == 1 then request_seed else send_key)
    else if sid == 0x31
    then elim (first_byte body) [
      | none ↦ no_detail
      | some d ↦ routine (routine_control b) (c * 256 + d)
    ]
    else if sid == 0x34
    then download b c
    else no_detail

abbrev pub plain_message : ℕ → Bytes → UdsMessage
plain_message first body = record {
  kind = if is_positive first then response else request;
  service_id = some (sid_of first);
  service = service_label (some (sid_of first)) (find_service (sid_of first));
  permission_to_transmit = permission_of (find_service (sid_of first));
  detail = detail_of (sid_of first) (is_positive first) body;
}

-- `decode_message`
unfoldable pub decode_message : Bytes → UdsMessage
unfolding find_service
decode_message [] = empty_message
decode_message (first ∷ body) =
    if first == 0x7f
    then negative_message (first_byte body) (first_byte (rest_of body))
    else plain_message first body

abbrev pub higher : Option UdsService → PermissionLevel → PermissionLevel
higher none highest = highest
higher (some s) highest = if ltb (rank highest) (rank s.permission) then s.permission else highest

-- The loop of `summarize_exchange` over the messages' bytes.
unfoldable pub summarize_from : PermissionLevel → List Bytes → PermissionLevel
unfolding decode_message
summarize_from highest [] = highest
summarize_from highest (payload ∷ messages) =
    summarize_from (higher (looked_up (decode_message payload).service_id) highest) messages

-- `summarize_exchange`: the highest permission observed.
unfoldable pub summarize_exchange : List Bytes → PermissionLevel
unfolding summarize_from
summarize_exchange messages = summarize_from passive messages

-- ===== src/Codec/Uds/Classify.antt =====
-- Which service a UDS message belongs to.
use field_deck.Prelude.{
  ℕ, ◌+◌, true, false, some, ◌∷◌, if◌then◌else◌, ◌==◌, ◌≡◌, refl, sym, ap, subst, ◌∙◌, arith,
  Member, All, All-Member,
}
use field_deck.Prelude.Bytes.{Bytes}
use field_deck.Codec.UdsTables.{UdsService, services}
use field_deck.Codec.Uds.{
  UdsMessage, find_service, is_positive, sid_of, decode_message, plain_message, named, request,
  response, negative_response, service_label, permission_of,
}

-- What the table of services has to be for the messages to be told apart.
abbrev IsApart : UdsService → Type 0
IsApart s =
    (find_service s.sid ≡ some s)
    × (is_positive s.sid ≡ false)
    × (is_positive (s.sid + 0x40) ≡ true)
    × ((s.sid == 0x7f) ≡ false)
    × ((s.sid + 0x40 == 0x7f) ≡ false)

services-IsApart : All IsApart services
unfolding find_service
services-IsApart = (
  (refl, refl, refl, refl, refl),
  (
    (refl, refl, refl, refl, refl),
    (
      (refl, refl, refl, refl, refl),
      (
        (refl, refl, refl, refl, refl),
        (
          (refl, refl, refl, refl, refl),
          (
            (refl, refl, refl, refl, refl),
            (
              (refl, refl, refl, refl, refl),
              (
                (refl, refl, refl, refl, refl),
                (
                  (refl, refl, refl, refl, refl),
                  (
                    (refl, refl, refl, refl, refl),
                    (
                      (refl, refl, refl, refl, refl),
                      (
                        (refl, refl, refl, refl, refl),
                        (
                          (refl, refl, refl, refl, refl),
                          (
                            (refl, refl, refl, refl, refl),
                            (
                              (refl, refl, refl, refl, refl),
                              (
                                (refl, refl, refl, refl, refl),
                                (
                                  (refl, refl, refl, refl, refl),
                                  (
                                    (refl, refl, refl, refl, refl),
                                    (
                                      (refl, refl, refl, refl, refl),
                                      (
                                        (refl, refl, refl, refl, refl),
                                        (
                                          (refl, refl, refl, refl, refl),
                                          (
                                            (refl, refl, refl, refl, refl),
                                            (
                                              (refl, refl, refl, refl, refl),
                                              (
                                                (refl, refl, refl, refl, refl),
                                                (
                                                  (refl, refl, refl, refl, refl),
                                                  (
                                                    (refl, refl, refl, refl, refl),
                                                    ((refl, refl, refl, refl, refl), tt),
                                                  ),
                                                ),
                                              ),
                                            ),
                                          ),
                                        ),
                                      ),
                                    ),
                                  ),
                                ),
                              ),
                            ),
                          ),
                        ),
                      ),
                    ),
                  ),
                ),
              ),
            ),
          ),
        ),
      ),
    ),
  ),
)

-- A message of a kind is decoded as one of the service.
pub record IsOf (s : UdsService) (m : UdsMessage) : Type 0 where
  pub its_id : m.service_id ≡ some s.sid
  pub its_name : m.service ≡ named s.name

sid_of-request : (s : UdsService) → IsApart s → sid_of s.sid ≡ s.sid
sid_of-request s a = rw (a.1) refl

sid_of-response : (s : UdsService) → IsApart s → sid_of (s.sid + 0x40) ≡ s.sid
sid_of-response s a = rw (a.2) (omega arith)

plain_message-IsOf :
    (s : UdsService) (first : ℕ) (body : Bytes)
    → sid_of first ≡ s.sid
    → find_service s.sid ≡ some s
    → IsOf s (plain_message first body)
      × ((plain_message first body).permission_to_transmit ≡ some s.permission)
plain_message-IsOf s first body is found = (
  record {
    its_id = ap some is;
    its_name =
        ap (λ k. service_label (some k) (find_service k)) is
        ∙ ap (service_label (some s.sid)) found;
  },
  ap (λ k. permission_of (find_service k)) is ∙ ap permission_of found,
)

-- Every request of a service in the table, its positive response and its negative response are
-- decoded as what they are, whatever their bodies: with the service's id and name, and the first two
-- with the permission that sending the service takes.
pub record IsTold (s : UdsService) (body : Bytes) : Type 0 where
  pub is_request : (decode_message (s.sid ∷ body)).kind ≡ request
  pub request_of : IsOf s (decode_message (s.sid ∷ body))
  pub request_takes : (decode_message (s.sid ∷ body)).permission_to_transmit ≡ some s.permission
  pub is_response : (decode_message ((s.sid + 0x40) ∷ body)).kind ≡ response
  pub response_of : IsOf s (decode_message ((s.sid + 0x40) ∷ body))
  pub is_negative : (decode_message (0x7f ∷ s.sid ∷ body)).kind ≡ negative_response
  pub negative_of : IsOf s (decode_message (0x7f ∷ s.sid ∷ body))

plainly :
    (first : ℕ) (body : Bytes)
    → (first == 0x7f) ≡ false
    → decode_message (first ∷ body) ≡ plain_message first body
unfolding decode_message
plainly first body h = rw h refl

pub decode_message-IsTold : (s : UdsService) (body : Bytes) → Member s services → IsTold s body
unfolding decode_message
decode_message-IsTold s body m =
    let a = All-Member IsApart s services services-IsApart m in
    let asks : decode_message (s.sid ∷ body) ≡ plain_message s.sid body = plainly s.sid body a.3 in
    let answers : decode_message ((s.sid + 0x40) ∷ body) ≡ plain_message (s.sid + 0x40) body =
      plainly (s.sid + 0x40) body a.4 in
    let asked = plain_message-IsOf s s.sid body (sid_of-request s a) a.0 in
    let answered = plain_message-IsOf s (s.sid + 0x40) body (sid_of-response s a) a.0 in
    record {
      is_request = ap (λ z. z.kind) asks ∙ ap (λ b. if b then response else request) a.1;
      request_of = subst (IsOf s) (sym asks) asked.0;
      request_takes = ap (λ z. z.permission_to_transmit) asks ∙ asked.1;
      is_response = ap (λ z. z.kind) answers ∙ ap (λ b. if b then response else request) a.2;
      response_of = subst (IsOf s) (sym answers) answered.0;
      is_negative = refl;
      negative_of = record { its_id = refl; its_name = ap (service_label (some s.sid)) a.0 };
    }

-- ===== src/Tickets/Qr.antt =====
-- QR tokens (modules/tickets/qr/qr.go). A text is a list of bytes. What Go's libraries do is a `Codec`: the
-- base64 text of bytes, the JSON text of a payload, the text of an identifier, `strconv.Atoi`, and the
-- HMAC under the secret.
use ivyticketing.Base.{ℕ, Bool, false, Option, none, some, List, [], ◌∷◌, ◌++◌, ◌==◌, if◌then◌else◌}

pub record Payload : Type 0 where
  pub tid : List ℕ
  pub eid : List ℕ
  pub v : ℕ

pub record TicketRef : Type 0 where
  pub ticket_id : ℕ
  pub event_id : ℕ
  pub version : ℕ

pub data QrError : Type 0 where
  malformed_token unsupported_version invalid_signature : QrError

pub data Verified (A : Type 0) : Type 0 where
  accepted : A → Verified A
  rejected : QrError → Verified A

pub record Codec : Type 0 where
  pub encode : List ℕ → List ℕ
  pub decode : List ℕ → Option (List ℕ)
  pub marshal : Payload → List ℕ
  pub unmarshal : List ℕ → Option Payload
  pub id_text : ℕ → List ℕ
  pub parse_id : List ℕ → Option ℕ
  pub atoi : List ℕ → Option ℕ
  pub hmac : List ℕ → List ℕ
  pub same_bytes : List ℕ → List ℕ → Bool

-- `CurrentVersion`, and its text.
abbrev pub current_version : ℕ
current_version = 1

abbrev pub version_text : List ℕ
version_text = 49 ∷ []

-- The byte of ".".
abbrev pub dot : ℕ
dot = 46

unfoldable pub signing_input : List ℕ → List ℕ → List ℕ
signing_input ver payload = ver ++ (dot ∷ payload)

abbrev pub first_part : ℕ → List (List ℕ) → List (List ℕ)
first_part c [] = (c ∷ []) ∷ []
first_part c (p ∷ ps) = (c ∷ p) ∷ ps

-- `strings.Split(token, ".")`.
unfoldable pub split_dots : List ℕ → List (List ℕ)
split_dots [] = [] ∷ []
split_dots (c ∷ cs) = let rest = split_dots cs in if c == dot then [] ∷ rest else first_part c rest

unfoldable pub with_three :
    {A : Type 0} → List (List ℕ) → (List ℕ → List ℕ → List ℕ → Verified A) → Verified A
with_three (a ∷ b ∷ c ∷ []) f = f a b c
with_three [] f = rejected malformed_token
with_three (a ∷ []) f = rejected malformed_token
with_three (a ∷ b ∷ []) f = rejected malformed_token
with_three (a ∷ b ∷ c ∷ d ∷ ps) f = rejected malformed_token

unfoldable pub need : {A B : Type 0} → Option A → (A → Verified B) → Verified B
need none f = rejected malformed_token
need (some a) f = f a

-- `err != nil || ver != CurrentVersion`.
abbrev pub is_current : Option ℕ → Bool
is_current none = false
is_current (some n) = n == current_version

module _ (k : Codec) where
  unfoldable pub mac : List ℕ → List ℕ
  mac input = k.encode (k.hmac input)

  -- `Sign`.
  unfoldable pub sign : ℕ → ℕ → List ℕ
  unfolding mac signing_input
  sign ticket_id event_id =
      let body = k.encode (
        k.marshal
          (record { tid = k.id_text ticket_id; eid = k.id_text event_id; v = current_version })) in
      let input = signing_input version_text body in input ++ (dot ∷ mac input)

  unfoldable pub decode_payload : List ℕ → List ℕ → Verified TicketRef
  unfolding need
  decode_payload ver payload =
      if is_current (k.atoi ver)
      then need (k.decode payload) (λ raw. need (k.unmarshal raw) (λ p.
        need (k.parse_id p.tid) (λ t.
          need (k.parse_id p.eid)
            (λ e. accepted (record { ticket_id = t; event_id = e; version = p.v })))))
      else rejected unsupported_version

  unfoldable pub verify_parts : List ℕ → List ℕ → List ℕ → Verified TicketRef
  unfolding mac signing_input decode_payload
  verify_parts ver payload sig =
      if is_current (k.atoi ver)
      then if k.same_bytes (mac (signing_input ver payload)) sig
        then decode_payload ver payload
        else rejected invalid_signature
      else rejected unsupported_version

  -- `Verify`.
  unfoldable pub verify : List ℕ → Verified TicketRef
  unfolding with_three split_dots verify_parts
  verify token = with_three (split_dots token) verify_parts

  -- `DecodeStructure`.
  unfoldable pub decode_structure : List ℕ → Verified TicketRef
  unfolding with_three split_dots decode_payload
  decode_structure token =
      with_three (split_dots token) (λ ver payload sig. decode_payload ver payload)

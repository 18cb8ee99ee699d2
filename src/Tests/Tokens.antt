-- ===== src/Tests/Tokens.antt =====
-- A small codec for QR tokens, and a token of it.
use ivyticketing.Base.{
  ℕ, ◌+◌, ◌-◌, ◌≡◌, refl, ap, Bool, true, false, Option, none, some, List, [], ◌∷◌, ◌++◌, ◌==◌, map,
  arith, if◌then◌else◌, Bool-cases, inl, inr,
}
use ivyticketing.Tickets.Qr.{
  Payload, TicketRef, accepted, Codec, is_current, signing_input, mac, sign, verify,
  decode_structure, dot,
}
use ivyticketing.Tickets.Signing.{Lawful, NoDot, ref_of, verify_signed}

-- Bytes moved above the dot, and a number as one byte.
abbrev pub raised : List ℕ → List ℕ
raised = map (λ c. c + 47)

abbrev pub lowered : List ℕ → List ℕ
lowered = map (λ c. c - 47)

abbrev pub read_payload : List ℕ → Option Payload
read_payload (t ∷ e ∷ n ∷ []) = some (record { tid = t ∷ []; eid = e ∷ []; v = n })
read_payload _ = none

abbrev pub read_number : List ℕ → Option ℕ
read_number (i ∷ []) = some i
read_number _ = none

abbrev pub read_version : List ℕ → Option ℕ
read_version (c ∷ []) = if c == 49 then some 1 else none
read_version _ = none

abbrev pub equal_bytes : List ℕ → List ℕ → Bool
equal_bytes [] [] = true
equal_bytes [] (b ∷ bs) = false
equal_bytes (a ∷ as_) [] = false
equal_bytes (a ∷ as_) (b ∷ bs) = if a == b then equal_bytes as_ bs else false

abbrev pub small_codec : Codec
small_codec = record {
  encode = raised;
  decode = λ t. some (lowered t);
  marshal = λ p. p.tid ++ (p.eid ++ (p.v ∷ []));
  unmarshal = read_payload;
  id_text = λ i. i ∷ [];
  parse_id = read_number;
  atoi = read_version;
  hmac = λ b. b;
  same_bytes = equal_bytes;
}

raised_plain : (b : List ℕ) → NoDot (raised b)
raised_plain [] = tt
raised_plain (c ∷ b) = (ground arith, raised_plain b)

lowered-raised : (b : List ℕ) → lowered (raised b) ≡ b
lowered-raised [] = refl
lowered-raised (c ∷ b) = λ i. (back c i) ∷ (lowered-raised b i)
  where
    back : (n : ℕ) → n + 47 - 47 ≡ n
    back n = omega arith

equal_bytes_self : (b : List ℕ) → equal_bytes b b ≡ true
equal_bytes_self [] = refl
equal_bytes_self (c ∷ b) = ground (arith, equal_bytes_self b)

equal_bytes-true : (a b : List ℕ) → equal_bytes a b ≡ true → a ≡ b
equal_bytes-true [] [] h = refl
equal_bytes-true [] (b ∷ bs) h = cc
equal_bytes-true (a ∷ as_) [] h = cc
equal_bytes-true (a ∷ as_) (b ∷ bs) h = elim (Bool-cases (a == b)) [
  | inl e ↦ λ i. (same a b e i) ∷ (equal_bytes-true as_ bs (rw e at h) i)
  | inr e ↦ absurd (no (rw e at h))
]
  where
    same : (m n : ℕ) → (m == n) ≡ true → m ≡ n
    same m n e = ground (arith, e)

    no : false ≡ true → ⊥
    no e = cc

pub small_codec-Lawful : Lawful small_codec
small_codec-Lawful = record {
  encode_plain = raised_plain;
  decode-encode = λ b. ap some (lowered-raised b);
  unmarshal-marshal = λ t e. refl;
  parse_id-id_text = λ i. refl;
  atoi-version = refl;
  same_bytes-self = equal_bytes_self;
  same_bytes-true = equal_bytes-true;
}

verify_signed_example :
    ((t e : ℕ) → verify small_codec (sign small_codec t e) ≡ accepted (ref_of small_codec t e))
    × ((token : List ℕ) (r : TicketRef)
        → verify small_codec token ≡ accepted r
        → (ver : List ℕ) × (body : List ℕ) × (token
            ≡ signing_input ver body ++ (dot ∷ mac small_codec (signing_input ver body)))
          × (is_current (small_codec.atoi ver) ≡ true)
          × (decode_structure small_codec token ≡ accepted r))
verify_signed_example = verify_signed small_codec small_codec-Lawful

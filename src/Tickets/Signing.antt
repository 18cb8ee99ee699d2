-- ===== src/Tickets/Signing.antt =====
-- Which tokens `Verify` accepts (modules/tickets/qr/qr.go).
use ivyticketing.Base.{
  ℕ, ◌≡◌, refl, sym, ap, ◌∙◌, ◌⊎◌, Bool, true, false, some, List, [], ◌∷◌, ◌++◌, ◌==◌, All, arith,
  if◌then◌else◌, Bool-cases, inl, inr,
}
use ivyticketing.Tickets.Qr.{
  Payload, TicketRef, Verified, accepted, Codec, current_version, version_text, dot, signing_input,
  first_part, split_dots, with_three, need, is_current, mac, sign, decode_payload, verify_parts,
  verify, decode_structure,
}

abbrev pub NoDot : List ℕ → Type 0
NoDot = All (λ c. (c == dot) ≡ false)

-- What Go's libraries do, of which the tokens make use.
pub record Lawful (k : Codec) : Type 0 where
  pub encode_plain : (b : List ℕ) → NoDot (k.encode b)
  pub decode-encode : (b : List ℕ) → k.decode (k.encode b) ≡ some b
  pub unmarshal-marshal :
      (t e : ℕ)
      → (let p : Payload = record { tid = k.id_text t; eid = k.id_text e; v = current_version } in
          k.unmarshal (k.marshal p) ≡ some p)
  pub parse_id-id_text : (i : ℕ) → k.parse_id (k.id_text i) ≡ some i
  pub atoi-version : k.atoi version_text ≡ some current_version
  pub same_bytes-self : (b : List ℕ) → k.same_bytes b b ≡ true
  pub same_bytes-true : (a b : List ℕ) → k.same_bytes a b ≡ true → a ≡ b

split_plain : (a : List ℕ) → NoDot a → split_dots a ≡ a ∷ []
unfolding split_dots
split_plain [] n = refl
split_plain (c ∷ a) n = rw (n.0, split_plain a n.1) refl

split-dot : (a b : List ℕ) → NoDot a → split_dots (a ++ (dot ∷ b)) ≡ a ∷ split_dots b
unfolding split_dots
split-dot [] b n = refl
split-dot (c ∷ a) b n = rw (n.0, split-dot a b n.1) refl

three_parts :
    (a b c : List ℕ)
    → NoDot a
    → NoDot b
    → NoDot c
    → split_dots (signing_input a b ++ (dot ∷ c)) ≡ a ∷ b ∷ c ∷ []
unfolding signing_input
three_parts a b c n m o =
    ap split_dots (append_three a b c)
    ∙ split-dot a (b ++ (dot ∷ c)) n
    ∙ ap (λ ps. a ∷ ps) (split-dot b c m ∙ ap (λ ps. b ∷ ps) (split_plain c o))
  where
    append_three : (a b c : List ℕ) → (a ++ (dot ∷ b)) ++ (dot ∷ c) ≡ a ++ (dot ∷ (b ++ (dot ∷ c)))
    append_three [] b c = refl
    append_three (x ∷ a) b c = ap (λ t. x ∷ t) (append_three a b c)

-- The parts put together again.
joined : List (List ℕ) → List ℕ
joined [] = []
joined (p ∷ []) = p
joined (p ∷ q ∷ ps) = p ++ (dot ∷ joined (q ∷ ps))

joined-first_part :
    (c : ℕ) (p : List ℕ) (ps : List (List ℕ)) → joined (first_part c (p ∷ ps)) ≡ c ∷ joined (p ∷ ps)
unfolding joined
joined-first_part c p [] = refl
joined-first_part c p (q ∷ ps) = refl

joined-split_dots :
    (t : List ℕ)
    → (p : List ℕ) × (ps : List (List ℕ)) × (split_dots t ≡ p ∷ ps) × (joined (p ∷ ps) ≡ t)
unfolding joined split_dots
joined-split_dots [] = ([], [], refl, refl)
joined-split_dots (c ∷ t) =
    let (p, ps, e, j) = joined-split_dots t in
    elim (Bool-cases (c == dot)) [
      | inl f ↦
          rw (e, f) ([], p ∷ ps, refl, ap (λ x. dot ∷ x) j ∙ ap (λ x. x ∷ t) (ground (arith, f)))
      | inr f ↦ rw (e, f) (c ∷ p, ps, refl, joined-first_part c p ps ∙ ap (λ x. c ∷ x) j)
    ]

three_of :
    {A : Type 0} (ps : List (List ℕ)) (f : List ℕ → List ℕ → List ℕ → Verified A) {a : A}
    → with_three ps f ≡ accepted a
    → (x : List ℕ) × (y : List ℕ) × (z : List ℕ) × (ps ≡ x ∷ y ∷ z ∷ []) × (f x y z ≡ accepted a)
unfolding with_three
three_of [] f h = cc
three_of (a ∷ []) f h = cc
three_of (a ∷ b ∷ []) f h = cc
three_of (a ∷ b ∷ c ∷ []) f h = (a, b, c, refl, h)
three_of (a ∷ b ∷ c ∷ d ∷ ps) f h = cc

unless_rejected :
    (b : Bool) (x y : Verified TicketRef) {r : TicketRef}
    → (if b then x else y) ≡ accepted r
    → ((b ≡ true) × (x ≡ accepted r)) ⊎ (y ≡ accepted r)
unless_rejected true x y h = inl (refl, h)
unless_rejected false x y h = inr h

both_hold :
    (a b : Bool) (x y z : Verified TicketRef) {r : Verified TicketRef}
    → a ≡ true
    → b ≡ true
    → x ≡ r
    → (if a then if b then x else y else z) ≡ r
both_hold true true x y z e f g = g
both_hold true false x y z e f g = cc
both_hold false b x y z e f g = cc

joined_three : (x y z : List ℕ) → joined (x ∷ y ∷ z ∷ []) ≡ signing_input x y ++ (dot ∷ z)
unfolding joined signing_input
joined_three [] y z = refl
joined_three (c ∷ x) y z = ap (λ t. c ∷ t) (joined_three x y z)

tokens_of : (token : List ℕ) → joined (split_dots token) ≡ token
tokens_of token = let (p, ps, e, j) = joined-split_dots token in ap joined e ∙ j

module _ (k : Codec) where
  parts_accepted :
      (x y z : List ℕ) {r : TicketRef}
      → ((a b : List ℕ) → k.same_bytes a b ≡ true → a ≡ b)
      → verify_parts k x y z ≡ accepted r
      → (is_current (k.atoi x) ≡ true)
        × (mac k (signing_input x y) ≡ z)
        × (decode_payload k x y ≡ accepted r)
  unfolding verify_parts
  parts_accepted x y z law h = elim (unless_rejected (is_current (k.atoi x)) _ _ h) [
    | inr e ↦ cc
    | inl (current, h1) ↦
        elim (unless_rejected (k.same_bytes (mac k (signing_input x y)) z) _ _ h1) [
          | inr e ↦ cc
          | inl (same, h2) ↦ (current, law _ _ same, h2)
        ]
  ]

  abbrev pub ref_of : ℕ → ℕ → TicketRef
  ref_of t e = record { ticket_id = t; event_id = e; version = current_version }

  sign_decodes :
      (w : Lawful k) (t e : ℕ)
      → decode_payload k version_text (
          k.encode
            (k.marshal (record { tid = k.id_text t; eid = k.id_text e; v = current_version })))
        ≡ accepted (ref_of t e)
  unfolding decode_payload need
  sign_decodes w t e =
      rw
        (
          w.atoi-version,
          need,
          w.decode-encode
              (k.marshal (record { tid = k.id_text t; eid = k.id_text e; v = current_version })),
          w.unmarshal-marshal t e,
          w.parse_id-id_text t,
          w.parse_id-id_text e,
        )
        refl

  sign_verifies : (w : Lawful k) (t e : ℕ) → verify k (sign k t e) ≡ accepted (ref_of t e)
  unfolding verify sign verify_parts mac
  sign_verifies w t e =
      let body : List ℕ =
        k.encode
          (k.marshal (record { tid = k.id_text t; eid = k.id_text e; v = current_version })) in
      let input = signing_input version_text body in
      ap (λ ps. with_three ps (verify_parts k))
        (three_parts version_text body (mac k input) (refl, tt) (w.encode_plain _)
          (w.encode_plain _))
      ∙ both_hold _ _ _ _ _ (ap is_current w.atoi-version) (w.same_bytes-self (mac k input))
          (sign_decodes w t e)

-- Where base64, JSON, identifiers and the comparison of bytes do what they promise: the token that is
-- signed for a ticket and an event is verified as these, in the current version; and a token that is
-- verified is one whose last part is the signature of the rest, in the current version, and it reads
-- the same without the check of the signature.
pub verify_signed :
    (k : Codec)
    → Lawful k
    → ((t e : ℕ) → verify k (sign k t e) ≡ accepted (ref_of k t e))
      × ((token : List ℕ) (r : TicketRef)
          → verify k token ≡ accepted r
          → (ver : List ℕ) × (body : List ℕ) × (token
              ≡ signing_input ver body ++ (dot ∷ mac k (signing_input ver body)))
            × (is_current (k.atoi ver) ≡ true)
            × (decode_structure k token ≡ accepted r))
unfolding verify decode_structure with_three
verify_signed k w = (
  sign_verifies k w,
  λ token r h.
      let (x, y, z, parts, g) = three_of (split_dots token) (verify_parts k) h in
      let (current, signature, decoded) = parts_accepted k x y z w.same_bytes-true g in
      (
        x,
        y,
        sym (tokens_of token)
            ∙ ap joined parts
            ∙ joined_three x y z
            ∙ ap (λ s. signing_input x y ++ (dot ∷ s)) (sym signature),
        current,
        ap (λ ps. with_three ps (λ ver payload sig. decode_payload k ver payload)) parts ∙ decoded,
      ),
)

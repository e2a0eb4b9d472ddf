-- ===== src/Jwt/Authentic.antt =====
-- What the signature check of a token establishes.
use Prim.Native.Char.{Char}
use latte_rs.Base.{
  ℕ, String, ◌<>◌, ◌≡◌, refl, sym, ap, ◌∙◌, ◌↔◌, Bool, true, false, some, List, [], ◌∷◌, str_eq,
  eq_iff, length, get_or, and_then, split, Result, ok, ensure, All, >>=-eq-ok, map_err-eq-ok,
  ensure-eq-ok, ok_or-eq-ok, ==→eq, ◌==◌, if◌then◌else◌,
}
use text.Mathlib.TextPositions.{eq_refl}
use text.Mathlib.TextLemmas.{nil-append, cons-append}
use mathlib.Core.Path.{subst}
use latte_rs.Base.Text.Split.{join, Lacks, join-split, split-Lacks, split_of_Lacks, split-append}
use latte_rs.Time.{SystemTime, unix_epoch}
use latte_rs.Json.{Value, Map, as_str, as_object, field}
use latte_rs.Crates.{Crates, Bytes}
use latte_rs.Errors.{VerifyError, wrong_issuer}
use latte_rs.Jwt.{
  three_parts, check_header, decode_claims, check_signature, claim_str, parse_and_verify_inner,
  check_time_claims, parse_and_verify, parse_and_verify_ignoring_expiry,
  parse_and_verify_with_infinite_leeway, u64_max,
}
use latte_rs.Jwt.Times.{IsTimely, IsClock, check_time_claims_iff}

three_parts-eq-ok :
    (parts : List String) {h p s : String}
    → three_parts parts ≡ ok (h, p, s)
    → parts ≡ h ∷ p ∷ s ∷ []
unfolding three_parts
three_parts-eq-ok (_ ∷ _ ∷ _ ∷ []) e = cc
three_parts-eq-ok parts e = cc

abbrev dot : Char
dot = "."

dot-append : (s : String) → "." <> s ≡ String.◌∷◌ dot s
dot-append s = cons-append dot "" s ∙ ap (String.◌∷◌ dot) (nil-append s)

join-three : (h p s : String) → join dot (h ∷ p ∷ s ∷ []) ≡ h <> "." <> p <> "." <> s
join-three h p s = rw (dot-append s, dot-append (p <> (String.◌∷◌ dot s)))

split-three :
    (h p s : String)
    → Lacks dot h
    → Lacks dot p
    → Lacks dot s
    → split dot (h <> "." <> p <> "." <> s) ≡ h ∷ p ∷ s ∷ []
split-three h p s a b c = rw (← join-three h p s) (
    split-append dot h (p <> (String.◌∷◌ dot s)) a
    ∙ ap (λ ps. h ∷ ps) (split-append dot p s b ∙ ap (λ ps. p ∷ ps) (split_of_Lacks dot s c)))

-- A token is cut into exactly the three parts that its two dots separate.
three_parts_iff :
    (token h p s : String)
    → (three_parts (split dot token) ≡ ok (h, p, s))
      ↔ ((token ≡ h <> "." <> p <> "." <> s) × Lacks dot h × Lacks dot p × Lacks dot s)
unfolding three_parts
three_parts_iff token h p s = (
  (λ e.
      let cut = three_parts-eq-ok (split dot token) e in
      let all : All (Lacks dot) (h ∷ p ∷ s ∷ []) = rw cut at (split-Lacks dot token) in
      (
        sym (join-split dot token) ∙ ap (join dot) cut ∙ join-three h p s,
        all.0,
        all.1.0,
        all.1.1.0,
      )),
  (λ (e, a, b, c). rw (e, split-three h p s a b c)),
)

module _ (C : Crates) where
  open C use {Number, from_slice, base64_decode, VerifyingKey, verify_strict}

  -- The header is JSON that names EdDSA.
  pub record IsEdDsa (header_b64 : String) : Type 0 where
    pub bytes : Bytes
    pub header : Value Number
    pub decoded : base64_decode header_b64 ≡ ok bytes
    pub parsed : from_slice bytes ≡ ok header
    pub alg : get_or "" (and_then (field "alg" header) as_str) ≡ "EdDSA"

  -- The payload is a JSON object with these claims.
  pub record Claims (payload_b64 : String) (claims : Map Number) : Type 0 where
    pub bytes : Bytes
    pub payload : Value Number
    pub decoded : base64_decode payload_b64 ≡ ok bytes
    pub parsed : from_slice bytes ≡ ok payload
    pub is_object : as_object payload ≡ some claims

  -- The signature has 64 bytes and verifies against the key.
  pub record IsSignedBy (key : VerifyingKey) (signing_input sig_b64 : String) : Type 0 where
    pub bytes : Bytes
    pub decoded : base64_decode sig_b64 ≡ ok bytes
    pub size : length bytes ≡ 64
    pub verified : verify_strict key signing_input bytes ≡ true

  check_header_iff :
      (header_b64 : String) → (check_header C header_b64 ≡ ok tt) ↔ IsEdDsa header_b64
  unfolding check_header
  check_header_iff header_b64 = (
    (λ e.
        let (bytes, d, e₁) = >>=-eq-ok _ _ e in
        let (header, p, e₂) = >>=-eq-ok _ _ e₁ in
        record {
          bytes = bytes;
          header = header;
          decoded = map_err-eq-ok _ _ d;
          parsed = map_err-eq-ok _ _ p;
          alg = (eq_iff _ _).0 (ensure-eq-ok _ _ e₂);
        }),
    (λ h. rw (h.decoded, h.parsed, h.alg)),
  )

  decode_claims_iff :
      (payload_b64 : String) (claims : Map Number)
      → (decode_claims C payload_b64 ≡ ok claims) ↔ Claims payload_b64 claims
  unfolding decode_claims
  decode_claims_iff payload_b64 claims = (
    (λ e.
        let (bytes, d, e₁) = >>=-eq-ok _ _ e in
        let (payload, p, e₂) = >>=-eq-ok _ _ e₁ in
        record {
          bytes = bytes;
          payload = payload;
          decoded = map_err-eq-ok _ _ d;
          parsed = map_err-eq-ok _ _ p;
          is_object = ok_or-eq-ok _ _ e₂;
        }),
    (λ h. rw (h.decoded, h.parsed, h.is_object)),
  )

  check_signature_iff :
      (key : VerifyingKey) (signing_input sig_b64 : String)
      → (check_signature C key signing_input sig_b64 ≡ ok tt) ↔ IsSignedBy key signing_input sig_b64
  unfolding check_signature
  check_signature_iff key signing_input sig_b64 = (
    (λ e.
        let (bytes, d, e₁) = >>=-eq-ok _ _ e in
        let (_, size, e₂) = >>=-eq-ok _ _ e₁ in
        record {
          bytes = bytes;
          decoded = map_err-eq-ok _ _ d;
          size = ==→eq _ _ (ensure-eq-ok _ _ size);
          verified = ensure-eq-ok _ _ e₂;
        }),
    (λ h. rw (h.decoded, h.size, h.verified)),
  )

  -- A token of three dot-separated parts that hold no further dot: an EdDSA header, these claims,
  -- and a signature by `key` over the first two parts; issued by `issuer`.
  pub record IsAuthentic (token : String) (key : VerifyingKey) (issuer : String)
      (claims : Map Number) : Type 0 where
    pub header : String
    pub payload : String
    pub sig : String
    pub shape : token ≡ header <> "." <> payload <> "." <> sig
    pub no_more_dots : Lacks dot header × Lacks dot payload × Lacks dot sig
    pub eddsa : IsEdDsa header
    pub decoded : Claims payload claims
    pub signed : IsSignedBy key (header <> "." <> payload) sig
    pub issued_by : get_or "" (claim_str C claims "iss") ≡ issuer

  abbrev times_pass : Map Number → SystemTime → ℕ → Bool → Result (Unit {0}) VerifyError
  times_pass claims now leeway_secs check_exp =
      if leeway_secs == u64_max then ok tt else check_time_claims C claims now leeway_secs check_exp

  inner_iff :
      (token : String) (key : VerifyingKey) (issuer : String) (now : SystemTime) (leeway_secs : ℕ)
      (check_exp : Bool) (claims : Map Number)
      → (parse_and_verify_inner C token key issuer now leeway_secs check_exp ≡ ok claims) ↔ (
          IsAuthentic token key issuer claims
          × (times_pass claims now leeway_secs check_exp ≡ ok tt))
  unfolding parse_and_verify_inner
  inner_iff token key issuer now leeway_secs check_exp claims = (
    (λ e.
        let (parts, cut, e₁) = >>=-eq-ok (three_parts (split dot token)) _ e in
        let (_, header, e₂) = >>=-eq-ok (check_header C parts.0) _ e₁ in
        let (found, payload, e₃) = >>=-eq-ok (decode_claims C parts.1) _ e₂ in
        let (_, sig, e₄) =
          >>=-eq-ok (check_signature C key (parts.0 <> "." <> parts.1) parts.2) _ e₃ in
        let (_, iss, e₅) =
          >>=-eq-ok (ensure (str_eq (get_or "" (claim_str C found "iss")) issuer) wrong_issuer) _
            e₄ in
        let (_, times, e₆) = >>=-eq-ok (times_pass found now leeway_secs check_exp) _ e₅ in
        let same : found ≡ claims = cc in
        let (shape, a, b, c) = (three_parts_iff token parts.0 parts.1 parts.2).0 cut in
        subst
          (λ cs.
            IsAuthentic token key issuer cs × (times_pass cs now leeway_secs check_exp ≡ ok tt))
          same
          (
            record {
              header = parts.0;
              payload = parts.1;
              sig = parts.2;
              shape = shape;
              no_more_dots = (a, b, c);
              eddsa = (check_header_iff parts.0).0 header;
              decoded = (decode_claims_iff parts.1 found).0 payload;
              signed = (check_signature_iff key (parts.0 <> "." <> parts.1) parts.2).0 sig;
              issued_by = (eq_iff _ _).0 (ensure-eq-ok _ _ iss);
            },
            times,
          )),
    (λ p.
        let (a, t) = p in
        rw (
          (three_parts_iff token a.header a.payload a.sig).1
              (a.shape, a.no_more_dots.0, a.no_more_dots.1, a.no_more_dots.2),
          (check_header_iff a.header).1 a.eddsa,
          (decode_claims_iff a.payload claims).1 a.decoded,
          (check_signature_iff key (a.header <> "." <> a.payload) a.sig).1 a.signed,
          a.issued_by,
          eq_refl issuer,
          t,
        )),
  )

  -- What each way to verify a token accepts, with a clock between the epoch and the end of an i64
  -- of seconds: authentic tokens whose time claims pass with zero leeway; the same with `exp` left
  -- aside; and authentic tokens whatever their time claims.
  pub parse_and_verify_iff :
      (token : String) (key : VerifyingKey) (issuer : String) (now : SystemTime)
      (claims : Map Number)
      → IsClock now
      → ((parse_and_verify C token key issuer now ≡ ok claims)
          ↔ (IsAuthentic token key issuer claims × IsTimely C claims now true))
        × ((parse_and_verify_ignoring_expiry C token key issuer now ≡ ok claims)
            ↔ (IsAuthentic token key issuer claims × IsTimely C claims now false))
        × ((parse_and_verify_with_infinite_leeway C token key issuer ≡ ok claims)
            ↔ IsAuthentic token key issuer claims)
  unfolding parse_and_verify parse_and_verify_ignoring_expiry parse_and_verify_with_infinite_leeway
  parse_and_verify_iff token key issuer now claims h =
      let full = inner_iff token key issuer now 0 true claims in
      let ignoring = inner_iff token key issuer now 0 false claims in
      let infinite = inner_iff token key issuer unix_epoch u64_max false claims in
      let checked = check_time_claims_iff C claims now true h in
      let unchecked = check_time_claims_iff C claims now false h in
      (
        (λ e. let (a, t) = full.0 e in (a, checked.0 t), λ p. full.1 (p.0, checked.1 p.1)),
        (
          λ e. let (a, t) = ignoring.0 e in (a, unchecked.0 t),
          λ p. ignoring.1 (p.0, unchecked.1 p.1),
        ),
        (λ e. (infinite.0 e).0, λ a. infinite.1 (a, refl)),
      )

  payload_of :
      {token : String} {key : VerifyingKey} {issuer : String} {claims : Map Number}
      (a : IsAuthentic token key issuer claims)
      → three_parts (split dot token) ≡ ok (a.header, a.payload, a.sig)
  payload_of {token} a =
      (three_parts_iff token a.header a.payload a.sig).1
        (a.shape, a.no_more_dots.0, a.no_more_dots.1, a.no_more_dots.2)

  -- The claims of a token do not depend on the key that verified it.
  pub IsAuthentic-unique :
      {token : String} {key key' : VerifyingKey} {issuer : String} {claims claims' : Map Number}
      → IsAuthentic token key issuer claims
      → IsAuthentic token key' issuer claims'
      → claims ≡ claims'
  IsAuthentic-unique {claims} {claims'} a b =
      let same : a.payload ≡ b.payload = cc (payload_of a, payload_of b) in
      cc (
        ap (decode_claims C) same,
        (decode_claims_iff a.payload claims).1 a.decoded,
        (decode_claims_iff b.payload claims').1 b.decoded,
      )

-- ===== src/Wire/Replies.antt =====
-- Which replies give a token.
use latte_rs.Base.{
  ℕ, ◌≤◌, ◌<◌, ◌≡◌, ◌≢◌, refl, ◌↔◌, String, true, arith, Result, ok, err, is_empty_iff, >>=-eq-ok,
  map_err-eq-ok, Bool-cases, inl, inr, not, ◌||◌, is_empty, ◌>>◌, ensure, ap, sym, ◌∙◌, Bool,
}
use latte_rs.Crates.{Bytes}
use latte_rs.Errors.{LatteError, server}
use latte_rs.Domain.{CertChain}
use latte_rs.Wire.{TokenResponse, ErrorResponse, Reply, is_success, call, post}

module _ (show_status : ℕ → String) (decode_error : Bytes → Result ErrorResponse String)
    (decode : Bytes → Result TokenResponse String) (path : String) where
  -- A reply that gives this token with this chain.
  pub record Gives (sent : Result Reply LatteError) (token : String) (chain : CertChain)
      : Type 0 where
    pub reply : Reply
    pub bytes : Bytes
    pub arrived : sent ≡ ok reply
    pub success : (200 ≤ reply.status) × (reply.status < 300)
    pub whole : reply.body ≡ ok bytes
    pub decoded : decode bytes ≡ ok (record { token = token; chain = chain })
    pub not_empty :
        (token ≢ "") × (chain.daily ≢ "") × (chain.project ≢ "") × (chain.submaster ≢ "")

  arrived_reply :
      (sent : Result Reply LatteError) (t : TokenResponse)
      → call show_status decode_error decode path sent ≡ ok t
      → (reply : Reply) × (bytes : Bytes) × (sent ≡ ok reply)
        × (is_success reply.status ≡ true)
        × (reply.body ≡ ok bytes)
        × (decode bytes ≡ ok t)
  unfolding call
  arrived_reply (err e) t h = cc
  arrived_reply (ok reply) t h = elim (Bool-cases (is_success reply.status)) [
    | inr failed ↦ cc (rw (failed, call) at h)
    | inl success ↦
        let (bytes, whole, decoded) =
          >>=-eq-ok reply.body decode (map_err-eq-ok _ _ (rw (success, call) at h)) in
        (reply, bytes, refl, success, whole, decoded)
  ]

  tested :
      (t : TokenResponse) (r : String × CertChain)
      → (ensure (not (is_empty t.token)) (server "server returned empty token")
          >> (ensure
                (not (
                  is_empty t.chain.daily
                  || (is_empty t.chain.project || is_empty t.chain.submaster)))
                (server "server returned empty chain")
              >> ok (t.token, t.chain)))
        ≡ ok r
      → (not (is_empty t.token) ≡ true)
        × (not (is_empty t.chain.daily || (is_empty t.chain.project || is_empty t.chain.submaster))
            ≡ true)
        × ((t.token, t.chain) ≡ r)
  tested t r e = (ground arith, ground arith, ground arith)

  abbrev response : String × CertChain → TokenResponse
  response (token, chain) = record { token = token; chain = chain }

  abbrev AllThere : String × CertChain → Type 0
  AllThere (token, chain) =
      (token ≢ "") × (chain.daily ≢ "") × (chain.project ≢ "") × (chain.submaster ≢ "")

  abbrev token_flag : String × CertChain → Bool
  token_flag (token, chain) = not (is_empty token)

  abbrev chain_flag : String × CertChain → Bool
  chain_flag (token, chain) =
      not (is_empty chain.daily || (is_empty chain.project || is_empty chain.submaster))

  all_there :
      (token : String) (chain : CertChain)
      → (token_flag (token, chain) ≡ true) × (chain_flag (token, chain) ≡ true)
        ↔ AllThere (token, chain)
  all_there token chain = ground (
    arith,
    is_empty_iff token,
    is_empty_iff chain.daily,
    is_empty_iff chain.project,
    is_empty_iff chain.submaster,
  )

  -- A post gives a token and a chain exactly when a reply with a status of 200 to 299 arrived
  -- whole, its body decodes to them, and neither the token nor any of the three certificates is
  -- empty.
  post_iff :
      (sent : Result Reply LatteError) (token : String) (chain : CertChain)
      → (post show_status decode_error decode path sent ≡ ok (token, chain))
        ↔ Gives sent token chain
  unfolding post call
  post_iff sent token chain = (
    (λ e.
        let (t, a, e₁) = >>=-eq-ok (call show_status decode_error decode path sent) _ e in
        let (reply, bytes, arrived, success, whole, decoded) = arrived_reply sent t a in
        let (token_there, chain_there, same) = tested t (token, chain) e₁ in
        record {
          reply = reply;
          bytes = bytes;
          arrived = arrived;
          success = ground arith;
          whole = whole;
          decoded = decoded ∙ ap (λ p. ok (response p)) same;
          not_empty =
              (all_there token chain).0
                (sym (ap token_flag same) ∙ token_there, sym (ap chain_flag same) ∙ chain_there);
        }),
    (λ g.
        let success : is_success g.reply.status ≡ true = ground (arith, g.success) in
        let (token_there, chain_there) = (all_there token chain).1 g.not_empty in
        rw (g.arrived, success, g.whole, g.decoded, token_there, chain_there) refl),
  )

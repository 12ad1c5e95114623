-- ===== src/Client/Handshake/Retries.antt =====
-- `ipmiEstablishSession` of ipmi_client.go over a connection on which writes return errors.
use ipmigod.Base.{
  ℕ, suc, ◌≡◌, refl, Bool, true, false, Bool-cases, inl, inr, ◌&&◌, Option, none, some, List, [],
  ◌∷◌, if◌then◌else◌, Outcome, ok, ◌∙◌, ap, sym, arith, ◌>>=◌,
}
use ipmigod.Wire.{Bytes}
use ipmigod.Client.{ClientContext}
use ipmigod.Client.Handshake.{
  Network, Parser, ClientState, max_retries, received, ◌or_else◌, ◌and_then◌, ipmi_req_rsp,
  try_req_rsp, ipmi_establish_session,
}

-- The writes whose number `refuses` names return an error, and their requests do not reach the other end.
abbrev pub refusing : {S : Type 0} → (ℕ → Bool) → Network S → Network (ℕ × S)
refusing refuses net (n, s) request =
    if refuses n then (none, (suc n, s)) else let r = net s request in (r.0, (suc n, r.1))

-- Of three writes in a row, one succeeds.
abbrev pub NeverThrice : (ℕ → Bool) → Type 0
NeverThrice refuses = (n : ℕ) → (refuses n && (refuses (suc n) && refuses (suc (suc n)))) ≡ false

good-or_else :
    {S : Type 0} (r : (Bool × ClientContext) × S)
    (next : ClientContext → S → (Bool × ClientContext) × S)
    → r.0.0 ≡ true
    → (r or_else next) ≡ r
good-or_else ((true, ctx), s) next good = refl
good-or_else ((false, ctx), s) next good = cc

good-and_then :
    {S T : Type 0} (r : (Bool × ClientContext) × S) (next : ClientContext → S → Outcome T)
    → r.0.0 ≡ true
    → (r and_then next) ≡ next r.0.1 r.1
good-and_then ((true, ctx), s) next good = refl
good-and_then ((false, ctx), s) next good = cc

module _ {S : Type 0} (net : Network S) where
  -- Each exchange succeeds when its request is sent once.
  unfoldable pub FirstTries : List ClientState → ClientContext → S → Type 0
  FirstTries [] ctx s = Unit {0}
  FirstTries (st ∷ states) ctx s =
      let request = st.buildmsg st.req_len ctx in
      let r = ipmi_req_rsp net request.0 st.parsersp request.1 s in
      (r.0.0 ≡ true) × FirstTries states r.0.1 r.1

  first_try :
      (request : Bytes) (parsersp : Parser) (ctx : ClientContext) (s : S)
      → (ipmi_req_rsp net request parsersp ctx s).0.0 ≡ true
      → try_req_rsp net max_retries request parsersp ctx s ≡ ipmi_req_rsp net request parsersp ctx s
  unfolding try_req_rsp
  first_try request parsersp ctx s good =
      good-or_else (ipmi_req_rsp net request parsersp ctx s) _ good

module _ {S : Type 0} (refuses : ℕ → Bool) (net : Network S) where
  refusing-refuse :
      (request : Bytes) (n : ℕ) (s : S)
      → refuses n ≡ true
      → refusing refuses net (n, s) request ≡ (none, (suc n, s))
  refusing-refuse request n s lost = rw lost

  refusing-arrive :
      (request : Bytes) (n : ℕ) (s : S)
      → refuses n ≡ false
      → refusing refuses net (n, s) request ≡ (let r = net s request in (r.0, (suc n, r.1)))
  refusing-arrive request n s there = rw there

  received-pass :
      (parsersp : Parser) (ctx : ClientContext) (n : ℕ) (r : Option Bytes × S)
      → received {S = ℕ × S} parsersp ctx (r.0, (n, r.1))
        ≡ (let q = received parsersp ctx r in (q.0, (n, q.1)))
  received-pass parsersp ctx n (none, s) = refl
  received-pass parsersp ctx n (some rsp, s) = refl

  -- The first try, when its write fails and when it succeeds.
  try-refuse :
      (tries : ℕ) (request : Bytes) (parsersp : Parser) (ctx : ClientContext) (n : ℕ) (s : S)
      → refuses n ≡ true
      → try_req_rsp (refusing refuses net) (suc tries) request parsersp ctx (n, s)
        ≡ try_req_rsp (refusing refuses net) tries request parsersp ctx (suc n, s)
  unfolding try_req_rsp ipmi_req_rsp
  try-refuse tries request parsersp ctx n s lost =
      ap
        (λ r.
          received parsersp ctx r or_else try_req_rsp (refusing refuses net) tries request parsersp)
        (refusing-refuse request n s lost)

  arrived :
      (request : Bytes) (parsersp : Parser) (ctx : ClientContext) (n : ℕ) (s : S)
      → refuses n ≡ false
      → ipmi_req_rsp (refusing refuses net) request parsersp ctx (n, s)
        ≡ (let r = ipmi_req_rsp net request parsersp ctx s in (r.0, (suc n, r.1)))
  unfolding ipmi_req_rsp
  arrived request parsersp ctx n s there =
      ap (received parsersp ctx) (refusing-arrive request n s there)
      ∙ received-pass parsersp ctx (suc n) (net s request)

  try-arrive :
      (tries : ℕ) (request : Bytes) (parsersp : Parser) (ctx : ClientContext) (n : ℕ) (s : S)
      → refuses n ≡ false
      → (ipmi_req_rsp net request parsersp ctx s).0.0 ≡ true
      → try_req_rsp (refusing refuses net) (suc tries) request parsersp ctx (n, s)
        ≡ (let r = ipmi_req_rsp net request parsersp ctx s in (r.0, (suc n, r.1)))
  unfolding try_req_rsp
  try-arrive tries request parsersp ctx n s there good =
      rw (try_req_rsp, arrived request parsersp ctx n s there)
        (good-or_else (let r = ipmi_req_rsp net request parsersp ctx s in (r.0, (suc n, r.1))) _
          good)

  -- The state of a handshake over the network, with the number of requests sent left out.
  abbrev pub delivered : ClientContext × (ℕ × S) → ClientContext × S
  delivered (ctx, (n, s)) = (ctx, s)

  module _ (seldom : NeverThrice refuses) where
    try-refusing :
        (request : Bytes) (parsersp : Parser) (ctx : ClientContext) (n : ℕ) (s : S)
        → (ipmi_req_rsp net request parsersp ctx s).0.0 ≡ true
        → (n' : ℕ) × (try_req_rsp (refusing refuses net) max_retries request parsersp ctx (n, s)
            ≡ (let r = ipmi_req_rsp net request parsersp ctx s in (r.0, (n', r.1))))
    try-refusing request parsersp ctx n s good = elim (Bool-cases (refuses n)) [
      | inr a ↦ (suc n, try-arrive 2 request parsersp ctx n s a good)
      | inl a ↦ elim (Bool-cases (refuses (suc n))) [
        | inr b ↦ (
          suc (suc n),
          try-refuse 2 request parsersp ctx n s a
              ∙ try-arrive 1 request parsersp ctx (suc n) s b good,
        )
        | inl b ↦ (
          suc (suc (suc n)),
          try-refuse 2 request parsersp ctx n s a
              ∙ (try-refuse 1 request parsersp ctx (suc n) s b
                  ∙ try-arrive 0 request parsersp ctx (suc (suc n)) s (ground (arith, seldom n))
                      good),
        )
      ]
    ]

    -- A handshake whose exchanges all succeed at the first try ends in the same way over a connection
    -- on which three writes in a row never fail.
    pub establish-refusing :
        (states : List ClientState) (ctx : ClientContext) (n : ℕ) (s : S)
        → FirstTries net states ctx s
        → (ipmi_establish_session (refusing refuses net) states ctx (n, s) >>= λ r.
            ok (delivered r))
          ≡ ipmi_establish_session net states ctx s
    unfolding ipmi_establish_session FirstTries
    establish-refusing [] ctx n s first = refl
    establish-refusing (st ∷ states) ctx n s (good, rest) =
        let request = st.buildmsg st.req_len ctx in
        let (n', e) = try-refusing request.0 st.parsersp request.1 n s good in
        let once = first_try net request.0 st.parsersp request.1 s good in
        let r = ipmi_req_rsp net request.0 st.parsersp request.1 s in
        let go = ipmi_establish_session (refusing refuses net) states in
        ap (λ q. q and_then go >>= (λ r. ok (delivered r))) e
        ∙ (ap (λ m. m >>= (λ r. ok (delivered r))) (good-and_then (r.0, (n', r.1)) go good)
            ∙ (establish-refusing states r.0.1 n' r.1 rest
                ∙ (sym (good-and_then r (ipmi_establish_session net states) good)
                    ∙ ap (λ q. q and_then ipmi_establish_session net states) (sym once))))

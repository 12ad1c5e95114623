-- ===== src/Controller/Ends.antt =====
-- Outcomes of the code that only a line card can end by a panic, when it does not reach the MM card.
use ipmigod.Base.{
  ℕ, ◌≡◌, refl, Bool, true, false, ltb, List, some, get_elem?, Outcome, ok, panic, ◌>>=◌, Returns,
  returns,
}
use ipmigod.Bmc.{Sdr}
use ipmigod.Client.{ClientContext, add_sdr_build_msg, add_sdr_parse_rsp}
use ipmigod.Client.Handshake.{Network, max_retries, try_req_rsp, ◌and_then◌}

-- An exchange of the record with the MM card fails in all its tries, in some state of the client and of the far end.
abbrev pub Fails : {S : Type 0} → Network S → Sdr → Type 0
Fails {S} net s =
    (ctx : ClientContext) × (mm : S) × (let request = add_sdr_build_msg s.bytes ctx in
      (try_req_rsp net max_retries request.0 add_sdr_parse_rsp request.1 mm).0.0 ≡ false)

-- On a line card, that of one of the records fails.
abbrev pub Undelivered : {S : Type 0} → Network S → ℕ → List Sdr → Type 0
Undelivered net card rs =
    (ltb 0 card ≡ true) × (i : ℕ) × (s : Sdr) × (get_elem? rs i ≡ some s) × Fails net s

-- The outcome satisfies `P`, or it is a panic, for which there is the reason `F`.
pub data Ends {A : Type 0} (F : Type 0) (P : A → Type 0) : Outcome A → Type 0 where
  ends : {a : A} → P a → Ends F P (ok a)
  fails : F → Ends F P panic

-- With the result at hand.
pub Ends-map :
    {A : Type 0} {F : Type 0} {P Q : A → Type 0} {m : Outcome A}
    → Ends F P m
    → ((a : A) → m ≡ ok a → P a → Q a)
    → Ends F Q m
Ends-map (ends {a = a} h) k = ends (k a refl h)
Ends-map (fails e) k = fails e

pub >>=-Ends :
    {A B : Type 0} {F : Type 0} {P : A → Type 0} {Q : B → Type 0} {m : Outcome A}
    {f : A → Outcome B}
    → Ends F P m
    → ((a : A) → P a → Ends F Q (f a))
    → Ends F Q (m >>= f)
>>=-Ends (ends {a = a} h) k = k a h
>>=-Ends (fails e) k = fails e

pub Returns->>=-Ends :
    {A B : Type 0} {F : Type 0} {P : A → Type 0} {Q : B → Type 0} {m : Outcome A}
    {f : A → Outcome B}
    → Returns P m
    → ((a : A) → P a → Ends F Q (f a))
    → Ends F Q (m >>= f)
Returns->>=-Ends (returns {a = a} h) k = k a h

pub Returns-Ends :
    {A : Type 0} {F : Type 0} {P : A → Type 0} {m : Outcome A} → Returns P m → Ends F P m
Returns-Ends (returns h) = ends h

pub and_then-Ends :
    {S T : Type 0} {F : Type 0} {P : T → Type 0} (r : (Bool × ClientContext) × S)
    (f : ClientContext → S → Outcome T)
    → (r.0.0 ≡ false → F)
    → ((ctx : ClientContext) (s : S) → Ends F P (f ctx s))
    → Ends F P (r and_then f)
and_then-Ends ((true, ctx), s) f e h = h ctx s
and_then-Ends ((false, ctx), s) f e h = fails (e refl)

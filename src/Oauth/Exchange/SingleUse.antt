-- ===== src/Oauth/Exchange/SingleUse.antt =====
-- src/ai_api/services/oauth.py: how often a code can be exchanged.
use mathlib.Core.Option
use ai_api.Base.{
  ℕ, suc, ◌≡◌, inl, inr, refl, ap, ◌∙◌, true, false, some, List, [], ◌∷◌, map, arith, if◌then◌else◌,
  ok, raise, get, modify, get-append_found, keys-modify, ◌==◌, ==_iff, ==_refl, Bool-cases,
}
use ai_api.Base.UniqueKeys.{
  Distinct, Distinct-append_new, get-modify_away, get-modify_other, same_row, All-missing,
  map-append_one,
}
use ai_api.Models.{Text, Instant, GeneratedToken}
use ai_api.Oauth.{
  ConsentRequest, create_consent, get_pending, approve, deny, consume, Grant, Exchanged, exchange,
}
use ai_api.Oauth.Tables.{
  exchangeable, OauthAuthorization, consent_key, code_key, OauthDb, invalid_grant,
}
use ai_api.Oauth.Exchange.{exchange_checks, Redeemed}
use ai_api.Oauth.Exchange.Changes.{
  used_up, Change, create_consent-Change, get_pending-Change, deny-Change, approve-Change,
  exchange-Change,
}

abbrev Kept : ℕ → OauthAuthorization → List OauthAuthorization → Type 0
Kept k a rows = Distinct (map consent_key rows) × (get code_key k rows ≡ some a)

Change-Kept :
    (k : ℕ) (a : OauthAuthorization) (rows rows' : List OauthAuthorization)
    → used_up a.status ≡ true
    → Kept k a rows
    → Change k rows rows'
    → Kept k a rows'
Change-Kept k a rows rows' used h (inl same) = rw same h
Change-Kept k a rows rows' used h (inr (inl (id, p, f, found, other, ids, codes, new))) =
    let away : (a.id == id) ≡ false = elim (Bool-cases (a.id == id)) [
      | inr e ↦ e
      | inl same ↦
          let e : a.id ≡ id = (==_iff a.id id).0 same in
          absurd (cc (same_row code_key consent_key k rows a h.0 h.1, used, other))
    ] in
    rw new (
      rw (keys-modify consent_key id f rows ids) h.0,
      get-modify_away code_key consent_key k id f rows a codes h.1 away,
    )
Change-Kept k a rows rows' used h (inr (inr (r, fresh, new))) = rw new (
  rw (map-append_one consent_key rows r)
      (Distinct-append_new _ r.id (All-missing consent_key r.id rows fresh) h.0),
  get-append_found code_key k rows (r ∷ []) a h.1,
)

-- the calls that write the table, with what they take beside it
pub data Call : Type 0 where
  create_consent_call : Text → ℕ → Instant → ℕ → ConsentRequest → Call
  get_pending_call deny_call : Instant → ℕ → ℕ → Call
  approve_call : ℕ → Instant → ℕ → ℕ → List ℕ → Call
  exchange_call : (Text → Text) → ℕ → GeneratedToken → Instant → Grant → Call

pub run : Call → OauthDb → OauthDb
run (create_consent_call default id now member request) db =
    (create_consent default id now member request db).1
run (get_pending_call now id member) db = (get_pending now id member db).1
run (deny_call now id member) db = (deny now id member db).1
run (approve_call code now id member ids) db = (approve code now id member ids db).1
run (exchange_call s256 fresh token now request) db = (exchange s256 fresh token now request db).1

pub run_all : List Call → OauthDb → OauthDb
run_all [] db = db
run_all (c ∷ cs) db = run_all cs (run c db)

run-Change :
    (call : Call) (k : ℕ) (a : OauthAuthorization) (db : OauthDb)
    → Kept k a db.consents
    → Change k db.consents (run call db).consents
unfolding run
run-Change (create_consent_call default id now member request) k a db h =
    create_consent-Change k default id now member request db
run-Change (get_pending_call now id member) k a db h = get_pending-Change k now id member db
run-Change (deny_call now id member) k a db h = deny-Change k now id member db
run-Change (approve_call code now id member ids) k a db h =
    approve-Change k a code now id member ids db h.1
run-Change (exchange_call s256 fresh token now request) k a db h =
    exchange-Change k a s256 fresh token now request db h.0

run_all-Kept :
    (calls : List Call) (k : ℕ) (a : OauthAuthorization) (db : OauthDb)
    → used_up a.status ≡ true
    → Kept k a db.consents
    → Kept k a (run_all calls db).consents
unfolding run_all
run_all-Kept [] k a db used h = h
run_all-Kept (call ∷ calls) k a db used h =
    run_all-Kept calls k a (run call db) used
      (Change-Kept k a db.consents (run call db).consents used h (run-Change call k a db h))

spent :
    (s256 : Text → Text) (fresh : ℕ) (token : GeneratedToken) (now : Instant) (request : Grant)
    (db : OauthDb) (a : OauthAuthorization)
    → get code_key (suc request.code) db.consents ≡ some a
    → used_up a.status ≡ true
    → exchange s256 fresh token now request db ≡ (raise invalid_grant, db)
unfolding exchange
spent s256 fresh token now request db a found used =
    let closed : exchangeable a.status ≡ false = ground (arith, used) in
    ground (arith, found, closed)

-- A code is exchanged at most once: after an exchange has succeeded, and whatever calls follow, a
-- further exchange of the same code, by whatever request, raises invalid_grant and changes nothing.
-- The ids of the table are unique at the start.
pub code_used_once :
    (s256 : Text → Text) (fresh fresh' : ℕ) (token token' : GeneratedToken) (now later : Instant)
    (request request' : Grant) (calls : List Call) (db : OauthDb) (r : Exchanged)
    → Distinct (map consent_key db.consents)
    → (exchange s256 fresh token now request db).0 ≡ ok r
    → request'.code ≡ request.code
    → let after = run_all calls (exchange s256 fresh token now request db).1 in
      exchange s256 fresh' token' later request' after ≡ (raise invalid_grant, after)
unfolding Redeemed
code_used_once s256 fresh fresh' token token' now later request request' calls db (c, t, u) unique h
      again =
    let (row, checks) = exchange_checks s256 fresh token now request db (c, t, u) h in
    let used = consume now c.id row in
    let first = (exchange s256 fresh token now request db).1 in
    let rows : first.consents ≡ modify consent_key row.id (consume now c.id) db.consents =
      checks.9 in
    let kept : Kept (suc request.code) used first.consents = rw rows (
      rw (keys-modify consent_key row.id (consume now c.id) db.consents (λ x. refl)) unique,
      get-modify_other code_key consent_key (suc request.code) row.id (consume now c.id) db.consents
            (λ x. refl)
          ∙ ap
              (Option.map
                (λ (x : OauthAuthorization). if x.id == row.id then consume now c.id x else x))
              checks.0
          ∙ rw (==_refl row.id) refl,
    ) in
    let last = run_all-Kept calls (suc request.code) used first refl kept in
    spent s256 fresh' token' later request' (run_all calls first) used
      (ap (λ n. get code_key (suc n) (run_all calls first).consents) again ∙ last.1) refl

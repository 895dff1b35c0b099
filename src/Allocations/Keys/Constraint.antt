-- ===== src/Allocations/Keys/Constraint.antt =====
-- UNIQUE(credential_id, resource_model) of the table of links, under every call of
-- src/ai_api/services/allocations.py.
use ai_api.Base.{ℕ, ◌≡◌, false, inl, inr, none, some, List, [], ◌∷◌, arith, All, Try-cases}
use ai_api.Models.{Text, Instant, CredentialAllocation, GeneratedToken}
use ai_api.Allocations.{Store}
use ai_api.Allocations.Keys.{add_credential, create_member_credential}
use ai_api.Allocations.Keys.Unique.{clash, UniqueModels, UniqueModels-append, NewKey}
use ai_api.Allocations.Keys.Scopes.{create_scope, unchanged_on_error, patch_keeps_unique}
use ai_api.Allocations.Keys.Effects.{
  SameKeys, Modifies, Issues, pause-SameKeys, resume-SameKeys, revoke-SameKeys, rename-Modifies,
  revoke_credential-Modifies, rotate_credential-effect, lookup-effect, create-effect,
  rotate_token-effect,
}
use ai_api.Allocations.Keys.Calls.{
  Setting, Call, create_call, pause_call, resume_call, revoke_call, issue_call, add_call,
  patch_call, rename_call, revoke_key_call, rotate_key_call, rotate_token_call, lookup_call, run,
  run_all, fresh_key,
}

-- the id of a key that a call may issue stands in no link
abbrev pub IsFresh : Call → Store → Type 0
IsFresh c st = elim (fresh_key c) [ none ↦ Unit | some fresh ↦ NewKey fresh st.links ]

-- so it is for each call of a sequence, when its turn comes
unfoldable pub AllFresh : Setting → List Call → Store → Type 0
AllFresh s [] st = Unit
AllFresh s (c ∷ calls) st = IsFresh c st × AllFresh s calls (run s c st)

UniqueModels-Issues :
    (fresh : ℕ) (st st' : Store)
    → NewKey fresh st.links
    → Issues fresh st st'
    → UniqueModels st.links
    → UniqueModels st'.links
UniqueModels-Issues fresh st st' new (_, l, _, own, _, links) h =
    rw links (UniqueModels-append st.links (l ∷ []) h (tt, tt) (apart st.links new))
  where
    apart :
        (ls : List CredentialAllocation)
        → NewKey fresh ls
        → All (λ k. All (λ m. clash k m ≡ false) (l ∷ [])) ls
    apart [] h = tt
    apart (k ∷ ls) h = ((ground (arith, h.0, own), tt), apart ls h.1)

UniqueModels-SameKeys :
    (st st' : Store) → SameKeys st st' → UniqueModels st.links → UniqueModels st'.links
UniqueModels-SameKeys st st' same h = rw (same.1) h

UniqueModels-Modifies :
    (st st' : Store) → Modifies st st' → UniqueModels st.links → UniqueModels st'.links
UniqueModels-Modifies st st' (_, _, _, _, _, links) h = rw links h

UniqueModels-create_member_credential :
    (fresh : ℕ) (token : GeneratedToken) (now : Instant) (member : ℕ) (name : Text) (ids : List ℕ)
    (st : Store)
    → NewKey fresh st.links
    → UniqueModels st.links
    → UniqueModels (create_member_credential fresh token now member name ids st).1.links
UniqueModels-create_member_credential fresh token now member name ids st new h =
    elim (Try-cases (create_member_credential fresh token now member name ids st).0) [
      | inr (x, failed) ↦ rw (unchanged_on_error fresh token now member name ids st x failed) h
      | inl ((c, t), made) ↦ (create_scope fresh token now member name ids st c t h new made).7
    ]

UniqueModels-run :
    (s : Setting) (c : Call) (st : Store)
    → IsFresh c st
    → UniqueModels st.links
    → UniqueModels (run s c st).links
unfolding run add_credential
UniqueModels-run s (create_call fresh now request) st new h =
    elim (create-effect s.default_name fresh now request st) [
      | inl same ↦ UniqueModels-SameKeys st (run s (create_call fresh now request) st) same h
      | inr made ↦
          UniqueModels-Issues fresh.credential st (run s (create_call fresh now request) st) new
            made h
    ]
UniqueModels-run s (pause_call k) st new h =
    UniqueModels-SameKeys st (run s (pause_call k) st) (pause-SameKeys k st) h
UniqueModels-run s (resume_call k) st new h =
    UniqueModels-SameKeys st (run s (resume_call k) st) (resume-SameKeys k st) h
UniqueModels-run s (revoke_call now k) st new h =
    UniqueModels-SameKeys st (run s (revoke_call now k) st) (revoke-SameKeys now k st) h
UniqueModels-run s (issue_call fresh token now member name ids) st new h =
    UniqueModels-create_member_credential fresh token now member name ids st new h
UniqueModels-run s (add_call fresh token now a name) st new h =
    UniqueModels-create_member_credential fresh token now a.member_id name (a.id ∷ []) st new h
UniqueModels-run s (patch_call k add remove) st new h = patch_keeps_unique k add remove st h
UniqueModels-run s (rename_call k name) st new h =
    UniqueModels-Modifies st (run s (rename_call k name) st) (rename-Modifies k name st) h
UniqueModels-run s (revoke_key_call now k) st new h =
    UniqueModels-Modifies st (run s (revoke_key_call now k) st)
      (revoke_credential-Modifies now k st) h
UniqueModels-run s (rotate_key_call token k) st new h = elim (rotate_credential-effect token k st) [
  | inl same ↦ UniqueModels-SameKeys st (run s (rotate_key_call token k) st) same h
  | inr changed ↦ UniqueModels-Modifies st (run s (rotate_key_call token k) st) changed h
]
UniqueModels-run s (rotate_token_call fresh token now k) st new h =
    elim (rotate_token-effect s.default_name fresh token now k st) [
      | inl same ↦ UniqueModels-SameKeys st (run s (rotate_token_call fresh token now k) st) same h
      | inr (inl changed) ↦
          UniqueModels-Modifies st (run s (rotate_token_call fresh token now k) st) changed h
      | inr (inr made) ↦
          UniqueModels-Issues fresh st (run s (rotate_token_call fresh token now k) st) new made h
    ]
UniqueModels-run s (lookup_call now plaintext) st new h =
    elim (lookup-effect s.fingerprint_for now plaintext st) [
      | inl same ↦ UniqueModels-SameKeys st (run s (lookup_call now plaintext) st) same h
      | inr changed ↦ UniqueModels-Modifies st (run s (lookup_call now plaintext) st) changed h
    ]

-- The code's own checks keep the table of links within its unique constraint: after whatever sequence of the calls
-- of the service, accepted or refused, no key is linked twice for one model, if none was at first and the id of
-- each new key stands in no link.
pub run_all-UniqueModels :
    (s : Setting) (calls : List Call) (st : Store)
    → AllFresh s calls st
    → UniqueModels st.links
    → UniqueModels (run_all s calls st).links
unfolding run_all AllFresh
run_all-UniqueModels s [] st fresh h = h
run_all-UniqueModels s (c ∷ calls) st fresh h =
    run_all-UniqueModels s calls (run s c st) fresh.1 (UniqueModels-run s c st fresh.0 h)

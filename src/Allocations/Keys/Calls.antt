-- ===== src/Allocations/Keys/Calls.antt =====
-- The calls of src/ai_api/services/allocations.py that write, in one sequence.
use ai_api.Base.{ℕ, Option, none, some, List, [], ◌∷◌}
use ai_api.Models.{Text, Instant, Allocation, GeneratedToken}
use ai_api.Allocations.{Store, Request, Fresh, create, pause, resume, revoke}
use ai_api.Allocations.Keys.{
  create_member_credential, add_credential, patch_credential_scope, rename_credential,
  revoke_credential, rotate_credential, rotate_token,
}
use ai_api.Allocations.Keys.Lookup.{lookup_credential_by_token}

-- the text of the name of a default key, and the fingerprint of a token
pub record Setting : Type 0 where
  pub default_name : Text
  pub fingerprint_for : Text → ℕ

pub data Call : Type 0 where
  create_call : Fresh → Instant → Request → Call
  pause_call resume_call : ℕ → Call
  revoke_call : Instant → ℕ → Call
  issue_call : ℕ → GeneratedToken → Instant → ℕ → Text → List ℕ → Call
  add_call : ℕ → GeneratedToken → Instant → Allocation → Text → Call
  patch_call : ℕ → List ℕ → List ℕ → Call
  rename_call : ℕ → Text → Call
  revoke_key_call : Instant → ℕ → Call
  rotate_key_call : GeneratedToken → ℕ → Call
  rotate_token_call : ℕ → GeneratedToken → Instant → ℕ → Call
  lookup_call : Instant → Text → Call

unfoldable pub run : Setting → Call → Store → Store
run s (create_call fresh now request) st = (create s.default_name fresh now request st).1
run s (pause_call id) st = (pause id st).1
run s (resume_call id) st = (resume id st).1
run s (revoke_call now id) st = (revoke now id st).1
run s (issue_call fresh token now member name ids) st =
    (create_member_credential fresh token now member name ids st).1
run s (add_call fresh token now a name) st = (add_credential fresh token now a name st).1
run s (patch_call id add remove) st = (patch_credential_scope id add remove st).1
run s (rename_call id name) st = (rename_credential id name st).1
run s (revoke_key_call now id) st = (revoke_credential now id st).1
run s (rotate_key_call token id) st = (rotate_credential token id st).1
run s (rotate_token_call fresh token now id) st =
    (rotate_token s.default_name fresh token now id st).1
run s (lookup_call now plaintext) st =
    (lookup_credential_by_token s.fingerprint_for now plaintext st).1

unfoldable pub run_all : Setting → List Call → Store → Store
run_all s [] st = st
run_all s (c ∷ calls) st = run_all s calls (run s c st)

-- the fresh id of the key that a call may issue
abbrev pub fresh_key : Call → Option ℕ
fresh_key (create_call fresh now request) = some fresh.credential
fresh_key (issue_call fresh token now member name ids) = some fresh
fresh_key (add_call fresh token now a name) = some fresh
fresh_key (rotate_token_call fresh token now id) = some fresh
fresh_key _ = none

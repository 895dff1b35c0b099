-- ===== src/Invitations.antt =====
-- src/ai_api/auth/invitations.py: tokens for a member's first password, each for one use within 48 hours.
-- The SHA-256 of a token is an argument, and so are fresh tokens and the present instant.
pub mod SingleUse
mod Tests
use ai_api.Base.{
  ℕ, ◌+◌, ◌*◌, Option, none, some, List, [], ◌∷◌, ◌++◌, if◌then◌else◌, leb, get, modify,
}
use ai_api.Models.{Text, Instant, second, Member}
use ai_api.Allocations.{member_key}

pub record InvitationToken : Type 0 where
  pub token_fingerprint : ℕ
  pub member_id : ℕ
  pub created_at : Instant
  pub expires_at : Instant
  pub used_at : Option Instant

abbrev pub token_key : InvitationToken → ℕ
token_key t = t.token_fingerprint

abbrev pub invitation_lifetime : ℕ
invitation_lifetime = 48 * 60 * 60 * second

-- `issue`, for a fresh token of a fingerprint
unfoldable pub issue_invitation : ℕ → ℕ → Instant → List InvitationToken → List InvitationToken
issue_invitation fingerprint member now rows =
    rows
    ++ record {
      token_fingerprint = fingerprint;
      member_id = member;
      created_at = now;
      expires_at = now + invitation_lifetime;
      used_at = none;
    }
      ∷ []

unfoldable pub mark_used : Instant → InvitationToken → InvitationToken
mark_used now t = record t { used_at = some now }

-- the end of `consume`, for a token that is not used and not over
unfoldable pub use_token :
    InvitationToken
    → Instant
    → List Member
    → List InvitationToken
    → Option Member × List InvitationToken
unfolding mark_used
use_token t now members rows = elim (get member_key t.member_id members) [
  | none ↦ (none, rows)
  | some member ↦ (some member, modify token_key t.token_fingerprint (mark_used now) rows)
]

-- a token that is found
unfoldable pub consume_found :
    InvitationToken
    → Instant
    → List Member
    → List InvitationToken
    → Option Member × List InvitationToken
unfolding use_token
consume_found t now members rows = elim t.used_at [
  | some _ ↦ (none, rows)
  | none ↦ if leb t.expires_at now then (none, rows) else use_token t now members rows
]

module _ (fingerprint : Text → ℕ) where
  -- `lookup`
  unfoldable pub lookup_invitation : Text → List InvitationToken → Option InvitationToken
  lookup_invitation token rows = get token_key (fingerprint token) rows

  -- `consume`
  unfoldable pub consume :
      Text → Instant → List Member → List InvitationToken → Option Member × List InvitationToken
  unfolding lookup_invitation consume_found
  consume token now members rows = elim (lookup_invitation token rows) [
    | none ↦ (none, rows)
    | some t ↦ consume_found t now members rows
  ]

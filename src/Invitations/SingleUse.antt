-- ===== src/Invitations/SingleUse.antt =====
-- src/ai_api/auth/invitations.py: how often an invitation can be used.
use mathlib.Core.Path.{subst}
use ai_api.Base.{
  ℕ, ◌≡◌, ◌⊎◌, inl, inr, refl, ap, sym, Bool, true, false, Option, none, some, List, [], ◌∷◌, arith,
  All, All-append, get, modify, key-get, ◌==◌, leb, Bool-cases, Option-cases, ◌∙◌,
}
use ai_api.Models.{Text, Instant, Member}
use ai_api.Allocations.{member_key}
use ai_api.Invitations.{
  InvitationToken, token_key, issue_invitation, mark_used, use_token, consume_found,
  lookup_invitation, consume,
}

-- the calls that write invitations
pub data Call : Type 0 where
  issue_call : ℕ → ℕ → Instant → Call
  consume_call : Text → Instant → List Member → Call

abbrev is_used : InvitationToken → Bool
is_used t = elim t.used_at [ none ↦ false | some _ ↦ true ]

-- every token under a fingerprint is used
abbrev Used : ℕ → List InvitationToken → Type 0
Used fp = All (λ t. (t.token_fingerprint == fp) ≡ true → is_used t ≡ true)

Used-modify :
    (fp id : ℕ) (now : Instant) (rows : List InvitationToken)
    → Used fp rows
    → Used fp (modify token_key id (mark_used now) rows)
unfolding mark_used
Used-modify fp id now [] h = tt
Used-modify fp id now (t ∷ rows) h = (
  elim (Bool-cases (t.token_fingerprint == id)) [
    | inl same ↦ rw same (λ _. refl)
    | inr other ↦ rw other h.0
  ],
  Used-modify fp id now rows h.1,
)

Used-mark_used :
    (fp : ℕ) (now : Instant) (rows : List InvitationToken)
    → Used fp (modify token_key fp (mark_used now) rows)
unfolding mark_used
Used-mark_used fp now [] = tt
Used-mark_used fp now (t ∷ rows) = (
  elim (Bool-cases (t.token_fingerprint == fp)) [
    | inl same ↦ rw same (λ _. refl)
    | inr other ↦ rw other (λ found. absurd (ground (arith, other, found)))
  ],
  Used-mark_used fp now rows,
)

-- `consume` leaves the rows, or it marks the rows of a token as used, and then it answers with a member
abbrev Marks :
    Option Member × List InvitationToken → InvitationToken → Instant → List InvitationToken → Type 0
Marks r t now rows =
    ((r.0 ≡ none) × (r.1 ≡ rows))
    ⊎ (r.1 ≡ modify token_key t.token_fingerprint (mark_used now) rows)

use_token-cases :
    (t : InvitationToken) (now : Instant) (members : List Member) (rows : List InvitationToken)
    → Marks (use_token t now members rows) t now rows
unfolding use_token
use_token-cases t now members rows = elim (Option-cases (get member_key t.member_id members)) [
  | inl missing ↦ inl (ground (arith, missing), ground (arith, missing))
  | inr (m, found) ↦ inr (ground (arith, found))
]

consumed :
    (t : InvitationToken) (now : Instant) (members : List Member) (rows : List InvitationToken)
    → t.used_at ≡ none
    → leb t.expires_at now ≡ false
    → consume_found t now members rows ≡ use_token t now members rows
unfolding consume_found
consumed t now members rows unused timely = ground (arith, unused, timely)

consume_found-cases :
    (t : InvitationToken) (now : Instant) (members : List Member) (rows : List InvitationToken)
    → Marks (consume_found t now members rows) t now rows
unfolding consume_found
consume_found-cases t now members rows = elim (Option-cases t.used_at) [
  | inr (at, used) ↦ inl (ground (arith, used), ground (arith, used))
  | inl unused ↦ elim (Bool-cases (leb t.expires_at now)) [
    | inl over ↦ inl (ground (arith, unused, over), ground (arith, unused, over))
    | inr timely ↦
        subst (λ r. Marks r t now rows) (sym (consumed t now members rows unused timely))
          (use_token-cases t now members rows)
  ]
]

module _ (fingerprint : Text → ℕ) where
  consume-found :
      (token : Text) (now : Instant) (members : List Member) (rows : List InvitationToken)
      (t : InvitationToken)
      → lookup_invitation fingerprint token rows ≡ some t
      → consume fingerprint token now members rows ≡ consume_found t now members rows
  unfolding consume
  consume-found token now members rows t found = rw (found, consume) refl

  consume-missing :
      (token : Text) (now : Instant) (members : List Member) (rows : List InvitationToken)
      → lookup_invitation fingerprint token rows ≡ none
      → consume fingerprint token now members rows ≡ (none, rows)
  unfolding consume
  consume-missing token now members rows missing = rw (missing, consume) refl

  Used-consume :
      (fp : ℕ) (token : Text) (now : Instant) (members : List Member) (rows : List InvitationToken)
      → Used fp rows
      → Used fp (consume fingerprint token now members rows).1
  Used-consume fp token now members rows h =
      elim (Option-cases (lookup_invitation fingerprint token rows)) [
        | inl missing ↦ rw (consume-missing token now members rows missing) h
        | inr (t, found) ↦
            rw (consume-found token now members rows t found)
              (kept t (consume_found-cases t now members rows))
      ]
    where
      kept :
          (t : InvitationToken)
          → Marks (consume_found t now members rows) t now rows
          → Used fp (consume_found t now members rows).1
      kept t cases = elim cases [
        | inl (_, same) ↦ rw same h
        | inr marked ↦ rw marked (Used-modify fp t.token_fingerprint now rows h)
      ]

  -- a consumption that answers with a member leaves the token used
  Used-consumed :
      (token : Text) (now : Instant) (members : List Member) (rows : List InvitationToken)
      (member : Member)
      → (consume fingerprint token now members rows).0 ≡ some member
      → Used (fingerprint token) (consume fingerprint token now members rows).1
  unfolding lookup_invitation
  Used-consumed token now members rows member success =
      elim (Option-cases (lookup_invitation fingerprint token rows)) [
        | inl missing ↦
            absurd (ground (arith, consume-missing token now members rows missing, success))
        | inr (t, found) ↦ elim (consume_found-cases t now members rows) [
          | inl (refused, _) ↦
              absurd
                (ground (arith, consume-found token now members rows t found, refused, success))
          | inr marked ↦ rw (consume-found token now members rows t found) (
              rw marked (
                rw (key-get token_key (fingerprint token) rows t found)
                  (Used-mark_used (fingerprint token) now rows)))
        ]
      ]

  pub run : Call → List InvitationToken → List InvitationToken
  run (issue_call fp member now) rows = issue_invitation fp member now rows
  run (consume_call token now members) rows = (consume fingerprint token now members rows).1

  pub run_all : List Call → List InvitationToken → List InvitationToken
  run_all [] rows = rows
  run_all (c ∷ calls) rows = run_all calls (run c rows)

  -- no invitation is issued under a fingerprint
  abbrev pub IssuesOther : ℕ → Call → Type 0
  IssuesOther fp (issue_call other _ _) = (other == fp) ≡ false
  IssuesOther fp _ = Unit

  Used-run :
      (fp : ℕ) (c : Call) (rows : List InvitationToken)
      → IssuesOther fp c
      → Used fp rows
      → Used fp (run c rows)
  unfolding run issue_invitation
  Used-run fp (issue_call other member now) rows fresh h =
      All-append _ rows _ h ((λ found. absurd (ground (arith, fresh, found))), tt)
  Used-run fp (consume_call token now members) rows _ h = Used-consume fp token now members rows h

  Used-run_all :
      (fp : ℕ) (calls : List Call) (rows : List InvitationToken)
      → All (IssuesOther fp) calls
      → Used fp rows
      → Used fp (run_all calls rows)
  unfolding run_all
  Used-run_all fp [] rows _ h = h
  Used-run_all fp (c ∷ calls) rows fresh h =
      Used-run_all fp calls (run c rows) fresh.1 (Used-run fp c rows fresh.0 h)

  Used-get :
      (fp : ℕ) (rows : List InvitationToken) (t : InvitationToken)
      → Used fp rows
      → get token_key fp rows ≡ some t
      → is_used t ≡ true
  Used-get fp [] t h found = absurd (cc)
  Used-get fp (r ∷ rows) t h found = elim (Bool-cases (r.token_fingerprint == fp)) [
    | inl same ↦ ground (arith, found, same, h.0 same)
    | inr other ↦ Used-get fp rows t h.1 (ground (arith, found, other))
  ]

  used_refused :
      (t : InvitationToken) (now : Instant) (members : List Member) (rows : List InvitationToken)
      → is_used t ≡ true
      → (consume_found t now members rows).0 ≡ none
  unfolding consume_found
  used_refused t now members rows used = ground (arith, used)

  -- An invitation is used once: after a token has been consumed, and after whatever invitations under other
  -- fingerprints are issued and whatever tokens are consumed, the token is refused.
  pub invitation_used_once :
      (token : Text) (now later : Instant) (members members_later : List Member) (calls : List Call)
      (rows : List InvitationToken) (member : Member)
      → (consume fingerprint token now members rows).0 ≡ some member
      → All (IssuesOther (fingerprint token)) calls
      → (consume fingerprint token later members_later
          (run_all calls (consume fingerprint token now members rows).1)).0
        ≡ none
  unfolding lookup_invitation
  invitation_used_once token now later members members_later calls rows member success fresh =
      let after = run_all calls (consume fingerprint token now members rows).1 in
      let used =
        Used-run_all (fingerprint token) calls _ fresh
          (Used-consumed token now members rows member success) in
      elim (Option-cases (lookup_invitation fingerprint token after)) [
        | inl missing ↦ ap (λ r. r.0) (consume-missing token later members_later after missing)
        | inr (t, found) ↦
            ap (λ r. r.0) (consume-found token later members_later after t found)
            ∙ used_refused t later members_later after
                (Used-get (fingerprint token) after t used found)
      ]

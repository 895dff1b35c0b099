-- ===== src/Oauth/Allowlist.antt =====
-- The allowlist of redirect addresses of src/ai_api/services/oauth.py.
use ai_api.Base.{
  is_empty, ℕ, Bool, false, not, List, [], ◌∷◌, map, filter, any, if◌then◌else◌, ◌==◌, ◌||◌,
}
use ai_api.Models.{Text}
use ai_api.Base.Strings.{strip, starts_with}

abbrev to_front : ℕ → List Text → List Text
to_front c [] = (c ∷ []) ∷ []
to_front c (piece ∷ pieces) = (c ∷ piece) ∷ pieces

-- `re.split(r"[,\n]", raw)`
unfoldable pub split_entries : Text → List Text
split_entries [] = [] ∷ []
split_entries (c ∷ s) =
    let pieces = split_entries s in if c == b',' || c == 10 then [] ∷ pieces else to_front c pieces

-- `parse_allowlist`
unfoldable pub parse_allowlist : Text → List Text
parse_allowlist raw = filter (λ p. not (is_empty p)) (map strip (split_entries raw))

-- `validate_redirect_uri`: whether it passes
unfoldable pub redirect_allowed : Text → List Text → Bool
redirect_allowed uri [] = false
redirect_allowed uri (p ∷ ps) = any (λ q. starts_with q uri) (p ∷ ps)

-- ===== src/Lib.antt =====
-- A gateway to language models for the members of an organisation. An administrator allocates
-- models to members; a member calls them with application keys, each scoped to some of the member's
-- allocations; once a month the pool of token quotas is shared out again by last month's usage.
--
-- The parts, and the code that they follow:
-- - Base: Boolean tests, lists measured by native numbers, integers, tables keyed by an id, texts
--   as lists of characters, results (`Try`) for functions that may raise.
-- - Models: rows of src/ai_api/models that several services share.
-- - Pool: the pure computation of src/ai_api/services/quota_pool.py, `compute_rebalance`. Python's
--   `int(a * b / c)` is a correctly rounded true division that is then cut off: Pool/TrueDivision
--   models it for all integers within the exponent range of a double. Overflow to infinity, which
--   Python reports as OverflowError above 2^1023, is not modelled.
-- - Rebalance: `apply_rebalance` of the same file over a database, with the settings row, the
--   suggestion and `update_pool_config` of src/ai_api/api/quota_pool.py. The unique index of the log
--   differs by dialect, as alembic/versions/0005_quota_pool.py creates it.
-- - Allocations: src/ai_api/services/allocations.py, the life cycle of an allocation. Its child Keys
--   is the part of that file on application keys. Pool and Rebalance read allocations' columns only.
-- - DeviceFlow: src/ai_api/services/device_flow.py, whose approval issues a key through Keys.
-- - Oauth: src/ai_api/services/oauth.py, whose exchange issues a key through Keys.
-- - Access: src/ai_api/services/model_access.py and src/ai_api/services/self_service.py, whose claim
--   creates an allocation and reads the reclaim locks that its revocation leaves.
-- - Preflight: src/ai_api/proxy/preflight.py with the allowlist, the guard, the monthly sums of
--   src/ai_api/services/quota.py, over Keys and Access; Preflight/ProviderKeys is `get_next` of
--   src/ai_api/services/provider_credentials.py, where a secret that does not decrypt fails the call.
-- - RateLimit: src/ai_api/auth/ratelimit.py, the lockout of logins.
-- - Sessions and Invitations: src/ai_api/auth/sessions.py and src/ai_api/auth/invitations.py. The SHA-256 of
--   a token is an argument.
-- - Tags and TagRules: src/ai_api/services/member_tags.py and src/ai_api/services/tag_rules.py, over the
--   table of tags that Access reads. What Python's `re` makes of a pattern is an argument, `Regex`.
-- - Members: src/ai_api/services/members.py with the policy of src/ai_api/auth/local.py and, in Members/Bulk,
--   the batches of src/ai_api/api/admin_members.py. It tags new members by TagRules, invites them by
--   Invitations and signs out those who are disabled by Sessions.
-- - Anomaly: src/ai_api/services/anomaly.py, whose scan changes allocations, and in Anomaly/Burst
--   src/ai_api/services/upstream_burst_detector.py. The test of a rate in double precision is an argument.
-- - Usage: src/ai_api/services/usage.py, the sums of call records by group, by time and by hour of the week.
-- - Records: src/ai_api/services/records.py, the pages of the log of calls.
-- - Notifications: src/ai_api/services/notifications.py and, in Notifications/Tables and
--   Notifications/Mailer, src/ai_api/services/notifier_email.py, with encryption and the answers of the mail server arguments.
-- - Policy: src/ai_api/auth/policy.py and src/ai_api/services/access_control.py, with Python's `ipaddress` an argument.
-- - Pricing: src/ai_api/services/pricing.py, the price list that calls are billed by and that the
--   administrators read, with the slugs of Access's catalog.
--
-- State is passed explicitly: `Db` holds the tables that a rebalance uses, `Store` those of the
-- allocation service, and the other parts' databases contain a `Store`. A flush that the code awaits
-- takes effect at once (in `flush_scope` of Keys the inserts before the deletes), and an operation returns the state after it; the callers commit. A row that a
-- unique column finds is changed by that column. Ids are numbers; fresh ids, fresh tokens and the
-- present instant are arguments, and so are the SHA-256 of src/ai_api/services/credentials.py where a
-- token is looked up, the Fernet encryption of src/ai_api/services/crypto.py and the PKCE digest.
--
-- Loops are structural recursion over lists. The two loops of the true division look for a scale and
-- carry fuel: a power of two above a number is found within the number's own value, and 53 doublings
-- reach the 53 bits of a double's fraction. The choice of a user code carries the code's own bound of
-- five retries.
--
-- Not modelled: the HTTP routers, the calls of upstream providers, the texts of mails, sign-in, the
-- editing of provider keys, the audit row that a failed rebalance writes in
-- a session of its own, and the front end.
pub mod Base
pub mod Models
pub mod Pool
pub mod Rebalance
pub mod Allocations
pub mod DeviceFlow
pub mod Oauth
pub mod Access
pub mod Preflight
pub mod RateLimit
pub mod Pricing
pub mod Anomaly
pub mod Usage
pub mod Notifications
pub mod Records
pub mod Policy
pub mod Sessions
pub mod Tags
pub mod TagRules
pub mod Invitations
pub mod Members

-- ===== src/Guardrails/Guards/Words.antt =====
-- `policyGuard`, `toneGuard` and `piiGuard` of src/guardrails/guards.ts: what no reply may say, the
-- seller's voice, and personal data.
pub mod Laws
use sidestage_copilot.Prelude.{
  ℕ, String, str_eq, Bool, true, false, not, ◌&&◌, ◌||◌, Option, none, some, List, [], ◌∷◌,
  if◌then◌else◌, ltb, ◌==◌, any,
}
use sidestage_copilot.Domain.{GuardVerdict, passed, asks_revision, blocks, policy_corpus}
use sidestage_copilot.Catalog.{Listing}
use sidestage_copilot.Guardrails.Input.{
  EvidenceSource, from_policy, Fact, NeverSay, GuardPolicy, GuardInput, has_corpus, is_given, finds,
}
use sidestage_copilot.Guardrails.Guards.Listings.{first_resolved_listing}

abbrev certificate_of : Option Listing → Bool
certificate_of none = false
certificate_of (some l) = l.authenticated && is_given l.cert_id

-- `listing?.authenticated && listing.certId`, for the listing that the question resolved to
unfoldable pub certified : GuardInput → Bool
certified i = certificate_of (first_resolved_listing i)

-- A rule of `neverSay` that the reply breaks.
abbrev pub prohibits : GuardInput → NeverSay → Bool
prohibits i r = r.hits i.draft.answer && not (r.unless_certified && certified i)

abbrev is_policy : EvidenceSource → Bool
is_policy from_policy = true
is_policy _ = false

abbrev on_topic : String → Option String → Bool
on_topic t none = false
on_topic t (some u) = str_eq u t

-- `hasClause || hasListingFact`
abbrev pub governs : String → Fact → Bool
governs t f = (is_policy f.source && on_topic t f.policy_topic) || str_eq f.field t

-- `TOPIC_ASSERTIONS`, by their topics.
abbrev pub topics : List String
topics = "shipping" ∷ "returns" ∷ "authenticity" ∷ []

abbrev pub ungoverned : GuardInput → String → Bool
ungoverned i t = i.tools.asserts_topic t i.draft.answer && not (any (governs t) i.facts)

unfoldable pub policy_guard : GuardInput → GuardVerdict
policy_guard i =
    if any (prohibits i) i.policy.never_say
    then blocks
    else if not (has_corpus i.surface policy_corpus)
    then passed
    else if any (ungoverned i) topics
    then asks_revision
    else passed

-- The texts are compared by `===`.
abbrev all_caps : GuardInput → Bool
all_caps i =
    let letters = i.tools.letters i.draft.answer in
    ltb 12 (i.tools.size letters) && str_eq letters (i.tools.upper letters)

unfoldable pub tone_guard : GuardInput → GuardVerdict
tone_guard i =
    let a = i.draft.answer in
    let p = i.policy in
    if i.tools.size (i.tools.trim a) == 0
    then blocks
    else if i.tools.profane a
    then blocks
    else if ltb p.max_reply_chars (i.tools.size a)
    then asks_revision
    else if not p.allow_markdown && i.tools.uses_markdown a
    then asks_revision
    else if not p.allow_emoji && i.tools.uses_emoji a
    then asks_revision
    else if finds (i.tools.includes (i.tools.lower a)) p.hype_phrases
    then asks_revision
    else if all_caps i
    then asks_revision
    else passed

unfoldable pub pii_guard : GuardInput → GuardVerdict
pii_guard i =
    let a = i.draft.answer in
    if i.tools.email a || i.tools.phone a || i.tools.card a || i.tools.address a
    then blocks
    else passed

-- ===== src/Classify.antt =====
-- internal/edge/classify/classify.go: which requests are buffered as webhooks while the agent is
-- offline. `lower_unicode` is Go's lower-case mapping on text that is not all ASCII.
use liveurl.Prelude.{
  Bool, List, Text, [], any, codes, contains, false, if◌then◌else◌, not, text_eq, to_lower, true,
  ◌||◌, ◌∷◌,
}
use liveurl.Http.{Header, Request, header_get}
use liveurl.Glob.{path_match}

abbrev pub signature_headers : List Text
signature_headers =
    codes "Stripe-Signature"
    ∷ codes "X-GitHub-Event"
    ∷ codes "X-Hub-Signature-256"
    ∷ codes "X-Hub-Signature"
    ∷ codes "X-Twilio-Signature"
    ∷ codes "Svix-Signature"
    ∷ codes "X-Shopify-Hmac-Sha256"
    ∷ codes "X-Slack-Signature"
    ∷ codes "Paypal-Transmission-Sig"
    ∷ []

abbrev pub is_empty : Text → Bool
is_empty [] = true
is_empty (c ∷ s) = false

abbrev pub matches_rule : Text → List Text → Bool
matches_rule path rules = any (λ rule. path_match rule path) rules

abbrev pub has_signature : Header → Bool
has_signature h = any (λ name. not (is_empty (header_get name h))) signature_headers

module _ (lower_unicode : Text → Text) where
  unfoldable pub heuristic : Request → Bool
  unfolding header_get to_lower contains
  heuristic r =
      let ct = to_lower lower_unicode (header_get (codes "Content-Type") r.header) in
      let accept = to_lower lower_unicode (header_get (codes "Accept") r.header) in
      if text_eq r.method (codes "GET") || text_eq r.method (codes "HEAD")
      then false
      else if not (contains (codes "json") ct || contains (codes "form-urlencoded") ct)
      then false
      else if contains (codes "text/html") accept
      then false
      else true

  unfoldable pub is_webhook : List Text → Request → Bool
  unfolding heuristic path_match header_get
  is_webhook buffer_rules r =
      if matches_rule r.path buffer_rules
      then true
      else if has_signature r.header
      then true
      else heuristic r

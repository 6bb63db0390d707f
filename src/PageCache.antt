-- ===== src/PageCache.antt =====
-- internal/edge/snapshot/snapshot.go: which live responses are stored for offline serving, with
-- which headers, and the banner that marks a page served from the cache.
pub mod Banner
use liveurl.Prelude.{
  Bool, List, Option, Text, [], any, codes, contains, drop, false, has_prefix, if◌then◌else◌, leb,
  length, lower_byte, map, none, not, some, suc, take, text_eq, to_lower, ℕ, ◌++◌, ◌==◌, ◌||◌, ◌∷◌,
}
use liveurl.Http.{Header, Request, Response, header_get}
use liveurl.Classify.{is_empty}

abbrev pub cacheable_content_type_prefixes : List Text
cacheable_content_type_prefixes =
    codes "text/html"
    ∷ codes "text/css"
    ∷ codes "text/plain"
    ∷ codes "text/javascript"
    ∷ codes "application/javascript"
    ∷ codes "application/json"
    ∷ codes "image/"
    ∷ codes "font/"
    ∷ []

abbrev pub hop_by_hop_headers : List Text
hop_by_hop_headers =
    codes "Connection"
    ∷ codes "Keep-Alive"
    ∷ codes "Proxy-Authenticate"
    ∷ codes "Proxy-Authorization"
    ∷ codes "Te"
    ∷ codes "Trailer"
    ∷ codes "Transfer-Encoding"
    ∷ codes "Upgrade"
    ∷ codes "Set-Cookie"
    ∷ codes "Content-Length"
    ∷ []

-- `strings.EqualFold` against an ASCII name (the two non-ASCII letters that fold to ASCII ones
-- cannot stand in a header's name).
unfoldable pub equal_fold : Text → Text → Bool
unfolding text_eq
equal_fold a b = text_eq (map lower_byte a) (map lower_byte b)

unfoldable pub is_hop_by_hop : Text → Bool
unfolding equal_fold
is_hop_by_hop name = any (λ h. equal_fold h name) hop_by_hop_headers

-- `Headers`: the first value of each header that is not hop by hop.
unfoldable pub stored_headers : Header → List (Text × Text)
unfolding is_hop_by_hop
stored_headers [] = []
stored_headers ((k, []) ∷ h) = stored_headers h
stored_headers ((k, v ∷ vs) ∷ h) =
    let rest = stored_headers h in if is_hop_by_hop k then rest else (k, v) ∷ rest

abbrev pub or_here : Bool → Option ℕ → Option ℕ
or_here here (some i) = some (suc i)
or_here here none = if here then some 0 else none

-- `bytes.LastIndex`, the text that is looked for first.
unfoldable pub last_index : Text → Text → Option ℕ
unfolding has_prefix
last_index p [] = if has_prefix p [] then some 0 else none
last_index p (c ∷ s) = or_here (has_prefix p (c ∷ s)) (last_index p s)

abbrev pub body_end : Text
body_end = codes "</body>"

abbrev newline : Text
newline = 10 ∷ []

-- The notice; the time is formatted by Go's `time` package.
unfoldable pub banner : Text → Text
banner captured =
    codes "<div style=\"position:fixed;bottom:0;left:0;right:0;z-index:2147483647;"
    ++ (newline
        ++ (codes
              "background:#151a23;color:#e8e8ec;font:13px system-ui,sans-serif;padding:8px 14px;"
            ++ (newline
                ++ (codes "border-top:1px solid #2a3140;text-align:center\">"
                    ++ (newline
                        ++ (codes
                              "liveurl: live server is offline &mdash; showing a snapshot captured "
                            ++ (captured ++ (newline ++ codes "</div>"))))))))

-- A slice bound beyond the page's length panics, which is `none`.
abbrev pub insert_at : Option ℕ → Text → Text → Option Text
insert_at none notice page = some (page ++ notice)
insert_at (some i) notice page =
    if leb i (length page) then some (take i page ++ (notice ++ drop i page)) else none

module _ (lower_unicode : Text → Text) where
  unfoldable pub cacheable : Request → Response → Bool
  unfolding header_get to_lower contains has_prefix
  cacheable req resp =
      let cache_control = to_lower lower_unicode (header_get (codes "Cache-Control") resp.header) in
      let content_type = to_lower lower_unicode (header_get (codes "Content-Type") resp.header) in
      if not (text_eq req.method (codes "GET"))
      then false
      else if not (resp.status_code == 200)
      then false
      else if not (is_empty (header_get (codes "Cookie") req.header))
          || not (is_empty (header_get (codes "Authorization") req.header))
      then false
      else if not (is_empty (header_get (codes "Set-Cookie") resp.header))
      then false
      else if contains (codes "private") cache_control || contains (codes "no-store") cache_control
      then false
      else any (λ p. has_prefix p content_type) cacheable_content_type_prefixes

  -- `InjectBanner`: the index is found in the page in lower case, and used in the page itself.
  unfoldable pub inject_banner : Text → Text → Option Text
  unfolding to_lower last_index
  inject_banner page notice =
      insert_at (last_index body_end (to_lower lower_unicode page)) notice page

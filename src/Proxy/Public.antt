-- ===== src/Proxy/Public.antt =====
-- Which live responses are stored, described without the code (internal/edge/proxy.go, forwardLive, and
-- internal/edge/snapshot/snapshot.go, Cacheable).
use liveurl.Prelude.{
  Bool, Text, [], any, arith, codes, contains, false, has_prefix, if◌then◌else◌, leb, length, not,
  refl, text_eq, to_lower, true, ℕ, ◌&&◌, ◌==◌, ◌||◌, ◌∷◌, ◌≡◌,
}
use liveurl.Http.{Request, Response, header_get}
use liveurl.Classify.{is_empty}
use liveurl.PageCache.{cacheable, cacheable_content_type_prefixes}
use liveurl.Offline.{GoLibrary}
use liveurl.Proxy.{is_candidate, max_tee_body}

-- A response that may be shown to any visitor, described without the code.
abbrev is_public : (Text → Text) → Request → Response → Bool
is_public lower_unicode r resp =
    let caching = to_lower lower_unicode (header_get (codes "Cache-Control") resp.header) in
    let kind = to_lower lower_unicode (header_get (codes "Content-Type") resp.header) in
    is_empty (header_get (codes "Cookie") r.header)
    && (is_empty (header_get (codes "Authorization") r.header)
        && (is_empty (header_get (codes "Set-Cookie") resp.header)
            && (not (contains (codes "private") caching)
                && (not (contains (codes "no-store") caching)
                    && any (λ p. has_prefix p kind)
                        (codes "text/html"
                          ∷ codes "text/css"
                          ∷ codes "text/plain"
                          ∷ codes "text/javascript"
                          ∷ codes "application/javascript"
                          ∷ codes "application/json"
                          ∷ codes "image/"
                          ∷ codes "font/"
                          ∷ [])))))

-- What may be stored: all of a public GET with status 200 of a known tunnel, which is not empty and has
-- no more than 20 MiB.
abbrev pub may_store : (Text → Text) → ℕ → Request → Response → Text → Bool → Bool
may_store lower_unicode tunnel_id r resp body complete =
    not (tunnel_id == 0)
    && (text_eq r.method (codes "GET")
        && (resp.status_code == 200
            && (is_public lower_unicode r resp
                && (complete && (leb 1 (length body) && leb (length body) 20971520)))))

guards_lem :
    (get fine cookie auth set private no_store kind : Bool)
    → (if not get
        then false
        else if not fine
        then false
        else if not cookie || not auth
        then false
        else if not set
        then false
        else if private || no_store
        then false
        else kind)
      ≡ (get && (fine && (cookie && (auth && (set && (not private && (not no_store && kind)))))))
guards_lem false fine cookie auth set private no_store kind = refl
guards_lem true false cookie auth set private no_store kind = refl
guards_lem true true false auth set private no_store kind = refl
guards_lem true true true false set private no_store kind = refl
guards_lem true true true true false private no_store kind = refl
guards_lem true true true true true true no_store kind = refl
guards_lem true true true true true false true kind = refl
guards_lem true true true true true false false kind = refl

joined_lem :
    (upgrade known get fine shown complete small filled : Bool)
    → (fine ≡ true → upgrade ≡ false)
    → ((not upgrade && ((known && (get && (get && (fine && shown)))) && (complete && small)))
        && filled)
      ≡ (known && (get && (fine && (shown && (complete && (filled && small))))))
joined_lem upgrade known get fine shown complete small filled h = ground (arith, h)

cacheable_lem :
    (lower_unicode : Text → Text) (r : Request) (resp : Response)
    → cacheable lower_unicode r resp ≡ (
        text_eq r.method (codes "GET")
        && (resp.status_code == 200 && is_public lower_unicode r resp))
unfolding cacheable
cacheable_lem lower_unicode r resp =
    guards_lem (text_eq r.method (codes "GET")) (resp.status_code == 200)
      (is_empty (header_get (codes "Cookie") r.header))
      (is_empty (header_get (codes "Authorization") r.header))
      (is_empty (header_get (codes "Set-Cookie") resp.header))
      (contains (codes "private")
        (to_lower lower_unicode (header_get (codes "Cache-Control") resp.header)))
      (contains (codes "no-store")
        (to_lower lower_unicode (header_get (codes "Cache-Control") resp.header)))
      (any
        (λ p. has_prefix p (to_lower lower_unicode (header_get (codes "Content-Type") resp.header)))
        cacheable_content_type_prefixes)

pub may_store_lem :
    (go : GoLibrary) (tunnel_id : ℕ) (r : Request) (resp : Response) (body : Text) (complete : Bool)
    → ((not (resp.status_code == 101)
          && (is_candidate go tunnel_id r resp && (complete && leb (length body) max_tee_body)))
        && leb 1 (length body))
      ≡ may_store go.lower_unicode tunnel_id r resp body complete
may_store_lem go tunnel_id r resp body complete = rw (cacheable_lem go.lower_unicode r resp) (
    joined_lem (resp.status_code == 101) (not (tunnel_id == 0)) _ (resp.status_code == 200) _
      complete _ _ (λ h. ground (arith, h)))

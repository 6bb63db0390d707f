-- ===== src/Offline.antt =====
-- internal/edge/offline.go: the requests of a tunnel whose agent is not connected. A webhook is put
-- into the queue, a page is served from the snapshot cache with a banner. The reply is what the
-- handler writes.
pub mod Buffered
use liveurl.Prelude.{
  Bool, List, Option, Text, [], codes, has_prefix, if◌then◌else◌, length, ltb, none, some, take,
  text_eq, true, ℕ, ◌++◌, ◌+◌, ◌||◌, ◌∷◌,
}
use liveurl.Http.{Header, Request, Response, header_set}
use liveurl.Pages.{branded_page, http_error}
use liveurl.Classify.{is_webhook}
use liveurl.PageCache.{banner, inject_banner}
use liveurl.Store.{Conn, Result, SnapshotRow, Tunnel, err, ok}
use liveurl.Store.Users.{Crypto}
use liveurl.Store.Events.{enqueue_event}
use liveurl.Store.Snapshots.{get_snapshot}

-- What the handlers use of Go's libraries: the lower-case mapping and the removal of white space at
-- both ends, the format of a time and the decimal digits of a number, and the hashes.
pub record GoLibrary : Type 0 where
  pub lower_unicode : Text → Text
  pub trim_space : Text → Text
  pub format_time : ℕ → Text
  pub format_int : ℕ → Text
  pub crypto : Crypto

-- A handler writes a reply, or panics.
pub data Answer : Type 0 where
  answered : Response → Answer
  panicked : Answer

-- proto.MaxWebhookBody, 5 << 20
abbrev pub max_webhook_body : ℕ
max_webhook_body = 5242880

-- `store.QueryHash`: the hex digits of the first eight bytes of the sum.
abbrev pub query_hash : GoLibrary → Text → Text
query_hash go [] = []
query_hash go (c ∷ s) = take 16 (go.crypto.sha256_hex (c ∷ s))

abbrev pub buffered_reply : GoLibrary → ℕ → Response
buffered_reply go id = record {
  status_code = 202;
  header =
      header_set (codes "X-Liveurl-Event-Id") (go.format_int id)
        (header_set (codes "X-Liveurl-Buffered") (codes "true") []);
  body = codes "liveurl: agent offline, request buffered for replay" ++ 10 ∷ [];
}

abbrev pub buffered_or_failed : GoLibrary → Result ℕ × Conn → Answer × Conn
buffered_or_failed go (ok id, c) = (answered (buffered_reply go id), c)
buffered_or_failed go (err x, c) =
    (answered (http_error [] (codes "failed to buffer webhook") 500), c)

-- `bufferWebhook`. The request's body is what its reader gives, or `none` where reading it fails; no
-- more than one byte beyond the limit is read.
unfoldable pub buffer_webhook : GoLibrary → Option Text → Request → Tunnel → Conn → Answer × Conn
unfolding http_error enqueue_event header_set
buffer_webhook go none r tunnel c =
    (answered (http_error [] (codes "failed to read request body") 400), c)
buffer_webhook go (some sent) r tunnel c =
    let body = take (max_webhook_body + 1) sent in
    if ltb max_webhook_body (length body)
    then (answered (http_error [] (codes "request body exceeds buffering limit") 413), c)
    else buffered_or_failed go (enqueue_event tunnel.id r.method r.path r.raw_query r.header body c)

-- `w.Header().Set` for each header of a snapshot
unfoldable pub set_headers : List (Text × Text) → Header → Header
unfolding header_set
set_headers [] h = h
set_headers ((k, v) ∷ rest) h = set_headers rest (header_set k v h)

abbrev pub is_html : Text → Bool
is_html content_type = has_prefix (codes "text/html") content_type

abbrev pub snapshot_reply : GoLibrary → SnapshotRow → Option Text → Answer
snapshot_reply go snap none = panicked
snapshot_reply go snap (some body) = answered (record {
  status_code = 200;
  header =
      header_set (codes "Content-Length") (go.format_int (length body))
        (set_headers snap.headers []);
  body = body;
})

-- The body of a snapshot as it is served; `none` is a panic.
unfoldable pub served_body : GoLibrary → SnapshotRow → Option Text
unfolding inject_banner banner has_prefix
served_body go snap =
    if is_html snap.content_type
    then inject_banner go.lower_unicode snap.body (banner (go.format_time snap.captured_at))
    else some snap.body

abbrev no_snapshot_title : Text
no_snapshot_title = codes "Offline " ++ 226 ∷ 128 ∷ 148 ∷ codes " no snapshot"

abbrev pub snapshot_answer : GoLibrary → Result SnapshotRow × Conn → Answer × Conn
snapshot_answer go (err x, c) = (
  answered (
      http_error []
        (branded_page no_snapshot_title (
          codes
            "The live server is offline and this page was never captured in the snapshot cache."))
        503),
  c,
)
snapshot_answer go (ok snap, c) = (snapshot_reply go snap (served_body go snap), c)

unfoldable pub serve_snapshot : GoLibrary → Request → Tunnel → Conn → Answer × Conn
unfolding get_snapshot served_body set_headers http_error branded_page header_set
serve_snapshot go r tunnel c =
    snapshot_answer go (get_snapshot tunnel.id r.path (query_hash go r.raw_query) c)

-- `ServeOffline`
unfoldable pub serve_offline : GoLibrary → Option Text → Request → Tunnel → Conn → Answer × Conn
unfolding is_webhook buffer_webhook serve_snapshot http_error branded_page
serve_offline go sent r tunnel c =
    if is_webhook go.lower_unicode tunnel.buffer_rules r
    then buffer_webhook go sent r tunnel c
    else if text_eq r.method (codes "GET") || text_eq r.method (codes "HEAD")
    then serve_snapshot go r tunnel c
    else (
      answered (
          http_error []
            (branded_page (codes "503 Offline") (
              codes
                "The live server for this tunnel is offline and this request isn't a page load, so there's nothing to show."))
            503),
      c,
    )

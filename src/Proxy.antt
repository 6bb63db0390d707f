-- ===== src/Proxy.antt =====
-- internal/edge/proxy.go: a request that is forwarded to the connected agent, and the copy of the
-- response that may go into the snapshot cache. The stream to the agent is an argument: what comes
-- back on it, in the chunks in which io.Copy reads it.
pub mod Public
pub mod Tee
use liveurl.Prelude.{
  Bool, List, Option, Text, [], codes, false, if◌then◌else◌, length, ltb, none, not, some, text_eq,
  true, ℕ, ◌&&◌, ◌++◌, ◌+◌, ◌==◌, ◌∷◌,
}
use liveurl.Http.{Header, Request, Response, header_get}
use liveurl.PageCache.{cacheable, stored_headers}
use liveurl.Store.{Conn}
use liveurl.Store.Snapshots.{put_snapshot}
use liveurl.Offline.{GoLibrary, query_hash}

-- 20 << 20
abbrev pub max_tee_body : ℕ
max_tee_body = 20971520

pub record CappedBuffer : Type 0 where
  pub buf : Text
  pub limit : ℕ
  pub over : Bool

-- `cappedBuffer.Write`, which always reports that all was written.
unfoldable pub write : Text → CappedBuffer → CappedBuffer
write p c =
    if c.over
    then c
    else if ltb c.limit (length c.buf + length p)
    then record c { over = true }
    else record c { buf = c.buf ++ p }

-- What io.Copy writes to the buffer, chunk by chunk.
unfoldable pub write_all : List Text → CappedBuffer → CappedBuffer
unfolding write
write_all [] c = c
write_all (p ∷ ps) c = write_all ps (write p c)

abbrev pub empty_buffer : CappedBuffer
empty_buffer = record { buf = []; limit = max_tee_body; over = false }

-- What becomes of the stream. A reply has its head, its body in chunks, and whether the copy of the
-- body came to its end without an error.
pub data Exchange : Type 0 where
  open_fails write_fails read_fails : Exchange
  replies : Response → List Text → Bool → Exchange

-- What forwardLive returns: an error before anything was written, the relay of an upgrade, or the
-- status, the headers and the chunks that were copied to the client, and whether there was an error.
pub data LiveReply : Type 0 where
  failed upgraded : LiveReply
  copied : ℕ → Header → List Text → Bool → LiveReply

-- `bytes.Buffer.Bytes`: nil where nothing was written.
abbrev pub bytes_of : Text → Option Text
bytes_of [] = none
bytes_of (c ∷ s) = some (c ∷ s)

-- `storeSnapshot`: an error of the store is logged, and nothing else.
unfoldable pub store_snapshot : GoLibrary → ℕ → Request → Response → Text → Conn → Conn
unfolding stored_headers put_snapshot header_get
store_snapshot go tunnel_id r resp body c =
    (put_snapshot tunnel_id r.path (query_hash go r.raw_query)
      (header_get (codes "Content-Type") resp.header) (stored_headers resp.header) (bytes_of body)
      c).1

abbrev pub is_candidate : GoLibrary → ℕ → Request → Response → Bool
is_candidate go tunnel_id r resp =
    not (tunnel_id == 0) && (text_eq r.method (codes "GET") && cacheable go.lower_unicode r resp)

abbrev pub store_unless_over :
    GoLibrary → ℕ → Request → Response → CappedBuffer → Bool → Conn → Conn
store_unless_over go tunnel_id r resp cb complete c =
    if not complete then c else if cb.over then c else store_snapshot go tunnel_id r resp cb.buf c

-- `forwardLive`, with a store.
unfoldable pub forward_live : GoLibrary → Request → Exchange → ℕ → Conn → LiveReply × Conn
unfolding write_all store_snapshot cacheable
forward_live go r open_fails tunnel_id c = (failed, c)
forward_live go r write_fails tunnel_id c = (failed, c)
forward_live go r read_fails tunnel_id c = (failed, c)
forward_live go r (replies resp chunks complete) tunnel_id c =
    if resp.status_code == 101 then (upgraded, c) else (
      copied resp.status_code resp.header chunks complete,
      if is_candidate go tunnel_id r resp
          then store_unless_over go tunnel_id r resp (write_all chunks empty_buffer) complete c
          else c,
    )

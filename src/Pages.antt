-- ===== src/Pages.antt =====
-- internal/edge/router.go, brandedPage, and what the edge uses of net/http to write a reply:
-- http.Error, and a reply of a status, headers and a body.
use liveurl.Prelude.{List, Text, [], codes, if◌then◌else◌, ℕ, ◌++◌, ◌==◌, ◌∷◌}
use liveurl.Http.{Header, Response, header_set}

-- `html.EscapeString`
abbrev pub escape_byte : ℕ → Text
escape_byte c =
    if c == b'&'
    then codes "&amp;"
    else if c == b'<'
    then codes "&lt;"
    else if c == b'>'
    then codes "&gt;"
    else if c == 34
    then codes "&#34;"
    else if c == 39
    then codes "&#39;"
    else c ∷ []

unfoldable pub escape_string : Text → Text
escape_string [] = []
escape_string (c ∷ s) = escape_byte c ++ escape_string s

abbrev lines : List Text → Text
lines [] = []
lines (l ∷ []) = l
lines (l ∷ m ∷ ls) = l ++ 10 ∷ lines (m ∷ ls)

abbrev page_head : Text → Text
page_head title = lines (
    (codes "<!doctype html><html><head><meta charset=\"utf-8\"><title>"
      ++ (title ++ codes "</title>"))
    ∷ codes
        "<style>body{font-family:system-ui,sans-serif;background:#0b0c10;color:#e8e8ec;display:flex;"
    ∷ codes "align-items:center;justify-content:center;height:100vh;margin:0}"
    ∷ codes ".box{text-align:center;max-width:32rem;padding:2rem}"
    ∷ codes "h1{font-size:1.5rem;margin-bottom:.5rem}"
    ∷ codes "p{color:#9a9aa5}</style></head>"
    ∷ [])

-- `brandedPage`
unfoldable pub branded_page : Text → Text → Text
unfolding escape_string
branded_page title message =
    page_head (escape_string title)
    ++ 10
      ∷ (codes "<body><div class=\"box\"><h1>"
          ++ (escape_string title
              ++ (codes "</h1><p>" ++ (escape_string message ++ codes "</p></div></body></html>"))))

abbrev pub plain_text : Text
plain_text = codes "text/plain; charset=utf-8"

-- `http.Error`, where no header was set before but `h`.
unfoldable pub http_error : Header → Text → ℕ → Response
unfolding header_set
http_error h message status = record {
  status_code = status;
  header =
      header_set (codes "X-Content-Type-Options") (codes "nosniff")
        (header_set (codes "Content-Type") plain_text h);
  body = message ++ 10 ∷ [];
}

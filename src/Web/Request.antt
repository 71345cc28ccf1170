-- ===== src/Web/Request.antt =====
-- AppOptR/src/web.rs: `request_read`, on the bytes that the connection delivers before it ends or times out.
pub mod Limits
use app_opt_r_plus.Prelude.{
  ℕ, zero, suc, ◌-◌, ◌+◌, ◌^◌, Bool, true, false, not, ◌&&◌, ◌||◌, Option, none, some, List, [],
  ◌∷◌, ◌++◌, ltb, ◌==◌, if◌then◌else◌, is_empty, length, take, drop, map,
}
use app_opt_r_plus.Prelude.Text.{
  Text, codes, text_eq, trim, lines, split, split_once, split_whitespace, contains_text, lower_char,
  parse_uint,
}

pub record Request : Type 0 where
  pub method : Text
  pub path : Text
  pub host : Text
  pub origin : Text
  pub fetch_site : Text
  pub content_type : Text
  pub body : List ℕ
  pub keep_alive : Bool

-- The values of the header fields, and the length.
pub record Heads : Type 0 where
  pub host : Text
  pub origin : Text
  pub site : Text
  pub ctype : Text
  pub len : ℕ
  pub conn : Text

abbrev pub no_heads : Heads
no_heads = record { host = []; origin = []; site = []; ctype = []; len = 0; conn = [] }

-- `to_ascii_lowercase`.
abbrev pub lowered : Text → Text
lowered s = map lower_char s

abbrev length_of : Option ℕ → ℕ
length_of none = 2 ^ 64 - 1
length_of (some n) = n

-- One field by its lowered name; `none`: the request is refused.
unfoldable pub set_field : Text → Text → Heads → Option Heads
set_field k v h =
    if text_eq k (codes "host")
    then some (record h { host = lowered v })
    else if text_eq k (codes "origin")
    then some (record h { origin = lowered v })
    else if text_eq k (codes "sec-fetch-site")
    then some (record h { site = lowered v })
    else if text_eq k (codes "content-type")
    then some (record h { ctype = lowered v })
    else if text_eq k (codes "content-length")
    then some (record h { len = length_of (parse_uint (2 ^ 64) v) })
    else if text_eq k (codes "connection")
    then some (record h { conn = lowered v })
    else if text_eq k (codes "transfer-encoding")
    then none
    else some h

abbrev pub line_field : Option (Text × Text) → Heads → Option Heads
unfolding set_field
line_field none h = some h
line_field (some (k, v)) h = set_field (lowered (trim k)) (trim v) h

unfoldable pub head_fields : List Text → Heads → Option Heads
unfolding line_field
head_fields [] h = some h
head_fields (l ∷ ls) h = elim (line_field (split_once b':' l) h) [
  | none ↦ none
  | some h' ↦ head_fields ls h'
]

-- `read_until(b'\n')`: the line with its line feed, if there is one, and the bytes behind it.
abbrev put_first : ℕ → List ℕ × List ℕ → List ℕ × List ℕ
put_first b (line, rest) = (b ∷ line, rest)

unfoldable pub read_line : List ℕ → List ℕ × List ℕ
read_line [] = ([], [])
read_line (b ∷ bs) = let r = read_line bs in if b == b'\n' then (b ∷ [], bs) else put_first b r

abbrev pub blank : List ℕ → Bool
blank line = text_eq line (codes "\r\n") || text_eq line (codes "\n")

-- The lines in front of the blank one; `fuel` bounds the lines that are read.
unfoldable pub read_head : ℕ → List ℕ → List ℕ → Option (List ℕ × List ℕ)
unfolding read_line
read_head zero head bytes = none
read_head (suc fuel) head bytes =
    let (line, rest) = read_line bytes in
    let more = read_head fuel (head ++ line) rest in
    if is_empty line
    then none
    else if blank line
    then some (head, rest)
    else if ltb 8192 (length (head ++ line))
    then none
    else more

-- The words of the first line: method, path up to a `?`, version.
abbrev pub before_query : List Text → Text
before_query [] = []
before_query (p ∷ ps) = p

abbrev pub version_of : List Text → Text
version_of [] = codes "HTTP/1.1"
version_of (v ∷ vs) = v

abbrev pub keeps_alive : Text → Text → Bool
keeps_alive version conn =
    if text_eq version (codes "HTTP/1.0")
    then contains_text conn (codes "keep-alive")
    else not (contains_text conn (codes "close"))

abbrev pub with_body : Text → Text → Text → List ℕ → Heads → Option (Request × List ℕ)
with_body method path version rest h =
    if ltb 16384 h.len
    then none
    else if ltb (length rest) h.len
    then none
    else some (
      record {
        method = method;
        path = path;
        host = h.host;
        origin = h.origin;
        fetch_site = h.site;
        content_type = h.ctype;
        body = take h.len rest;
        keep_alive = keeps_alive version h.conn;
      },
      drop h.len rest,
    )

abbrev pub with_fields : Text → Text → List Text → List ℕ → Option Heads → Option (Request × List ℕ)
unfolding split
with_fields method path more rest none = none
with_fields method path more rest (some h) =
    with_body method (before_query (split b'?' path)) (version_of more) rest h

abbrev pub with_words : List Text → List Text → List ℕ → Option (Request × List ℕ)
unfolding with_fields head_fields
with_words (method ∷ path ∷ more) ls rest =
    with_fields method path more rest (head_fields ls no_heads)
with_words _ ls rest = none

abbrev pub with_lines : List Text → List ℕ → Option (Request × List ℕ)
unfolding with_words split_whitespace
with_lines [] rest = none
with_lines (l ∷ ls) rest = with_words (split_whitespace l) ls rest

-- `lossy` is `from_utf8_lossy` of the standard library.
abbrev pub of_head_lines : (List ℕ → Text) → Option (List ℕ × List ℕ) → Option (Request × List ℕ)
unfolding with_lines lines
of_head_lines lossy none = none
of_head_lines lossy (some (head, rest)) = with_lines (lines (lossy head)) rest

-- Every round but the last reads a byte, so that the number of bytes is fuel enough. The request and the bytes that
-- are left, or the end of the connection.
unfoldable pub request_read : (List ℕ → Text) → List ℕ → Option (Request × List ℕ)
unfolding read_head of_head_lines
request_read lossy bytes = of_head_lines lossy (read_head (suc (length bytes)) [] bytes)

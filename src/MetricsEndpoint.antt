-- ===== src/MetricsEndpoint.antt =====
-- crates/sv2-p2pool-pool/src/metrics_endpoint.rs: a request of a scraper and its response. Texts are
-- their code points.
pub mod Requests
pub mod Segments
use sv2_p2pool.Prelude.{
  ℕ, zero, suc, ◌+◌, ◌-◌, ◌*◌, Bool, true, false, ◌&&◌, ◌||◌, Bytes, String, List, [], ◌∷◌, ◌++◌,
  Option, none, some, ltb, leb, nat_eqb, bytes_eqb, starts_with, length, if◌then◌else◌,
}
use sv2_p2pool.Prelude.Flow.{Flow, next, exit, panic}

abbrev pub take : ℕ → Bytes → Bytes
take zero xs = []
take (suc n) [] = []
take (suc n) (x ∷ xs) = x ∷ take n xs

-- `buf[..len].windows(4).any(|w| w == b"\r\n\r\n")`
unfoldable pub has_blank_line : Bytes → Bool
has_blank_line [] = false
has_blank_line (x ∷ xs) = starts_with (x ∷ xs) (13 ∷ 10 ∷ 13 ∷ 10 ∷ []) || has_blank_line xs

abbrev pub capacity : ℕ
capacity = 4096

-- `len < buf.len()` does not hold.
abbrev pub is_full : Bytes → Bool
is_full buf = leb capacity (length buf)

abbrev pub is_nothing : Bytes → Bool
is_nothing [] = true
is_nothing (x ∷ xs) = false

-- The loop over what the socket gives, read by read; a read takes what fits into the rest of the
-- buffer, and where the list ends, the connection is closed.
unfoldable pub read_loop : Bytes → List (Flow String Bytes) → Flow String Bytes
read_loop buf [] = next buf
read_loop buf (exit e ∷ reads) = if is_full buf then next buf else exit e
read_loop buf (panic ∷ reads) = if is_full buf then next buf else panic
read_loop buf (next segment ∷ reads) =
    let got = take (capacity - length buf) segment in
    let rest = read_loop (buf ++ got) reads in
    if is_full buf
    then next buf
    else if is_nothing got
    then next buf
    else if has_blank_line (buf ++ got)
    then next (buf ++ got)
    else rest

-- `str::from_utf8`: between characters, or within one with `n` more bytes after the next, which is
-- from `low` to `high`.
pub data Decoder : Type 0 where
  between : Decoder
  within : (n low high value : ℕ) → Decoder

abbrev pub in_range : ℕ → ℕ → ℕ → Bool
in_range low high b = leb low b && leb b high

-- After the first byte of a longer character.
abbrev pub lead : ℕ → Option Decoder
lead b =
    if in_range 0xC2 0xDF b
    then some (within 0 0x80 0xBF (b - 0xC0))
    else if nat_eqb b 0xE0
    then some (within 1 0xA0 0xBF 0)
    else if nat_eqb b 0xED
    then some (within 1 0x80 0x9F 0xD)
    else if in_range 0xE1 0xEF b
    then some (within 1 0x80 0xBF (b - 0xE0))
    else if nat_eqb b 0xF0
    then some (within 2 0x90 0xBF 0)
    else if in_range 0xF1 0xF3 b
    then some (within 2 0x80 0xBF (b - 0xF0))
    else if nat_eqb b 0xF4
    then some (within 2 0x80 0x8F 4)
    else none

abbrev pub and_then : ℕ → Option (List ℕ) → Option (List ℕ)
and_then c none = none
and_then c (some cs) = some (c ∷ cs)

unfoldable pub from_utf8 : Decoder → Bytes → Option (List ℕ)
from_utf8 between [] = some []
from_utf8 (within n low high value) [] = none
from_utf8 between (b ∷ bytes) =
    let ascii = and_then b (from_utf8 between bytes) in
    if ltb b 0x80
    then ascii
    else elim (lead b) [ none ↦ none | some decoder ↦ from_utf8 decoder bytes ]
from_utf8 (within zero low high value) (b ∷ bytes) =
    let rest = and_then (value * 64 + (b - 0x80)) (from_utf8 between bytes) in
    if in_range low high b then rest else none
from_utf8 (within (suc n) low high value) (b ∷ bytes) =
    let rest = from_utf8 (within n 0x80 0xBF (value * 64 + (b - 0x80))) bytes in
    if in_range low high b then rest else none

-- `char::is_whitespace`
abbrev pub is_whitespace : ℕ → Bool
is_whitespace c =
    in_range 9 13 c
    || nat_eqb c 32
    || nat_eqb c 0x85
    || nat_eqb c 0xA0
    || nat_eqb c 0x1680
    || in_range 0x2000 0x200A c
    || in_range 0x2028 0x2029 c
    || nat_eqb c 0x202F
    || nat_eqb c 0x205F
    || nat_eqb c 0x3000

-- `lines().next()`: up to a line feed, without the carriage return before it.
abbrev pub ends_line : ℕ → List ℕ → Bool
ends_line c [] = nat_eqb c 10
ends_line c (d ∷ rest) = nat_eqb c 10 || (nat_eqb c 13 && nat_eqb d 10)

unfoldable pub first_line : List ℕ → List ℕ
first_line [] = []
first_line (c ∷ rest) = let line = first_line rest in if ends_line c rest then [] else c ∷ line

-- `split_whitespace()`
unfoldable pub skip_spaces : List ℕ → List ℕ
skip_spaces [] = []
skip_spaces (c ∷ rest) = let later = skip_spaces rest in if is_whitespace c then later else c ∷ rest

unfoldable pub skip_word : List ℕ → List ℕ
skip_word [] = []
skip_word (c ∷ rest) = let later = skip_word rest in if is_whitespace c then c ∷ rest else later

unfoldable pub word : List ℕ → List ℕ
word [] = []
word (c ∷ rest) = let later = word rest in if is_whitespace c then [] else c ∷ later

abbrev pub or_root : List ℕ → List ℕ
or_root [] = 47 ∷ []
or_root (c ∷ rest) = c ∷ rest

-- `.nth(1)`, or `"/"` where there is no second word.
unfoldable pub path_of : List ℕ → List ℕ
path_of request = or_root (word (skip_spaces (skip_word (skip_spaces (first_line request)))))

abbrev pub or_empty : Option (List ℕ) → List ℕ
or_empty none = []
or_empty (some text) = text

unfoldable pub request_path : Bytes → List ℕ
request_path buf = path_of (or_empty (from_utf8 between buf))

-- What `write_status` writes: the fields of the header, and the body.
pub record Response : Type 0 where
  pub status : ℕ
  pub reason : String
  pub content_type : String
  pub content_length : ℕ
  pub body : Bytes

abbrev pub reason_of : ℕ → String
reason_of status =
    if nat_eqb status 200
    then "OK"
    else if nat_eqb status 404
    then "Not Found"
    else if nat_eqb status 500
    then "Internal Server Error"
    else "Unknown"

unfoldable pub write_status : (status : ℕ) → (content_type : String) → (body : Bytes) → Response
write_status status content_type body = record {
  status = status;
  reason = reason_of status;
  content_type = content_type;
  content_length = length body;
  body = body;
}

-- The bytes of the texts "/metrics", "/healthz", "encode error\n", "ok\n" and "not found\n".
abbrev pub metrics_path : List ℕ
metrics_path = 47 ∷ 109 ∷ 101 ∷ 116 ∷ 114 ∷ 105 ∷ 99 ∷ 115 ∷ []

abbrev pub healthz_path : List ℕ
healthz_path = 47 ∷ 104 ∷ 101 ∷ 97 ∷ 108 ∷ 116 ∷ 104 ∷ 122 ∷ []

abbrev pub encode_error : Bytes
encode_error = 101 ∷ 110 ∷ 99 ∷ 111 ∷ 100 ∷ 101 ∷ 32 ∷ 101 ∷ 114 ∷ 114 ∷ 111 ∷ 114 ∷ 10 ∷ []

abbrev pub ok_body : Bytes
ok_body = 111 ∷ 107 ∷ 10 ∷ []

abbrev pub not_found_body : Bytes
not_found_body = 110 ∷ 111 ∷ 116 ∷ 32 ∷ 102 ∷ 111 ∷ 117 ∷ 110 ∷ 100 ∷ 10 ∷ []

-- `metrics` is what the prometheus encoder gives, `none` for an error.
abbrev pub metrics_page : Option Bytes → String → Response
metrics_page none format_type = write_status 500 "text/plain" encode_error
metrics_page (some body) format_type = write_status 200 format_type body

unfoldable pub page : (metrics : Option Bytes) → (format_type : String) → (path : List ℕ) → Response
page metrics format_type path =
    if bytes_eqb path metrics_path
    then metrics_page metrics format_type
    else if bytes_eqb path healthz_path
    then write_status 200 "text/plain" ok_body
    else write_status 404 "text/plain" not_found_body

abbrev pub respond : Option Bytes → String → Flow String Bytes → Flow String Response
respond metrics format_type (next buf) = next (page metrics format_type (request_path buf))
respond metrics format_type (exit e) = exit e
respond metrics format_type panic = panic

unfoldable pub handle_one :
    (metrics : Option Bytes)
    → (format_type : String) → List (Flow String Bytes)
    → Flow String Response
handle_one metrics format_type reads = respond metrics format_type (read_loop [] reads)

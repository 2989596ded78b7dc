-- ===== src/MetricsEndpoint/Requests.antt =====
-- What the endpoint reads of a request, and what it answers.
use sv2_p2pool.Prelude.{
  ℕ, suc, ◌≤◌, ◌<◌, ◌≡◌, refl, ap, ◌∙◌, arith, Bool, true, false, Bytes, String, List, [], ◌∷◌,
  ◌++◌, Option, some, length, All, if◌then◌else◌, zero,
}
use sv2_p2pool.Prelude.Flow.{Flow, next}
use sv2_p2pool.MetricsEndpoint.{
  take, read_loop, between, from_utf8, is_whitespace, ends_line, first_line, skip_spaces, skip_word,
  word, path_of, request_path, page, handle_one,
}

-- Visible ASCII characters, all characters from the space on, and ASCII.
abbrev pub IsVisible : ℕ → Type 0
IsVisible c = (33 ≤ c) × (c < 127)

abbrev pub IsAscii : ℕ → Type 0
IsAscii c = c < 128

abbrev Prints : ℕ → Type 0
Prints c = 32 ≤ c

is_whitespace_visible : (c : ℕ) → IsVisible c → is_whitespace c ≡ false
is_whitespace_visible c v = ground arith

from_utf8_ascii : (bytes : Bytes) → All IsAscii bytes → from_utf8 between bytes ≡ some bytes
unfolding from_utf8
from_utf8_ascii [] h = refl
from_utf8_ascii (b ∷ bytes) h = ground (arith, from_utf8_ascii bytes h.1)

-- A character from the space on does not end a line.
ends_line-Prints : (c : ℕ) (rest : List ℕ) → Prints c → ends_line c rest ≡ false
ends_line-Prints c [] h = ground arith
ends_line-Prints c (d ∷ rest) h = ground arith

unless_ends :
    (ends : Bool) (c : ℕ) (line : List ℕ)
    → ends ≡ false
    → (if ends then [] else c ∷ line) ≡ c ∷ line
unless_ends true c line e = absurd cc
unless_ends false c line e = refl

first_line-Prints :
    (xs rest : List ℕ) → All Prints xs → first_line (xs ++ rest) ≡ xs ++ first_line rest
unfolding first_line
first_line-Prints [] rest h = refl
first_line-Prints (c ∷ xs) rest h =
    unless_ends (ends_line c (xs ++ rest)) c (first_line (xs ++ rest))
      (ends_line-Prints c (xs ++ rest) h.0)
    ∙ ap (◌∷◌ c) (first_line-Prints xs rest h.1)

skip_word_visible :
    (xs rest : List ℕ) → All IsVisible xs → skip_word (xs ++ (32 ∷ rest)) ≡ 32 ∷ rest
unfolding skip_word
skip_word_visible [] rest h = refl
skip_word_visible (c ∷ xs) rest h =
    ground (arith, is_whitespace_visible c h.0, skip_word_visible xs rest h.1)

word_visible : (xs rest : List ℕ) → All IsVisible xs → word (xs ++ (32 ∷ rest)) ≡ xs
unfolding word
word_visible [] rest h = refl
word_visible (c ∷ xs) rest h = ground (arith, is_whitespace_visible c h.0, word_visible xs rest h.1)

skip_spaces_visible : (c : ℕ) (rest : List ℕ) → IsVisible c → skip_spaces (c ∷ rest) ≡ c ∷ rest
unfolding skip_spaces
skip_spaces_visible c rest v = rw (is_whitespace_visible c v) refl

visible-Prints : (xs : List ℕ) → All IsVisible xs → All Prints xs
visible-Prints [] h = tt
visible-Prints (c ∷ xs) h = (omega (arith, h.0), visible-Prints xs h.1)

skip_spaces_space : (rest : List ℕ) → skip_spaces (32 ∷ rest) ≡ skip_spaces rest
unfolding skip_spaces
skip_spaces_space rest = refl

All-append {κ} : (P : ℕ → Type κ) (xs ys : List ℕ) → All P xs → All P ys → All P (xs ++ ys)
All-append P [] ys h k = k
All-append P (x ∷ xs) ys h k = (h.0, All-append P xs ys h.1 k)

visible-IsAscii : (xs : List ℕ) → All IsVisible xs → All IsAscii xs
visible-IsAscii [] h = tt
visible-IsAscii (c ∷ xs) h = (omega (arith, h.0), visible-IsAscii xs h.1)

-- A request line's start, and what follows.
abbrev pub request : (method path rest : List ℕ) → List ℕ
request method path rest = method ++ (32 ∷ (path ++ (32 ∷ rest)))

path_of-request :
    (m : ℕ) (method : List ℕ) (p : ℕ) (path rest : List ℕ)
    → All IsVisible (m ∷ method)
    → All IsVisible (p ∷ path)
    → path_of (request (m ∷ method) (p ∷ path) rest) ≡ p ∷ path
unfolding path_of
path_of-request m method p path rest hm hp =
    rw
      (
        line,
        skip_spaces_visible m (method ++ (32 ∷ ((p ∷ path) ++ (32 ∷ first_line rest)))) hm.0,
        skip_word_visible (m ∷ method) ((p ∷ path) ++ (32 ∷ first_line rest)) hm,
        skip_spaces_space ((p ∷ path) ++ (32 ∷ first_line rest)),
        skip_spaces_visible p (path ++ (32 ∷ first_line rest)) hp.0,
        word_visible (p ∷ path) (first_line rest) hp,
      )
      refl
  where
    line :
        first_line (request (m ∷ method) (p ∷ path) rest)
        ≡ request (m ∷ method) (p ∷ path) (first_line rest)
    line =
        first_line-Prints (m ∷ method) (32 ∷ ((p ∷ path) ++ (32 ∷ rest)))
          (visible-Prints (m ∷ method) hm)
        ∙ ap (λ xs. (m ∷ method) ++ xs)
            (first_line-Prints (32 ∷ []) ((p ∷ path) ++ (32 ∷ rest)) (omega arith, tt)
              ∙ ap (λ xs. 32 ∷ xs)
                  (first_line-Prints (p ∷ path) (32 ∷ rest) (visible-Prints (p ∷ path) hp)
                    ∙ ap (λ xs. (p ∷ path) ++ xs)
                        (first_line-Prints (32 ∷ []) rest (omega arith, tt))))

request-IsAscii :
    (method path rest : List ℕ)
    → All IsVisible method
    → All IsVisible path
    → All IsAscii rest
    → All IsAscii (request method path rest)
request-IsAscii method path rest hm hp hr =
    All-append IsAscii method (32 ∷ (path ++ (32 ∷ rest))) (visible-IsAscii method hm)
      (omega arith, All-append IsAscii path (32 ∷ rest) (visible-IsAscii path hp) (omega arith, hr))

pub take_all : (xs : Bytes) (n : ℕ) → length xs ≤ n → take n xs ≡ xs
take_all [] zero h = refl
take_all [] (suc n) h = refl
take_all (x ∷ xs) zero h = absurd (omega (arith, h))
take_all (x ∷ xs) (suc n) h = ap (◌∷◌ x) (take_all xs n (omega (arith, h)))

-- A request that was read, of ASCII characters, is answered by the page of its path.
pub answered_page :
    (metrics : Option Bytes) (format_type : String) (m : ℕ) (method : List ℕ) (p : ℕ)
    (path rest : List ℕ) (reads : List (Flow String Bytes))
    → All IsVisible (m ∷ method)
    → All IsVisible (p ∷ path)
    → All IsAscii rest
    → read_loop [] reads ≡ next (request (m ∷ method) (p ∷ path) rest)
    → handle_one metrics format_type reads ≡ next (page metrics format_type (p ∷ path))
unfolding handle_one request_path
answered_page metrics format_type m method p path rest reads hm hp hr is_read =
    rw
      (
        is_read,
        from_utf8_ascii (request (m ∷ method) (p ∷ path) rest)
            (request-IsAscii (m ∷ method) (p ∷ path) rest hm hp hr),
        path_of-request m method p path rest hm hp,
      )
      refl

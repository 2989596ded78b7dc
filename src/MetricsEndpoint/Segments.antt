-- ===== src/MetricsEndpoint/Segments.antt =====
-- A request that arrives in pieces.
use sv2_p2pool.Prelude.{
  ℕ, zero, suc, ◌-◌, ◌≤◌, ◌<◌, ◌≡◌, ◌≢◌, ◌⊎◌, inl, inr, refl, sym, ap, subst, ◌∙◌, arith, true,
  false, Bytes, String, List, Option, [], ◌∷◌, ◌++◌, append_assoc, length, length-append, map, All,
  Bool-cases,
}
use mathlib.Core.List.{append-nil}
use sv2_p2pool.Prelude.Flow.{Flow, next, exit, panic}
use sv2_p2pool.MetricsEndpoint.Requests.{IsVisible, IsAscii, request, take_all, answered_page}
use sv2_p2pool.MetricsEndpoint.{
  page, handle_one, take, capacity, is_full, is_nothing, has_blank_line, read_loop,
}

abbrev pub joined : List Bytes → Bytes
joined [] = []
joined (segment ∷ segments) = segment ++ joined segments

-- `request` is where the loop is to stop: it fills the buffer or has the blank line, and without its
-- end it has none.
pub record Stops (request : Bytes) : Type 0 where
  pub ends : (is_full request ≡ true) ⊎ (has_blank_line request ≡ true)
  pub first : (p q : Bytes) → request ≡ p ++ q → q ≢ [] → has_blank_line p ≡ false

take-append :
    (n : ℕ) (xs ys : Bytes) → take n (xs ++ ys) ≡ take n xs ++ take (n - length (take n xs)) ys
take-append zero xs ys = refl
take-append (suc n) [] ys = let all : suc n ≡ suc n - 0 = omega arith in ap (λ k. take k ys) all
take-append (suc n) (x ∷ xs) ys =
    ap (λ zs. x ∷ zs) (take-append n xs ys ∙ ap (λ k. take n xs ++ take k ys) (omega arith))

length-take : (n : ℕ) (xs : Bytes) → length (take n xs) ≤ n
length-take zero xs = omega arith
length-take (suc n) [] = omega arith
length-take (suc n) (x ∷ xs) = omega (arith, length-take n xs)

-- The buffer and what is still to come into it.
abbrev filled_by : Bytes → Bytes → Bytes
filled_by buf bytes = buf ++ take (capacity - length buf) bytes

filled_by_parts :
    (buf segment rest : Bytes)
    → filled_by buf (segment ++ rest) ≡ filled_by (filled_by buf segment) rest
filled_by_parts buf segment rest =
    ap (λ xs. buf ++ xs)
      (take-append (capacity - length buf) segment rest
        ∙ ap (λ k. take (capacity - length buf) segment ++ take k rest)
            (omega (arith, length-append buf (take (capacity - length buf) segment))))
    ∙ sym (append_assoc buf (take (capacity - length buf) segment) _)

filled_by_full : (buf bytes : Bytes) → is_full buf ≡ true → filled_by buf bytes ≡ buf
filled_by_full buf bytes full =
    let no_room : capacity - length buf ≡ 0 = ground arith in
    ap (λ k. buf ++ take k bytes) no_room ∙ append-nil buf

filled_by-nothing : (buf : Bytes) → filled_by buf [] ≡ buf
filled_by-nothing buf = ap (λ xs. buf ++ xs) (nothing (capacity - length buf)) ∙ append-nil buf
  where
    nothing : (n : ℕ) → take n [] ≡ []
    nothing zero = refl
    nothing (suc n) = refl

read_loop_full :
    (buf : Bytes) (reads : List (Flow String Bytes))
    → is_full buf ≡ true
    → read_loop buf reads ≡ next buf
unfolding read_loop
read_loop_full buf [] full = refl
read_loop_full buf (exit e ∷ reads) full = rw full refl
read_loop_full buf (panic ∷ reads) full = rw full refl
read_loop_full buf (next segment ∷ reads) full = rw full refl

takes_some : (n x : ℕ) (xs : Bytes) → 0 < n → is_nothing (take n (x ∷ xs)) ≡ false
takes_some zero x xs h = absurd (omega (arith, h))
takes_some (suc n) x xs h = refl

fits_filled : (buf bytes : Bytes) → length buf ≤ capacity → length (filled_by buf bytes) ≤ capacity
fits_filled buf bytes fits = omega (
  arith,
  fits,
  length-append buf (take (capacity - length buf) bytes),
  length-take (capacity - length buf) bytes,
)

-- A buffer with a blank line is all of a request whose first blank line is at its end.
no_more : (buf q : Bytes) → Stops (buf ++ q) → has_blank_line buf ≡ true → buf ++ q ≡ buf
no_more buf [] stops blank = append-nil buf
no_more buf (x ∷ q) stops blank =
    absurd (ground (arith, stops.first buf (x ∷ q) refl (λ e. cc), blank))

blank_nothing : has_blank_line [] ≡ false
unfolding has_blank_line
blank_nothing = refl

read_loop_filled :
    (segments : List Bytes) (more : List (Flow String Bytes)) (buf : Bytes)
    → length buf ≤ capacity
    → has_blank_line buf ≡ false
    → All (λ segment. segment ≢ []) segments
    → Stops (filled_by buf (joined segments))
    → read_loop buf (map next segments ++ more) ≡ next (filled_by buf (joined segments))
unfolding read_loop
read_loop_filled [] more buf fits blank filled stops = elim stops.ends [
  | inl full ↦
      read_loop_full buf more (subst (λ xs. is_full xs ≡ true) (filled_by-nothing buf) full)
      ∙ ap next (sym (filled_by-nothing buf))
  | inr there ↦
      absurd (
        ground (arith, blank, subst (λ xs. has_blank_line xs ≡ true) (filled_by-nothing buf) there))
]
read_loop_filled ([] ∷ segments) more buf fits blank filled stops = absurd (filled.0 refl)
read_loop_filled ((x ∷ xs) ∷ segments) more buf fits blank filled stops =
    elim (Bool-cases (is_full buf)) [
      | inl full ↦
          read_loop_full buf (next (x ∷ xs) ∷ (map next segments ++ more)) full
          ∙ ap next (sym (filled_by_full buf _ full))
      | inr room ↦ elim (Bool-cases (has_blank_line (filled_by buf (x ∷ xs)))) [
        | inl there ↦
            rw (room, takes_some (capacity - length buf) x xs (ground arith), there)
              (ap next (sym (parts ∙ no_more (filled_by buf (x ∷ xs)) _ stops' there)))
        | inr not_yet ↦
            rw (room, takes_some (capacity - length buf) x xs (ground arith), not_yet)
              (read_loop_filled segments more (filled_by buf (x ∷ xs))
                  (fits_filled buf (x ∷ xs) fits) not_yet filled.1 stops'
                ∙ ap next (sym parts))
      ]
    ]
  where
    parts :
        filled_by buf ((x ∷ xs) ++ joined segments)
        ≡ filled_by (filled_by buf (x ∷ xs)) (joined segments)
    parts = filled_by_parts buf (x ∷ xs) (joined segments)

    stops' : Stops (filled_by (filled_by buf (x ∷ xs)) (joined segments))
    stops' = subst Stops parts stops

-- However a request is cut into pieces that are not empty, the loop reads the first 4096 bytes of
-- what arrives, exactly, when these fill the buffer or bring the first blank line at their end;
-- and it does not look at what the socket would give after that, be it an error.
read_loop-joined :
    (segments : List Bytes) (more : List (Flow String Bytes))
    → All (λ segment. segment ≢ []) segments
    → Stops (take capacity (joined segments))
    → read_loop [] (map next segments ++ more) ≡ next (take capacity (joined segments))
read_loop-joined segments more filled stops =
    read_loop_filled segments more [] (omega arith) blank_nothing filled stops

-- A scraper's request of ASCII characters in at most 4096 bytes, whose first blank line is at its
-- end or which fills the buffer, is answered by the page of its path, whatever its method and
-- whatever follows the path, however it is cut into pieces that are not empty, and whatever the
-- socket would give after it: what the request line says is read back.
pub handle_one-page :
    (metrics : Option Bytes) (format_type : String) (m : ℕ) (method : List ℕ) (p : ℕ)
    (path rest : List ℕ) (segments : List Bytes) (more : List (Flow String Bytes))
    → All IsVisible (m ∷ method)
    → All IsVisible (p ∷ path)
    → All IsAscii rest
    → All (λ segment. segment ≢ []) segments
    → joined segments ≡ request (m ∷ method) (p ∷ path) rest
    → length (request (m ∷ method) (p ∷ path) rest) ≤ capacity
    → Stops (request (m ∷ method) (p ∷ path) rest)
    → handle_one metrics format_type (map next segments ++ more)
      ≡ next (page metrics format_type (p ∷ path))
handle_one-page metrics format_type m method p path rest segments more hm hp hr filled cut fits
      stops =
    answered_page metrics format_type m method p path rest (map next segments ++ more) hm hp hr
      (read_loop-joined segments more filled (subst Stops (sym whole) stops) ∙ ap next whole)
  where
    whole : take capacity (joined segments) ≡ request (m ∷ method) (p ∷ path) rest
    whole = ap (take capacity) cut ∙ take_all (request (m ∷ method) (p ∷ path) rest) capacity fits

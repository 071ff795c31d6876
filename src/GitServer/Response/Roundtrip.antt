-- ===== src/GitServer/Response/Roundtrip.antt =====
-- A reply that is written line by line is taken apart again.
use radicle_client_services.Base.{
  Text, ℕ, suc, none, if◌then◌else◌, get, get-remove, ◌-◌, lit, Lacks, All, ◌==◌, Option, remove,
  split_once-append, slice, length, is_boundary, is_utf8, take_all, leb, eqb, true, false,
  Bool-cases, List, [], ◌∷◌, ◌++◌, append_assoc, append-nil, ok, ◌≡◌, ◌∙◌, refl, ap, sym, arith,
  inl, inr,
}
use radicle_client_services.GitServer.Error.{Error}
use radicle_client_services.GitServer.Response.{
  Headers, push_header, parse_reply, reply_status, next, header_line, strip_cr, read_headers,
}
use radicle_client_services.GitServer.Response.Values.{
  push_headers, values, listed, first, IsCode, get-rendered, reply_status-IsCode,
}

-- `key: value` and the end of the line
abbrev pub line_of : Text × Text → Text
line_of (key, value) = key ++ (lit ": " ++ value)

abbrev pub render : List (Text × Text) → Text → Text
render [] body = 13 ∷ b'\n' ∷ body
render (h ∷ hs) body = line_of h ++ (13 ∷ b'\n' ∷ render hs body)

-- A header that can stand in a reply: no separator in its key, no end of line in it, all of it text.
abbrev pub IsHeader : Text × Text → Type 0
IsHeader (key, value) =
    Lacks b':' key
    × Lacks b'\n' (line_of (key, value))
    × (is_utf8 (line_of (key, value)) ≡ true)
    × (is_boundary (b' ' ∷ value) 1 ≡ true)

strip_cr-append : (l : Text) → strip_cr (l ++ 13 ∷ []) ≡ l
unfolding strip_cr
strip_cr-append [] = refl
strip_cr-append (b ∷ []) = refl
strip_cr-append (b ∷ c ∷ l) = ap (λ t. b ∷ t) (strip_cr-append (c ∷ l))

is_boundary-length : (s : Text) → is_boundary s (length s) ≡ true
unfolding is_boundary
is_boundary-length [] = refl
is_boundary-length (b ∷ []) = refl
is_boundary-length (b ∷ c ∷ s) = is_boundary-length (c ∷ s)

-- The bytes of a line are collected up to its end.
read_headers-line :
    (m : Headers) (line l rest : Text)
    → Lacks b'\n' l
    → read_headers m line (l ++ rest) ≡ read_headers m (line ++ l) rest
unfolding read_headers
read_headers-line m line [] rest h = ap (λ l. read_headers m l rest) (sym (append-nil line))
read_headers-line m line (b ∷ l) rest (h, hs) = elim (Bool-cases (eqb b b'\n')) [
  | inl at_end ↦ absurd (ground arith)
  | inr inside ↦
      rw (read_headers, inside) (read_headers-line m (line ++ b ∷ []) l rest hs)
      ∙ ap (λ t. read_headers m t rest) (append_assoc line (b ∷ []) l)
]

line_of-not_cr : (key value : Text) → (line_of (key, value) == lit "\r") ≡ false
unfolding ◌==◌
line_of-not_cr [] value = refl
line_of-not_cr (c ∷ []) value = ground arith
line_of-not_cr (c ∷ d ∷ key) value = ground arith

line_of-not_nil : (key value : Text) → (line_of (key, value) == []) ≡ false
unfolding ◌==◌
line_of-not_nil [] value = refl
line_of-not_nil (c ∷ key) value = refl

from_first : (value : Text) → leb 1 (suc (length value)) ≡ true
from_first value = ground arith

slice-value :
    (value : Text)
    → is_boundary (b' ' ∷ value) 1 ≡ true
    → slice {E = Error} (b' ' ∷ value) 1 (length (b' ' ∷ value)) ≡ ok value
unfolding slice
slice-value value h =
    rw (h, is_boundary-length (b' ' ∷ value), from_first value)
      (ap ok (take_all (suc (length value) - 1) value (omega arith)))

header_line-line_of :
    (m : Headers) (key value : Text)
    → IsHeader (key, value)
    → header_line m (line_of (key, value)) ≡ ok (next (push_header key value m))
unfolding header_line
header_line-line_of m key value (plain, one_line, text, boundary) =
    rw
      (
        text,
        line_of-not_nil key value,
        line_of-not_cr key value,
        split_once-append b':' key (b' ' ∷ value) plain,
        slice-value value boundary,
      )
      refl

read_headers-render :
    (m : Headers) (hs : List (Text × Text)) (body : Text)
    → All IsHeader hs
    → read_headers m [] (render hs body) ≡ ok (push_headers hs m, body)
unfolding read_headers header_line strip_cr is_utf8 ◌==◌
read_headers-render m [] body h = refl
read_headers-render m ((key, value) ∷ hs) body (h, rest) =
    read_headers-line m [] (line_of (key, value)) (13 ∷ b'\n' ∷ render hs body) h.1
    ∙ rw (read_headers, strip_cr-append (line_of (key, value)), header_line-line_of m key value h)
        (read_headers-render (push_header key value m) hs body rest)

-- Of a reply written as lines `key: value`, an empty line and a body, the parser gives the status,
-- the other headers, and exactly the body, if each header can stand in a line. The status is what
-- the first word of the first value of Status reads as, and is 200 if it reads as none; each other
-- name has the list of its values, in order.
pub parse_reply-render :
    (parse : Text → Option ℕ) (hs : List (Text × Text)) (body : Text)
    → All IsHeader hs
    → (code : ℕ) × (headers : Headers) × (parse_reply parse (render hs body)
        ≡ ok (code, headers, body))
      × IsCode parse (first (values (lit "Status") hs)) code
      × ((name : Text)
          → get name headers ≡ (if lit "Status" == name then none else listed (values name hs)))
unfolding parse_reply
parse_reply-render parse hs body h = (
  reply_status parse (push_headers hs []),
  remove (lit "Status") (push_headers hs []),
  rw (read_headers-render [] hs body h) refl,
  reply_status-IsCode parse hs,
  λ name.
      get-remove (lit "Status") name (push_headers hs [])
      ∙ ap (λ o. if lit "Status" == name then none else o) (get-rendered name hs),
)

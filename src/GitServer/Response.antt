-- ===== src/GitServer/Response.antt =====
-- The reply of git-http-backend, as `git` of git-server/src/lib.rs takes it apart: header lines, a
-- blank line, and the body behind it.
pub mod Roundtrip
pub mod Values
use radicle_client_services.Base.{
  Text, ℕ, lit, ◌==◌, Assoc, get, insert, remove, split, split_once, slice, length, is_utf8, head?,
  get_or_else, eqb, if◌then◌else◌, true, false, Option, none, some, List, [], ◌∷◌, ◌++◌, Outcome,
  ok, err, panic, ◌>>=◌,
}
use radicle_client_services.GitServer.Error.{Error, Result, io, IoErrorKind, invalid_data, backend}

-- HashMap<String, Vec<String>>
abbrev pub Headers : Type 0
Headers = Assoc (List Text)

-- `entry(key).or_insert_with(Vec::new).push(value)`
unfoldable pub push_header : Text → Text → Headers → Headers
push_header key value hs = insert key (get_or_else (get key hs) [] ++ value ∷ []) hs

-- One line of the reply: the headers are over, or another one is read.
pub data Step : Type 0 where
  stop : Step
  next : Headers → Step

unfoldable pub header_line : Headers → Text → Result Step
header_line hs line =
    if is_utf8 line
    then (if line == []
        then ok stop
        else if line == lit "\r"
        then ok stop
        else elim (split_once b':' line) [
          | none ↦ err backend
          | some (key, value) ↦ (do
            v ← slice value 1 (length value)
            ok (next (push_header key v hs)))
        ])
    else err (io invalid_data)

-- `BufRead::lines` takes one "\r" off a line that ends in "\n".
unfoldable pub strip_cr : Text → Text
strip_cr [] = []
strip_cr (b ∷ []) = if eqb b 13 then [] else b ∷ []
strip_cr (b ∷ c ∷ s) = b ∷ strip_cr (c ∷ s)

-- the last line, which has no "\n"; nothing is read if it is empty
last_line : Headers → Text → Result (Headers × Text)
last_line hs [] = ok (hs, [])
last_line hs (b ∷ line) = do
  step ← header_line hs (b ∷ line)
  elim step [ stop ↦ ok (hs, []) | next hs' ↦ ok (hs', []) ]

-- The loop over the lines: the headers so far, the part of the line that is read, and the bytes
-- ahead. It ends with the headers and the bytes behind the blank line.
unfoldable pub read_headers : Headers → Text → Text → Result (Headers × Text)
unfolding last_line
read_headers hs line [] = last_line hs line
read_headers hs line (b ∷ bytes) = elim (eqb b b'\n') [
  | false ↦ read_headers hs (line ++ b ∷ []) bytes
  | true ↦ elim (header_line hs (strip_cr line)) [
    | ok stop ↦ ok (hs, bytes)
    | ok (next hs') ↦ read_headers hs' [] bytes
    | err e ↦ err e
    | panic ↦ panic
  ]
]

-- the status in a line, and that of the reply
unfoldable pub status_in : (Text → Option ℕ) → Text → ℕ
status_in parse line = elim (head? (split b' ' line)) [
  | none ↦ 200
  | some p ↦ get_or_else (parse p) 200
]

unfoldable pub reply_status : (Text → Option ℕ) → Headers → ℕ
reply_status parse hs =
    status_in parse (get_or_else (head? (get_or_else (get (lit "Status") hs) [])) [])

unfoldable pub parse_reply : (Text → Option ℕ) → Text → Result (ℕ × Headers × Text)
parse_reply parse stdout = do
  read ← read_headers [] [] stdout
  ok (reply_status parse read.0, remove (lit "Status") read.0, read.1)

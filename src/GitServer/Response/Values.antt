-- ===== src/GitServer/Response/Values.antt =====
-- The status and the headers that the parser of git's reply (`git` of git-server/src/lib.rs) makes of
-- the values in header lines.
use radicle_client_services.Base.{
  Text, ℕ, ◌⊎◌, some, none, Option-cases, if◌then◌else◌, get, get-insert, eq_iff, head?, split,
  split-Lacks, split-append, get_or_else, lit, Lacks, ◌==◌, Option, eqb, Bool-cases, List, [], ◌∷◌,
  ◌++◌, append_assoc, ◌≡◌, ◌∙◌, refl, ap, sym, subst, arith, inl, inr,
}
use radicle_client_services.GitServer.Response.{Headers, push_header, reply_status, status_in}

-- the headers with these added, one after the other
abbrev pub push_headers : List (Text × Text) → Headers → Headers
push_headers [] m = m
push_headers ((key, value) ∷ hs) m = push_headers hs (push_header key value m)

-- The values that a reply gives a header, in order, and the list of them, if there are any.
abbrev pub values : Text → List (Text × Text) → List Text
values name [] = []
values name ((key, value) ∷ hs) =
    let others = values name hs in if key == name then value ∷ others else others

abbrev pub listed : List Text → Option (List Text)
listed [] = none
listed (v ∷ vs) = some (v ∷ vs)

-- The first of some values, or the empty text.
abbrev pub first : List Text → Text
first [] = []
first (v ∷ vs) = v

-- The word is what stands in front of the first blank.
abbrev pub IsFirstWord : Text → Text → Type 0
IsFirstWord word line =
    Lacks b' ' word × ((line ≡ word) ⊎ ((rest : Text) × (line ≡ word ++ b' ' ∷ rest)))

-- The status is what the first word of the line reads as, or 200.
abbrev pub IsCode : (Text → Option ℕ) → Text → ℕ → Type 0
IsCode parse line code =
    (word : Text) × IsFirstWord word line
    × (((parse word ≡ none) × (code ≡ 200)) ⊎ (parse word ≡ some code))

-- the values that a header had, and more
abbrev add_values : Option (List Text) → List Text → Option (List Text)
add_values o [] = o
add_values o (v ∷ vs) = some (get_or_else o [] ++ v ∷ vs)

add_values-again :
    (o : Option (List Text)) (v : Text) (vs : List Text)
    → add_values (some (get_or_else o [] ++ v ∷ [])) vs ≡ add_values o (v ∷ vs)
add_values-again o v [] = refl
add_values-again o v (w ∷ ws) = ap some (append_assoc (get_or_else o []) (v ∷ []) (w ∷ ws))

get-push_headers :
    (name : Text) (hs : List (Text × Text)) (m : Headers)
    → get name (push_headers hs m) ≡ add_values (get name m) (values name hs)
unfolding push_header
get-push_headers name [] m = refl
get-push_headers name ((key, value) ∷ hs) m =
    get-push_headers name hs (push_header key value m) ∙ (elim (Bool-cases (key == name)) [
      | inl same ↦
          rw (get-insert key name (get_or_else (get key m) [] ++ value ∷ []) m, same)
            (ap (λ k. add_values (some (get_or_else (get k m) [] ++ value ∷ [])) (values name hs))
                ((eq_iff key name).0 same)
              ∙ add_values-again (get name m) value (values name hs))
      | inr other ↦
          rw (get-insert key name (get_or_else (get key m) [] ++ value ∷ []) m, other) refl
    ])

add_values-listed : (vs : List Text) → add_values none vs ≡ listed vs
add_values-listed [] = refl
add_values-listed (v ∷ vs) = refl

pub get-rendered :
    (name : Text) (hs : List (Text × Text))
    → get name (push_headers hs []) ≡ listed (values name hs)
unfolding get
get-rendered name hs = get-push_headers name hs [] ∙ add_values-listed (values name hs)

first-listed : (vs : List Text) → get_or_else (head? (get_or_else (listed vs) [])) [] ≡ first vs
first-listed [] = refl
first-listed (v ∷ vs) = refl

first_word : (line : Text) → (word : Text) × IsFirstWord word line
first_word [] = ([], (tt, inl refl))
first_word (b ∷ line) = elim (Bool-cases (eqb b b' ')) [
  | inl blank ↦ ([], (tt, inr (line, ground arith)))
  | inr inside ↦
      let (word, (plain, ends)) = first_word line in
      elim ends [
        | inl whole ↦ (b ∷ word, ((ground arith, plain), inl (ap (λ l. b ∷ l) whole)))
        | inr (rest, same) ↦ (b ∷ word, ((ground arith, plain), inr (rest, ap (λ l. b ∷ l) same)))
      ]
]

head-split : (word line : Text) → IsFirstWord word line → head? (split b' ' line) ≡ some word
head-split word line (plain, inl whole) = rw (whole, split-Lacks b' ' word plain) refl
head-split word line (plain, inr (rest, same)) = rw (same, split-append b' ' word rest plain) refl

status_in-IsCode :
    (parse : Text → Option ℕ) (line word : Text)
    → IsFirstWord word line
    → IsCode parse line (status_in parse line)
unfolding status_in
status_in-IsCode parse line word is_first = (
  word,
  is_first,
  elim (Option-cases (parse word)) [
    | inl bad ↦ inl (bad, rw (status_in, head-split word line is_first) (rw bad refl))
    | inr (code, good) ↦ inr (rw (status_in, head-split word line is_first) (rw good refl))
  ],
)

reply_status-eq :
    (parse : Text → Option ℕ) (hs : List (Text × Text))
    → reply_status parse (push_headers hs []) ≡ status_in parse (first (values (lit "Status") hs))
unfolding reply_status
reply_status-eq parse hs =
    ap (λ o. status_in parse (get_or_else (head? (get_or_else o [])) []))
      (get-rendered (lit "Status") hs)
    ∙ ap (status_in parse) (first-listed (values (lit "Status") hs))

pub reply_status-IsCode :
    (parse : Text → Option ℕ) (hs : List (Text × Text))
    → IsCode parse (first (values (lit "Status") hs)) (reply_status parse (push_headers hs []))
reply_status-IsCode parse hs =
    let line = first (values (lit "Status") hs) in
    let (word, is_first) = first_word line in
    subst (IsCode parse line) (sym (reply_status-eq parse hs))
      (status_in-IsCode parse line word is_first)

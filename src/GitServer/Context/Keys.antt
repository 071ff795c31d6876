-- ===== src/GitServer/Context/Keys.antt =====
-- Which keys the server loads from the file of authorized keys.
use radicle_client_services.Base.{
  Text, Has, contains, contains_iff, ◌==◌, eq_iff, Bool-cases, List, [], ◌∷◌, ok, ◌≡◌, ◌≢◌, ◌↔◌,
  ◌⊎◌, inl, inr, arith, ok-injective, subst, sym, >>=-eq-ok, Outcome-cases, err, panic,
}
use radicle_client_services.Extern.Backend.{Backend, IteratesAll}
use radicle_client_services.GitServer.Error.{IoErrorKind}
use radicle_client_services.GitServer.Hooks.Updates.{Line, read, failed}
use radicle_client_services.GitServer.Context.{
  insert_key, collect_keys, keys_of_file, load_authorized_keys,
}

insert_key_iff :
    (a key : Text) (keys : List Text) → Has a (insert_key key keys) ↔ ((a ≡ key) ⊎ Has a keys)
insert_key_iff a key keys = elim (Bool-cases (contains ◌==◌ key keys)) [
  | inl old ↦ rw old (
    λ h. inr h,
    λ h. elim h [ inl e ↦ rw e ((contains_iff ◌==◌ eq_iff key keys).0 old) | inr k ↦ k ],
  )
  | inr new ↦ rw new (λ h. h, λ h. h)
]

collect_keys_iff :
    (a : Text) (lines : List Line) (keys loaded : List Text)
    → a ≢ []
    → collect_keys keys lines ≡ ok loaded
    → Has a loaded ↔ (Has a keys ⊎ Has (read a) lines)
unfolding collect_keys
collect_keys_iff a [] keys loaded n h =
    subst (λ (l : List Text). Has a l ↔ (Has a keys ⊎ ⊥)) (ok-injective h)
      (λ m. inl m, λ m. elim m [ inl k ↦ k | inr x ↦ absurd x ])
collect_keys_iff a (failed k ∷ lines) keys loaded n h = cc
collect_keys_iff a (read [] ∷ lines) keys loaded n h =
    ground (arith, collect_keys_iff a lines keys loaded n)
collect_keys_iff a (read (c ∷ key) ∷ lines) keys loaded n h = ground (
  arith,
  collect_keys_iff a lines (insert_key (c ∷ key) keys) loaded n,
  insert_key_iff a (c ∷ key) keys,
)

-- The keys that are loaded from a file that opens are its lines that are not empty.
pub load_authorized_keys_iff :
    (B : Backend)
    → IteratesAll B
    → (lines : List Line) (keys : List Text) (a : Text) → B.authorized_keys_file ≡ ok lines
    → load_authorized_keys B ≡ ok keys
    → a ≢ []
    → Has a keys ↔ Has (read a) lines
unfolding load_authorized_keys
load_authorized_keys_iff B I lines keys a opened h n =
    let (loaded, collected, same) = >>=-eq-ok (keys_of_file B.authorized_keys_file) _ h in
    let listed = collect_keys_iff a lines [] loaded n (rw opened at collected) in
    let held = I.iterate_iff a loaded in
    subst (λ (l : List Text). Has a l ↔ Has (read a) lines) (ok-injective same)
      (
        λ m. elim (listed.0 (held.0 m)) [ inl x ↦ absurd x | inr k ↦ k ],
        λ m. held.1 (listed.1 (inr m)),
      )

nothing_loaded :
    (B : Backend)
    → IteratesAll B
    → (keys : List Text) (a : Text) (kind : IoErrorKind) → B.authorized_keys_file ≡ err kind
    → load_authorized_keys B ≡ ok keys
    → Has a keys
    → ⊥
unfolding load_authorized_keys
nothing_loaded B I keys a kind closed loaded held =
    let none_held : B.iterate [] ≡ keys = ok-injective (rw closed at loaded) in
    (I.iterate_iff a []).0 (subst (λ (l : List Text). Has a l) (sym none_held) held)

load_authorized_keys-panic :
    (B : Backend) (keys : List Text)
    → B.authorized_keys_file ≡ panic
    → load_authorized_keys B ≡ ok keys
    → ⊥
unfolding load_authorized_keys
load_authorized_keys-panic B keys broken loaded = absurd (ground (arith, rw broken at loaded))

-- A key that is loaded, and is not empty, is a line of the file, which opened.
pub load_authorized_keys-listed :
    (B : Backend)
    → IteratesAll B
    → (keys : List Text) (a : Text) → load_authorized_keys B ≡ ok keys
    → a ≢ []
    → Has a keys
    → (file : List Line) × (B.authorized_keys_file ≡ ok file) × Has (read a) file
load_authorized_keys-listed B I keys a loaded n held = elim (Outcome-cases B.authorized_keys_file) [
  | inl (file, opened) ↦
      (file, opened, (load_authorized_keys_iff B I file keys a opened loaded n).0 held)
  | inr (inl (kind, closed)) ↦ absurd (nothing_loaded B I keys a kind closed loaded held)
  | inr (inr broken) ↦ absurd (load_authorized_keys-panic B keys broken loaded)
]

-- ===== src/GitServer/Hooks/Signer/Parts.antt =====
-- Where the two parts of a signer are found, and where the code panics.
use radicle_client_services.Base.{
  Text, ℕ, suc, ◌+◌, ◌-◌, Lacks, length, take, drop, slice, find_byte, is_boundary, leb, eqb, [],
  ◌∷◌, ◌++◌, some, ok, panic, ◌≡◌, ◌≢◌, ◌<◌, refl, true, false, arith, ap,
}
use radicle_client_services.GitServer.Error.{Error}
use radicle_client_services.GitServer.Hooks.Signer.{signer_name, signer_email}

find_byte-append : (c : ℕ) (l r : Text) → Lacks c l → find_byte c (l ++ c ∷ r) ≡ some (length l)
unfolding find_byte
find_byte-append c [] r h = ground arith
find_byte-append c (b ∷ l) r (h, hs) = ground (arith, find_byte-append c l r hs)

-- In front of an ASCII byte stands a character boundary.
is_boundary-append : (l r : Text) (c : ℕ) → c < 128 → is_boundary (l ++ c ∷ r) (length l) ≡ true
unfolding is_boundary
is_boundary-append [] r c h = refl
is_boundary-append (b ∷ []) r c h = ground arith
is_boundary-append (b ∷ d ∷ l) r c h = is_boundary-append (d ∷ l) r c h

take-length-append : (l r : Text) → take (length l) (l ++ r) ≡ l
take-length-append [] r = refl
take-length-append (b ∷ l) r = ap (λ t. b ∷ t) (take-length-append l r)

drop-length-append : (l r : Text) → drop (length l) (l ++ r) ≡ r
drop-length-append [] r = refl
drop-length-append (b ∷ l) r = drop-length-append l r

leb-zero : (n : ℕ) → leb 0 n ≡ true
leb-zero n = ground arith

sub-zero : (n : ℕ) → n - 0 ≡ n
sub-zero n = omega arith

suc-sub-one : (n : ℕ) → suc n - 1 ≡ n
suc-sub-one n = omega arith

eqb-suc : (n : ℕ) → eqb (suc n) 0 ≡ false
eqb-suc n = ground arith

-- A slice up to an ASCII byte is what stands in front of it.
slice-front : (l r : Text) (c : ℕ) → c < 128 → slice {E = Error} (l ++ c ∷ r) 0 (length l) ≡ ok l
unfolding slice is_boundary
slice-front l r c h =
    rw (is_boundary-append l r c h)
      (rw (leb-zero (length l)) (rw (sub-zero (length l)) (rw (take-length-append l (c ∷ r)))))

find_byte-second :
    (c d : ℕ) (l r : Text)
    → Lacks c l
    → d ≢ c
    → find_byte c (l ++ d ∷ c ∷ r) ≡ some (suc (length l))
unfolding find_byte
find_byte-second c d [] r h n = ground arith
find_byte-second c d (b ∷ l) r (h, hs) n = ground (arith, find_byte-second c d l r hs)

-- Of `name <email>` the name is returned, whatever is in the e-mail, if it has no '<' itself.
pub signer_name-shown :
    (name rest : Text) → Lacks b'<' name → signer_name (some (name ++ b' ' ∷ b'<' ∷ rest)) ≡ ok name
unfolding signer_name
signer_name-shown name rest h =
    rw (find_byte-second b'<' b' ' name rest h (λ e. absurd (omega arith))) (
      rw (eqb-suc (length name), suc-sub-one (length name))
        (slice-front name (b'<' ∷ rest) b' ' (omega arith)))

-- A signer that is empty or has no name in front of the '<' makes the code panic.
pub signer_name-panics :
    (rest : Text) → (signer_name (some []) ≡ panic) × (signer_name (some (b'<' ∷ rest)) ≡ panic)
unfolding signer_name find_byte
signer_name-panics rest = (refl, refl)

find_byte-late :
    (c d : ℕ) (l m r : Text)
    → Lacks c l
    → d ≢ c
    → Lacks c m
    → find_byte c (l ++ d ∷ (m ++ c ∷ r)) ≡ some (suc (length l + length m))
unfolding find_byte
find_byte-late c d [] m r h n k = ground (arith, find_byte-append c m r k)
find_byte-late c d (b ∷ l) m r (h, hs) n k = ground (arith, find_byte-late c d l m r hs)

-- A '>' in front of the first '<' makes the bounds of the e-mail's slice cross, and it panics.
pub signer_email-panics :
    (l m r : Text)
    → Lacks b'<' l
    → Lacks b'>' l
    → Lacks b'<' m
    → signer_email (some (l ++ b'>' ∷ (m ++ b'<' ∷ r))) ≡ panic
unfolding signer_email slice
signer_email-panics l m r h k n =
    rw (find_byte-late b'<' b'>' l m r h (λ e. absurd (omega arith)) n)
      (rw (find_byte-append b'>' l (m ++ b'<' ∷ r) k) (rw (crossed (length l) (length m))))
  where
    crossed : (a b : ℕ) → leb (suc (a + b) + 1) a ≡ false
    crossed a b = ground arith

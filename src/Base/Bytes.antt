-- ===== src/Base/Bytes.antt =====
-- Texts as lists of bytes, with the tests of `str` that the program uses.
use Prim.Native.Nat.{ℕ, zero, suc, ◌/◌, ◌%◌, ◌^◌}
use Prim.Native.Char.{code}
use Prim.Native.String.{String}
use mathlib.Core.Path.{◌≡◌, refl}
use mathlib.Core.Logic.{◌↔◌}
use mathlib.Core.Bool.{Bool, true, false, not, ◌&&◌, ◌||◌}
use mathlib.Core.List.{List, [], ◌∷◌, ◌++◌}
use mathlib.Core.Option.{Option, none, some}
use native.Mathlib.Omega.{arith}
use radicle_client_services.Base.Tests.{eqb, leb, ltb, if◌then◌else◌}

-- A Rust `String`, as its UTF-8 bytes.
abbrev pub Text : Type 0
Text = List ℕ

-- A literal of the source; all of them are ASCII.
abbrev pub lit : String → Text
lit String.[] = []
lit (String.◌∷◌ c s) = code c ∷ lit s

infix 50 ◌==◌
unfoldable pub ◌==◌ : Text → Text → Bool
[] == [] = true
[] == (d ∷ t) = false
(c ∷ s) == [] = false
(c ∷ s) == (d ∷ t) = eqb c d && s == t

pub eq_iff : (s t : Text) → ((s == t) ≡ true) ↔ (s ≡ t)
unfolding ◌==◌
eq_iff [] [] = ground arith
eq_iff [] (d ∷ t) = ground arith
eq_iff (c ∷ s) [] = ground arith
eq_iff (c ∷ s) (d ∷ t) = ground (arith, eq_iff s t)

pub eq_refl : (s : Text) → (s == s) ≡ true
eq_refl s = (eq_iff s s).1 refl

-- `str::strip_prefix`, the prefix first.
unfoldable pub strip_prefix : Text → Text → Option Text
strip_prefix [] s = some s
strip_prefix (c ∷ p) [] = none
strip_prefix (c ∷ p) (d ∷ s) = if eqb c d then strip_prefix p s else none

pub strip_prefix-append : (p s : Text) → strip_prefix p (p ++ s) ≡ some s
unfolding strip_prefix
strip_prefix-append [] s = refl
strip_prefix-append (c ∷ p) s = ground (arith, strip_prefix-append p s)

pub strip_prefix-eq-some : (p s r : Text) → strip_prefix p s ≡ some r → s ≡ p ++ r
unfolding strip_prefix
strip_prefix-eq-some [] s r h = ground arith
strip_prefix-eq-some (c ∷ p) [] r h = cc
strip_prefix-eq-some (c ∷ p) (d ∷ s) r h = ground (arith, strip_prefix-eq-some p s r)

-- `str::find` of an ASCII character: the position of the first such byte.
unfoldable pub find_byte : ℕ → Text → Option ℕ
find_byte c [] = none
find_byte c (b ∷ s) =
    let later = find_byte c s in
    if eqb b c then some 0 else elim later [ none ↦ none | some i ↦ some (suc i) ]

-- A byte that continues a UTF-8 character.
abbrev pub is_continuation : ℕ → Bool
is_continuation b = leb 128 b && ltb b 192

-- `str::is_char_boundary` at a position of the text: its end, or the first byte of a character
unfoldable pub is_boundary : Text → ℕ → Bool
is_boundary s zero = true
is_boundary [] (suc i) = false
is_boundary (b ∷ []) (suc zero) = true
is_boundary (b ∷ c ∷ s) (suc zero) = not (is_continuation c)
is_boundary (b ∷ s) (suc (suc i)) = is_boundary s (suc i)

-- `write_u32::<BigEndian>(n as u32)`
unfoldable pub write_u32 : ℕ → Text
write_u32 n = (n / 2 ^ 24 % 256) ∷ (n / 2 ^ 16 % 256) ∷ (n / 2 ^ 8 % 256) ∷ (n % 256) ∷ []

-- `str::ends_with`, the suffix first.
unfoldable pub ends_with : Text → Text → Bool
ends_with p [] = p == []
ends_with p (b ∷ s) = p == b ∷ s || ends_with p s

pub append_cancel_left : (p s t : Text) → p ++ s ≡ p ++ t → s ≡ t
append_cancel_left [] s t h = h
append_cancel_left (c ∷ p) s t h = append_cancel_left p s t (cc)

-- `str::strip_suffix`, the suffix first.
unfoldable pub strip_suffix : Text → Text → Option Text
strip_suffix p [] = if p == [] then some [] else none
strip_suffix p (b ∷ s) =
    let rest = strip_suffix p s in
    if p == b ∷ s then some [] else elim rest [ none ↦ none | some r ↦ some (b ∷ r) ]

-- ===== src/Base/Utf8.antt =====
-- Which byte sequences are UTF-8, after the table in the documentation of `std::str`.
use Prim.Native.Nat.{ℕ}
use mathlib.Core.Bool.{Bool, true, false, ◌&&◌}
use mathlib.Core.Option.{Option, none, some}
use mathlib.Core.List.{List, [], ◌∷◌}
use radicle_client_services.Base.Tests.{leb, eqb, if◌then◌else◌}
use radicle_client_services.Base.Bytes.{Text}

abbrev within : ℕ → ℕ × ℕ → Bool
within b r = leb r.0 b && leb b r.1

-- The ranges of the bytes that follow a first byte, or none if no character begins with it.
followers : ℕ → Option (List (ℕ × ℕ))
followers b =
    let tail : ℕ × ℕ = (128, 191) in
    if within b (0, 127)
    then some []
    else if within b (194, 223)
    then some (tail ∷ [])
    else if eqb b 224
    then some ((160, 191) ∷ tail ∷ [])
    else if eqb b 237
    then some ((128, 159) ∷ tail ∷ [])
    else if within b (225, 239)
    then some (tail ∷ tail ∷ [])
    else if eqb b 240
    then some ((144, 191) ∷ tail ∷ tail ∷ [])
    else if within b (241, 243)
    then some (tail ∷ tail ∷ tail ∷ [])
    else if eqb b 244
    then some ((128, 143) ∷ tail ∷ tail ∷ [])
    else none

-- the ranges still due, and the rest of the bytes
utf8_from : List (ℕ × ℕ) → Text → Bool
utf8_from [] [] = true
utf8_from (r ∷ rs) [] = false
utf8_from (r ∷ rs) (b ∷ s) = within b r && utf8_from rs s
utf8_from [] (b ∷ s) = elim (followers b) [ none ↦ false | some rs ↦ utf8_from rs s ]

unfoldable pub is_utf8 : Text → Bool
unfolding utf8_from followers
is_utf8 s = utf8_from [] s

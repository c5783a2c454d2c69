-- ===== src/Prelude/Trim.antt =====
-- What `trim` guarantees: it is idempotent, and it never lengthens a text.
use Prim.Native.Nat.{ℕ, ◌≤◌}
use mathlib.Core.Path.{◌≡◌, refl, ◌∙◌, ap}
use mathlib.Core.Bool.{false}
use mathlib.Core.Logic.{inl, inr}
use mathlib.Core.List.{[], ◌∷◌}
use native.Mathlib.Omega.{arith}
use stocka_server.Prelude.Tests.{Bool-cases}
use stocka_server.Prelude.Lists.{length}
use stocka_server.Prelude.Strings.{Text, is_space, trim_start, put_back, trim_end, trim}

-- The first unit, if there is one, is no space.
abbrev IsClean : Text → Type 0
IsClean [] = Unit
IsClean (c ∷ _) = is_space c ≡ false

trim_start-IsClean : (s : Text) → IsClean (trim_start s)
unfolding trim_start
trim_start-IsClean [] = tt
trim_start-IsClean (c ∷ s) = elim (Bool-cases (is_space c)) [
  | inl space ↦ rw space (trim_start-IsClean s)
  | inr other ↦ rw other other
]

trim_start_of_IsClean : (s : Text) → IsClean s → trim_start s ≡ s
unfolding trim_start
trim_start_of_IsClean [] h = refl
trim_start_of_IsClean (c ∷ s) h = rw h

trim_end-put_back : (c : ℕ) (r : Text) → trim_end r ≡ r → trim_end (put_back c r) ≡ put_back c r
unfolding trim_end
trim_end-put_back c [] h = elim (Bool-cases (is_space c)) [
  | inl space ↦ rw space
  | inr other ↦ rw other (rw other)
]
trim_end-put_back c (d ∷ r) h = rw h

trim_end_idem : (s : Text) → trim_end (trim_end s) ≡ trim_end s
unfolding trim_end
trim_end_idem [] = refl
trim_end_idem (c ∷ s) = trim_end-put_back c (trim_end s) (trim_end_idem s)

put_back-IsClean : (c : ℕ) (r : Text) → is_space c ≡ false → IsClean (put_back c r)
put_back-IsClean c [] h = rw h h
put_back-IsClean c (d ∷ r) h = h

trim_end-IsClean : (s : Text) → IsClean s → IsClean (trim_end s)
unfolding trim_end
trim_end-IsClean [] h = tt
trim_end-IsClean (c ∷ s) h = put_back-IsClean c (trim_end s) h

pub trim_idem : (s : Text) → trim (trim s) ≡ trim s
unfolding trim
trim_idem s =
    ap trim_end (
      trim_start_of_IsClean (trim_end (trim_start s))
        (trim_end-IsClean (trim_start s) (trim_start-IsClean s)))
    ∙ trim_end_idem (trim_start s)

length-trim_start-le : (s : Text) → length (trim_start s) ≤ length s
unfolding trim_start
length-trim_start-le [] = omega arith
length-trim_start-le (c ∷ s) = ground (arith, length-trim_start-le s)

length-put_back-le :
    (c : ℕ) (r s : Text) → length r ≤ length s → length (put_back c r) ≤ length (c ∷ s)
length-put_back-le c [] s h = ground arith
length-put_back-le c (d ∷ r) s h = omega arith

length-trim_end-le : (s : Text) → length (trim_end s) ≤ length s
unfolding trim_end
length-trim_end-le [] = omega arith
length-trim_end-le (c ∷ s) = length-put_back-le c (trim_end s) s (length-trim_end-le s)

-- ===== src/Prelude/Text.antt =====
-- Python's `str` as the list of its code points, with equality and the order of `sorted`.
use Prim.Native.Nat.{ℕ}
use Prim.Native.Char.{code}
use Prim.Native.String.{String}
use mathlib.Core.Path.{◌≡◌, refl, ap}
use mathlib.Core.Logic.{◌↔◌, ◌⊎◌, inl, inr, ◌≢◌}
use mathlib.Core.Bool.{Bool, true, false, ◌&&◌}
use mathlib.Core.List.{List, [], ◌∷◌}
use native.Mathlib.Omega.{arith}
use one_open_broker.Prelude.Tests.{◌==◌, ltb, if◌then◌else◌}

abbrev pub Str : Type 0
Str = List ℕ

abbrev pub codes : String → Str
codes String.[] = []
codes (String.◌∷◌ c s) = code c ∷ codes s

unfoldable pub str_eq : Str → Str → Bool
str_eq [] [] = true
str_eq [] (b ∷ y) = false
str_eq (a ∷ x) [] = false
str_eq (a ∷ x) (b ∷ y) = a == b && str_eq x y

eq_of_str_eq : (x y : Str) → str_eq x y ≡ true → x ≡ y
unfolding str_eq
eq_of_str_eq [] [] h = refl
eq_of_str_eq [] (b ∷ y) h = cc
eq_of_str_eq (a ∷ x) [] h = cc
eq_of_str_eq (a ∷ x) (b ∷ y) h = ground (arith, eq_of_str_eq x y)

pub str_eq_refl : (x : Str) → str_eq x x ≡ true
unfolding str_eq
str_eq_refl [] = refl
str_eq_refl (a ∷ x) = ground (arith, str_eq_refl x)

str_eq_of_eq : (x y : Str) → x ≡ y → str_eq x y ≡ true
str_eq_of_eq x y e = cc (ap (str_eq x) e, str_eq_refl x)

pub str_eq_iff : (x y : Str) → (str_eq x y ≡ true) ↔ (x ≡ y)
str_eq_iff x y = (eq_of_str_eq x y, str_eq_of_eq x y)

pub str_eq_ne : (x y : Str) → x ≢ y → str_eq x y ≡ false
str_eq_ne x y n = ground (arith, str_eq_iff x y)

-- `x < y`, code point by code point.
unfoldable pub str_lt : Str → Str → Bool
str_lt x [] = false
str_lt [] (b ∷ y) = true
str_lt (a ∷ x) (b ∷ y) =
    let rest = str_lt x y in if ltb a b then true else if a == b then rest else false

pub str_lt_irrefl : (x : Str) → str_lt x x ≡ false
unfolding str_lt
str_lt_irrefl [] = refl
str_lt_irrefl (a ∷ x) = ground (arith, str_lt_irrefl x)

pub str_lt_trans : (x y z : Str) → str_lt x y ≡ true → str_lt y z ≡ true → str_lt x z ≡ true
unfolding str_lt
str_lt_trans x y [] h k = ground arith
str_lt_trans x [] (c ∷ z) h k = cc
str_lt_trans [] (b ∷ y) (c ∷ z) h k = refl
str_lt_trans (a ∷ x) (b ∷ y) (c ∷ z) h k = ground (arith, str_lt_trans x y z)

pub str_lt_total : (x y : Str) → (str_lt x y ≡ true) ⊎ (str_lt y x ≡ true) ⊎ (x ≡ y)
unfolding str_lt
str_lt_total [] [] = inr (inr refl)
str_lt_total [] (b ∷ y) = inl refl
str_lt_total (a ∷ x) [] = inr (inl refl)
str_lt_total (a ∷ x) (b ∷ y) = ground (arith, str_lt_total x y)

pub ruleset text_laws = (str_eq_refl, str_eq_iff)

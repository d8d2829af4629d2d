-- ===== src/Protocol/Words.antt =====
-- Unsigned big-endian fields of `struct.Struct`.
use one_open_broker.Prelude.{
  ℕ, zero, suc, ◌+◌, ◌*◌, ◌/◌, ◌%◌, ◌^◌, ◌<◌, ◌≡◌, refl, List, [], ◌∷◌, ◌++◌, length, arith,
  length-append,
}
use native.Mathlib.Nat.{pow-suc}

-- The low `n` bytes of a number, the highest first.
unfoldable pub big_endian : ℕ → ℕ → List ℕ
big_endian zero x = []
big_endian (suc n) x = big_endian n (x / 256) ++ (x % 256) ∷ []

unfoldable pub read_from : ℕ → List ℕ → ℕ
read_from acc [] = acc
read_from acc (b ∷ bs) = read_from (acc * 256 + b) bs

unfoldable pub read_word : List ℕ → ℕ
read_word bs = read_from 0 bs

pub length-big_endian : (n x : ℕ) → length (big_endian n x) ≡ n
unfolding big_endian
length-big_endian zero x = refl
length-big_endian (suc n) x =
    omega (
      arith,
      length-append (big_endian n (x / 256)) ((x % 256) ∷ []),
      length-big_endian n (x / 256),
    )

read_from-append :
    (acc b : ℕ) (bs : List ℕ) → read_from acc (bs ++ b ∷ []) ≡ read_from acc bs * 256 + b
unfolding read_from
read_from-append acc b [] = refl
read_from-append acc b (c ∷ bs) = read_from-append (acc * 256 + c) b bs

-- A number that fits its field is read back.
pub read_word-big_endian : (n x : ℕ) → x < 256 ^ n → read_word (big_endian n x) ≡ x
unfolding read_word big_endian read_from
read_word-big_endian zero x h = omega arith
read_word-big_endian (suc n) x h =
    rw read_from-append
      (omega (arith, read_word-big_endian n (x / 256) (omega (arith, pow-suc 256 n))))

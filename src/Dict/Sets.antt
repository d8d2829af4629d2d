-- ===== src/Dict/Sets.antt =====
-- A Python `set` or `deque` of strings as the list of its elements.
use one_open_broker.Prelude.{
  ℕ, ◌+◌, ◌≤◌, ◌≡◌, refl, Bool, false, true, List, [], ◌∷◌, ◌++◌, Str, str_eq, str_eq_iff,
  if◌then◌else◌, length, length-append, arith, bit,
}

unfoldable pub contains : Str → List Str → Bool
contains k [] = false
contains k (j ∷ s) = if str_eq j k then true else contains k s

-- `s.add(k)`
unfoldable pub add : Str → List Str → List Str
add k s = if contains k s then s else s ++ k ∷ []

-- `s.discard(k)`, and `(x for x in s if x != k)`
unfoldable pub discard : Str → List Str → List Str
discard k [] = []
discard k (j ∷ s) = let rest = discard k s in if str_eq j k then rest else j ∷ rest

-- How often a string occurs.
unfoldable pub count : Str → List Str → ℕ
count k [] = 0
count k (j ∷ s) = bit (str_eq j k) + count k s

contains-append_one :
    (k j : Str) (s : List Str)
    → contains j (s ++ k ∷ []) ≡ (if str_eq k j then true else contains j s)
unfolding contains
contains-append_one k j [] = refl
contains-append_one k j (i ∷ s) = ground (arith, contains-append_one k j s)

pub contains-add :
    (k j : Str) (s : List Str) → contains j (add k s) ≡ (if str_eq k j then true else contains j s)
unfolding add
contains-add k j s = ground (arith, contains-append_one k j s, str_eq_iff k j)

pub contains-discard :
    (k j : Str) (s : List Str)
    → contains j (discard k s) ≡ (if str_eq k j then false else contains j s)
unfolding contains discard
contains-discard k j [] = ground arith
contains-discard k j (i ∷ s) =
    ground (arith, str_eq_iff k j, str_eq_iff i k, str_eq_iff i j, contains-discard k j s)

pub length-add-le : (k : Str) (s : List Str) → length (add k s) ≤ length s + 1
unfolding add
length-add-le k s = ground (arith, length-append s (k ∷ []))

length-discard-le_length : (k : Str) (s : List Str) → length (discard k s) ≤ length s
unfolding discard
length-discard-le_length k [] = omega arith
length-discard-le_length k (j ∷ s) = ground (arith, length-discard-le_length k s)

pub length-discard-le :
    (k : Str) (s : List Str) → length (discard k s) + bit (contains k s) ≤ length s
unfolding contains discard
length-discard-le k [] = omega arith
length-discard-le k (j ∷ s) = ground (arith, length-discard-le k s, length-discard-le_length k s)

pub count-append : (k : Str) (s t : List Str) → count k (s ++ t) ≡ count k s + count k t
unfolding count
count-append k [] t = omega arith
count-append k (j ∷ s) t = omega (arith, count-append k s t)

pub count-discard :
    (k j : Str) (s : List Str) → count j (discard k s) ≡ (if str_eq k j then 0 else count j s)
unfolding count discard
count-discard k j [] = ground arith
count-discard k j (i ∷ s) =
    ground (arith, str_eq_iff k j, str_eq_iff i k, str_eq_iff i j, count-discard k j s)

pub ruleset set_laws = (contains-add, contains-discard)

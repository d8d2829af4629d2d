-- ===== src/Core/Heap.antt =====
-- What the engines use of `heapq`: a push keeps the least entry at the front, a pop takes it. The
-- heap is the list of its entries in order; the order in which `heapq` lays out the others is not
-- modelled.
use one_open_broker.Prelude.{
  ◌+◌, ◌≡◌, refl, Bool, true, false, inl, inr, List, [], ◌∷◌, map, Str, str_eq, if◌then◌else◌,
  length, All, arith, bit, Bool-cases,
}
use one_open_broker.Dict.{count}

module _ {A : Type 0} (before : A → A → Bool) where
  -- `heapq.heappush`
  unfoldable pub push : A → List A → List A
  push x [] = x ∷ []
  push x (y ∷ ys) = if before x y then x ∷ y ∷ ys else y ∷ push x ys

  -- No entry stands behind one that it comes before.
  abbrev pub IsHeap : List A → Type 0
  IsHeap [] = Unit
  IsHeap (x ∷ xs) = All (λ y. before y x ≡ false) xs × IsHeap xs

  All-push : (P : A → Type 0) (x : A) (xs : List A) → P x → All P xs → All P (push x xs)
  unfolding push
  All-push P x [] p h = (p, tt)
  All-push P x (y ∷ ys) p h = elim (Bool-cases (before x y)) [
    | inl first ↦ rw first (p, h)
    | inr later ↦ rw later (h.0, All-push P x ys p h.1)
  ]

  pub length-push : (x : A) (xs : List A) → length (push x xs) ≡ length xs + 1
  unfolding push
  length-push x [] = omega arith
  length-push x (y ∷ ys) = ground (arith, length-push x ys)

  -- A push adds its own entry to what is counted, and no other.
  pub count-push :
      (f : A → Str) (k : Str) (x : A) (xs : List A)
      → count k (map f (push x xs)) ≡ bit (str_eq (f x) k) + count k (map f xs)
  unfolding push count
  count-push f k x [] = refl
  count-push f k x (y ∷ ys) = ground (arith, count-push f k x ys)

  module _ (trans : (x y z : A) → before x y ≡ true → before y z ≡ true → before x z ≡ true) where
    not-before : (x y z : A) → before x y ≡ true → before z y ≡ false → before z x ≡ false
    not-before x y z h k = elim (Bool-cases (before z x)) [
      | inl e ↦ cc (trans z x y e h, k)
      | inr e ↦ e
    ]

    All-not-before :
        (x y : A) (ys : List A)
        → before x y ≡ true
        → All (λ z. before z y ≡ false) ys
        → All (λ z. before z x ≡ false) ys
    All-not-before x y [] h k = tt
    All-not-before x y (z ∷ zs) h k = (not-before x y z h k.0, All-not-before x y zs h k.1)

    module _ (irrefl : (x : A) → before x x ≡ false) where
      asym : (x y : A) → before x y ≡ true → before y x ≡ false
      asym x y h = elim (Bool-cases (before y x)) [
        | inl e ↦ cc (trans x y x h e, irrefl x)
        | inr e ↦ e
      ]

      -- A push keeps the entries in order.
      pub push-IsHeap : (x : A) (xs : List A) → IsHeap xs → IsHeap (push x xs)
      unfolding push
      push-IsHeap x [] h = (tt, tt)
      push-IsHeap x (y ∷ ys) h = elim (Bool-cases (before x y)) [
        | inl first ↦ rw first ((asym x y first, All-not-before x y ys first h.0), h)
        | inr later ↦
            rw later (All-push (λ z. before z y ≡ false) x ys later h.0, push-IsHeap x ys h.1)
      ]

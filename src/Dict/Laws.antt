-- ===== src/Dict/Laws.antt =====
-- What one operation on a dictionary shows through another.
use one_open_broker.Prelude.{
  All, Bool-cases, inl, inr, not, ◌+◌, ◌≤◌, ◌≡◌, refl, false, true, none, some, [], ◌∷◌, Str,
  str_eq, str_eq_iff, if◌then◌else◌, length, arith, bit, is_some,
}
use one_open_broker.Dict.Defs.{Dict, get, put, remove, has, keys}
use one_open_broker.Dict.Sets.{contains, count}

module _ {ℓ} {V : Type ℓ} where
  pub get-put :
      (k j : Str) (v : V) (d : Dict V)
      → get j (put k v d) ≡ (if str_eq k j then some v else get j d)
  unfolding get put
  get-put k j v [] = refl
  get-put k j v ((i, w) ∷ d) =
      ground (arith, str_eq_iff k j, str_eq_iff i k, str_eq_iff i j, get-put k j v d)

  pub has-put :
      (k j : Str) (v : V) (d : Dict V) → has j (put k v d) ≡ (if str_eq k j then true else has j d)
  unfolding has put
  has-put k j v [] = refl
  has-put k j v ((i, w) ∷ d) =
      ground (arith, str_eq_iff k j, str_eq_iff i k, str_eq_iff i j, has-put k j v d)

  pub get-remove :
      (k j : Str) (d : Dict V) → get j (remove k d) ≡ (if str_eq k j then none else get j d)
  unfolding get remove
  get-remove k j [] = ground arith
  get-remove k j ((i, w) ∷ d) =
      ground (arith, str_eq_iff k j, str_eq_iff i k, str_eq_iff i j, get-remove k j d)

  pub has-remove :
      (k j : Str) (d : Dict V) → has j (remove k d) ≡ (if str_eq k j then false else has j d)
  unfolding has remove
  has-remove k j [] = ground arith
  has-remove k j ((i, w) ∷ d) =
      ground (arith, str_eq_iff k j, str_eq_iff i k, str_eq_iff i j, has-remove k j d)

  pub has-is_some : (k : Str) (d : Dict V) → has k d ≡ is_some (get k d)
  unfolding has get
  has-is_some k [] = refl
  has-is_some k ((j, v) ∷ d) = ground (arith, has-is_some k d)

  pub has-of-get : (k : Str) (d : Dict V) {v : V} → get k d ≡ some v → has k d ≡ true
  has-of-get k d h = ground (arith, has-is_some k d)

  pub length-put :
      (k : Str) (v : V) (d : Dict V) → length (put k v d) + bit (has k d) ≡ length d + 1
  unfolding has put
  length-put k v [] = omega arith
  length-put k v ((i, w) ∷ d) = ground (arith, length-put k v d)

  length-remove-le_length : (k : Str) (d : Dict V) → length (remove k d) ≤ length d
  unfolding remove
  length-remove-le_length k [] = omega arith
  length-remove-le_length k ((i, w) ∷ d) = ground (arith, length-remove-le_length k d)

  pub length-remove-le : (k : Str) (d : Dict V) → length (remove k d) + bit (has k d) ≤ length d
  unfolding has remove
  length-remove-le k [] = omega arith
  length-remove-le k ((i, w) ∷ d) =
      ground (arith, length-remove-le k d, length-remove-le_length k d)

  pub remove_absent : (k : Str) (d : Dict V) → has k d ≡ false → remove k d ≡ d
  unfolding has remove
  remove_absent k [] h = refl
  remove_absent k ((i, w) ∷ d) h = ground (arith, remove_absent k d)

  pub count-keys-put :
      (k j : Str) (v : V) (d : Dict V)
      → count j (keys (put k v d))
        ≡ (if str_eq k j then bit (not (has k d)) + count j (keys d) else count j (keys d))
  unfolding keys put count has
  count-keys-put k j v [] = ground arith
  count-keys-put k j v ((i, w) ∷ d) =
      ground (arith, str_eq_iff k j, str_eq_iff i k, str_eq_iff i j, count-keys-put k j v d)

  pub count-keys-remove :
      (k j : Str) (d : Dict V)
      → count j (keys (remove k d)) ≡ (if str_eq k j then 0 else count j (keys d))
  unfolding keys remove count
  count-keys-remove k j [] = ground arith
  count-keys-remove k j ((i, w) ∷ d) =
      ground (arith, str_eq_iff k j, str_eq_iff i k, str_eq_iff i j, count-keys-remove k j d)

  pub contains-keys : (j : Str) (d : Dict V) → contains j (keys d) ≡ has j d
  unfolding keys contains has
  contains-keys j [] = refl
  contains-keys j ((i, w) ∷ d) = ground (arith, contains-keys j d)

  -- No key stands twice.
  abbrev pub UniqueKeys : Dict V → Type 0
  UniqueKeys d = (j : Str) → count j (keys d) ≡ bit (has j d)

  pub UniqueKeys-put : (k : Str) (v : V) (d : Dict V) → UniqueKeys d → UniqueKeys (put k v d)
  UniqueKeys-put k v d u j =
      ground (arith, u j, u k, count-keys-put k j v d, has-put k j v d, str_eq_iff k j)

  pub UniqueKeys-remove : (k : Str) (d : Dict V) → UniqueKeys d → UniqueKeys (remove k d)
  UniqueKeys-remove k d u j = ground (arith, u j, count-keys-remove k j d, has-remove k j d)

module _ {ℓ κ} {V : Type ℓ} (P : Str × V → Type κ) where
  pub All-put : (k : Str) (v : V) (d : Dict V) → P (k, v) → All P d → All P (put k v d)
  unfolding put
  All-put k v [] p h = (p, tt)
  All-put k v ((j, w) ∷ d) p h = elim (Bool-cases (str_eq j k)) [
    | inl e ↦ rw e (p, h.1)
    | inr e ↦ rw e (h.0, All-put k v d p h.1)
  ]

  pub All-remove : (k : Str) (d : Dict V) → All P d → All P (remove k d)
  unfolding remove
  All-remove k [] h = tt
  All-remove k ((j, w) ∷ d) h = elim (Bool-cases (str_eq j k)) [
    | inl e ↦ rw e (All-remove k d h.1)
    | inr e ↦ rw e (h.0, All-remove k d h.1)
  ]

pub ruleset dict_laws = (get-put, has-put, get-remove, has-remove)

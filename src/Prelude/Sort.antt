-- ===== src/Prelude/Sort.antt =====
-- `sorted(xs, key=key)` and `sorted(xs, key=key, reverse=True)`: both are stable.
use Prim.Native.Nat.{ℕ}
use mathlib.Core.Bool.{true, false}
use mathlib.Core.List.{List, [], ◌∷◌}
use dibs_reservation_sniper.Prelude.Lists.{All}
use dibs_reservation_sniper.Prelude.Tests.{ltb, Bool-cases}
use mathlib.Core.Logic.{inl, inr}

module _ {ℓ} {A : Type ℓ} (key : A → ℕ) where
  -- Behind every entry whose key is not larger.
  unfoldable pub insert_by : A → List A → List A
  insert_by a [] = a ∷ []
  insert_by a (x ∷ xs) = elim (ltb (key a) (key x)) [
    | true ↦ a ∷ x ∷ xs
    | false ↦ x ∷ insert_by a xs
  ]

  insert_all : List A → List A → List A
  insert_all out [] = out
  insert_all out (x ∷ xs) = insert_all (insert_by x out) xs

  unfoldable pub sort_by : List A → List A
  unfolding insert_by insert_all
  sort_by xs = insert_all [] xs

  -- Behind every entry whose key is not smaller.
  unfoldable pub insert_by_desc : A → List A → List A
  insert_by_desc a [] = a ∷ []
  insert_by_desc a (x ∷ xs) = elim (ltb (key x) (key a)) [
    | true ↦ a ∷ x ∷ xs
    | false ↦ x ∷ insert_by_desc a xs
  ]

  insert_all_desc : List A → List A → List A
  insert_all_desc out [] = out
  insert_all_desc out (x ∷ xs) = insert_all_desc (insert_by_desc x out) xs

  unfoldable pub sort_by_desc : List A → List A
  unfolding insert_by_desc insert_all_desc
  sort_by_desc xs = insert_all_desc [] xs

module _ {ℓ κ} {A : Type ℓ} (key : A → ℕ) (P : A → Type κ) where
  insert_by-All : (a : A) (xs : List A) → P a → All P xs → All P (insert_by key a xs)
  unfolding insert_by
  insert_by-All a [] p h = (p, tt)
  insert_by-All a (x ∷ xs) p h = elim (Bool-cases (ltb (key a) (key x))) [
    | inl e ↦ rw (e, insert_by) (p, (h.0, h.1))
    | inr e ↦ rw (e, insert_by) (h.0, insert_by-All a xs p h.1)
  ]

  insert_all-All : (out xs : List A) → All P out → All P xs → All P (insert_all key out xs)
  unfolding insert_all
  insert_all-All out [] h k = h
  insert_all-All out (x ∷ xs) h k =
      insert_all-All (insert_by key x out) xs (insert_by-All x out k.0 h) k.1

  -- Sorting brings nothing new.
  pub sort_by-All : (xs : List A) → All P xs → All P (sort_by key xs)
  unfolding sort_by
  sort_by-All xs h = insert_all-All [] xs tt h

-- ===== src/MockStore/Double/Entries.antt =====
-- One entry of a dictionary under the store's bulk operations.
use dibs_reservation_sniper.Prelude.{
  ℕ, ◌≡◌, ◌≢◌, refl, subst, sym, ◌∙◌, inl, inr, String, Bool, false, none, List, [], ◌∷◌, arith,
  eq_iff, str_eq, if_keeps, All, take-All, take, Bool-cases,
}
use dibs_reservation_sniper.Dict.{Dict, get, put, pop, get-pop}
use dibs_reservation_sniper.MockStore.Bookings.{keys_where, pop_all}

-- The keys of a Python dictionary are distinct.
abbrev pub Distinct : {V : Type 0} → Dict V → Type 0
Distinct [] = Unit {0}
Distinct ((k, v) ∷ d) = All (λ e. e.0 ≢ k) d × Distinct d

-- The entry of `k`, if there is one, is `v`.
abbrev pub Only : {V : Type 0} → String → V → Dict V → Type 0
Only k v d = All (λ e. e.0 ≡ k → e.1 ≡ v) d

abbrev Other : String → String → Type 0
Other k i = i ≢ k

module _ {V : Type 0} (k : String) (v : V) where
  others-Only : (d : Dict V) → All (λ e. e.0 ≢ k) d → Only k v d
  others-Only [] h = tt
  others-Only ((i, w) ∷ d) h = (λ e. absurd (h.0 e), others-Only d h.1)

  pub put-Only : (d : Dict V) → Distinct d → Only k v (put d k v)
  unfolding put
  put-Only [] h = (λ e. refl, tt)
  put-Only ((i, w) ∷ d) h = elim (Bool-cases (str_eq i k)) [
    | inl e ↦
        rw e (λ p. refl, others-Only d (subst (λ j. All (λ x. x.0 ≢ j) d) ((eq_iff i k).0 e) h.0))
    | inr e ↦ rw e (λ p. absurd (ground (arith, eq_iff i k)), put-Only d h.1)
  ]

  pub put_other-Only : (d : Dict V) (j : String) (w : V) → j ≢ k → Only k v d → Only k v (put d j w)
  unfolding put
  put_other-Only [] j w n h = (λ e. absurd (n e), tt)
  put_other-Only ((i, u) ∷ d) j w n h = elim (Bool-cases (str_eq i j)) [
    | inl e ↦ rw e (λ p. absurd (n (sym ((eq_iff i j).0 e) ∙ p)), h.1)
    | inr e ↦ rw e (h.0, put_other-Only d j w n h.1)
  ]

  pub pop-Only : (d : Dict V) (j : String) → Only k v d → Only k v (pop d j)
  unfolding pop
  pop-Only [] j h = tt
  pop-Only ((i, u) ∷ d) j h =
      if_keeps (Only k v) (str_eq i j) (pop-Only d j h.1) (h.0, pop-Only d j h.1)

  pub pop_all-Only : (ks : List String) (d : Dict V) → Only k v d → Only k v (pop_all d ks)
  unfolding pop_all
  pop_all-Only [] d h = h
  pop_all-Only (j ∷ ks) d h = pop_all-Only ks (pop d j) (pop-Only d j h)

  get-pop_all : (ks : List String) (d : Dict V) → All (Other k) ks → get (pop_all d ks) k ≡ get d k
  unfolding pop_all
  get-pop_all [] d h = refl
  get-pop_all (j ∷ ks) d h =
      get-pop_all ks (pop d j) h.1 ∙ ground (arith, get-pop d j k, eq_iff j k, h.0)

  -- An entry that fails the test is not among the keys that pass it.
  keys_where-Other :
      (p : String → V → Bool) (d : Dict V)
      → p k v ≡ false
      → Only k v d
      → All (Other k) (keys_where p d)
  unfolding keys_where
  keys_where-Other p [] e h = tt
  keys_where-Other p ((i, u) ∷ d) e h = elim (Bool-cases (p i u)) [
    | inl q ↦ rw q (λ s. cc (q, e, s, h.0 s), keys_where-Other p d e h.1)
    | inr q ↦ rw q (keys_where-Other p d e h.1)
  ]

  -- A bounded removal of what passes a test leaves an entry that fails it.
  pub get-pop_all-keys_where :
      (p : String → V → Bool) (n : ℕ) (d : Dict V)
      → p k v ≡ false
      → Only k v d
      → get (pop_all d (take n (keys_where p d))) k ≡ get d k
  get-pop_all-keys_where p n d e h =
      get-pop_all (take n (keys_where p d)) d
        (take-All (Other k) n (keys_where p d) (keys_where-Other p d e h))

pub gone-pop_all :
    {V : Type 0} (k : String) (ks : List String) (d : Dict V)
    → get d k ≡ none
    → get (pop_all d ks) k ≡ none
unfolding pop_all
gone-pop_all k [] d h = h
gone-pop_all k (j ∷ ks) d h = gone-pop_all k ks (pop d j) (ground (arith, get-pop d j k, h))

-- ===== src/Repo/Retention.antt =====
-- What a bounded cleanup pass may remove.
use dibs_reservation_sniper.Prelude.{
  ℕ, ◌+◌, ◌≤◌, ◌<◌, ◌≡◌, ◌≢◌, inl, inr, refl, ◌∙◌, if_keeps, All, take-All, sort_by-All, str_eq,
  subst, String, true, false, some, [], ◌∷◌, arith, eq_iff, Bool-cases, length, length-take-le,
  take, sort_by, leb,
}
use dibs_reservation_sniper.Dict.{Dict, get, get-pop}
use dibs_reservation_sniper.Model.{Watch, is_active}
use dibs_reservation_sniper.Repo.State.{Repo}
use dibs_reservation_sniper.Repo.Documents.{forget}
use dibs_reservation_sniper.Repo.Recovery.{due_ids, cleanup_one, cleanup_all, cleanup_due}

abbrev Unnamed : String → String × ℕ → Type 0
Unnamed j e = e.0 ≢ j

-- The keys of a Python dictionary are distinct.
abbrev pub Distinct {ℓ} : {V : Type ℓ} → Dict V → Type 0
Distinct [] = Unit {0}
Distinct ((k, v) ∷ d) = All (λ e. e.0 ≢ k) d × Distinct d

cleanup_one-active :
    (s : Repo) (j id : String) (w : Watch)
    → get s.watches j ≡ some w
    → is_active w.status ≡ true
    → get (cleanup_one s id).0.watches j ≡ some w
unfolding cleanup_one forget
cleanup_one-active s j id w p a = grind (arith, get-pop, eq_iff)

cleanup_all-active :
    (s : Repo) (n : ℕ) (due : Dict ℕ) (j : String) (w : Watch)
    → get s.watches j ≡ some w
    → is_active w.status ≡ true
    → get (cleanup_all s n due).0.watches j ≡ some w
unfolding cleanup_all
cleanup_all-active s n [] j w p a = p
cleanup_all-active s n ((id, d) ∷ due) j w p a =
    cleanup_all-active (cleanup_one s id).0 _ due j w (cleanup_one-active s j id w p a) a

cleanup_one-other :
    (s : Repo) (j id : String) → id ≢ j → (get (cleanup_one s id).0.watches j ≡ get s.watches j)
unfolding cleanup_one forget
cleanup_one-other s j id h = grind (arith, get-pop, eq_iff)

cleanup_all-other :
    (s : Repo) (n : ℕ) (due : Dict ℕ) (j : String)
    → All (Unnamed j) due
    → get (cleanup_all s n due).0.watches j ≡ get s.watches j
unfolding cleanup_all
cleanup_all-other s n [] j h = refl
cleanup_all-other s n ((id, d) ∷ due) j h =
    cleanup_all-other (cleanup_one s id).0 _ due j h.1 ∙ cleanup_one-other s j id h.0

cleanup_all-removed : (s : Repo) (n : ℕ) (due : Dict ℕ) → (cleanup_all s n due).1 ≤ n + length due
unfolding cleanup_all
cleanup_all-removed s n [] = omega arith
cleanup_all-removed s n ((id, d) ∷ due) = ground (
  arith,
  cleanup_all-removed (cleanup_one s id).0 n due,
  cleanup_all-removed (cleanup_one s id).0 (n + 1) due,
)

-- Nothing that is due names an id that is not there.
due_ids-absent :
    (now : ℕ) (j : String) (d : Dict ℕ) → All (Unnamed j) d → All (Unnamed j) (due_ids now d)
unfolding due_ids
due_ids-absent now j [] h = tt
due_ids-absent now j ((k, t) ∷ d) h =
    if_keeps (All (Unnamed j)) (leb t now) (h.0, due_ids-absent now j d h.1)
      (due_ids-absent now j d h.1)

-- Nothing that is due names an id whose deadline is in the future.
due_ids-future :
    (now : ℕ) (j : String) (d : Dict ℕ) (t : ℕ)
    → Distinct d
    → get d j ≡ some t
    → now < t
    → All (Unnamed j) (due_ids now d)
unfolding due_ids get
due_ids-future now j [] t u e h = tt
due_ids-future now j ((k, v) ∷ d) t u e h = elim (Bool-cases (str_eq k j)) [
  | inl p ↦
      let late : leb v now ≡ false = ground arith in
      rw late (due_ids-absent now j d (subst (λ i. All (Unnamed i) d) ((eq_iff k j).0 p) u.0))
  | inr p ↦
      let rest = due_ids-future now j d t u.1 (ground arith) h in
      if_keeps (All (Unnamed j)) (leb v now) (λ q. cc (p, (eq_iff k j).1 q), rest) rest
]

-- A cleanup pass removes at most `batch_size` watches. It keeps every active watch, and every watch
-- whose retention deadline is still in the future, as they are.
pub cleanup_due_bounded :
    (s : Repo) (now batch_size : ℕ)
    → Distinct s.terminal_delete_at
    → ((cleanup_due s now batch_size).1.removed ≤ batch_size)
      × ((j : String) (w : Watch)
          → get s.watches j ≡ some w
          → is_active w.status ≡ true
          → get (cleanup_due s now batch_size).0.watches j ≡ some w)
      × ((j : String) (t : ℕ)
          → get s.terminal_delete_at j ≡ some t
          → now < t
          → get (cleanup_due s now batch_size).0.watches j ≡ get s.watches j)
unfolding cleanup_due
cleanup_due_bounded s now batch_size u =
    let due = sort_by (λ (e : String × ℕ). e.1) (due_ids now s.terminal_delete_at) in
    (
      omega
          (arith, cleanup_all-removed s 0 (take batch_size due), length-take-le {0} batch_size due),
      λ j w p a. cleanup_all-active s 0 (take batch_size due) j w p a,
      λ j t e h. cleanup_all-other s 0 (take batch_size due) j (
          take-All (Unnamed j) batch_size due (
            sort_by-All (λ e. e.1) (Unnamed j) (due_ids now s.terminal_delete_at)
              (due_ids-future now j s.terminal_delete_at t u e h))),
    )

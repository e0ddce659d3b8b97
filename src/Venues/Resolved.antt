-- ===== src/Venues/Resolved.antt =====
-- What resolving a name says of the catalogue.
use dibs_reservation_sniper.Prelude.{
  ◌≡◌, ◌⊎◌, refl, ap, subst, sym, inl, inr, String, Bool, true, false, List, [], ◌∷◌, arith,
  Bool-cases, All, str_eq,
}
use dibs_reservation_sniper.Venues.Profiles.{Venue}
use dibs_reservation_sniper.Venues.Catalogue.{venue_catalog}
use dibs_reservation_sniper.Venues.Matching.{
  VenueResolution, resolve_venue, decide, keep, is_exact, is_partial, match_tokens, by_tokens,
  IsDecided,
}

abbrev pub IsIn : Venue → List Venue → Type 0
IsIn v [] = ⊥
IsIn v (w ∷ ws) = (v ≡ w) ⊎ IsIn v ws

keep-All :
    (p : Venue → Bool) (P : Venue → Type 0) (vs : List Venue)
    → ((v : Venue) → IsIn v vs → p v ≡ true → P v)
    → All P (keep p vs)
keep-All p P [] f = tt
keep-All p P (v ∷ vs) f =
    let rest = keep-All p P vs (λ w i q. f w (inr i) q) in
    elim (Bool-cases (p v)) [ inl e ↦ rw e (f v (inl refl) e, rest) | inr e ↦ rw e rest ]

keep-In :
    (p : Venue → Bool) (vs : List Venue) (w : Venue) → IsIn w vs → p w ≡ true → IsIn w (keep p vs)
keep-In p [] w i e = elim i [ ]
keep-In p (v ∷ vs) w i e = elim (Bool-cases (p v)) [
  | inl q ↦ rw q (elim i [ inl same ↦ inl same | inr j ↦ inr (keep-In p vs w j e) ])
  | inr q ↦
      rw q (elim i [ inl same ↦ ground (arith, e, q, ap p same) | inr j ↦ keep-In p vs w j e ])
]

-- Every venue that passes the test is kept, so if none is kept none passes.
keep-empty :
    (p : Venue → Bool) (vs : List Venue) (w : Venue) → IsIn w vs → keep p vs ≡ [] → p w ≡ false
keep-empty p vs w i e = elim (Bool-cases (p w)) [
  | inl q ↦ absurd (subst (IsIn w) e (keep-In p vs w i q))
  | inr q ↦ q
]

every : (P : Venue → Type 0) (vs : List Venue) → ((v : Venue) → IsIn v vs → P v) → All P vs
every P [] f = tt
every P (v ∷ vs) f = (f v (inl refl), every P vs (λ w i. f w (inr i)))

-- The answer is that of the matches if there are any, and the other attempt's if there are none.
decide-IsDecided :
    (P : Venue → Type 0) (Q : List Venue → Type 0) (vs : List Venue) (other : VenueResolution)
    → All P vs
    → ((v : Venue) → IsIn v vs → Q vs)
    → (vs ≡ [] → IsDecided P Q other)
    → IsDecided P Q (decide vs other)
decide-IsDecided P Q [] other h q o = o refl
decide-IsDecided P Q (v ∷ []) other h q o = (q v (inl refl), (v, (refl, (refl, h.0))))
decide-IsDecided P Q (v ∷ w ∷ vs) other h q o = (q v (inl refl), (refl, (omega arith, h)))

member : (P : Venue → Type 0) (vs : List Venue) (v : Venue) → All P vs → IsIn v vs → P v
member P [] v h i = elim i [ ]
member P (u ∷ vs) v h (inl same) = subst P (sym same) h.0
member P (u ∷ vs) v h (inr j) = member P vs v h.1 j

kept : (p : Venue → Bool) (vs : List Venue) (v : Venue) → IsIn v (keep p vs) → p v ≡ true
kept p vs v = member (λ u. p u ≡ true) (keep p vs) v (keep-All p (λ u. p u ≡ true) vs (λ u i e. e))

module _ (normalize : String → String) (words : String → List String) where
  -- All words of the name are in one key of the venue. A name without words matches none.
  abbrev pub has_words : List String → Venue → Bool
  has_words [] v = false
  has_words (t ∷ ts) v = is_partial normalize words (t ∷ ts) v

  -- The venue is of the catalogue, and the typed name is one of its keys, or all of its words are in
  -- one of them.
  abbrev pub Matches : String → List String → Venue → Type 0
  Matches name tokens v =
      IsIn v venue_catalog
      × ((is_exact normalize words (normalize name) v ≡ true) ⊎ (has_words tokens v ≡ true))

  -- A venue is no match of the name, or is among the candidates; and if it matches by its words only
  -- it may be missing where a candidate has the name itself as a key.
  abbrev pub Considers : String → List String → List Venue → Venue → Type 0
  Considers query tokens candidates v =
      ((is_exact normalize words query v ≡ false) ⊎ IsIn v candidates)
      × ((has_words tokens v ≡ false)
          ⊎ (IsIn v candidates
              ⊎ ((u : Venue) × (IsIn u candidates × (is_exact normalize words query u ≡ true)))))

  abbrev pub Covers : String → List String → List Venue → Type 0
  Covers query tokens candidates = All (Considers query tokens candidates) venue_catalog

  module _ (name : String) where
    -- Without an exact match: what the words find.
    tokens-IsDecided :
        (ts : List String)
        → keep (is_exact normalize words (normalize name)) venue_catalog ≡ []
        → IsDecided (Matches name ts) (Covers (normalize name) ts) (by_tokens normalize words ts)
    tokens-IsDecided [] none_exact =
        let empty = keep-empty (is_exact normalize words (normalize name)) venue_catalog in
        (
          every (Considers (normalize name) [] []) venue_catalog
              (λ w i. (inl (empty w i none_exact), inl refl)),
          (refl, refl),
        )
    tokens-IsDecided (t ∷ ts) none_exact =
        let empty = keep-empty (is_exact normalize words (normalize name)) venue_catalog in
        let p = is_partial normalize words (t ∷ ts) in
        decide-IsDecided (Matches name (t ∷ ts)) (Covers (normalize name) (t ∷ ts))
          (keep p venue_catalog) _
          (keep-All p (Matches name (t ∷ ts)) venue_catalog (λ v i q. (i, inr q)))
          (λ v j.
            every (Considers (normalize name) (t ∷ ts) (keep p venue_catalog)) venue_catalog (λ w i.
              (
                inl (empty w i none_exact),
                elim (Bool-cases (p w)) [
                  | inl e ↦ inr (inl (keep-In p venue_catalog w i e))
                  | inr e ↦ inl e
                ],
              )))
          (λ none_partial. (
            every (Considers (normalize name) (t ∷ ts) []) venue_catalog (λ w i.
                (inl (empty w i none_exact), inl (keep-empty p venue_catalog w i none_partial))),
            (refl, refl),
          ))

    resolve-named :
        str_eq (normalize name) "" ≡ false
        → resolve_venue normalize words name
          ≡ decide
              (keep (is_exact normalize words (normalize name)) venue_catalog)
              (by_tokens normalize words (match_tokens normalize words name))
    unfolding resolve_venue
    resolve-named named = rw named refl

    -- Of a typed name that does not normalize to the empty text: it resolves to a venue only if that
    -- is its single candidate, it is ambiguous only with two candidates or more and then to no
    -- venue, and it is unknown with no candidate. Every candidate is a venue of the catalogue with
    -- the typed name as a key or all of its words in a key. And no match is passed over: every venue
    -- of the catalogue with the name as a key is a candidate, and every one with all of its words in
    -- a key is a candidate too, unless some candidate has the name itself as a key.
    pub resolve_venue-IsDecided :
        str_eq (normalize name) "" ≡ false
        → IsDecided
            (Matches name (match_tokens normalize words name))
            (Covers (normalize name) (match_tokens normalize words name))
            (resolve_venue normalize words name)
    resolve_venue-IsDecided named =
        let ts = match_tokens normalize words name in
        let p = is_exact normalize words (normalize name) in
        subst (IsDecided (Matches name ts) (Covers (normalize name) ts)) (sym (resolve-named named))
          (decide-IsDecided (Matches name ts) (Covers (normalize name) ts) (keep p venue_catalog) _
            (keep-All p (Matches name ts) venue_catalog (λ v i q. (i, inl q)))
            (λ v j.
              every (Considers (normalize name) ts (keep p venue_catalog)) venue_catalog (λ w i. (
                elim (Bool-cases (p w)) [
                  | inl e ↦ inr (keep-In p venue_catalog w i e)
                  | inr e ↦ inl e
                ],
                inr (inr (v, (j, kept p venue_catalog v j))),
              )))
            (tokens-IsDecided ts))

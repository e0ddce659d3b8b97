-- ===== src/Intent/Lengths.antt =====
-- How long the clarification questions are.
use Prim.Native.String.{count, ◌++◌ as str_append}
use text.Mathlib.TextLemmas.{length-append}
use dibs_reservation_sniper.Prelude.{
  ℕ, zero, suc, or_default, ◌*◌, ◌≤◌, ◌≡◌, String, Option, none, some, List, [], ◌∷◌, arith, length,
  take, map, All,
}
use dibs_reservation_sniper.Intent.Schemas.{
  MissingField, action, venue_name, party_size, date, time,
}
use dibs_reservation_sniper.Intent.Times.{
  DateProblem, impossible, past, too_far, TimeProblem, invalid_window, conflicting, past_time,
}
use dibs_reservation_sniper.Intent.Questions.{
  enumerate, specific_question, general_question, build_question, label, venue_question,
  date_question, time_question,
}

-- A name or a label of at most 34 characters.
abbrev pub IsShort : String → Type 0
IsShort s = count s ≤ 34

abbrev pub Fits : String → Type 0
Fits q = (1 ≤ count q) × (count q ≤ 400)

module _ (both last : String) (b : count both ≤ 6) (l : count last ≤ 6) where
  -- Each item takes at most forty characters, its separator with it.
  enumerate-length :
      (xs : List String) → All IsShort xs → count (enumerate both last xs) ≤ 40 * length xs
  unfolding enumerate
  enumerate-length [] h = omega arith
  enumerate-length (x ∷ []) h = omega (arith, h.0)
  enumerate-length (x ∷ y ∷ []) h =
      omega (arith, b, h.0, h.1.0, length-append x (str_append both y), length-append both y)
  enumerate-length (x ∷ y ∷ z ∷ []) h = omega (
    arith,
    l,
    h.0,
    h.1.0,
    h.1.1.0,
    length-append x (str_append ", " (str_append y (str_append last z))),
    length-append ", " (str_append y (str_append last z)),
    length-append y (str_append last z),
    length-append last z,
  )
  enumerate-length (x ∷ y ∷ z ∷ w ∷ xs) h = omega (
    arith,
    h.0,
    enumerate-length (y ∷ z ∷ w ∷ xs) h.1,
    length-append x (str_append ", " (enumerate both last (y ∷ z ∷ w ∷ xs))),
    length-append ", " (enumerate both last (y ∷ z ∷ w ∷ xs)),
  )

labels-IsShort : (fs : List MissingField) → All IsShort (map label fs)
labels-IsShort [] = tt
labels-IsShort (action ∷ fs) = (omega arith, labels-IsShort fs)
labels-IsShort (venue_name ∷ fs) = (omega arith, labels-IsShort fs)
labels-IsShort (party_size ∷ fs) = (omega arith, labels-IsShort fs)
labels-IsShort (date ∷ fs) = (omega arith, labels-IsShort fs)
labels-IsShort (time ∷ fs) = (omega arith, labels-IsShort fs)

length-labels : (fs : List MissingField) → length (map label fs) ≡ length fs
length-labels [] = omega arith
length-labels (f ∷ fs) = omega (arith, length-labels fs)

take-IsShort : (n : ℕ) (cs : List String) → All IsShort cs → All IsShort (take n cs)
take-IsShort zero cs h = tt
take-IsShort (suc n) [] h = tt
take-IsShort (suc n) (c ∷ cs) h = (h.0, take-IsShort n cs h.1)

general_question-Fits : (fs : List MissingField) → length fs ≤ 5 → Fits (general_question fs)
unfolding general_question enumerate
general_question-Fits [] h = (omega arith, omega arith)
general_question-Fits (action ∷ []) h = (omega arith, omega arith)
general_question-Fits (venue_name ∷ []) h = (omega arith, omega arith)
general_question-Fits (party_size ∷ []) h = (omega arith, omega arith)
general_question-Fits (date ∷ []) h = (omega arith, omega arith)
general_question-Fits (time ∷ []) h = (omega arith, omega arith)
general_question-Fits (f ∷ g ∷ fs) h =
    let items = enumerate " and " ", and " (map label (f ∷ g ∷ fs)) in
    let short =
      enumerate-length " and " ", and " (omega arith) (omega arith) (map label (f ∷ g ∷ fs))
        (labels-IsShort (f ∷ g ∷ fs)) in
    let whole = length-append "Could you provide the " (str_append items "?") in
    let tail = length-append items "?" in
    let many = length-labels (f ∷ g ∷ fs) in
    (omega (arith, short, whole, tail, many, h), omega (arith, short, whole, tail, many, h))

abbrev FitsIfAny : Option String → Type 0
FitsIfAny none = Unit {0}
FitsIfAny (some q) = Fits q

date-Fits : (p : Option DateProblem) → FitsIfAny (date_question p)
date-Fits none = tt
date-Fits (some past) = (omega arith, omega arith)
date-Fits (some impossible) = (omega arith, omega arith)
date-Fits (some too_far) = (omega arith, omega arith)

time-Fits : (p : Option TimeProblem) → FitsIfAny (time_question p)
time-Fits none = tt
time-Fits (some invalid_window) = (omega arith, omega arith)
time-Fits (some conflicting) = (omega arith, omega arith)
time-Fits (some past_time) = (omega arith, omega arith)

take-few : (n : ℕ) (cs : List String) → length (take n cs) ≤ n
take-few zero cs = omega arith
take-few (suc n) [] = omega arith
take-few (suc n) (c ∷ cs) = omega (arith, take-few n cs)

venue-Fits : (cs : List String) → All IsShort cs → FitsIfAny (venue_question cs)
venue-Fits [] h = tt
venue-Fits (c ∷ cs) h =
    let items = enumerate " or " ", or " (take 3 (c ∷ cs)) in
    let short =
      enumerate-length " or " ", or " (omega arith) (omega arith) (take 3 (c ∷ cs))
        (take-IsShort 3 (c ∷ cs) h) in
    let few = take-few 3 (c ∷ cs) in
    let whole = length-append "Did you mean " (str_append items "?") in
    let tail = length-append items "?" in
    (omega (arith, short, few, whole, tail), omega (arith, short, few, whole, tail))

specific-Fits :
    (fs : List MissingField) (d : Option DateProblem) (t : Option TimeProblem) (cs : List String)
    → All IsShort cs
    → FitsIfAny (specific_question fs d t cs)
unfolding specific_question
specific-Fits [] d t cs h = tt
specific-Fits (action ∷ []) d t cs h = tt
specific-Fits (venue_name ∷ []) d t cs h = venue-Fits cs h
specific-Fits (party_size ∷ []) d t cs h = tt
specific-Fits (date ∷ []) d t cs h = date-Fits d
specific-Fits (time ∷ []) d t cs h = time-Fits t
specific-Fits (action ∷ g ∷ fs) d t cs h = tt
specific-Fits (venue_name ∷ g ∷ fs) d t cs h = tt
specific-Fits (party_size ∷ g ∷ fs) d t cs h = tt
specific-Fits (date ∷ g ∷ fs) d t cs h = tt
specific-Fits (time ∷ g ∷ fs) d t cs h = tt

or_default-Fits : (q : Option String) (d : String) → FitsIfAny q → Fits d → Fits (or_default q d)
or_default-Fits none d h g = g
or_default-Fits (some q) d h g = h

-- With candidates of short names and at most five fields, the question is one the schema accepts.
pub build_question-Fits :
    (fs : List MissingField) (d : Option DateProblem) (t : Option TimeProblem) (cs : List String)
    → length fs ≤ 5
    → All IsShort cs
    → Fits (build_question fs d t cs)
unfolding build_question
build_question-Fits fs d t cs few short =
    or_default-Fits (specific_question fs d t cs) (general_question fs)
      (specific-Fits fs d t cs short) (general_question-Fits fs few)

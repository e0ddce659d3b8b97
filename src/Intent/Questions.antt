-- ===== src/Intent/Questions.antt =====
-- The clarification questions.
use Prim.Native.String.{◌++◌ as str_append}
use dibs_reservation_sniper.Prelude.{
  String, Option, none, some, List, [], ◌∷◌, take, map, or_default,
}
use dibs_reservation_sniper.Intent.Schemas.{
  MissingField, action, venue_name, party_size, date, time,
}
use dibs_reservation_sniper.Intent.Times.{
  DateProblem, impossible, past, too_far, TimeProblem, invalid_window, conflicting, past_time,
}

-- The items of a list in a sentence: `both` stands between two, `last` before the last of more.
module _ (both last : String) where
  unfoldable pub enumerate : List String → String
  enumerate [] = ""
  enumerate (x ∷ []) = x
  enumerate (x ∷ y ∷ []) = str_append x (str_append both y)
  enumerate (x ∷ y ∷ z ∷ []) = str_append x (str_append ", " (str_append y (str_append last z)))
  enumerate (x ∷ y ∷ z ∷ w ∷ xs) = str_append x (str_append ", " (enumerate (y ∷ z ∷ w ∷ xs)))

abbrev pub date_question : Option DateProblem → Option String
date_question none = none
date_question (some past) = some "That date has already passed. What future date would you like?"
date_question (some impossible) =
    some "That date does not exist on the calendar. What date would you like?"
date_question (some too_far) =
    some "I can only book up to a year ahead. What date within the next year would you like?"

abbrev pub time_question : Option TimeProblem → Option String
time_question none = none
time_question (some invalid_window) =
    some "The time window is invalid. What time or valid time range works for you?"
time_question (some conflicting) =
    some
      "The preferred time falls outside the requested time window. Which time constraint should I use?"
time_question (some past_time) =
    some
      "That time has already passed today. What later time works, or should I look at another day?"

abbrev pub venue_question : List String → Option String
venue_question [] = none
venue_question (c ∷ cs) =
    some (str_append "Did you mean " (str_append (enumerate " or " ", or " (take 3 (c ∷ cs))) "?"))

unfoldable pub specific_question :
    List MissingField → Option DateProblem → Option TimeProblem → List String → Option String
unfolding enumerate
specific_question (venue_name ∷ []) date_problem time_problem candidates = venue_question candidates
specific_question (date ∷ []) date_problem time_problem candidates = date_question date_problem
specific_question (time ∷ []) date_problem time_problem candidates = time_question time_problem
specific_question _ date_problem time_problem candidates = none

abbrev pub single_question : MissingField → String
single_question action = "Would you like me to check availability, book it, or create a watch?"
single_question venue_name = "Which restaurant or recreational venue would you like?"
single_question party_size = "How many guests or participants are there?"
single_question date = "What date would you like?"
single_question time = "What time or time range works for you?"

abbrev pub label : MissingField → String
label action = "request type"
label venue_name = "venue"
label party_size = "party size"
label date = "date"
label time = "time or time range"

unfoldable pub general_question : List MissingField → String
unfolding enumerate
general_question (f ∷ []) = single_question f
general_question fields =
    str_append "Could you provide the "
      (str_append (enumerate " and " ", and " (map label fields)) "?")

unfoldable pub build_question :
    List MissingField → Option DateProblem → Option TimeProblem → List String → String
unfolding specific_question general_question
build_question fields date_problem time_problem candidates =
    or_default (specific_question fields date_problem time_problem candidates)
      (general_question fields)

-- ===== src/Examples/Asking.antt =====
-- Concrete inputs at which the theorems on queries and on the comparison of events apply.
use rtcom_eventlogger.Common.{◌≡◌, ◌↔◌, ℤ, pos, true, none, some, [], ◌∷◌, String}
use rtcom_eventlogger.Event.{event_equals}
use rtcom_eventlogger.Event.Equality.{Agrees, equals-true_iff}
use rtcom_eventlogger.Query.{Condition, in_strv, build_where_clause, prepare, query_new}
use rtcom_eventlogger.Query.Clause.{Refused, build_where_clause-Refused}
use rtcom_eventlogger.Query.Prepare.{clauses, joined, Prepares, prepare-Prepares}
use rtcom_eventlogger.Examples.{with_id}

abbrev by_channel : Condition
by_channel = record {
  key = "channel";
  number = pos 0;
  text = "";
  strv = "a" ∷ "b" ∷ [];
  op = in_strv;
}

abbrev shown : ℤ → String
shown _ = "7"

abbrev bare : String → String
bare s = s

build_where_clause-Refused_example :
    (build_where_clause shown bare bare true by_channel "" ≡ none) ↔ Refused true by_channel
build_where_clause-Refused_example = build_where_clause-Refused shown bare bare true by_channel ""

prepare-Prepares_example :
    Prepares shown bare bare
      (query_new true)
      (joined shown bare bare
        (clauses shown bare bare (query_new true).has_el (by_channel ∷ by_channel ∷ [])))
      (prepare shown bare bare (query_new true) (by_channel ∷ by_channel ∷ []))
prepare-Prepares_example =
    prepare-Prepares shown bare bare (query_new true) by_channel (by_channel ∷ [])

equals-true_iff_example :
    (event_equals (with_id (pos 1)) (with_id (pos 1)) ≡ some true)
    ↔ Agrees (with_id (pos 1)) (with_id (pos 1))
equals-true_iff_example = equals-true_iff (with_id (pos 1)) (with_id (pos 1))

-- ===== src/Query.antt =====
-- src/eventlogger-query.c: a query, the WHERE clause that `rtcom_el_query_prepare` builds from its
-- arguments, and the text that `rtcom_el_query_refresh` makes of it. The table of fields is that of
-- src/db.c.
use Prim.Native.String.{◌++◌}
use rtcom_eventlogger.Common.{
  ℤ, pos, negsuc, Bool, true, false, Option, none, some, List, [], ◌∷◌, String, same, if◌then◌else◌,
}
use rtcom_eventlogger.Row.{int, boolean, chars, EventField, fields, selection_of}
pub mod Clause
pub mod Prepare

-- `RTComElOp`
pub data Op : Type 0 where
  equal not_equal greater greater_equal less less_equal in_strv str_ends_with str_like : Op

-- `RTComElQueryGroupBy`
pub data GroupBy : Type 0 where
  by_none by_contact by_uids by_group : GroupBy

-- `RTComElQueryPrivate`; `none` is NULL, and `has_el` whether the pointer to the object is not.
pub record Query : Type 0 where
  pub has_el : Bool
  pub is_caching : Bool
  pub limit : ℤ
  pub offset : ℤ
  pub group_by : GroupBy
  pub sql : Option String
  pub where_clause : Option String

-- `rtcom_el_query_init`, and the construction property that `rtcom_el_query_new` sets.
unfoldable pub query_new : Bool → Query
query_new has_el = record {
  has_el = has_el;
  is_caching = false;
  limit = negsuc 0;
  offset = pos 0;
  group_by = by_none;
  sql = none;
  where_clause = none;
}

abbrev pub set_is_caching : Bool → Query → Query
set_is_caching b q = record q { is_caching = b }

abbrev pub set_limit : ℤ → Query → Query
set_limit n q = record q { limit = n }

abbrev pub set_offset : ℤ → Query → Query
set_offset n q = record q { offset = n }

abbrev pub set_group_by : GroupBy → Query → Query
set_group_by g q = record q { group_by = g }

-- A lookup in `typing` and in `mapping`, which have the same keys.
unfoldable pub find_field : String → List EventField → Option EventField
find_field key [] = none
find_field key (f ∷ fs) = if same f.name key then some f else find_field key fs

-- One condition: the key, the pointer by how it is read, and the operator.
pub record Condition : Type 0 where
  pub key : String
  pub number : ℤ
  pub text : String
  pub strv : List String
  pub op : Op

-- `_build_operator`; `none` is NULL
abbrev pub build_operator : Op → Option String
build_operator equal = some "="
build_operator not_equal = some "<>"
build_operator greater = some ">"
build_operator greater_equal = some ">="
build_operator less = some "<"
build_operator less_equal = some "<="
build_operator in_strv = none
build_operator str_ends_with = none
build_operator str_like = none

abbrev pub joins : String
joins =
    "JOIN EventTypes ON Events.event_type_id = EventTypes.id LEFT JOIN Remotes ON Events.remote_uid = Remotes.remote_uid AND Events.local_uid = Remotes.local_uid LEFT JOIN Headers ON Headers.event_id = Events.id AND Headers.name = 'message-token'"

-- The tables that the text selects from.
abbrev pub tables_of : GroupBy → String
tables_of by_group =
    " FROM GroupCache JOIN Events ON GroupCache.event_id = Events.id JOIN Services ON GroupCache.service_id = Services.id "
    ++ joins
tables_of _ = " FROM Events JOIN Services ON Events.service_id = Services.id " ++ joins

abbrev pub where_text : Option String → String
where_text none = ""
where_text (some w) = " WHERE " ++ w

abbrev pub group_by_text : GroupBy → String
group_by_text by_contact = " GROUP BY unique_remote"
group_by_text by_uids = " GROUP BY Remotes.local_uid, Remotes.remote_uid"
group_by_text _ = ""

abbrev pub order_by_text : GroupBy → String
order_by_text by_contact = " ORDER BY MAX(Events.id) DESC LIMIT "
order_by_text by_uids = " ORDER BY MAX(Events.id) DESC LIMIT "
order_by_text _ = " ORDER BY Events.id DESC LIMIT "

-- The library's conversions `%d`, and SQLite's `%q` and `%Q`.
module _ (decimal : ℤ → String) (q : String → String) (quoted : String → String) where
  -- The loop over the array of an IN: a comma behind each element but the last, which has a blank.
  unfoldable pub strv_text : List String → String
  strv_text [] = ""
  strv_text (s ∷ []) = quoted s ++ " "
  strv_text (s ∷ t ∷ rest) = quoted s ++ ("," ++ strv_text (t ∷ rest))

  abbrev pub compared : String → String → Option String → Option String
  compared column value none = none
  compared column value (some o) = some (column ++ (" " ++ (o ++ (" " ++ value))))

  abbrev pub text_clause : String → Condition → Op → Option String
  text_clause column c str_like = some (column ++ (" LIKE '%" ++ (q c.text ++ "%'")))
  text_clause column c in_strv = some (column ++ (" IN (" ++ (strv_text c.strv ++ ")")))
  text_clause column c str_ends_with = some (column ++ (" LIKE '%" ++ (q c.text ++ "'")))
  text_clause column c op = compared column (quoted c.text) (build_operator op)

  abbrev pub clause_of : Condition → Option EventField → Option String
  clause_of c none = none
  clause_of c (some f) = elim f.type [
    | int ↦ compared f.column (decimal c.number) (build_operator c.op)
    | boolean ↦ compared f.column (decimal c.number) (build_operator c.op)
    | chars ↦ text_clause f.column c c.op
  ]

  -- `g_return_val_if_fail (priv->el, FALSE)`
  abbrev pub for_el : Bool → Option String → Option String
  for_el true o = o
  for_el false o = none

  abbrev pub appended : String → Option String → Option String
  appended acc none = none
  appended acc (some s) = some (acc ++ s)

  -- `_build_where_clause`: the text with the clause behind it, or FALSE
  unfoldable pub build_where_clause : Bool → Condition → String → Option String
  build_where_clause has_el c acc =
      appended acc (for_el has_el (clause_of c (find_field c.key fields)))

  -- The loop of `rtcom_el_query_prepare`.
  abbrev pub separated : List Condition → String → String
  separated [] acc = acc
  separated (c ∷ cs) acc = acc ++ " AND "

  unfoldable pub where_loop : Bool → List Condition → String → Option String
  where_loop has_el [] acc = some acc
  where_loop has_el (c ∷ cs) acc = elim (build_where_clause has_el c acc) [
    | none ↦ none
    | some acc' ↦ where_loop has_el cs (separated cs acc')
  ]

  -- `rtcom_el_query_refresh`
  unfoldable pub refresh : Query → Query
  refresh query = record query {
    sql = some (
        "SELECT "
        ++ (selection_of fields
            ++ (tables_of query.group_by
                ++ (where_text query.where_clause
                    ++ (group_by_text query.group_by
                        ++ (order_by_text query.group_by
                            ++ (decimal query.limit
                                ++ (" OFFSET " ++ (decimal query.offset ++ ";")))))))));
  }

  abbrev pub prepared : Query → Option String → Bool × Query
  prepared query none = (false, record query { sql = none; where_clause = none })
  prepared query (some w) = (true, refresh (record query { where_clause = some w }))

  -- `rtcom_el_query_prepare`
  unfoldable pub prepare : Query → List Condition → Bool × Query
  prepare query [] = (true, refresh (record query { where_clause = none }))
  prepare query (c ∷ cs) = prepared query (where_loop query.has_el (c ∷ cs) "")

-- ===== src/Storage/Events.antt =====
-- The `events` table: queries, counts and the retention cleanup of repositories.py.
pub mod Laws
pub mod Retention
use threadlens.Prelude.{
  ℕ, zero, suc, ◌-◌, ◌*◌, Bool, true, ◌&&◌, String, Option, none, some, List, [], ◌∷◌, ◌++◌, ◌==◌,
  ltb, leb, not, if◌then◌else◌, contains, filterb, count_if, length,
}
use threadlens.Model.Events.{Event, source_value, severity_value, subject_value}

-- The keyword arguments of `get_events` and `count_events`; an empty list is no condition.
pub record EventQuery : Type 0 where
  pub subject_type : Option String
  pub subject_id : Option String
  pub source_type : Option String
  pub source_id : Option String
  pub event_type : Option String
  pub event_types : List String
  pub severity : Option String
  pub severities : List String
  pub since : Option ℕ
  pub until : Option ℕ

abbrev pub any_event : EventQuery
any_event = record {
  subject_type = none;
  subject_id = none;
  source_type = none;
  source_id = none;
  event_type = none;
  event_types = [];
  severity = none;
  severities = [];
  since = none;
  until = none;
}

-- `if x is not None: clauses.append("column = ?")`
unfoldable pub equals : Option String → String → Bool
equals none column = true
equals (some x) column = column == x

-- `if xs: clauses.append("column IN (…)")`
one_of : List String → String → Bool
one_of [] column = true
one_of (x ∷ xs) column = contains column (x ∷ xs)

unfoldable pub at_least : Option ℕ → ℕ → Bool
at_least none column = true
at_least (some x) column = leb x column

unfoldable pub at_most : Option ℕ → ℕ → Bool
at_most none column = true
at_most (some x) column = leb column x

-- the WHERE clause: the conditions on the columns but `timestamp`, and on `timestamp`
columns_match : EventQuery → Event → Bool
columns_match q e =
    equals q.subject_type (subject_value e.subject_type)
    && (equals q.subject_id e.subject_id
        && (equals q.source_type (source_value e.source_type)
            && (equals q.source_id e.source_id
                && (equals q.event_type e.event_type
                    && (one_of q.event_types e.event_type
                        && (equals q.severity (severity_value e.severity)
                            && one_of q.severities (severity_value e.severity)))))))

in_window : EventQuery → Event → Bool
in_window q e = at_least q.since e.timestamp && at_most q.until e.timestamp

unfoldable pub matches : EventQuery → Event → Bool
unfolding equals one_of at_least at_most columns_match in_window
matches q e = columns_match q e && in_window q e

-- ORDER BY timestamp ASC
insert_by_time : Event → List Event → List Event
insert_by_time e [] = e ∷ []
insert_by_time e (x ∷ xs) =
    if leb e.timestamp x.timestamp then e ∷ x ∷ xs else x ∷ insert_by_time e xs

order_by_time : List Event → List Event
order_by_time [] = []
order_by_time (e ∷ es) = insert_by_time e (order_by_time es)

take : ℕ → List Event → List Event
take zero es = []
take (suc n) [] = []
take (suc n) (e ∷ es) = e ∷ take n es

limited : Option ℕ → List Event → List Event
limited none es = es
limited (some n) es = take n es

unfoldable pub insert_event : Event → List Event → List Event
insert_event e table = table ++ e ∷ []

-- `event_types`, `severity` and `severities` are arguments of `count_events` alone.
unfoldable pub get_events : EventQuery → Option ℕ → List Event → List Event
unfolding matches insert_by_time order_by_time take limited
get_events q limit table = limited limit (order_by_time (filterb (matches q) table))

unfoldable pub count_events : EventQuery → List Event → ℕ
unfolding matches
count_events q table = count_if (matches q) table

-- DELETE FROM events WHERE timestamp < ?, with the number of rows deleted
unfoldable pub delete_events_before : ℕ → List Event → List Event × ℕ
delete_events_before cutoff table = (
  filterb (λ e. not (ltb e.timestamp cutoff)) table,
  count_if (λ e. ltb e.timestamp cutoff) table,
)

abbrev pub day : ℕ
day = 24 * 60 * 60 * 1_000_000

unfoldable pub cleanup_events : ℕ → ℕ → List Event → List Event × ℕ
unfolding delete_events_before
cleanup_events now retention_days table = delete_events_before (now - retention_days * day) table

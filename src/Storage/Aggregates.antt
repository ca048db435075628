-- ===== src/Storage/Aggregates.antt =====
-- The `aggregates` and `metadata` tables of threadlens/storage/repositories.py. The data of a row is
-- its JSON text, "{}" where none is given; an amount is a natural number.
pub mod Laws
use threadlens.Prelude.{
  ℕ, ◌+◌, Bool, true, ◌&&◌, String, Option, none, some, List, [], ◌∷◌, ◌==◌, leb, if◌then◌else◌,
  filterb,
}
use threadlens.Prelude.Codes.{eq_ℕ}
use threadlens.Storage.Events.{equals, at_least, at_most}
use threadlens.Storage.Table.{Table, upsert_current_state, get_current_state}

-- the primary key
pub record Bucket : Type 0 where
  pub bucket_start : ℕ
  pub bucket_size : String
  pub metric : String
  pub subject_type : String
  pub subject_id : String

pub record Aggregate : Type 0 where
  pub bucket : Bucket
  pub count : ℕ
  pub data_json : String

unfoldable pub same_bucket : Bucket → Bucket → Bool
same_bucket a b =
    eq_ℕ a.bucket_start b.bucket_start
    && (a.bucket_size == b.bucket_size
        && (a.metric == b.metric
            && (a.subject_type == b.subject_type && a.subject_id == b.subject_id)))

-- DO UPDATE SET count = …, data_json = CASE …
unfoldable pub add_to : Aggregate → ℕ → String → Aggregate
add_to row amount data_json = record row {
  count = row.count + amount;
  data_json = if data_json == "{}" then row.data_json else data_json;
}

unfoldable pub increment_aggregate : Bucket → ℕ → String → List Aggregate → List Aggregate
unfolding same_bucket add_to
increment_aggregate bucket amount data_json [] =
    record { bucket = bucket; count = amount; data_json = data_json } ∷ []
increment_aggregate bucket amount data_json (row ∷ rows) =
    let rest = increment_aggregate bucket amount data_json rows in
    if same_bucket bucket row.bucket then add_to row amount data_json ∷ rows else row ∷ rest

-- The keyword arguments of `get_aggregates`.
pub record AggregateQuery : Type 0 where
  pub bucket_size : Option String
  pub metric : Option String
  pub subject_type : Option String
  pub subject_id : Option String
  pub since : Option ℕ
  pub until : Option ℕ

unfoldable pub selects : AggregateQuery → Bucket → Bool
unfolding equals at_least at_most
selects q b =
    equals q.bucket_size b.bucket_size
    && (equals q.metric b.metric
        && (equals q.subject_type b.subject_type
            && (equals q.subject_id b.subject_id
                && (at_least q.since b.bucket_start && at_most q.until b.bucket_start))))

-- ORDER BY bucket_start ASC
insert_by_start : Aggregate → List Aggregate → List Aggregate
insert_by_start r [] = r ∷ []
insert_by_start r (s ∷ rows) =
    let rest = insert_by_start r rows in
    if leb r.bucket.bucket_start s.bucket.bucket_start then r ∷ s ∷ rows else s ∷ rest

order_by_start : List Aggregate → List Aggregate
unfolding insert_by_start
order_by_start [] = []
order_by_start (r ∷ rows) = insert_by_start r (order_by_start rows)

unfoldable pub get_aggregates : AggregateQuery → List Aggregate → List Aggregate
unfolding selects order_by_start
get_aggregates q rows = order_by_start (filterb (λ r. selects q r.bucket) rows)

-- The metadata table has the values as JSON texts.
unfoldable pub set_metadata : String → String → Table String → Table String
unfolding upsert_current_state
set_metadata key value rows = upsert_current_state key value rows

unfoldable pub get_metadata : String → Table String → Option String
unfolding get_current_state
get_metadata key rows = get_current_state key rows

-- ===== src/Storage/Aggregates/Laws.antt =====
-- What an increment adds to the sums that a query reads.
use threadlens.Prelude.{
  ℕ, ◌+◌, ◌≡◌, ◌∙◌, refl, ap, sym, true, String, List, [], ◌∷◌, eq_iff, arith, if◌then◌else◌,
  filterb, Bool-cases, inl, inr, leb,
}
use threadlens.Storage.Aggregates.{
  Bucket, Aggregate, AggregateQuery, same_bucket, add_to, increment_aggregate, selects,
  insert_by_start, order_by_start, get_aggregates,
}

-- The sum of the counts of some rows.
abbrev pub total : List Aggregate → ℕ
total [] = 0
total (r ∷ rows) = r.count + total rows

total-insert :
    (r : Aggregate) (rows : List Aggregate) → total (insert_by_start r rows) ≡ r.count + total rows
unfolding insert_by_start
total-insert r [] = omega arith
total-insert r (s ∷ rows) = elim (Bool-cases (leb r.bucket.bucket_start s.bucket.bucket_start)) [
  | inl first ↦ rw first
  | inr later ↦ rw later (omega (arith, total-insert r rows))
]

total-order : (rows : List Aggregate) → total (order_by_start rows) ≡ total rows
unfolding order_by_start
total-order [] = refl
total-order (r ∷ rows) = omega (arith, total-insert r (order_by_start rows), total-order rows)

bucket_path : (a b : Bucket) → same_bucket a b ≡ true → a ≡ b
unfolding same_bucket
bucket_path a b h = λ i. record {
  bucket_start = p0 i;
  bucket_size = p1 i;
  metric = p2 i;
  subject_type = p3 i;
  subject_id = p4 i;
}
  where
    p0 : a.bucket_start ≡ b.bucket_start
    p0 = ground arith

    p1 : a.bucket_size ≡ b.bucket_size
    p1 = ground (arith, eq_iff a.bucket_size b.bucket_size)

    p2 : a.metric ≡ b.metric
    p2 = ground (arith, eq_iff a.metric b.metric)

    p3 : a.subject_type ≡ b.subject_type
    p3 = ground (arith, eq_iff a.subject_type b.subject_type)

    p4 : a.subject_id ≡ b.subject_id
    p4 = ground (arith, eq_iff a.subject_id b.subject_id)

abbrev chosen : AggregateQuery → List Aggregate → List Aggregate
chosen q rows = filterb (λ r. selects q r.bucket) rows

total-increment :
    (q : AggregateQuery) (b : Bucket) (n : ℕ) (d : String) (rows : List Aggregate)
    → total (chosen q (increment_aggregate b n d rows))
      ≡ total (chosen q rows) + (if selects q b then n else 0)
unfolding increment_aggregate add_to
total-increment q b n d [] = elim (Bool-cases (selects q b)) [
  | inl y ↦ rw y (omega arith)
  | inr z ↦ rw z refl
]
total-increment q b n d (r ∷ rows) = elim (Bool-cases (same_bucket b r.bucket)) [
  | inl same ↦ rw same (elim (Bool-cases (selects q r.bucket)) [
    | inl y ↦ rw (y, ap (selects q) (bucket_path b r.bucket same) ∙ y) (omega arith)
    | inr z ↦ rw (z, ap (selects q) (bucket_path b r.bucket same) ∙ z) (omega arith)
  ])
  | inr other ↦ rw other (elim (Bool-cases (selects q r.bucket)) [
    | inl y ↦ rw y (omega (arith, total-increment q b n d rows))
    | inr z ↦ rw z (total-increment q b n d rows)
  ])
]

-- An increment adds its amount to the sum of the counts that a query returns if the query selects
-- its bucket, and nothing otherwise, whether the bucket is new or not.
pub total-get_aggregates :
    (q : AggregateQuery) (b : Bucket) (amount : ℕ) (data_json : String) (rows : List Aggregate)
    → total (get_aggregates q (increment_aggregate b amount data_json rows))
      ≡ total (get_aggregates q rows) + (if selects q b then amount else 0)
unfolding get_aggregates
total-get_aggregates q b n d rows =
    total-order (chosen q (increment_aggregate b n d rows))
    ∙ total-increment q b n d rows
    ∙ ap (λ t. t + (if selects q b then n else 0)) (sym (total-order (chosen q rows)))

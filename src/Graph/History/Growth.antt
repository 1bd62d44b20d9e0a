-- ===== src/Graph/History/Growth.antt =====
-- With a cap on events the file does not grow without bound.
use community_overview.Base.{
  ℕ, ◌+◌, ◌-◌, ◌≤◌, ◌<◌, ◌≡◌, ap, inl, inr, true, Bool-cases, Option, none, some, List, [], ◌∷◌,
  ◌++◌, arith, ltb, leb, nat_eq, length, length-append, All,
}
use community_overview.Base.Sequences.{length-drop}
use community_overview.Json.{ℤ, pos, negsuc}
use community_overview.Graph.History.{
  HistoryRecord, GraphHistoryStore, HistoryEnv, positive, at_least_one, interval_of, open_store,
  read_lines, read_all, keep_young, keep_newest, apply_retention, compacted_lines, compact_locked,
  count_append, compact_when_due, append_record, retention_enabled,
}
use community_overview.Graph.History.Pages.{append_all, read_lines-append, compacted_lines-cases}

keep_newest-le : (m : ℕ) (rs : List HistoryRecord) → length (keep_newest (some m) rs) ≤ m
unfolding keep_newest
keep_newest-le m rs = elim (Bool-cases (ltb m (length rs))) [
  | inr z ↦ rw z (ground (arith, z))
  | inl z ↦
      let many : m ≤ length rs = ground (arith, z) in
      rw z (omega (arith, length-drop (length rs - m) rs (omega arith), many))
]

at_least_one-ge : (n : ℤ) → 1 ≤ at_least_one n
unfolding at_least_one
at_least_one-ge (pos n) = omega arith
at_least_one-ge (negsuc n) = omega arith

interval_of-ge : (n : Option ℤ) (m : Option ℕ) → 1 ≤ interval_of n m
unfolding interval_of
interval_of-ge (some n) m = at_least_one-ge n
interval_of-ge none (some m) = omega arith
interval_of-ge none none = omega arith

-- Between two compactions each append adds one record.
record IsBounded (m interval : ℕ) (st : GraphHistoryStore) : Type 0 where
  events : st.max_events ≡ some m
  due : st.compaction_interval ≡ interval
  size : length (read_all st) ≤ m + st.appends_since_compaction
  counted : st.appends_since_compaction < interval

compact_locked-size :
    (m : ℕ) (env : HistoryEnv) (st : GraphHistoryStore)
    → st.max_events ≡ some m
    → env.rewritten ≡ true
    → length (read_lines (compacted_lines env st)) ≤ m
unfolding apply_retention
compact_locked-size m env st e ok =
    let rs = keep_young env st.max_age (read_all st) in
    let small : length (apply_retention env st (read_all st)) ≤ m =
      simp (e) (keep_newest-le m rs) in
    elim (compacted_lines-cases env st) [
      | inr out ↦ rw out small
      | inl (out, why) ↦ elim why [
        | inl same ↦ rw out (omega (arith, same, small))
        | inr failed ↦ ground (arith, ok, failed)
      ]
    ]

append_record-IsBounded :
    (m interval : ℕ) (env : HistoryEnv) (r : HistoryRecord) (st : GraphHistoryStore)
    → 1 ≤ interval
    → env.rewritten ≡ true
    → IsBounded m interval st
    → IsBounded m interval (append_record env r st)
unfolding append_record compact_when_due count_append compact_locked
append_record-IsBounded m interval env r st one ok b =
    let st' = count_append (record st { lines = st.lines ++ (some r ∷ []) }) in
    let on : retention_enabled st ≡ true = ground (arith, b.events) in
    let grown : length (read_all st') ≡ length (read_all st) + 1 =
      rw (read_lines-append st.lines r) (omega (arith, length-append (read_all st) (r ∷ []))) in
    elim (Bool-cases (leb st'.compaction_interval st'.appends_since_compaction)) [
      | inl z ↦
          simp (on, z)
            (record {
              events = b.events;
              due = b.due;
              size = omega (arith, compact_locked-size m env st' b.events ok);
              counted = omega (arith, one);
            })
      | inr z ↦
          simp (on, z)
            (record {
              events = b.events;
              due = b.due;
              size = omega (arith, grown, b.size);
              counted = ground (arith, z, b.due);
            })
    ]

append_all-IsBounded :
    (m interval : ℕ) (es : List (HistoryEnv × HistoryRecord)) (st : GraphHistoryStore)
    → 1 ≤ interval
    → All (λ e. e.0.rewritten ≡ true) es
    → IsBounded m interval st
    → IsBounded m interval (append_all es st)
append_all-IsBounded m interval [] st one ok b = b
append_all-IsBounded m interval ((env, r) ∷ es) st one ok b =
    append_all-IsBounded m interval es (append_record env r st) one ok.1
      (append_record-IsBounded m interval env r st one ok.0 b)

-- With a cap of at least one event, a file that starts within the cap and rewrites that all
-- succeed, the file has after any appends fewer records than the cap and the compaction interval
-- together.
pub length-append_all-lt :
    (m : ℕ) (lines : List (Option HistoryRecord)) (max_age interval : Option ℤ)
    (es : List (HistoryEnv × HistoryRecord))
    → 1 ≤ m
    → length (read_lines lines) ≤ m
    → All (λ e. e.0.rewritten ≡ true) es
    → length (read_all (append_all es (open_store lines (some (pos m)) max_age interval)))
      < m + interval_of interval (some m)
unfolding open_store positive
length-append_all-lt m lines max_age interval es some_m few ok =
    let at : positive (some (pos m)) ≡ some m = ground (arith, some_m) in
    let n = interval_of interval (some m) in
    let st = open_store lines (some (pos m)) max_age interval in
    let start : IsBounded m n st = record {
      events = at;
      due = ap (interval_of interval) at;
      size = omega (arith, few);
      counted = omega (arith, interval_of-ge interval (some m));
    } in
    let b = append_all-IsBounded m n es st (interval_of-ge interval (some m)) ok start in
    omega (arith, b.size, b.counted)

-- ===== src/Graph/History/Pages.antt =====
-- Trimming never shows in the pages of the newest records.
use community_overview.Base.{
  ℕ, ◌+◌, ◌-◌, ◌≤◌, ◌≡◌, refl, ap, sym, ◌∙◌, ◌⊎◌, inl, inr, true, false, Bool-cases, Option, none,
  some, List, [], ◌∷◌, ◌++◌, arith, ltb, leb, ◌==◌, nat_eq, length, length-append,
}
use community_overview.Base.Sequences.{
  take, drop, reverse, reverse-append, length-reverse, length-drop, take-drop, append_assoc,
  append-nil, slice-append,
}
use community_overview.Json.{ℤ, pos}
use community_overview.Graph.History.{
  HistoryRecord, GraphHistoryStore, HistoryEnv, positive, open_store, read_lines, read_all,
  keep_young, keep_newest, apply_retention, lines_of, compacted_lines, compact_locked, count_append,
  compact_when_due, append_record, clamp, paginate, get_recent, retention_enabled,
}

abbrev pub append_all : List (HistoryEnv × HistoryRecord) → GraphHistoryStore → GraphHistoryStore
append_all [] st = st
append_all ((env, r) ∷ es) st = append_all es (append_record env r st)

abbrev pub records_of : List (HistoryEnv × HistoryRecord) → List HistoryRecord
records_of [] = []
records_of ((env, r) ∷ es) = r ∷ records_of es

pub read_lines-append :
    (ls : List (Option HistoryRecord)) (r : HistoryRecord)
    → read_lines (ls ++ (some r ∷ [])) ≡ read_lines ls ++ (r ∷ [])
unfolding read_lines
read_lines-append [] r = refl
read_lines-append (none ∷ ls) r = read_lines-append ls r
read_lines-append (some q ∷ ls) r = ap (λ x. q ∷ x) (read_lines-append ls r)

pub read_lines-lines_of : (rs : List HistoryRecord) → read_lines (lines_of rs) ≡ rs
unfolding read_lines lines_of
read_lines-lines_of [] = refl
read_lines-lines_of (r ∷ rs) = ap (λ x. r ∷ x) (read_lines-lines_of rs)

-- The file has the end of the whole history, and enough of it.
record IsTail (m : ℕ) (full : List HistoryRecord) (st : GraphHistoryStore) : Type 0 where
  events : st.max_events ≡ some m
  age : st.max_age ≡ none
  older : List HistoryRecord
  whole : full ≡ older ++ read_all st
  enough : (older ≡ []) ⊎ (m ≤ length (read_all st))

written-IsTail :
    (m : ℕ) (full : List HistoryRecord) (r : HistoryRecord) (st : GraphHistoryStore)
    → IsTail m full st
    → IsTail m (full ++ (r ∷ [])) (count_append (record st { lines = st.lines ++ (some r ∷ []) }))
unfolding count_append
written-IsTail m full r st t = record {
  events = t.events;
  age = t.age;
  older = t.older;
  whole =
      ap (λ x. x ++ (r ∷ [])) t.whole
      ∙ (append_assoc t.older (read_all st) (r ∷ [])
          ∙ ap (λ x. t.older ++ x) (sym (read_lines-append st.lines r)));
  enough = elim t.enough [
    | inl e ↦ inl e
    | inr h ↦
        inr (
          rw (read_lines-append st.lines r)
            (omega (arith, h, length-append (read_all st) (r ∷ []))))
  ];
}

-- A compaction leaves the records as they are, or what retention keeps of them.
pub compacted_lines-cases :
    (env : HistoryEnv) (st : GraphHistoryStore)
    → (read_lines (compacted_lines env st) ≡ read_all st)
        × ((length (apply_retention env st (read_all st)) ≡ length (read_all st))
            ⊎ (env.rewritten ≡ false))
      ⊎ (read_lines (compacted_lines env st) ≡ apply_retention env st (read_all st))
unfolding compacted_lines
compacted_lines-cases env st =
    let kept = apply_retention env st (read_all st) in
    elim (Bool-cases (length kept == length (read_all st))) [
      | inl z ↦ inl (rw z refl, inl (ground (arith, z)))
      | inr z ↦ elim (Bool-cases env.rewritten) [
        | inr y ↦ inl (rw (z, y) refl, inr y)
        | inl y ↦ inr (simp (z, y) (read_lines-lines_of kept))
      ]
    ]

apply_retention_plain :
    (m : ℕ) (env : HistoryEnv) (st : GraphHistoryStore) (rs : List HistoryRecord)
    → st.max_events ≡ some m
    → st.max_age ≡ none
    → apply_retention env st rs ≡ keep_newest (some m) rs
unfolding apply_retention keep_young
apply_retention_plain m env st rs e a = simp (e, a)

keep_newest-cases :
    (m : ℕ) (rs : List HistoryRecord)
    → (keep_newest (some m) rs ≡ rs)
      ⊎ ((keep_newest (some m) rs ≡ drop (length rs - m) rs) × (m ≤ length rs))
unfolding keep_newest
keep_newest-cases m rs = elim (Bool-cases (ltb m (length rs))) [
  | inr z ↦ inl (rw z refl)
  | inl z ↦ inr (rw z refl, ground (arith, z))
]

compact_locked-IsTail :
    (m : ℕ) (env : HistoryEnv) (full : List HistoryRecord) (st : GraphHistoryStore)
    → IsTail m full st
    → IsTail m full (compact_locked env st)
unfolding compact_locked
compact_locked-IsTail m env full st t =
    let rs = read_all st in
    let out = read_lines (compacted_lines env st) in
    let same : out ≡ rs → IsTail m full (compact_locked env st) = λ e. record {
      events = t.events;
      age = t.age;
      older = t.older;
      whole = rw e t.whole;
      enough = rw e t.enough;
    } in
    elim (compacted_lines-cases env st) [
      | inl e ↦ same e.0
      | inr e ↦
          let plain = e ∙ apply_retention_plain m env st rs t.events t.age in
          elim (keep_newest-cases m rs) [
            | inl k ↦ same (plain ∙ k)
            | inr (k, many) ↦
                let cut = length rs - m in
                record {
                  events = t.events;
                  age = t.age;
                  older = t.older ++ take cut rs;
                  whole = rw (plain ∙ k) (
                      t.whole
                      ∙ (ap (λ x. t.older ++ x) (sym (take-drop cut rs))
                          ∙ sym (append_assoc t.older (take cut rs) (drop cut rs))));
                  enough = inr (
                      rw (plain ∙ k)
                        (omega (arith, length-drop cut rs (omega (arith, many)), many)));
                }
          ]
    ]

append_record-IsTail :
    (m : ℕ) (env : HistoryEnv) (full : List HistoryRecord) (r : HistoryRecord)
    (st : GraphHistoryStore)
    → IsTail m full st
    → IsTail m (full ++ (r ∷ [])) (append_record env r st)
unfolding append_record compact_when_due count_append
append_record-IsTail m env full r st t =
    let st' = count_append (record st { lines = st.lines ++ (some r ∷ []) }) in
    let grown = written-IsTail m full r st t in
    let on : retention_enabled st ≡ true = ground (arith, t.events) in
    elim (Bool-cases (leb st'.compaction_interval st'.appends_since_compaction)) [
      | inl z ↦ simp (on, z) (compact_locked-IsTail m env (full ++ (r ∷ [])) st' grown)
      | inr z ↦ simp (on, z) grown
    ]

append_all-IsTail :
    (m : ℕ) (es : List (HistoryEnv × HistoryRecord)) (full : List HistoryRecord)
    (st : GraphHistoryStore)
    → IsTail m full st
    → IsTail m (full ++ records_of es) (append_all es st)
append_all-IsTail m [] full st t = rw (append-nil full) t
append_all-IsTail m ((env, r) ∷ es) full st t =
    rw (sym (append_assoc full (r ∷ []) (records_of es))) (
      append_all-IsTail m es (full ++ (r ∷ [])) (append_record env r st)
        (append_record-IsTail m env full r st t))

-- With a cap of at least one event, no cap on age, and any sequence of appends, whether or not the
-- rewrites of the file succeed, a page that ends within the cap is the page of the whole history,
-- newest first, as though nothing had been trimmed.
pub get_recent-untrimmed :
    (m : ℕ) (lines : List (Option HistoryRecord)) (interval : Option ℤ)
    (es : List (HistoryEnv × HistoryRecord)) (limit offset : ℤ)
    → 1 ≤ m
    → clamp limit + clamp offset ≤ m
    → get_recent limit offset (append_all es (open_store lines (some (pos m)) none interval))
      ≡ paginate (reverse (read_lines lines ++ records_of es)) limit offset
unfolding get_recent paginate open_store positive
get_recent-untrimmed m lines interval es limit offset some_m short =
    let st = open_store lines (some (pos m)) none interval in
    let start : IsTail m (read_lines lines) st = record {
      events = ground (arith, some_m);
      age = refl;
      older = [];
      whole = refl;
      enough = inl refl;
    } in
    let t = append_all-IsTail m es (read_lines lines) st start in
    let rs = read_all (append_all es st) in
    let full : reverse (read_lines lines ++ records_of es) ≡ reverse rs ++ reverse t.older =
      ap reverse t.whole ∙ reverse-append t.older rs in
    rw full (elim t.enough [
      | inl e ↦ rw (e, append-nil (reverse rs)) refl
      | inr h ↦ sym (
          slice-append (clamp limit) (clamp offset) (reverse rs) (reverse t.older)
            (omega (arith, length-reverse rs, h, short)))
    ])

-- ===== src/Session/Presence/Colors.antt =====
-- A newcomer's colour is one that nobody on the roster has, as long as there is one.
use community_overview.Base.{
  ℕ, zero, suc, ◌+◌, ◌-◌, ◌%◌, ◌<◌, String, ◌≡◌, refl, ◌≢◌, true, false, Option, none, some, List,
  [], ◌∷◌, arith, string_eq, contains, length, Option-cases, inl, inr,
}
use community_overview.Base.Dict
use community_overview.Base.Dict.{Dict, values}
use community_overview.Base.Distinct.{Distinct, AllIn, pigeonhole}
use community_overview.Session.Presence.{
  Member, PresenceRegistry, presence_colors, color_at, colors_of, search_color, assign_color,
  roster_of, cursor_of, color_for, join,
}

-- A search that finds nothing has seen every colour in use, from the cursor on.
search_color_fails :
    (tries : ℕ) (used : List String) (cursor k : ℕ)
    → (search_color tries used cursor).0 ≡ none
    → k < tries
    → contains used (color_at presence_colors ((cursor + k) % 10)) ≡ true
unfolding search_color
search_color_fails zero used cursor k h lt = absurd (omega arith)
search_color_fails (suc tries) used cursor zero h lt =
    let e : (cursor + 0) % 10 ≡ cursor % 10 = omega arith in rw e (ground arith)
search_color_fails (suc tries) used cursor (suc k) h lt =
    let e : (cursor + suc k) % 10 ≡ (cursor % 10 + 1 + k) % 10 = omega arith in
    rw e (search_color_fails tries used (cursor % 10 + 1) k (ground arith) (omega arith))

search_color_unused :
    (tries : ℕ) (used : List String) (cursor : ℕ) (color : String)
    → (search_color tries used cursor).0 ≡ some color
    → contains used color ≡ false
unfolding search_color
search_color_unused zero used cursor color h = cc
search_color_unused (suc tries) used cursor color h =
    ground (arith, search_color_unused tries used (cursor % 10 + 1) color)

colors_Distinct : Distinct presence_colors
unfolding string_eq
colors_Distinct = (refl, (refl, (refl, (refl, (refl, (refl, (refl, (refl, (refl, (refl, tt))))))))))

-- A search through the whole palette that finds nothing has seen each colour in use.
search_color_exhausts :
    (used : List String) (cursor i : ℕ)
    → (search_color 10 used cursor).0 ≡ none
    → i < 10
    → contains used (color_at presence_colors i) ≡ true
search_color_exhausts used cursor i h lt =
    let k : ℕ = (i + 10 - cursor % 10) % 10 in
    let e : (cursor + k) % 10 ≡ i = omega arith in
    rw e at (search_color_fails 10 used cursor k h (omega arith))

search_color_finds :
    (used : List String) (cursor : ℕ)
    → length used < length presence_colors
    → (search_color 10 used cursor).0 ≢ none
unfolding color_at
search_color_finds used cursor few h =
    let seen : (i : ℕ) → i < 10 → contains used (color_at presence_colors i) ≡ true =
      λ i. search_color_exhausts used cursor i h in
    let all : AllIn presence_colors used = (
      seen 0 (omega arith),
      (
        seen 1 (omega arith),
        (
          seen 2 (omega arith),
          (
            seen 3 (omega arith),
            (
              seen 4 (omega arith),
              (
                seen 5 (omega arith),
                (
                  seen 6 (omega arith),
                  (seen 7 (omega arith), (seen 8 (omega arith), (seen 9 (omega arith), tt))),
                ),
              ),
            ),
          ),
        ),
      ),
    ) in
    absurd (omega (arith, pigeonhole presence_colors used colors_Distinct all))

assign_color_unused :
    (used : List String) (cursor : ℕ)
    → length used < length presence_colors
    → contains used (assign_color used cursor).0 ≡ false
unfolding assign_color
assign_color_unused used cursor few = elim (Option-cases (search_color 10 used cursor).0) [
  | inl e ↦ absurd (search_color_finds used cursor few e)
  | inr (color, e) ↦ rw (e, assign_color) (search_color_unused 10 used cursor color e)
]

length-colors_of : (d : Dict String Member) → length (colors_of (values d)) ≡ length d
unfolding colors_of
length-colors_of [] = refl
length-colors_of (e ∷ d) = omega (arith, length-colors_of d)

-- A client that joins a session where it is not yet, with fewer than ten members, gets a colour
-- that no member has; one that is there keeps its colour.
pub color-join :
    (show : ℕ → String) (sid client : String) (name : Option String) (p : PresenceRegistry)
    → (Dict.get client (roster_of sid p) ≡ none
        → length (roster_of sid p) < length presence_colors
        → contains (colors_of (values (roster_of sid p))) (join show sid client name p).0.color
          ≡ false)
      × ((m : Member)
          → Dict.get client (roster_of sid p) ≡ some m
          → (join show sid client name p).0.color ≡ m.color)
unfolding join color_for
color-join show sid client name p = (
  λ e few.
      rw (e, color_for)
        (assign_color_unused (colors_of (values (roster_of sid p))) (cursor_of sid p)
          (omega (arith, length-colors_of (roster_of sid p)))),
  λ m e. rw (e, color_for) refl,
)

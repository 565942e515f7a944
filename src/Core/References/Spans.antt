-- ===== src/Core/References/Spans.antt =====
-- The spans of declarations and what encloses a line: `enclosing_chain`, `span_at`,
-- `declaration_starting_at` of crates/ktsense-core/src/references.rs.
use ktsense.Prelude.{
  ℕ, ◌<◌, ◌≤◌, ◌≡◌, ◌⊎◌, refl, ap, Bool, true, false, ◌||◌, Bool-cases, inl, inr, Option, none,
  some, List, [], ◌∷◌, arith, leb, ◌==◌, if◌then◌else◌,
}
use ktsense.Core.References.{
  Declaration, Declarations, nil, cons, FileSkeleton, DeclarationSpan, span_end, reaches, spans,
  enclosing_chain, if_none, inner_or_here, span_at, declaration_span_at, last_starting_at,
  declaration_starting_at,
}

abbrev FollowedBy : Declaration → Declarations → Type 0
FollowedBy d nil = Unit
FollowedBy d (cons next children siblings) = d.line ≤ next.line

-- Siblings stand in the order of their lines, on every level.
abbrev pub Ascending : Declarations → Type 0
Ascending nil = Unit
Ascending (cons d children siblings) =
    FollowedBy d siblings × (Ascending children × Ascending siblings)

abbrev pub starts_by : Declarations → ℕ → Bool
starts_by nil line = false
starts_by (cons d children siblings) line = leb d.line line || starts_by siblings line

-- The last declaration of the list that starts at the line or before it, and so on among its children.
unfoldable pub last_started : Declarations → ℕ → List Declaration
last_started nil line = []
last_started (cons d children siblings) line =
    let inner = last_started children line in
    let later = last_started siblings line in
    if starts_by siblings line then later else if leb d.line line then d ∷ inner else []

starts_by_from :
    (d : Declaration) (siblings : Declarations) (line : ℕ)
    → FollowedBy d siblings
    → Ascending siblings
    → line < d.line
    → starts_by siblings line ≡ false
starts_by_from d nil line f a h = refl
starts_by_from d (cons next children siblings) line f a h =
    ground (arith, starts_by_from next siblings line a.0 a.1.1)

enclosing_chain-unstarted :
    (ds : Declarations) (line : ℕ) (end : Option ℕ)
    → starts_by ds line ≡ false
    → enclosing_chain ds line end ≡ []
unfolding enclosing_chain
enclosing_chain-unstarted nil line end h = refl
enclosing_chain-unstarted (cons d children siblings) line end h =
    ground (arith, enclosing_chain-unstarted siblings line end)

-- Either a later sibling starts by the line, and the declaration does not span it, or none does, and
-- the declaration spans the line if it starts by it.
either_started :
    (d : Declaration) (siblings : Declarations) (line : ℕ) (end : Option ℕ)
    → FollowedBy d siblings
    → Ascending siblings
    → 0 < line
    → reaches end line ≡ true
    → ((starts_by siblings line ≡ true) × (spans d (span_end siblings end) line ≡ false))
      ⊎ ((starts_by siblings line ≡ false)
          × ((spans d (span_end siblings end) line ≡ leb d.line line)
              × (reaches (span_end siblings end) line ≡ true)))
either_started d nil line end f a h r = ground arith
either_started d (cons next children siblings) line end f a h r =
    elim (Bool-cases (leb next.line line)) [
      | inl started ↦ inl (rw started refl, ground arith)
      | inr unstarted ↦ inr (
        rw unstarted (starts_by_from next siblings line a.0 a.1.1 (ground arith)),
        (ground arith, ground arith),
      )
    ]

enclosing_chain-last_started :
    (ds : Declarations) (line : ℕ) (end : Option ℕ)
    → Ascending ds
    → 0 < line
    → reaches end line ≡ true
    → enclosing_chain ds line end ≡ last_started ds line
unfolding enclosing_chain last_started
enclosing_chain-last_started nil line end a h r = refl
enclosing_chain-last_started (cons d children siblings) line end a h r =
    elim (either_started d siblings line end a.0 a.1.1 h r) [
      | inl (started, without) ↦
          rw (started, without) (enclosing_chain-last_started siblings line end a.1.1 h r)
      | inr (unstarted, (within, reached)) ↦
          rw
            (
              unstarted,
              within,
              enclosing_chain-last_started children line (span_end siblings end) a.1.0 h reached,
              enclosing_chain-unstarted siblings line end unstarted,
            )
            refl
    ]

span_at-unstarted :
    (ds : Declarations) (line : ℕ) (end : Option ℕ)
    → starts_by ds line ≡ false
    → span_at ds line end ≡ none
unfolding span_at
span_at-unstarted nil line end h = refl
span_at-unstarted (cons d children siblings) line end h =
    ground (arith, span_at-unstarted siblings line end)

-- A chain of spans, as the starts that it has.
abbrev pub start_of : Option DeclarationSpan → Option ℕ
start_of none = none
start_of (some span) = some span.start

abbrev pub line_of : Option Declaration → Option ℕ
line_of none = none
line_of (some d) = some d.line

starting_here :
    (here : Bool) (line : ℕ) (d : Declaration) (inner : Option DeclarationSpan) (end : Option ℕ)
    (found : Option Declaration)
    → here ≡ (d.line == line)
    → start_of inner ≡ line_of found
    → start_of (inner_or_here inner here (record { start = line; end = end }) none)
      ≡ line_of (if_none found here d)
starting_here here line d none end (some d') e h = cc
starting_here here line d (some inner) end none e h = cc
starting_here here line d (some inner) end (some d') e h = h
starting_here true line d none end none e h = ap some (ground arith)
starting_here false line d none end none e h = refl

-- A declaration that spans the line is not followed by one that starts by it.
unstarted_after :
    (d : Declaration) (siblings : Declarations) (line : ℕ) (end : Option ℕ)
    → Ascending siblings
    → 0 < line
    → spans d (span_end siblings end) line ≡ true
    → starts_by siblings line ≡ false
unstarted_after d nil line end a h within = refl
unstarted_after d (cons next children siblings) line end a h within =
    let behind : line < next.line = ground arith in
    ground (arith, starts_by_from next siblings line a.0 a.1.1)

span_at-starting :
    (ds : Declarations) (line : ℕ) (end : Option ℕ)
    → Ascending ds
    → 0 < line
    → start_of (span_at ds line end) ≡ line_of (last_starting_at line (enclosing_chain ds line end))
unfolding span_at enclosing_chain last_starting_at
span_at-starting nil line end a h = refl
span_at-starting (cons d children siblings) line end a h =
    elim (Bool-cases (spans d (span_end siblings end) line)) [
      | inl within ↦
          rw
            (
              within,
              span_at-unstarted siblings line end
                  (unstarted_after d siblings line end a.1.1 h within),
            )
            (starting_here (d.line == line) line d (span_at children line (span_end siblings end))
              (span_end siblings end)
              (last_starting_at line (enclosing_chain children line (span_end siblings end))) refl
              (span_at-starting children line (span_end siblings end) a.1.0 h))
      | inr without ↦ rw without (span_at-starting siblings line end a.1.1 h)
    ]

-- On a file whose siblings stand in the order of their lines, and a line from 1 on: what encloses the
-- line is found by the starts alone, as the last declaration that starts by the line, and so on among
-- its children; and the span of a declaration that starts on the line is found just when the
-- declaration is, with the same start.
pub enclosing_chain-IsExact :
    (skeleton : FileSkeleton) (line : ℕ)
    → Ascending skeleton.declarations
    → 0 < line
    → (enclosing_chain skeleton.declarations line none ≡ last_started skeleton.declarations line)
      × (start_of (declaration_span_at skeleton line)
          ≡ line_of (declaration_starting_at skeleton line))
unfolding declaration_span_at declaration_starting_at
enclosing_chain-IsExact skeleton line a h = (
  enclosing_chain-last_started skeleton.declarations line none a h refl,
  span_at-starting skeleton.declarations line none a h,
)

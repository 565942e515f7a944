-- ===== src/Mcp/Roots/Resolve.antt =====
-- The root that a call gets: `ClientRoots::resolve` of crates/ktsense-mcp/src/roots.rs.
use ktsense.Prelude.{
  ◌≡◌, ◌⊎◌, refl, ap, Bool, true, false, Bool-cases, inl, inr, Option, none, some, List, [], ◌∷◌,
  ◌++◌, Bytes, All,
}
use ktsense.Mcp.Roots.{holds, containing, first_root, resolve}

module _ (exists_under : Bytes → Bytes → Bool) (canonicalize : Bytes → Option Bytes) where
  -- The first of the roots that holds the subject, with those before it, which do not.
  abbrev pub FirstHolding : List Bytes → Bytes → Bytes → Type 0
  FirstHolding roots subject root =
      (before : List Bytes) × (behind : List Bytes) × ((roots ≡ before ++ (root ∷ behind))
        × (All (λ r. holds exists_under canonicalize r subject ≡ false) before
            × (holds exists_under canonicalize root subject ≡ true)))

  abbrev pub NoneHolds : List Bytes → Bytes → Type 0
  NoneHolds roots subject = All (λ r. holds exists_under canonicalize r subject ≡ false) roots

  containing-first :
      (roots : List Bytes) (subject : Bytes)
      → ((root : Bytes) × ((containing exists_under canonicalize roots subject ≡ some root)
            × FirstHolding roots subject root))
        ⊎ ((containing exists_under canonicalize roots subject ≡ none) × NoneHolds roots subject)
  unfolding containing
  containing-first [] subject = inr (refl, tt)
  containing-first (root ∷ roots) subject =
      elim (Bool-cases (holds exists_under canonicalize root subject)) [
        | inl here ↦ inl (root, (rw here refl, ([], roots, (refl, (tt, here)))))
        | inr away ↦ elim (containing-first roots subject) [
          | inl (found, (e, (before, behind, (split, (none_before, held))))) ↦ inl (
            found,
            (
              rw away e,
              (root ∷ before, behind, (ap (λ l. root ∷ l) split, ((away, none_before), held))),
            ),
          )
          | inr (e, none_holds) ↦ inr (rw away e, (away, none_holds))
        ]
      ]

  -- A call that names no root and is about a subject gets the first of the client's roots that holds the
  -- subject; when none holds it, the first root, and when there are none, no root.
  pub resolve-first :
      (roots : List Bytes) (subject : Bytes)
      → ((root : Bytes) × ((resolve exists_under canonicalize roots none (some subject) ≡ some root)
            × FirstHolding roots subject root))
        ⊎ ((resolve exists_under canonicalize roots none (some subject)
              ≡ first_root exists_under canonicalize roots)
            × NoneHolds roots subject)
  unfolding resolve
  resolve-first roots subject = elim (containing-first roots subject) [
    | inl (root, (e, first)) ↦ inl (root, (rw e refl, first))
    | inr (e, none_holds) ↦ inr (rw e refl, none_holds)
  ]

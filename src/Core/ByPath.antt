-- ===== src/Core/ByPath.antt =====
-- `BTreeMap<&str, Vec<T>>` filled by `entry(path).or_default().push(item)`, as crates/ktsense-core uses
-- it to group sites by file: an association list in the order of `str`.
use ktsense.Prelude.{
  ℕ, ◌+◌, ◌≡◌, Bool-cases, inl, inr, List, [], ◌∷◌, ◌++◌, arith, if◌then◌else◌, Bytes, bytes_eq,
  bytes_eq_iff,
}
use ktsense.Core.TextSearch.{bytes_lt}

module _ {ℓ} {A : Type ℓ} where
  unfoldable pub entry_push : Bytes → A → List (Bytes × List A) → List (Bytes × List A)
  entry_push path item [] = (path, item ∷ []) ∷ []
  entry_push path item ((key, items) ∷ entries) =
      let rest = entry_push path item entries in
      if bytes_eq path key
      then (key, items ++ (item ∷ [])) ∷ entries
      else if bytes_lt path key
      then (path, item ∷ []) ∷ (key, items) ∷ entries
      else (key, items) ∷ rest

  unfoldable pub by_path_from : (A → Bytes) → List (Bytes × List A) → List A → List (Bytes × List A)
  unfolding entry_push
  by_path_from path entries [] = entries
  by_path_from path entries (item ∷ items) =
      by_path_from path (entry_push (path item) item entries) items

  -- A number that each item of a list has under a key, summed.
  abbrev pub total : (A → ℕ) → List A → ℕ
  total weight [] = 0
  total weight (x ∷ xs) = weight x + total weight xs

  abbrev pub total_by_path : (Bytes → A → ℕ) → List (Bytes × List A) → ℕ
  total_by_path weight [] = 0
  total_by_path weight ((key, items) ∷ entries) =
      total (weight key) items + total_by_path weight entries

  pub total-append :
      (weight : A → ℕ) (xs ys : List A)
      → total weight (xs ++ ys) ≡ total weight xs + total weight ys
  total-append weight [] ys = omega arith
  total-append weight (x ∷ xs) ys = omega (arith, total-append weight xs ys)

  entry_push-total :
      (weight : Bytes → A → ℕ) (path : Bytes) (item : A) (entries : List (Bytes × List A))
      → total_by_path weight (entry_push path item entries)
        ≡ weight path item + total_by_path weight entries
  unfolding entry_push
  entry_push-total weight path item [] = omega arith
  entry_push-total weight path item ((key, items) ∷ entries) =
      elim (Bool-cases (bytes_eq path key)) [
        | inl same ↦
            let e : path ≡ key = (bytes_eq_iff path key).0 same in
            rw (same, e) (omega (arith, total-append (weight key) items (item ∷ [])))
        | inr differs ↦ ground (arith, entry_push-total weight path item entries)
      ]

  -- Grouping keeps every sum over the items that looks at each under its own path.
  pub by_path_from-total :
      (weight : Bytes → A → ℕ) (path : A → Bytes) (entries : List (Bytes × List A)) (items : List A)
      → total_by_path weight (by_path_from path entries items)
        ≡ total_by_path weight entries + total (λ x. weight (path x) x) items
  unfolding by_path_from
  by_path_from-total weight path entries [] = omega arith
  by_path_from-total weight path entries (item ∷ items) = omega (
    arith,
    by_path_from-total weight path (entry_push (path item) item entries) items,
    entry_push-total weight (path item) item entries,
  )

-- ===== src/Core/Pick/Suffix.antt =====
-- What a dot suffix is: crates/ktsense-core/src/pick.rs.
use native.Mathlib.Decide.{dec_le}
use ktsense.Prelude.{
  ℕ, zero, suc, ◌+◌, ◌-◌, ◌≤◌, ◌<◌, ◌≡◌, ◌⊎◌, ◌↔◌, inl, inr, refl, ap, ap₂, sym, ◌∙◌, true, false,
  Bool-cases, ◌&&◌, [], ◌∷◌, ◌++◌, arith, ◌==◌, Bytes, length, length-append, take, drop, get_or,
  bytes_eq, bytes_eq_iff, drop-append, append_assoc,
}
use ktsense.Core.Pick.{dot, is_dot_suffix}

-- A name carries a suffix: it is the suffix, or something stands before it and a dot.
abbrev pub Carries : Bytes → Bytes → Type 0
Carries fqn suffix = (fqn ≡ suffix) ⊎ ((front : Bytes) × (fqn ≡ front ++ (dot ∷ suffix)))

get_or-append : (xs ys : Bytes) (d : ℕ) → get_or (xs ++ ys) (length xs) d ≡ get_or ys 0 d
get_or-append [] ys d = refl
get_or-append (x ∷ xs) ys d = get_or-append xs ys d

-- A list is what stands before an index, the element there and what stands behind.
split_at_index :
    (xs : Bytes) (i d : ℕ) → i < length xs → xs ≡ take i xs ++ (get_or xs i d ∷ drop (suc i) xs)
split_at_index [] i d h = absurd (omega arith)
split_at_index (x ∷ xs) zero d h = refl
split_at_index (x ∷ xs) (suc i) d h = ap (λ l. x ∷ l) (split_at_index xs i d (omega arith))

-- The test, at a boundary that is known.
is_dot_suffix-at :
    (fqn suffix : Bytes) (i : ℕ)
    → length fqn ≡ suc i + length suffix
    → bytes_eq fqn suffix ≡ false
    → is_dot_suffix fqn suffix ≡ (bytes_eq (drop (suc i) fqn) suffix && get_or fqn i 0 == dot)
unfolding is_dot_suffix
is_dot_suffix-at fqn suffix i size differ =
    let boundary : length fqn - length suffix ≡ suc i = omega arith in
    let before : length fqn - length suffix - 1 ≡ i = omega arith in
    rw (differ, boundary) (ground (arith, size, before, boundary))

is_dot_suffix-shorter :
    (fqn suffix : Bytes)
    → bytes_eq fqn suffix ≡ false
    → length fqn ≤ length suffix
    → is_dot_suffix fqn suffix ≡ false
unfolding is_dot_suffix
is_dot_suffix-shorter fqn suffix differ h = ground (arith, differ)

is_dot_suffix-Carries : (fqn suffix : Bytes) → is_dot_suffix fqn suffix ≡ true → Carries fqn suffix
is_dot_suffix-Carries fqn suffix h = elim (Bool-cases (bytes_eq fqn suffix)) [
  | inl same ↦ inl ((bytes_eq_iff fqn suffix).0 same)
  | inr differ ↦ elim (dec_le (length fqn) (length suffix)) [
    | yes short ↦ cc (is_dot_suffix-shorter fqn suffix differ short)
    | no long ↦
        let i = length fqn - length suffix - 1 in
        let test = is_dot_suffix-at fqn suffix i (omega arith) differ in
        let ends : drop (suc i) fqn ≡ suffix =
          (bytes_eq_iff (drop (suc i) fqn) suffix).0 (ground (arith, test)) in
        let at_dot : get_or fqn i 0 ≡ dot = ground (arith, test) in
        inr (
          take i fqn,
          split_at_index fqn i 0 (omega arith) ∙ ap₂ (λ c l. take i fqn ++ (c ∷ l)) at_dot ends,
        )
  ]
]

Carries-is_dot_suffix : (fqn suffix : Bytes) → Carries fqn suffix → is_dot_suffix fqn suffix ≡ true
Carries-is_dot_suffix fqn suffix (inl e) =
    unfold is_dot_suffix in rw ((bytes_eq_iff fqn suffix).1 e)
Carries-is_dot_suffix fqn suffix (inr (front, e)) = elim (Bool-cases (bytes_eq fqn suffix)) [
  | inl same ↦ unfold is_dot_suffix in rw same
  | inr differ ↦
      let size : length fqn ≡ suc (length front) + length suffix =
        omega (arith, ap length e, length-append front (dot ∷ suffix)) in
      let whole : fqn ≡ (front ++ (dot ∷ [])) ++ suffix =
        e ∙ sym (append_assoc front (dot ∷ []) suffix) in
      let ends : drop (suc (length front)) fqn ≡ suffix =
        ap₂ (λ n l. drop n l) {x = suc (length front)}
          (omega (arith, length-append front (dot ∷ []))) whole
        ∙ drop-append (front ++ (dot ∷ [])) suffix in
      let at_dot : get_or fqn (length front) 0 ≡ dot =
        ap (λ l. get_or l (length front) 0) e ∙ get_or-append front (dot ∷ suffix) 0 in
      is_dot_suffix-at fqn suffix (length front) size differ
      ∙ ground (arith, at_dot, (bytes_eq_iff (drop (suc (length front)) fqn) suffix).1 ends)
]

-- The test is exact: it holds when the suffix is the name, or the name's end behind a dot.
pub is_dot_suffix_iff :
    (fqn suffix : Bytes) → (is_dot_suffix fqn suffix ≡ true) ↔ Carries fqn suffix
is_dot_suffix_iff fqn suffix = (is_dot_suffix-Carries fqn suffix, Carries-is_dot_suffix fqn suffix)

-- ===== src/Mcp/Warm/Once.antt =====
-- How often a root is decided: `WarmEngines` of crates/ktsense-mcp/src/warm.rs.
use ktsense.Prelude.{
  ℕ, suc, ◌≡◌, refl, sym, ◌∙◌, Bool, true, false, not, ◌&&◌, Bool-cases, inl, inr, Option, none,
  some, List, [], ◌∷◌, arith, if◌then◌else◌, Bytes,
}
use ktsense.Mcp.Paths.{same_path}
use ktsense.Std.Results.{Result, ok, err}
use ktsense.Mcp.Warm.{
  Warmth, decided, unless_held, warmth_of, has_root, has_root-same_path, claim, decide,
  within_bound, when_claimed, ensure,
}

-- Whether a request was answered without a decision.
abbrev pub is_decided : Warmth → Bool
is_decided decided = true
is_decided Warmth.left_to_daemon = false
is_decided Warmth.opened = false
is_decided Warmth.failed = false

module _ {ℓ} {W : Type ℓ} (open_engine : Bytes → W → Result (Unit {0}) Bytes × W)
    (cut : Bytes → W → Option W) (daemon_holds : Bytes → W → Bool × W) where
  -- A sequence of requests, each with what it was told.
  unfoldable pub ensure_all : List Bytes → List Bytes → W → List (Bytes × Warmth) × (List Bytes × W)
  ensure_all [] roots w = ([], (roots, w))
  ensure_all (root ∷ requests) roots w =
      let (warmth, (roots', w')) = ensure open_engine cut root (daemon_holds root) roots w in
      let (told, end) = ensure_all requests roots' w' in ((root, warmth) ∷ told, end)

  -- How many of the answers for the root came from a decision.
  unfoldable pub decisions : Bytes → List (Bytes × Warmth) → ℕ
  unfolding same_path
  decisions root [] = 0
  decisions root ((asked, warmth) ∷ told) =
      let rest = decisions root told in
      if same_path asked root && not (is_decided warmth) then suc rest else rest

  ensure-known :
      (root : Bytes) (roots : List Bytes) (w : W)
      → has_root root roots ≡ true
      → ensure open_engine cut root (daemon_holds root) roots w ≡ (decided, (roots, w))
  unfolding ensure claim
  ensure-known root roots w h = rw h refl

  warmth_of-is_decided : (r : Result (Unit {0}) Bytes × W) → is_decided (warmth_of r).0 ≡ false
  warmth_of-is_decided (ok u, w) = refl
  warmth_of-is_decided (err reason, w) = refl

  unless_held-is_decided :
      (root : Bytes) (held : Bool × W)
      → is_decided (unless_held open_engine cut root held).0 ≡ false
  unless_held-is_decided root (true, w) = refl
  unless_held-is_decided root (false, w) = warmth_of-is_decided (open_engine root w)

  within_bound-is_decided :
      (dropped : Option W) (decision : Warmth × W)
      → is_decided decision.0 ≡ false
      → is_decided (within_bound open_engine cut dropped decision).0 ≡ false
  within_bound-is_decided (some w) decision h = refl
  within_bound-is_decided none decision h = h

  ensure-new :
      (root : Bytes) (roots : List Bytes) (w : W)
      → has_root root roots ≡ false
      → let r = ensure open_engine cut root (daemon_holds root) roots w in
        (is_decided r.0 ≡ false) × (r.1.0 ≡ root ∷ roots)
  unfolding ensure claim decide when_claimed
  ensure-new root roots w h = rw h (
    within_bound-is_decided (cut root w) (unless_held open_engine cut root (daemon_holds root w))
        (unless_held-is_decided root (daemon_holds root w)),
    refl,
  )

  -- How many decisions a root is due.
  abbrev pub due : Bytes → List Bytes → List Bytes → ℕ
  due root requests roots =
      if has_root root roots then 0 else if has_root root requests then 1 else 0

  -- Over any sequence of requests, and whatever the daemon, the engines and the clock do, a root that is
  -- asked for and was not decided before is decided exactly once, under whatever equal paths it is asked
  -- for, and every other root never.
  pub ensure_all-decisions :
      (requests roots : List Bytes) (w : W) (root : Bytes)
      → decisions root (ensure_all requests roots w).0 ≡ due root requests roots
  unfolding ensure_all decisions has_root
  ensure_all-decisions [] roots w root = ground arith
  ensure_all-decisions (asked ∷ requests) roots w root =
      let same_root = λ (h : same_path asked root ≡ true). has_root-same_path asked root roots h in
      elim (Bool-cases (has_root asked roots)) [
        | inl known ↦ rw (ensure-known asked roots w known) (
            ground (
              arith,
              ensure_all-decisions requests roots w root,
              (λ (h : same_path asked root ≡ true). sym (same_root h) ∙ known),
            ))
        | inr new ↦
            let r = ensure open_engine cut asked (daemon_holds asked) roots w in
            let (told, joined) = ensure-new asked roots w new in
            rw (told, joined)
              (ground (
                arith,
                ensure_all-decisions requests (asked ∷ roots) r.1.1 root,
                (λ (h : same_path asked root ≡ true). sym (same_root h) ∙ new),
              ))
      ]

-- ===== src/Mcp/Warm.antt =====
-- One warm engine per root: crates/ktsense-mcp/src/warm.rs. The world `W` holds what the engines and the
-- clock change. `open` is the warmer; `cut` says whether the bound passes while the decision runs, and
-- with which world the decision is then dropped.
pub mod Once
use ktsense.Prelude.{
  ℕ, Bool, true, false, ◌||◌, ◌≡◌, refl, ap, ◌∙◌, Option, none, some, List, [], ◌∷◌, if◌then◌else◌,
  Bytes, codes,
}
use ktsense.Mcp.Paths.{same_path, same_path-right}
use ktsense.Std.Results.{Result, ok, err}

pub data Warmth : Type 0 where
  decided left_to_daemon opened failed : Warmth

abbrev pub label : Warmth → Bytes
label decided = codes "already_decided"
label left_to_daemon = codes "left_to_daemon"
label opened = codes "opened"
label failed = codes "failed"

-- `contains` on the set of paths
unfoldable pub has_root : Bytes → List Bytes → Bool
unfolding same_path
has_root root [] = false
has_root root (known ∷ roots) = same_path known root || has_root root roots

-- `insert` on the set: whether the root is new, and the set with it.
unfoldable pub claim : Bytes → List Bytes → Bool × List Bytes
unfolding has_root
claim root roots = if has_root root roots then (false, roots) else (true, root ∷ roots)

abbrev pub warmth_of {ℓ} : {W : Type ℓ} → Result (Unit {0}) Bytes × W → Warmth × W
warmth_of (ok u, w) = (opened, w)
warmth_of (err reason, w) = (failed, w)

module _ {ℓ} {W : Type ℓ} (open_engine : Bytes → W → Result (Unit {0}) Bytes × W)
    (cut : Bytes → W → Option W) where
  abbrev pub unless_held : Bytes → Bool × W → Warmth × W
  unless_held root (true, w) = (left_to_daemon, w)
  unless_held root (false, w) = warmth_of (open_engine root w)

  unfoldable pub decide : Bytes → (W → Bool × W) → W → Warmth × W
  decide root daemon_holds w = unless_held root (daemon_holds w)

  abbrev pub within_bound : Option W → Warmth × W → Warmth × W
  within_bound (some dropped) decision = (failed, dropped)
  within_bound none decision = decision

  unfoldable pub when_claimed :
      Bool × List Bytes → Bytes → (W → Bool × W) → W → Warmth × (List Bytes × W)
  unfolding decide
  when_claimed (false, roots) root daemon_holds w = (decided, (roots, w))
  when_claimed (true, roots) root daemon_holds w =
      let (warmth, w') = within_bound (cut root w) (decide root daemon_holds w) in
      (warmth, (roots, w'))

  unfoldable pub ensure : Bytes → (W → Bool × W) → List Bytes → W → Warmth × (List Bytes × W)
  unfolding claim when_claimed
  ensure root daemon_holds roots w = when_claimed (claim root roots) root daemon_holds w

-- `EngineWarmer`: launch and initialize are the engine's, given as one step each; the engine that is held
-- joins the others.
module _ {ℓ κ} {W : Type ℓ} {C : Type κ} (launch : W → Result C Bytes × W)
    (initialize : Bytes → C → W → Result C Bytes × W) (wait_for_index : C → W → C × W) where
  abbrev pub settled : Result C Bytes × W → List C → Result (Unit {0}) Bytes × (List C × W)
  settled (err reason, w) held = (err reason, (held, w))
  settled (ok client, w) held =
      let (ready, w') = wait_for_index client w in (ok tt, (ready ∷ held, w'))

  abbrev pub launched : Bytes → Result C Bytes × W → List C → Result (Unit {0}) Bytes × (List C × W)
  launched root (err reason, w) held = (err reason, (held, w))
  launched root (ok client, w) held = settled (initialize root client w) held

  unfoldable pub hold_engine : Bytes → List C × W → Result (Unit {0}) Bytes × (List C × W)
  hold_engine root (held, w) = launched root (launch w) held

-- Equal paths are in the same sets.
pub has_root-same_path :
    (a b : Bytes) (roots : List Bytes) → same_path a b ≡ true → has_root a roots ≡ has_root b roots
unfolding has_root
has_root-same_path a b [] h = refl
has_root-same_path a b (known ∷ roots) h =
    ap (λ t. t || has_root a roots) (same_path-right known a b h)
    ∙ ap (λ t. same_path known b || t) (has_root-same_path a b roots h)

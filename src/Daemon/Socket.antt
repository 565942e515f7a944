-- ===== src/Daemon/Socket.antt =====
-- The names of the daemon's sockets: crates/ktsense-daemon/src/lib.rs. A path is its bytes, taken to
-- be UTF-8, so that `to_string_lossy` changes nothing.
use Prim.Native.Nat.{bit_xor}
use mathlib.Core.List.{append_cancel_left, append_cancel_right}
use native.Mathlib.Nat.{pow-suc}
use ktsense.Prelude.{
  ℕ, zero, suc, ◌+◌, ◌-◌, ◌*◌, ◌/◌, ◌%◌, ◌^◌, ◌<◌, ◌≤◌, ◌≡◌, refl, sym, ap, ◌∙◌, ◌≢◌, All,
  All-append, Bool-cases, inl, inr, append_assoc, append-nil, Option, none, some, [], ◌∷◌, ◌++◌,
  arith, ltb, ◌==◌, if◌then◌else◌, Bytes, codes, length, length-append, true, false, Bool,
}

abbrev pub is_absolute : Bytes → Bool
is_absolute [] = false
is_absolute (c ∷ s) = c == b'/'

-- Whether a separator goes behind the path: it is not empty and does not end in one.
unfoldable pub needs_separator : Bytes → Bool
needs_separator [] = false
needs_separator (c ∷ []) = if c == b'/' then false else true
needs_separator (c ∷ d ∷ s) = needs_separator (d ∷ s)

-- `Path::join`
unfoldable pub join : Bytes → Bytes → Bytes
unfolding needs_separator
join base path =
    if is_absolute path
    then path
    else if needs_separator base
    then base ++ (b'/' ∷ path)
    else base ++ path

abbrev pub offset : ℕ
offset = 0xcbf29ce484222325

abbrev prime : ℕ
prime = 0x00000100000001b3

-- One round of FNV-1a, in `u64`.
hash_byte : ℕ → ℕ → ℕ
hash_byte hash byte = bit_xor hash byte * prime % 2 ^ 64

pub fnv1a : ℕ → Bytes → ℕ
unfolding hash_byte
fnv1a hash [] = hash
fnv1a hash (byte ∷ s) = fnv1a (hash_byte hash byte) s

abbrev hex_digit : ℕ → ℕ
hex_digit d = if ltb d 10 then b'0' + d else b'a' + (d - 10)

-- The lowest `digits` hexadecimal digits.
pub hex : ℕ → ℕ → Bytes
hex zero n = []
hex (suc digits) n = hex digits (n / 16) ++ (hex_digit (n % 16) ∷ [])

unfoldable pub path_key : Bytes → Bytes
unfolding hex fnv1a
path_key path = hex 16 (fnv1a offset path)

unfoldable pub socket_dir : Option Bytes → Bytes → Bytes
unfolding join
socket_dir (some runtime) home = join runtime (codes "ktsense")
socket_dir none home = join (join (join home (codes ".cache")) (codes "ktsense")) (codes "run")

unfoldable pub socket_path : Bytes → Bytes → Bytes
unfolding join path_key
socket_path dir workspace_root = join dir (path_key workspace_root ++ codes ".sock")

length-hex : (k n : ℕ) → length (hex k n) ≡ k
unfolding hex
length-hex zero n = refl
length-hex (suc k) n =
    omega (arith, length-append (hex k (n / 16)) (hex_digit (n % 16) ∷ []), length-hex k (n / 16))

-- A key has sixteen digits, whatever the path.
pub length-path_key : (path : Bytes) → length (path_key path) ≡ 16
unfolding path_key
length-path_key path = length-hex 16 (fnv1a offset path)

append_last-injective :
    (xs ys : Bytes) (x y : ℕ)
    → length xs ≡ length ys
    → xs ++ (x ∷ []) ≡ ys ++ (y ∷ [])
    → (xs ≡ ys) × (x ≡ y)
append_last-injective [] [] x y l e = (refl, cc)
append_last-injective [] (b ∷ ys) x y l e = absurd (omega arith)
append_last-injective (a ∷ xs) [] x y l e = absurd (omega arith)
append_last-injective (a ∷ xs) (b ∷ ys) x y l e =
    let (tails, lasts) = append_last-injective xs ys x y (omega arith) (cc) in (cc, lasts)

hex_digit-injective : (d e : ℕ) → d < 16 → e < 16 → hex_digit d ≡ hex_digit e → d ≡ e
hex_digit-injective d e hd he h = ground arith

-- The digits tell numbers of that many digits apart.
pub hex-injective : (k a b : ℕ) → a < 16 ^ k → b < 16 ^ k → hex k a ≡ hex k b → a ≡ b
unfolding hex
hex-injective zero a b ha hb e = omega arith
hex-injective (suc k) a b ha hb e =
    let sizes : length (hex k (a / 16)) ≡ length (hex k (b / 16)) =
      length-hex k (a / 16) ∙ sym (length-hex k (b / 16)) in
    let (tails, lasts) =
      append_last-injective (hex k (a / 16)) (hex k (b / 16)) (hex_digit (a % 16))
        (hex_digit (b % 16)) sizes e in
    let last = hex_digit-injective (a % 16) (b % 16) (omega arith) (omega arith) lasts in
    let front =
      hex-injective k (a / 16) (b / 16) (omega (arith, pow-suc 16 k)) (omega (arith, pow-suc 16 k))
        tails in
    omega arith

fnv1a-lt : (hash : ℕ) (s : Bytes) → hash < 2 ^ 64 → fnv1a hash s < 2 ^ 64
unfolding fnv1a
fnv1a-lt hash [] h = h
fnv1a-lt hash (byte ∷ s) h = fnv1a-lt (hash_byte hash byte) s (unfold hash_byte in omega arith)

-- Two paths have one key only if their hashes collide.
pub path_key-injective : (p q : Bytes) → path_key p ≡ path_key q → fnv1a offset p ≡ fnv1a offset q
unfolding path_key
path_key-injective p q e =
    hex-injective 16 (fnv1a offset p) (fnv1a offset q)
      (omega (arith, fnv1a-lt offset p (omega arith)))
      (omega (arith, fnv1a-lt offset q (omega arith))) e

join-cases :
    (base path : Bytes)
    → is_absolute path ≡ false
    → (front : Bytes) × ((p : Bytes) → is_absolute p ≡ false → join base p ≡ front ++ p)
      × (length front ≤ length base + 1)
unfolding join
join-cases base path h = elim (Bool-cases (needs_separator base)) [
  | inl sep ↦ (
    base ++ (b'/' ∷ []),
    λ p k. rw (k, sep) (sym (append_assoc base (b'/' ∷ []) p)),
    omega (arith, length-append base (b'/' ∷ [])),
  )
  | inr bare ↦ (base, λ p k. rw (k, bare), omega arith)
]

hex-no_slash : (k n : ℕ) → All (λ c. c ≢ b'/') (hex k n)
unfolding hex
hex-no_slash zero n = tt
hex-no_slash (suc k) n =
    All-append (λ c. c ≢ b'/') (hex k (n / 16)) (hex_digit (n % 16) ∷ []) (hex-no_slash k (n / 16))
      ((λ e. ground arith), tt)

is_absolute-append :
    (s t : Bytes) → All (λ c. c ≢ b'/') s → 0 < length s → is_absolute (s ++ t) ≡ false
is_absolute-append [] t h pos = absurd (omega arith)
is_absolute-append (c ∷ s) t h pos = ground arith

pub path_key-relative : (path t : Bytes) → is_absolute (path_key path ++ t) ≡ false
path_key-relative path t =
    is_absolute-append (path_key path) t (unfold path_key in hex-no_slash 16 (fnv1a offset path))
      (omega (arith, length-path_key path))

-- What stands before the key in the sockets of a directory.
pub socket_path-front :
    (dir : Bytes)
    → (front : Bytes) × ((root : Bytes)
        → socket_path dir root ≡ front ++ (path_key root ++ codes ".sock"))
      × (length front ≤ length dir + 1)
unfolding socket_path
socket_path-front dir =
    let (front, split, small) = join-cases dir [] refl in
    (
      front,
      λ root. split (path_key root ++ codes ".sock") (path_key-relative root (codes ".sock")),
      small,
    )

-- In one directory two roots have one socket only if their hashes collide.
pub socket_path-injective :
    (dir p q : Bytes) → socket_path dir p ≡ socket_path dir q → fnv1a offset p ≡ fnv1a offset q
socket_path-injective dir p q e =
    let (front, split, _) = socket_path-front dir in
    path_key-injective p q (
      append_cancel_right (path_key p) (path_key q) (codes ".sock") (
        append_cancel_left front (path_key p ++ codes ".sock") (path_key q ++ codes ".sock")
          (sym (split p) ∙ e ∙ split q)))

-- A socket's path is at most twenty-two bytes longer than its directory's.
pub length-socket_path : (dir root : Bytes) → length (socket_path dir root) ≤ length dir + 22
length-socket_path dir root =
    let (front, split, small) = socket_path-front dir in
    omega (
      arith,
      small,
      ap length (split root),
      length-append front (path_key root ++ codes ".sock"),
      length-append (path_key root) (codes ".sock"),
      length-path_key root,
    )

pub length-join_key : (base path : Bytes) → length (join base (path_key path)) ≤ length base + 17
length-join_key base path =
    let relative = rw append-nil at (path_key-relative path []) in
    let (front, split, small) = join-cases base [] refl in
    omega (
      arith,
      small,
      ap length (split (path_key path) relative),
      length-append front (path_key path),
      length-path_key path,
    )

key_of_root : path_key (codes "/work/alpha") ≡ codes "2467f728cadd4dd8"
unfolding path_key
key_of_root = refl

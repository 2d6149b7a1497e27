-- ===== src/Wire/Words.antt =====
-- Words in memory: little-endian stores and loads, and the byte swap between the host's order and
-- the order of the wire (`ByteSwap` in src/protocol/protocol_ssh_helper.cpp, an intrinsic that
-- reverses the bytes of a word).
use mathlib.Core.List.{reverse-reverse, reverse-cons}
use native.Mathlib.Nat.{pow-suc}
use ssh_agent_bridge.Base.{
  ℕ, zero, suc, ◌+◌, ◌*◌, ◌/◌, ◌%◌, ◌^◌, ◌<◌, ◌≡◌, refl, ap, ◌∙◌, List, [], ◌∷◌, reverse, length,
  length-reverse, All, All-append, arith,
}

-- The `n` bytes of a word in memory.
unfoldable pub store_le : ℕ → ℕ → List ℕ
store_le zero v = []
store_le (suc n) v = (v % 256) ∷ store_le n (v / 256)

unfoldable pub load_le : List ℕ → ℕ
load_le [] = 0
load_le (b ∷ bs) = b + 256 * load_le bs

-- `_byteswap_ulong` at 4 bytes, `_byteswap_uint64` at 8.
unfoldable pub byte_swap : ℕ → ℕ → ℕ
unfolding store_le load_le
byte_swap n v = load_le (reverse (store_le n v))

pub length-store_le : (n v : ℕ) → length (store_le n v) ≡ n
unfolding store_le
length-store_le zero v = refl
length-store_le (suc n) v = ap suc (length-store_le n (v / 256))

pub store_le-IsByte : (n v : ℕ) → All (λ b. b < 256) (store_le n v)
unfolding store_le
store_le-IsByte zero v = tt
store_le-IsByte (suc n) v = (omega arith, store_le-IsByte n (v / 256))

below : (n v : ℕ) → v < 256 ^ suc n → v / 256 < 256 ^ n
below n v h = let e = rw (pow-suc 256 n) at h in omega (arith, e)

pub load_le-store_le : (n v : ℕ) → v < 256 ^ n → load_le (store_le n v) ≡ v
unfolding load_le store_le
load_le-store_le zero v h = omega arith
load_le-store_le (suc n) v h =
    let ih : load_le (store_le n (v / 256)) ≡ v / 256 =
      load_le-store_le n (v / 256) (below n v h) in
    omega (arith, ih)

pub store_le-load_le :
    (bs : List ℕ) → All (λ b. b < 256) bs → store_le (length bs) (load_le bs) ≡ bs
unfolding load_le store_le
store_le-load_le [] h = refl
store_le-load_le (b ∷ bs) h =
    let low : (b + 256 * load_le bs) % 256 ≡ b = omega (arith, h.0) in
    let high : (b + 256 * load_le bs) / 256 ≡ load_le bs = omega (arith, h.0) in
    rw (low, high) (ap (◌∷◌ b) (store_le-load_le bs h.1))

All-reverse : (bs : List ℕ) → All (λ b. b < 256) bs → All (λ b. b < 256) (reverse bs)
All-reverse [] h = tt
All-reverse (b ∷ bs) h =
    rw (reverse-cons b bs)
      (All-append (λ b. b < 256) (reverse bs) (b ∷ []) (All-reverse bs h.1) (h.0, tt))

-- The bytes that a swapped word has in memory are the word's bytes, most significant first.
pub store_le-byte_swap : (n v : ℕ) → store_le n (byte_swap n v) ≡ reverse (store_le n v)
unfolding byte_swap
store_le-byte_swap n v =
    let size : length (reverse (store_le n v)) ≡ n =
      length-reverse (store_le n v) ∙ length-store_le n v in
    rw size at (store_le-load_le (reverse (store_le n v)) (All-reverse _ (store_le-IsByte n v)))

pub load_le-lt : (bs : List ℕ) → All (λ b. b < 256) bs → load_le bs < 256 ^ length bs
unfolding load_le
load_le-lt [] h = omega arith
load_le-lt (b ∷ bs) h = rw (pow-suc 256 (length bs)) (omega (arith, h.0, load_le-lt bs h.1))

pub byte_swap-lt : (n v : ℕ) → byte_swap n v < 256 ^ n
unfolding byte_swap
byte_swap-lt n v =
    let size : length (reverse (store_le n v)) ≡ n =
      length-reverse (store_le n v) ∙ length-store_le n v in
    rw size at (load_le-lt (reverse (store_le n v)) (All-reverse _ (store_le-IsByte n v)))

-- Swapping twice gives the word back.
pub byte_swap-byte_swap : (n v : ℕ) → v < 256 ^ n → byte_swap n (byte_swap n v) ≡ v
unfolding byte_swap
byte_swap-byte_swap n v h =
    ap (λ bs. load_le (reverse bs)) (store_le-byte_swap n v)
    ∙ ap load_le (reverse-reverse (store_le n v))
    ∙ load_le-store_le n v h

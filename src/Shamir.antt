-- ===== src/Shamir.antt =====
-- packages/security/src/shamir.ts: the tables of GF(256), its multiplication and division, and
-- shamirCombine. A Uint8Array is the list of its bytes, numbers below 256.
mod Bytes
mod Checked
pub mod Distinct
mod Field
mod Interpolate
mod Sized
pub mod Total
mod Tests
pub mod Corrupted
use vigil_apex_f.Common.{
  ℕ, zero, suc, ◌+◌, ◌-◌, ◌*◌, ◌/◌, ◌%◌, Bool, true, false, ◌||◌, List, [], ◌∷◌, map, ltb, leb,
  ◌==◌, if◌then◌else◌, any, length,
}

-- The bitwise `^` of the lowest bits.
unfoldable pub xor_bits : ℕ → ℕ → ℕ → ℕ
xor_bits zero a b = 0
xor_bits (suc bits) a b = (a + b) % 2 + 2 * xor_bits bits (a / 2) (b / 2)

-- The `^` of two bytes.
abbrev pub xor : ℕ → ℕ → ℕ
xor a b = xor_bits 8 a b

-- array[i], which is in range wherever the code reads it
unfoldable pub lookup : List ℕ → ℕ → ℕ
lookup [] i = 0
lookup (b ∷ bs) zero = b
lookup (b ∷ bs) (suc i) = lookup bs i

-- array[i] = value
unfoldable pub store : List ℕ → ℕ → ℕ → List ℕ
store [] i value = []
store (b ∷ bs) zero value = value ∷ bs
store (b ∷ bs) (suc i) value = b ∷ store bs i value

unfoldable pub zeroed : ℕ → List ℕ
zeroed zero = []
zeroed (suc n) = 0 ∷ zeroed n

pub record Tables : Type 0 where
  pub exp : List ℕ
  pub log : List ℕ

-- v <<= 1; if (v & 0x100) v ^= 0x11d;
unfoldable pub next_power : ℕ → ℕ
next_power v = if ltb (v * 2) 256 then v * 2 else xor_bits 9 (v * 2) 285

-- The loop over i, with the rounds that are left.
unfoldable pub fill : ℕ → ℕ → ℕ → Tables → Tables
fill zero i v t = t
fill (suc rounds) i v t =
    fill rounds (i + 1) (next_power v) (record { exp = store t.exp i v; log = store t.log v i })

-- EXP[255] = EXP[0]
unfoldable pub mirrored : Tables → Tables
mirrored t = record t { exp = store t.exp 255 (lookup t.exp 0) }

unfoldable pub tables : Tables
tables = mirrored (fill 255 0 1 (record { exp = zeroed 256; log = zeroed 256 }))

unfoldable pub gf_mul : ℕ → ℕ → ℕ
gf_mul a b =
    if a == 0 || b == 0
    then 0
    else lookup tables.exp ((lookup tables.log a + lookup tables.log b) % 255)

pub data ShamirError : Type 0 where
  division_by_zero : ShamirError
  too_few : ShamirError
  -- the number of shares
  too_many : ℕ → ShamirError
  too_short : ShamirError
  -- the length of the first share
  too_long : ℕ → ShamirError
  inconsistent_length : ShamirError
  zero_coordinate : ShamirError
  duplicate_coordinate : ShamirError

pub data Combined {ℓ} (A : Type ℓ) : Type ℓ where
  combined : A → Combined A
  failed : ShamirError → Combined A

infixl 5 ◌>>=◌
abbrev pub ◌>>=◌ {ℓ κ} : {A : Type ℓ} {B : Type κ} → Combined A → (A → Combined B) → Combined B
result >>= rest = elim result [ combined value ↦ rest value | failed error ↦ failed error ]

-- A log is at most 254, so that the subtraction is not cut off.
unfoldable pub gf_div : ℕ → ℕ → Combined ℕ
gf_div a b =
    if b == 0
    then failed division_by_zero
    else if a == 0
    then combined 0
    else combined (lookup tables.exp ((lookup tables.log a + 255 - lookup tables.log b) % 255))

-- s[0]
abbrev pub coordinate : List ℕ → ℕ
coordinate s = lookup s 0

-- The loop over the shares that fills the set of coordinates.
unfoldable pub check_shares : ℕ → List ℕ → List (List ℕ) → Combined (List ℕ)
check_shares len xs [] = combined xs
check_shares len xs (s ∷ ss) =
    let rest = check_shares len (coordinate s ∷ xs) ss in
    if length s == len
    then if coordinate s == 0
      then failed zero_coordinate
      else if any (λ x. x == coordinate s) xs
      then failed duplicate_coordinate
      else rest
    else failed inconsistent_length

-- The loop over j, over the coordinates of the shares.
unfoldable pub basis : ℕ → ℕ → ℕ → List ℕ → ℕ → ℕ → ℕ × ℕ
basis i x_i j [] num den = (num, den)
basis i x_i j (x ∷ xs) num den =
    if j == i
    then basis i x_i (j + 1) xs num den
    else basis i x_i (j + 1) xs (gf_mul num x) (gf_mul den (xor x_i x))

abbrev pub coefficient : List ℕ → ℕ → ℕ → Combined ℕ
coefficient xs i x_i = let (num, den) = basis i x_i 0 xs 1 1 in gf_div num den

-- The loop over i, from the share with the index on.
unfoldable pub interpolate : List ℕ → ℕ → ℕ → List (List ℕ) → ℕ → Combined ℕ
interpolate xs byte_idx i [] acc = combined acc
interpolate xs byte_idx i (s ∷ ss) acc =
    coefficient xs i (coordinate s)
    >>= (λ c. interpolate xs byte_idx (i + 1) ss (xor acc (gf_mul (lookup s byte_idx) c)))

-- The loop over byteIdx, with the bytes that are left.
unfoldable pub secret_bytes : List (List ℕ) → ℕ → ℕ → Combined (List ℕ)
secret_bytes shares byte_idx zero = combined []
secret_bytes shares byte_idx (suc n) =
    interpolate (map coordinate shares) byte_idx 0 shares 0
    >>= (λ b. secret_bytes shares (byte_idx + 1) n >>= (λ bs. combined (b ∷ bs)))

-- The length of the first share.
abbrev pub share_length : List (List ℕ) → ℕ
share_length [] = 0
share_length (s ∷ ss) = length s

unfoldable pub shamir_combine : List (List ℕ) → Combined (List ℕ)
shamir_combine shares =
    let len = share_length shares in
    if ltb (length shares) 2
    then failed too_few
    else if ltb 255 (length shares)
    then failed (too_many (length shares))
    else if ltb len 2
    then failed too_short
    else if ltb 65536 len
    then failed (too_long len)
    else check_shares len [] shares >>= (λ xs. secret_bytes shares 1 (len - 1))

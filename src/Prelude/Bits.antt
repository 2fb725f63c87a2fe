-- ===== src/Prelude/Bits.antt =====
-- Binary digits: the laws of `&` that the libraries lack, numerals in base two, and bit lengths.
use Prim.Native.Nat.{
  ℕ, zero, suc, ◌+◌, ◌*◌, ◌/◌, ◌%◌, ◌^◌, ◌≤◌, ◌<◌, min, max, bit_and, bit_or, digits,
  bit_and-bitwise, bit_or-bitwise,
}
use native.Mathlib.Nat.{le_refl, pow-suc, one-le-pow, mod-add-div, div-div-eq-div-mul}
use mathlib.Core.Path.{◌≡◌, refl, sym, ap, ap₂, ◌∙◌}
use mathlib.Core.Logic.{◌↔◌, inl, inr}
use mathlib.Core.List.{List, [], ◌∷◌}
use native.Mathlib.Omega.{arith}
use idli_v.Prelude.Tests.{◌==◌, if◌then◌else◌, leb, Bool-cases}
use idli_v.Prelude.Lists.{length}

-- The fuel of `digits` that is left over does not matter.
module _ (rest : ℕ → ℕ) (op : ℕ → ℕ → ℕ) where
  one_more : (k x y : ℕ) → x ≤ k → digits rest op (suc k) x y ≡ digits rest op k x y
  one_more zero zero y h = refl
  one_more zero (suc x) y h = absurd (omega arith)
  one_more (suc k) zero y h = refl
  one_more (suc k) (suc x) y h = omega (arith, one_more k (suc x / 2) (y / 2) (omega arith))

  settled : (k x y : ℕ) → x ≤ k → digits rest op k x y ≡ digits rest op x x y
  settled zero x y h =
      let none_left : 0 ≡ x = omega arith in ap (λ (t : ℕ). digits rest op t x y) none_left
  settled (suc k) x y h = elim (Bool-cases (leb x k)) [
    | inl e ↦ let below : x ≤ k = ground arith in one_more k x y below ∙ settled k x y below
    | inr e ↦ let top : suc k ≡ x = ground arith in ap (λ (t : ℕ). digits rest op t x y) top
  ]

-- The lowest binary digit, of `&` and of `|`.
pub bit_and_step : (x y : ℕ) → bit_and x y ≡ min (x % 2) (y % 2) + 2 * bit_and (x / 2) (y / 2)
bit_and_step zero y = omega (arith, bit_and-bitwise 0 y, bit_and-bitwise 0 (y / 2))
bit_and_step (suc x) y =
    let low = settled (λ t. zero) min x (suc x / 2) (y / 2) (omega arith) in
    omega (arith, low, bit_and-bitwise (suc x) y, bit_and-bitwise (suc x / 2) (y / 2))

pub bit_or_step : (x y : ℕ) → bit_or x y ≡ max (x % 2) (y % 2) + 2 * bit_or (x / 2) (y / 2)
bit_or_step zero y = omega (arith, bit_or-bitwise 0 y, bit_or-bitwise 0 (y / 2))
bit_or_step (suc x) y =
    let low = settled (λ t. t) max x (suc x / 2) (y / 2) (omega arith) in
    omega (arith, low, bit_or-bitwise (suc x) y, bit_or-bitwise (suc x / 2) (y / 2))

bit_or-zero_fuel : (n a : ℕ) → a ≤ n → bit_or a 0 ≡ a
bit_or-zero_fuel n zero h = refl
bit_or-zero_fuel zero (suc a) h = absurd (omega arith)
bit_or-zero_fuel (suc n) (suc a) h =
    omega (arith, bit_or_step (suc a) 0, bit_or-zero_fuel n (suc a / 2) (omega arith))

pub bit_or-zero : (a : ℕ) → bit_or a 0 ≡ a
bit_or-zero a = bit_or-zero_fuel a a (le_refl a)

-- Setting a bit that is clear adds its weight.
pub bit_or-bit :
    (i r q b : ℕ)
    → r < 2 ^ i
    → b ≤ 1
    → bit_or (r + 2 ^ i * (2 * q)) (b * 2 ^ i) ≡ r + 2 ^ i * (2 * q + b)
bit_or-bit zero r q b h k =
    bit_or_step (r + 1 * (2 * q)) (b * 1)
    ∙ omega (arith, bit_or-zero q, ap₂ bit_or (half_of r q b h) (half_bit b k))
  where
    half_of : (r q b : ℕ) → r < 1 → (r + 1 * (2 * q)) / 2 ≡ q
    half_of r q b h = omega arith

    half_bit : (b : ℕ) → b ≤ 1 → (b * 1) / 2 ≡ 0
    half_bit b h = omega arith
bit_or-bit (suc i) r q b h k = rw (pow-suc 2 i) (
    bit_or_step (r + 2 ^ i * 2 * (2 * q)) (b * (2 ^ i * 2))
    ∙ rw (upper (2 ^ i) r q, shifted (2 ^ i) b)
        (omega (arith, bit_or-bit i (r / 2) q b (omega (arith, pow-suc 2 i)) k)))
  where
    upper : (p r q : ℕ) → (r + p * 2 * (2 * q)) / 2 ≡ r / 2 + p * (2 * q)
    upper p r q = omega arith

    shifted : (p b : ℕ) → (b * (p * 2)) / 2 ≡ b * p
    shifted p b = omega arith

zero-bit_and : (b : ℕ) → bit_and 0 b ≡ 0
zero-bit_and b = bit_and-bitwise 0 b

bit_and-half : (a b : ℕ) → bit_and a b / 2 ≡ bit_and (a / 2) (b / 2)
bit_and-half a b = omega (arith, bit_and_step a b)

bit_and-low : (a b : ℕ) → bit_and a b % 2 ≡ min (a % 2) (b % 2)
bit_and-low a b = omega (arith, bit_and_step a b)

bit_and_comm_fuel : (n a b : ℕ) → a ≤ n → b ≤ n → bit_and a b ≡ bit_and b a
bit_and_comm_fuel zero zero zero h k = refl
bit_and_comm_fuel zero (suc a) b h k = absurd (omega arith)
bit_and_comm_fuel zero zero (suc b) h k = absurd (omega arith)
bit_and_comm_fuel (suc n) a b h k = omega (
  arith,
  bit_and_step a b,
  bit_and_step b a,
  bit_and_comm_fuel n (a / 2) (b / 2) (omega arith) (omega arith),
)

pub bit_and_comm : (a b : ℕ) → bit_and a b ≡ bit_and b a
bit_and_comm a b = bit_and_comm_fuel (a + b) a b (omega arith) (omega arith)

bit_and_assoc_fuel : (n a b c : ℕ) → a ≤ n → bit_and (bit_and a b) c ≡ bit_and a (bit_and b c)
bit_and_assoc_fuel zero zero b c h =
    rw zero-bit_and (zero-bit_and c ∙ sym (zero-bit_and (bit_and b c)))
bit_and_assoc_fuel zero (suc a) b c h = absurd (omega arith)
bit_and_assoc_fuel (suc n) a b c h =
    bit_and_step (bit_and a b) c
    ∙ rw (bit_and-half a b, bit_and-low a b)
        (sym (
          bit_and_step a (bit_and b c)
          ∙ rw (bit_and-half b c, bit_and-low b c)
              (omega (arith, bit_and_assoc_fuel n (a / 2) (b / 2) (c / 2) (omega arith)))))

pub bit_and_assoc : (a b c : ℕ) → bit_and (bit_and a b) c ≡ bit_and a (bit_and b c)
bit_and_assoc a b c = bit_and_assoc_fuel a a b c (le_refl a)

-- Two words that agree with two patterns agree with both where the patterns meet.
pub bit_and_meet :
    (x m o m' o' : ℕ) → bit_and x m ≡ o → bit_and x m' ≡ o' → bit_and o m' ≡ bit_and o' m
bit_and_meet x m o m' o' e e' =
    rw (← e, ← e', bit_and_assoc, bit_and_assoc x m' m, bit_and_comm m m')

-- A numeral in base two, most significant digit first: `int(s, 2)`.
abbrev pub from_bits : ℕ → List ℕ → ℕ
from_bits acc [] = acc
from_bits acc (d ∷ ds) = from_bits (acc * 2 + d) ds

-- The digits that a mask lets through.
abbrev pub masked : List ℕ → List ℕ → List ℕ
masked [] ms = []
masked (d ∷ ds) [] = []
masked (d ∷ ds) (m ∷ ms) = (if m == 0 then 0 else d) ∷ masked ds ms

abbrev pub AreBits : List ℕ → Type 0
AreBits [] = Unit
AreBits (d ∷ ds) = (d ≤ 1) × AreBits ds

bit_and_digit :
    (a b d m : ℕ)
    → d ≤ 1
    → m ≤ 1
    → bit_and (a * 2 + d) (b * 2 + m) ≡ bit_and a b * 2 + (if m == 0 then 0 else d)
bit_and_digit a b d m hd hm =
    bit_and_step (a * 2 + d) (b * 2 + m) ∙ rw (halve a d hd, halve b m hm) (ground arith)
  where
    halve : (a d : ℕ) → d ≤ 1 → (a * 2 + d) / 2 ≡ a
    halve a d h = omega arith

-- `&` of two numerals with as many digits.
pub bit_and-from_bits :
    (a b : ℕ) (ds ms : List ℕ)
    → AreBits ds
    → AreBits ms
    → length ds ≡ length ms
    → bit_and (from_bits a ds) (from_bits b ms) ≡ from_bits (bit_and a b) (masked ds ms)
bit_and-from_bits a b [] [] hd hm e = refl
bit_and-from_bits a b [] (m ∷ ms) hd hm e = absurd (omega arith)
bit_and-from_bits a b (d ∷ ds) [] hd hm e = absurd (omega arith)
bit_and-from_bits a b (d ∷ ds) (m ∷ ms) hd hm e =
    bit_and-from_bits (a * 2 + d) (b * 2 + m) ds ms hd.1 hm.1 (omega arith)
    ∙ ap (λ (t : ℕ). from_bits t (masked ds ms)) (bit_and_digit a b d m hd.0 hm.0)

-- The low `n` digits of a number, most significant first.
abbrev pub to_bits : ℕ → ℕ → List ℕ
to_bits zero v = []
to_bits (suc n) v = (v / 2 ^ n % 2) ∷ to_bits n v

pub length-to_bits : (n v : ℕ) → length (to_bits n v) ≡ n
length-to_bits zero v = refl
length-to_bits (suc n) v = ap suc (length-to_bits n v)

pub to_bits-AreBits : (n v : ℕ) → AreBits (to_bits n v)
to_bits-AreBits zero v = tt
to_bits-AreBits (suc n) v = (omega arith, to_bits-AreBits n v)

scale : (t p : ℕ) → p * (t * 2) ≡ 2 * (p * t)
scale t p = omega arith

pow-scale : (p n : ℕ) → p * 2 ^ suc n ≡ 2 * (p * 2 ^ n)
pow-scale p n = rw (pow-suc 2 n) (scale (2 ^ n) p)

mod_double : (p q r b R v : ℕ) → R + p * 2 * q ≡ v → r + p * (q * 2 + b) ≡ v → R ≡ b * p + r
mod_double p q r b R v h k = omega arith

mod-pow-suc : (n v : ℕ) → v % 2 ^ suc n ≡ v / 2 ^ n % 2 * 2 ^ n + v % 2 ^ n
mod-pow-suc n v =
    let half : v / 2 ^ n ≡ v / 2 ^ n / 2 * 2 + v / 2 ^ n % 2 = omega arith in
    let whole : v % 2 ^ suc n + 2 ^ n * 2 * (v / 2 ^ n / 2) ≡ v =
      ap (λ (t : ℕ). v % 2 ^ suc n + 2 ^ n * 2 * t) (div-div-eq-div-mul v (2 ^ n) 2)
      ∙ (ap (λ (t : ℕ). v % 2 ^ suc n + t * (v / t)) (sym (pow-suc 2 n))
          ∙ mod-add-div v (2 ^ suc n)) in
    mod_double (2 ^ n) (v / 2 ^ n / 2) (v % 2 ^ n) (v / 2 ^ n % 2) (v % 2 ^ suc n) v whole
      (ap (λ (t : ℕ). v % 2 ^ n + 2 ^ n * t) (sym half) ∙ mod-add-div v (2 ^ n))

-- Reading digits back gives the number, cut to their count.
pub from_bits-to_bits : (acc n v : ℕ) → from_bits acc (to_bits n v) ≡ acc * 2 ^ n + v % 2 ^ n
from_bits-to_bits acc zero v = omega arith
from_bits-to_bits acc (suc n) v =
    omega (arith, from_bits-to_bits (acc * 2 + v / 2 ^ n % 2) n v, pow-scale acc n, mod-pow-suc n v)

-- `v.bit_length()`, on fuel; a number is fuel enough for itself.
unfoldable pub bit_length_fuel : ℕ → ℕ → ℕ
bit_length_fuel zero v = 0
bit_length_fuel (suc f) v = let rest = bit_length_fuel f (v / 2) in if v == 0 then 0 else suc rest

unfoldable pub bit_length : ℕ → ℕ
unfolding bit_length_fuel
bit_length v = bit_length_fuel v v

bit_length_fuel-suc :
    (f v : ℕ) → bit_length_fuel (suc f) (suc v) ≡ suc (bit_length_fuel f (suc v / 2))
unfolding bit_length_fuel
bit_length_fuel-suc f v = ground arith

bit_length_fuel_iff : (w f v : ℕ) → v ≤ f → (bit_length_fuel f v ≤ w) ↔ (v < 2 ^ w)
unfolding bit_length_fuel
bit_length_fuel_iff w zero zero h = (λ _. one-le-pow w 2 (omega arith), λ _. omega arith)
bit_length_fuel_iff w zero (suc v) h = absurd (omega arith)
bit_length_fuel_iff w (suc f) zero h = (λ _. one-le-pow w 2 (omega arith), λ _. omega arith)
bit_length_fuel_iff zero (suc f) (suc v) h =
    (λ p. omega (arith, bit_length_fuel-suc f v), λ p. omega arith)
bit_length_fuel_iff (suc w) (suc f) (suc v) h =
    let half = bit_length_fuel_iff w f (suc v / 2) (omega arith) in
    (
      λ p. omega (arith, pow-suc 2 w, half.0 (omega (arith, bit_length_fuel-suc f v))),
      λ p. omega (arith, bit_length_fuel-suc f v, half.1 (omega (arith, pow-suc 2 w))),
    )

-- A number fits `w` digits exactly when its length is at most `w`.
pub bit_length_iff : (w v : ℕ) → (bit_length v ≤ w) ↔ (v < 2 ^ w)
unfolding bit_length
bit_length_iff w v = bit_length_fuel_iff w v v (le_refl v)

-- ===== src/Number/Order.antt =====
-- The order of `Less` is that of the rational numbers that the values stand for.
use native.Mathlib.Nat.{mod-lt, mod-eq_of_lt, pow-le-pow_right}
use go_restconf.GoText.Digits.{u64_mod}
use go_restconf.Number.{
  NumberKind, positive, negative, min_number, max_number, Number, trunc, frac, less_magnitude, less,
}
use go_restconf.Number.Pow10.{pow10_pos, pow10-add, pow10_lem}
use go_restconf.Common.{
  ltb, ℤ, pos, negsuc, ltb_ℤ, ℕ, zero, suc, ◌+◌, ◌-◌, ◌*◌, ◌/◌, ◌%◌, ◌^◌, ◌≤◌, ◌<◌, ◌≡◌, sym, ap,
  ◌∙◌, Bool, true, false, arith,
}

-- A `uint64` with at most 18 fraction digits, where a negative number is not 0. `ParseNumber` makes a
-- negative 0 of `-0`, which `Less` puts before 0.
pub record IsNumber (n : Number) : Type 0 where
  pub value_lt : n.value < u64_mod
  pub digits_le : n.fraction_digits ≤ 18
  pub negative_pos : n.kind ≡ negative → 0 < n.value

-- What a number stands for, in units of 10 ^ -18, with the least and the greatest number.
pub data Extended : Type 0 where
  bottom top : Extended
  finite : ℤ → Extended

abbrev pub before : Extended → Extended → Bool
before x bottom = false
before bottom top = true
before bottom (finite i) = true
before top top = false
before top (finite i) = false
before (finite i) top = true
before (finite i) (finite j) = ltb_ℤ i j

abbrev pub neg : ℕ → ℤ
neg zero = pos 0
neg (suc n) = negsuc n

abbrev pub scaled : Number → ℕ
scaled n = n.value * 10 ^ (18 - n.fraction_digits)

abbrev pub denote_kind : NumberKind → ℕ → Extended
denote_kind min_number v = bottom
denote_kind max_number v = top
denote_kind positive v = finite (pos v)
denote_kind negative v = finite (neg v)

abbrev pub denote : Number → Extended
denote n = denote_kind n.kind (scaled n)

-- `frac` is the rest of the division by the unit `p`, in units of 10 ^ -18.
frac_parts :
    (v p q : ℕ)
    → v < u64_mod
    → 0 < p
    → p * q ≡ 10 ^ 18
    → ((v + u64_mod - v / p * p % u64_mod) % u64_mod * q % u64_mod ≡ v % p * q)
      × (v * q ≡ v / p * 10 ^ 18 + v % p * q)
      × (v % p * q < 10 ^ 18)
frac_parts v p q fits p_pos unit =
    let e : v / p * p + v % p ≡ v = omega arith in
    let lt : v % p < p = mod-lt v p_pos in
    let small : v % p * q < 10 ^ 18 = grind arith in
    let rest : (v + u64_mod - v / p * p % u64_mod) % u64_mod ≡ v % p = omega arith in
    (
      rw rest (mod-eq_of_lt (omega arith)),
      omega (arith, ap (λ (t : ℕ). t * q) e, ap (λ (t : ℕ). v / p * t) unit),
      small,
    )

module _ (n : Number) (w : IsNumber n) where
  fits_pow10 : (e : ℕ) → e ≤ 18 → 10 ^ e < u64_mod
  fits_pow10 e h = omega (arith, pow-le-pow_right {n = 10} (omega arith) h)

  unit_split : 10 ^ n.fraction_digits * 10 ^ (18 - n.fraction_digits) ≡ 10 ^ 18
  unit_split =
      sym (pow10-add n.fraction_digits (18 - n.fraction_digits))
      ∙ ap (λ (e : ℕ). 10 ^ e) {y = 18} (let h = w.digits_le in omega arith)

  scaled_lem : (scaled n ≡ trunc n * 10 ^ 18 + frac n) × (frac n < 10 ^ 18)
  unfolding frac trunc
  scaled_lem =
      let h = w.digits_le in
      let e : (18 + 256 - n.fraction_digits) % 256 ≡ 18 - n.fraction_digits = omega arith in
      let parts =
        frac_parts n.value (10 ^ n.fraction_digits) (10 ^ (18 - n.fraction_digits)) w.value_lt
          (pow10_pos n.fraction_digits) unit_split in
      rw
        (
          e,
          pow10_lem n.fraction_digits (fits_pow10 _ h),
          pow10_lem (18 - n.fraction_digits) (fits_pow10 _ (omega arith)),
          parts.0,
        )
        (parts.1, parts.2)

lt_of_whole : (u a b f g : ℕ) → a < b → f < u → a * u + f < b * u + g
lt_of_whole u a b f g h k = grind arith

-- A number is its whole part and its fraction, so the two are compared as words are.
less_magnitude_pos :
    (u nt mt nf mf : ℕ)
    → nf < u
    → mf < u
    → less_magnitude false nt mt nf mf ≡ ltb (nt * u + nf) (mt * u + mf)
unfolding less_magnitude
less_magnitude_pos u nt mt nf mf h k =
    ground (arith, lt_of_whole u nt mt nf mf, lt_of_whole u mt nt mf nf)

less_magnitude_neg :
    (u nt mt nf mf : ℕ)
    → nf < u
    → mf < u
    → less_magnitude true nt mt nf mf ≡ ltb (mt * u + mf) (nt * u + nf)
unfolding less_magnitude
less_magnitude_neg u nt mt nf mf h k =
    ground (arith, lt_of_whole u nt mt nf mf, lt_of_whole u mt nt mf nf)

pub neg-ltb : (a b : ℕ) → ltb_ℤ (neg a) (neg b) ≡ ltb b a
neg-ltb zero zero = ground arith
neg-ltb zero (suc b) = ground arith
neg-ltb (suc a) zero = ground arith
neg-ltb (suc a) (suc b) = ground arith

pub neg-ltb_pos : (a b : ℕ) → 0 < a → ltb_ℤ (neg a) (pos b) ≡ true
neg-ltb_pos zero b h = absurd (omega arith)
neg-ltb_pos (suc a) b h = ground arith

pub pos-ltb_neg : (a b : ℕ) → ltb_ℤ (pos b) (neg a) ≡ false
pos-ltb_neg zero b = ground arith
pos-ltb_neg (suc a) b = ground arith

pub pos-ltb_pos : (a b : ℕ) → ltb_ℤ (pos a) (pos b) ≡ ltb a b
pos-ltb_pos a b = ground arith

module _ (n m : Number) (v : IsNumber n) (w : IsNumber m) where
  magnitude_pos :
      less_magnitude false (trunc n) (trunc m) (frac n) (frac m) ≡ ltb (scaled n) (scaled m)
  magnitude_pos =
      let (a, la) = scaled_lem n v in
      let (b, lb) = scaled_lem m w in
      rw (a, b) (less_magnitude_pos (10 ^ 18) (trunc n) (trunc m) (frac n) (frac m) la lb)

  magnitude_neg :
      less_magnitude true (trunc n) (trunc m) (frac n) (frac m) ≡ ltb (scaled m) (scaled n)
  magnitude_neg =
      let (a, la) = scaled_lem n v in
      let (b, lb) = scaled_lem m w in
      rw (a, b) (less_magnitude_neg (10 ^ 18) (trunc n) (trunc m) (frac n) (frac m) la lb)

  scaled_pos : n.kind ≡ negative → 0 < scaled n
  scaled_pos h = let p = v.negative_pos h in grind (arith, pow10_pos (18 - n.fraction_digits))

module _ (n m : Number) (v : IsNumber n) (w : IsNumber m) where
  -- `Less` of two numbers, integers or decimals or one of each, holds exactly when the value the first
  -- stands for is before that of the second, where each has 18 fraction digits at most and is not a
  -- zero with a minus sign.
  pub less-before : less n m ≡ before (denote n) (denote m)
  unfolding less
  less-before = ground (
    arith,
    magnitude_pos n m v w,
    magnitude_neg n m v w,
    neg-ltb (scaled n) (scaled m),
    neg-ltb_pos (scaled n) (scaled m),
    neg-ltb_pos (scaled m) (scaled n),
    pos-ltb_neg (scaled m) (scaled n),
    pos-ltb_pos (scaled n) (scaled m),
    scaled_pos n m v w,
  )

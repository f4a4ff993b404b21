-- ===== src/Decimal/Word.antt =====
-- decimal.cpp: the 16-byte word of a decimal128, `kyte_dec128_pack` and `dec_decode`.
-- A decimal is passed by a pointer to 16 bytes; here it is the little-endian number that they hold.
use kyte.Prelude.{
  ◌≢◌, ◌∙◌, inl, inr, Bool-cases, ℕ, ◌+◌, ◌*◌, ◌/◌, ◌%◌, ◌^◌, ◌≤◌, ◌<◌, ◌≡◌, Bool, true, false,
  arith, ◌==◌, if◌then◌else◌, ℤ, pos, negsuc, pos_part, ltb_ℤ, ◌+ℤ◌, ◌-ℤ◌, ◌≤ℤ◌,
}

abbrev pub bias : ℕ
bias = 6176

abbrev pub max_digits : ℕ
max_digits = 34

abbrev pub max_biased : ℕ
max_biased = 12287

-- `struct KyteDec`; `sign` is 0 or 1 in the source.
pub record KyteDec : Type 0 where
  pub sign : Bool
  pub coeff : ℕ
  pub exp : ℤ
  pub special : Bool

-- The exponent field, clamped at both ends.
unfoldable pub biased_exponent : ℤ → ℕ
biased_exponent exp =
    let biased = exp +ℤ pos bias in
    if ltb_ℤ biased (pos 0)
    then 0
    else if ltb_ℤ (pos max_biased) biased
    then max_biased
    else pos_part biased

-- The three fields do not overlap, so `|` is a sum.
unfoldable pub pack : Bool → ℕ → ℤ → ℕ
pack sign coeff exp =
    coeff % 2 ^ 113 + biased_exponent exp % 2 ^ 14 * 2 ^ 113 + (if sign then 2 ^ 127 else 0)

-- A special word (infinity or NaN) yields no coefficient and no exponent.
unfoldable pub decode : ℕ → KyteDec
decode w =
    let sign = w / 2 ^ 127 == 1 in
    if w / 2 ^ 125 % 4 == 3
    then record { sign = sign; coeff = 0; exp = pos 0; special = true }
    else record {
      sign = sign;
      coeff = w % 2 ^ 113;
      exp = pos (w / 2 ^ 113 % 2 ^ 14) -ℤ pos bias;
      special = false;
    }

-- The exponents that the word holds without clamping.
pub record InRange (e : ℤ) : Type 0 where
  pub low : negsuc 6175 ≤ℤ e
  pub high : e ≤ℤ pos 6111

pub biased_exponent-le : (e : ℤ) → biased_exponent e ≤ max_biased
unfolding biased_exponent ◌+ℤ◌
biased_exponent-le e = ground arith

pub biased_exponent-exact : (e : ℤ) → InRange e → pos (biased_exponent e) ≡ e +ℤ pos bias
unfolding biased_exponent ◌+ℤ◌
biased_exponent-exact e h = ground arith

pub exp-biased : (e : ℤ) → InRange e → pos (biased_exponent e) -ℤ pos bias ≡ e
unfolding biased_exponent ◌+ℤ◌ ◌-ℤ◌
exp-biased e h = ground arith

pub pack-lt : (s : Bool) (c : ℕ) (e : ℤ) → pack s c e < 2 ^ 128
unfolding pack
pack-lt s c e = ground arith

-- The word by its fields, for a clamped exponent.
fields :
    (c b : ℕ) (s : Bool)
    → c < 2 ^ 113
    → b ≤ max_biased
    → let w = c % 2 ^ 113 + b % 2 ^ 14 * 2 ^ 113 + (if s then 2 ^ 127 else 0) in
      ((w / 2 ^ 127 == 1) ≡ s)
      × ((w / 2 ^ 125 % 4 == 3) ≡ false)
      × (w % 2 ^ 113 ≡ c)
      × (w / 2 ^ 113 % 2 ^ 14 ≡ b)
fields c b true hc hb = ground arith
fields c b false hc hb = ground arith

-- Unpacking a packed word gives the fields back, with the exponent clamped; it is never special.
pub decode-pack_clamped :
    (s : Bool) (c : ℕ) (e : ℤ)
    → c < 2 ^ 113
    → decode (pack s c e)
      ≡ record { sign = s; coeff = c; exp = pos (biased_exponent e) -ℤ pos bias; special = false }
unfolding decode pack
decode-pack_clamped s c e hc =
    let (f, g, k, l) = fields c (biased_exponent e) s hc (biased_exponent-le e) in rw (g, f, k, l)

pub decode-pack :
    (s : Bool) (c : ℕ) (e : ℤ)
    → c < 2 ^ 113
    → InRange e
    → decode (pack s c e) ≡ record { sign = s; coeff = c; exp = e; special = false }
decode-pack s c e hc h = decode-pack_clamped s c e hc ∙ rw (exp-biased e h)

biased_unbias : (b : ℕ) → b ≤ max_biased → biased_exponent (pos b -ℤ pos bias) ≡ b
unfolding biased_exponent ◌+ℤ◌ ◌-ℤ◌
biased_unbias b h = ground arith

finite_exponent :
    (w : ℕ) → w < 2 ^ 128 → (w / 2 ^ 125 % 4 == 3) ≡ false → w / 2 ^ 113 % 2 ^ 14 ≤ max_biased
finite_exponent w h f = ground arith

word_parts :
    (w : ℕ)
    → w < 2 ^ 128
    → w % 2 ^ 113 % 2 ^ 113
        + w / 2 ^ 113 % 2 ^ 14 % 2 ^ 14 * 2 ^ 113
        + (if w / 2 ^ 127 == 1 then 2 ^ 127 else 0)
      ≡ w
word_parts w h = ground arith

special_of : (w : ℕ) → (w / 2 ^ 125 % 4 == 3) ≡ true → (decode w).special ≢ false
unfolding decode
special_of w sp = rw sp (λ e. cc)

-- A word of 128 bits that is not special is rebuilt from its fields.
pub pack-decode :
    (w : ℕ)
    → w < 2 ^ 128
    → (decode w).special ≡ false
    → pack (decode w).sign (decode w).coeff (decode w).exp ≡ w
unfolding decode pack
pack-decode w h f = elim (Bool-cases (w / 2 ^ 125 % 4 == 3)) [
  | inl sp ↦ absurd (special_of w sp f)
  | inr fin ↦
      rw (fin, biased_unbias (w / 2 ^ 113 % 2 ^ 14) (finite_exponent w h fin)) (word_parts w h)
]

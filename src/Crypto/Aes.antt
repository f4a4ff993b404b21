-- ===== src/Crypto/Aes.antt =====
-- crypto.cpp: `kyte_aes_encrypt_block_c`, the portable AES of one block. A block is a list of 16 bytes,
-- the columns one after the other.
pub mod Blocks
use Prim.Native.Nat.{bit_xor}
use kyte.Crypto.Bytes.{all_bytes, xor_with, length-xor_with, xor_with-bytes}
use kyte.Prelude.{
  ℕ, zero, suc, ◌+◌, ◌-◌, ◌*◌, ◌/◌, ◌%◌, ◌^◌, ◌≤◌, ◌<◌, min, max, ◌≡◌, refl, sym, ap, ◌∙◌, subst,
  ◌≢◌, ◌↔◌, ◌⊎◌, inl, inr, Bool, true, false, not, ◌&&◌, ◌||◌, xor, Option, none, some, List, [],
  ◌∷◌, ◌++◌, map, append_assoc, append-nil, arith, ltb, leb, ◌==◌, if◌then◌else◌, ltb→lt, lt→ltb,
  leb→le, ==_iff, Bool-cases, Option-cases, ℤ, pos, negsuc, pos_part, neg_part, sub_ℕ, ltb_ℤ, ◌+ℤ◌,
  ◌-ℤ◌, ◌≤ℤ◌, int_laws, eq_of_parts, length, length-append, get_elem?, set, get_or, take, drop,
  replicate,
}

-- `KYTE_SBOX`.
unfoldable pub sbox_table : List ℕ
sbox_table =
    99 ∷ 124 ∷ 119 ∷ 123 ∷ 242 ∷ 107 ∷ 111 ∷ 197 ∷ 48 ∷ 1 ∷ 103 ∷ 43 ∷ 254 ∷ 215 ∷ 171 ∷ 118 ∷ 202
    ∷ 130 ∷ 201 ∷ 125 ∷ 250 ∷ 89 ∷ 71 ∷ 240 ∷ 173 ∷ 212 ∷ 162 ∷ 175 ∷ 156 ∷ 164 ∷ 114 ∷ 192 ∷ 183
    ∷ 253 ∷ 147 ∷ 38 ∷ 54 ∷ 63 ∷ 247 ∷ 204 ∷ 52 ∷ 165 ∷ 229 ∷ 241 ∷ 113 ∷ 216 ∷ 49 ∷ 21 ∷ 4 ∷ 199
    ∷ 35 ∷ 195 ∷ 24 ∷ 150 ∷ 5 ∷ 154 ∷ 7 ∷ 18 ∷ 128 ∷ 226 ∷ 235 ∷ 39 ∷ 178 ∷ 117 ∷ 9 ∷ 131 ∷ 44 ∷ 26
    ∷ 27 ∷ 110 ∷ 90 ∷ 160 ∷ 82 ∷ 59 ∷ 214 ∷ 179 ∷ 41 ∷ 227 ∷ 47 ∷ 132 ∷ 83 ∷ 209 ∷ 0 ∷ 237 ∷ 32
    ∷ 252 ∷ 177 ∷ 91 ∷ 106 ∷ 203 ∷ 190 ∷ 57 ∷ 74 ∷ 76 ∷ 88 ∷ 207 ∷ 208 ∷ 239 ∷ 170 ∷ 251 ∷ 67 ∷ 77
    ∷ 51 ∷ 133 ∷ 69 ∷ 249 ∷ 2 ∷ 127 ∷ 80 ∷ 60 ∷ 159 ∷ 168 ∷ 81 ∷ 163 ∷ 64 ∷ 143 ∷ 146 ∷ 157 ∷ 56
    ∷ 245 ∷ 188 ∷ 182 ∷ 218 ∷ 33 ∷ 16 ∷ 255 ∷ 243 ∷ 210 ∷ 205 ∷ 12 ∷ 19 ∷ 236 ∷ 95 ∷ 151 ∷ 68 ∷ 23
    ∷ 196 ∷ 167 ∷ 126 ∷ 61 ∷ 100 ∷ 93 ∷ 25 ∷ 115 ∷ 96 ∷ 129 ∷ 79 ∷ 220 ∷ 34 ∷ 42 ∷ 144 ∷ 136 ∷ 70
    ∷ 238 ∷ 184 ∷ 20 ∷ 222 ∷ 94 ∷ 11 ∷ 219 ∷ 224 ∷ 50 ∷ 58 ∷ 10 ∷ 73 ∷ 6 ∷ 36 ∷ 92 ∷ 194 ∷ 211 ∷ 172
    ∷ 98 ∷ 145 ∷ 149 ∷ 228 ∷ 121 ∷ 231 ∷ 200 ∷ 55 ∷ 109 ∷ 141 ∷ 213 ∷ 78 ∷ 169 ∷ 108 ∷ 86 ∷ 244
    ∷ 234 ∷ 101 ∷ 122 ∷ 174 ∷ 8 ∷ 186 ∷ 120 ∷ 37 ∷ 46 ∷ 28 ∷ 166 ∷ 180 ∷ 198 ∷ 232 ∷ 221 ∷ 116 ∷ 31
    ∷ 75 ∷ 189 ∷ 139 ∷ 138 ∷ 112 ∷ 62 ∷ 181 ∷ 102 ∷ 72 ∷ 3 ∷ 246 ∷ 14 ∷ 97 ∷ 53 ∷ 87 ∷ 185 ∷ 134
    ∷ 193 ∷ 29 ∷ 158 ∷ 225 ∷ 248 ∷ 152 ∷ 17 ∷ 105 ∷ 217 ∷ 142 ∷ 148 ∷ 155 ∷ 30 ∷ 135 ∷ 233 ∷ 206
    ∷ 85 ∷ 40 ∷ 223 ∷ 140 ∷ 161 ∷ 137 ∷ 13 ∷ 191 ∷ 230 ∷ 66 ∷ 104 ∷ 65 ∷ 153 ∷ 45 ∷ 15 ∷ 176 ∷ 84
    ∷ 187 ∷ 22 ∷ []

unfoldable pub sbox : ℕ → ℕ
unfolding sbox_table
sbox a = get_or sbox_table a 0

-- `(a << 1) ^ ((a >> 7) * 0x1b)`, cut to a byte.
unfoldable pub xtime : ℕ → ℕ
xtime a = bit_xor (a * 2) (a / 128 * 27) % 256

unfoldable pub shift_rows : List ℕ → List ℕ
shift_rows
      (s0 ∷ s1 ∷ s2 ∷ s3 ∷ s4 ∷ s5 ∷ s6 ∷ s7 ∷ s8 ∷ s9 ∷ s10 ∷ s11 ∷ s12 ∷ s13 ∷ s14 ∷ s15 ∷ rest) =
    s0 ∷ s5 ∷ s10 ∷ s15 ∷ s4 ∷ s9 ∷ s14 ∷ s3 ∷ s8 ∷ s13 ∷ s2 ∷ s7 ∷ s12 ∷ s1 ∷ s6 ∷ s11 ∷ rest
shift_rows s = s

-- The columns from the first on.
unfoldable pub mix_columns : List ℕ → List ℕ
mix_columns (a0 ∷ a1 ∷ a2 ∷ a3 ∷ rest) =
    let h = bit_xor (bit_xor (bit_xor a0 a1) a2) a3 in
    bit_xor (bit_xor a0 h) (xtime (bit_xor a0 a1))
    ∷ bit_xor (bit_xor a1 h) (xtime (bit_xor a1 a2))
    ∷ bit_xor (bit_xor a2 h) (xtime (bit_xor a2 a3))
    ∷ bit_xor (bit_xor a3 h) (xtime (bit_xor a3 a0))
    ∷ mix_columns rest
mix_columns s = s

unfoldable pub round_key : List ℕ → ℕ → List ℕ
round_key rk round = take 16 (drop (round * 16) rk)

-- The rounds from `round` on; `left` counts those that come after it.
unfoldable pub rounds : List ℕ → ℕ → ℕ → List ℕ → List ℕ
rounds rk round zero s = xor_with (shift_rows (map sbox s)) (round_key rk round)
rounds rk round (suc left) s =
    rounds rk (round + 1) left
      (xor_with (mix_columns (shift_rows (map sbox s))) (round_key rk round))

-- `nr` is 10 or 14 in the callers.
unfoldable pub encrypt_block : List ℕ → ℕ → List ℕ → List ℕ
encrypt_block rk nr input = rounds rk 1 (nr - 1) (xor_with input (round_key rk 0))

-- Sixteen bytes.
abbrev pub IsBlock : List ℕ → Type 0
IsBlock s = (length s ≡ 16) × (all_bytes s ≡ true)

-- ===== src/Crypto/Tests.antt =====
-- Instances of the theorems on crypto.cpp, and the test vectors of FIPS-197.
use kyte.Crypto.Random.{Entropy, IsServedAt, getrandom, getrandom_total}
use kyte.Crypto.Aes.{sbox, xtime, shift_rows, mix_columns, round_key, rounds, encrypt_block}
use kyte.Crypto.Aes.Blocks.{HasKeys}
use kyte.Crypto.Counter.{CounterBlock, aes_ctr}
use kyte.Crypto.Counter.Stream.{IsCounter, number, aes_ctr_twice}
use kyte.Crypto.Features.{X86Features, bit, x86_detect, has_asm_crypto}
use kyte.Prelude.{
  ℕ, ◌+◌, ◌/◌, ◌%◌, ◌^◌, ◌≤◌, ◌<◌, ◌≡◌, refl, true, false, none, some, List, [], ◌∷◌, arith, pos,
  length,
}

-- The round keys of 00 01 .. 0f and of 00 01 .. 1f.
abbrev key_128 : List ℕ
key_128 =
    0 ∷ 1 ∷ 2 ∷ 3 ∷ 4 ∷ 5 ∷ 6 ∷ 7 ∷ 8 ∷ 9 ∷ 10 ∷ 11 ∷ 12 ∷ 13 ∷ 14 ∷ 15 ∷ 214 ∷ 170 ∷ 116 ∷ 253
    ∷ 210 ∷ 175 ∷ 114 ∷ 250 ∷ 218 ∷ 166 ∷ 120 ∷ 241 ∷ 214 ∷ 171 ∷ 118 ∷ 254 ∷ 182 ∷ 146 ∷ 207 ∷ 11
    ∷ 100 ∷ 61 ∷ 189 ∷ 241 ∷ 190 ∷ 155 ∷ 197 ∷ 0 ∷ 104 ∷ 48 ∷ 179 ∷ 254 ∷ 182 ∷ 255 ∷ 116 ∷ 78 ∷ 210
    ∷ 194 ∷ 201 ∷ 191 ∷ 108 ∷ 89 ∷ 12 ∷ 191 ∷ 4 ∷ 105 ∷ 191 ∷ 65 ∷ 71 ∷ 247 ∷ 247 ∷ 188 ∷ 149 ∷ 53
    ∷ 62 ∷ 3 ∷ 249 ∷ 108 ∷ 50 ∷ 188 ∷ 253 ∷ 5 ∷ 141 ∷ 253 ∷ 60 ∷ 170 ∷ 163 ∷ 232 ∷ 169 ∷ 159 ∷ 157
    ∷ 235 ∷ 80 ∷ 243 ∷ 175 ∷ 87 ∷ 173 ∷ 246 ∷ 34 ∷ 170 ∷ 94 ∷ 57 ∷ 15 ∷ 125 ∷ 247 ∷ 166 ∷ 146 ∷ 150
    ∷ 167 ∷ 85 ∷ 61 ∷ 193 ∷ 10 ∷ 163 ∷ 31 ∷ 107 ∷ 20 ∷ 249 ∷ 112 ∷ 26 ∷ 227 ∷ 95 ∷ 226 ∷ 140 ∷ 68
    ∷ 10 ∷ 223 ∷ 77 ∷ 78 ∷ 169 ∷ 192 ∷ 38 ∷ 71 ∷ 67 ∷ 135 ∷ 53 ∷ 164 ∷ 28 ∷ 101 ∷ 185 ∷ 224 ∷ 22
    ∷ 186 ∷ 244 ∷ 174 ∷ 191 ∷ 122 ∷ 210 ∷ 84 ∷ 153 ∷ 50 ∷ 209 ∷ 240 ∷ 133 ∷ 87 ∷ 104 ∷ 16 ∷ 147
    ∷ 237 ∷ 156 ∷ 190 ∷ 44 ∷ 151 ∷ 78 ∷ 19 ∷ 17 ∷ 29 ∷ 127 ∷ 227 ∷ 148 ∷ 74 ∷ 23 ∷ 243 ∷ 7 ∷ 167
    ∷ 139 ∷ 77 ∷ 43 ∷ 48 ∷ 197 ∷ []

abbrev key_256 : List ℕ
key_256 =
    0 ∷ 1 ∷ 2 ∷ 3 ∷ 4 ∷ 5 ∷ 6 ∷ 7 ∷ 8 ∷ 9 ∷ 10 ∷ 11 ∷ 12 ∷ 13 ∷ 14 ∷ 15 ∷ 16 ∷ 17 ∷ 18 ∷ 19 ∷ 20
    ∷ 21 ∷ 22 ∷ 23 ∷ 24 ∷ 25 ∷ 26 ∷ 27 ∷ 28 ∷ 29 ∷ 30 ∷ 31 ∷ 165 ∷ 115 ∷ 194 ∷ 159 ∷ 161 ∷ 118 ∷ 196
    ∷ 152 ∷ 169 ∷ 127 ∷ 206 ∷ 147 ∷ 165 ∷ 114 ∷ 192 ∷ 156 ∷ 22 ∷ 81 ∷ 168 ∷ 205 ∷ 2 ∷ 68 ∷ 190 ∷ 218
    ∷ 26 ∷ 93 ∷ 164 ∷ 193 ∷ 6 ∷ 64 ∷ 186 ∷ 222 ∷ 174 ∷ 135 ∷ 223 ∷ 240 ∷ 15 ∷ 241 ∷ 27 ∷ 104 ∷ 166
    ∷ 142 ∷ 213 ∷ 251 ∷ 3 ∷ 252 ∷ 21 ∷ 103 ∷ 109 ∷ 225 ∷ 241 ∷ 72 ∷ 111 ∷ 165 ∷ 79 ∷ 146 ∷ 117 ∷ 248
    ∷ 235 ∷ 83 ∷ 115 ∷ 184 ∷ 81 ∷ 141 ∷ 198 ∷ 86 ∷ 130 ∷ 127 ∷ 201 ∷ 167 ∷ 153 ∷ 23 ∷ 111 ∷ 41 ∷ 76
    ∷ 236 ∷ 108 ∷ 213 ∷ 89 ∷ 139 ∷ 61 ∷ 226 ∷ 58 ∷ 117 ∷ 82 ∷ 71 ∷ 117 ∷ 231 ∷ 39 ∷ 191 ∷ 158 ∷ 180
    ∷ 84 ∷ 7 ∷ 207 ∷ 57 ∷ 11 ∷ 220 ∷ 144 ∷ 95 ∷ 194 ∷ 123 ∷ 9 ∷ 72 ∷ 173 ∷ 82 ∷ 69 ∷ 164 ∷ 193 ∷ 135
    ∷ 28 ∷ 47 ∷ 69 ∷ 245 ∷ 166 ∷ 96 ∷ 23 ∷ 178 ∷ 211 ∷ 135 ∷ 48 ∷ 13 ∷ 77 ∷ 51 ∷ 100 ∷ 10 ∷ 130 ∷ 10
    ∷ 124 ∷ 207 ∷ 247 ∷ 28 ∷ 190 ∷ 180 ∷ 254 ∷ 84 ∷ 19 ∷ 230 ∷ 187 ∷ 240 ∷ 210 ∷ 97 ∷ 167 ∷ 223
    ∷ 240 ∷ 26 ∷ 250 ∷ 254 ∷ 231 ∷ 168 ∷ 41 ∷ 121 ∷ 215 ∷ 165 ∷ 100 ∷ 74 ∷ 179 ∷ 175 ∷ 230 ∷ 64 ∷ 37
    ∷ 65 ∷ 254 ∷ 113 ∷ 155 ∷ 245 ∷ 0 ∷ 37 ∷ 136 ∷ 19 ∷ 187 ∷ 213 ∷ 90 ∷ 114 ∷ 28 ∷ 10 ∷ 78 ∷ 90
    ∷ 102 ∷ 153 ∷ 169 ∷ 242 ∷ 79 ∷ 224 ∷ 126 ∷ 87 ∷ 43 ∷ 170 ∷ 205 ∷ 248 ∷ 205 ∷ 234 ∷ 36 ∷ 252
    ∷ 121 ∷ 204 ∷ 191 ∷ 9 ∷ 121 ∷ 233 ∷ 55 ∷ 26 ∷ 194 ∷ 60 ∷ 109 ∷ 104 ∷ 222 ∷ 54 ∷ []

abbrev plain : List ℕ
plain = 0 ∷ 17 ∷ 34 ∷ 51 ∷ 68 ∷ 85 ∷ 102 ∷ 119 ∷ 136 ∷ 153 ∷ 170 ∷ 187 ∷ 204 ∷ 221 ∷ 238 ∷ 255 ∷ []

appendix_c1 :
    encrypt_block key_128 10 plain
    ≡ 105 ∷ 196 ∷ 224 ∷ 216 ∷ 106 ∷ 123 ∷ 4 ∷ 48 ∷ 216 ∷ 205 ∷ 183 ∷ 128 ∷ 112 ∷ 180 ∷ 197 ∷ 90 ∷ []
unfolding encrypt_block rounds round_key mix_columns shift_rows xtime sbox
appendix_c1 = refl

appendix_c3 :
    encrypt_block key_256 14 plain
    ≡ 142 ∷ 162 ∷ 183 ∷ 202 ∷ 81 ∷ 103 ∷ 69 ∷ 191 ∷ 234 ∷ 252 ∷ 73 ∷ 144 ∷ 75 ∷ 73 ∷ 96 ∷ 137 ∷ []
unfolding encrypt_block rounds round_key mix_columns shift_rows xtime sbox
appendix_c3 = refl

abbrev counter : CounterBlock
counter = record {
  nonce = 1 ∷ 2 ∷ 3 ∷ 4 ∷ 5 ∷ 6 ∷ 7 ∷ 8 ∷ 9 ∷ 10 ∷ 11 ∷ 12 ∷ [];
  b12 = 255;
  b13 = 255;
  b14 = 255;
  b15 = 255;
}

counter-IsCounter : IsCounter counter
counter-IsCounter = record {
  nonce_size = refl;
  nonce_bytes = refl;
  byte12 = omega arith;
  byte13 = omega arith;
  byte14 = omega arith;
  byte15 = omega arith;
}

key_128-HasKeys : HasKeys key_128 10
key_128-HasKeys = (omega arith, refl)

-- Seventeen bytes take two blocks, and the number wraps.
abbrev message : List ℕ
message = 7 ∷ plain

aes_ctr_twice_example :
    let (out, last) = aes_ctr key_128 10 counter message in
    (aes_ctr key_128 10 counter out ≡ (message, last))
    × (length out ≡ length message)
    × (number last ≡ (number counter + (length message + 15) / 16) % 2 ^ 32)
    × (last.nonce ≡ counter.nonce)
aes_ctr_twice_example =
    aes_ctr_twice key_128 10 counter message (omega arith) key_128-HasKeys counter-IsCounter refl

-- A buffer of ones, which the kernel fills with the place of each byte in its call.
abbrev ones : ℕ → ℕ
ones i = 1

abbrev places : Entropy
places off size = some (λ i. i)

getrandom_total_example :
    (after : ℕ → ℕ) × (getrandom places (pos 600) ones ≡ some after)
    × ((i : ℕ) → i < 600 → IsServedAt places 600 i (after i))
    × ((i : ℕ) → 600 ≤ i → after i ≡ ones i)
getrandom_total_example =
    getrandom_total places (pos 600) ones (λ off size low high. (λ i. i, refl))

-- A processor with AES, PCLMULQDQ, SSSE3 and SSE4.1, and no more.
abbrev westmere : X86Features
westmere = record {
  ssse3 = true;
  sse41 = true;
  aes = true;
  pclmul = true;
  sha = false;
  avx2 = false;
  asm_disabled = false;
}

westmere_detected : x86_detect none (some 0x2080202) none ≡ westmere
unfolding x86_detect bit
westmere_detected = refl

westmere_gate : has_asm_crypto westmere ≡ true
unfolding has_asm_crypto
westmere_gate = refl

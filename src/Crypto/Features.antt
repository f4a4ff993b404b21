-- ===== src/Crypto/Features.antt =====
-- crypto.cpp: the probe of the processor on x86-64, `kyte_has_asm_crypto`, `kyte_cpu_has_aes` and the
-- routine that each entry point takes in a build with the assembly.
use kyte.Prelude.{
  ℕ, ◌/◌, ◌%◌, ◌^◌, ◌≡◌, refl, Bool, true, false, not, ◌&&◌, Option, none, some, arith, ◌==◌,
  if◌then◌else◌,
}

pub record X86Features : Type 0 where
  pub ssse3 : Bool
  pub sse41 : Bool
  pub aes : Bool
  pub pclmul : Bool
  pub sha : Bool
  pub avx2 : Bool
  pub asm_disabled : Bool

-- `(register >> k) & 1`.
unfoldable pub bit : ℕ → ℕ → Bool
bit register k = register / 2 ^ k % 2 == 1

-- The first character of KYTE_NO_ASM_CRYPTO, if it is set; register C of leaf 1 and register B of leaf 7,
-- if the processor has the leaf.
unfoldable pub x86_detect : Option ℕ → Option ℕ → Option ℕ → X86Features
x86_detect off leaf1 leaf7 =
    let has_bit : Option ℕ → ℕ → Bool =
      λ leaf k. elim leaf as (λ _. Bool) [ none ↦ false | some r ↦ bit r k ] in
    record {
      ssse3 = has_bit leaf1 9;
      sse41 = has_bit leaf1 19;
      aes = has_bit leaf1 25;
      pclmul = has_bit leaf1 1;
      sha = has_bit leaf7 29;
      avx2 = has_bit leaf7 5;
      asm_disabled = elim off as (λ _. Bool) [ none ↦ false | some c ↦ c == 49 ];
    }

unfoldable pub cpu_has_aes : X86Features → Bool
cpu_has_aes f = f.aes && f.pclmul

unfoldable pub has_asm_crypto : X86Features → Bool
has_asm_crypto f = if f.asm_disabled then false else f.aes && f.pclmul && f.ssse3 && f.sse41

pub data Routine : Type 0 where
  aesni portable clmul shani sse x64 trap : Routine

pub data Entry : Type 0 where
  aes_encrypt_block aes_ctr ghash gcm_seal chacha20_xor sha256_blocks sha512_blocks : Entry
  poly1305_blocks poly1305_finish : Entry

unfoldable pub dispatch : X86Features → Entry → Routine
dispatch f aes_encrypt_block = if f.aes then aesni else portable
dispatch f aes_ctr = if f.aes && f.sse41 then aesni else portable
dispatch f ghash = if not (f.pclmul && f.ssse3) then trap else clmul
dispatch f gcm_seal = if not (f.aes && f.sse41 && f.pclmul && f.ssse3) then trap else aesni
dispatch f chacha20_xor = if not f.ssse3 then trap else sse
dispatch f sha256_blocks = if f.sha && f.sse41 then shani else if not f.ssse3 then trap else sse
dispatch f sha512_blocks = if not f.ssse3 then trap else sse
dispatch f poly1305_blocks = x64
dispatch f poly1305_finish = x64

-- What a routine needs of the processor.
abbrev pub runs_on : Entry → Routine → X86Features → Bool
runs_on e portable f = true
runs_on e x64 f = true
runs_on e trap f = false
runs_on e clmul f = f.pclmul && f.ssse3
runs_on e shani f = f.sha && f.sse41
runs_on e sse f = f.ssse3
runs_on aes_encrypt_block aesni f = f.aes
runs_on aes_ctr aesni f = f.aes && f.sse41
runs_on e aesni f = f.aes && f.sse41 && f.pclmul && f.ssse3

-- Where the gate says that there is assembly, no entry point traps, and each takes a routine whose
-- instructions the processor has.
pub dispatch-has_asm_crypto :
    (f : X86Features) (e : Entry) → has_asm_crypto f ≡ true → runs_on e (dispatch f e) f ≡ true
unfolding dispatch has_asm_crypto
dispatch-has_asm_crypto f aes_encrypt_block h = ground arith
dispatch-has_asm_crypto f aes_ctr h = ground arith
dispatch-has_asm_crypto f ghash h = ground arith
dispatch-has_asm_crypto f gcm_seal h = ground arith
dispatch-has_asm_crypto f chacha20_xor h = ground arith
dispatch-has_asm_crypto f sha256_blocks h = ground arith
dispatch-has_asm_crypto f sha512_blocks h = ground arith
dispatch-has_asm_crypto f poly1305_blocks h = refl
dispatch-has_asm_crypto f poly1305_finish h = refl

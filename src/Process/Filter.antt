-- ===== src/Process/Filter.antt =====
-- io.cpp: the filter of system calls that `iso_install_seccomp` gives to the kernel. The numbers of the
-- calls are those of the processor's headers. `run` is the part of the kernel's documented machine that
-- the filter uses.
use kyte.Prelude.{
  ℕ, zero, suc, ◌≡◌, refl, ap, ◌∙◌, Bool, true, false, ◌||◌, Option, none, some, List, [], ◌∷◌,
  ◌==◌, if◌then◌else◌, length, drop,
}

-- The system calls that the source names, where `SYS_ptrace` is defined.
pub record Syscalls : Type 0 where
  pub unshare : ℕ
  pub setns : ℕ
  pub mount : ℕ
  pub pivot_root : ℕ
  pub ptrace : ℕ

-- `BPF_LD | BPF_W | BPF_ABS`, `BPF_JMP | BPF_JEQ | BPF_K` and `BPF_RET | BPF_K`.
pub data SockFilter : Type 0 where
  load_word : ℕ → SockFilter
  jump_equal : ℕ → ℕ → ℕ → SockFilter
  return_value : ℕ → SockFilter

-- `SECCOMP_RET_ALLOW`, and `SECCOMP_RET_ERRNO` with `EPERM`.
abbrev pub ret_allow : ℕ
ret_allow = 0x7fff0000

abbrev pub ret_eperm : ℕ
ret_eperm = 0x50001

-- The macro `DENY`.
unfoldable pub deny : ℕ → List SockFilter → List SockFilter
deny nr rest = jump_equal nr 0 1 ∷ return_value ret_eperm ∷ rest

unfoldable pub iso_filter : Syscalls → List SockFilter
iso_filter s =
    load_word 0
    ∷ deny s.unshare (
        deny s.setns
          (deny s.mount (deny s.pivot_root (deny s.ptrace (return_value ret_allow ∷ [])))))

-- `struct seccomp_data`: a call and the processor's mode that it was made in.
pub record SeccompData : Type 0 where
  pub nr : ℕ
  pub arch : ℕ

-- The first word is the number, the next one the mode.
abbrev pub word_at : ℕ → SeccompData → ℕ
word_at offset d = if offset == 0 then d.nr else d.arch

-- The machine: a program ends with a returned value, which it has after one round per instruction at most.
abbrev pub run : ℕ → ℕ → List SockFilter → SeccompData → Option ℕ
run zero acc program d = none
run (suc fuel) acc [] d = none
run (suc fuel) acc (load_word offset ∷ program) d = run fuel (word_at offset d) program d
run (suc fuel) acc (jump_equal k jt jf ∷ program) d =
    run fuel acc (drop (if acc == k then jt else jf) program) d
run (suc fuel) acc (return_value v ∷ program) d = some v

abbrev pub is_denied : Syscalls → ℕ → Bool
is_denied s nr =
    nr == s.unshare || nr == s.setns || nr == s.mount || nr == s.pivot_root || nr == s.ptrace

deny_step :
    (fuel nr k : ℕ) (rest : List SockFilter) (d : SeccompData)
    → run (suc (suc fuel)) nr (deny k rest) d
      ≡ (if nr == k then some ret_eperm else run (suc fuel) nr rest d)
unfolding deny
deny_step fuel nr k rest d = jumped (nr == k)
  where
    jumped :
        (b : Bool)
        → run (suc fuel) nr (drop (if b then 0 else 1) (return_value ret_eperm ∷ rest)) d
          ≡ (if b then some ret_eperm else run (suc fuel) nr rest d)
    jumped true = refl
    jumped false = refl

chain :
    (a b c e f : Bool)
    → (if a
        then some ret_eperm
        else if b
        then some ret_eperm
        else if c
        then some ret_eperm
        else if e
        then some ret_eperm
        else if f
        then some ret_eperm
        else some ret_allow)
      ≡ some (if a || b || c || e || f then ret_eperm else ret_allow)
chain true b c e f = refl
chain false true c e f = refl
chain false false true e f = refl
chain false false false true f = refl
chain false false false false true = refl
chain false false false false false = refl

-- The filter ends for every system call: it answers with the error `EPERM` if the number is that of one of
-- the five calls, and allows it otherwise, in whatever mode of the processor the call is made.
pub iso_filter-denies :
    (s : Syscalls) (d : SeccompData)
    → run (length (iso_filter s)) 0 (iso_filter s) d
      ≡ some (if is_denied s d.nr then ret_eperm else ret_allow)
unfolding iso_filter deny
iso_filter-denies s d =
    deny_step 9 d.nr s.unshare _ d
    ∙ ap (otherwise (d.nr == s.unshare)) (
        deny_step 8 d.nr s.setns _ d
        ∙ ap (otherwise (d.nr == s.setns)) (
            deny_step 7 d.nr s.mount _ d
            ∙ ap (otherwise (d.nr == s.mount)) (
                deny_step 6 d.nr s.pivot_root _ d
                ∙ ap (otherwise (d.nr == s.pivot_root)) (deny_step 5 d.nr s.ptrace _ d))))
    ∙ chain (d.nr == s.unshare) (d.nr == s.setns) (d.nr == s.mount) (d.nr == s.pivot_root)
        (d.nr == s.ptrace)
  where
    otherwise : Bool → Option ℕ → Option ℕ
    otherwise b rest = if b then some ret_eperm else rest

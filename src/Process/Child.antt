-- ===== src/Process/Child.antt =====
-- io.cpp: what a new child process does before it becomes the program: the branches `pid == 0` of
-- `kyte_process_spawn` and `kyte_process_spawn_ex`, and `iso_child_entry`. A child is the list of the
-- calls it makes.
pub mod Descriptors
pub mod OwnPipes
pub mod Isolation
use kyte.Process.System.{CString}
use kyte.Prelude.{
  ℕ, zero, suc, ◌+◌, ◌-◌, ◌*◌, ◌/◌, ◌%◌, ◌^◌, ◌≤◌, ◌<◌, min, max, ◌≡◌, refl, sym, ap, ◌∙◌, subst,
  ◌≢◌, ◌↔◌, ◌⊎◌, inl, inr, Bool, true, false, not, ◌&&◌, ◌||◌, xor, Option, none, some, List, [],
  ◌∷◌, ◌++◌, map, append_assoc, append-nil, arith, ltb, leb, ◌==◌, if◌then◌else◌, ltb→lt, lt→ltb,
  leb→le, ==_iff, Bool-cases, Option-cases, ℤ, pos, negsuc, pos_part, neg_part, sub_ℕ, ltb_ℤ, ◌+ℤ◌,
  ◌-ℤ◌, ◌≤ℤ◌, int_laws, eq_of_parts, length, length-append, get_elem?, set, get_or, take, drop,
  replicate,
}

-- A descriptor of the pipes, by its number: `in_pipe[0]` and so on.
pub record Pipes : Type 0 where
  pub in_read : ℕ
  pub in_write : ℕ
  pub out_read : ℕ
  pub out_write : ℕ

pub data Mount : Type 0 where
  private_root : Mount
  bind_rootfs : Mount
  mount_proc : Mount

pub data Call : Type 0 where
  dup2 : ℕ → ℕ → Call
  close : ℕ → Call
  chdir : List ℕ → Call
  setenv : List ℕ → List ℕ → Call
  sethostname : List ℕ → Call
  mount : Mount → Call
  mkdir_old_root : Call
  pivot_root : Call
  umount_old_root : Call
  rmdir_old_root : Call
  set_no_new_privs : Call
  drop_bounding : ℕ → Call
  capset_none : Call
  install_seccomp : Call
  execvp : List (List ℕ) → Call
  exit : ℕ → Call

-- `execvp` returns only if it fails.
unfoldable pub exec_or_exit : Bool → List (List ℕ) → List Call
exec_or_exit execs argv = execvp argv ∷ (if execs then [] else exit 127 ∷ [])

unfoldable pub connect_pipes : Pipes → List Call → List Call
connect_pipes p rest =
    dup2 p.in_read 0
    ∷ dup2 p.out_write 1
    ∷ close p.in_read
    ∷ close p.in_write
    ∷ close p.out_read
    ∷ close p.out_write
    ∷ rest

unfoldable pub spawn_child : Pipes → Bool → List (List ℕ) → List Call
spawn_child p execs argv = connect_pipes p (exec_or_exit execs argv)

unfoldable pub set_entries : List (List ℕ × List ℕ) → List Call → List Call
set_entries [] rest = rest
set_entries ((key, value) ∷ env) rest = setenv key value ∷ set_entries env rest

-- `enters` says whether `chdir` succeeds. An empty directory is none.
unfoldable pub spawn_ex_child :
    Pipes → List ℕ → Bool → List (List ℕ × List ℕ) → Bool → List (List ℕ) → List Call
spawn_ex_child p [] enters env execs argv =
    connect_pipes p (set_entries env (exec_or_exit execs argv))
spawn_ex_child p (c ∷ cs) enters env execs argv =
    connect_pipes p (
      chdir (c ∷ cs)
      ∷ (if enters then set_entries env (exec_or_exit execs argv) else exit 127 ∷ []))

-- The bits of `KyteIsoNs`.
unfoldable pub has_bit : ℕ → ℕ → Bool
has_bit flags bit = flags / bit % 2 == 1

abbrev pub ns_pid : ℕ
ns_pid = 1

abbrev pub ns_mount : ℕ
ns_mount = 2

abbrev pub ns_uts : ℕ
ns_uts = 4

abbrev pub ns_ipc : ℕ
ns_ipc = 8

abbrev pub ns_net : ℕ
ns_net = 16

abbrev pub ns_user : ℕ
ns_user = 32

pub record IsoChildArgs : Type 0 where
  pub argv : List (List ℕ)
  pub in_fd : ℕ
  pub out_fd : ℕ
  pub ns_flags : ℕ
  pub rootfs : List ℕ
  pub hostname : List ℕ
  pub drop_caps : Bool
  pub no_new_privs : Bool
  pub seccomp_deny : Bool

-- Whether the calls of `iso_setup_rootfs` whose result it reads succeed, and `execvp`.
pub record IsoAnswers : Type 0 where
  pub makes_private : Bool
  pub binds : Bool
  pub enters : Bool
  pub pivots : Bool
  pub enters_root : Bool
  pub execs : Bool

-- The calls, and whether the result is 0.
unfoldable pub iso_setup_rootfs : List ℕ → IsoAnswers → List Call × Bool
iso_setup_rootfs rootfs a =
    if not a.makes_private
    then (mount private_root ∷ [], false)
    else if not a.binds
    then (mount private_root ∷ mount bind_rootfs ∷ [], false)
    else if not a.enters
    then (mount private_root ∷ mount bind_rootfs ∷ chdir rootfs ∷ [], false)
    else if not a.pivots
    then (
      mount private_root ∷ mount bind_rootfs ∷ chdir rootfs ∷ mkdir_old_root ∷ pivot_root ∷ [],
      false,
    )
    else if not a.enters_root
    then (
      mount private_root
          ∷ mount bind_rootfs
          ∷ chdir rootfs
          ∷ mkdir_old_root
          ∷ pivot_root
          ∷ chdir (47 ∷ [])
          ∷ [],
      false,
    )
    else (
      mount private_root
          ∷ mount bind_rootfs
          ∷ chdir rootfs
          ∷ mkdir_old_root
          ∷ pivot_root
          ∷ chdir (47 ∷ [])
          ∷ umount_old_root
          ∷ rmdir_old_root
          ∷ [],
      true,
    )

-- `for (int cap = 0; cap <= 63; ++cap)`, with the rounds left and the number of the round.
unfoldable pub drop_loop : ℕ → ℕ → List Call → List Call
drop_loop zero cap rest = rest
drop_loop (suc rounds) cap rest = drop_bounding cap ∷ drop_loop rounds (cap + 1) rest

unfoldable pub iso_drop_caps : List Call → List Call
iso_drop_caps rest = drop_loop 64 0 (capset_none ∷ rest)

unfoldable pub harden : IsoChildArgs → List Call → List Call
harden args rest =
    let filtered = if args.seccomp_deny then install_seccomp ∷ rest else rest in
    let dropped = if args.drop_caps then iso_drop_caps filtered else filtered in
    if args.no_new_privs then set_no_new_privs ∷ dropped else dropped

unfoldable pub mount_proc_if : IsoChildArgs → List Call → List Call
mount_proc_if args rest = if has_bit args.ns_flags ns_pid then mount mount_proc ∷ rest else rest

unfoldable pub enter_rootfs : List ℕ → IsoAnswers → List Call → List Call
enter_rootfs [] a rest = mount private_root ∷ rest
enter_rootfs (c ∷ cs) a rest =
    let (calls, entered) = iso_setup_rootfs (c ∷ cs) a in
    calls ++ (if entered then rest else exit 125 ∷ [])

unfoldable pub name_host : IsoChildArgs → List Call → List Call
name_host args rest =
    if has_bit args.ns_flags ns_uts
    then elim (args.hostname) [ [] ↦ rest | c ∷ cs ↦ sethostname (c ∷ cs) ∷ rest ]
    else rest

unfoldable pub iso_child_entry : IsoChildArgs → IsoAnswers → List Call
iso_child_entry args a =
    let hardened = harden args (exec_or_exit a.execs args.argv) in
    dup2 args.in_fd 0
    ∷ dup2 args.out_fd 1
    ∷ close args.in_fd
    ∷ close args.out_fd
    ∷ name_host args (
        if has_bit args.ns_flags ns_mount
        then enter_rootfs args.rootfs a (mount_proc_if args hardened)
        else hardened)

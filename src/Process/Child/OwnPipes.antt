-- ===== src/Process/Child/OwnPipes.antt =====
-- io.cpp: the descriptors of an isolated child.
use kyte.Process.Child.Descriptors.{
  Table, update, apply_call, after, all_quiet, after-quiet, exec_or_exit-quiet,
}
use kyte.Process.Child.{
  Call, exec_or_exit, has_bit, IsoChildArgs, IsoAnswers, iso_setup_rootfs, drop_loop, iso_drop_caps,
  harden, mount_proc_if, enter_rootfs, name_host, iso_child_entry, dup2, capset_none,
  install_seccomp, exit, ns_mount,
}
use kyte.Prelude.{
  ℕ, zero, suc, ◌+◌, ◌<◌, ◌≡◌, ap, ◌∙◌, Bool, true, false, ◌||◌, none, some, List, [], ◌∷◌, ◌++◌,
  arith, ◌==◌, if◌then◌else◌,
}

drop_loop-quiet :
    (rounds cap : ℕ) (rest : List Call)
    → all_quiet rest ≡ true
    → all_quiet (drop_loop rounds cap rest) ≡ true
unfolding drop_loop
drop_loop-quiet zero cap rest h = h
drop_loop-quiet (suc rounds) cap rest h = drop_loop-quiet rounds (cap + 1) rest h

harden-quiet :
    (args : IsoChildArgs) (rest : List Call)
    → all_quiet rest ≡ true
    → all_quiet (harden args rest) ≡ true
unfolding harden iso_drop_caps
harden-quiet args rest h = ground (
  arith,
  drop_loop-quiet 64 0 (capset_none ∷ rest),
  drop_loop-quiet 64 0 (capset_none ∷ install_seccomp ∷ rest),
)

all_quiet-append :
    (xs ys : List Call) → all_quiet xs ≡ true → all_quiet ys ≡ true → all_quiet (xs ++ ys) ≡ true
all_quiet-append [] ys h k = k
all_quiet-append (x ∷ xs) ys h k = ground (arith, all_quiet-append xs ys)

iso_setup_rootfs-quiet :
    (rootfs : List ℕ) (a : IsoAnswers) → all_quiet (iso_setup_rootfs rootfs a).0 ≡ true
unfolding iso_setup_rootfs
iso_setup_rootfs-quiet rootfs a = ground arith

enter_rootfs-quiet :
    (rootfs : List ℕ) (a : IsoAnswers) (rest : List Call)
    → all_quiet rest ≡ true
    → all_quiet (enter_rootfs rootfs a rest) ≡ true
unfolding enter_rootfs
enter_rootfs-quiet [] a rest h = h
enter_rootfs-quiet (c ∷ cs) a rest h =
    let (calls, entered) = iso_setup_rootfs (c ∷ cs) a in
    all_quiet-append calls (if entered then rest else exit 125 ∷ [])
      (iso_setup_rootfs-quiet (c ∷ cs) a) (choice entered)
  where
    choice : (b : Bool) → all_quiet (if b then rest else exit 125 ∷ []) ≡ true
    choice b = ground arith

mount_proc_if-quiet :
    (args : IsoChildArgs) (rest : List Call)
    → all_quiet rest ≡ true
    → all_quiet (mount_proc_if args rest) ≡ true
unfolding mount_proc_if
mount_proc_if-quiet args rest h = ground arith

name_host-quiet :
    (args : IsoChildArgs) (rest : List Call)
    → all_quiet rest ≡ true
    → all_quiet (name_host args rest) ≡ true
unfolding name_host
name_host-quiet args rest h = ground arith

abbrev pub iso_connected : IsoChildArgs → Table → Table
iso_connected args t fd =
    if fd == 0
    then t args.in_fd
    else if fd == 1
    then t args.out_fd
    else if fd == args.in_fd || fd == args.out_fd
    then none
    else t fd

-- If the two ends that an isolated child is given are not 0 and 1, then it has them as its input and
-- output and keeps every other descriptor of its parent, the other ends of its own pipes included.
pub iso_child_entry-connected :
    (args : IsoChildArgs) (a : IsoAnswers) (t : Table) (f g fd : ℕ)
    → 1 < args.in_fd
    → 1 < args.out_fd
    → t args.in_fd ≡ some f
    → t args.out_fd ≡ some g
    → after (iso_child_entry args a) t fd ≡ iso_connected args t fd
unfolding iso_child_entry
iso_child_entry-connected args a t f g fd high_in high_out hf hg =
    let hardened = harden args (exec_or_exit a.execs args.argv) in
    let hardened_quiet =
      harden-quiet args (exec_or_exit a.execs args.argv) (exec_or_exit-quiet a.execs args.argv) in
    let proc = mount_proc_if args hardened in
    let proc_quiet = mount_proc_if-quiet args hardened hardened_quiet in
    let mounted = enter_rootfs args.rootfs a proc in
    let mounted_quiet = enter_rootfs-quiet args.rootfs a proc proc_quiet in
    let inner = if has_bit args.ns_flags ns_mount then mounted else hardened in
    let inner_quiet =
      choose (has_bit args.ns_flags ns_mount) mounted hardened mounted_quiet hardened_quiet in
    let t1 = apply_call (dup2 args.in_fd 0) t in
    let t2 = apply_call (dup2 args.out_fd 1) t1 in
    let t3 = update (update t2 args.in_fd none) args.out_fd none in
    ap (λ (u : Table). u fd)
      (after-quiet (name_host args inner) t3 (name_host-quiet args inner inner_quiet))
    ∙ ground arith
  where
    choose :
        (b : Bool) (xs ys : List Call)
        → all_quiet xs ≡ true
        → all_quiet ys ≡ true
        → all_quiet (if b then xs else ys) ≡ true
    choose true xs ys h k = h
    choose false xs ys h k = k

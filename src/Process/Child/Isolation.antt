-- ===== src/Process/Child/Isolation.antt =====
-- io.cpp: what isolates a child before it becomes the program: `iso_setup_rootfs`, the capabilities and
-- the filter of system calls.
use kyte.Process.Child.{
  Call, exec_or_exit, has_bit, IsoChildArgs, IsoAnswers, iso_setup_rootfs, drop_loop, iso_drop_caps,
  harden, mount_proc_if, enter_rootfs, name_host, iso_child_entry, dup2, close, chdir, setenv,
  sethostname, mount, mkdir_old_root, pivot_root, umount_old_root, rmdir_old_root, set_no_new_privs,
  drop_bounding, capset_none, install_seccomp, execvp, exit, ns_mount,
}
use kyte.Prelude.{
  ℕ, zero, suc, ◌+◌, ◌≡◌, refl, ap, ◌∙◌, Bool, true, false, not, ◌&&◌, ◌||◌, Option, none, some,
  List, [], ◌∷◌, arith, if◌then◌else◌, drop,
}

abbrev pub execs_in : List Call → Bool
execs_in [] = false
execs_in (execvp argv ∷ cs) = true
execs_in (_ ∷ cs) = execs_in cs

-- Whether every step that gives the child a new root succeeds; without one there is none.
abbrev pub sets_up : List ℕ → IsoAnswers → Bool
sets_up [] a = true
sets_up (c ∷ cs) a = a.makes_private && a.binds && a.enters && a.pivots && a.enters_root

-- Whether the child gets as far as the program.
abbrev pub reaches_program : IsoChildArgs → IsoAnswers → Bool
reaches_program args a = not (has_bit args.ns_flags ns_mount) || sets_up args.rootfs a

-- What decides whether a filter of system calls is accepted, and whether there is one.
pub record Privileges : Type 0 where
  pub no_new : Bool
  pub capable : Bool
  pub filtered : Bool

-- `allowed` is the kernel's rule for seccomp, from `no_new_privs` and the capabilities.
module _ (allowed : Bool → Bool → Bool) where
  abbrev pub apply_privileges : Call → Privileges → Privileges
  apply_privileges set_no_new_privs s = record s { no_new = true }
  apply_privileges capset_none s = record s { capable = false }
  apply_privileges install_seccomp s =
      if allowed s.no_new s.capable then record s { filtered = true } else s
  apply_privileges _ s = s

  -- The privileges with which the program starts, if it starts.
  abbrev pub privileges : List Call → Privileges → Option Privileges
  privileges [] s = none
  privileges (execvp argv ∷ cs) s = some s
  privileges (c ∷ cs) s = privileges cs (apply_privileges c s)

  drop_loop-privileges :
      (rounds cap : ℕ) (rest : List Call) (s : Privileges)
      → privileges (drop_loop rounds cap rest) s ≡ privileges rest s
  unfolding drop_loop
  drop_loop-privileges zero cap rest s = refl
  drop_loop-privileges (suc rounds) cap rest s = drop_loop-privileges rounds (cap + 1) rest s

  -- The privileges of the program from those of the child.
  abbrev pub hardened : IsoChildArgs → Privileges → Privileges
  hardened args s =
      let s1 = if args.no_new_privs then record s { no_new = true } else s in
      let s2 = if args.drop_caps then record s1 { capable = false } else s1 in
      if args.seccomp_deny && allowed s2.no_new s2.capable
      then record s2 { filtered = true }
      else s2

  stage-filter :
      (b : Bool) (rest : List Call) (s : Privileges)
      → privileges (if b then install_seccomp ∷ rest else rest) s
        ≡ privileges rest
            (if b && allowed s.no_new s.capable then record s { filtered = true } else s)
  stage-filter true rest s = refl
  stage-filter false rest s = refl

  stage-drop :
      (b : Bool) (rest : List Call) (s : Privileges)
      → privileges (if b then drop_loop 64 0 (capset_none ∷ rest) else rest) s
        ≡ privileges rest (if b then record s { capable = false } else s)
  stage-drop true rest s = drop_loop-privileges 64 0 (capset_none ∷ rest) s
  stage-drop false rest s = refl

  stage-no_new :
      (b : Bool) (rest : List Call) (s : Privileges)
      → privileges (if b then set_no_new_privs ∷ rest else rest) s
        ≡ privileges rest (if b then record s { no_new = true } else s)
  stage-no_new true rest s = refl
  stage-no_new false rest s = refl

  harden-privileges :
      (args : IsoChildArgs) (execs : Bool) (s : Privileges)
      → privileges (harden args (exec_or_exit execs args.argv)) s ≡ some (hardened args s)
  unfolding harden iso_drop_caps exec_or_exit
  harden-privileges args execs s =
      let start = exec_or_exit execs args.argv in
      let filter = if args.seccomp_deny then install_seccomp ∷ start else start in
      let drops = if args.drop_caps then drop_loop 64 0 (capset_none ∷ filter) else filter in
      let s1 = if args.no_new_privs then record s { no_new = true } else s in
      let s2 = if args.drop_caps then record s1 { capable = false } else s1 in
      stage-no_new args.no_new_privs drops s
      ∙ stage-drop args.drop_caps filter s1
      ∙ stage-filter args.seccomp_deny start s2

  enter_rootfs-privileges :
      (rootfs : List ℕ) (a : IsoAnswers) (rest : List Call) (s : Privileges)
      → privileges (enter_rootfs rootfs a rest) s
        ≡ (if sets_up rootfs a then privileges rest s else none)
  unfolding enter_rootfs iso_setup_rootfs
  enter_rootfs-privileges [] a rest s = refl
  enter_rootfs-privileges (c ∷ cs) a rest s = ground arith

  mount_proc_if-privileges :
      (args : IsoChildArgs) (rest : List Call) (s : Privileges)
      → privileges (mount_proc_if args rest) s ≡ privileges rest s
  unfolding mount_proc_if
  mount_proc_if-privileges args rest s = ground arith

  name_host-privileges :
      (args : IsoChildArgs) (rest : List Call) (s : Privileges)
      → privileges (name_host args rest) s ≡ privileges rest s
  unfolding name_host
  name_host-privileges args rest s = ground arith

  iso_child_entry-privileges :
      (args : IsoChildArgs) (a : IsoAnswers) (s : Privileges)
      → privileges (iso_child_entry args a) s
        ≡ (if reaches_program args a then some (hardened args s) else none)
  unfolding iso_child_entry
  iso_child_entry-privileges args a s =
      let program = harden args (exec_or_exit a.execs args.argv) in
      let proc = mount_proc_if args program in
      let mounted = enter_rootfs args.rootfs a proc in
      let inner = if has_bit args.ns_flags ns_mount then mounted else program in
      name_host-privileges args inner s
      ∙ choose (has_bit args.ns_flags ns_mount) mounted program
          (enter_rootfs-privileges args.rootfs a proc s
            ∙ ap (λ (o : Option Privileges). if sets_up args.rootfs a then o else none)
                (mount_proc_if-privileges args program s ∙ harden-privileges args a.execs s))
          (harden-privileges args a.execs s)
    where
      choose :
          (b : Bool) (xs ys : List Call)
          → privileges xs s ≡ (if sets_up args.rootfs a then some (hardened args s) else none)
          → privileges ys s ≡ some (hardened args s)
          → privileges (if b then xs else ys) s
            ≡ (if not b || sets_up args.rootfs a then some (hardened args s) else none)
      choose true xs ys h k = h
      choose false xs ys h k = k

  -- If no new privileges are asked for, a filter that is asked for is there when the program starts.
  pub iso_child_entry-filtered :
      (args : IsoChildArgs) (a : IsoAnswers) (s : Privileges)
      → ((capable : Bool) → allowed true capable ≡ true)
      → args.no_new_privs ≡ true
      → args.seccomp_deny ≡ true
      → reaches_program args a ≡ true
      → (start : Privileges) × (privileges (iso_child_entry args a) s ≡ some start)
        × (start.no_new ≡ true)
        × (start.filtered ≡ true)
  iso_child_entry-filtered args a s rule no_new deny reaches =
      let main = iso_child_entry-privileges args a s in
      (
        hardened args s,
        main ∙ ap (λ (b : Bool). if b then some (hardened args s) else none) reaches,
        ground (arith, rule (hardened args s).capable),
        ground (arith, rule s.capable, rule false),
      )

  -- If the capabilities are dropped but new privileges are not given up, a filter that is asked for is
  -- refused, and the program starts all the same.
  pub iso_child_entry-unfiltered :
      (args : IsoChildArgs) (a : IsoAnswers) (s : Privileges)
      → allowed false false ≡ false
      → args.no_new_privs ≡ false
      → args.drop_caps ≡ true
      → s.no_new ≡ false
      → s.filtered ≡ false
      → reaches_program args a ≡ true
      → (start : Privileges) × (privileges (iso_child_entry args a) s ≡ some start)
        × (start.filtered ≡ false)
  iso_child_entry-unfiltered args a s rule no_new drop s_no_new s_filtered reaches =
      let main = iso_child_entry-privileges args a s in
      (
        hardened args s,
        main ∙ ap (λ (b : Bool). if b then some (hardened args s) else none) reaches,
        ground arith,
      )

abbrev is_some : Option Privileges → Bool
is_some none = false
is_some (some s) = true

start : Privileges
start = record { no_new = false; capable = true; filtered = false }

execs_in-privileges :
    (allowed : Bool → Bool → Bool) (cs : List Call) (s : Privileges)
    → execs_in cs ≡ is_some (privileges allowed cs s)
execs_in-privileges allowed [] s = refl
execs_in-privileges allowed (execvp argv ∷ cs) s = refl
execs_in-privileges allowed (dup2 a b ∷ cs) s = execs_in-privileges allowed cs s
execs_in-privileges allowed (close fd ∷ cs) s = execs_in-privileges allowed cs s
execs_in-privileges allowed (chdir d ∷ cs) s = execs_in-privileges allowed cs s
execs_in-privileges allowed (setenv k v ∷ cs) s = execs_in-privileges allowed cs s
execs_in-privileges allowed (sethostname n ∷ cs) s = execs_in-privileges allowed cs s
execs_in-privileges allowed (mount m ∷ cs) s = execs_in-privileges allowed cs s
execs_in-privileges allowed (mkdir_old_root ∷ cs) s = execs_in-privileges allowed cs s
execs_in-privileges allowed (pivot_root ∷ cs) s = execs_in-privileges allowed cs s
execs_in-privileges allowed (umount_old_root ∷ cs) s = execs_in-privileges allowed cs s
execs_in-privileges allowed (rmdir_old_root ∷ cs) s = execs_in-privileges allowed cs s
execs_in-privileges allowed (drop_bounding c ∷ cs) s = execs_in-privileges allowed cs s
execs_in-privileges allowed (set_no_new_privs ∷ cs) s =
    execs_in-privileges allowed cs (record s { no_new = true })
execs_in-privileges allowed (capset_none ∷ cs) s =
    execs_in-privileges allowed cs (record s { capable = false })
execs_in-privileges allowed (install_seccomp ∷ cs) s =
    execs_in-privileges allowed cs
      (if allowed s.no_new s.capable then record s { filtered = true } else s)
execs_in-privileges allowed (exit n ∷ cs) s = execs_in-privileges allowed cs s

-- An isolated child starts the program exactly if it is not to have mounts of its own, or has no new
-- root, or every step that gives it the new root succeeds.
pub iso_child_entry-execs :
    (args : IsoChildArgs) (a : IsoAnswers)
    → execs_in (iso_child_entry args a) ≡ reaches_program args a
iso_child_entry-execs args a =
    let allowed : Bool → Bool → Bool = λ n c. n in
    execs_in-privileges allowed (iso_child_entry args a) start
    ∙ ap is_some (iso_child_entry-privileges allowed args a start)
    ∙ some_if (reaches_program args a) (hardened allowed args start)
  where
    some_if : (b : Bool) (s : Privileges) → is_some (if b then some s else none) ≡ b
    some_if b s = ground arith

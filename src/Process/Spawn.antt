-- ===== src/Process/Spawn.antt =====
-- io.cpp: `kyte_process_spawn`, `kyte_process_spawn_ex` and, on Linux, `kyte_process_spawn_isolated`,
-- in the parent. A result is the context, if there is one, and the calls of the new child.
pub mod Frees
pub mod Ends
pub mod Balance
pub mod Outcome
use kyte.Process.System.{
  System, Os, pure, ◌>>=◌, ◌>>◌, close_fd, free_block, new_block, KyteString, CString, to_cstr,
  free_cstr, holds, remove,
}
use kyte.Process.Args.{build_argv, parse_env, text_of}
use kyte.Process.Context.{ProcessContext}
use kyte.Process.Child.{
  Pipes, Call, spawn_child, spawn_ex_child, IsoChildArgs, IsoAnswers, iso_child_entry, has_bit,
  ns_pid, ns_mount, ns_uts, ns_ipc, ns_net, ns_user,
}
use kyte.Prelude.{
  ℕ, zero, suc, ◌+◌, ◌-◌, ◌*◌, ◌/◌, ◌%◌, ◌^◌, ◌≤◌, ◌<◌, min, max, ◌≡◌, refl, sym, ap, ◌∙◌, subst,
  ◌≢◌, ◌↔◌, ◌⊎◌, inl, inr, Bool, true, false, not, ◌&&◌, ◌||◌, xor, Option, none, some, List, [],
  ◌∷◌, ◌++◌, map, append_assoc, append-nil, arith, ltb, leb, ◌==◌, if◌then◌else◌, ltb→lt, lt→ltb,
  leb→le, ==_iff, Bool-cases, Option-cases, ℤ, pos, negsuc, pos_part, neg_part, sub_ℕ, ltb_ℤ, ◌+ℤ◌,
  ◌-ℤ◌, ◌≤ℤ◌, int_laws, eq_of_parts, length, length-append, get_elem?, set, get_or, take, drop,
  replicate,
}

-- The answers of the kernel and of the allocator to one spawn.
pub record Answers : Type 0 where
  pub in_pipe : Option (ℕ × ℕ)
  pub out_pipe : Option (ℕ × ℕ)
  pub process : Option ℕ
  pub stack : Option ℕ
  pub block_cmd : Option ℕ
  pub block_args : Option ℕ
  pub block_third : Option ℕ
  pub block_fourth : Option ℕ
  pub context : ℕ
  pub execs : Bool
  pub enters : Bool
  pub iso : IsoAnswers

abbrev pub Spawned : Type 0
Spawned = Option ProcessContext × List Call

-- `pipe(in_pipe) != 0 || pipe(out_pipe) != 0`; what was opened is closed if one fails.
unfoldable pub open_pipes : Answers → Os (Option Pipes)
open_pipes k = elim (k.in_pipe) [
  | none ↦ pure none
  | some (a, b) ↦ elim (k.out_pipe) [
    | none ↦ λ s. (do close_fd a; close_fd b; pure none) (record s { fds = a ∷ b ∷ s.fds })
    | some (c, d) ↦ λ s. (
      some (record { in_read = a; in_write = b; out_read = c; out_write = d }),
      record s { fds = c ∷ d ∷ a ∷ b ∷ s.fds },
    )
  ]
]

unfoldable pub close_pipes : Pipes → Os Unit
close_pipes p = do
  close_fd p.in_read
  close_fd p.in_write
  close_fd p.out_read
  close_fd p.out_write

-- `fork` or `clone`: a new child that is to be waited for.
unfoldable pub add_child : ℕ → Os Unit
add_child pid s = (tt, record s { children = pid ∷ s.children })

unfoldable pub new_context : Answers → Pipes → ℕ → Os ProcessContext
new_context k p pid = do
  new_block k.context
  pure (record {
    address = k.context;
    pid = pid;
    in_fd = some p.in_write;
    out_fd = some p.out_read;
    exit_code = pos 0;
    reaped = false;
  })

-- The parent after the child was made: it keeps the write end of the child's input and the read end of
-- its output. `release` frees the C strings.
unfoldable pub keep_ends : Answers → Pipes → ℕ → Os Unit → Os ProcessContext
keep_ends k p pid release = do
  close_fd p.in_read
  close_fd p.out_write
  release
  new_context k p pid

unfoldable pub fork_child : Answers → Pipes → Os Unit → List Call → Os Spawned
fork_child k p release child = elim (k.process) [
  | none ↦ do close_pipes p; release; pure (none, [])
  | some pid ↦ do add_child pid; ctx ← keep_ends k p pid release; pure (some ctx, child)
]

-- With the pipes open, or the C strings freed.
unfoldable pub with_pipes : Answers → Os Unit → (Pipes → Os Spawned) → Os Spawned
with_pipes k release run = do
  opened ← open_pipes k
  elim opened [ none ↦ do release; pure (none, []) | some p ↦ run p ]

-- With the copies that C code reads.
unfoldable pub spawn_copied : Answers → KyteString → KyteString → CString → CString → Os Spawned
spawn_copied k cmd args_str c_cmd c_args =
    let release = free_cstr cmd c_cmd >> free_cstr args_str c_args in
    with_pipes k release
      λ p. fork_child k p release (spawn_child p k.execs (build_argv c_cmd c_args))

unfoldable pub process_spawn : Answers → KyteString → KyteString → Os Spawned
process_spawn k cmd args_str = do
  c_cmd ← to_cstr cmd k.block_cmd
  c_args ← to_cstr args_str k.block_args
  spawn_copied k cmd args_str c_cmd c_args

-- The four strings of the other two calls, and their copies.
pub record Strings : Type 0 where
  pub cmd : KyteString
  pub args_str : KyteString
  pub third : KyteString
  pub fourth : KyteString

pub record Copies : Type 0 where
  pub c_cmd : CString
  pub c_args : CString
  pub c_third : CString
  pub c_fourth : CString

unfoldable pub copy_strings : Answers → Strings → Os Copies
copy_strings k t = do
  c_cmd ← to_cstr t.cmd k.block_cmd
  c_args ← to_cstr t.args_str k.block_args
  c_third ← to_cstr t.third k.block_third
  c_fourth ← to_cstr t.fourth k.block_fourth
  pure (record { c_cmd = c_cmd; c_args = c_args; c_third = c_third; c_fourth = c_fourth })

unfoldable pub free_strings : Strings → Copies → Os Unit
free_strings t c = do
  free_cstr t.cmd c.c_cmd
  free_cstr t.args_str c.c_args
  free_cstr t.third c.c_third
  free_cstr t.fourth c.c_fourth

unfoldable pub spawn_ex_copied : Answers → Strings → Copies → Os Spawned
spawn_ex_copied k t c = with_pipes k (free_strings t c) λ p. fork_child k p (free_strings t c) (
    spawn_ex_child p (text_of c.c_fourth) k.enters (parse_env c.c_third) k.execs
      (build_argv c.c_cmd c.c_args))

-- The environment is the third string and the working directory the fourth.
unfoldable pub process_spawn_ex : Answers → Strings → Os Spawned
process_spawn_ex k t = do c ← copy_strings k t; spawn_ex_copied k t c

pub data CloneFlag : Type 0 where
  sigchld newpid newns newuts newipc newnet newuser : CloneFlag

unfoldable pub clone_flags : ℕ → List CloneFlag
clone_flags ns =
    sigchld
    ∷ ((if has_bit ns ns_pid then newpid ∷ [] else [])
        ++ ((if has_bit ns ns_mount then newns ∷ [] else [])
            ++ ((if has_bit ns ns_uts then newuts ∷ [] else [])
                ++ ((if has_bit ns ns_ipc then newipc ∷ [] else [])
                    ++ ((if has_bit ns ns_net then newnet ∷ [] else [])
                        ++ (if has_bit ns ns_user then newuser ∷ [] else []))))))

unfoldable pub map_stack : ℕ → Os Unit
map_stack p s = (tt, record s { stacks = p ∷ s.stacks })

unfoldable pub unmap_stack : ℕ → Os Unit
unmap_stack p s = (
  tt,
  if holds p s.stacks
      then record s { stacks = remove p s.stacks }
      else record s { faults = s.faults + 1 },
)

-- `cloned` is the answer of `clone`. The stack stays mapped if it succeeds.
unfoldable pub clone_child : Answers → Pipes → Os Unit → Option ℕ → List Call → Os Spawned
clone_child k p release cloned child = elim (k.stack) [
  | none ↦ do close_pipes p; release; pure (none, [])
  | some stack ↦ elim cloned [
    | none ↦ do map_stack stack; unmap_stack stack; close_pipes p; release; pure (none, [])
    | some pid ↦ do
      map_stack stack
      add_child pid
      ctx ← keep_ends k p pid release
      pure (some ctx, child)
  ]
]

-- The flags of the requested isolation.
pub record Isolation : Type 0 where
  pub ns_flags : ℕ
  pub drop_caps : Bool
  pub no_new_privs : Bool
  pub seccomp_deny : Bool

unfoldable pub child_args : Isolation → Pipes → Copies → IsoChildArgs
child_args o p c = record {
  argv = build_argv c.c_cmd c.c_args;
  in_fd = p.in_read;
  out_fd = p.out_write;
  ns_flags = o.ns_flags;
  rootfs = text_of c.c_third;
  hostname = text_of c.c_fourth;
  drop_caps = o.drop_caps;
  no_new_privs = o.no_new_privs;
  seccomp_deny = o.seccomp_deny;
}

-- `kernel_clone` is what `clone` answers with some flags.
unfoldable pub isolated_copied :
    (List CloneFlag → Option ℕ) → Answers → Isolation → Strings → Copies → Os Spawned
isolated_copied kernel_clone k o t c = with_pipes k (free_strings t c) λ p.
    clone_child k p (free_strings t c) (kernel_clone (clone_flags o.ns_flags))
      (iso_child_entry (child_args o p c) k.iso)

-- The new root is the third string and the host's name the fourth.
unfoldable pub process_spawn_isolated :
    (List CloneFlag → Option ℕ) → Answers → Isolation → Strings → Os Spawned
process_spawn_isolated kernel_clone k o t = do
  c ← copy_strings k t
  isolated_copied kernel_clone k o t c

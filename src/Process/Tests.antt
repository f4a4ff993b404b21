-- ===== src/Process/Tests.antt =====
-- Instances of the theorems on child processes, and tests.
use kyte.Process.System.{System, to_cstr, free_cstr}
use kyte.Process.Args.{text_of, build_argv}
use kyte.Process.Args.Lines.{build_argv-join_lines}
use kyte.Process.Context.{ProcessContext, interrupted, ended, exit_code_of}
use kyte.Process.Child.{
  Pipes, spawn_child, spawn_ex_child, IsoChildArgs, IsoAnswers, iso_child_entry, has_bit,
}
use kyte.Process.Filter.{
  Syscalls, SeccompData, iso_filter, run, is_denied, ret_allow, ret_eperm, iso_filter-denies,
}
use kyte.Process.Child.Descriptors.{Table, after, spawn_children-connected}
use kyte.Process.Child.OwnPipes.{iso_child_entry-connected}
use kyte.Process.Child.Isolation.{
  execs_in, reaches_program, Privileges, privileges, iso_child_entry-unfiltered,
  iso_child_entry-execs,
}
use kyte.Process.Spawn.{
  Answers, process_spawn, process_spawn_ex, Strings, Isolation, process_spawn_isolated, open_pipes,
  with_pipes, fork_child, spawn_copied, keep_ends, new_context, add_child,
}
use kyte.Process.Spawn.Balance.{outcome, iso_outcome, IsSettled}
use kyte.Process.Spawn.Outcome.{process_spawn_ex-outcome, process_spawn_isolated-outcome}
use kyte.Process.Lifetime.{wait_and_free, spawn-wait_and_free}
use kyte.Prelude.{
  ℕ, ◌*◌, ◌≡◌, refl, Bool, true, false, ◌||◌, none, some, List, [], ◌∷◌, arith, if◌then◌else◌, pos,
  length,
}

-- "ls", "-l" and an empty argument; the variable "A" with "b=c".
abbrev ls : List ℕ
ls = 108 ∷ 115 ∷ []

abbrev long_format : List ℕ
long_format = 45 ∷ 108 ∷ []

build_argv-join_lines_example :
    build_argv (some (16, ls)) (some (32, 45 ∷ 108 ∷ 10 ∷ []))
    ≡ text_of (some (16, ls)) ∷ long_format ∷ [] ∷ []
build_argv-join_lines_example =
    build_argv-join_lines (some (16, ls)) 32 (long_format ∷ [] ∷ []) refl

abbrev iso_answers : IsoAnswers
iso_answers = record {
  makes_private = true;
  binds = true;
  enters = true;
  pivots = false;
  enters_root = true;
  execs = true;
}

abbrev answers : Answers
answers = record {
  in_pipe = some (3, 4);
  out_pipe = some (5, 6);
  process = some 900;
  stack = some 4096;
  block_cmd = some 100;
  block_args = some 200;
  block_third = some 300;
  block_fourth = none;
  context = 500;
  execs = true;
  enters = true;
  iso = iso_answers;
}

-- A parent that holds the standard descriptors.
abbrev parent : System
parent = record { fds = 0 ∷ 1 ∷ 2 ∷ []; blocks = 7 ∷ []; stacks = []; children = []; faults = 0 }

abbrev context : ProcessContext
context = record {
  address = 500;
  pid = 900;
  in_fd = some 4;
  out_fd = some 5;
  exit_code = pos 0;
  reaped = false;
}

spawned : (process_spawn answers (some (16, ls)) none parent).0.0 ≡ some context
unfolding process_spawn spawn_copied to_cstr free_cstr with_pipes open_pipes fork_child keep_ends
    new_context add_child
spawned = refl

-- The child exits with 1 after two interrupted calls.
spawn-wait_and_free_example :
    wait_and_free context
      (interrupted ∷ interrupted ∷ ended 256 ∷ [])
      interrupted
      (process_spawn answers (some (16, ls)) none parent).1
    ≡ (some (exit_code_of 256), parent)
spawn-wait_and_free_example =
    spawn-wait_and_free answers (some (16, ls)) none context 2 256 [] interrupted parent refl
      (refl, refl, (refl, refl, tt)) spawned

abbrev strings : Strings
strings = record {
  cmd = some (16, ls);
  args_str = some (24, long_format);
  third = some (40, 65 ∷ 61 ∷ []);
  fourth = some (60, 47 ∷ []);
}

process_spawn_ex-outcome_example :
    IsSettled outcome parent (process_spawn_ex answers strings parent)
process_spawn_ex-outcome_example =
    process_spawn_ex-outcome answers strings parent refl
      (refl, refl, (refl, refl, (refl, refl, (refl, refl, tt))))

abbrev isolation : Isolation
isolation = record { ns_flags = 7; drop_caps = true; no_new_privs = false; seccomp_deny = true }

process_spawn_isolated-outcome_example :
    IsSettled
      (iso_outcome (some 4096))
      parent
      (process_spawn_isolated (λ _. some 900) answers isolation strings parent)
process_spawn_isolated-outcome_example =
    process_spawn_isolated-outcome (λ _. some 900) answers isolation strings parent refl
      (refl, refl, (refl, refl, (refl, refl, (refl, refl, tt))))

abbrev pipes : Pipes
pipes = record { in_read = 3; in_write = 4; out_read = 5; out_write = 6 }

-- Open file 10 n is behind descriptor n.
abbrev table : Table
table fd = some (10 * fd)

spawn_children-connected_example :
    (after (spawn_child pipes true (ls ∷ [])) table 1 ≡ some 60)
    × (after (spawn_ex_child pipes (47 ∷ []) false [] true (ls ∷ [])) table 1 ≡ some 60)
spawn_children-connected_example =
    spawn_children-connected pipes (47 ∷ []) false [] true (ls ∷ []) table 30 60 1
      (record {
        in_read_high = omega arith;
        in_write_high = omega arith;
        out_read_high = omega arith;
        out_write_high = omega arith;
      })
      refl refl

abbrev iso_args : IsoChildArgs
iso_args = record {
  argv = ls ∷ [];
  in_fd = 3;
  out_fd = 6;
  ns_flags = 2;
  rootfs = 47 ∷ [];
  hostname = [];
  drop_caps = true;
  no_new_privs = false;
  seccomp_deny = true;
}

-- The write end of its own input stays open in an isolated child.
iso_child_entry-connected_example : after (iso_child_entry iso_args iso_answers) table 4 ≡ some 40
iso_child_entry-connected_example =
    iso_child_entry-connected iso_args iso_answers table 30 60 4 (omega arith) (omega arith) refl
      refl

iso_child_entry-execs_example :
    execs_in (iso_child_entry iso_args iso_answers) ≡ reaches_program iso_args iso_answers
iso_child_entry-execs_example = iso_child_entry-execs iso_args iso_answers

not_reached : reaches_program iso_args iso_answers ≡ false
unfolding has_bit
not_reached = refl

-- The rule of seccomp(2): without new privileges, or with CAP_SYS_ADMIN.
abbrev rule : Bool → Bool → Bool
rule no_new capable = no_new || capable

abbrev root : Privileges
root = record { no_new = false; capable = true; filtered = false }

abbrev no_mounts : IsoChildArgs
no_mounts = record iso_args { ns_flags = 0 }

no_mounts-reached : reaches_program no_mounts iso_answers ≡ true
unfolding has_bit
no_mounts-reached = refl

iso_child_entry-unfiltered_example :
    (start : Privileges) × (privileges rule (iso_child_entry no_mounts iso_answers) root
      ≡ some start)
    × (start.filtered ≡ false)
iso_child_entry-unfiltered_example =
    iso_child_entry-unfiltered rule no_mounts iso_answers root refl refl refl refl refl
      no_mounts-reached

-- The numbers of x86-64. There, `mount` in the mode of 32 bits has the number 21.
abbrev x86_64 : Syscalls
x86_64 = record { unshare = 272; setns = 308; mount = 165; pivot_root = 155; ptrace = 101 }

abbrev mount_32 : SeccompData
mount_32 = record { nr = 21; arch = 0x40000003 }

iso_filter-denies_example :
    run (length (iso_filter x86_64)) 0 (iso_filter x86_64) mount_32
    ≡ some (if is_denied x86_64 21 then ret_eperm else ret_allow)
iso_filter-denies_example = iso_filter-denies x86_64 mount_32

mount_32_allowed : is_denied x86_64 21 ≡ false
mount_32_allowed = refl

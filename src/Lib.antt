-- ===== src/Lib.antt =====
-- Kyte runtime: a model of the C++ runtime that every compiled Kyte program is linked with
-- (src/runtime).
--
-- Parts and files:
--
-- Prelude: tests on numbers, lists measured by native numbers, integers, and the libraries' names.
--
-- Decimal models src/runtime/decimal.cpp, the decimal128 type of the language. A decimal is passed
-- by a pointer to 16 bytes; here it is the number that those bytes hold in little-endian order.
--   Word: the packing of sign, exponent and coefficient (`kyte_dec128_pack`, `dec_decode`).
--   Digits: `dec_num_digits`, `dec_pow10`, `dec_round_drop` in unsigned 128-bit arithmetic.
--   Encode: `dec_encode`, split into `normalize` (rounding to 34 digits) and the packing.
--   Returned: the word of a result read back, with its exponent clamped.
--   Arith: `dec_align`, `kyte_decimal_add`, `_sub`, `_mul`, `_div`, `_mod`, `_cmp`, with a file of
--     theorems for each group.
--   Convert: `kyte_decimal_from_int`, `kyte_decimal_to_int`.
--   Strings: `dec_parse_bounded`, `kyte_decimal_from_string_n`, `kyte_decimal_to_string`. Numeral says what
--     a text denotes; Taking and Scanning follow the loop over the digits, Rounding its end, Exponents and
--     Parsing the rest; Printing and Placing read the printed text, RoundTrip both, Buffer its length.
-- Products and sums of coefficients are taken modulo 2^128 as the source takes them. `int` exponents are
-- integers: the exponents of a word lie between -6176 and 10207, and no operation moves them far enough to
-- overflow 32 bits; an exponent that is read from a text can, and the result is then `none`. `panic` stands
-- for `kyte_panic_cstr`, which does not return, and `undefined` for a division by zero. Fuel: counting
-- digits takes 39 rounds at most since 2^128 is below 10^39, stripping zeros as well; the digits of a
-- coefficient below 2^113 are fewer than the 40 of their buffer; trimming two factors takes fewer than 80,
-- and the theorem on the product of any two words shows that it ends by its test.
--
-- Memory models src/runtime/alloc.cpp, the objects of a running program. A pointer is a number; the
-- fields of the object headers and the payload bytes are functions of the address.
--   Table: `g_live`, the table of live objects (`live_insert`, `live_contains`, `live_remove`).
--   State: the allocator's globals as one record, the headers, the ring of dead objects, the audit.
--   Arena: `kyte_bytes_alloc` in both builds, `kyte_arena_mark`, `kyte_arena_reset`, persistent
--     objects; Layout and Zeroed have its theorems.
--   Count: `kyte_retain`, `kyte_release` on the plain and on the atomic path, `kyte_bytes_free`;
--     Lifetime and Balance have the theorems on sequences of calls.
--   Audit: what the audit counts.
-- `mmap`, `malloc` and `realloc` are answers that a call is given, for any address; a destructor is a
-- function on the whole memory. `int32_t` fields wrap. The spin lock around the table and the printing
-- are left out.
--
-- Uring models the rings of src/runtime/uring.cpp; positions are 32-bit numbers that wrap.
--   Slots: positions and the slots of a queue. Submit: `kyte_uring_prep` and
--     `kyte_uring_submit_and_wait`. Timed: `kyte_uring_submit_and_wait_ms`. Complete:
--     `kyte_uring_cq_ready`, `kyte_uring_peek`, `kyte_uring_advance`.
-- The number of entries is a power of two, as the kernel makes it, so that a mask is a remainder; what
-- the kernel does to a ring during a call is a function.
--
-- Channel models the two channels of src/runtime/concurrency.cpp.
--   Blocking: any number of threads in `kyte_channel_send` and `kyte_channel_recv`, as a step relation
--     in which `notify_one` wakes any waiting thread; LostWakeup shows what that can do.
--   Async: `kyte_chan_send` and `kyte_chan_recv`, with the coroutines that wait, those that were
--     scheduled and have not yet tried again, and those that are done. Served has the theorem.
--
-- Reactor models the scheduler of one thread in src/runtime/concurrency.cpp: the run queue, awaiting
-- coroutines, `kyte_when_any` and `kyte_when_any_deadline`, the frames it destroys, `reactor_finish`,
-- `reactor_pump`, `kyte_reactor_resume`.
--   Awaiting: the scheduler's operations in any order, and a coroutine that awaits another one.
--     Resuming: a resumption, with the queue it drains, as such operations. WhenAny: the first of
--     several. Reaping: destroyed frames and late events.
-- The code of the coroutines is a function that may change the whole state. `reactor_pump` has fuel,
-- since coroutines can keep the queue filled for ever; no theorem depends on how much.
--
-- Text models helpers of src/runtime/core.cpp; a string is a list of bytes.
--   Integers: `kyte_i64_fmt`, the digits of a 64-bit integer, with 20 rounds of fuel since 2^64 is below
--     10^20. BigEndian: `kyte_pg_be_i64`, the integers of the Postgres driver.
--   Urls: `kyte_url_sanitize`, the filter of URLs.
--   Html: `kyte_html_scan`, `kyte_html_find_meta` on words of eight bytes, `kyte_html_escape`. Lanes and
--     Hits follow the bytes of a word, Words the count of its trailing zeros (64 rounds for 64 bits),
--     Search the loop, Escape the text and its memory.
--
-- Crypto models src/runtime/crypto.cpp.
--   Random: `kyte_getrandom` and the buffer it fills; what the system answers is a parameter. Aes: the block cipher in C.
--   Counter: `kyte_aes_ctr_c`, with the theorem on a text that is encrypted twice in Stream.
--   Features: `kyte_x86_detect` from the answers of `cpuid`, and the routine that each entry point takes.
-- The tests of Aes run the vectors of FIPS 197.
--
-- OpPool models the pool of operation records in src/runtime/core.cpp, `kyte_op_alloc` and
-- `kyte_op_free` of one thread. Owners: each record is in the pool or with one caller. Handing: what the
-- two calls do to that. Calls: any sequence of calls with one size.
--
-- Process models the child processes of src/runtime/io.cpp and the C strings of
-- src/runtime/runtime_str.h. What a process holds is a record of lists; the kernel and the allocator
-- answer each call.
--   System: descriptors, blocks, mappings, children, and the calls that change them.
--   Args: `kyte_build_argv` and the parse of an environment. Context: `kyte_process_wait`,
--     `_try_wait`, `_kill`, `_free`, `_write_stdin`, `_read_stdout`.
--   Child: the calls of a new child, also of `iso_child_entry`; Descriptors and OwnPipes follow its
--     descriptors, Isolation its privileges.
--   Spawn: `kyte_process_spawn`, `_spawn_ex` and, on Linux, `_spawn_isolated`; Frees, Ends, Balance and
--     Outcome have their theorems. Lifetime: a child from its spawn to its release.
--   Filter: the program of `iso_install_seccomp`, run on a system call.
-- The kernel's rule for installing a filter is a parameter.
--
-- Not modelled: the event loops of the reactor and the wake-ups between threads, making and destroying a
-- ring, the other text helpers, the one-shot Poly1305 and the assembly of the cryptography, failure of
-- `kyte_bytes_alloc` in decimal.cpp (which would write to a null pointer), operating system calls, locks,
-- logging and the crash handler.
pub mod Channel
pub mod Crypto
pub mod Decimal
pub mod Memory
pub mod OpPool
pub mod Prelude
pub mod Process
pub mod Reactor
pub mod Text
pub mod Uring

-- ===== src/Lib.antt =====
-- GlassOS: the C part of the kernel (kernel/*.c), as functions on its static variables.
--
-- The state. Kernel.antt has one record for the statics of each file, and the record Kernel of all of
-- them with the bytes that left by COM1 (`serial`) and by port 0xE9 (`console`). An operation that
-- reads and writes statics is a function Kernel → A × Kernel (M A), written as a do block where the
-- source is a series of calls. An operation on one component only is a function on its record.
--
-- The parts, and how they call each other:
--   Text (Text.antt): the string helpers that kernel/object.c, kernel/event.c, kernel/policy.c,
--     kernel/config.c and kernel/main.c each declare for themselves. A C string is the list of
--     its bytes before the NUL. Bounded copies and appends keep their capacities.
--   Screen (Screen.antt): kernel/vga.c, cells, cursor, window mode and cursor registers.
--   Console (Console.antt): print_char of kernel/vga.c, which sends a byte to the two ports and to the
--     screen, the printing of strings, ints and hexadecimal numbers, and printf. Console/Output.antt
--     has the relation of two states that differ by what was printed.
--   Objects (Object.antt): kernel/object.c, the registry of at most 128 objects. Every other part
--     registers objects, and the journal reads their ids and revisions.
--   Events (Event.antt): kernel/event.c, the ring of 128 events, the serial line of each event, and the
--     table of at most 32 transactions. object_update_state of kernel/object.c stands here too, since it
--     records an event.
--   Policy (Policy.antt): kernel/policy.c, the parser of the policy text, the table of at most 64
--     rules, decisions, and changes. Each decision is recorded as an event.
--   Memory (Memory.antt, Memory/Boot.antt): kernel/memory.c, the bitmaps of pages, the allocator of
--     runs of pages, the heap, and memory_init over the memory map of the boot loader.
--   Page tables (Paging.antt): the address spaces of kernel/memory.c, in a memory of bytes that is
--     the field `physical`, and CR3. Paging/Walk.antt is the CPU's translation, which the tables are
--     written for.
--   Reports (Report.antt): the functions of kernel/object.c, kernel/event.c and kernel/policy.c that
--     print events, chains, histories, transactions, rules and objects.
--   Configuration (Config.antt): kernel/config.c. A write updates the state of the key's object.
--   File system (Ramfs.antt): kernel/ramfs.c, with the contents of its four files.
--   Keyboard (Keyboard.antt): kernel/keyboard.c, the line on its array, the history, and the handler
--     of a scancode, with all of its calls of the screen.
--   User (User.antt, User/Syscall.antt, User/Demo.antt): kernel/user.c. The processes and the loading
--     of a program; the four system calls, the trap and the fault handler; and user_run_demo. A trap
--     goes through the journal, the policy, the registry and the page tables.
--   Shell (Shell.antt, Shell/Commands.antt, Shell/Modules.antt, Shell/Round.antt): kernel/main.c. The
--     splitting of a line, the commands, the lines of a module, and a round of the loop: the command's
--     event, its transaction, the branch for its word, and the commit or abort at the end.
--   Interrupts (Interrupts.antt): kernel/idt.c, the gates, the descriptors, the writes to the interrupt
--     controllers, and exception_handler; with panic_impl of kernel/panic.c, timer_handler of
--     kernel/timer.c and the numbers of kernel/serial.c. The tables are a record that init_idt makes.
--   Boot (Boot.antt): kernel_main of kernel/main.c up to its loop, each ASSERT with its panic.
-- The modules below a part hold its proofs. Event/Frame.antt says what the recording of an event
-- leaves alone, and its rulesets are what the proofs of the clients rewrite by. Quiet.antt has the
-- relation of two states that differ in nothing but registry, journal, screen and ports, and
-- Quiet/Bounded.antt the bounds of the tables; the modules of the shell and of the system calls state
-- their effects by these. Shell/Words.antt has the words of the commands as a table.
-- Shell/Effect.antt and Shell/Outcome.antt are about one command, Shell/Rounds.antt and
-- Shell/Closing.antt about a round, and Shell/Session.antt about a sequence of lines. Tests.antt and
-- the modules below it hold runs and applications at concrete inputs.
--
-- Numbers: a uint64_t or uint32_t that can wrap has its modulus written out; a difference is only
-- taken where the source has tested for it, and the cursor of the screen never falls below 0.
-- A page mask is a division, and a bit of a bitmap is set and cleared by the bit operations on a byte.
-- Pointers that may be null are options. The int history_cursor with its -1 is an option too.
--
-- Loops: counting loops are for_range of Prelude/Loops.antt or a recursion on the rounds left, and the
-- walks over strings and tables are recursions on the list. The two loops of memory_init over the
-- memory map have no such bound; they run on mmap_length rounds, which is enough since each entry
-- takes at least 24 bytes. event_print_chain calls itself for the parent of an event, and runs on
-- next_sequence rounds, which is enough where a parent is older than its event. A module of the RAM
-- file system is executed on the lines that it splits into.
--
-- Parameters: `source` is base_policy_source, which the build makes from policy/base.policy. BootData
-- is what the boot loader and the linker provide: the bounds of the kernel image and the contents of
-- the multiboot structure and of the memory map; Layout has the addresses of tables and handlers. `enter` is user_enter_ring3, the assembler that runs
-- a program in ring 3 until a contained fault brings the kernel back.
--
-- Readings: a byte of user memory that has no translation reads as 0, where the CPU would fault. The
-- text that event_print_transaction_name prints from beyond the end of a short query is empty. CR2 is
-- a field of the state that nothing in C writes. The translation lookaside buffer is not state.
--
-- Not modelled: zero_bss, the loops that drain the keyboard controller and wait for a key, the prompt,
-- and the commands of the test builds, in kernel/main.c. Port input and output is not state, but for
-- the bytes above, the registers of the cursor and the writes of init_idt. The assembler under boot and
-- kernel and the scripts under tests are not modelled.
--
-- The theorems at concrete inputs stand in the modules below Tests.antt, with runs of the definitions.
pub mod Prelude
pub mod Text
pub mod Screen
pub mod Kernel
pub mod Console
pub mod Object
pub mod Event
pub mod Policy
pub mod Memory
pub mod Report
pub mod Quiet
pub mod Paging
pub mod Config
pub mod Ramfs
pub mod Keyboard
pub mod User
pub mod Interrupts
pub mod Shell
pub mod Boot
pub mod Tests

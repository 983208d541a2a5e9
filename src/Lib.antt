-- ===== src/Lib.antt =====
-- Multiplix: a small operating system with a kernel in D for riscv64 and aarch64, the tool that
-- builds its file system images, and the CoreMark benchmark as a workload.
--
-- The parts and the files that model them:
--
--   src/plix/alloc/buddy.d -- Kernel/Alloc/Buddy.antt. The allocator of the kernel's heap. One
--     function for each method, with its name. The links of the free lists are in the memory of the
--     free blocks (`next`), as in the source. Chain is one list, Cover counts the bytes that the
--     free blocks cover, State says what a well-formed heap is, Insert and Take do one list
--     operation each, Halves is about buddies, Allocate and Dealloc are the loops, Order the
--     rounding of sizes, Laws the operations whole, Cycle what happens over time.
--   src/plix/schedule.d -- Kernel/Schedule.antt. The queues of processes, linked in both directions
--     through the processes; `wake` moves a process from one queue to the run queue.
--   lib/core/math.d -- Kernel/Math.antt. `log2ceil` and `pow2ceil`.
--   tools/mkfs/mkfs.c, tools/mkfs/fs.h -- Mkfs.antt. Bytes has the byte order of integers (`xint`,
--     `xshort`), Disk the image file (`rsect`, `wsect`), Inode the inodes (`rinode`, `winode`,
--     `ialloc`), Append the growth of a file (`iappend`), Main `balloc` and `main`, whose arguments
--     come with what each `read` of an input file returns. A run passes the state, that is the
--     sectors and the two counters, and ends in `ok` or in one of the ways in which the program
--     stops.
--   coremark/core_util.c -- Coremark/Crc.antt. The CRC, with `ee_s16` as its bit pattern.
--   coremark/core_state.c -- Coremark/State.antt. The state machine over comma-separated tokens and
--     its benchmark; Progress shows that it ends, Corrupt what the corruption does. State/Init has
--     `core_init_state`, which fills the block with tokens: Tokens is about one token, Block about
--     the loop over them.
--   coremark/core_matrix.c -- Coremark/Matrix.antt. The matrix operations and `matrix_test`.
--     Restored is about adding a constant and taking it away again. Matrix/Init has
--     `core_init_matrix`: Space is the room that the matrices take, Cells what they hold.
--   coremark/core_list_join.c -- Coremark/ListJoin.antt. The list operations on a memory of cells.
--     ListJoin/Sort has the merge sort, which takes its comparison as an argument: Merging is the
--     merging of two lists as a specification, Chains the links of cells, Moves one move of a cell,
--     Turns a turn of the merging loop, Rounds that loop, Chunks the parts of the list between two
--     passes, Along the steps along a part, Passes one pass, Order the loop over passes, ByIdx the
--     sort by `cmp_idx`. ListJoin/Find is about `core_list_find`. ListJoin/Bench has `calc_func`,
--     `cmp_complex` and `core_bench_list`, ListJoin/Init `core_list_init`.
--   coremark/core_util.c -- Coremark/Parseval.antt. `parseval`, the value of a number in text.
--   coremark/multiplix/ee_printf.c -- Coremark/Printf.antt. The formatting of integers, strings and
--     addresses, with the text that is appended in place of the pointer into the buffer. Digits has
--     the digits of a number, Width the field around it, Fields the parts of a directive before its
--     conversion, Format the conversions and the loop over the format: its Progress is about the
--     format that is left, Supplied and Written about the arguments.
--   coremark/core_main.c, coremark/multiplix/core_portme.c -- Coremark/Main.antt. `iterate` over the
--     list, the matrix and the state machine, the seeds, and how the block of data is shared out.
--     Main/Report has the verdict on the results and what `main` does as a whole, with the time of a
--     run as an argument.
--   Prelude.antt has what the parts share: lists over the native numbers, Boolean tests, and the
--     laws of the bit operations.
--
-- Numbers are natural numbers with the wrap-around of the source written out. Addresses of the
-- buddy allocator do not wrap: the heap lies below the end of the address space. A link of a free
-- block takes 8 bytes, and the model keeps one link for each address, which is right where the least
-- block has 8 bytes or more. A null pointer of a list that is read or written through gives `none`.
-- The matrices A and B are parts of one memory of 16-bit cells when they are filled in; the benchmark
-- takes the cells from each pointer on as a list.
--
-- Bounds and fuel. `log2_loop` has 64 rounds, after which a word is 0; `pow2_loop` has 65, since the
-- loop of the source does not end once the power is 0. `free_list_remove` has a round for each byte
-- of the heap and one more, and a list has no more blocks than the heap has bytes. `append_loop` has
-- a round for each byte of the data, since each round writes one or more. The loops of
-- `core_bench_state` have a round for each byte of the block and one more.
--
-- The loops over lists in Coremark/ListJoin.antt have fuel as an argument, since a list may be a
-- ring; the merge sort needs more than twice the number of cells. `format_loop` has a round for each
-- byte of the format and one more, `tmp_loop` 64 rounds, one for each bit of the number, which has no
-- more digits than that in any base. `token_loop` has a round for each byte of the memory and two
-- more, and the search for the size of a matrix one for each byte of the block and one more.
--
-- Not modelled: the rest of the kernel, which is the block allocator, page tables, the life of a
-- process, the loop of the scheduler, files, and the drivers, traps and assembly that talk to devices
-- and registers; the code of ee_printf.c and cvt.c for floating-point numbers, which the port switches
-- off; the lines of CoreMark's report and the output of characters; the user programs, and the host
-- tools in Go, which talk to boards.
pub mod Prelude
pub mod Kernel
pub mod Mkfs
pub mod Coremark

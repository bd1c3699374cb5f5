-- ===== src/Lib.antt =====
-- Freecell Solver: its cards and states, the moves on them, and the containers of its scans.
--
-- The program solves games of FreeCell and its kin. A board is read into a state, cards in columns,
-- freecells and foundations (source/state.h). A scan takes states from a container, here the
-- priority queue of the best-first scans (source/pqueue.h), derives others from them by moves,
-- canonizes these (source/state.c) so that boards that differ in the order of their columns or
-- freecells are one state, and keeps the ones that are new in a hash (source/fcs_hash.c). The
-- solution is a list of moves that is applied to the first state again (source/move.c). The database
-- solvers store states as short strings of bits (source/bit_rw.h, source/delta_states.c) or as
-- numbers in varying bases (source/var_base_writer.h, source/var_base_reader.h).
--
-- Files and code:
-- - Prelude: shared names, tests, lists, arrays as functions, integers, bits.
-- - BitRw: source/bit_rw.h. `BitWriter` and `BitReader` carry the memory that they point into, a
--   function of addresses; `writer_write` is fc_solve_bit_writer_write and `reader_read` is
--   fc_solve_bit_reader_read. BitRw/Stream reads the memory as a sequence of bits, BitRw/RoundTrip
--   is about one write, BitRw/Fields about sequences of them.
-- - Gmp: what the two files below rely on in GMP, operations and laws; a numeric instance.
-- - VarBase: source/var_base_writer.h and source/var_base_reader.h, over any such GMP.
-- - Pqueue: source/pqueue.h. `push` and `pop` are fc_solve_pq_push and fc_solve_pq_pop, their
--   loops `sift_up` and `sift_down`. Pqueue/Cells states the heap order.
-- - OffloadingQueue: the linked list of source/offloading_queue.h, over a heap of cells. `insert` and
--   `extract` are fcs_offloading_queue__insert and fcs_offloading_queue__extract;
--   OffloadingQueue/Chains is about lists in the heap, OffloadingQueue/Insert about insertion,
--   OffloadingQueue/Fifo about extraction and sequences of both.
-- - DepthMultiQueue: source/depth_multi_queue.h, over the operations of such queues, `QueueOps`.
--   `insert` and `extract` are fcs_depth_multi_queue__insert and fcs_depth_multi_queue__extract, whose
--   loop has fuel for each depth; DepthMultiQueue/Insert states what the queues are to keep and is
--   about insertion, DepthMultiQueue/Least about extraction, and DepthMultiQueue/Tests takes the lists
--   of OffloadingQueue for the queues.
-- - Card: the card macros of source/state.h and the conversions of source/card.c.
-- - Deal: the random numbers of source/rand.h, and the boards of Microsoft FreeCell that
--   source/range_solvers_gen_ms_boards.h and source/board_gen/pi_make_microsoft_freecell_board.c
--   deal with such numbers. `get_board_l` is fc_solve_get_board_l; Deal/Shuffle is about the cards
--   dealt, Deal/Board about the text, Deal/Generators about the numbers and the second program.
-- - Delta: columns and freecells as bits, from source/delta_states.c. `encode_column` makes the writes
--   of fc_solve_get_column_encoding_composite, `decode_column` is the body of the loop over the
--   columns in fc_solve_delta_stater_decode. Delta/Chain is about the cards that are stored by a bit,
--   Delta/Fields about the writes, Delta/Sequence and Delta/RoundTrip about decoding, and
--   Delta/Freecells about fc_solve_get_freecells_encoding; Delta/Width is about the width of the
--   counts, from fc_solve_delta_stater_alloc, and Delta/Copy and Delta/Stored about the copy of the
--   columns' bits at the end of fc_solve_delta_stater_encode_composite.
-- - Hash: source/fcs_hash.c and source/fcs_hash.h. `hash_insert` is fc_solve_hash_insert and `rehash`
--   fc_solve_hash_rehash. Hash/Chains is about the search along a chain, Hash/Contents about the
--   table as a collection of items, Hash/Rehash and Hash/Insert about the two functions, and
--   Hash/Foreach about fc_solve_hash_foreach.
-- - InsertionSort: the sorting loops of source/state.c, with and without locations.
-- - State: source/state.h's accessors, and comparisons (State/Orders), fc_solve_canonize_state and
--   fc_solve_canonize_state_with_locs (State/Canonize), fc_solve_check_state_validity
--   (State/Validity). State/Count reads a state as a collection of cards.
-- - Move: source/move.c's fc_solve_apply_move. Move/Single is about one move, Move/Conservation
--   about sequences of moves. Move/Stack is the stack of moves of source/move.h, Move/Played
--   the stacks of moves that are all legal, or all meet what a game asks.
-- - Solution: `trace_solution` is fc_solve_trace_solution of source/instance.c, and
--   `move_stack_normalize` fc_solve_move_stack_normalize of source/move.h, which
--   trace_flare_solution of source/lib.c calls on it. Solution/Plain has both with room for any
--   number of moves, Solution/Overflow tells the two apart, Solution/Rules says what a game asks of a move. Solution/Follow relates a state
--   to the board that it follows through locations, Solution/Steps is about one move,
--   Solution/Chain about the whole.
-- - Freecell: the tests of source/freecell.c, with the helpers of
--   source/meta_move_funcs_helpers.h. `Deriving` is the new state with its moves and its
--   copy-on-write flags, from fc_solve_sfs_check_state_begin on; a test gives the list of the
--   states that it derives. One file has each test, or tests that are alike: Founds, Covered,
--   OnStacks, SameStack, DifferentStacks, DifferentParent, FreeStacks, Vacant, Atomic, with the
--   proofs there or in a file whose name ends in Recorded. Freecell/Empty is
--   empty_two_cols_from_new_state, Freecell/Positions the positions by rank of source/scans.c,
--   Freecell/Sort is sort_derived_states, and Freecell/Prune is fc_solve_sfs_raymond_prune.
--   Freecell/Recorded says what it is to be derived by moves, Freecell/Primitives and
--   Freecell/Sequence show it of each move, Freecell/Tidy and Freecell/Suited are about what the
--   tests need of a state and the moves keep, and Freecell/Explore puts the tests, the states
--   and the traced solution together.
--
-- The configuration is the one of source/config.h: one byte to a card, indirect stacks, no flipped
-- cards, FreeCell's rules. Columns are lists, whose lengths the code keeps in a byte; arrays are
-- functions of the index, of which the loops touch a given number of cells. The loops of pqueue.h
-- run on fuel, the number of elements, and so does the loop that takes the bytes out of a number,
-- on one more than the number of bytes; `none` stands for fuel that ran out, and the theorems say
-- that it does not. The loop of Delta/Width has fuel for the bits of an `int`. The hash's sizes and
-- the seeds of Deal wrap around at the width of their types. Where the code indexes an array by a
-- rank that is above thirteen, its behaviour is undefined; the model's table has a cell there, and
-- the theorems do not read it.
--
-- The tests are those of the configuration with eight columns, four freecells and one deck hard-coded,
-- of which the positions by rank depend on the deck alone; the loop over the sequences of a column runs
-- on fuel, the column's length, and the loop of fc_solve_sfs_raymond_prune on fuel for the cards that
-- are left and one more round. `assert` ends the program when it fails, and the model with `none`. How
-- many cards a sequence may have is checked by the tests as in the code, and is not part of what the
-- theorems call the rules.
--
-- The number of moves in a stack is an unsigned short. Where it wraps around, the code writes in
-- front of the vector, and fcs_move_stack_push of the model, in the tracing of a solution, gives
-- `none`; the theorems are about solutions in its range. A test starts with an empty stack, onto
-- which the model pushes its moves without that check; the bound on a solution's moves covers
-- these stacks. `none` is also for the shift of Delta/Width that overflows.
--
-- Not modelled: the order in which the scans run the tests and visit the states, the tests for
-- Yukon and for Simple Simon, the clients of the hash, the readers of options and boards, the
-- order of the encoded columns, the pages of the queue on the disk, the databases and the
-- printing, and the copies of other projects (patsolve, kazlib's trees, libavl, BSD's trees).
pub mod Prelude
pub mod BitRw
pub mod Gmp
pub mod VarBase
pub mod Pqueue
pub mod Card
pub mod InsertionSort
pub mod State
pub mod Move
pub mod Deal
pub mod Delta
pub mod Hash
pub mod Solution
pub mod Freecell
pub mod OffloadingQueue
pub mod DepthMultiQueue

-- ===== src/Lib.antt =====
-- The C library of LabComm 2014, lib/c/2014: a binary protocol whose packets describe the samples
-- that follow them. An encoder sends, on a writer, a version packet, the definitions of the samples
-- and references that an application registers, bindings, and the samples; a decoder reads them from
-- a reader, binds the indices of the far end to those of its own samples, and calls a handler for
-- each sample. Readers and writers are a buffer and a table of actions of a transport.
--
-- The files:
-- - Common: ℤ for `int`, lists on native numbers, and Commands, the outcome of stateful code: it
--   returns (`ok`), ends the process or blocks (`halt`), or the model ran out of rounds.
-- - Wire: the tags of lib/c/2014/labcomm2014_private.h, and the format of numbers and strings as
--   arithmetic, independent of the code.
-- - Reader, Writer: labcomm2014_read_*, labcomm2014_write_* and labcomm2014_size_* of
--   lib/c/2014/labcomm2014_private.h. Reader.Source and Writer.Sink are what a transport has to
--   promise; the theorems on the encoder and the decoder take it as a parameter.
-- - FdReader, FdWriter, DynamicWriter: lib/c/2014/labcomm2014_fd_reader.c, _fd_writer.c and
--   _dynamic_buffer_writer.c. FdReader.Fill, FdWriter.Flush and DynamicWriter.Growth compare them with
--   these promises. `read`, `write` and `close` are parameters, with what POSIX says of them.
-- - SignatureArray: the arrays of lib/c/2014/labcomm2014.c that are indexed by signature indices.
-- - Signature: signature trees, the walks over them, and comparison, of
--   lib/c/2014/labcomm2014_type_signature.c, and the local indices of labcomm2014.c.
-- - Encoder: lib/c/2014/labcomm2014_encoder.c. Encoder.Packets is the format of its packets,
--   Encoder.Registers what its operations do.
-- - Decoder: lib/c/2014/labcomm2014_decoder.c. The state and what an application registers; Definitions
--   for the definitions that come in, Samples for lookups and handlers, Packets for do_decode_one and
--   labcomm2014_decoder_run; below these the theorems.
-- - Time, Scheduler: lib/c/2014/labcomm2014_pthread_scheduler.c, points in time and deferred actions
--   in two queues. Order is about the queue of delayed actions, Fifo and Deferred about run_deferred, Locks
--   about the data mutex, Sleeping about waiting; Interface has the tables and constructors, with
--   lib/c/2014/labcomm2014_scheduler.c, labcomm2014_time.c and labcomm2014_default_scheduler.c.
-- - Renaming: lib/c/2014/labcomm2014_renaming_registry.c and labcomm2014_renaming.c; Renaming.Layers
--   the encoder and decoder of labcomm2014_renaming_encoder.c and labcomm2014_renaming_decoder.c, which
--   hand calls on to a next one. What other threads do between two locks is a parameter; in Race
--   they run set_renamed.
-- - Chain: the calls of readers and writers through their chains of action tables, labcomm2014.c.
-- - Ioctl: the fields of requests, lib/c/2014/labcomm2014_ioctl.h.
-- - SigParser: lib/c/2014/experimental/labcomm2014_sig_parser.c and .h. Stack and Input view its
--   arrays as lists, Types is about accept_type, Packets about accept_packet on what Encoder sends, and
--   Skip about passing over a sample by its signature.
-- - Examples: concrete instances, and every theorem that has hypotheses at one of them.
--
-- How state is modelled: each struct is a record and each function a function on it. The scheduler's
-- writer and data locks are a field; to take one that is held blocks for ever, which is `halt`, as are
-- exit(1) and the use of NULL. Generated encode and decode functions, and handlers, are parameters:
-- a decode function reads and may give a value, and a call of a handler is recorded. A result that the
-- C code leaves uninitialised is a parameter (`junk`). The scheduler with threads keeps a log of the
-- calls that leave it, and what these return is a function of the log; a circular queue is a list.
-- A pointer to an entry of the renaming registry is the index that it stands at. An access outside
-- the arrays of the signature parser is `halt`.
--
-- Bounds and fuel: an unsigned int is a number below 2^32, with `% 2 ^ 32` where the code shifts;
-- `int` conversions are written out. Shifts and masks of packed numbers are arithmetic. The loop of
-- labcomm2014_read_packed32 has fuel, a round for each byte: a packed 32 bit number has at most five.
-- labcomm2014_decoder_run has fuel for its packets. The loop of fd_flush has a round for each byte in
-- the buffer, and each round but the last takes at least one. run_deferred has fuel for the actions of
-- each queue: the weight of the waiting actions bounds how many descendants they have. accept_type has
-- fuel for the nesting of types; the other loops of the parser count down a number from the input.
--
-- Not modelled: failing allocations of the encoder, of the signature arrays and of new decoders
-- (those of buffers, strings and received signatures are); overflow of `int` sums of lengths; big
-- endian machines; readers and writers of more than one table outside
-- Chain; the answers to ioctl; freeing of encoders, decoders and
-- registries; debug output; in the signature parser the stack of pointers, which its build does not
-- use, and failing allocations; a renaming decoder whose registry has the same scheduler; drivers.
pub mod Chain
pub mod Common
pub mod Decoder
pub mod DynamicWriter
pub mod Encoder
pub mod Examples
pub mod FdReader
pub mod FdWriter
pub mod Ioctl
pub mod Reader
pub mod Renaming
pub mod Scheduler
pub mod SigParser
pub mod Signature
pub mod SignatureArray
pub mod Time
pub mod Wire
pub mod Writer

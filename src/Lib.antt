-- ===== src/Lib.antt =====
-- The C core of TWAPI, the Tcl extension for the Windows API: its data structures as values, its
-- operations as functions on them, and the theorems that make them correct.
--
-- MemLifo: the last-in-first-out memory pool of twapi/base/memlifo.c, which every command of the
--   extension allocates its temporary memory from. A pool has a stack of marks; each mark holds the
--   list of chunks, the list of big blocks and the free pointer as they were when it was pushed.
--   Word has the alignment macros of twapi/include/twapi.h; Heap is the memory behind the pool:
--   which blocks are in use; State has `MemLifo` and `MemLifoMark`. Alloc is `MemLifoAlloc`, Marks is
--   `MemLifoPushMark`, `MemLifoPopMark`, `MemLifoPushFrame` and `MemLifoPopFrame`, Last is
--   `MemLifoExpandLast`, `MemLifoShrinkLast` and `MemLifoResizeLast`, Open is `MemLifoInit` and
--   `MemLifoClose`, Check is `MemLifoValidate`. Each operation is a function from a pool to an
--   `Outcome`: it returns a value and the pool after it, panics, or meets undefined behaviour.
--   Invariant has the well-formedness of a pool over the blocks of others, and the modules after it
--   prove what the operations do to it. Examples has pools at concrete addresses, with the
--   allocator of Scan.
--
-- Pointers: the registry of twapi/base/twapi.c, which checks the pointers that scripts pass back.
--   Registry has the calls, `TwapiVerifyPointer`, `TwapiRegisterPointer`,
--   `TwapiRegisterCountedPointer` and `TwapiUnregisterPointer`, on a map from addresses for the Tcl
--   hash table. Holders says who owns a pointer, without reference counts; Refines and Balance
--   compare the two.
--
-- Atoms: the table of atoms of twapi/base/twapi.c. Table is `TwapiGetAtom`, `TwapiPurgeAtoms` and the
--   loop over the atoms in `TwapiBaseModuleCleanup`, with the reference counts of the objects; Purges is
--   about what a purge keeps, and Released about the counts from the first atom to the clean-up.
--
-- Parseargs: the command `parseargs` of twapi/base/parseargs.c, which the Tcl half of the extension
--   reads its options with. Tcl is the interface to the Tcl library and to the conversions of
--   objects; Descriptor is `SetParseargsOptFromAny` and `UpdateStringParseargsOpt`; Scan has the
--   loops over the switches and the arguments of `Twapi_ParseargsObjCmd`, Values its loop over the
--   options, Command the whole. Leaves has the rules for the arguments that are left, and Left compares them with
--   the loop; Describes, Leftovers, Suits, Types and NeverCrashes have the other theorems; Objects are
--   simple objects that meet the interface's laws.
--
-- KeyList: the command `kl_get` of twapi/base/keylist.c, on the same interface. Get is
--   `Twapi_KlGetObjCmd`; Finds compares it with a lookup in a list of pairs.
--
-- RecordArray: the record arrays of twapi/base/recordarray.c, tables whose records are lists. Reply has
--   the rest of the interface to Tcl; Twine is twapi/base/twine.c, and `ObjToEnum` of
--   twapi/base/tclobjs.c; Options, Records and Command are `Twapi_RecordArrayHelperObjCmd`: its words,
--   its loop over the records, the whole; Instance is `RecordInstanceObjCmd`. Selects, InRange and
--   Queries compare the command with a selection from a table, Reads, NeverNull and NotAList are about its
--   null pointers, Fields and Dicts about the commands of records.
--
-- OneTimeInit: `TwapiDoOneTimeInit` of twapi/base/util.c, through which threads share one
--   initialization. Threads has the state word, the places where a thread can be, and a turn of a
--   thread; a schedule says whose turn is next. Places and Once have the invariant, Turns and Returns
--   follow a thread to its return.
--
-- Callbacks: the callbacks of twapi/base/async.c, which other threads hand over to the thread of an
--   interpreter. Queue has `TwapiEnqueueCallback`, `Twapi_TclEventProc`, `TwapiCallbackUnref` and
--   `TwapiCallbackDelete` as the steps of these threads, in any order. Counts and Counted are about
--   the reference counts, Released about what is deleted in the end.
--
-- ZList: the doubly linked lists of twapi/include/zlist.h, which contexts, registrations and modules are
--   kept in. Links has the macros, on a function from addresses to links; Segments and Represents say
--   which list of objects the links stand for, and Removes, Attached, Attaches and Locates compare the macros
--   with operations on that list. The macro for a search has fuel: the count of the list is enough.
--
-- ThreadPool: the handles that twapi/base/threadpool.c has the thread pool of Windows wait for.
--   Registrations has `TwapiThreadPoolRegister`, `TwapiThreadPoolUnregister`, the callback, and the loop
--   of `Twapi_InterpContextCleanup` in twapi/base/twapi.c, whose fuel is the number of registrations;
--   Balance, Freed and Leaks are about what is freed.
--
-- Crypto: the encryption of passwords and other data in memory, in twapi/base/tclobjs.c. Padding is
--   `TwapiEncryptData` and `TwapiDecryptData`; a negative size is an outcome of its own there. RoundTrip
--   composes them.
--
-- The build is the 64-bit one: a pointer has 64 bits, `sizeof(MemLifoChunk)` is 16 and
-- `sizeof(MemLifoMark)` is 56. Pointers, `DWORD`s and `int`s are natural numbers with their
-- wrap-around written out. The allocation function of a pool is a parameter; IsAllocator says what is
-- relied on: a block of at least the size asked for, of less than 2^32 bytes, aligned, inside the
-- address space and clear of every block in use. It may fail at any call. Apart from the
-- search in a ZList and the loop over registrations, no definition has fuel: the loops run down lists.
--
-- Not modelled: the bytes in the memory of a pool (`CopyMemory`, `MemLifoCopy`, `MemLifoZeroes`), the
-- magic numbers and sequence numbers of debug builds, assertions, and `Twapi_MemLifoDump`; the clean-up
-- of a module's pointers; what Tcl objects cache, and their reference counts other than those
-- of atoms; the wording of errors; the variables that `parseargs -setvars` sets before it fails; the
-- response of a callback and the evaluation of scripts; in zlist.h, destroying, concatenating,
-- splitting and sorting lists, and the macro for inserting before an object. The rest of the
-- extension, for the most part calls of the Windows API, is not modelled.
pub mod Base
pub mod MemLifo
pub mod Pointers
pub mod Atoms
pub mod Parseargs
pub mod KeyList
pub mod RecordArray
pub mod OneTimeInit
pub mod Callbacks
pub mod ZList
pub mod ThreadPool
pub mod Crypto

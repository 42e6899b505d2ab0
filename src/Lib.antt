-- ===== src/Lib.antt =====
-- Verification of comLib, the C++ support library of this repository: its timers, its lock for
-- readers and writers, its containers for threads, its configuration file and its string helpers;
-- of tpc/poolsocket, messages over sockets and a pool of connections; and of the checksums and the
-- block cipher of util/cryption.
--
-- The timers are a wheel of spokes. TimerQueue (comLib/dhntimer/DHNTimerQueue.h) is the queue that
-- users see; TimerWheel (comLib/dhntimer/DHNTimerWheel.h) is its implementation; its nodes come from
-- the pool DHN_Locked_Free_List (comLib/dhntimer/Free_List.h), and its times are TimeValue
-- (comLib/dhntimer/Time_Value.h and Time_Value.cpp).
--
--   Time            TimeValue as two integers, with normalize, the operators and the conversions
--                   of the code; Normalize, Order and Arith have the lemmas, Micros the times that
--                   are not negative as numbers of microseconds.
--   FreeList        the pool: the chain of free nodes, and what delete was called on.
--   Wheel.Node      DHN_Timer_Node_T, and a spoke: the circular list behind a root as a list.
--   Wheel.Sizing    power2bits.
--   Wheel.State     the fields of TimerWheel, open_i, and the reads (find_node, earliest_time).
--   Wheel.Ids       generate_timer_id.
--   Wheel.Ops       schedule_i, unlink, recalc_earliest, cancel_timer, remove_first, reschedule.
--   Wheel.Unique    the ids of the timers in a wheel; Wheel.Lifetime follows a timer from schedule to
--                   cancel_timer.
--   Wheel.Dispatch  dispatch_info_i, expire and calculate_timeout.
--   Wheel.Inv       the invariant of a wheel between two calls; the other files of Wheel have the
--                   proofs, by operation.
--   TimerThread     Timer (comLib/dhntimer/DHNTimer_T.h): addTimer and cancelTimer on the queue,
--                   and, in Loop, the rounds of its thread, with what other threads do to the wheel
--                   while it waits.
--   RwLock          GMJRRWLock (comLib/GMRWLockImp.h and GMRWLockImp.cpp) on pthreads, and
--                   RwLock.Semaphores the variant for WIN32; both are step relations on a state
--                   that counts the threads in each phase.
--   Ini             IniFile (comLib/IniFile.h and IniFile.cpp): Dict is std::map on strings,
--                   Settings the getters and setters, Parse the text of a file
--                   and how it is printed; Maps and Restore have the proofs on whole files.
--   SafeQueue       SafeQueue (comLib/SafeQueue.h), also a step relation; a thread that waits for a
--                   semaphore with the lock held is stuck.
--   SafeList        SafeList (comLib/SafeList.h), in the same way, with Erase, which forgets the
--                   semaphore, and Enum, whose function may call the list; Counted and Promises have
--                   the proofs.
--   SafeDeque       SafeDeque (comLib/SafeDeque.h), a deque that drops what is too old.
--   SysUtil         splitting and trimming of strings (comLib/SysUtil.cpp).
--   SocketPool      the pool of tpc/poolsocket/poolsocket.cpp, with connect and close of
--                   socketutil.cpp; Sound says what a pool in right use is, Lending follows get and
--                   put, Open the making of a pool, Exclusive all sequences of calls.
--   SocketUtil      the functions of tpc/poolsocket/socketutil.cpp: the loops of readn and writen here,
--                   the waits for select in Waits, the messages of both sides in Frames, connecting
--                   and accepting in Sessions. Stream says what they rely on in a connection; Whole,
--                   Sending, Receive, RoundTrip, Blocks and Accepting have the proofs, and Lengths
--                   the four bytes of a length.
--   Words           laws of `^`, `&` and `|` on numbers of any width.
--   Crc             CRC16 and CRC32 (util/cryption/CRC/CRC.cpp); Bitwise has what the tables stand
--                   for, Errors the changes that the checksums tell.
--   Des             the class DES (util/cryption/DES/DES.cpp); Halves and Inverse undo the steps of
--                   desfunc, Decrypt the blocks and modes; Easy is EasyDES.
--   Base64          Encode of ZBase64 (util/cryption/base64/base64.cpp), and in Reference a decoder in
--                   plain arithmetic.
--   Tests           concrete runs, and the theorems at concrete inputs.
--
-- A read through a null pointer is `none` (Wheel.State.Run). The mutex of the timers is recursive
-- and is held through each public operation, so an operation is one step. The clock and the tasks
-- are parameters: the current time is an argument, and `handle`, `stopped` and `ended` stand for the
-- virtual functions of a task.
--
-- Bounds: the arithmetic of TimeValue is on integers, without the overflow of 2 ^ 63. The wheel's
-- invariant keeps times below 2 ^ 62 microseconds and periods below 2 ^ 60, and timer_count_ below
-- 2 ^ 32, so no cast of the code changes a value. The loops of normalize have as fuel the number of
-- microseconds, the loop over missed periods the current time in microseconds, since a period has
-- at least one; the theorems show that the fuel is enough. The loop of expire has its fuel as an
-- argument, and ends if that is more than the number of due timers. power2bits takes an int: from
-- 2 ^ 31 on it does not end, which is `none` as well.
--
-- The sockets of the system, and what malloc leaves in a block, are parameters of SocketPool; what it
-- relies on is the record IsOs: a new descriptor is not open yet, and only closesocket closes one.
--
-- The calls of the system are the record Net of SocketUtil, on a state of the system that is a
-- parameter. A wait or a transfer that a signal interrupts is tried again, with fuel for the
-- interruptions and the bytes to come; the theorems show that this is enough, for any such number. An
-- int has 32 bits and a size_t 64, and what readn and writen return is the lowest 32 bits of a size_t,
-- with a sign; in DES an unsigned long has 32. The data of a message is a list, of
-- as many bytes as datalen says.
--
-- Not modelled: the hexadecimal form of EasyDES, the decoding of ZBase64, which reads
-- and writes outside its arrays, the socket on which the thread of the timers waits (comLib/dhntimer/DHNTimer_T.h), the
-- system clock, opening and closing of files, SafeMap and SafeSet, whose operations are one operation
-- of a standard container under a lock, and the other parts of the repository, which are wrappers of
-- system calls, demonstrations and copies of third-party code.
pub mod Common
pub mod Time
pub mod FreeList
pub mod SysUtil
pub mod TimerThread
pub mod Wheel
pub mod RwLock
pub mod Ini
pub mod SafeDeque
pub mod SafeList
pub mod SafeQueue
pub mod SocketPool
pub mod SocketUtil
pub mod Words
pub mod Crc
pub mod Des
pub mod Base64
pub mod Tests

-- ===== src/Lib.antt =====
-- linux-programing-demo: small C programs, one for each facility of Linux, among them a line
-- reader with an echo server, a semaphore of its own, producers and consumers, file locks, event
-- loops and clocks. They share no code but `readLine`; so each part below is modelled by itself,
-- and the shared helpers are in Common (Boolean tests, lists and integers over the native numbers)
-- and CString (arguments, `strcmp`, `atoi`).
--
-- System calls are inputs: a function takes the results that they return, or, for threads and
-- processes, the relation `Reach` takes any order of steps, each of them one call or one access to
-- shared memory. Where a program depends on the kernel's own state (mutexes, condition variables,
-- flock locks, System V semaphores, the file's offset) that state is part of the model. Texts that
-- are printed are kept where they carry data, as values.
--
-- Socket/ReadLine: `readLine` of socket/internet_tcp/common.c, a structural recursion over the
-- outcomes of its one-byte reads; a write outside of the buffer is a fault.
-- Socket/EchoServer: the accept loop of socket/internet_tcp/server.c from `accept` on, with its
-- one buffer, and the exchange of client.c. Socket/Setup: both programs whole, from their
-- arguments and the loops over the addresses on; it uses Socket/EchoServer for what follows them.
-- Socket/HttpClient: `main` of socket/http_client/main.c and old.c, the address list of
-- `getaddrinfo` being an input.
-- Socket/Datagram: the exchange of socket/internet_udp and socket/unix_domain_udp, which have the
-- same code for it. Socket/StreamCopy: the copy loops of socket/unix_domain_tcp. Socket/Endpoints:
-- these six programs from their start on.
-- Threads/LockedCounter: `_func` of thread/mutex/main.c and of thread/spin-lock/main.c, over a
-- lock as an interface, which Threads/Mutex and Threads/SpinLock fill with their locks, with the
-- start of each `main`.
-- Threads/Semaphore: `semaphore_create`, `semaphore_post` and `semaphore_wait` of
-- thread/semaphore/sem.c by any threads, with signals and spurious wake-ups. Program below it is
-- thread/semaphore/main.c. The errors of `open` and `mmap` are left out.
-- Threads/Cond: the two threads of thread/cond/main.c; the calls of `sleep` only delay and are
-- left out.
-- Threads/RwLock: the four threads and `main` of thread/rw-lock/main.c over a read-write lock.
-- Threads/Cancel: the thread and `main` of thread/cancel/main.c, with the points where a
-- cancellation is acted on. Threads/Detached: the joined and the detached thread of
-- thread/basic/main.c. Threads/ThreadData: the threads, the destructor and `main` of
-- thread/tls-tsd/main.c.
-- Ipc/SysvSemaphore: process/system-v-ipc/semaphore/main.c, with the race between the creator and
-- an opener and the undoing at the exit.
-- Time/Convert and Time/Sleep: the conversions of time/sleep, time/posix/getAndSet,
-- time/unix/realTime and time/unix/ticks, 64-bit wrap-around written out, and `mySleep` with
-- signals that interrupt it and a kernel that rounds times up. Time/Ticks: the used times of
-- time/posix/ticks and time/unix/ticks.
-- FileLock/Flock: `_otherTest` of io/file_lock/flock/main.c, where `open` and `dup` succeed, and
-- its arguments; Program below it is `main`. FileLock/Fcntl: `_lock` and `main` of
-- io/file_lock/fcntl/main.c over what `dup` and `fcntl` answer.
-- Io/Epoll: io/epoll/base/main.c. Io/BigFile: the write loop of io/bigfile/main.c; numbers stay
-- far below 2 ^ 63, so its `long long` does not wrap round. Io/Inotify: io/inotify/main.c, the
-- events decoded from their bytes.
-- Io/FwriteFile: the same loop over `fwrite` in other/fread/main.c. Io/Poll: io/poll/main.c, with
-- the read step of Io/Epoll.
-- Ipc/UnnamedSemaphore: the counting of process/posix-ipc/semaphore/unnamed.c, another lock for
-- Threads/LockedCounter. Startup below it is the whole program, from `shm_open` on, and Refinement
-- relates the two.
-- Ipc/NamedSemaphore, Ipc/MsgQueue: process/posix-ipc/semaphore/named.c and
-- process/posix-ipc/msg-queue/main.c, by any number of processes. Ipc/SharedMemory:
-- process/posix-ipc/shared-memory/main.c and process/system-v-ipc/shared-memory/main.c, which have
-- the same states, up to the removal of the name.
-- Timer/Linux: timer/linux/main.c over the results of `epoll_wait` and `read`. Timer/Posix:
-- timer/posix/main.c, whose callbacks are threads that overlap.
-- Io/Edge: io/epoll/et-read/main.c. Io/Select: io/select/main.c. Io/Fifo: io/fifo/reader.c and
-- io/fifo/writer.c. Io/Pipe and Io/Base: io/pipe/main.c and io/base/main.c.
-- Io/Pwrite: io/pwrite/main.c. Io/Tmpfile: `_writeAndRead` of io/tmpfile/main.c. Signal:
-- signal/main.c, with a SIGINT before any step.
-- FileInfo/Stat: io/stat/main.c. FileInfo/Walk: directory/file_tree_walk/main.c, with the walk of
-- `nftw` over a tree of files.
-- Memory/MmapFile: memory/mmap_file/main.c.
-- Examples: concrete runs and inputs.
--
-- Loops that depend on inputs recurse on the list of results and give none (or `blocked`,
-- `waiting`) when it ends before they do. Only two loops have fuel: `show_events` takes one more
-- than the number of bytes, and each event has 16 bytes at least; `read_header` takes the 1024
-- rounds of the source.
--
-- Not modelled: the programs that only call the kernel and print, the calendar times of
-- time/unix/realTime.
pub mod Common
pub mod Socket
pub mod Threads
pub mod Time
pub mod Timer
pub mod CString
pub mod FileLock
pub mod FileInfo
pub mod Ipc
pub mod Io
pub mod Signal
pub mod Memory
mod Examples

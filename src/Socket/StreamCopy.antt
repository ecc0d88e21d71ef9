-- ===== src/Socket/StreamCopy.antt =====
-- socket/unix_domain_tcp: the client copies its standard input to the socket, the server copies each
-- connection to its standard output, 64 bytes at a time.
pub mod Through
use linux_programing_demo.Common.{
  leb, if◌then◌else◌, length, take, ℕ, ◌+◌, Option, none, some, List, [], ◌∷◌, ◌++◌,
}

-- `read(fd, buff, g_buffSize)`: up to 64 bytes, at least one; or 0, or -1.
pub data Read : Type 0 where
  got : List ℕ → Read
  at_end read_error : Read

-- How a copying ends, with the bytes that it has written: at the end of the input, by an error, or
-- not yet.
pub data Copied : Type 0 where
  whole : List ℕ → Copied
  broken : List ℕ → Copied
  unfinished : List ℕ → Copied

abbrev pub prepend : List ℕ → Copied → Copied
prepend d (whole l) = whole (d ++ l)
prepend d (broken l) = broken (d ++ l)
prepend d (unfinished l) = unfinished (d ++ l)

-- The `while` loop of both programs and the test after it. Each read comes with how many bytes the
-- `write` after it takes, none for -1.
pub copy_loop : List (Read × Option ℕ) → Copied
copy_loop [] = unfinished []
copy_loop ((at_end, w) ∷ more) = whole []
copy_loop ((read_error, w) ∷ more) = broken []
copy_loop ((got [], w) ∷ more) = whole []
copy_loop ((got (c ∷ d), none) ∷ more) = broken []
copy_loop ((got (c ∷ d), some k) ∷ more) =
    let buff = take 64 (c ∷ d) in
    let rest = copy_loop more in
    if leb (length buff) k then prepend buff rest else broken (take k buff)

-- The server, a list of reads for each connection: after a whole copy it accepts the next one; an
-- error ends it, and a connection that is not finished keeps it.
pub serve_streams : List (List (Read × Option ℕ)) → Copied
unfolding copy_loop
serve_streams [] = unfinished []
serve_streams (c ∷ more) = elim (copy_loop c) [
  | whole l ↦ prepend l (serve_streams more)
  | broken l ↦ broken l
  | unfinished l ↦ unfinished l
]

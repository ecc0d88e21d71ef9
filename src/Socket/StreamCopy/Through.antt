-- ===== src/Socket/StreamCopy/Through.antt =====
-- What the two copying programs let through.
use linux_programing_demo.Common.{
  length, take, append_assoc, All, take_all, ℕ, ◌≤◌, ◌<◌, ◌≡◌, refl, Option, some, List, [], ◌∷◌,
  ◌++◌, map, arith,
}
use linux_programing_demo.Socket.StreamCopy.{
  Read, got, at_end, read_error, whole, broken, unfinished, copy_loop, serve_streams,
}

-- A stream whose reads give `chunks`, and then its end; every write takes all.
abbrev pub stream : List (List ℕ) → List (Read × Option ℕ)
stream [] = (at_end, some 64) ∷ []
stream (d ∷ ds) = (got d, some 64) ∷ stream ds

abbrev pub concat : List (List ℕ) → List ℕ
concat [] = []
concat (d ∷ ds) = d ++ concat ds

-- Chunks of one byte at least and 64 at most.
abbrev pub IsChunk : List ℕ → Type 0
IsChunk d = (0 < length d) × (length d ≤ 64)

copy_loop-stream : (ds : List (List ℕ)) → All IsChunk ds → copy_loop (stream ds) ≡ whole (concat ds)
unfolding copy_loop
copy_loop-stream [] h = refl
copy_loop-stream ([] ∷ ds) ((some_d, small), h) = absurd (omega (arith, some_d))
copy_loop-stream ((c ∷ d) ∷ ds) ((some_d, small), h) =
    rw (take_all 63 d (omega (arith, small))) (ground (arith, small, copy_loop-stream ds h))

serve_streams-whole :
    (conns : List (List (List ℕ)))
    → All (All IsChunk) conns
    → serve_streams (map stream conns) ≡ unfinished (concat (map concat conns))
unfolding serve_streams
serve_streams-whole [] h = refl
serve_streams-whole (ds ∷ conns) (here, h) =
    rw (copy_loop-stream ds here, serve_streams-whole conns h, serve_streams) refl

-- A stream whose reads give `chunks`, with every write whole, and then goes on as `last` and `later`.
abbrev pub stream_then :
    List (List ℕ) → Read × Option ℕ → List (Read × Option ℕ) → List (Read × Option ℕ)
stream_then [] last later = last ∷ later
stream_then (d ∷ ds) last later = (got d, some 64) ∷ stream_then ds last later

copy_loop-error :
    (ds : List (List ℕ)) (w : Option ℕ) (later : List (Read × Option ℕ))
    → All IsChunk ds
    → copy_loop (stream_then ds (read_error, w) later) ≡ broken (concat ds)
unfolding copy_loop
copy_loop-error [] w later h = refl
copy_loop-error ([] ∷ ds) w later ((some_d, small), h) = absurd (omega (arith, some_d))
copy_loop-error ((c ∷ d) ∷ ds) w later ((some_d, small), h) =
    rw (take_all 63 d (omega (arith, small))) (ground (arith, small, copy_loop-error ds w later h))

copy_loop-short :
    (ds : List (List ℕ)) (d : List ℕ) (k : ℕ) (later : List (Read × Option ℕ))
    → All IsChunk ds
    → IsChunk d
    → k < length d
    → copy_loop (stream_then ds (got d, some k) later) ≡ broken (concat ds ++ take k d)
unfolding copy_loop
copy_loop-short [] [] k later h one short = absurd (omega (arith, short))
copy_loop-short [] (c ∷ d) k later h one short =
    rw (take_all 63 d (omega (arith, one.1))) (ground (arith, short))
copy_loop-short ([] ∷ ds) d k later ((some_d, small), h) one short = absurd (omega (arith, some_d))
copy_loop-short ((c ∷ e) ∷ ds) d k later ((some_d, small), h) one short =
    rw (take_all 63 e (omega (arith, small))) (
      ground (
        arith,
        small,
        copy_loop-short ds d k later h one short,
        append_assoc (c ∷ e) (concat ds) (take k d),
      ))

-- Connections that are copied whole do not hinder what follows them.
serve_streams-past :
    (conns : List (List (List ℕ))) (c : List (Read × Option ℕ))
    (more : List (List (Read × Option ℕ))) (l : List ℕ)
    → All (All IsChunk) conns
    → copy_loop c ≡ broken l
    → serve_streams (map stream conns ++ c ∷ more) ≡ broken (concat (map concat conns) ++ l)
unfolding serve_streams
serve_streams-past [] c more l h e = rw (e, serve_streams) refl
serve_streams-past (ds ∷ conns) c more l (here, h) e =
    rw (copy_loop-stream ds here, serve_streams-past conns c more l h e, serve_streams)
      (ground (arith, append_assoc (concat ds) (concat (map concat conns)) l))

-- However the kernel splits the streams into chunks of 1 to 64 bytes: connections with every write whole
-- and no read that fails are written out entirely, each before the next one, and the server waits for
-- another. After them, a connection with a read that fails after the chunks `ds`, or with a write that
-- takes only `k` bytes of the chunk `d` after `ds`, ends the server: what it has written is then all of
-- the connections before, `ds`, and those `k` bytes, and later connections are not served.
pub serve_streams-through :
    (conns : List (List (List ℕ))) (ds : List (List ℕ)) (d : List ℕ) (k : ℕ) (w : Option ℕ)
    (later : List (Read × Option ℕ)) (more : List (List (Read × Option ℕ)))
    → All (All IsChunk) conns
    → All IsChunk ds
    → IsChunk d
    → k < length d
    → (serve_streams (map stream conns) ≡ unfinished (concat (map concat conns)))
      × (serve_streams (map stream conns ++ stream_then ds (read_error, w) later ∷ more)
          ≡ broken (concat (map concat conns) ++ concat ds))
      × (serve_streams (map stream conns ++ stream_then ds (got d, some k) later ∷ more)
          ≡ broken (concat (map concat conns) ++ (concat ds ++ take k d)))
serve_streams-through conns ds d k w later more all here one short = (
  serve_streams-whole conns all,
  serve_streams-past conns _ more _ all (copy_loop-error ds w later here),
  serve_streams-past conns _ more _ all (copy_loop-short ds d k later here one short),
)

-- ===== src/Examples/Messages.antt =====
-- Messages through the datagram and stream programs of socket/.
use linux_programing_demo.Common.{
  replicate, All, ℕ, none, some, ◌++◌, ◌≡◌, refl, List, [], ◌∷◌, map, arith,
}
use linux_programing_demo.Socket.Datagram.{Trip, arrives, receive_error, exits, client_loop}
use linux_programing_demo.Socket.Datagram.Echo.{client_loop-echoes}
use linux_programing_demo.Socket.StreamCopy.{got, read_error, broken, unfinished, serve_streams}
use linux_programing_demo.Socket.StreamCopy.Through.{
  stream, stream_then, IsChunk, serve_streams-through,
}

abbrev stale : List ℕ
stale = replicate 64 7

-- A long word, a short one, and one whose answer is not received.
abbrev words : List (List ℕ × Trip)
words =
    (b'l' ∷ b'o' ∷ b'n' ∷ b'g' ∷ [], arrives)
    ∷ (b'h' ∷ b'i' ∷ [], arrives)
    ∷ (b'n' ∷ b'o' ∷ [], receive_error)
    ∷ (b'y' ∷ [], arrives)
    ∷ []

client_loop-echoes_example :
    client_loop stale stale words
    ≡ exits 1 ((b'l' ∷ b'o' ∷ b'n' ∷ b'g' ∷ []) ∷ (b'h' ∷ b'i' ∷ []) ∷ [])
client_loop-echoes_example = client_loop-echoes stale stale words refl refl

abbrev connections : List (List (List ℕ))
connections = ((1 ∷ 2 ∷ []) ∷ (3 ∷ []) ∷ []) ∷ [] ∷ ((4 ∷ []) ∷ []) ∷ []

connections-IsChunk : All (All IsChunk) connections
connections-IsChunk = ground arith

-- A write that takes one of two bytes, after a connection's first chunk.
serve_streams-through_example :
    (serve_streams (map stream connections) ≡ unfinished (1 ∷ 2 ∷ 3 ∷ 4 ∷ []))
    × (serve_streams
          (map stream connections ++ stream_then ((5 ∷ []) ∷ []) (read_error, none) [] ∷ [])
        ≡ broken (1 ∷ 2 ∷ 3 ∷ 4 ∷ 5 ∷ []))
    × (serve_streams
          (map stream connections ++ stream_then ((5 ∷ []) ∷ []) (got (6 ∷ 7 ∷ []), some 1) [] ∷ [])
        ≡ broken (1 ∷ 2 ∷ 3 ∷ 4 ∷ 5 ∷ 6 ∷ []))
serve_streams-through_example =
    serve_streams-through connections ((5 ∷ []) ∷ []) (6 ∷ 7 ∷ []) 1 none [] [] connections-IsChunk
      (ground arith) (omega arith) (omega arith)

-- ===== src/Examples/Sockets.antt =====
-- Streams and connections for the programs of socket/.
use linux_programing_demo.Common.{
  if◌then◌else◌, length, take, replicate, All, pos, ℕ, ◌≡◌, refl, true, false, none, some, List, [],
  ◌∷◌, ◌++◌, arith,
}
use linux_programing_demo.Socket.ReadLine.{ReadOne, byte, eintr, fail, eof, newline, read_line}
use linux_programing_demo.Socket.ReadLine.Promise.{scan, promised, read_line_lem}
use linux_programing_demo.Socket.ReadLine.Safety.{IsSafe, Stops, ReturnsAtMost, read_line-IsSafe}
use linux_programing_demo.Socket.EchoServer.{Accepted, accept_error, client, serve, got, c_string}
use linux_programing_demo.Socket.EchoServer.Replies.{replies, serve-replies}
use linux_programing_demo.Socket.EchoServer.RoundTrip.{exchange, exchange_echo, IsTextByte}
use linux_programing_demo.Socket.HttpClient.{Address, read_answer, main}
use linux_programing_demo.Socket.HttpClient.Header.{sends, up_to_blank, has_blank, read_answer_lem}
use linux_programing_demo.Socket.HttpClient.Connecting.{Tidy, opened, reached, main-Tidy}

-- "ab" interrupted once, a newline, and a byte after it.
abbrev interrupted_line : List ReadOne
interrupted_line = byte b'a' ∷ eintr ∷ byte b'b' ∷ byte newline ∷ byte b'z' ∷ []

abbrev four_cells : List ℕ
four_cells = 7 ∷ 7 ∷ 7 ∷ 7 ∷ []

read_line_lem_example :
    read_line (some four_cells) 4 interrupted_line
    ≡ promised 4 four_cells [] (scan interrupted_line)
read_line_lem_example = read_line_lem 4 four_cells interrupted_line (omega arith) refl

read_line-IsSafe_example :
    IsSafe 3 (read_line (some four_cells) 4 interrupted_line)
    × (Stops interrupted_line → ReturnsAtMost 3 (read_line (some four_cells) 4 interrupted_line))
read_line-IsSafe_example =
    read_line-IsSafe 4 four_cells interrupted_line (omega arith) (omega arith)

abbrev cells : List ℕ
cells = replicate 64 7

abbrev connections : List Accepted
connections =
    client (record { reads = interrupted_line; takes = some 64 })
    ∷ accept_error
    ∷ client (record { reads = byte b'c' ∷ eof ∷ []; takes = none })
    ∷ client (record { reads = fail 104 ∷ []; takes = some 64 })
    ∷ []

serve-replies_example : serve cells connections ≡ replies connections
serve-replies_example = serve-replies cells connections refl

abbrev hello : List ℕ
hello = b'h' ∷ b'e' ∷ b'l' ∷ b'l' ∷ b'o' ∷ []

hello-IsTextByte : All IsTextByte hello
hello-IsTextByte = ground arith

exchange_echo_example :
    (buf : List ℕ) × (exchange hello cells cells ≡ (hello ++ newline ∷ [], got 6 buf))
    × (c_string buf ≡ some (hello ++ newline ∷ []))
exchange_echo_example = exchange_echo hello cells cells hello-IsTextByte (omega arith) refl refl

abbrev page : List ℕ
page = b'H' ∷ 13 ∷ 10 ∷ 13 ∷ 10 ∷ b'x' ∷ []

read_answer_lem_example :
    ((read_answer (sends page)).printed ≡ up_to_blank [] (take 1024 page))
    × ((read_answer (sends page)).calls ≡ (
        if has_blank [] (take 1024 page) then length (up_to_blank [] (take 1024 page)) else 1024))
read_answer_lem_example = read_answer_lem page

page_header : up_to_blank [] (take 1024 page) ≡ b'H' ∷ 13 ∷ 10 ∷ 13 ∷ 10 ∷ []
page_header = refl

abbrev addresses : List Address
addresses =
    record { socket = none; connects = false }
    ∷ record { socket = some 3; connects = false }
    ∷ record { socket = some 4; connects = true }
    ∷ []

main-Tidy_example :
    Tidy
      (reached addresses)
      (opened addresses [])
      90
      (pos 40)
      (main (some addresses) 90 (pos 40) (sends page))
main-Tidy_example = main-Tidy addresses 90 (pos 40) (sends page)

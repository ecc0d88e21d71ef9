-- ===== src/Io/Edge/Unread.antt =====
-- What the edge-triggered loop leaves in the FIFO.
use linux_programing_demo.Common.{
  length, take, drop, All, length-append, length-take, ℕ, suc, ◌≤◌, ◌≡◌, refl, ap, ◌∙◌, List, [],
  ◌∷◌, ◌++◌, append_assoc, arith,
}
use linux_programing_demo.Io.Epoll.{data_read, readable, Wait, events}
use linux_programing_demo.Io.Edge.{Line, shown, handle, handle_all, round, loop}

abbrev pub joined : List (List ℕ) → List ℕ
joined [] = []
joined (w ∷ ws) = w ++ joined ws

-- An edge-triggered FIFO reports each write once; the read after it finds what is there. The waits
-- that `epoll_wait` gives for the writes `ws`, when `pending` is in the FIFO before them.
unfoldable pub edges : ℕ → List (List ℕ) → List ℕ → List Wait
edges fd [] pending = []
edges fd (w ∷ ws) pending =
    events (readable fd (data_read (pending ++ w)) ∷ []) ∷ edges fd ws (drop 1 (pending ++ w))

abbrev pub bytes_shown : List Line → List ℕ
bytes_shown [] = []
bytes_shown (shown bytes fd ∷ ls) = bytes ++ bytes_shown ls
bytes_shown (_ ∷ ls) = bytes_shown ls

abbrev pub IsWrite : List ℕ → Type 0
IsWrite [] = ⊥
IsWrite (b ∷ bs) = Unit

first_byte :
    (n : ℕ) (p w rest : List ℕ)
    → IsWrite w
    → take (suc n) (p ++ w ++ rest) ≡ take 1 (p ++ w) ++ take n (drop 1 (p ++ w) ++ rest)
first_byte n [] [] rest h = absurd h
first_byte n [] (b ∷ bs) rest h = refl
first_byte n (a ∷ p) w rest h = refl

loop-bytes :
    (fd : ℕ) (ws : List (List ℕ)) (pending : List ℕ)
    → All IsWrite ws
    → bytes_shown (loop (edges fd ws pending)) ≡ take (length ws) (pending ++ joined ws)
unfolding loop round handle_all handle edges
loop-bytes fd [] pending h = refl
loop-bytes fd (w ∷ ws) pending h = ground (
  arith,
  append_assoc pending w (joined ws),
  first_byte (length ws) pending w (joined ws) h.0,
  loop-bytes fd ws (drop 1 (pending ++ w)) h.1,
)

joined-length : (ws : List (List ℕ)) → All IsWrite ws → length ws ≤ length (joined ws)
joined-length [] h = omega arith
joined-length (([]) ∷ ws) h = absurd h.0
joined-length ((b ∷ bs) ∷ ws) h = omega (arith, joined-length ws h.1, length-append bs (joined ws))

-- When each of n writes, of one byte or more, is reported by one event, as an edge-triggered descriptor
-- does, the loop shows the first n bytes of all that was written, and the others stay unread.
pub writes_unread :
    (fd : ℕ) (ws : List (List ℕ))
    → All IsWrite ws
    → (bytes_shown (loop (edges fd ws [])) ≡ take (length ws) (joined ws))
      × (length (bytes_shown (loop (edges fd ws []))) ≡ length ws)
writes_unread fd ws h =
    let same = loop-bytes fd ws [] h in
    (same, ap length same ∙ ground (arith, length-take (length ws) (joined ws), joined-length ws h))

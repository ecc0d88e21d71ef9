-- ===== src/Io/Fifo/Through.antt =====
-- What comes through the FIFO.
use linux_programing_demo.Common.{
  ◌==◌, All, pos, ℕ, ◌≡◌, refl, false, List, [], ◌∷◌, ◌++◌, map, arith,
}
use linux_programing_demo.Io.Fifo.{byte_read, read_error, read_loop}

abbrev IsNoX : ℕ → Type 0
IsNoX ch = (ch == b'x') ≡ false

read_loop-stops :
    (a b : List ℕ)
    → All IsNoX a
    → read_loop (a ++ b'x' ∷ b)
      ≡ record { lines = map byte_read a ++ byte_read b'x' ∷ []; left = b }
unfolding read_loop
read_loop-stops [] b h = refl
read_loop-stops (c ∷ a) b h = ground (arith, read_loop-stops a b, h)

read_loop-ends :
    (a : List ℕ)
    → All IsNoX a
    → read_loop a ≡ record { lines = map byte_read a ++ read_error (pos 0) ∷ []; left = [] }
unfolding read_loop
read_loop-ends [] h = refl
read_loop-ends (c ∷ a) h = ground (arith, read_loop-ends a, h)

-- Whatever bytes without an 'x' come first: with an 'x' after them the reader shows them and the 'x',
-- reports no error and leaves all that follows unread; without one it shows them all and reports the
-- read of size 0 at the end.
pub read_loop_lem :
    (a b : List ℕ)
    → All IsNoX a
    → (read_loop (a ++ b'x' ∷ b)
        ≡ record { lines = map byte_read a ++ byte_read b'x' ∷ []; left = b })
      × (read_loop a ≡ record { lines = map byte_read a ++ read_error (pos 0) ∷ []; left = [] })
read_loop_lem a b h = (read_loop-stops a b h, read_loop-ends a h)

-- ===== src/Io/Pipe/Full.antt =====
-- Where the writes into a pipe stop.
use linux_programing_demo.Common.{
  ltb, if◌then◌else◌, ℕ, zero, suc, ◌+◌, ◌≤◌, ◌≡◌, some, arith, dec_lt,
}
use linux_programing_demo.Io.Pipe.{blocked, filled, fill, main}

fill-end :
    (capacity rest i : ℕ)
    → i ≤ capacity
    → fill capacity rest i i
      ≡ (if ltb capacity (i + rest) then blocked capacity else filled (i + rest))
unfolding fill
fill-end capacity zero i le = ground arith
fill-end capacity (suc rest) i le = elim (dec_lt i capacity) [
  | yes less ↦ ground (arith, fill-end capacity rest (i + 1) (omega (arith, less)))
  | no full ↦ ground arith
]

-- With a pipe of fewer bytes than the program writes, 65537, it blocks for ever, in the round whose number
-- is the size of the pipe; with a larger one it makes all its writes.
pub main-end :
    (capacity : ℕ)
    → main (some capacity) ≡ (if ltb capacity 65537 then blocked capacity else filled 65537)
unfolding main
main-end capacity = fill-end capacity 65537 0 (omega arith)

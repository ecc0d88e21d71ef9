-- ===== src/Io/BigFile/Offsets.antt =====
-- What a loop that ends has written, and that it ends.
use linux_programing_demo.Common.{
  ltb, Bool-cases, length, take, sub_ℕ, pos, ℕ, suc, ◌+◌, ◌≤◌, ◌<◌, ◌≡◌, refl, ap, subst, ◌⊎◌, inl,
  inr, true, false, some, List, [], ◌∷◌, arith,
}
use linux_programing_demo.Io.BigFile.{
  Write, wrote, failed, State, below, after_write, compare_offset, gives_up, efbig, write_loop,
  start,
}
use linux_programing_demo.Io.BigFile.Failures.{
  failures, Inv, below-sub_ℕ, remaining-sub_ℕ, compare_offset-offset, wrote-Inv, Ended, stopped,
  gave_up, more-offset, more-times, after-Inv,
}

-- From a state with `f` failed calls, the loop makes `k` calls more.
EndedAfter : ℕ → ℕ → State → State → List Write → ℕ → Type 0
EndedAfter total f s s' ws k = (s'.times ≡ s.times + k) × Ended total (f + failures (take k ws)) s'

-- With no call.
ended_at_once :
    (total f : ℕ) (s s' : State) (ws : List Write)
    → Ended total f s'
    → s ≡ s'
    → EndedAfter total f s s' ws 0
unfolding EndedAfter
ended_at_once total f s s' ws ended same =
    (ground (arith, same), subst (λ g. Ended total g s') (omega arith) ended)

-- One call, then `k`.
ended_later :
    (total f : ℕ) (s s' : State) (w : Write) (ws : List Write) (k : ℕ)
    → EndedAfter total (f + failures (w ∷ [])) (compare_offset (after_write total w s)) s' ws k
    → EndedAfter total f s s' (w ∷ ws) (suc k)
unfolding EndedAfter
ended_later total f s s' (wrote n) ws k (calls, ended) = (
  omega (arith, calls, more-times total s (wrote n)),
  subst (λ g. Ended total g s') (omega arith) ended,
)
ended_later total f s s' (failed e) ws k (calls, ended) = (
  omega (arith, calls, more-times total s (failed e)),
  subst (λ g. Ended total g s') (omega arith) ended,
)

write_loop-ends :
    (total f : ℕ) (s s' : State) (ws : List Write)
    → Inv f s
    → s.offset ≤ total + f
    → write_loop total s ws ≡ some s'
    → (k : ℕ) × EndedAfter total f s s' ws k
unfolding write_loop
write_loop-ends total f s s' [] inv small e = elim (Bool-cases (below s.had_written_size total)) [
  | inl more ↦ absurd (ground (arith, e, more))
  | inr over ↦
      let same : s ≡ s' = ground (arith, e, over) in
      (0, ended_at_once total f s s' [] (stopped total f s s' inv small over same) same)
]
write_loop-ends total f s s' (w ∷ ws) inv small e =
    elim (Bool-cases (below s.had_written_size total)) [
      | inl more ↦
          let t = compare_offset (after_write total w s) in
          let g = f + failures (w ∷ []) in
          let inv' = after-Inv total f s w inv in
          let small' : t.offset ≤ total + g =
            omega (arith, more-offset total f s w inv small more) in
          elim (Bool-cases (gives_up t)) [
            | inl up ↦
                let same : t ≡ s' = ground (arith, e, more, up) in
                (
                  1,
                  ended_later total f s s' w ws 0 (
                      ended_at_once total g t s' ws (gave_up total g t s' inv' small' up same)
                        same),
                )
            | inr on ↦
                let (k, ended) =
                  write_loop-ends total g t s' ws inv' small' (ground (arith, e, more, on)) in
                (suc k, ended_later total f s s' w ws k ended)
          ]
      | inr over ↦
          let same : s ≡ s' = ground (arith, e, over) in
          (0, ended_at_once total f s s' (w ∷ ws) (stopped total f s s' inv small over same) same)
    ]

-- When the loop ends, each of the calls that it has made and that failed has taken one off
-- `hadWrittenSize`; with `f` the number of these, `hadError` is set exactly if `f` is not 0, and the
-- file is `f` bytes longer than `totalSize`, or the loop has given up with EFBIG.
pub write_loop_lem :
    (total e : ℕ) (s : State) (ws : List Write)
    → write_loop total (start e) ws ≡ some s
    → let f = failures (take s.times ws) in
      (s.had_error ≡ ltb 0 f)
      × (s.had_written_size ≡ sub_ℕ s.offset f)
      × ((s.offset ≡ total + f) ⊎ ((0 < f) × (s.errno ≡ efbig) × (s.offset ≤ total + f)))
unfolding EndedAfter
write_loop_lem total e s ws h =
    let (k, (calls, ended)) =
      write_loop-ends total 0 (start e) s ws (record { size = refl; error = refl }) (omega arith)
        h in
    let made : k ≡ s.times = omega (arith, calls) in
    let all : Ended total (failures (take s.times ws)) s =
      subst (λ g. Ended total g s) (omega (arith, ap (λ k. failures (take k ws)) made)) ended in
    (all.inv.error, all.inv.size, all.why)

-- Every call has written something.
abbrev pub AllWrote : List Write → Type 0
AllWrote [] = Unit
AllWrote (wrote n ∷ ws) = (0 < n) × AllWrote ws
AllWrote (failed e ∷ ws) = ⊥

wrote-grows :
    (total n : ℕ) (s : State)
    → Inv 0 s
    → 0 < n
    → below s.had_written_size total ≡ true
    → s.offset < (compare_offset (after_write total (wrote n) s)).offset
unfolding after_write
wrote-grows total n s inv some_n more =
    rw
      (
        compare_offset-offset (after_write total (wrote n) s),
        inv.size,
        remaining-sub_ℕ s.offset 0 total,
      )
      (ground (arith, inv.size, below-sub_ℕ s.offset 0 total))

no_error-continues : (s : State) → Inv 0 s → gives_up s ≡ false
unfolding gives_up
no_error-continues s inv = rw inv.error refl

write_loop-goes :
    (total : ℕ) (s : State) (ws : List Write)
    → Inv 0 s
    → s.offset ≤ total
    → AllWrote ws
    → total ≤ s.offset + length ws
    → (s' : State) × (write_loop total s ws ≡ some s')
      × (s'.had_error ≡ false)
      × (s'.had_written_size ≡ pos total)
      × (s'.offset ≡ total)
unfolding write_loop
write_loop-goes total s [] inv small all enough = (
  s,
  ground (arith, inv.size, enough),
  inv.error,
  ground (arith, inv.size, enough, small),
  ground (arith, enough, small),
)
write_loop-goes total s (failed e ∷ ws) inv small all enough = absurd all
write_loop-goes total s (wrote n ∷ ws) inv small (some_n, all) enough =
    elim (Bool-cases (below s.had_written_size total)) [
      | inl more ↦
          let t = compare_offset (after_write total (wrote n) s) in
          let inv' = wrote-Inv total n 0 s inv in
          let small' = more-offset total 0 s (wrote n) inv (omega (arith, small)) more in
          let grows : total ≤ t.offset + length ws =
            omega (arith, wrote-grows total n s inv some_n more, enough) in
          let (s', runs, clean, size, there) =
            write_loop-goes total t ws inv' (omega (arith, small')) all grows in
          (s', ground (arith, more, runs, no_error-continues t inv'), clean, size, there)
      | inr over ↦ (
        s,
        ground (arith, over),
        inv.error,
        ground (arith, inv.size, over, small),
        ground (arith, inv.size, over, small),
      )
    ]

-- When every call writes something, the loop ends, after `totalSize` calls at most, with a file of
-- exactly `totalSize` bytes and `hadError` not set.
pub full_writes_finish :
    (total e : ℕ) (ws : List Write)
    → AllWrote ws
    → total ≤ length ws
    → (s : State) × (write_loop total (start e) ws ≡ some s)
      × (s.had_error ≡ false)
      × (s.had_written_size ≡ pos total)
      × (s.offset ≡ total)
full_writes_finish total e ws all enough =
    write_loop-goes total (start e) ws (record { size = refl; error = refl }) (omega arith) all
      (omega (arith, enough))

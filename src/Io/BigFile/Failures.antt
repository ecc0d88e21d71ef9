-- ===== src/Io/BigFile/Failures.antt =====
-- `hadWrittenSize` is the file's offset less the number of the calls that failed.
use linux_programing_demo.Common.{
  ltb, ◌==◌, Bool-cases, sub_ℕ, ◌+ℤ◌, pos, negsuc, ℕ, ◌+◌, ◌-◌, ◌≤◌, ◌<◌, ◌≡◌, subst, ◌⊎◌, inl, inr,
  true, false, List, [], ◌∷◌, arith,
}
use linux_programing_demo.Io.BigFile.{
  Write, wrote, failed, State, below, remaining, equals_offset, after_write, compare_offset,
  gives_up, efbig,
}

abbrev pub failures : List Write → ℕ
failures [] = 0
failures (wrote n ∷ ws) = failures ws
failures (failed e ∷ ws) = failures ws + 1

-- Every failed call takes one off `hadWrittenSize`: `f` have failed.
pub record Inv (f : ℕ) (s : State) : Type 0 where
  pub size : s.had_written_size ≡ sub_ℕ s.offset f
  pub error : s.had_error ≡ ltb 0 f

sub_ℕ-add : (a b n : ℕ) → sub_ℕ a b +ℤ pos n ≡ sub_ℕ (a + n) b
unfolding ◌+ℤ◌
sub_ℕ-add a b n = ground arith

sub_ℕ-minus : (a b : ℕ) → sub_ℕ a b +ℤ negsuc 0 ≡ sub_ℕ a (b + 1)
unfolding ◌+ℤ◌
sub_ℕ-minus a b = ground arith

equals-sub_ℕ : (a f : ℕ) → equals_offset (sub_ℕ a f) a ≡ (f == 0)
equals-sub_ℕ a f = ground arith

pub below-sub_ℕ : (a f total : ℕ) → below (sub_ℕ a f) total ≡ ltb a (total + f)
below-sub_ℕ a f total = ground arith

pub remaining-sub_ℕ : (a f total : ℕ) → remaining total (sub_ℕ a f) ≡ total + f - a
remaining-sub_ℕ a f total = ground arith

compared :
    (f : ℕ) (s : State)
    → s.had_written_size ≡ sub_ℕ s.offset f
    → (s.had_error ≡ true → 0 < f)
    → (compare_offset s).had_error ≡ ltb 0 f
unfolding compare_offset
compared f s size error = elim (Bool-cases (f == 0)) [
  | inl zero_f ↦ rw (size, equals-sub_ℕ s.offset f, zero_f) (ground (arith, zero_f, error))
  | inr some_f ↦ rw (size, equals-sub_ℕ s.offset f, some_f) (ground (arith, some_f))
]

pub compare_offset-offset : (s : State) → (compare_offset s).offset ≡ s.offset
unfolding compare_offset
compare_offset-offset s = ground arith

compare_offset-size : (s : State) → (compare_offset s).had_written_size ≡ s.had_written_size
unfolding compare_offset
compare_offset-size s = ground arith

compare_offset-Inv :
    (f : ℕ) (s : State)
    → s.had_written_size ≡ sub_ℕ s.offset f
    → (s.had_error ≡ true → 0 < f)
    → Inv f (compare_offset s)
compare_offset-Inv f s size error = record {
  size = rw (compare_offset-size s, compare_offset-offset s) size;
  error = compared f s size error;
}

pub wrote-Inv :
    (total n f : ℕ) (s : State) → Inv f s → Inv f (compare_offset (after_write total (wrote n) s))
unfolding after_write
wrote-Inv total n f s inv =
    compare_offset-Inv f (after_write total (wrote n) s) (rw inv.size (sub_ℕ-add s.offset f _))
      (ground (arith, inv.error))

failed-Inv :
    (total e f : ℕ) (s : State)
    → Inv f s
    → Inv (f + 1) (compare_offset (after_write total (failed e) s))
unfolding after_write
failed-Inv total e f s inv =
    compare_offset-Inv (f + 1) (after_write total (failed e) s)
      (rw inv.size (sub_ℕ-minus s.offset f)) (ground arith)

-- The loop ended with `f` failed calls: everything is written and the failed calls' ones too, or
-- the loop gave up.
pub record Ended (total : ℕ) (f : ℕ) (s : State) : Type 0 where
  pub inv : Inv f s
  pub why : (s.offset ≡ total + f) ⊎ ((0 < f) × (s.errno ≡ efbig) × (s.offset ≤ total + f))

pub stopped :
    (total f : ℕ) (s s' : State)
    → Inv f s
    → s.offset ≤ total + f
    → below s.had_written_size total ≡ false
    → s ≡ s'
    → Ended total f s'
stopped total f s s' inv small over same = subst (Ended total f) same (record {
  inv = inv;
  why = inl (ground (arith, small, over, inv.size, below-sub_ℕ s.offset f total));
})

pub gave_up :
    (total f : ℕ) (s s' : State)
    → Inv f s
    → s.offset ≤ total + f
    → gives_up s ≡ true
    → s ≡ s'
    → Ended total f s'
unfolding gives_up
gave_up total f s s' inv small up same = subst (Ended total f) same (record {
  inv = inv;
  why = inr (ground (arith, inv.error, up), ground (arith, up), ground (arith, small));
})

pub more-offset :
    (total f : ℕ) (s : State) (w : Write)
    → Inv f s
    → s.offset ≤ total + f
    → below s.had_written_size total ≡ true
    → (compare_offset (after_write total w s)).offset ≤ total + f
unfolding after_write
more-offset total f s (wrote n) inv small b =
    rw
      (
        compare_offset-offset (after_write total (wrote n) s),
        inv.size,
        remaining-sub_ℕ s.offset f total,
      )
      (ground arith)
more-offset total f s (failed e) inv small b =
    rw (compare_offset-offset (after_write total (failed e) s)) small

compare_offset-times : (s : State) → (compare_offset s).times ≡ s.times
unfolding compare_offset
compare_offset-times s = ground arith

pub more-times :
    (total : ℕ) (s : State) (w : Write)
    → (compare_offset (after_write total w s)).times ≡ s.times + 1
unfolding after_write
more-times total s (wrote n) = compare_offset-times (after_write total (wrote n) s)
more-times total s (failed e) = compare_offset-times (after_write total (failed e) s)

pub after-Inv :
    (total f : ℕ) (s : State) (w : Write)
    → Inv f s
    → Inv (f + failures (w ∷ [])) (compare_offset (after_write total w s))
after-Inv total f s (wrote n) inv =
    subst (λ g. Inv g (compare_offset (after_write total (wrote n) s))) (omega arith)
      (wrote-Inv total n f s inv)
after-Inv total f s (failed e) inv = failed-Inv total e f s inv

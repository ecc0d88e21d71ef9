-- ===== src/Io/FwriteFile/Progress.antt =====
-- When the loop over `fwrite` ends.
use linux_programing_demo.Common.{
  ltb, Bool-cases, ℕ, ◌+◌, ◌-◌, ◌≤◌, ◌<◌, min, ◌≡◌, refl, sym, ap, subst, ◌∙◌, inl, inr, true,
  false, Option, none, some, List, [], ◌∷◌, arith,
}
use linux_programing_demo.Io.FwriteFile.{Fwrite, State, write_once, write_loop, start}

-- The bytes written by the calls for a file that has `had` bytes already.
abbrev pub written : ℕ → ℕ → List Fwrite → ℕ
written total had [] = had
written total had (f ∷ fs) = written total (had + min f.wrote (min (total - had) 4096)) fs

record Inv (total : ℕ) (s : State) : Type 0 where
  same : s.position ≡ s.had_written_size
  clean : s.had_error ≡ false
  small : s.had_written_size ≤ total

write_once-Inv :
    (total : ℕ) (f : Fwrite) (s : State) → Inv total s → Inv total (write_once total f s)
unfolding write_once
write_once-Inv total f s inv = record {
  same = omega (arith, inv.same);
  clean = ground (arith, inv.same, inv.clean);
  small = omega (arith, inv.small);
}

written-full : (total : ℕ) (fs : List Fwrite) → written total total fs ≡ total
written-full total [] = refl
written-full total (f ∷ fs) = rw (none_left total f.wrote) (written-full total fs)
  where
    none_left : (n k : ℕ) → n + min k (min (n - n) 4096) ≡ n
    none_left n k = omega arith

-- How the loop ends: not while less than the total is written, else a clean state.
abbrev Ends : ℕ → Option State → ℕ → Type 0
Ends total none had = had < total
Ends total (some s) had =
    (s.had_error ≡ false) × (s.position ≡ total) × (s.had_written_size ≡ total) × (had ≡ total)

over :
    (total : ℕ) (s : State) (fs : List Fwrite)
    → Inv total s
    → total ≤ s.had_written_size
    → Ends total (some s) (written total s.had_written_size fs)
over total s fs inv full =
    let all : s.had_written_size ≡ total = omega (arith, full, inv.small) in
    (inv.clean, inv.same ∙ all, all, ap (λ h. written total h fs) all ∙ written-full total fs)

write_once-size :
    (total : ℕ) (f : Fwrite) (s : State)
    → (write_once total f s).had_written_size
      ≡ s.had_written_size + min f.wrote (min (total - s.had_written_size) 4096)
unfolding write_once
write_once-size total f s = refl

goes_on :
    (total : ℕ) (s : State) (f : Fwrite) (fs : List Fwrite)
    → ltb s.had_written_size total ≡ true
    → (write_once total f s).had_error ≡ false
    → write_loop total s (f ∷ fs) ≡ write_loop total (write_once total f s) fs
unfolding write_loop
goes_on total s f fs more clean = ground (arith, more, clean)

write_loop-Ends :
    (total : ℕ) (s : State) (fs : List Fwrite)
    → Inv total s
    → Ends total (write_loop total s fs) (written total s.had_written_size fs)
unfolding write_loop
write_loop-Ends total s [] inv = elim (Bool-cases (ltb s.had_written_size total)) [
  | inl more ↦ rw (more, write_loop) (ground (arith, more))
  | inr full ↦ rw (full, write_loop) (over total s [] inv (ground (arith, full)))
]
write_loop-Ends total s (f ∷ fs) inv = elim (Bool-cases (ltb s.had_written_size total)) [
  | inl more ↦
      let s' = write_once total f s in
      let inv' = write_once-Inv total f s inv in
      subst (λ o. Ends total o (written total s.had_written_size (f ∷ fs)))
        (sym (goes_on total s f fs more inv'.clean))
        (subst (λ h. Ends total (write_loop total s' fs) (written total h fs))
          (write_once-size total f s) (write_loop-Ends total s' fs inv'))
  | inr full ↦ rw (full, write_loop) (over total s (f ∷ fs) inv (ground (arith, full)))
]

-- The loop goes on, without end, exactly while the calls have written less than `totalSize` bytes
-- together; when it ends, the stream is at exactly `totalSize`, and `hadError` has not been set,
-- whichever calls have failed.
pub write_loop-written :
    (total : ℕ) (fs : List Fwrite)
    → (write_loop total start fs ≡ none → written total 0 fs < total)
      × ((s : State)
          → write_loop total start fs ≡ some s
          → (s.had_error ≡ false) × (s.position ≡ total) × (written total 0 fs ≡ total))
write_loop-written total fs =
    let r =
      write_loop-Ends total start fs (record { same = refl; clean = refl; small = omega arith }) in
    (
      λ e. subst (λ o. Ends total o (written total 0 fs)) e r,
      λ s e.
          let (clean, at_end, size, all) = subst (λ o. Ends total o (written total 0 fs)) e r in
          (clean, at_end, all),
    )

-- ===== src/Signal/Phases.antt =====
-- What a SIGINT does, by the phase in which it comes.
use linux_programing_demo.Common.{
  ℤ, pos, ℕ, ◌+◌, ◌≡◌, refl, subst, Bool, true, some, List, [], ◌∷◌, arith,
}
use linux_programing_demo.Signal.{
  Phase, first, second, third, Disposition, by_default, ignored, handled, Main, ignoring, handling,
  acting, asleep, awake, exited, killed, Line, received, after_sleep, System, step, arrive,
  is_running, Reach, begin, next, interrupt,
}

-- The sleeps that have been reported, the newest first.
abbrev pub reported : List Line → List Phase
reported [] = []
reported (after_sleep k ∷ ls) = k ∷ reported ls
reported (_ ∷ ls) = reported ls

-- The number of times that the handler has printed.
abbrev pub receipts : List Line → ℕ
receipts [] = 0
receipts (received ∷ ls) = receipts ls + 1
receipts (_ ∷ ls) = receipts ls

-- What `main`'s place says of the disposition and of the lines.
abbrev Fits : Main → System → Type 0
Fits ignoring s = (s.disposition ≡ by_default) × (s.lines ≡ [])
Fits handling s =
    (s.disposition ≡ ignored) × (reported s.lines ≡ first ∷ []) × (receipts s.lines ≡ 0)
Fits acting s = (s.disposition ≡ handled) × (reported s.lines ≡ second ∷ first ∷ [])
Fits (asleep first) s = (s.disposition ≡ ignored) × (s.lines ≡ [])
Fits (asleep second) s = (s.disposition ≡ handled) × (reported s.lines ≡ first ∷ [])
Fits (asleep third) s = (s.disposition ≡ handled) × (reported s.lines ≡ second ∷ first ∷ [])
Fits (awake first) s = (s.disposition ≡ ignored) × (s.lines ≡ [])
Fits (awake second) s = (s.disposition ≡ handled) × (reported s.lines ≡ first ∷ [])
Fits (awake third) s = (s.disposition ≡ handled) × (reported s.lines ≡ second ∷ first ∷ [])
Fits (exited r) s =
    (r ≡ pos 0 → reported s.lines ≡ third ∷ second ∷ first ∷ [])
    × (reported s.lines ≡ [] → receipts s.lines ≡ 0)
Fits killed s = (s.disposition ≡ by_default) × (s.lines ≡ [])

module _ (s : System) (fits : Fits s.main s) where
  step-Fits :
      (s' : System) (ok : Bool) (v : ℤ) (m : Main)
      → s.main ≡ m
      → step ok v m s ≡ some s'
      → Fits s'.main s'
  unfolding step
  step-Fits s' ok v (exited r) e h = cc
  step-Fits s' ok v killed e h = cc
  step-Fits s' ok v (asleep first) e h = ground (arith, fits)
  step-Fits s' ok v (asleep second) e h = ground (arith, fits)
  step-Fits s' ok v (asleep third) e h = ground (arith, fits)
  step-Fits s' ok v (awake first) e h = ground (arith, fits)
  step-Fits s' ok v (awake second) e h = ground (arith, fits)
  step-Fits s' ok v (awake third) e h = ground (arith, fits)
  step-Fits s' ok v _ e h = ground (arith, fits)

  arrive-Fits :
      (m : Main) (d : Disposition)
      → s.main ≡ m
      → s.disposition ≡ d
      → is_running m ≡ true
      → Fits (arrive d s).main (arrive d s)
  unfolding arrive
  arrive-Fits (exited r) d e k h = cc
  arrive-Fits killed d e k h = cc
  arrive-Fits m ignored e k h = fits
  arrive-Fits (asleep first) handled e k h = ground (arith, fits)
  arrive-Fits (asleep second) handled e k h = ground (arith, fits)
  arrive-Fits (asleep third) handled e k h = ground (arith, fits)
  arrive-Fits (awake first) handled e k h = ground (arith, fits)
  arrive-Fits (awake second) handled e k h = ground (arith, fits)
  arrive-Fits (awake third) handled e k h = ground (arith, fits)
  arrive-Fits _ handled e k h = ground (arith, fits)
  arrive-Fits (asleep first) by_default e k h = ground (arith, fits)
  arrive-Fits (asleep second) by_default e k h = ground (arith, fits)
  arrive-Fits (asleep third) by_default e k h = ground (arith, fits)
  arrive-Fits (awake first) by_default e k h = ground (arith, fits)
  arrive-Fits (awake second) by_default e k h = ground (arith, fits)
  arrive-Fits (awake third) by_default e k h = ground (arith, fits)
  arrive-Fits _ by_default e k h = ground (arith, fits)

Reach-Fits : {s : System} → Reach s → Fits s.main s
Reach-Fits begin = (refl, refl)
Reach-Fits (next {s = s} s' ok v r h) = step-Fits s (Reach-Fits r) s' ok v s.main refl h
Reach-Fits (interrupt {s = s} r run) =
    arrive-Fits s (Reach-Fits r) s.main s.disposition refl refl run

quiet : (s : System) (m : Main) → Fits m s → reported s.lines ≡ [] → receipts s.lines ≡ 0
quiet s (exited r) f e = f.1 e
quiet s handling f e = f.2
quiet s (asleep first) f e = ground (arith, f)
quiet s (asleep second) f e = ground (arith, f)
quiet s (asleep third) f e = ground (arith, f)
quiet s (awake first) f e = ground (arith, f)
quiet s (awake second) f e = ground (arith, f)
quiet s (awake third) f e = ground (arith, f)
quiet s _ f e = ground (arith, f)

-- Whenever the SIGINTs come: one ends the process only before the first call of `signal` has replaced
-- the default disposition, with nothing printed; the handler prints nothing before the end of the first
-- sleep has been reported; and a `main` that returns 0 has reported its three sleeps, in order.
pub sigint_phases :
    (s : System)
    → Reach s
    → (s.main ≡ killed → (s.disposition ≡ by_default) × (s.lines ≡ []))
      × (reported s.lines ≡ [] → receipts s.lines ≡ 0)
      × (s.main ≡ exited (pos 0) → reported s.lines ≡ third ∷ second ∷ first ∷ [])
sigint_phases s r =
    let fits = Reach-Fits r in
    (
      λ e. subst (λ m. Fits m s) e fits,
      quiet s s.main fits,
      λ e. (subst (λ m. Fits m s) e fits).0 refl,
    )

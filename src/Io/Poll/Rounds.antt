-- ===== src/Io/Poll/Rounds.antt =====
-- When the loop over `poll` ends, and what it has shown then.
use linux_programing_demo.Common.{
  ℕ, zero, suc, ◌-◌, ◌<◌, ◌≡◌, refl, sym, ap, ◌∙◌, Option, none, some, List, [], ◌∷◌, arith,
}
use linux_programing_demo.Io.Epoll.{Printed}
use linux_programing_demo.Io.Poll.{
  Poll, poll_error, poll_timeout, polled, State, show_ready, poll_round, poll_loop, poll_main,
}

-- The results up to the `n`th timeout, and that one; none if there are fewer.
abbrev pub up_to_timeout : ℕ → List Poll → Option (List Poll)
up_to_timeout zero ps = some []
up_to_timeout (suc n) [] = none
up_to_timeout (suc n) (poll_timeout ∷ ps) = elim (up_to_timeout n ps) [
  | none ↦ none
  | some l ↦ some (poll_timeout ∷ l)
]
up_to_timeout (suc n) (p ∷ ps) = elim (up_to_timeout (suc n) ps) [
  | none ↦ none
  | some l ↦ some (p ∷ l)
]

-- The lines for the reads, the newest first.
abbrev pub shown_after : List Printed → List Poll → List Printed
shown_after out [] = out
shown_after out (polled pipe input ∷ ps) = shown_after (show_ready input (show_ready pipe out)) ps
shown_after out (p ∷ ps) = shown_after out ps

abbrev pub ended_with : List Printed → Option (List Poll) → Option State
ended_with out none = none
ended_with out (some l) = some (record { timeout_count = 0; printed = shown_after out l })

goes_on :
    (s : State) (p : Poll) (ps : List Poll)
    → 0 < (poll_round s p).timeout_count
    → poll_loop s (p ∷ ps) ≡ poll_loop (poll_round s p) ps
unfolding poll_loop
goes_on s p ps more = ground (arith, more)

-- A result that is kept in front.
kept :
    (out out' : List Printed) (p : Poll)
    → ((l : List Poll) → shown_after out (p ∷ l) ≡ shown_after out' l)
    → (o : Option (List Poll))
    → ended_with out' o ≡ ended_with out (elim o [ none ↦ none | some l ↦ some (p ∷ l) ])
kept out out' p same none = refl
kept out out' p same (some l) =
    ap (λ r. some (record { timeout_count = 0; printed = r })) (sym (same l))

abbrev at_count : ℕ → List Printed → State
at_count n out = record { timeout_count = n; printed = out }

no_more : (s : State) → poll_loop s [] ≡ none
unfolding poll_loop
no_more s = refl

last_timeout :
    (out : List Printed) (ps : List Poll)
    → poll_loop (at_count 1 out) (poll_timeout ∷ ps) ≡ some (at_count 0 out)
unfolding poll_loop
last_timeout out ps = refl

poll_loop-from :
    (n : ℕ) (out : List Printed) (ps : List Poll)
    → poll_loop (at_count (suc n) out) ps ≡ ended_with out (up_to_timeout (suc n) ps)
unfolding poll_round
poll_loop-from n out [] = no_more (at_count (suc n) out)
poll_loop-from n out (poll_error ∷ ps) =
    goes_on (at_count (suc n) out) poll_error ps (omega arith)
    ∙ poll_loop-from n out ps
    ∙ kept out out poll_error (λ l. refl) (up_to_timeout (suc n) ps)
poll_loop-from zero out (poll_timeout ∷ ps) = last_timeout out ps
poll_loop-from (suc n) out (poll_timeout ∷ ps) =
    let less : suc (suc n) - 1 ≡ suc n = omega arith in
    goes_on (at_count (suc (suc n)) out) poll_timeout ps (omega arith)
    ∙ ap (λ k. poll_loop (at_count k out) ps) less
    ∙ poll_loop-from n out ps
    ∙ kept out out poll_timeout (λ l. refl) (up_to_timeout (suc n) ps)
poll_loop-from n out (polled pipe input ∷ ps) =
    let out' = show_ready input (show_ready pipe out) in
    goes_on (at_count (suc n) out) (polled pipe input) ps (omega arith)
    ∙ poll_loop-from n out' ps
    ∙ kept out out' (polled pipe input) (λ l. refl) (up_to_timeout (suc n) ps)

-- The program ends at the fifth timeout and not before, whatever comes between, and has then shown
-- what the reads before it gave, in their order.
pub poll_main-ended : (ps : List Poll) → poll_main ps ≡ ended_with [] (up_to_timeout 5 ps)
unfolding poll_main
poll_main-ended ps = poll_loop-from 4 [] ps

-- ===== src/Threads/Cond/Accounts.antt =====
-- No item is lost or consumed twice, in every order of steps of the producer and the consumer.
use linux_programing_demo.Common.{
  if◌then◌else◌, ℕ, ◌+◌, ◌≤◌, ◌<◌, ◌≡◌, refl, ◌⊎◌, Bool, true, false, Option, none, some, arith,
}
use linux_programing_demo.Threads.Cond.{
  Who, producer, consumer, Producer, p_head, p_inc, p_unlock, p_signal, p_done, Consumer, c_lock,
  c_test, c_check_exit, c_wait, c_drain, c_unlock, c_exit_count, c_done, System, init, produce,
  consume, step, Reach, start, next, spurious,
}

-- The items that the producer has counted.
abbrev pub produced : ℕ → Producer → ℕ
produced max (p_head i) = i
produced max (p_inc i) = i
produced max (p_unlock i) = i + 1
produced max (p_signal i) = i + 1
produced max _ = max

abbrev pub InRange : ℕ → Producer → Type 0
InRange max (p_head i) = i ≤ max
InRange max (p_inc i) = i < max
InRange max (p_unlock i) = i < max
InRange max (p_signal i) = i < max
InRange max _ = Unit

abbrev p_owns : Producer → Bool
p_owns (p_inc i) = true
p_owns (p_unlock i) = true
p_owns _ = false

abbrev c_owns : Consumer → Bool
c_owns c_test = true
c_owns c_check_exit = true
c_owns c_drain = true
c_owns c_unlock = true
c_owns _ = false

abbrev is_signalling : Producer → Bool
is_signalling (p_unlock i) = true
is_signalling (p_signal i) = true
is_signalling _ = false

abbrev owner_of : Producer → Consumer → Option Who
owner_of p c = if p_owns p then some producer else (if c_owns c then some consumer else none)

pub record Inv (max : ℕ) (s : System) : Type 0 where
  pub owner : s.mutex ≡ owner_of s.prod s.cons
  pub apart : p_owns s.prod ≡ true → c_owns s.cons ≡ false
  pub account : s.exhausted + s.counter ≡ produced max s.prod
  pub range : InRange max s.prod
  pub exited : s.producer_exit ≡ true → s.prod ≡ p_done
  pub done_exits : s.prod ≡ p_done → s.producer_exit ≡ true
  pub tested : s.cons ≡ c_check_exit → s.counter ≡ 0
  -- A consumer that waits has nothing to consume, or is about to be signalled.
  pub signalled : s.cons ≡ c_wait → (s.counter ≡ 0) ⊎ (is_signalling s.prod ≡ true)
  pub leaving : s.cons ≡ c_exit_count → s.producer_exit ≡ true
  pub left : s.cons ≡ c_done → (s.producer_exit ≡ true) × (s.counter ≡ 0)

init-Inv : (max : ℕ) → Inv max init
init-Inv max = ground arith

produce-Inv :
    (max : ℕ) (s s' : System) (p : Producer)
    → Inv max s
    → s.prod ≡ p
    → produce max p s ≡ some s'
    → Inv max s'
unfolding produce
produce-Inv max s s' (p_head i) inv e h = ground arith
produce-Inv max s s' _ inv e h = ground arith

consume-Inv :
    (max : ℕ) (s s' : System) (c : Consumer)
    → Inv max s
    → s.cons ≡ c
    → consume c s ≡ some s'
    → Inv max s'
unfolding consume
consume-Inv max s s' c_lock inv e h = ground arith
consume-Inv max s s' _ inv e h = ground arith

step-Inv : (max : ℕ) (s s' : System) (w : Who) → Inv max s → step max w s ≡ some s' → Inv max s'
unfolding step
step-Inv max s s' producer inv h = produce-Inv max s s' s.prod inv refl h
step-Inv max s s' consumer inv h = consume-Inv max s s' s.cons inv refl h

pub Reach-Inv : (max : ℕ) {s : System} → Reach max s → Inv max s
Reach-Inv max start = init-Inv max
Reach-Inv max (next {s = s} s' w r h) = step-Inv max s s' w (Reach-Inv max r) h
Reach-Inv max (spurious {s = s} s' r e q) = let inv = Reach-Inv max r in ground (arith, inv, e, q)

-- The lines "exhaust" and the items left add up to the items produced, which are never more than
-- `maxTestNumber`; a consumer that finishes has consumed exactly `maxTestNumber` items, none is
-- left, and the producer has finished before.
pub items_accounted :
    (max : ℕ) (s : System)
    → Reach max s
    → (s.exhausted + s.counter ≡ produced max s.prod)
      × (produced max s.prod ≤ max)
      × (s.cons ≡ c_done → (s.prod ≡ p_done) × (s.exhausted ≡ max) × (s.counter ≡ 0))
items_accounted max s r =
    let inv = Reach-Inv max r in (inv.account, ground (arith, inv), λ e. ground (arith, inv))

-- When neither thread can move but by a spurious wake-up, the producer has finished and every item
-- has been consumed.
pub stuck_consumed :
    (max : ℕ) (s : System)
    → Reach max s
    → ((w : Who) → step max w s ≡ none)
    → (s.prod ≡ p_done)
      × ((s.cons ≡ c_done) ⊎ (s.cons ≡ c_wait))
      × (s.exhausted ≡ max)
      × (s.counter ≡ 0)
unfolding step produce consume
stuck_consumed max s r stuck = ground (arith, Reach-Inv max r, stuck producer, stuck consumer)

-- ===== src/Io/Epoll/Descriptors.antt =====
-- Which descriptors the loop over `epoll_wait` closes.
use linux_programing_demo.Common.{
  ◌==◌, if◌then◌else◌, Bool-cases, ℕ, ◌-◌, ◌≡◌, refl, subst, ◌≢◌, inl, inr, Option, none, some,
  List, [], ◌∷◌, arith,
}
use linux_programing_demo.Io.Epoll.{
  Event, readable, hung_up, other_event, Wait, interrupted, failed, timed_out, events, State, is_fd,
  handle, handle_all, close_var, on_timeout, round, leaves, finish, loop, start, main,
}

-- No number of `l` is `d`.
abbrev pub Absent : ℕ → List ℕ → Type 0
Absent d [] = Unit
Absent d (x ∷ l) = (x ≢ d) × Absent d l

abbrev pub Distinct : List ℕ → Type 0
Distinct [] = Unit
Distinct (x ∷ l) = Absent x l × Distinct l

-- The kernel reports events of open descriptors only, and of each one once in a call.
abbrev pub EventsOpen : List ℕ → List Event → Type 0
EventsOpen closed [] = Unit
EventsOpen closed (hung_up fd ∷ es) = Absent fd closed × EventsOpen (fd ∷ closed) es
EventsOpen closed (readable fd r ∷ es) = EventsOpen closed es
EventsOpen closed (other_event fd ∷ es) = EventsOpen closed es

-- A hang-up is reported of the read end or of standard input, never of the write end `p1`.
abbrev pub NotWriteEnd : ℕ → List Event → Type 0
NotWriteEnd p1 [] = Unit
NotWriteEnd p1 (hung_up fd ∷ es) = (fd ≢ p1) × NotWriteEnd p1 es
NotWriteEnd p1 (readable fd r ∷ es) = NotWriteEnd p1 es
NotWriteEnd p1 (other_event fd ∷ es) = NotWriteEnd p1 es

abbrev pub RoundOpen : ℕ → State → Wait → Type 0
RoundOpen p1 s (events es) = EventsOpen s.closed es × NotWriteEnd p1 es
RoundOpen p1 s _ = Unit

-- Every round's events are such, at the state that the round finds.
abbrev pub AllOpen : ℕ → State → List Wait → Type 0
AllOpen p1 s [] = Unit
AllOpen p1 s (w ∷ ws) = RoundOpen p1 s w × AllOpen p1 (round s w) ws

-- The variables name descriptors that are not closed, or -1.
abbrev Var : ℕ → Option ℕ → List ℕ → Type 0
Var p none l = Unit
Var p (some d) l = (d ≡ p) × Absent p l

record Inv (p0 p1 : ℕ) (s : State) : Type 0 where
  once : Distinct s.closed
  read_end : Var p0 s.pipe0 s.closed
  write_end : Var p1 s.pipe1 s.closed

kept_read_end :
    (p fd : ℕ) (v : Option ℕ) (l : List ℕ)
    → Var p v l
    → Var p (if is_fd v fd then none else v) (fd ∷ l)
kept_read_end p fd none l h = tt
kept_read_end p fd (some d) l (same, absent) = elim (Bool-cases (d == fd)) [
  | inl closes ↦ rw closes tt
  | inr stays ↦ rw stays (same, (ground (arith, stays, same), absent))
]

kept_write_end : (p fd : ℕ) (v : Option ℕ) (l : List ℕ) → fd ≢ p → Var p v l → Var p v (fd ∷ l)
kept_write_end p fd none l other h = tt
kept_write_end p fd (some d) l other (same, absent) = (same, (other, absent))

handle-Inv :
    (p0 p1 : ℕ) (s : State) (e : Event)
    → Inv p0 p1 s
    → EventsOpen s.closed (e ∷ [])
    → NotWriteEnd p1 (e ∷ [])
    → Inv p0 p1 (handle s e)
unfolding handle
handle-Inv p0 p1 s (readable fd r) inv o ne = ground (arith, inv)
handle-Inv p0 p1 s (other_event fd) inv o ne = inv
handle-Inv p0 p1 s (hung_up fd) inv (absent, o) (other, ne) = record {
  once = (absent, inv.once);
  read_end = kept_read_end p0 fd s.pipe0 s.closed inv.read_end;
  write_end = kept_write_end p1 fd s.pipe1 s.closed other inv.write_end;
}

handle_all-Inv :
    (p0 p1 : ℕ) (s : State) (es : List Event)
    → Inv p0 p1 s
    → EventsOpen s.closed es
    → NotWriteEnd p1 es
    → Inv p0 p1 (handle_all s es)
unfolding handle_all handle
handle_all-Inv p0 p1 s [] inv o ne = inv
handle_all-Inv p0 p1 s (readable fd r ∷ es) inv o ne =
    handle_all-Inv p0 p1 (handle s (readable fd r)) es
      (handle-Inv p0 p1 s (readable fd r) inv tt tt) o ne
handle_all-Inv p0 p1 s (other_event fd ∷ es) inv o ne = handle_all-Inv p0 p1 s es inv o ne
handle_all-Inv p0 p1 s (hung_up fd ∷ es) inv (absent, o) (other, ne) =
    handle_all-Inv p0 p1 (handle s (hung_up fd)) es
      (handle-Inv p0 p1 s (hung_up fd) inv (absent, tt) (other, tt)) o ne

closed_write_end :
    (p0 p1 : ℕ) (s : State)
    → p0 ≢ p1
    → Inv p0 p1 s
    → Inv p0 p1 (record s {
      closed = elim s.pipe1 [ none ↦ s.closed | some fd ↦ fd ∷ s.closed ];
      pipe1 = none;
    })
closed_write_end p0 p1 s apart inv = go s.pipe0 s.pipe1 inv.read_end inv.write_end
  where
    go :
        (v0 v1 : Option ℕ)
        → Var p0 v0 s.closed
        → Var p1 v1 s.closed
        → Inv p0 p1 (record s {
          pipe0 = v0;
          closed = elim v1 [ none ↦ s.closed | some fd ↦ fd ∷ s.closed ];
          pipe1 = none;
        })
    go v0 none h0 h1 = record { once = inv.once; read_end = h0; write_end = tt }
    go none (some d) h0 (same, absent) = record {
      once = (rw same absent, inv.once);
      read_end = tt;
      write_end = tt;
    }
    go (some c) (some d) (eq, left) (same, absent) = record {
      once = (rw same absent, inv.once);
      read_end = (eq, (ground (arith, same, apart), left));
      write_end = tt;
    }

on_timeout-Inv : (p0 p1 : ℕ) (s : State) → p0 ≢ p1 → Inv p0 p1 s → Inv p0 p1 (on_timeout s)
unfolding on_timeout
on_timeout-Inv p0 p1 s apart inv = elim (Bool-cases (s.timeout_count - 1 == 2)) [
  | inl now ↦ rw now (
      closed_write_end p0 p1 (record s { timeout_count = s.timeout_count - 1 }) apart
        (ground (arith, inv)))
  | inr later ↦ rw later (ground (arith, inv))
]

finish-Distinct : (p0 p1 : ℕ) (s : State) → p0 ≢ p1 → Inv p0 p1 s → Distinct (finish s).closed
unfolding finish close_var
finish-Distinct p0 p1 s apart inv = go s.pipe0 s.pipe1 inv.read_end inv.write_end
  where
    go :
        (v0 v1 : Option ℕ)
        → Var p0 v0 s.closed
        → Var p1 v1 s.closed
        → Distinct (close_var v1 (close_var v0 s.closed))
    go none none h0 h1 = inv.once
    go (some c) none (eq, left) h1 = ground (arith, inv.once, eq, left)
    go none (some d) h0 (same, absent) = ground (arith, inv.once, same, absent)
    go (some c) (some d) (eq, left) (same, absent) =
        ground (arith, inv.once, eq, left, same, absent, apart)

round-Inv :
    (p0 p1 : ℕ) (s : State) (w : Wait)
    → p0 ≢ p1
    → Inv p0 p1 s
    → RoundOpen p1 s w
    → Inv p0 p1 (round s w)
unfolding round
round-Inv p0 p1 s interrupted apart inv here = inv
round-Inv p0 p1 s failed apart inv here = inv
round-Inv p0 p1 s timed_out apart inv here = on_timeout-Inv p0 p1 s apart inv
round-Inv p0 p1 s (events es) apart inv (o, ne) = handle_all-Inv p0 p1 s es inv o ne

loop-Distinct :
    (p0 p1 : ℕ) (s s' : State) (ws : List Wait)
    → p0 ≢ p1
    → Inv p0 p1 s
    → AllOpen p1 s ws
    → loop s ws ≡ some s'
    → Distinct s'.closed
unfolding loop
loop-Distinct p0 p1 s s' [] apart inv o e = cc
loop-Distinct p0 p1 s s' (w ∷ ws) apart inv (here, o) e =
    let inv' = round-Inv p0 p1 s w apart inv here in
    elim (Bool-cases (leaves (round s w) w)) [
      | inl last ↦
          let same : finish (round s w) ≡ s' = ground (arith, e, last) in
          subst (λ t. Distinct t.closed) same (finish-Distinct p0 p1 (round s w) apart inv')
      | inr more ↦ loop-Distinct p0 p1 (round s w) s' ws apart inv' o (ground (arith, e, more))
    ]

-- No descriptor is closed twice, neither in the loop nor after it, when the kernel reports a
-- hang-up only of descriptors that are open and never of the write end, and the two ends of the
-- pipe are different descriptors.
pub main-closes_once :
    (p0 p1 : ℕ) (ws : List Wait) (s : State)
    → p0 ≢ p1
    → AllOpen p1 (start p0 p1) ws
    → main p0 p1 ws ≡ some s
    → Distinct s.closed
unfolding main
main-closes_once p0 p1 ws s apart o e =
    loop-Distinct p0 p1 (start p0 p1) s ws apart
      (record { once = tt; read_end = (refl, tt); write_end = (refl, tt) }) o e

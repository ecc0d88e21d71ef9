-- ===== src/Threads/ThreadData/Buffers.antt =====
-- What becomes of the buffers, and what the threads see.
use linux_programing_demo.Common.{
  All-snoc, ltb, ◌==◌, if◌then◌else◌, ltb→lt, Bool-cases, Option-cases, All, pos, negsuc, ℕ, ◌+◌,
  ◌≤◌, ◌<◌, ◌≡◌, refl, subst, ◌⊎◌, inl, inr, Bool, true, false, Option, none, some, List, [], ◌∷◌,
  ◌++◌, arith,
}
use linux_programing_demo.Threads.Family.{update, total, total-update}
use linux_programing_demo.Threads.ThreadData.{
  Pc, unborn, set_tls, allocating, set_specific, asleep, get_specific, show_tls, leaving, gave_up,
  gone, Thread, Line, specific_line, tls_line, Main, key_creating, creating, joining, returned,
  System, init, data_of, func, is_ended, master, Reach, begin, act, lead,
}

abbrev pub is : ℕ → Option ℕ → ℕ
is b none = 0
is b (some c) = if c == b then 1 else 0

-- Does a thread have buffer `b`, in a variable or behind its key?
abbrev pub holds : ℕ → Pc → ℕ
holds b (set_specific c) = is b c
holds b (gave_up c) = is b c
holds b _ = 0

abbrev pub has : ℕ → Thread → ℕ
has b th = holds b th.pc + is b th.specific

-- How often it was freed.
abbrev pub times : ℕ → List ℕ → ℕ
times b [] = 0
times b (c ∷ l) = (if c == b then 1 else 0) + times b l

abbrev pub has_tls : Pc → Bool
has_tls unborn = false
has_tls set_tls = false
has_tls _ = true

-- Here the value of the key is NULL.
abbrev is_null : Pc → Bool
is_null unborn = true
is_null set_tls = true
is_null allocating = true
is_null (set_specific c) = true
is_null (gave_up c) = true
is_null gone = true
is_null _ = false

-- A line shows the thread's own `tls`.
abbrev pub IsOwn : Line → Type 0
IsOwn (tls_line t v) = v ≡ data_of t
IsOwn (specific_line t v) = Unit

abbrev IsFresh : (ℕ → Thread) → Main → Type 0
IsFresh th (creating k) = (t : ℕ) → k ≤ t → (th t).pc ≡ unborn
IsFresh th key_creating = (t : ℕ) → (th t).pc ≡ unborn
IsFresh th _ = Unit

record Inv (s : System) : Type 0 where
  once :
      (b : ℕ) → times b s.freed + total (has b) 2 s.threads ≡ (if ltb b s.next_buffer then 1 else 0)
  own_tls : (t : ℕ) → has_tls (s.threads t).pc ≡ true → (s.threads t).tls ≡ data_of t
  null : (t : ℕ) → is_null (s.threads t).pc ≡ true → (s.threads t).specific ≡ none
  shown : All IsOwn s.lines
  fresh : IsFresh s.threads s.main

module _ (s s' : System) (ok : Bool) (t : ℕ) (lt : t < 2) (inv : Inv s) where
  held :
      (b : ℕ) (th : Thread)
      → total (has b) 2 (update s.threads t th) + has b (s.threads t)
        ≡ total (has b) 2 s.threads + has b th
  held b th = total-update (has b) 2 t s.threads th lt

  func-once :
      (p : Pc) (b : ℕ)
      → (s.threads t).pc ≡ p
      → func ok t p (s.threads t) s ≡ some s'
      → times b s'.freed + total (has b) 2 s'.threads ≡ (if ltb b s'.next_buffer then 1 else 0)
  unfolding func
  func-once set_tls b e h = ground (
    arith,
    inv.once b,
    inv.null t,
    held b (record (s.threads t) { pc = allocating; tls = data_of t }),
  )
  func-once allocating b e h = ground (
    arith,
    inv.once b,
    inv.null t,
    held b (record (s.threads t) { pc = set_specific (some s.next_buffer) }),
    held b (record (s.threads t) { pc = set_specific none }),
  )
  func-once (set_specific c) b e h = ground (
    arith,
    inv.once b,
    inv.null t,
    held b (record (s.threads t) { pc = asleep; specific = c }),
    held b (record (s.threads t) { pc = gave_up c }),
  )
  func-once asleep b e h =
      ground (arith, inv.once b, held b (record (s.threads t) { pc = get_specific }))
  func-once get_specific b e h =
      ground (arith, inv.once b, held b (record (s.threads t) { pc = show_tls }))
  func-once show_tls b e h =
      ground (arith, inv.once b, held b (record (s.threads t) { pc = leaving }))
  func-once leaving b e h = elim (Option-cases (s.threads t).specific) [
    | inl nothing ↦ ground (arith, inv.once b, held b (record (s.threads t) { pc = gone }))
    | inr (c, something) ↦
        ground (arith, inv.once b, held b (record (s.threads t) { pc = gone; specific = none }))
  ]
  func-once unborn b e h = cc
  func-once (gave_up c) b e h = cc
  func-once gone b e h = cc

  func-own_tls :
      (p : Pc) (u : ℕ)
      → (s.threads t).pc ≡ p
      → func ok t p (s.threads t) s ≡ some s'
      → has_tls (s'.threads u).pc ≡ true
      → (s'.threads u).tls ≡ data_of u
  unfolding func
  func-own_tls allocating u e h = ground (arith, inv.own_tls u, inv.own_tls t)
  func-own_tls (set_specific c) u e h = ground (arith, inv.own_tls u, inv.own_tls t)
  func-own_tls leaving u e h = elim (Option-cases (s.threads t).specific) [
    | inl nothing ↦ ground (arith, inv.own_tls u, inv.own_tls t)
    | inr (c, something) ↦ ground (arith, inv.own_tls u, inv.own_tls t)
  ]
  func-own_tls _ u e h = ground (arith, inv.own_tls u, inv.own_tls t)

  func-null :
      (p : Pc) (u : ℕ)
      → (s.threads t).pc ≡ p
      → func ok t p (s.threads t) s ≡ some s'
      → is_null (s'.threads u).pc ≡ true
      → (s'.threads u).specific ≡ none
  unfolding func
  func-null allocating u e h = ground (arith, inv.null u, inv.null t)
  func-null (set_specific c) u e h = ground (arith, inv.null u, inv.null t)
  func-null leaving u e h = elim (Option-cases (s.threads t).specific) [
    | inl nothing ↦ ground (arith, inv.null u, inv.null t)
    | inr (c, something) ↦ ground (arith, inv.null u, inv.null t)
  ]
  func-null _ u e h = ground (arith, inv.null u, inv.null t)

  -- What a thread's step does to the lines, and to `main`.
  func-lines :
      (p : Pc)
      → (s.threads t).pc ≡ p
      → func ok t p (s.threads t) s ≡ some s'
      → (s'.lines ≡ s.lines) ⊎ ((l : Line) × (s'.lines ≡ s.lines ++ l ∷ []) × IsOwn l)
  unfolding func
  func-lines get_specific e h = inr (specific_line t (s.threads t).specific, ground arith, tt)
  func-lines show_tls e h =
      inr (tls_line t (s.threads t).tls, ground arith, inv.own_tls t (rw e refl))
  func-lines allocating e h = inl (ground arith)
  func-lines (set_specific c) e h = inl (ground arith)
  func-lines leaving e h = elim (Option-cases (s.threads t).specific) [
    | inl nothing ↦ inl (ground arith)
    | inr (c, something) ↦ inl (ground arith)
  ]
  func-lines _ e h = inl (ground arith)

  func-main :
      (p : Pc) (u : ℕ)
      → (s.threads t).pc ≡ p
      → func ok t p (s.threads t) s ≡ some s'
      → (s'.main ≡ s.main) × ((s.threads u).pc ≡ unborn → (s'.threads u).pc ≡ unborn)
  unfolding func
  func-main allocating u e h = (ground arith, λ e'. ground arith)
  func-main (set_specific c) u e h = (ground arith, λ e'. ground arith)
  func-main leaving u e h = elim (Option-cases (s.threads t).specific) [
    | inl nothing ↦ (ground arith, λ e'. ground arith)
    | inr (c, something) ↦ (ground arith, λ e'. ground arith)
  ]
  func-main _ u e h = (ground arith, λ e'. ground arith)

  lines_shown :
      (s'.lines ≡ s.lines) ⊎ ((l : Line) × (s'.lines ≡ s.lines ++ l ∷ []) × IsOwn l)
      → All IsOwn s'.lines
  lines_shown (inl same) = rw same inv.shown
  lines_shown (inr (l, more, own)) = rw more (All-snoc IsOwn s.lines l inv.shown own)

  still-IsFresh :
      (m : Main)
      → ((u : ℕ) → (s.threads u).pc ≡ unborn → (s'.threads u).pc ≡ unborn)
      → IsFresh s.threads m
      → IsFresh s'.threads m
  still-IsFresh (creating k) keeps f = λ u ge. keeps u (f u ge)
  still-IsFresh key_creating keeps f = λ u. keeps u (f u)
  still-IsFresh (joining k) keeps f = tt
  still-IsFresh (returned r) keeps f = tt

  func-Inv : func ok t (s.threads t).pc (s.threads t) s ≡ some s' → Inv s'
  func-Inv h = record {
    once = λ b. func-once (s.threads t).pc b refl h;
    own_tls = λ u. func-own_tls (s.threads t).pc u refl h;
    null = λ u. func-null (s.threads t).pc u refl h;
    shown = lines_shown (func-lines (s.threads t).pc refl h);
    fresh =
        rw (func-main (s.threads t).pc 0 refl h).0
          (still-IsFresh s.main (λ u. (func-main (s.threads t).pc u refl h).1) inv.fresh);
  }

-- `main` creates thread `k`.
create-Inv :
    (s : System) (k : ℕ)
    → k < 2
    → s.main ≡ creating k
    → Inv s
    → Inv (record s {
      threads = update s.threads k (record { pc = set_tls; tls = 0; specific = none });
      main = creating (k + 1);
    })
create-Inv s k lt e inv =
    let f : IsFresh s.threads (creating k) = rw e at inv.fresh in
    let born : (s.threads k).pc ≡ unborn = f k (omega arith) in
    record {
      once = λ b. ground (
        arith,
        inv.once b,
        inv.null k,
        total-update (has b) 2 k s.threads (record { pc = set_tls; tls = 0; specific = none }) lt,
      );
      own_tls = λ t. ground (arith, inv.own_tls t);
      null = λ t. ground (arith, inv.null t);
      shown = inv.shown;
      fresh = λ t ge. ground (arith, f t);
    }

turn-Inv : (s : System) (m : Main) → IsFresh s.threads m → Inv s → Inv (record s { main = m })
turn-Inv s m f inv = record {
  once = inv.once;
  own_tls = inv.own_tls;
  null = inv.null;
  shown = inv.shown;
  fresh = f;
}

init-Inv : Inv init
unfolding total
init-Inv = record {
  once = λ b. ground arith;
  own_tls = λ t e. cc;
  null = λ t e. refl;
  shown = tt;
  fresh = λ t. refl;
}

-- What holds after a step of `main`.
abbrev Ensures : Option System → Type 0
Ensures none = Unit
Ensures (some s) = Inv s

master-Ensures : (s : System) (ok : Bool) (m : Main) → s.main ≡ m → Inv s → Ensures (master ok m s)
unfolding master
master-Ensures s true key_creating e inv =
    let f : IsFresh s.threads key_creating = rw e at inv.fresh in
    turn-Inv s (creating 0) (λ t ge. f t) inv
master-Ensures s false key_creating e inv = turn-Inv s (returned (negsuc 0)) tt inv
master-Ensures s ok (creating k) e inv = elim (Bool-cases (ltb k 2)) [
  | inl more ↦ rw more (create_step ok more)
  | inr last ↦ rw last (turn-Inv s (joining 0) tt inv)
]
  where
    create_step :
        (ok : Bool)
        → ltb k 2 ≡ true
        → Inv (
            if ok
            then record s {
              threads = update s.threads k (record { pc = set_tls; tls = 0; specific = none });
              main = creating (k + 1);
            }
            else record s { main = returned (negsuc 0) })
    create_step true more = create-Inv s k (ltb→lt k 2 more) e inv
    create_step false more = turn-Inv s (returned (negsuc 0)) tt inv
master-Ensures s ok (joining k) e inv = elim (Bool-cases (ltb k 2)) [
  | inl more ↦ elim (Bool-cases (is_ended (s.threads k).pc)) [
    | inl over ↦ rw (more, over) (turn-Inv s (joining (k + 1)) tt inv)
    | inr runs ↦ rw (more, runs) tt
  ]
  | inr last ↦ rw last (turn-Inv s (returned (pos 0)) tt inv)
]
master-Ensures s ok (returned r) e inv = tt

Reach-Inv : {s : System} → Reach s → Inv s
Reach-Inv begin = init-Inv
Reach-Inv (act {s = s} s' ok t r lt run h) = func-Inv s s' ok t lt (Reach-Inv r) h
Reach-Inv (lead {s = s} s' ok r h) = subst Ensures h (master-Ensures s ok s.main refl (Reach-Inv r))

-- In every run: each buffer that `malloc` has given out is freed once, or still held by one of the two
-- threads, and not both; a thread that gives up after pthread_setspecific keeps its buffer for good.
-- No other buffer is freed. And each thread shows its own value of `tls`.
pub buffers_accounted :
    (s : System)
    → Reach s
    → ((b : ℕ)
        → times b s.freed + total (has b) 2 s.threads ≡ (if ltb b s.next_buffer then 1 else 0))
      × All IsOwn s.lines
buffers_accounted s r = ((Reach-Inv r).once, (Reach-Inv r).shown)

-- ===== src/Io/Inotify/RoundTrip.antt =====
-- The events that are shown are those in the buffer.
use linux_programing_demo.Common.{
  take-append, drop-append, length, All, length-append, ℕ, zero, suc, ◌+◌, ◌*◌, ◌/◌, ◌%◌, ◌≤◌, ◌<◌,
  ◌≡◌, refl, sym, ap, some, List, [], ◌∷◌, ◌++◌, map, arith,
}
use linux_programing_demo.Io.Inotify.{
  Event, Line, display_event, field, event_at, show_events, Read, bytes, read_zero, read_failed,
  read_loop,
}

-- The four bytes of a number below 2 ^ 32, the lowest first.
abbrev pub le32 : ℕ → List ℕ
le32 n = n % 256 ∷ (n / 256) % 256 ∷ (n / 65536) % 256 ∷ (n / 16777216) % 256 ∷ []

-- An event as the kernel writes it.
abbrev pub encode : Event → List ℕ
encode e = le32 e.wd ++ le32 e.mask ++ le32 e.cookie ++ le32 (length e.name) ++ e.name

abbrev pub encode_all : List Event → List ℕ
encode_all [] = []
encode_all (e ∷ es) = encode e ++ encode_all es

abbrev pub concat : List (List Event) → List Event
concat [] = []
concat (es ∷ groups) = es ++ concat groups

map-append : (f : Event → Line) (xs ys : List Event) → map f (xs ++ ys) ≡ map f xs ++ map f ys
map-append f [] ys = refl
map-append f (x ∷ xs) ys = ap (λ r. f x ∷ r) (map-append f xs ys)

-- The fields have 32 bits.
abbrev pub Fits : Event → Type 0
Fits e =
    (e.wd < 4294967296)
    × (e.mask < 4294967296)
    × (e.cookie < 4294967296)
    × (length e.name < 4294967296)

le32-sum :
    (n : ℕ)
    → n < 4294967296
    → n % 256
        + 256 * ((n / 256) % 256)
        + 65536 * ((n / 65536) % 256)
        + 16777216 * ((n / 16777216) % 256)
      ≡ n
le32-sum n h = omega (arith, h)

field-le32 : (n : ℕ) (p : List ℕ) → n < 4294967296 → field (le32 n ++ p) ≡ some (n, p)
unfolding field
field-le32 n p h = rw (le32-sum n h) refl

event_at-encode : (e : Event) (p : List ℕ) → Fits e → event_at (encode e ++ p) ≡ some (e, p)
unfolding event_at field
event_at-encode e p (w, m, c, l) =
    rw
      (
        le32-sum e.wd w,
        le32-sum e.mask m,
        le32-sum e.cookie c,
        le32-sum (length e.name) l,
        take-append e.name p,
        drop-append e.name p,
      )
      refl

show_events-encode :
    (es : List Event) (fuel : ℕ)
    → All Fits es
    → length es < fuel
    → show_events fuel (encode_all es) ≡ some (map display_event es)
unfolding show_events
show_events-encode es zero fit enough = absurd (omega (arith, enough))
show_events-encode [] (suc fuel) fit enough = refl
show_events-encode (e ∷ es) (suc fuel) (fits, fit) enough =
    rw
      (
        event_at-encode e (encode_all es) fits,
        show_events-encode es fuel fit (omega (arith, enough)),
        show_events,
      )
      refl

length-encode_all : (es : List Event) → length es ≤ length (encode_all es)
length-encode_all [] = omega arith
length-encode_all (e ∷ es) =
    omega (arith, length-encode_all es, length-append e.name (encode_all es))

show_events-whole :
    (es : List Event)
    → All Fits es
    → show_events (length (encode_all es) + 1) (encode_all es) ≡ some (map display_event es)
show_events-whole es fit = show_events-encode es _ fit (omega (arith, length-encode_all es))

-- The reads of a run: the events of each, or none.
abbrev pub reads_of : List (List Event) → List Read
reads_of [] = read_failed ∷ []
reads_of ([] ∷ groups) = read_zero ∷ reads_of groups
reads_of ((e ∷ es) ∷ groups) = bytes (encode_all (e ∷ es)) ∷ reads_of groups

-- The program shows every event of every buffer exactly once, in the order in which the kernel
-- wrote them, whatever the lengths of their names, and ends at the read that fails.
pub read_loop-encode :
    (groups : List (List Event))
    → All (All Fits) groups
    → read_loop (reads_of groups) ≡ some (map display_event (concat groups))
unfolding read_loop
read_loop-encode [] fit = refl
read_loop-encode ([] ∷ groups) (here, fit) = read_loop-encode groups fit
read_loop-encode ((e ∷ es) ∷ groups) (here, fit) =
    rw (show_events-whole (e ∷ es) here, read_loop-encode groups fit)
      (ap some (sym (map-append display_event (e ∷ es) (concat groups))))

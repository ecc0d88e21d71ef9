-- ===== src/Io/Inotify.antt =====
-- io/inotify/main.c: what is shown of the events that `read` puts into the buffer, one after the
-- other as `struct inotify_event`, little-endian. The results of the calls are inputs.
pub mod RoundTrip
use linux_programing_demo.Common.{
  ltb, ◌==◌, if◌then◌else◌, length, take, drop, ℤ, pos, negsuc, ℕ, zero, suc, ◌+◌, ◌-◌, ◌*◌, ◌/◌,
  ◌%◌, ◌^◌, Bool, true, false, not, ◌&&◌, ◌||◌, Option, none, some, List, [], ◌∷◌, ◌++◌,
}
use linux_programing_demo.CString.{CString, same_string, dash_help}
use linux_programing_demo.Common.{◌>>=◌}

-- The names that are printed of a mask, in the source's order, each with the number of its bit in
-- sys/inotify.h.
pub data MaskName : Type 0 where
  in_access in_attrib in_close_nowrite in_close_write in_create in_delete in_delete_self : MaskName
  in_ignored in_isdir in_modify in_move_self in_moved_from in_moved_to in_open : MaskName
  in_q_overflow in_unmount : MaskName

abbrev pub bits : List (ℕ × MaskName)
bits =
    (0, in_access)
    ∷ (2, in_attrib)
    ∷ (4, in_close_nowrite)
    ∷ (3, in_close_write)
    ∷ (8, in_create)
    ∷ (9, in_delete)
    ∷ (10, in_delete_self)
    ∷ (15, in_ignored)
    ∷ (30, in_isdir)
    ∷ (1, in_modify)
    ∷ (11, in_move_self)
    ∷ (6, in_moved_from)
    ∷ (7, in_moved_to)
    ∷ (5, in_open)
    ∷ (14, in_q_overflow)
    ∷ (13, in_unmount)
    ∷ []

-- `e->mask & BIT`, one `if` after the other.
pub mask_names : ℕ → List (ℕ × MaskName) → List MaskName
mask_names mask [] = []
mask_names mask ((k, name) ∷ rest) =
    let names = mask_names mask rest in if (mask / 2 ^ k) % 2 == 1 then name ∷ names else names

-- The fields of an event; `name` has `len` bytes.
pub record Event : Type 0 where
  pub wd : ℕ
  pub mask : ℕ
  pub cookie : ℕ
  pub name : List ℕ

-- What `displayEvent` prints: `wd` is an `int`, whose 32 bits are given here.
pub record Line : Type 0 where
  pub shown_wd : ℤ
  pub shown_cookie : Option ℕ
  pub shown_mask : List MaskName
  pub shown_name : Option (List ℕ)

abbrev pub to_int : ℕ → ℤ
to_int w = if ltb w (2 ^ 31) then pos w else negsuc (2 ^ 32 - 1 - w)

-- `%s` of the name: up to its first NUL.
pub name_text : List ℕ → List ℕ
name_text [] = []
name_text (c ∷ s) = let rest = name_text s in if c == 0 then [] else c ∷ rest

pub display_event : Event → Line
unfolding mask_names name_text
display_event e = record {
  shown_wd = to_int e.wd;
  shown_cookie = if ltb 0 e.cookie then some e.cookie else none;
  shown_mask = mask_names e.mask bits;
  shown_name = if ltb 0 (length e.name) then some (name_text e.name) else none;
}

-- A 32-bit field at `p`, with what follows; none is a read past the bytes of the buffer.
pub field : List ℕ → Option (ℕ × List ℕ)
field (a ∷ b ∷ c ∷ d ∷ p) = some (a + 256 * b + 65536 * c + 16777216 * d, p)
field p = none

-- The event at `p`, with `p` after `p += sizeof(struct inotify_event) + event->len`.
pub event_at : List ℕ → Option (Event × List ℕ)
unfolding field
event_at p = do
  (wd, p1) ← field p
  (mask, p2) ← field p1
  (cookie, p3) ← field p2
  (len, p4) ← field p3
  some (record { wd = wd; mask = mask; cookie = cookie; name = take len p4 }, drop len p4)

-- The loop over the bytes of one `read`, for `fuel` events at most.
pub show_events : ℕ → List ℕ → Option (List Line)
show_events zero p = none
show_events (suc fuel) [] = some []
show_events (suc fuel) (b ∷ p) = do
  (event, rest) ← event_at (b ∷ p)
  lines ← show_events fuel rest
  some (display_event event ∷ lines)

-- `read`: bytes, or 0, or -1.
pub data Read : Type 0 where
  bytes : List ℕ → Read
  read_zero read_failed : Read

-- The loop of `main`: what it prints until `read` fails; none if the results at hand end before, or
-- for an event that is not whole.
pub read_loop : List Read → Option (List Line)
read_loop [] = none
read_loop (read_zero ∷ rs) = read_loop rs
read_loop (read_failed ∷ rs) = some []
read_loop (bytes b ∷ rs) = do
  lines ← show_events (length b + 1) b
  more ← read_loop rs
  some (lines ++ more)

-- The watches: `inotify_add_watch` succeeds or not, and the first that does not ends the program.
pub add_watches : List Bool → Bool
add_watches [] = true
add_watches (added ∷ rest) = let others = add_watches rest in if added then others else false

-- What `main` does: the usage, or -1, or 0 after its lines.
pub data End : Type 0 where
  usage failed waits_on : End
  ended : List Line → End

abbrev help_char : CString
help_char = b'-' ∷ b'h' ∷ []

-- `main`, with the arguments after the program's name.
pub main : List CString → Bool → List Bool → List Read → End
unfolding add_watches read_loop same_string
main [] init_ok watches reads = usage
main (a ∷ args) init_ok watches reads =
    if same_string a help_char || same_string a dash_help
    then usage
    else (if not (init_ok && add_watches watches)
        then failed
        else elim (read_loop reads) [ none ↦ waits_on | some lines ↦ ended lines ])

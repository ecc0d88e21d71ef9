-- ===== src/Threads/ThreadData.antt =====
-- thread/tls-tsd/main.c: threads that each have a variable of their own and a buffer behind a key whose
-- destructor frees it. A step is one call or one access; whether a call succeeds is an input.
-- Buffers are numbered in the order in which `malloc` gives them out.
pub mod Buffers
use linux_programing_demo.Common.{
  ltb, if◌then◌else◌, ℤ, pos, negsuc, ℕ, ◌+◌, ◌-◌, ◌<◌, ◌≡◌, Bool, true, false, Option, none, some,
  List, [], ◌∷◌, ◌++◌,
}
use linux_programing_demo.Threads.Family.{update}

-- Where a thread stands in `_func`; `gave_up` is the early return, with the buffer it had.
pub data Pc : Type 0 where
  unborn : Pc
  set_tls : Pc
  allocating : Pc
  set_specific : Option ℕ → Pc
  asleep : Pc
  get_specific : Pc
  show_tls : Pc
  leaving : Pc  -- before the destructor of the key
  gave_up : Option ℕ → Pc
  gone : Pc

-- A thread: its `tls`, and its value of `key`, none being NULL.
pub record Thread : Type 0 where
  pub pc : Pc
  pub tls : ℕ
  pub specific : Option ℕ

-- The printed values, with the number of the thread: of `pthread_getspecific`, and of `tls`.
pub data Line : Type 0 where
  specific_line : ℕ → Option ℕ → Line
  tls_line : ℕ → ℕ → Line

pub data Main : Type 0 where
  key_creating : Main
  creating : ℕ → Main
  joining : ℕ → Main
  returned : ℤ → Main

pub record System : Type 0 where
  pub next_buffer : ℕ
  pub freed : List ℕ
  pub lines : List Line
  pub threads : ℕ → Thread
  pub main : Main

abbrev pub init : System
init = record {
  next_buffer = 0;
  freed = [];
  lines = [];
  threads = λ _. record { pc = unborn; tls = 0; specific = none };
  main = key_creating;
}

-- Thread `t` becomes `th`.
abbrev pub put : ℕ → Thread → System → Option System
put t th s = some (record s { threads = update s.threads t th })

-- `(long)data` of thread `t`, which `main` creates as the `t + 1`-th.
abbrev pub data_of : ℕ → ℕ
data_of t = t + 1

-- The destructor is called for a value that is not NULL, and the value is NULL then.
unfoldable pub clean_up : ℕ → Thread → System → Option System
clean_up t th s = elim th.specific [
  | none ↦ put t (record th { pc = gone }) s
  | some b ↦ put t (record th { pc = gone; specific = none }) (record s { freed = b ∷ s.freed })
]

-- The next step of thread `t`, which is `th`, and whether its call succeeds.
unfoldable pub func : Bool → ℕ → Pc → Thread → System → Option System
unfolding clean_up
func ok t set_tls th s = put t (record th { pc = allocating; tls = data_of t }) s
func ok t allocating th s =
    if ok
    then put t (record th { pc = set_specific (some s.next_buffer) })
        (record s { next_buffer = s.next_buffer + 1 })
    else put t (record th { pc = set_specific none }) s
func ok t (set_specific b) th s =
    if ok
    then put t (record th { pc = asleep; specific = b }) s
    else put t (record th { pc = gave_up b }) s
func ok t asleep th s = put t (record th { pc = get_specific }) s
func ok t get_specific th s =
    put t (record th { pc = show_tls })
      (record s { lines = s.lines ++ specific_line t th.specific ∷ [] })
func ok t show_tls th s =
    put t (record th { pc = leaving }) (record s { lines = s.lines ++ tls_line t th.tls ∷ [] })
func ok t leaving th s = clean_up t th s
func ok t _ th s = none

abbrev pub is_ended : Pc → Bool
is_ended (gave_up b) = true
is_ended gone = true
is_ended _ = false

-- The next step of `main`, which creates and joins two threads.
unfoldable pub master : Bool → Main → System → Option System
master ok key_creating s = some (record s { main = if ok then creating 0 else returned (negsuc 0) })
master ok (creating k) s =
    if ltb k 2
    then some (
        if ok
        then record s {
          threads = update s.threads k (record { pc = set_tls; tls = 0; specific = none });
          main = creating (k + 1);
        }
        else record s { main = returned (negsuc 0) })
    else some (record s { main = joining 0 })
master ok (joining k) s =
    if ltb k 2
    then (if is_ended (s.threads k).pc then some (record s { main = joining (k + 1) }) else none)
    else some (record s { main = returned (pos 0) })
master ok (returned r) s = none

-- The process is gone once `main` has returned.
abbrev pub is_running : Main → Bool
is_running (returned r) = false
is_running _ = true

pub data Reach : System → Type 0 where
  begin : Reach init
  act :
      {s : System} (s' : System) (ok : Bool) (t : ℕ)
      → Reach s
      → t < 2
      → is_running s.main ≡ true
      → func ok t (s.threads t).pc (s.threads t) s ≡ some s'
      → Reach s'
  lead : {s : System} (s' : System) (ok : Bool) → Reach s → master ok s.main s ≡ some s' → Reach s'

-- ===== src/Memory/MmapFile/Contents.antt =====
-- What `_fileContext` returns, and what the two processes show of the file.
use linux_programing_demo.Common.{
  take-append, drop-append, ◌==◌, if◌then◌else◌, lt→ltb, length, set, take, drop, length-append,
  take_all, length-map, overlay, ℕ, ◌+◌, ◌-◌, ◌≤◌, ◌<◌, min, ◌≡◌, refl, sym, ap, ◌∙◌, Bool, true,
  false, Option, some, List, [], ◌∷◌, ◌++◌, map, arith,
}
use linux_programing_demo.Memory.MmapFile.{
  to_upper, child_func, Read, up_to, read_failed, read_all, file_context, change_mapped, main,
}

overlay-set :
    (file fresh : List ℕ)
    → length fresh ≡ length file + 1
    → set (overlay file fresh) (length file) 0 ≡ file ++ 0 ∷ []
overlay-set [] [] h = absurd (omega (arith, h))
overlay-set [] (b ∷ []) h = refl
overlay-set [] (b ∷ c ∷ fresh) h = absurd (omega (arith, h))
overlay-set (x ∷ file) [] h = absurd (omega (arith, h))
overlay-set (x ∷ file) (b ∷ fresh) h = ap (λ r. x ∷ r) (overlay-set file fresh (omega (arith, h)))

-- Nothing more is read of a file that is read whole.
read_all-over :
    (file buffer : List ℕ) (n : ℕ) (rs : List Read)
    → read_all file n rs n buffer ≡ some (set buffer n 0)
unfolding read_all
read_all-over file buffer n [] = ground arith
read_all-over file buffer n (read_failed ∷ rs) = refl
read_all-over file buffer n (up_to k ∷ rs) = ground arith

-- A call that reads `part`.
read_all-part :
    (file buffer part : List ℕ) (n k total next : ℕ) (rs : List Read)
    → take (min k (n - total)) (drop total file) ≡ part
    → total < n
    → 0 < length part
    → total + length part ≡ next
    → read_all file n (up_to k ∷ rs) total buffer ≡ read_all file n rs next (overlay part buffer)
unfolding read_all
read_all-part file buffer part n k total next rs same less some_part sum =
    rw (lt→ltb total n less, same, nonzero (length part) some_part, sum, read_all) refl
  where
    nonzero : (m : ℕ) → 0 < m → (m == 0) ≡ false
    nonzero m h = ground (arith, h)

-- When the first `read` returns the whole file, the buffer is the file and a NUL, whatever the
-- memory held.
pub file_context-whole :
    (file fresh : List ℕ) (k : ℕ) (rs : List Read)
    → length fresh ≡ length file + 1
    → length file ≤ k
    → file_context file fresh (up_to k ∷ rs) ≡ some (file ++ 0 ∷ [])
unfolding file_context
file_context-whole [] fresh k rs room enough =
    read_all-over [] fresh 0 (up_to k ∷ rs) ∙ ap some (overlay-set [] fresh room)
file_context-whole (x ∷ file) fresh k rs room enough =
    let text = x ∷ file in
    read_all-part text fresh text (length text) k 0 (length text) rs
      (rw (whole (length text) k enough) (take_all (length text) text (omega arith))) (omega arith)
      (omega arith) (omega arith)
    ∙ read_all-over text (overlay text fresh) (length text) rs
    ∙ ap some (overlay-set text fresh room)
  where
    whole : (n k : ℕ) → n ≤ k → min k (n - 0) ≡ n
    whole n k h = omega (arith, h)

both_show :
    (file text fresh : List ℕ) (k l : ℕ) (rs ts : List Read)
    → file ≡ text
    → length fresh ≡ length text + 1
    → length text ≤ k
    → length text ≤ l
    → (let shown = some (text ++ 0 ∷ []) in
        ◌≡◌ {A = Option (List ℕ) × Option (List ℕ)}
          (file_context file fresh (up_to k ∷ rs), file_context file fresh (up_to l ∷ ts))
          (shown, shown))
both_show file text fresh k l rs ts same room hk hl =
    rw
      (same, file_context-whole text fresh k rs room hk, file_context-whole text fresh l ts room hl)
      refl

child_func-map : (text : List ℕ) → child_func (length text) text ≡ map to_upper text
unfolding child_func
child_func-map [] = refl
child_func-map (b ∷ text) = ap (λ r. to_upper b ∷ r) (child_func-map text)

-- Through a shared mapping both processes see the text in upper case, through a private one the
-- text as it was, when each `read` returns the whole file.
pub main-shows :
    (use_private : Bool) (text fresh : List ℕ) (k l : ℕ) (rs ts : List Read)
    → length fresh ≡ length text + 1
    → length text ≤ k
    → length text ≤ l
    → (let shown = some ((if use_private then text else map to_upper text) ++ 0 ∷ []) in
        main use_private text fresh (up_to k ∷ rs) (up_to l ∷ ts) ≡ (shown, shown))
unfolding main change_mapped
main-shows true text fresh k l rs ts room hk hl =
    both_show text text fresh k l rs ts refl room hk hl
main-shows false text fresh k l rs ts room hk hl =
    let same : length (map to_upper text) ≡ length text = length-map text to_upper in
    both_show _ (map to_upper text) fresh k l rs ts (child_func-map text)
      (omega (arith, room, same)) (omega (arith, hk, same)) (omega (arith, hl, same))

-- A file that is read in two parts is not put together: the second part is written over the start
-- of the first.
pub file_context-parts :
    (a b fresh : List ℕ) (rs : List Read)
    → 0 < length a
    → 0 < length b
    → length fresh ≡ length a + length b + 1
    → file_context (a ++ b) fresh (up_to (length a) ∷ up_to (length b) ∷ rs)
      ≡ some (set (overlay b (overlay a fresh)) (length a + length b) 0)
unfolding file_context
file_context-parts a b fresh rs some_a some_b room =
    let n = length (a ++ b) in
    let sum : n ≡ length a + length b = length-append a b in
    let at_a : min (length a) (n - 0) ≡ length a = omega (arith, sum) in
    let at_b : min (length b) (n - length a) ≡ length b = omega (arith, sum) in
    read_all-part (a ++ b) fresh a n (length a) 0 (length a) (up_to (length b) ∷ rs)
      (rw at_a (take-append a b)) (omega (arith, sum, some_a)) some_a (omega arith)
    ∙ read_all-part (a ++ b) (overlay a fresh) b n (length b) (length a) n rs
        (rw (at_b, drop-append a b) (take_all (length b) b (omega arith)))
        (omega (arith, sum, some_b)) some_b (sym sum)
    ∙ read_all-over (a ++ b) _ n rs
    ∙ rw sum refl

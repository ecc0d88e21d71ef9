-- ===== src/Socket/HttpClient/Header.antt =====
-- The loop that reads the answer prints the header, up to its blank line.
use linux_programing_demo.Common.{
  leb, ◌==◌, if◌then◌else◌, leb→le, Bool-cases, length, get_elem?, set, take, drop, replicate,
  length-append, length-drop, ℕ, zero, suc, ◌+◌, ◌-◌, ◌≤◌, ◌≡◌, refl, sym, ap, ◌∙◌, inl, inr, Bool,
  true, false, none, some, List, [], ◌∷◌, ◌++◌, append_assoc, append-nil, arith,
}
use linux_programing_demo.Socket.HttpClient.{
  ReadResult, got_char, end_of_file, same_chars, blank_line, header_ends, read_header, read_answer,
  Result,
}

abbrev pub same_list : List ℕ → List ℕ → Bool
same_list [] [] = true
same_list [] (y ∷ t) = false
same_list (x ∷ s) [] = false
same_list (x ∷ s) (y ∷ t) = if x == y then same_list s t else false

-- Whether the last four characters are the end of a line and an empty line.
abbrev pub ends_blank : List ℕ → Bool
ends_blank text =
    if leb 4 (length text) then same_list (drop (length text - 4) text) blank_line else false

-- What follows `seen`, up to the first blank line, if there is one.
abbrev pub up_to_blank : List ℕ → List ℕ → List ℕ
up_to_blank seen [] = []
up_to_blank seen (c ∷ text) =
    let rest = up_to_blank (seen ++ c ∷ []) text in
    if ends_blank (seen ++ c ∷ []) then c ∷ [] else c ∷ rest

-- Whether there is one.
abbrev pub has_blank : List ℕ → List ℕ → Bool
has_blank seen [] = false
has_blank seen (c ∷ text) =
    let rest = has_blank (seen ++ c ∷ []) text in if ends_blank (seen ++ c ∷ []) then true else rest

-- A server that sends `text` and closes its connection.
abbrev pub sends : List ℕ → ℕ → ReadResult
sends text k = elim (get_elem? text k) [ none ↦ end_of_file | some c ↦ got_char c ]

get_elem?-after : (xs ys : List ℕ) → get_elem? (xs ++ ys) (length xs) ≡ get_elem? ys 0
get_elem?-after [] ys = refl
get_elem?-after (x ∷ xs) ys = get_elem?-after xs ys

set-after : (xs ys : List ℕ) (y v : ℕ) → set (xs ++ y ∷ ys) (length xs) v ≡ xs ++ v ∷ ys
set-after [] ys y v = refl
set-after (x ∷ xs) ys y v = rw (set-after xs ys y v) refl

drop-append_le : (n : ℕ) (xs ys : List ℕ) → n ≤ length xs → drop n (xs ++ ys) ≡ drop n xs ++ ys
drop-append_le zero xs ys h = refl
drop-append_le (suc n) [] ys h = absurd (omega (arith, h))
drop-append_le (suc n) (x ∷ xs) ys h = drop-append_le n xs ys (omega (arith, h))

same_chars-blank :
    (d ys : List ℕ) → length d ≡ 4 → same_chars (d ++ ys) blank_line 4 ≡ same_list d blank_line
same_chars-blank [] ys h = absurd (omega (arith, h))
same_chars-blank (a ∷ []) ys h = absurd (omega (arith, h))
same_chars-blank (a ∷ b ∷ []) ys h = absurd (omega (arith, h))
same_chars-blank (a ∷ b ∷ c ∷ []) ys h = absurd (omega (arith, h))
same_chars-blank (a ∷ b ∷ c ∷ d ∷ []) ys h = ground arith
same_chars-blank (a ∷ b ∷ c ∷ d ∷ e ∷ ds) ys h = absurd (omega (arith, h))

header_ends-ends_blank :
    (text ys : List ℕ) (i : ℕ) → length text ≡ i + 1 → header_ends (text ++ ys) i ≡ ends_blank text
unfolding header_ends
header_ends-ends_blank text ys i h = elim (Bool-cases (leb 3 i)) [
  | inl enough ↦
      let four : length (drop (i - 3) text) ≡ 4 =
        omega (arith, length-drop (i - 3) text, h, leb→le 3 i enough) in
      rw
        (
          enough,
          drop-append_le (i - 3) text ys (omega (arith, h)),
          same_chars-blank (drop (i - 3) text) ys four,
          h,
        )
        (ground (arith, enough))
  | inr short ↦ ground (arith, short, h)
]

at_end :
    (left i : ℕ) (reads : ℕ → ReadResult) (buffer out : List ℕ)
    → ((k : ℕ) → i ≤ k → reads k ≡ end_of_file)
    → read_header left i reads buffer out ≡ record { printed = out; calls = i + left }
unfolding read_header
at_end zero i reads buffer out ended = ground arith
at_end (suc left) i reads buffer out ended =
    rw (ended i (omega arith), read_header)
      (at_end left (i + 1) reads buffer out (λ k h. ended k (omega (arith, h))) ∙ ground arith)

sends-after : (text : List ℕ) (k : ℕ) → length text ≤ k → sends text k ≡ end_of_file
sends-after [] k h = refl
sends-after (x ∷ text) zero h = absurd (omega (arith, h))
sends-after (x ∷ text) (suc k) h = sends-after text k (omega (arith, h))

abbrev read_so_far : ℕ → List ℕ → List ℕ → Result
read_so_far left seen text = record {
  printed = seen ++ up_to_blank seen (take left text);
  calls =
      if has_blank seen (take left text)
      then length (seen ++ up_to_blank seen (take left text))
      else length seen + left;
}

read_header-from :
    (left : ℕ) (seen text : List ℕ)
    → read_header left (length seen) (sends (seen ++ text)) (seen ++ replicate left 0) seen
      ≡ read_so_far left seen text
unfolding read_header
read_header-from zero seen text = rw (append-nil seen) (ground arith)
read_header-from (suc left) seen [] =
    rw (append-nil seen) (at_end (suc left) (length seen) (sends seen) _ seen (sends-after seen))
read_header-from (suc left) seen (c ∷ text) =
    let zeros = replicate left 0 in
    let seen' = seen ++ c ∷ [] in
    let longer : length seen' ≡ length seen + 1 = length-append seen (c ∷ []) in
    let ih : read_header left (length seen + 1) (sends (seen ++ c ∷ text)) (seen ++ c ∷ zeros) seen'
        ≡ read_so_far left seen' text =
      rw (sym longer, sym (append_assoc seen (c ∷ []) text), sym (append_assoc seen (c ∷ []) zeros))
        (read_header-from left seen' text) in
    let hit : sends (seen ++ c ∷ text) (length seen) ≡ got_char c =
      rw (get_elem?-after seen (c ∷ text), sends) refl in
    let test : header_ends (seen ++ c ∷ zeros) (length seen) ≡ ends_blank seen' =
      rw (sym (append_assoc seen (c ∷ []) zeros))
        (header_ends-ends_blank seen' zeros (length seen) longer) in
    elim (Bool-cases (ends_blank seen')) [
      | inl blank ↦ rw (hit, read_header, set-after seen zeros 0 c, test, blank) (rw longer refl)
      | inr more ↦
          rw (hit, read_header, set-after seen zeros 0 c, test, more)
            (ih
              ∙ rw (append_assoc seen (c ∷ []) (up_to_blank seen' (take left text)), longer)
                  (ground arith))
    ]

-- When the server sends `text` and closes, exactly the text up to its first blank line is printed,
-- of the first 1024 characters at most; a text without one keeps the loop at it for 1024 calls of
-- `read`, however short it is.
pub read_answer_lem :
    (text : List ℕ)
    → ((read_answer (sends text)).printed ≡ up_to_blank [] (take 1024 text))
      × ((read_answer (sends text)).calls ≡ (
          if has_blank [] (take 1024 text) then length (up_to_blank [] (take 1024 text)) else 1024))
unfolding read_answer
read_answer_lem text =
    let e = read_header-from 1024 [] text in (ap (λ r. r.printed) e, ap (λ r. r.calls) e)

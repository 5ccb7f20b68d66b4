-- ===== src/Lsp/Framing/Delivery.antt =====
-- What is framed by `send` is what the handler dispatches.
use mathlib.Core.List.{foldl, append_assoc, flatten}
use tflw_tests.Prelude.{
  ℕ, suc, ◌+◌, ◌%◌, ◌≡◌, refl, ap, ◌∙◌, true, false, some, List, [], ◌∷◌, ◌++◌, map, arith, ltb,
  ◌==◌, length, take, drop, any, all, length-append, take-append, drop-append, any-append, Text,
  codes, starts_with, decimal, is_digit, read_decimal, read_decimal-decimal, decimal-IsDigit,
}
use tflw_tests.Lsp.Framing.{
  Bytes, blank_line, index_of, ascii, skip_space, digits_of, length_here, or_else, content_length,
  frame, take_frame, read_header, find_frame, next, scanned, after, scan, on_data, send,
}
use tflw_tests.Lsp.Framing.Chunks.{scan-frame, scan-nil, on_data-flatten}

-- A header with no carriage return ends where the blank line begins.
index_of-header :
    (header t : Bytes)
    → any (λ c. c == 13) header ≡ false
    → index_of (header ++ (blank_line ++ t)) blank_line ≡ some (length header)
unfolding index_of starts_with
index_of-header [] t h = refl
index_of-header (c ∷ header) t h = ground (arith, index_of-header header t)

digits-no_return : (s : Text) → all is_digit s ≡ true → any (λ c. c == 13) s ≡ false
digits-no_return [] h = refl
digits-no_return (c ∷ s) h = ground (arith, digits-no_return s)

ascii-digits : (s : Text) → all is_digit s ≡ true → ascii s ≡ s
ascii-digits [] h = refl
ascii-digits (c ∷ s) h =
    let c_ascii : c % 128 ≡ c = ground arith in
    let tail : ascii s ≡ s = ascii-digits s (ground arith) in cc

digits_of-digits : (s : Text) → all is_digit s ≡ true → digits_of s ≡ s
unfolding digits_of
digits_of-digits [] h = refl
digits_of-digits (c ∷ s) h = ground (arith, digits_of-digits s)

skip_space-digits : (s : Text) → all is_digit s ≡ true → skip_space s ≡ s
unfolding skip_space
skip_space-digits [] h = refl
skip_space-digits (c ∷ s) h = ground arith

content_length-decimal :
    (s : Text) (n : ℕ)
    → all is_digit s ≡ true
    → read_decimal s ≡ some n
    → content_length (codes "Content-Length: " ++ s) ≡ some n
unfolding content_length length_here or_else
content_length-decimal s n h e = rw (skip_space-digits s h, digits_of-digits s h, e)

header_of : Bytes → Text
header_of body = codes "Content-Length: " ++ decimal (length body)

index_of-send :
    (body t : Bytes)
    → index_of (header_of body ++ (blank_line ++ (body ++ t))) blank_line
      ≡ some (length (header_of body))
index_of-send body t = index_of-header (header_of body) (body ++ t) (
    unfold header_of in
    any-append (λ c. c == 13) (codes "Content-Length: ") (decimal (length body))
    ∙ digits-no_return (decimal (length body)) (decimal-IsDigit (length body)))

content_length-header_of :
    (body t : Bytes)
    → content_length (ascii (take (length (header_of body)) (header_of body ++ t)))
      ≡ some (length body)
content_length-header_of body t = rw (take-append (header_of body) t) (
    unfold header_of in
    rw (ascii-digits (decimal (length body)) (decimal-IsDigit (length body))) (
      content_length-decimal (decimal (length body)) (length body) (decimal-IsDigit (length body))
        (read_decimal-decimal (length body))))

drop-add : (s t : Bytes) (m : ℕ) → drop (length s + m) (s ++ t) ≡ drop m t
drop-add [] t m = ap (λ k. drop k t) (omega arith)
drop-add (c ∷ s) t m =
    let one_more : suc (length s) + m ≡ suc (length s + m) = omega arith in
    rw one_more (drop-add s t m)

module _ (header body t : Bytes) where
  abbrev whole : Bytes
  whole = header ++ (blank_line ++ (body ++ t))

  take_frame-whole : take_frame whole (length header + 4) (length body) ≡ frame body t
  unfolding take_frame
  take_frame-whole =
      let sum : length whole ≡ length header + (4 + (length body + length t)) =
        omega (arith, length-append header (blank_line ++ (body ++ t)), length-append body t) in
      let room : ltb (length whole) (length header + 4 + length body) ≡ false = ground arith in
      let nested : length header + 4 + length body ≡ length header + (4 + length body) =
        omega arith in
      let past : drop (4 + length body) (blank_line ++ (body ++ t)) ≡ t = past_body in
      rw (
        room,
        nested,
        drop-add header (blank_line ++ (body ++ t)) (4 + length body),
        past,
        drop-add header (blank_line ++ (body ++ t)) 4,
        take-append body t,
      )
    where
      past_body : drop (4 + length body) (blank_line ++ (body ++ t)) ≡ t
      past_body = drop-add blank_line (body ++ t) (length body) ∙ drop-append body t

next-header_of :
    (body t : Bytes) → next (header_of body ++ (blank_line ++ (body ++ t))) ≡ frame body t
unfolding next find_frame read_header
next-header_of body t =
    rw (index_of-send body t, content_length-header_of body (blank_line ++ (body ++ t)))
      (take_frame-whole (header_of body) body t)

next-send : (body t : Bytes) → next (send body ++ t) ≡ frame body t
next-send body t =
    ap next (split_up ∙ ap (λ x. header_of body ++ x) (append_assoc blank_line body t))
    ∙ next-header_of body t
  where
    split_up : send body ++ t ≡ header_of body ++ ((blank_line ++ body) ++ t)
    split_up =
        unfold send header_of in
        append_assoc (codes "Content-Length: " ++ decimal (length body)) (blank_line ++ body) t

scan-send : (body t : Bytes) → scan (send body ++ t) ≡ after body (scan t)
scan-send body t = scan-frame (send body ++ t) body t (next-send body t)

scan-sends : (bodies : List Bytes) → scan (flatten (map send bodies)) ≡ scanned bodies []
unfolding flatten
scan-sends [] = scan-nil
scan-sends (body ∷ bodies) =
    scan-send body (flatten (map send bodies)) ∙ ap (after body) (scan-sends bodies)

-- Messages that are sent one after another arrive whole and in order, and nothing stays in the
-- buffer, however their bytes are cut into chunks on the way.
pub on_data-send :
    (bodies chunks : List Bytes)
    → flatten chunks ≡ flatten (map send bodies)
    → foldl on_data (scanned [] []) chunks ≡ scanned bodies []
on_data-send bodies chunks h = on_data-flatten chunks ∙ ap scan h ∙ scan-sends bodies

-- ===== src/Lsp/Framing.antt =====
-- The framing of scripts/lib/lsp-client.mjs: bytes come in chunks, and each frame is a header, a
-- blank line and as many bytes as the header's Content-Length says.
pub mod Chunks
pub mod Delivery
mod Examples
use tflw_tests.Prelude.{
  ℕ, zero, suc, ◌+◌, ◌%◌, Bool, ◌&&◌, ◌||◌, Option, none, some, List, [], ◌∷◌, ◌++◌, map, ltb, leb,
  ◌==◌, if◌then◌else◌, length, take, drop, Text, codes, starts_with, decimal, is_digit,
  read_decimal,
}

abbrev pub Bytes : Type 0
Bytes = List ℕ

abbrev pub blank_line : Bytes
blank_line = 13 ∷ 10 ∷ 13 ∷ 10 ∷ []

pub suc_index : Option ℕ → Option ℕ
suc_index none = none
suc_index (some i) = some (suc i)

-- `buffer.indexOf(separator)`
pub index_of : Bytes → Bytes → Option ℕ
unfolding suc_index
index_of [] sep = if starts_with [] sep then some 0 else none
index_of (b ∷ bs) sep =
    let later = index_of bs sep in if starts_with (b ∷ bs) sep then some 0 else suc_index later

-- `toString('ascii')` drops the eighth bit.
abbrev pub ascii : Bytes → Text
ascii = map (λ b. b % 128)

pub lower : ℕ → ℕ
lower c = if leb 65 c && leb c 90 then c + 32 else c

-- `\s` within ASCII
abbrev pub is_space : ℕ → Bool
is_space c = c == 32 || (leb 9 c && leb c 13)

pub skip_space : Text → Text
skip_space [] = []
skip_space (c ∷ s) = let more = skip_space s in if is_space c then more else c ∷ s

pub digits_of : Text → Text
digits_of [] = []
digits_of (c ∷ s) = let more = digits_of s in if is_digit c then c ∷ more else []

-- What is left behind a prefix that may differ in the case of its letters.
pub after_prefix : Text → Text → Option Text
unfolding lower
after_prefix [] s = some s
after_prefix (p ∷ ps) [] = none
after_prefix (p ∷ ps) (c ∷ s) = let more = after_prefix ps s in if lower c == p then more else none

-- `Content-Length:\s*(\d+)` at the start of a text, with the number in its group.
pub length_here : Text → Option ℕ
unfolding after_prefix skip_space digits_of
length_here s = elim (after_prefix (codes "content-length:") s) [
  | none ↦ none
  | some t ↦ read_decimal (digits_of (skip_space t))
]

pub or_else : Option ℕ → Option ℕ → Option ℕ
or_else (some n) other = some n
or_else none other = other

-- `/Content-Length:\s*(\d+)/i.exec(header)`, at the first place where it fits.
pub content_length : Text → Option ℕ
unfolding or_else
content_length [] = none
content_length (c ∷ s) = or_else (length_here (c ∷ s)) (content_length s)

-- One round of the loop of the `data` handler.
pub data Next : Type 0 where
  wait : Next
  no_length : Text → Next
  frame : Bytes → Bytes → Next

pub take_frame : Bytes → ℕ → ℕ → Next
take_frame buffer body_start len =
    if ltb (length buffer) (body_start + len)
    then wait
    else frame (take len (drop body_start buffer)) (drop (body_start + len) buffer)

pub read_header : Bytes → ℕ → Option ℕ → Next
unfolding take_frame
read_header buffer header_end none = no_length (ascii (take header_end buffer))
read_header buffer header_end (some len) = take_frame buffer (header_end + 4) len

pub find_frame : Bytes → Option ℕ → Next
unfolding read_header
find_frame buffer none = wait
find_frame buffer (some header_end) =
    read_header buffer header_end (content_length (ascii (take header_end buffer)))

pub next : Bytes → Next
unfolding find_frame
next buffer = find_frame buffer (index_of buffer blank_line)

-- The bodies that are dispatched, and the bytes that stay in the buffer; or, where a frame has no
-- Content-Length, the bodies before it and the header of the error that is thrown.
pub data Scan : Type 0 where
  scanned : List Bytes → Bytes → Scan
  faulted : List Bytes → Text → Scan

abbrev pub after : Bytes → Scan → Scan
after body (scanned bodies rest) = scanned (body ∷ bodies) rest
after body (faulted bodies header) = faulted (body ∷ bodies) header

pub scan_from : ℕ → Bytes → Scan
scan_from zero buffer = scanned [] buffer
scan_from (suc fuel) buffer = elim (next buffer) [
  | wait ↦ scanned [] buffer
  | no_length header ↦ faulted [] header
  | frame body rest ↦ after body (scan_from fuel rest)
]

-- The loop, with a round for each byte: a frame takes four bytes at least.
unfoldable pub scan : Bytes → Scan
unfolding scan_from next
scan buffer = scan_from (suc (length buffer)) buffer

abbrev pub prepend : List Bytes → Scan → Scan
prepend [] s = s
prepend (b ∷ bs) s = after b (prepend bs s)

-- The handler on one chunk more; an error that was thrown ends the client.
unfoldable pub on_data : Scan → Bytes → Scan
on_data (faulted bodies header) chunk = faulted bodies header
on_data (scanned bodies buffer) chunk = prepend bodies (scan (buffer ++ chunk))

-- `send`, on the bytes of the message's JSON.
unfoldable pub send : Bytes → Bytes
send body = (codes "Content-Length: " ++ decimal (length body)) ++ (blank_line ++ body)

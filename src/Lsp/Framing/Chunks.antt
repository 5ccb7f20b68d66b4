-- ===== src/Lsp/Framing/Chunks.antt =====
-- How the bytes are cut into chunks does not matter to the framing.
use mathlib.Core.List.{foldl, append_assoc, append-nil, flatten}
use tflw_tests.Prelude.{
  ℕ, zero, suc, ◌+◌, ◌-◌, ◌≤◌, ◌<◌, ◌≡◌, refl, sym, ap, ◌∙◌, ◌⊎◌, inl, inr, true, false, ◌&&◌,
  Option, none, some, List, [], ◌∷◌, ◌++◌, arith, ltb, ◌==◌, Bool-cases, Option-cases, length, take,
  drop, length-append, Text, starts_with,
}
use tflw_tests.Lsp.Framing.{
  Bytes, blank_line, suc_index, index_of, ascii, content_length, Next, wait, no_length, frame,
  take_frame, read_header, next, Scan, scanned, faulted, after, scan_from, scan, on_data,
}

starts_with-append :
    (s t p : Bytes) → length p ≤ length s → starts_with (s ++ t) p ≡ starts_with s p
unfolding starts_with
starts_with-append s t [] h = refl
starts_with-append [] t (b ∷ p) h = absurd (omega arith)
starts_with-append (a ∷ s) t (b ∷ p) h =
    ap (λ x. (a == b) && x) (starts_with-append s t p (omega arith))

starts_with-length : (s p : Bytes) → starts_with s p ≡ true → length p ≤ length s
unfolding starts_with
starts_with-length s [] h = omega arith
starts_with-length [] (b ∷ p) h = cc
starts_with-length (a ∷ s) (b ∷ p) h = let ih = starts_with-length s p (ground arith) in omega arith

index_of-bound : (s p : Bytes) (i : ℕ) → index_of s p ≡ some i → i + length p ≤ length s
unfolding index_of
index_of-bound [] p i h = ground (arith, starts_with-length [] p)
index_of-bound (a ∷ s) p zero h = ground (arith, starts_with-length (a ∷ s) p)
index_of-bound (a ∷ s) p (suc i) h = ground (arith, index_of-bound s p i)

index_of-nil : (s : Bytes) → index_of s [] ≡ some 0
unfolding index_of starts_with
index_of-nil [] = refl
index_of-nil (a ∷ s) = refl

index_of-empty : (t p : Bytes) (i : ℕ) → index_of [] p ≡ some i → index_of t p ≡ some i
index_of-empty t [] i h = cc (index_of-nil [], index_of-nil t)
index_of-empty t (b ∷ p) i h = absurd (nothing h)
  where
    nothing : index_of [] (b ∷ p) ≡ some i → ⊥
    nothing h = let bound = index_of-bound [] (b ∷ p) i h in omega arith

-- Bytes that come later do not move a separator that is there.
index_of-append : (s t p : Bytes) (i : ℕ) → index_of s p ≡ some i → index_of (s ++ t) p ≡ some i
unfolding index_of suc_index
index_of-append [] t p i h = index_of-empty t p i h
index_of-append (a ∷ s) t p i h =
    let bound = index_of-bound (a ∷ s) p i h in
    let same = starts_with-append (a ∷ s) t p (omega arith) in
    elim (Bool-cases (starts_with (a ∷ s) p)) [
      | inl e ↦ rw (same, e) (rw e at h)
      | inr e ↦ rw (same, e) (later (index_of s p) (index_of-append s t p) (rw e at h))
    ]
  where
    later :
        (o : Option ℕ)
        → ((j : ℕ) → o ≡ some j → index_of (s ++ t) p ≡ some j)
        → suc_index o ≡ some i
        → suc_index (index_of (s ++ t) p) ≡ some i
    later none ih k = cc k
    later (some j) ih k = rw (ih j refl) k

module _ {ℓ} {A : Type ℓ} where
  pub take-append_le : (n : ℕ) (s t : List A) → n ≤ length s → take n (s ++ t) ≡ take n s
  take-append_le zero s t h = refl
  take-append_le (suc n) [] t h = absurd (omega arith)
  take-append_le (suc n) (a ∷ s) t h = ap (a ∷◌) (take-append_le n s t (omega arith))

  pub drop-append_le : (n : ℕ) (s t : List A) → n ≤ length s → drop n (s ++ t) ≡ drop n s ++ t
  drop-append_le zero s t h = refl
  drop-append_le (suc n) [] t h = absurd (omega arith)
  drop-append_le (suc n) (a ∷ s) t h = drop-append_le n s t (omega arith)

  length-drop : (n : ℕ) (s : List A) → length (drop n s) ≡ length s - n
  length-drop zero s = omega arith
  length-drop (suc n) [] = omega arith
  length-drop (suc n) (a ∷ s) = omega (arith, length-drop n s)

-- What a round says of a buffer it says of the buffer with more bytes behind, unless it waits.
Extends : Bytes → Next → Next → Type 0
Extends t wait n = Unit
Extends t (no_length header) n = n ≡ no_length header
Extends t (frame body left) n = n ≡ frame body (left ++ t)

take_frame-Extends :
    (s t : Bytes) (start len : ℕ)
    → Extends t (take_frame s start len) (take_frame (s ++ t) start len)
unfolding Extends take_frame
take_frame-Extends s t start len = elim (Bool-cases (ltb (length s) (start + len))) [
  | inl e ↦ rw e tt
  | inr e ↦
      let room : start + len ≤ length s = ground arith in
      let grown : ltb (length (s ++ t)) (start + len) ≡ false = ground (arith, length-append s t) in
      rw (
        e,
        grown,
        drop-append_le start s t (omega arith),
        take-append_le len (drop start s) t (omega (arith, length-drop start s)),
        drop-append_le (start + len) s t room,
      )
]

read_header-Extends :
    (s t : Bytes) (i : ℕ) (o : Option ℕ)
    → i ≤ length s
    → Extends t (read_header s i o) (read_header (s ++ t) i o)
unfolding Extends read_header
read_header-Extends s t i none h = rw (take-append_le i s t h)
read_header-Extends s t i (some len) h = take_frame-Extends s t (i + 4) len

next-Extends : (s t : Bytes) → Extends t (next s) (next (s ++ t))
unfolding Extends next
next-Extends s t = elim (Option-cases (index_of s blank_line)) [
  | inl e ↦ rw e tt
  | inr (i, e) ↦
      let bound = index_of-bound s blank_line i e in
      rw (e, index_of-append s t blank_line i e, take-append_le i s t (omega arith))
        (read_header-Extends s t i (content_length (ascii (take i s))) (omega arith))
]

take_frame-shrinks :
    (s body left : Bytes) (start len : ℕ)
    → 0 < start
    → start ≤ length s
    → take_frame s start len ≡ frame body left
    → length left < length s
unfolding take_frame
take_frame-shrinks s body left start len pos room h =
    elim (Bool-cases (ltb (length s) (start + len))) [
      | inl e ↦ cc (rw e at h)
      | inr e ↦
          let same : frame (take len (drop start s)) (drop (start + len) s) ≡ frame body left =
            rw e at h in
          let rest : drop (start + len) s ≡ left = cc in
          rw (← rest) (omega (arith, length-drop (start + len) s))
    ]

-- A frame that is read leaves fewer bytes.
pub next-shrinks : (s body left : Bytes) → next s ≡ frame body left → length left < length s
unfolding next
next-shrinks s body left h = elim (Option-cases (index_of s blank_line)) [
  | inl e ↦ cc (rw e at h)
  | inr (i, e) ↦
      let bound = index_of-bound s blank_line i e in
      header (content_length (ascii (take i s))) i (omega arith) (rw e at h)
]
  where
    header :
        (o : Option ℕ) (i : ℕ)
        → i + 4 ≤ length s
        → read_header s i o ≡ frame body left
        → length left < length s
    header none i room k = cc k
    header (some len) i room k = take_frame-shrinks s body left (i + 4) len (omega arith) room k

Next-cases :
    (n : Next) → (n ≡ wait) ⊎ (((h : Text) × (n ≡ no_length h)) ⊎ ((b l : Bytes) × (n ≡ frame b l)))
Next-cases wait = inl refl
Next-cases (no_length h) = inr (inl (h, refl))
Next-cases (frame b l) = inr (inr (b, l, refl))

scan_from-fuel : (f g : ℕ) (s : Bytes) → length s < f → length s < g → scan_from f s ≡ scan_from g s
unfolding scan_from
scan_from-fuel zero g s h k = elim h [ ]
scan_from-fuel (suc f) zero s h k = elim k [ ]
scan_from-fuel (suc f) (suc g) s h k = elim (Next-cases (next s)) [
  | inl e ↦ rw (e, scan_from)
  | inr (inl (header, e)) ↦ rw (e, scan_from)
  | inr (inr (body, left, e)) ↦
      let less = next-shrinks s body left e in
      rw (e, scan_from) (ap (after body) (scan_from-fuel f g left (omega arith) (omega arith)))
]

module _ (s : Bytes) where
  pub scan-wait : next s ≡ wait → scan s ≡ scanned [] s
  unfolding scan
  scan-wait e = rw (e, scan_from)

  pub scan-no_length : (header : Text) → next s ≡ no_length header → scan s ≡ faulted [] header
  unfolding scan
  scan-no_length header e = rw (e, scan_from)

  pub scan-frame : (body left : Bytes) → next s ≡ frame body left → scan s ≡ after body (scan left)
  unfolding scan
  scan-frame body left e =
      let less = next-shrinks s body left e in
      rw (e, scan_from)
        (ap (after body) (scan_from-fuel (length s) (suc (length left)) left less (omega arith)))

on_data-after :
    (body : Bytes) (s : Scan) (t : Bytes) → on_data (after body s) t ≡ after body (on_data s t)
unfolding on_data
on_data-after body (scanned bodies left) t = refl
on_data-after body (faulted bodies header) t = refl

scan-append_below : (n : ℕ) (s t : Bytes) → length s < n → scan (s ++ t) ≡ on_data (scan s) t
scan-append_below zero s t h = elim h [ ]
scan-append_below (suc n) s t h = elim (Next-cases (next s)) [
  | inl e ↦ rw (scan-wait s e) (unfold on_data in refl)
  | inr (inl (header, e)) ↦
      let grown : next (s ++ t) ≡ no_length header = unfold Extends in rw e at (next-Extends s t) in
      rw (scan-no_length s header e, scan-no_length (s ++ t) header grown) (unfold on_data in refl)
  | inr (inr (body, left, e)) ↦
      let grown : next (s ++ t) ≡ frame body (left ++ t) =
        unfold Extends in rw e at (next-Extends s t) in
      let less = next-shrinks s body left e in
      scan-frame (s ++ t) body (left ++ t) grown
      ∙ ap (after body) (scan-append_below n left t (omega arith))
      ∙ sym (on_data-after body (scan left) t)
      ∙ ap (λ x. on_data x t) (sym (scan-frame s body left e))
]

-- One chunk more on what has been read is the reading of all the bytes at once.
pub scan-append : (s t : Bytes) → scan (s ++ t) ≡ on_data (scan s) t
scan-append s t = scan-append_below (suc (length s)) s t (omega arith)

scan-flatten_behind :
    (s : Bytes) (chunks : List Bytes) → foldl on_data (scan s) chunks ≡ scan (s ++ flatten chunks)
unfolding flatten
scan-flatten_behind s [] = ap scan (sym (append-nil s))
scan-flatten_behind s (c ∷ chunks) =
    ap (λ x. foldl on_data x chunks) (sym (scan-append s c))
    ∙ scan-flatten_behind (s ++ c) chunks
    ∙ ap scan (append_assoc s c (flatten chunks))

pub scan-nil : scan [] ≡ scanned [] []
unfolding scan next index_of starts_with
scan-nil = refl

-- However the bytes are cut into chunks, the handler dispatches the bodies, keeps the rest and
-- throws the error that it would on all of them in one chunk.
pub on_data-flatten :
    (chunks : List Bytes) → foldl on_data (scanned [] []) chunks ≡ scan (flatten chunks)
on_data-flatten chunks =
    ap (λ x. foldl on_data x chunks) (sym scan-nil) ∙ scan-flatten_behind [] chunks

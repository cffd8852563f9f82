-- ===== src/Wire/Questions.antt =====
-- wire.rs, `read_question_name`, against an encoder of plain labels and against the scanner.
use bulwark.Common.{
  ℕ, zero, suc, ◌+◌, ◌-◌, ◌/◌, ◌≤◌, ◌<◌, ◌≡◌, sym, ap, ap₂, ◌∙◌, inl, inr, Bool, true, false, some,
  List, [], ◌∷◌, ◌++◌, append-nil, append_assoc, arith, ◌==◌, le→leb, Bool-cases, >>=-eq-some,
  length, get_elem?, drop, All, length-append, get_elem?-lt-length, length-drop, take-append_self,
  drop-append_self, drop-drop, get_elem?-drop,
}
use bulwark.Common.Bytes.{Bytes}
use bulwark.Wire.{skip_name, read_labels, read_question_name, push_label, slice, is_safe, or_root}

-- Every byte of a label may be taken over as it stands.
abbrev pub SafeLabel : Bool → Bytes → Type 0
SafeLabel first [] = Unit {0}
SafeLabel first (c ∷ label) = (is_safe first c ≡ true) × SafeLabel false label

-- RFC 1035 labels: one to 63 bytes behind a length byte; an empty label ends the name.
abbrev pub IsLabel : Bytes → Type 0
IsLabel label = (0 < length label) × (length label < 64) × SafeLabel true label

unfoldable pub encode_name : List Bytes → Bytes
encode_name [] = 0 ∷ []
encode_name (label ∷ labels) = length label ∷ (label ++ encode_name labels)

-- The labels of a name, each with its dot.
unfoldable pub dotted : List Bytes → Bytes
dotted [] = []
dotted (label ∷ labels) = label ++ b'.' ∷ dotted labels

push_label_safe :
    (first : Bool) (label name : Bytes)
    → SafeLabel first label
    → push_label first label name ≡ some (name ++ label)
unfolding push_label
push_label_safe first [] name h = simp append-nil
push_label_safe first (c ∷ label) name h =
    rw (h.0, push_label_safe false label (name ++ c ∷ []) h.1, append_assoc)

drop-cons-get :
    (buf : Bytes) (pos x : ℕ) (ys : Bytes) → drop pos buf ≡ x ∷ ys → get_elem? buf pos ≡ some x
drop-cons-get buf pos x ys h =
    ap (get_elem? buf) (omega arith) ∙ sym (get_elem?-drop pos 0 buf) ∙ ap (λ l. get_elem? l 0) h

drop-cons-lt :
    (buf : Bytes) (pos : ℕ) (ys : Bytes) (k : ℕ)
    → drop pos buf ≡ ys
    → k < length ys
    → pos + k < length buf
drop-cons-lt buf pos ys k h lt = omega (arith, length-drop pos buf, ap length h)

slice-drop :
    (buf : Bytes) (pos : ℕ) (label rest : Bytes)
    → drop pos buf ≡ label ++ rest
    → 0 < length rest
    → slice buf pos (length label) ≡ some label
unfolding slice
slice-drop buf pos label rest h some_rest =
    let fits =
      drop-cons-lt buf pos (label ++ rest) (length label) h
        (omega (arith, length-append label rest)) in
    rw (le→leb (pos + length label) (length buf) (omega arith), h, take-append_self label rest)

encode_name-pos : (labels : List Bytes) (rest : Bytes) → 0 < length (encode_name labels ++ rest)
unfolding encode_name
encode_name-pos [] rest = omega arith
encode_name-pos (l ∷ labels) rest = omega arith

low_label : (n : ℕ) → 0 < n → n < 64 → ((n / 64 == 0) ≡ true) × ((n == 0) ≡ false)
low_label n p q = (ground arith, ground arith)

read_labels-encode_name :
    (fuel : ℕ) (buf : Bytes) (start pos : ℕ) (name : Bytes) (labels : List Bytes) (rest : Bytes)
    → length labels < fuel
    → All IsLabel labels
    → drop pos buf ≡ encode_name labels ++ rest
    → pos + length (encode_name labels) ≤ start + 255
    → read_labels fuel buf start pos name
      ≡ some (or_root (name ++ dotted labels), pos + length (encode_name labels))
unfolding read_labels encode_name dotted
read_labels-encode_name zero buf start pos name labels rest f ok at_pos fits = elim f [ ]
read_labels-encode_name (suc fuel) buf start pos name [] rest f ok at_pos fits =
    rw (drop-cons-get buf pos 0 rest at_pos, le→leb (pos + 1 - start) 255 (omega arith), append-nil)
read_labels-encode_name (suc fuel) buf start pos name (label ∷ labels) rest f ok at_pos fits =
    let n = length label in
    let tail = encode_name labels ++ rest in
    let low = low_label n ok.0.0 ok.0.1 in
    let head = drop-cons-get buf pos n ((label ++ encode_name labels) ++ rest) at_pos in
    let body : drop (pos + 1) buf ≡ label ++ tail =
      sym (drop-drop 1 pos buf)
      ∙ ap (drop 1) at_pos
      ∙ append_assoc label (encode_name labels) rest in
    let after : drop (pos + 1 + n) buf ≡ tail =
      sym (drop-drop n (pos + 1) buf) ∙ ap (drop n) body ∙ drop-append_self label tail in
    let size = length-append label (encode_name labels) in
    rw
      (
        head,
        low.0,
        low.1,
        slice-drop buf (pos + 1) label tail body (encode_name-pos labels rest),
        push_label_safe true label name ok.0.2,
        read_labels-encode_name fuel buf start (pos + 1 + n) ((name ++ label) ++ b'.' ∷ []) labels
            rest (omega arith) ok.1 after (omega arith),
      )
      (ap₂ (λ (s : Bytes) (k : ℕ). some (or_root s, k)) (simp append_assoc) (omega arith))

length-encode_name : (labels : List Bytes) → length labels < length (encode_name labels)
unfolding encode_name
length-encode_name [] = omega arith
length-encode_name (label ∷ labels) =
    omega (arith, length-append label (encode_name labels), length-encode_name labels)

-- A question name of plain labels, at most 255 bytes long, is read back in full wherever it
-- stands: the labels with a dot behind each (a lone dot for the root), and the offset behind it.
pub read_question_name-encode_name :
    (header : Bytes) (labels : List Bytes) (rest : Bytes)
    → All IsLabel labels
    → length (encode_name labels) ≤ 255
    → read_question_name (header ++ (encode_name labels ++ rest)) (length header)
      ≡ some (or_root (dotted labels), length header + length (encode_name labels))
unfolding read_question_name
read_question_name-encode_name header labels rest ok short =
    let body = encode_name labels ++ rest in
    read_labels-encode_name (length (header ++ body)) (header ++ body) (length header)
      (length header) [] labels rest
      (omega (
        arith,
        length-append header body,
        length-append (encode_name labels) rest,
        length-encode_name labels,
      ))
      ok (drop-append_self header body) (omega arith)

read_labels-skip_name :
    (fuel : ℕ) (buf : Bytes) (start pos : ℕ) (name name' : Bytes) (e : ℕ)
    → read_labels fuel buf start pos name ≡ some (name', e)
    → (skip_name fuel buf pos ≡ some e) × (e ≤ length buf) × (e ≤ start + 255)
unfolding read_labels skip_name
read_labels-skip_name zero buf start pos name name' e h = cc
read_labels-skip_name (suc fuel) buf start pos name name' e h =
    let (b, read, h₁) = >>=-eq-some (get_elem? buf pos) _ h in
    let inside = get_elem?-lt-length buf pos read in
    elim (Bool-cases (b / 64 == 0)) [
      | inr high ↦ absurd (ground arith)
      | inl low ↦ elim (Bool-cases (b == 0)) [
        | inl root ↦ ground arith
        | inr label ↦
            let h₂ = rw (low, label) at h₁ in
            let (l, cut, h₃) = >>=-eq-some (slice buf (pos + 1) b) _ h₂ in
            let (grown, pushed, h₄) = >>=-eq-some (push_label true l name) _ h₃ in
            let more =
              read_labels-skip_name fuel buf start (pos + 1 + b) (grown ++ b'.' ∷ []) name' e h₄ in
            let step : pos + 1 + b ≡ pos + (1 + b) = omega arith in
            rw (read, low, label, ← step) more
      ]
    ]

-- The fast path and the TTL scanner agree on where a question name ends; that is inside the
-- buffer, and the name is at most 255 bytes long.
pub read_question_name-skip_name :
    (buf : Bytes) (start : ℕ) (name : Bytes) (e : ℕ)
    → read_question_name buf start ≡ some (name, e)
    → (skip_name (length buf) buf start ≡ some e) × (e ≤ length buf) × (e ≤ start + 255)
unfolding read_question_name
read_question_name-skip_name buf start name e h =
    read_labels-skip_name (length buf) buf start start [] name e h

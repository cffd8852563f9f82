-- ===== src/Filter/Text.antt =====
-- The operations of `str` that the list parser uses, on UTF-8 bytes.
use bulwark.Common.{
  ℕ, zero, suc, ◌+◌, ◌-◌, ◌*◌, Bool, true, false, ◌&&◌, ◌||◌, Option, none, some, List, [], ◌∷◌,
  ◌++◌, map, ltb, leb, ◌==◌, if◌then◌else◌, ◌>>=◌, ◌>>◌, guard, length, drop, any,
}
use bulwark.Common.Bytes.{Bytes, to_ascii_lowercase}

unfoldable pub reverse_onto : Bytes → Bytes → Bytes
reverse_onto [] acc = acc
reverse_onto (c ∷ s) acc = reverse_onto s (c ∷ acc)

abbrev pub reverse : Bytes → Bytes
reverse s = reverse_onto s []

unfoldable pub starts_with : Bytes → Bytes → Bool
starts_with s [] = true
starts_with [] (p ∷ prefix) = false
starts_with (c ∷ s) (p ∷ prefix) = c == p && starts_with s prefix

unfoldable pub strip_prefix : Bytes → Bytes → Option Bytes
strip_prefix prefix s = if starts_with s prefix then some (drop (length prefix) s) else none

unfoldable pub strip_suffix : Bytes → Bytes → Option Bytes
strip_suffix suffix s = strip_prefix (reverse suffix) (reverse s) >>= λ front. some (reverse front)

abbrev pub contains_byte : ℕ → Bytes → Bool
contains_byte b s = any (λ c. c == b) s

-- `s.find(b)`: the text in front of the first `b` and the text behind it
unfoldable pub split_once : ℕ → Bytes → Option (Bytes × Bytes)
split_once b [] = none
split_once b (c ∷ s) =
    let rest = split_once b s in
    if c == b then some ([], s) else rest >>= λ (front, back). some (c ∷ front, back)

-- `s.split(b)`
unfoldable pub split_on : ℕ → Bytes → List Bytes
split_on b [] = [] ∷ []
split_on b (c ∷ s) = elim (split_on b s) [
  | [] ↦ []
  | part ∷ parts ↦ if c == b then [] ∷ part ∷ parts else (c ∷ part) ∷ parts
]

-- The index of the first place where `p` begins.
unfoldable pub find_text : Bytes → Bytes → Option ℕ
find_text p [] = if starts_with [] p then some 0 else none
find_text p (c ∷ s) =
    let rest = find_text p s in if starts_with (c ∷ s) p then some 0 else rest >>= λ i. some (suc i)

abbrev pub is_ascii_whitespace : ℕ → Bool
is_ascii_whitespace c = (leb 9 c && leb c 13) || c == 32

-- The three-byte white space of Unicode: 1680, 2000 to 200a, 2028, 2029, 202f, 205f and 3000.
abbrev pub is_wide_space : ℕ → ℕ → ℕ → Bool
is_wide_space a b c =
    (a == 225 && b == 154 && c == 128)
    || (a == 226 && b == 128 && ((leb 128 c && leb c 138) || c == 168 || c == 169 || c == 175))
    || (a == 226 && b == 129 && c == 159)
    || (a == 227 && b == 128 && c == 128)

-- How many bytes of white space a text begins with, for one character.
unfoldable pub space_front : Bytes → ℕ
space_front [] = 0
space_front (a ∷ []) = if is_ascii_whitespace a then 1 else 0
space_front (a ∷ b ∷ []) =
    if is_ascii_whitespace a then 1 else if a == 194 && (b == 133 || b == 160) then 2 else 0
space_front (a ∷ b ∷ c ∷ s) =
    if is_ascii_whitespace a
    then 1
    else if a == 194 && (b == 133 || b == 160)
    then 2
    else if is_wide_space a b c
    then 3
    else 0

-- The same at the end of a text, which is given backwards.
unfoldable pub space_back : Bytes → ℕ
space_back [] = 0
space_back (a ∷ []) = if is_ascii_whitespace a then 1 else 0
space_back (b ∷ a ∷ []) =
    if is_ascii_whitespace b then 1 else if a == 194 && (b == 133 || b == 160) then 2 else 0
space_back (c ∷ b ∷ a ∷ s) =
    if is_ascii_whitespace c
    then 1
    else if b == 194 && (c == 133 || c == 160)
    then 2
    else if is_wide_space a b c
    then 3
    else 0

-- Characters are dropped while `front` finds one; the length is enough fuel.
unfoldable pub drop_while_space : (Bytes → ℕ) → ℕ → Bytes → Bytes
drop_while_space front zero s = s
drop_while_space front (suc fuel) s = elim (front s) [
  | zero ↦ s
  | suc n ↦ drop_while_space front fuel (drop (suc n) s)
]

unfoldable pub trim : Bytes → Bytes
trim s =
    let t = drop_while_space space_front (length s) s in
    reverse (drop_while_space space_back (length t) (reverse t))

-- `split_whitespace`; `word` is the open word, backwards.
unfoldable pub words_from : ℕ → Bytes → Bytes → List Bytes
words_from zero word s = []
words_from (suc fuel) word [] = elim word [ [] ↦ [] | c ∷ w ↦ reverse (c ∷ w) ∷ [] ]
words_from (suc fuel) word (c ∷ s) = elim (space_front (c ∷ s)) [
  | zero ↦ words_from fuel (c ∷ word) s
  | suc n ↦
      let rest = words_from fuel [] (drop n s) in
      elim word [ [] ↦ rest | d ∷ w ↦ reverse (d ∷ w) ∷ rest ]
]

abbrev pub split_whitespace : Bytes → List Bytes
split_whitespace s = words_from (suc (length s)) [] s

unfoldable pub trim_start_matches : ℕ → Bytes → Bytes
trim_start_matches b [] = []
trim_start_matches b (c ∷ s) = if c == b then trim_start_matches b s else c ∷ s

unfoldable pub trim_end_matches : ℕ → Bytes → Bytes
trim_end_matches b s = reverse (trim_start_matches b (reverse s))

abbrev pub trim_matches : ℕ → Bytes → Bytes
trim_matches b s = trim_end_matches b (trim_start_matches b s)

abbrev pub to_ascii_uppercase : ℕ → ℕ
to_ascii_uppercase c = if leb 97 c && leb c 122 then c - 32 else c

abbrev pub lowercase : Bytes → Bytes
lowercase = map to_ascii_lowercase

abbrev pub uppercase : Bytes → Bytes
uppercase = map to_ascii_uppercase

unfoldable pub bytes_leb : Bytes → Bytes → Bool
bytes_leb [] t = true
bytes_leb (c ∷ s) [] = false
bytes_leb (c ∷ s) (d ∷ t) = if c == d then bytes_leb s t else ltb c d

unfoldable pub insert_text : Bytes → List Bytes → List Bytes
insert_text s [] = s ∷ []
insert_text s (t ∷ texts) = if bytes_leb s t then s ∷ t ∷ texts else t ∷ insert_text s texts

unfoldable pub sort_texts : List Bytes → List Bytes
sort_texts [] = []
sort_texts (s ∷ texts) = insert_text s (sort_texts texts)

-- `parts.join(",")`
unfoldable pub join : Bytes → List Bytes → Bytes
join sep [] = []
join sep (s ∷ []) = s
join sep (s ∷ t ∷ texts) = s ++ (sep ++ join sep (t ∷ texts))

abbrev pub is_digit : ℕ → Bool
is_digit c = leb 48 c && leb c 57

unfoldable pub digits : ℕ → Bytes → Option ℕ
digits n [] = some n
digits n (c ∷ s) =
    guard (is_digit c && leb (n * 10 + (c - 48)) 65535) >> digits (n * 10 + (c - 48)) s

-- `u16::from_str`
unfoldable pub parse_u16 : Bytes → Option ℕ
parse_u16 [] = none
parse_u16 (c ∷ []) = digits 0 (c ∷ [])
parse_u16 (c ∷ d ∷ s) = digits 0 (if c == b'+' then d ∷ s else c ∷ d ∷ s)

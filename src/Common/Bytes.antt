-- ===== src/Common/Bytes.antt =====
-- Bytes and texts as lists of numbers, their equality, and big-endian fields.
use Prim.Native.Char.{code}
use Prim.Native.String.{String}
use Prim.Native.Nat.{ℕ, zero, suc, ◌+◌, ◌*◌}
use mathlib.Core.Path.{◌≡◌, refl, ap, sym, ◌∙◌}
use mathlib.Core.Bool.{Bool, true, false, ◌&&◌, ◌||◌}
use mathlib.Core.Logic.{◌↔◌}
use mathlib.Core.List.{List, [], ◌∷◌}
use native.Mathlib.Omega.{arith}
use bulwark.Common.Tests.{◌==◌, leb, if◌then◌else◌, unwrap_or}
use bulwark.Common.Lists.{get_or, get_elem?}

abbrev pub Bytes : Type 0
Bytes = List ℕ

-- The bytes of an ASCII text.
abbrev pub codes : String → Bytes
codes String.[] = []
codes (String.◌∷◌ c s) = code c ∷ codes s

-- `==` of two texts or two slices.
unfoldable pub bytes_eq : Bytes → Bytes → Bool
bytes_eq [] [] = true
bytes_eq [] (y ∷ ys) = false
bytes_eq (x ∷ xs) [] = false
bytes_eq (x ∷ xs) (y ∷ ys) = (x == y) && bytes_eq xs ys

pub bytes_eq_sound : (xs ys : Bytes) → bytes_eq xs ys ≡ true → xs ≡ ys
unfolding bytes_eq
bytes_eq_sound [] [] h = refl
bytes_eq_sound [] (y ∷ ys) h = cc
bytes_eq_sound (x ∷ xs) [] h = cc
bytes_eq_sound (x ∷ xs) (y ∷ ys) h = ground (arith, bytes_eq_sound xs ys)

pub bytes_eq_refl : (xs : Bytes) → bytes_eq xs xs ≡ true
unfolding bytes_eq
bytes_eq_refl [] = refl
bytes_eq_refl (x ∷ xs) = ground (arith, bytes_eq_refl xs)

pub bytes_eq_complete : (xs ys : Bytes) → xs ≡ ys → bytes_eq xs ys ≡ true
bytes_eq_complete xs ys h = rw h (bytes_eq_refl ys)

-- Equality of texts is decided by `bytes_eq`.
pub bytes_eq_iff : (xs ys : Bytes) → (bytes_eq xs ys ≡ true) ↔ (xs ≡ ys)
bytes_eq_iff xs ys = (bytes_eq_sound xs ys, bytes_eq_complete xs ys)

-- `buf[i]`, behind a length check: the default is never read.
abbrev pub at : Bytes → ℕ → ℕ
at buf i = get_or buf i 0

at_unwrap : (xs : Bytes) (i : ℕ) → at xs i ≡ unwrap_or (get_elem? xs i) 0
at_unwrap [] i = refl
at_unwrap (x ∷ xs) zero = refl
at_unwrap (x ∷ xs) (suc i) = at_unwrap xs i

-- `u16::from_be_bytes([buf[i], buf[i + 1]])`
abbrev pub u16_at : Bytes → ℕ → ℕ
u16_at buf i = 256 * at buf i + at buf (i + 1)

-- `u32::from_be_bytes` of four bytes
abbrev pub u32_at : Bytes → ℕ → ℕ
u32_at buf i = 16777216 * at buf i + 65536 * at buf (i + 1) + 256 * at buf (i + 2) + at buf (i + 3)

pub at-get_elem? : (xs ys : Bytes) (i j : ℕ) → get_elem? xs i ≡ get_elem? ys j → at xs i ≡ at ys j
at-get_elem? xs ys i j h = at_unwrap xs i ∙ ap (λ o. unwrap_or o 0) h ∙ sym (at_unwrap ys j)

-- `u8::is_ascii_alphanumeric`
unfoldable pub is_ascii_alphanumeric : ℕ → Bool
is_ascii_alphanumeric c =
    (leb 48 c && leb c 57) || (leb 65 c && leb c 90) || (leb 97 c && leb c 122)

-- `u8::to_ascii_lowercase`
unfoldable pub to_ascii_lowercase : ℕ → ℕ
to_ascii_lowercase c = if leb 65 c && leb c 90 then c + 32 else c

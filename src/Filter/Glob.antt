-- ===== src/Filter/Glob.antt =====
-- parser.rs, `build_wildcard_regex`: what the regex of a wildcard pattern means, character by character.
use bulwark.Common.{ℕ, ◌≡◌, ◌≢◌, Bool, false, ◌||◌, [], ◌∷◌, ◌++◌, ◌==◌}
use bulwark.Common.Bytes.{Bytes, is_ascii_alphanumeric, to_ascii_lowercase}

-- `[a-z0-9._-]`, ignoring case
abbrev pub is_name_byte : ℕ → Bool
is_name_byte c = is_ascii_alphanumeric c || c == b'.' || c == b'_' || c == b'-'

-- The body of a pattern matches at the front of the text, which goes on to the end of the name:
-- `*` is any bytes, `^` a byte outside names or the end, and all else itself, ignoring case.
pub data Glob : Bytes → Bytes → Type 0 where
  matched : (t : Bytes) → Glob [] t
  star_stop : (c : ℕ) (p t : Bytes) → c ≡ b'*' → Glob p t → Glob (c ∷ p) t
  star_more : (c d : ℕ) (p t : Bytes) → c ≡ b'*' → Glob (c ∷ p) t → Glob (c ∷ p) (d ∷ t)
  separator :
      (c d : ℕ) (p t : Bytes) → c ≡ b'^' → is_name_byte d ≡ false → Glob p t → Glob (c ∷ p) (d ∷ t)
  at_end : (c : ℕ) (p : Bytes) → c ≡ b'^' → Glob p [] → Glob (c ∷ p) []
  literal :
      (c d : ℕ) (p t : Bytes)
      → c ≢ b'*'
      → c ≢ b'^'
      → to_ascii_lowercase c ≡ to_ascii_lowercase d
      → Glob p t
      → Glob (c ∷ p) (d ∷ t)

-- The body matches somewhere in the name.
abbrev pub GlobIn : Bytes → Bytes → Type 0
GlobIn body domain = (front : Bytes) × (rest : Bytes) × (domain ≡ front ++ rest) × Glob body rest

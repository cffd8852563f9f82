-- ===== src/Filter/Token.antt =====
-- crates/bulwark-filter/src/token.rs: the runs of letters and digits of a name or a pattern, hashed.
-- The position `start` of an open run is kept as the run itself.
use bulwark.Common.{
  ℕ, ◌*◌, ◌%◌, ◌^◌, Bool, false, not, ◌&&◌, Option, none, some, List, [], ◌∷◌, ◌++◌, leb, ◌==◌,
  if◌then◌else◌, length,
}
use Prim.Native.Nat.{bit_xor}
use bulwark.Common.Bytes.{Bytes, is_ascii_alphanumeric, to_ascii_lowercase}

abbrev pub min_token_len : ℕ
min_token_len = 3

-- FNV-1a, 32 bits.
unfoldable pub hash_from : ℕ → Bytes → ℕ
hash_from h [] = h
hash_from h (b ∷ bytes) = hash_from (bit_xor h (to_ascii_lowercase b) * 16777619 % 2 ^ 32) bytes

unfoldable pub fast_hash : Bytes → ℕ
unfolding hash_from
fast_hash s = hash_from 2166136261 s

-- A run that is long enough gives a token.
unfoldable pub close_run : Option Bytes → List ℕ
close_run none = []
close_run (some run) = if leb min_token_len (length run) then fast_hash run ∷ [] else []

abbrev pub extend_run : Option Bytes → ℕ → Bytes
extend_run none b = b ∷ []
extend_run (some run) b = run ++ b ∷ []

-- The loop of `for_each_query_token`: the tokens that it hands on, in order.
unfoldable pub query_tokens_from : Option Bytes → Bytes → List ℕ
unfolding close_run
query_tokens_from start [] = close_run start
query_tokens_from start (b ∷ bytes) =
    let longer = query_tokens_from (some (extend_run start b)) bytes in
    let closed = close_run start ++ query_tokens_from none bytes in
    if is_ascii_alphanumeric b then longer else closed

unfoldable pub query_tokens : Bytes → List ℕ
unfolding query_tokens_from
query_tokens name = query_tokens_from none name

-- `sort_unstable` and `dedup` of a vector of numbers
unfoldable pub insert_sorted : ℕ → List ℕ → List ℕ
insert_sorted t [] = t ∷ []
insert_sorted t (u ∷ tokens) = if leb t u then t ∷ u ∷ tokens else u ∷ insert_sorted t tokens

unfoldable pub sort : List ℕ → List ℕ
unfolding insert_sorted
sort [] = []
sort (t ∷ tokens) = insert_sorted t (sort tokens)

unfoldable pub dedup : List ℕ → List ℕ
dedup [] = []
dedup (t ∷ []) = t ∷ []
dedup (t ∷ u ∷ tokens) = if t == u then dedup (u ∷ tokens) else t ∷ dedup (u ∷ tokens)

-- `tokenize_query`
unfoldable pub tokenize_query : Bytes → List ℕ
unfolding query_tokens sort dedup
tokenize_query name = dedup (sort (query_tokens name))

-- A byte beside a run that allows the run as a token: not the end of the pattern, and no `*`.
abbrev pub bounds_token : Option ℕ → Bool
bounds_token none = false
bounds_token (some b) = not (b == b'*')

unfoldable pub close_safe : Bool → Bytes → Option ℕ → List ℕ
close_safe left_ok run right =
    if left_ok && bounds_token right && leb min_token_len (length run)
    then fast_hash run ∷ []
    else []

-- The loop of `tokenize_pattern_safe`: the byte in front, and the open run with its `left_ok`.
unfoldable pub pattern_tokens_from : Option ℕ → Option (Bool × Bytes) → Bytes → List ℕ
unfolding close_safe
pattern_tokens_from before none [] = []
pattern_tokens_from before (some (left_ok, run)) [] = close_safe left_ok run none
pattern_tokens_from before none (b ∷ body) =
    let opened = pattern_tokens_from (some b) (some (bounds_token before, b ∷ [])) body in
    let next = pattern_tokens_from (some b) none body in
    if is_ascii_alphanumeric b then opened else next
pattern_tokens_from before (some (left_ok, run)) (b ∷ body) =
    let longer = pattern_tokens_from (some b) (some (left_ok, run ++ b ∷ [])) body in
    let closed = close_safe left_ok run (some b) ++ pattern_tokens_from (some b) none body in
    if is_ascii_alphanumeric b then longer else closed

unfoldable pub tokenize_pattern_safe : Bytes → List ℕ
unfolding pattern_tokens_from sort dedup
tokenize_pattern_safe body = dedup (sort (pattern_tokens_from none none body))

-- ===== src/Filter/Safe.antt =====
-- token.rs: the tokens of a pattern, against those of the names that it matches.
pub mod Runs
use bulwark.Common.{
  ℕ, suc, ◌≡◌, refl, sym, ap, ap₂, subst, ◌∙◌, ◌≢◌, inl, inr, Bool, true, false, ◌&&◌, Option, none,
  some, List, [], ◌∷◌, ◌++◌, append-nil, arith, leb, ◌==◌, Bool-cases, length, In, here, there,
  In-append_left, In-append_right, In-append,
}
use bulwark.Common.Bytes.{Bytes, is_ascii_alphanumeric, to_ascii_lowercase}
use bulwark.Filter.Token.{
  min_token_len, hash_from, fast_hash, close_run, extend_run, query_tokens_from, query_tokens,
  insert_sorted, sort, dedup, bounds_token, close_safe, pattern_tokens_from, tokenize_pattern_safe,
}
use bulwark.Filter.Text.{lowercase}
use bulwark.Filter.Glob.{
  Glob, matched, star_stop, star_more, separator, at_end, literal, GlobIn, is_name_byte,
}
use bulwark.Filter.Safe.Runs.{
  sort_from, dedup_from, lower_idem, Aligned, boundary, star_drops, star_again, query_step,
  Aligned-letter, Aligned-first, none-Aligned, star-Aligned, lower_star, lower_hat,
  not_alphanumeric, nothing_safe, same_kind,
}

Glob-tokens :
    (p t : Bytes) (g : Glob p t) (before : Option ℕ) (open_run : Option (Bool × Bytes))
    (start : Option Bytes) (tok : ℕ)
    → Aligned before open_run start
    → In tok (pattern_tokens_from before open_run (lowercase p))
    → In tok (query_tokens_from start t)
unfolding pattern_tokens_from query_tokens_from
Glob-tokens p t (matched _) before none start tok a m = elim m [ ]
Glob-tokens p t (matched _) before (some (left_ok, run)) start tok a m =
    absurd (nothing_safe tok left_ok run m)
Glob-tokens p t (star_stop c p' _ is g) before open_run start tok a m =
    Glob-tokens p' t g (some b'*') none start tok (star-Aligned start) (
      star_drops tok before open_run (lowercase p') (
        subst (λ k. In tok (pattern_tokens_from before open_run (k ∷ lowercase p')))
          (lower_star c is) m))
Glob-tokens p t (star_more c d p' t' is g) before open_run start tok a m =
    let (start', stepped) = query_step start d t' in
    let dropped = star_drops tok before open_run (lowercase p') (
      subst (λ k. In tok (pattern_tokens_from before open_run (k ∷ lowercase p'))) (lower_star c is)
        m) in
    stepped tok (
      Glob-tokens (c ∷ p') t' g (some b'*') none start' tok (star-Aligned start') (
        subst (λ k. In tok (pattern_tokens_from (some b'*') none (k ∷ lowercase p')))
          (sym (lower_star c is)) (star_again tok (lowercase p') dropped)))
Glob-tokens p t (separator c d p' t' is outside g) before open_run start tok a m =
    rw (not_alphanumeric d outside, query_tokens_from)
      (boundary tok before open_run start (to_ascii_lowercase c) (lowercase p')
        (query_tokens_from none t') (lower_hat c is) a
        (Glob-tokens p' t' g (some (to_ascii_lowercase c)) none none tok
          (none-Aligned (to_ascii_lowercase c)))
        m)
Glob-tokens p t (at_end c p' is g) before open_run start tok a m =
    subst (In tok) (append-nil (close_run start)) (
      boundary tok before open_run start (to_ascii_lowercase c) (lowercase p') [] (lower_hat c is) a
        (Glob-tokens p' [] g (some (to_ascii_lowercase c)) none none tok
          (none-Aligned (to_ascii_lowercase c)))
        m)
Glob-tokens p t (literal c d p' t' no_star no_hat same g) before none start tok a m =
    elim (Bool-cases (is_ascii_alphanumeric (to_ascii_lowercase c))) [
      | inl letter ↦
          rw (same_kind c d true same letter, query_tokens_from)
            (Glob-tokens p' t' g (some (to_ascii_lowercase c))
              (some (bounds_token before, to_ascii_lowercase c ∷ [])) (some (extend_run start d))
              tok (Aligned-first before start (to_ascii_lowercase c) d (lower_idem c ∙ same) a)
              (rw (letter, pattern_tokens_from) at m))
      | inr other ↦
          rw (same_kind c d false same other, query_tokens_from)
            (boundary tok before none start (to_ascii_lowercase c) (lowercase p')
              (query_tokens_from none t') other a
              (Glob-tokens p' t' g (some (to_ascii_lowercase c)) none none tok
                (none-Aligned (to_ascii_lowercase c)))
              m)
    ]
Glob-tokens p t (literal c d p' t' no_star no_hat same g) before (some (left_ok, run)) start tok a
      m =
    elim (Bool-cases (is_ascii_alphanumeric (to_ascii_lowercase c))) [
      | inl letter ↦
          rw (same_kind c d true same letter, query_tokens_from)
            (Glob-tokens p' t' g (some (to_ascii_lowercase c))
              (some (left_ok, run ++ to_ascii_lowercase c ∷ [])) (some (extend_run start d)) tok
              (Aligned-letter before left_ok run start (to_ascii_lowercase c) d
                (lower_idem c ∙ same) a)
              (rw (letter, pattern_tokens_from) at m))
      | inr other ↦
          rw (same_kind c d false same other, query_tokens_from)
            (boundary tok before (some (left_ok, run)) start (to_ascii_lowercase c) (lowercase p')
              (query_tokens_from none t') other a
              (Glob-tokens p' t' g (some (to_ascii_lowercase c)) none none tok
                (none-Aligned (to_ascii_lowercase c)))
              m)
    ]

-- Tokens of what stands behind a part of a name are tokens of the name.
behind_front :
    (front t : Bytes) (start : Option Bytes)
    → (start' : Option Bytes) × ((tok : ℕ)
        → In tok (query_tokens_from start' t)
        → In tok (query_tokens_from start (front ++ t)))
behind_front [] t start = (start, λ tok m. m)
behind_front (d ∷ front) t start =
    let (start', stepped) = query_step start d (front ++ t) in
    let (start'', rest) = behind_front front t start' in
    (start'', λ tok m. stepped tok (rest tok m))

start-Aligned : (start : Option Bytes) → Aligned none none start
start-Aligned start ok = cc

-- If the body of a wildcard pattern matches somewhere in a name, then every token that the lower-
-- cased body is indexed by is a token of the name: the index misses no match.
pub tokenize_pattern_safe-query_tokens :
    (body domain : Bytes) (tok : ℕ)
    → GlobIn body domain
    → In tok (tokenize_pattern_safe (lowercase body))
    → In tok (query_tokens domain)
unfolding tokenize_pattern_safe query_tokens
tokenize_pattern_safe-query_tokens body domain tok (front, rest, e, g) m =
    let (start, behind) = behind_front front rest none in
    subst (λ d. In tok (query_tokens_from none d)) (sym e)
      (behind tok (
        Glob-tokens body rest g none none start tok (start-Aligned start)
          (sort_from tok (pattern_tokens_from none none (lowercase body)) (dedup_from tok _ m))))

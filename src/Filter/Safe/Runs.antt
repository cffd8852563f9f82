-- ===== src/Filter/Safe/Runs.antt =====
-- token.rs: an open run of a pattern beside that of a name.
use bulwark.Common.{
  ℕ, suc, ◌≡◌, refl, sym, ap, ap₂, subst, ◌∙◌, ◌≢◌, inl, inr, Bool, true, false, ◌&&◌, Option, none,
  some, List, [], ◌∷◌, ◌++◌, arith, leb, ◌==◌, Bool-cases, length, In, here, there, In-append_left,
  In-append_right, In-append,
}
use bulwark.Common.Bytes.{Bytes, is_ascii_alphanumeric, to_ascii_lowercase}
use bulwark.Filter.Token.{
  min_token_len, hash_from, fast_hash, close_run, extend_run, query_tokens_from, insert_sorted,
  sort, dedup, bounds_token, close_safe, pattern_tokens_from,
}
use bulwark.Filter.Text.{lowercase}
use bulwark.Filter.Glob.{is_name_byte}

insert_sorted_from : (t u : ℕ) (xs : List ℕ) → In t (insert_sorted u xs) → In t (u ∷ xs)
unfolding insert_sorted
insert_sorted_from t u [] m = m
insert_sorted_from t u (x ∷ xs) m = elim (Bool-cases (leb u x)) [
  | inl front ↦ rw front at m
  | inr behind ↦ elim (rw behind at m) [
    | here e ↦ there (here e)
    | there n ↦ elim (insert_sorted_from t u xs n) [ here e ↦ here e | there k ↦ there (there k) ]
  ]
]

pub sort_from : (t : ℕ) (xs : List ℕ) → In t (sort xs) → In t xs
unfolding sort
sort_from t [] m = m
sort_from t (x ∷ xs) m = elim (insert_sorted_from t x (sort xs) m) [
  | here e ↦ here e
  | there n ↦ there (sort_from t xs n)
]

pub dedup_from : (t : ℕ) (xs : List ℕ) → In t (dedup xs) → In t xs
unfolding dedup
dedup_from t [] m = m
dedup_from t (x ∷ []) m = m
dedup_from t (x ∷ y ∷ xs) m = elim (Bool-cases (x == y)) [
  | inl twice ↦ there (dedup_from t (y ∷ xs) (rw twice at m))
  | inr once ↦ elim (rw once at m) [ here e ↦ here e | there n ↦ there (dedup_from t (y ∷ xs) n) ]
]

pub lower_idem : (c : ℕ) → to_ascii_lowercase (to_ascii_lowercase c) ≡ to_ascii_lowercase c
unfolding to_ascii_lowercase
lower_idem c = ground arith

alphanumeric-lower :
    (c : ℕ) → is_ascii_alphanumeric (to_ascii_lowercase c) ≡ is_ascii_alphanumeric c
unfolding to_ascii_lowercase is_ascii_alphanumeric
alphanumeric-lower c = ground arith

-- Two runs that differ in case only.
abbrev SameRun : Bytes → Bytes → Type 0
SameRun run run' = lowercase run ≡ lowercase run'

cons_eq : (x y : ℕ) (xs ys : Bytes) → x ∷ xs ≡ y ∷ ys → (x ≡ y) × (xs ≡ ys)
cons_eq x y xs ys e = (cc, cc)

hash_from-SameRun : (xs ys : Bytes) (h : ℕ) → SameRun xs ys → hash_from h xs ≡ hash_from h ys
unfolding hash_from
hash_from-SameRun [] [] h e = refl
hash_from-SameRun [] (y ∷ ys) h e = cc
hash_from-SameRun (x ∷ xs) [] h e = cc
hash_from-SameRun (x ∷ xs) (y ∷ ys) h e =
    let (front, back) = cons_eq _ _ (lowercase xs) (lowercase ys) e in
    rw front (hash_from-SameRun xs ys _ back)

length-SameRun : (xs ys : Bytes) → SameRun xs ys → length xs ≡ length ys
length-SameRun [] [] e = refl
length-SameRun [] (y ∷ ys) e = cc
length-SameRun (x ∷ xs) [] e = cc
length-SameRun (x ∷ xs) (y ∷ ys) e =
    ap suc (length-SameRun xs ys (cons_eq _ _ (lowercase xs) (lowercase ys) e).1)

SameRun-snoc :
    (xs ys : Bytes) (c d : ℕ)
    → SameRun xs ys
    → to_ascii_lowercase c ≡ to_ascii_lowercase d
    → SameRun (xs ++ c ∷ []) (ys ++ d ∷ [])
SameRun-snoc [] [] c d e h = ap (λ (k : ℕ). k ∷ []) h
SameRun-snoc [] (y ∷ ys) c d e h = cc
SameRun-snoc (x ∷ xs) [] c d e h = cc
SameRun-snoc (x ∷ xs) (y ∷ ys) c d e h =
    let (front, back) = cons_eq _ _ (lowercase xs) (lowercase ys) e in
    ap₂ ◌∷◌ front (SameRun-snoc xs ys c d back h)

-- How the open run of the pattern stands to that of the name: where the pattern's run counts, the
-- name's run began at the same place; where a run could begin, none is open.
abbrev pub Aligned : Option ℕ → Option (Bool × Bytes) → Option Bytes → Type 0
Aligned before none start = bounds_token before ≡ true → start ≡ none
Aligned before (some (left_ok, run)) start =
    left_ok ≡ true → (run' : Bytes) × (start ≡ some run') × SameRun run run'

close_safe-close_run :
    (tok : ℕ) (before : Option ℕ) (left_ok : Bool) (run : Bytes) (right : Option ℕ)
    (start : Option Bytes)
    → Aligned before (some (left_ok, run)) start
    → In tok (close_safe left_ok run right)
    → In tok (close_run start)
unfolding close_safe close_run fast_hash
close_safe-close_run tok before false run right start a m = elim m [ ]
close_safe-close_run tok before true run right start a m =
    let (run', open_run, same) = a refl in
    elim (Bool-cases (bounds_token right && leb min_token_len (length run))) [
      | inr dropped ↦ elim (rw dropped at m) [ ]
      | inl kept ↦
          let long : leb min_token_len (length run') ≡ true =
            rw (sym (length-SameRun run run' same)) (and_right (bounds_token right) _ kept) in
          rw open_run (
            rw long (
              subst (λ (h : ℕ). In tok (h ∷ [])) (hash_from-SameRun run run' 2166136261 same)
                (rw kept at m)))
    ]
  where
    and_right : (b c : Bool) → b && c ≡ true → c ≡ true
    and_right true c e = e
    and_right false c e = cc

-- A byte of the pattern that is no letter and no digit closes its run; the name's may close too.
pub boundary :
    (tok : ℕ) (before : Option ℕ) (open_run : Option (Bool × Bytes)) (start : Option Bytes) (b : ℕ)
    (p : Bytes) (later : List ℕ)
    → is_ascii_alphanumeric b ≡ false
    → Aligned before open_run start
    → (In tok (pattern_tokens_from (some b) none p) → In tok later)
    → In tok (pattern_tokens_from before open_run (b ∷ p))
    → In tok (close_run start ++ later)
unfolding pattern_tokens_from
boundary tok before none start b p later other a rest m =
    In-append_right (close_run start) later (rest (rw (other, pattern_tokens_from) at m))
boundary tok before (some (left_ok, run)) start b p later other a rest m =
    In-append (close_safe left_ok run (some b)) (pattern_tokens_from (some b) none p)
      (λ early.
        In-append_left (close_run start) later
          (close_safe-close_run tok before left_ok run (some b) start a early))
      (λ late. In-append_right (close_run start) later (rest late))
      (rw (other, pattern_tokens_from) at m)

-- A star drops the pattern's open run.
pub star_drops :
    (tok : ℕ) (before : Option ℕ) (open_run : Option (Bool × Bytes)) (p : Bytes)
    → In tok (pattern_tokens_from before open_run (b'*' ∷ p))
    → In tok (pattern_tokens_from (some b'*') none p)
unfolding pattern_tokens_from is_ascii_alphanumeric close_safe
star_drops tok before none p m = m
star_drops tok before (some (true, run)) p m = m
star_drops tok before (some (false, run)) p m = m

pub star_again :
    (tok : ℕ) (p : Bytes)
    → In tok (pattern_tokens_from (some b'*') none p)
    → In tok (pattern_tokens_from (some b'*') none (b'*' ∷ p))
unfolding pattern_tokens_from is_ascii_alphanumeric
star_again tok p m = m

-- Whatever run is open, the tokens behind the next byte of the name count.
pub query_step :
    (start : Option Bytes) (d : ℕ) (t : Bytes)
    → (start' : Option Bytes) × ((tok : ℕ)
        → In tok (query_tokens_from start' t)
        → In tok (query_tokens_from start (d ∷ t)))
unfolding query_tokens_from
query_step start d t = elim (Bool-cases (is_ascii_alphanumeric d)) [
  | inl letter ↦ (some (extend_run start d), λ tok m. rw (letter, query_tokens_from) m)
  | inr other ↦
      (none, λ tok m. rw (other, query_tokens_from) (In-append_right (close_run start) _ m))
]

-- The run of a letter or digit, in the pattern and in the name.
pub Aligned-letter :
    (before : Option ℕ) (left_ok : Bool) (run : Bytes) (start : Option Bytes) (c d : ℕ)
    → to_ascii_lowercase c ≡ to_ascii_lowercase d
    → Aligned before (some (left_ok, run)) start
    → Aligned (some c) (some (left_ok, run ++ c ∷ [])) (some (extend_run start d))
Aligned-letter before left_ok run start c d same a ok =
    let (run', e, runs) = a ok in
    (run' ++ d ∷ [], ap (λ s. some (extend_run s d)) e, SameRun-snoc run run' c d runs same)

pub Aligned-first :
    (before : Option ℕ) (start : Option Bytes) (c d : ℕ)
    → to_ascii_lowercase c ≡ to_ascii_lowercase d
    → Aligned before none start
    → Aligned (some c) (some (bounds_token before, c ∷ [])) (some (extend_run start d))
Aligned-first before start c d same a ok =
    (d ∷ [], ap (λ s. some (extend_run s d)) (a ok), ap (λ (k : ℕ). k ∷ []) same)

pub none-Aligned : (b : ℕ) → Aligned (some b) none none
none-Aligned b ok = refl

pub star-Aligned : (start : Option Bytes) → Aligned (some b'*') none start
star-Aligned start ok = cc

-- The bytes of a pattern as the tokenizer sees them.
pub lower_star : (c : ℕ) → c ≡ b'*' → to_ascii_lowercase c ≡ b'*'
unfolding to_ascii_lowercase
lower_star c h = ground arith

pub lower_hat : (c : ℕ) → c ≡ b'^' → is_ascii_alphanumeric (to_ascii_lowercase c) ≡ false
unfolding to_ascii_lowercase is_ascii_alphanumeric
lower_hat c h = ground arith

pub not_alphanumeric : (d : ℕ) → is_name_byte d ≡ false → is_ascii_alphanumeric d ≡ false
not_alphanumeric d h = elim (Bool-cases (is_ascii_alphanumeric d)) [
  | inr other ↦ other
  | inl letter ↦ absurd (true_false (rw letter at h))
]
  where
    true_false : true ≢ false
    true_false e = cc

pub nothing_safe : (tok : ℕ) (left_ok : Bool) (run : Bytes) → ¬ In tok (close_safe left_ok run none)
unfolding close_safe
nothing_safe tok true run m = elim m [ ]
nothing_safe tok false run m = elim m [ ]

pub same_kind :
    (c d : ℕ) (b : Bool)
    → to_ascii_lowercase c ≡ to_ascii_lowercase d
    → is_ascii_alphanumeric (to_ascii_lowercase c) ≡ b
    → is_ascii_alphanumeric d ≡ b
same_kind c d b same h = sym (alphanumeric-lower d) ∙ ap is_ascii_alphanumeric (sym same) ∙ h

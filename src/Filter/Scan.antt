-- ===== src/Filter/Scan.antt =====
-- crates/bulwark-filter/src/engine.rs, the fixed-size records and `ScanGroup`: wildcard and regex rules
-- by a rare token, and those without one in sets of at most 256.
use bulwark.Common.{
  ℕ, zero, suc, ◌+◌, Bool, true, false, ◌&&◌, Option, none, some, List, [], ◌∷◌, ◌++◌, map, leb,
  ◌==◌, if◌then◌else◌, ◌>>=◌, ◌>>◌, guard, length, get_elem?, take, drop,
}
use bulwark.Common.Bytes.{Bytes}
use bulwark.Filter.Rule.{Action, is_empty}
use bulwark.Filter.External.{External}

pub data Kind : Type 0 where
  exact subdomain wildcard regex : Kind

-- `RuleRecord`: spans into the arenas of the engine.
pub record RuleRecord : Type 0 where
  pub raw_start : ℕ
  pub dom_or_re : ℕ
  pub mods_idx : ℕ
  pub raw_len : ℕ
  pub list_id : ℕ
  pub dom_len : ℕ
  pub action : Action
  pub kind : Kind

abbrev pub is_pattern : Kind → Bool
is_pattern exact = false
is_pattern subdomain = false
is_pattern wildcard = true
is_pattern regex = true

pub record ScanGroup : Type 0 where
  pub scan_index : List (ℕ × List ℕ)
  pub fallback_sets : List (List Bytes × List ℕ)
  pub fallback_individual : List ℕ

unfoldable pub scan_is_empty : ScanGroup → Bool
scan_is_empty g =
    is_empty g.scan_index && is_empty g.fallback_sets && is_empty g.fallback_individual

abbrev pub fallback_chunk : ℕ
fallback_chunk = 256

-- The occurrences of each token: `*token_freq.entry(t).or_default() += 1`.
unfoldable pub count_token : ℕ → List ℕ → ℕ
count_token t [] = 0
count_token t (u ∷ tokens) = (if u == t then 1 else 0) + count_token t tokens

unfoldable pub token_freq : List (ℕ × List ℕ) → ℕ → ℕ
unfolding count_token
token_freq [] t = 0
token_freq ((id, tokens) ∷ meta) t = count_token t tokens + token_freq meta t

-- `toks.iter().min_by_key(freq)`: the first of the least.
unfoldable pub rarest : (ℕ → ℕ) → List ℕ → Option ℕ
rarest freq [] = none
rarest freq (t ∷ tokens) = elim (rarest freq tokens) [
  | none ↦ some t
  | some u ↦ if leb (freq t) (freq u) then some t else some u
]

-- `scan_index.entry(tok).or_default().push(id)`
unfoldable pub push_entry : ℕ → ℕ → List (ℕ × List ℕ) → List (ℕ × List ℕ)
push_entry tok id [] = (tok, id ∷ []) ∷ []
push_entry tok id ((t, ids) ∷ index) =
    if t == tok then (t, ids ++ id ∷ []) ∷ index else (t, ids) ∷ push_entry tok id index

unfoldable pub entry_of : ℕ → List (ℕ × List ℕ) → Option (List ℕ)
entry_of tok [] = none
entry_of tok ((t, ids) ∷ index) = if t == tok then some ids else entry_of tok index

-- A rule goes to its rarest token, or to the fallback if it has none.
unfoldable pub send : Option ℕ → ℕ → List (ℕ × List ℕ) × List ℕ → List (ℕ × List ℕ) × List ℕ
unfolding push_entry
send none id acc = (acc.0, acc.1 ++ id ∷ [])
send (some tok) id acc = (push_entry tok id acc.0, acc.1)

-- The loop over the rules.
unfoldable pub distribute :
    (ℕ → ℕ) → List (ℕ × List ℕ) → List (ℕ × List ℕ) × List ℕ → List (ℕ × List ℕ) × List ℕ
unfolding rarest send
distribute freq [] acc = acc
distribute freq ((id, tokens) ∷ meta) acc = distribute freq meta (send (rarest freq tokens) id acc)

-- `records[id]` and `regexes[r.dom_or_re]`, where these are in range.
unfoldable pub pattern_of : List RuleRecord → List Bytes → ℕ → Option Bytes
pattern_of records regexes id = do
  r ← get_elem? records id
  guard (is_pattern r.kind)
  get_elem? regexes r.dom_or_re

abbrev pub push_pattern : Option Bytes → ℕ → List Bytes × List ℕ → List Bytes × List ℕ
push_pattern none id rest = rest
push_pattern (some p) id rest = (p ∷ rest.0, id ∷ rest.1)

-- The patterns of a chunk with their ids.
unfoldable pub chunk_patterns : List RuleRecord → List Bytes → List ℕ → List Bytes × List ℕ
unfolding pattern_of
chunk_patterns records regexes [] = ([], [])
chunk_patterns records regexes (id ∷ chunk) =
    push_pattern (pattern_of records regexes id) id (chunk_patterns records regexes chunk)

-- One chunk of the fallback: a set if it builds, and else its rules one by one.
unfoldable pub add_chunk :
    External
    → List RuleRecord
    → List Bytes
    → List ℕ
    → List (List Bytes × List ℕ) × List ℕ
    → List (List Bytes × List ℕ) × List ℕ
unfolding chunk_patterns
add_chunk x records regexes chunk (sets, individual) =
    let built = chunk_patterns records regexes chunk in
    if is_empty built.0
    then (sets, individual)
    else if x.set_builds built.0
    then (sets ++ built ∷ [], individual)
    else (sets, individual ++ built.1)

-- `for chunk in scan_fallback.chunks(FALLBACK_CHUNK)`; as much fuel as rules is enough.
unfoldable pub add_chunks :
    External
    → List RuleRecord
    → List Bytes
    → ℕ
    → List ℕ
    → List (List Bytes × List ℕ) × List ℕ
    → List (List Bytes × List ℕ) × List ℕ
unfolding add_chunk
add_chunks x records regexes zero fallback acc = acc
add_chunks x records regexes (suc fuel) [] acc = acc
add_chunks x records regexes (suc fuel) (id ∷ fallback) acc =
    add_chunks x records regexes fuel (drop fallback_chunk (id ∷ fallback))
      (add_chunk x records regexes (take fallback_chunk (id ∷ fallback)) acc)

-- `build_scan_group`
unfoldable pub build_scan_group :
    External → List (ℕ × List ℕ) → List RuleRecord → List Bytes → Bool → ScanGroup
unfolding distribute token_freq add_chunks
build_scan_group x meta records regexes token_index =
    let parts : List (ℕ × List ℕ) × List ℕ =
      if token_index
      then distribute (token_freq meta) meta ([], [])
      else ([], map (λ m. m.0) meta) in
    let scanned = add_chunks x records regexes (length parts.1) parts.1 ([], []) in
    record { scan_index = parts.0; fallback_sets = scanned.0; fallback_individual = scanned.1 }

-- `check` of `scan_group`: push the rule if its pattern matches.
unfoldable pub check_pattern : External → List RuleRecord → List Bytes → Bytes → ℕ → List ℕ
unfolding pattern_of
check_pattern x records regexes domain id = elim (pattern_of records regexes id) [
  | none ↦ []
  | some p ↦ if x.is_match p domain then id ∷ [] else []
]

unfoldable pub collect {ℓ} : {A : Type ℓ} → (A → List ℕ) → List A → List ℕ
collect f [] = []
collect f (y ∷ ys) = f y ++ collect f ys

-- `ids[idx]` of each match of a set
unfoldable pub set_hits : External → Bytes → List Bytes × List ℕ → List ℕ
unfolding collect
set_hits x domain (pats, ids) =
    collect (λ i. elim (get_elem? ids i) [ none ↦ [] | some id ↦ id ∷ [] ])
      (x.set_matches pats domain)

unfoldable pub token_hits :
    External → List RuleRecord → List Bytes → Bytes → List (ℕ × List ℕ) → ℕ → List ℕ
unfolding check_pattern collect entry_of
token_hits x records regexes domain index tok = elim (entry_of tok index) [
  | none ↦ []
  | some ids ↦ collect (check_pattern x records regexes domain) ids
]

-- `FilterEngine::scan_group`: the candidates that it pushes, in order.
unfoldable pub scan_group :
    External → List RuleRecord → List Bytes → ScanGroup → Bytes → List ℕ → List ℕ
unfolding set_hits token_hits check_pattern collect
scan_group x records regexes g domain tokens =
    collect (set_hits x domain) g.fallback_sets
    ++ (collect (check_pattern x records regexes domain) g.fallback_individual
        ++ (if is_empty g.scan_index
            then []
            else collect (token_hits x records regexes domain g.scan_index) tokens))

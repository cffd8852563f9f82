-- ===== src/Filter/External.antt =====
-- The crates that the filter engine calls: `regex`, `ipnet`, `ahash`, and the order in which
-- `sort_unstable_by_key` leaves equal keys. Their documented behaviour is `IsDocumented`.
use bulwark.Common.{ℕ, Bool, true, List, ◌≡◌, ◌↔◌, ◌≤◌, ◌∷◌, some, [], get_elem?, In}
use bulwark.Common.Bytes.{Bytes}
use bulwark.Net.{IpAddr, IpNet}
use bulwark.Filter.Rule.{Action}

pub record External : Type 0 where
  -- `Regex::is_match`, by the regex's source text
  pub is_match : Bytes → Bytes → Bool
  -- whether `RegexSetBuilder::build` keeps within the size limit
  pub set_builds : List Bytes → Bool
  -- `RegexSet::matches`: the indices of the patterns that match
  pub set_matches : List Bytes → Bytes → List ℕ
  -- `IpNet::contains`
  pub contains : IpNet → IpAddr → Bool
  -- `ahash::RandomState::hash_one` of a text
  pub hash_one : Bytes → ℕ
  -- `sort_unstable_by_key(|p| p.0)`
  pub sort_by_key : List (ℕ × ℕ) → List (ℕ × ℕ)
  -- `DefaultHasher` over the source line, the list and the action of each rule
  pub hash_content : List (Bytes × ℕ × Action) → ℕ

-- Keys do not fall along the list.
abbrev pub Ascending : List (ℕ × ℕ) → Type 0
Ascending [] = Unit {0}
Ascending (p ∷ []) = Unit {0}
Ascending (p ∷ q ∷ ps) = (p.0 ≤ q.0) × Ascending (q ∷ ps)

pub record IsDocumented (x : External) : Type 0 where
  -- a set reports exactly the patterns that match on their own
  pub set_sound :
      (pats : List Bytes) (domain : Bytes) (i : ℕ)
      → In i (x.set_matches pats domain)
      → (p : Bytes) × (get_elem? pats i ≡ some p) × (x.is_match p domain ≡ true)
  pub set_complete :
      (pats : List Bytes) (domain : Bytes) (i : ℕ) (p : Bytes)
      → get_elem? pats i ≡ some p
      → x.is_match p domain ≡ true
      → In i (x.set_matches pats domain)
  -- sorting keeps the pairs and puts the keys in order
  pub sort_keeps : (p : ℕ × ℕ) (ps : List (ℕ × ℕ)) → In p (x.sort_by_key ps) ↔ In p ps
  pub sort_sorts : (ps : List (ℕ × ℕ)) → Ascending (x.sort_by_key ps)

-- ===== src/Filter/Placing.antt =====
-- engine.rs, `from_rules`: where the pattern and the modifiers of one rule are put.
use bulwark.Common.{
  ℕ, ◌+◌, ◌%◌, ◌^◌, ◌≤◌, ◌<◌, ◌≡◌, refl, ap, ap₂, ◌∙◌, Bool, true, false, Option, none, some, List,
  [], ◌∷◌, ◌++◌, arith, length, get_elem?, take, drop, In, here, length-append, drop-append_self,
  In-append_right, get_elem?-append_length, take-length,
}
use bulwark.Common.Bytes.{Bytes}
use bulwark.Filter.Rule.{Pattern, RuleMods}
use bulwark.Filter.External.{External}
use bulwark.Filter.Scan.{Kind, wildcard, regex}
use bulwark.Filter.Engine.Builder.{Build, add_mods, place, place_regex, no_mods}
use bulwark.Filter.Gather.{
  Grows-refl, Grows-append, Extends, Extends-refl, Span, meta_of, PatternAt, ModsAt,
}

-- The domain of a pattern, as far as the arena is concerned.
abbrev pub stored_domain : Pattern → Bytes
stored_domain (Pattern.exact d) = d
stored_domain (Pattern.subdomain d) = d
stored_domain (Pattern.wildcard re) = []
stored_domain (Pattern.regex re) = []

place_regex-Extends :
    (kind : Kind) (re : Bytes) (oc : Bool) (tokens : List ℕ) (id : ℕ) (b : Build)
    → Extends b (place_regex kind re oc tokens id b).build
unfolding place_regex
place_regex-Extends kind re true tokens id b = record {
  records = Grows-refl b.records;
  domain_arena = Grows-refl b.domain_arena;
  mods = Grows-refl b.mods;
  regexes = Grows-append b.regexes _;
  exact_pairs = Grows-refl b.exact_pairs;
  sub_pairs = Grows-refl b.sub_pairs;
  override_meta = Grows-append b.override_meta _;
  block_meta = Grows-refl b.block_meta;
}
place_regex-Extends kind re false tokens id b = record {
  records = Grows-refl b.records;
  domain_arena = Grows-refl b.domain_arena;
  mods = Grows-refl b.mods;
  regexes = Grows-append b.regexes _;
  exact_pairs = Grows-refl b.exact_pairs;
  sub_pairs = Grows-refl b.sub_pairs;
  override_meta = Grows-refl b.override_meta;
  block_meta = Grows-append b.block_meta _;
}

module _ (x : External) where
  pub place-Extends :
      (p : Pattern) (oc : Bool) (tokens : List ℕ) (id : ℕ) (b : Build)
      → Extends b (place x p oc tokens id b).build
  unfolding place
  place-Extends (Pattern.exact d) oc tokens id b = record {
    records = Grows-refl b.records;
    domain_arena = Grows-append b.domain_arena d;
    mods = Grows-refl b.mods;
    regexes = Grows-refl b.regexes;
    exact_pairs = Grows-append b.exact_pairs _;
    sub_pairs = Grows-refl b.sub_pairs;
    override_meta = Grows-refl b.override_meta;
    block_meta = Grows-refl b.block_meta;
  }
  place-Extends (Pattern.subdomain d) oc tokens id b = record {
    records = Grows-refl b.records;
    domain_arena = Grows-append b.domain_arena d;
    mods = Grows-refl b.mods;
    regexes = Grows-refl b.regexes;
    exact_pairs = Grows-refl b.exact_pairs;
    sub_pairs = Grows-append b.sub_pairs _;
    override_meta = Grows-refl b.override_meta;
    block_meta = Grows-refl b.block_meta;
  }
  place-Extends (Pattern.wildcard re) oc tokens id b =
      place_regex-Extends wildcard re oc tokens id b
  place-Extends (Pattern.regex re) oc tokens id b = place_regex-Extends regex re oc tokens id b

  new_Span :
      (arena d : Bytes)
      → length arena < 2 ^ 32
      → length d < 256
      → Span (arena ++ d) (length arena % 2 ^ 32) (length d % 256) d
  new_Span arena d small short =
      let start : length arena % 2 ^ 32 ≡ length arena = omega arith in
      let len : length d % 256 ≡ length d = omega arith in
      record {
        whole = len;
        fits = omega (arith, length-append arena d);
        text =
            ap₂ (λ (n k : ℕ). take n (drop k (arena ++ d))) len start
            ∙ ap (take (length d)) (drop-append_self arena d)
            ∙ take-length d;
      }

  place_regex-meta :
      (kind : Kind) (re : Bytes) (oc : Bool) (tokens : List ℕ) (id : ℕ) (b : Build)
      → length b.regexes < 2 ^ 32
      → (get_elem?
            (place_regex kind re oc tokens id b).build.regexes
            (place_regex kind re oc tokens id b).dom_or_re
          ≡ some re)
        × In (id, tokens) (meta_of (place_regex kind re oc tokens id b).build oc)
  unfolding place_regex
  place_regex-meta kind re true tokens id b small = (
    ap (get_elem? (b.regexes ++ re ∷ [])) (omega arith) ∙ get_elem?-append_length b.regexes [] re,
    In-append_right b.override_meta _ (here refl),
  )
  place_regex-meta kind re false tokens id b small = (
    ap (get_elem? (b.regexes ++ re ∷ [])) (omega arith) ∙ get_elem?-append_length b.regexes [] re,
    In-append_right b.block_meta _ (here refl),
  )

  pub place-PatternAt :
      (p : Pattern) (oc : Bool) (tokens : List ℕ) (id : ℕ) (b : Build)
      → length b.regexes < 2 ^ 32
      → length b.domain_arena < 2 ^ 32
      → length (stored_domain p) < 256
      → PatternAt x
          (place x p oc tokens id b).build
          id
          oc
          tokens
          (place x p oc tokens id b).kind
          (place x p oc tokens id b).dom_or_re
          (place x p oc tokens id b).dom_len
          p
  unfolding place place_regex
  place-PatternAt (Pattern.exact d) oc tokens id b small arena short =
      (refl, new_Span b.domain_arena d arena short, In-append_right b.exact_pairs _ (here refl))
  place-PatternAt (Pattern.subdomain d) oc tokens id b small arena short =
      (refl, new_Span b.domain_arena d arena short, In-append_right b.sub_pairs _ (here refl))
  place-PatternAt (Pattern.wildcard re) oc tokens id b small arena short =
      let (text, m) = place_regex-meta wildcard re oc tokens id b small in (refl, text, m)
  place-PatternAt (Pattern.regex re) oc tokens id b small arena short =
      let (text, m) = place_regex-meta regex re oc tokens id b small in (refl, text, m)

  -- What placing a pattern leaves alone, and how much it adds.
  pub place-sizes :
      (p : Pattern) (oc : Bool) (tokens : List ℕ) (id : ℕ) (b : Build)
      → ((place x p oc tokens id b).build.records ≡ b.records)
        × ((place x p oc tokens id b).build.mods ≡ b.mods)
        × (length (place x p oc tokens id b).build.regexes ≤ length b.regexes + 1)
        × (length (place x p oc tokens id b).build.domain_arena
            ≡ length b.domain_arena + length (stored_domain p))
  unfolding place place_regex
  place-sizes (Pattern.exact d) oc tokens id b =
      (refl, refl, omega arith, length-append b.domain_arena d)
  place-sizes (Pattern.subdomain d) oc tokens id b =
      (refl, refl, omega arith, length-append b.domain_arena d)
  place-sizes (Pattern.wildcard re) true tokens id b =
      (refl, refl, omega (arith, length-append b.regexes (re ∷ [])), omega arith)
  place-sizes (Pattern.wildcard re) false tokens id b =
      (refl, refl, omega (arith, length-append b.regexes (re ∷ [])), omega arith)
  place-sizes (Pattern.regex re) true tokens id b =
      (refl, refl, omega (arith, length-append b.regexes (re ∷ [])), omega arith)
  place-sizes (Pattern.regex re) false tokens id b =
      (refl, refl, omega (arith, length-append b.regexes (re ∷ [])), omega arith)

pub add_mods-Extends : (m : Option RuleMods) (b : Build) → Extends b (add_mods m b).0
unfolding add_mods
add_mods-Extends none b = Extends-refl b
add_mods-Extends (some m) b = record {
  records = Grows-refl b.records;
  domain_arena = Grows-refl b.domain_arena;
  mods = Grows-append b.mods _;
  regexes = Grows-refl b.regexes;
  exact_pairs = Grows-refl b.exact_pairs;
  sub_pairs = Grows-refl b.sub_pairs;
  override_meta = Grows-refl b.override_meta;
  block_meta = Grows-refl b.block_meta;
}

pub add_mods-ModsAt :
    (m : Option RuleMods) (b : Build)
    → length b.mods < no_mods
    → ModsAt (add_mods m b).0.mods (add_mods m b).1 m
unfolding add_mods
add_mods-ModsAt none b small = refl
add_mods-ModsAt (some m) b small = (
  omega arith,
  ap (get_elem? (b.mods ++ m ∷ [])) (omega arith) ∙ get_elem?-append_length b.mods [] m,
)

pub add_mods-sizes :
    (m : Option RuleMods) (b : Build)
    → ((add_mods m b).0.records ≡ b.records)
      × (length (add_mods m b).0.mods ≤ length b.mods + 1)
      × ((add_mods m b).0.regexes ≡ b.regexes)
      × ((add_mods m b).0.domain_arena ≡ b.domain_arena)
unfolding add_mods
add_mods-sizes none b = (refl, omega arith, refl, refl)
add_mods-sizes (some m) b = (refl, omega (arith, length-append b.mods (m ∷ [])), refl, refl)

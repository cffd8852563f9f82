-- ===== src/Filter/Gather.antt =====
-- engine.rs, `from_rules`: what the records and the arenas hold of each rule.
use bulwark.Common.{
  ℕ, ◌+◌, ◌≤◌, ◌<◌, ◌≡◌, refl, sym, ap, subst, ◌∙◌, Bool, true, false, ◌||◌, Option, none, some,
  List, [], ◌++◌, append-nil, append_assoc, arith, length, get_elem?, take, drop, In, length-append,
  In-append_left, get_elem?-append_left, span-append_left,
}
use bulwark.Common.Bytes.{Bytes}
use bulwark.Filter.Rule.{Pattern, RuleMods, BuildRule, is_important}
use bulwark.Filter.External.{External}
use bulwark.Filter.Scan.{RuleRecord, Kind, exact, subdomain, wildcard, regex}
use bulwark.Filter.Engine.Builder.{Build, no_mods, is_allow}

pub record Grows {ℓ} {A : Type ℓ} (xs ys : List A) : Type ℓ where
  pub more : List A
  pub grown : ys ≡ xs ++ more

pub Grows-refl {ℓ} : {A : Type ℓ} (xs : List A) → Grows xs xs
Grows-refl xs = record { more = []; grown = sym (append-nil xs) }

pub Grows-append {ℓ} : {A : Type ℓ} (xs ys : List A) → Grows xs (xs ++ ys)
Grows-append xs ys = record { more = ys; grown = refl }

pub Grows-trans {ℓ} : {A : Type ℓ} {xs ys zs : List A} → Grows xs ys → Grows ys zs → Grows xs zs
Grows-trans {xs} g h = record {
  more = g.more ++ h.more;
  grown = h.grown ∙ ap (λ l. l ++ h.more) g.grown ∙ append_assoc xs g.more h.more;
}

Grows-In {ℓ} : {A : Type ℓ} {a : A} (xs ys : List A) → Grows xs ys → In a xs → In a ys
Grows-In {a} xs ys g m = subst (In a) (sym g.grown) (In-append_left xs g.more m)

pub Grows-get_elem? {ℓ} :
    {A : Type ℓ} {a : A} (xs ys : List A) (i : ℕ)
    → Grows xs ys
    → get_elem? xs i ≡ some a
    → get_elem? ys i ≡ some a
Grows-get_elem? xs ys i g e = ap (λ l. get_elem? l i) g.grown ∙ get_elem?-append_left xs g.more i e

-- The parts of the build that later rules only add to.
pub record Extends (b b' : Build) : Type 0 where
  pub records : Grows b.records b'.records
  pub domain_arena : Grows b.domain_arena b'.domain_arena
  pub mods : Grows b.mods b'.mods
  pub regexes : Grows b.regexes b'.regexes
  pub exact_pairs : Grows b.exact_pairs b'.exact_pairs
  pub sub_pairs : Grows b.sub_pairs b'.sub_pairs
  pub override_meta : Grows b.override_meta b'.override_meta
  pub block_meta : Grows b.block_meta b'.block_meta

-- The domain of a rule lies in the arena at the span of its record.
pub record Span (arena : Bytes) (start len : ℕ) (d : Bytes) : Type 0 where
  pub whole : len ≡ length d
  pub fits : start + len ≤ length arena
  pub text : take len (drop start arena) ≡ d

-- `action == Allow || important`
abbrev pub overrides : BuildRule → Bool
overrides br = is_allow br.rule.action || is_important br.rule.mods

abbrev pub meta_of : Build → Bool → List (ℕ × List ℕ)
meta_of b true = b.override_meta
meta_of b false = b.block_meta

-- What is kept of a pattern: its text, and its place in the index that serves it.
abbrev pub PatternAt : External → Build → ℕ → Bool → List ℕ → Kind → ℕ → ℕ → Pattern → Type 0
PatternAt x b id oc tokens kind start len (Pattern.exact d) =
    (kind ≡ exact) × Span b.domain_arena start len d × In (x.hash_one d, id) b.exact_pairs
PatternAt x b id oc tokens kind start len (Pattern.subdomain d) =
    (kind ≡ subdomain) × Span b.domain_arena start len d × In (x.hash_one d, id) b.sub_pairs
PatternAt x b id oc tokens kind start len (Pattern.wildcard re) =
    (kind ≡ wildcard) × (get_elem? b.regexes start ≡ some re) × In (id, tokens) (meta_of b oc)
PatternAt x b id oc tokens kind start len (Pattern.regex re) =
    (kind ≡ regex) × (get_elem? b.regexes start ≡ some re) × In (id, tokens) (meta_of b oc)

abbrev pub ModsAt : List RuleMods → ℕ → Option RuleMods → Type 0
ModsAt mods idx none = idx ≡ no_mods
ModsAt mods idx (some m) = (idx < no_mods) × (get_elem? mods idx ≡ some m)

-- Record `id` of the build stands for the rule `br`.
pub record Represents (x : External) (b : Build) (id : ℕ) (br : BuildRule) : Type 0 where
  pub rec : RuleRecord
  pub record_at : get_elem? b.records id ≡ some rec
  pub action_same : rec.action ≡ br.rule.action
  pub mods_at : ModsAt b.mods rec.mods_idx br.rule.mods
  pub pattern_at :
      PatternAt x b id
        (overrides br)
        br.index_tokens
        rec.kind
        rec.dom_or_re
        rec.dom_len
        br.rule.pattern

Span-Grows :
    {arena arena' : Bytes} {start len : ℕ} {d : Bytes}
    → Grows arena arena'
    → Span arena start len d
    → Span arena' start len d
Span-Grows {arena} {arena'} {start} {len} g s = record {
  whole = s.whole;
  fits = omega (arith, ap length g.grown, length-append arena g.more, s.fits);
  text =
      ap (λ l. take len (drop start l)) g.grown
      ∙ span-append_left len start arena g.more s.fits
      ∙ s.text;
}

meta_of-Grows : (b b' : Build) (oc : Bool) → Extends b b' → Grows (meta_of b oc) (meta_of b' oc)
meta_of-Grows b b' true g = g.override_meta
meta_of-Grows b b' false g = g.block_meta

pub PatternAt-Extends :
    (x : External) (b b' : Build) (id : ℕ) (oc : Bool) (tokens : List ℕ) (kind : Kind)
    (start len : ℕ) (p : Pattern)
    → Extends b b'
    → PatternAt x b id oc tokens kind start len p
    → PatternAt x b' id oc tokens kind start len p
PatternAt-Extends x b b' id oc tokens kind start len (Pattern.exact d) g h =
    (h.0, Span-Grows g.domain_arena h.1, Grows-In b.exact_pairs b'.exact_pairs g.exact_pairs h.2)
PatternAt-Extends x b b' id oc tokens kind start len (Pattern.subdomain d) g h =
    (h.0, Span-Grows g.domain_arena h.1, Grows-In b.sub_pairs b'.sub_pairs g.sub_pairs h.2)
PatternAt-Extends x b b' id oc tokens kind start len (Pattern.wildcard re) g h = (
  h.0,
  Grows-get_elem? b.regexes b'.regexes start g.regexes h.1,
  Grows-In (meta_of b oc) (meta_of b' oc) (meta_of-Grows b b' oc g) h.2,
)
PatternAt-Extends x b b' id oc tokens kind start len (Pattern.regex re) g h = (
  h.0,
  Grows-get_elem? b.regexes b'.regexes start g.regexes h.1,
  Grows-In (meta_of b oc) (meta_of b' oc) (meta_of-Grows b b' oc g) h.2,
)

pub ModsAt-Grows :
    (mods mods' : List RuleMods) (idx : ℕ) (m : Option RuleMods)
    → Grows mods mods'
    → ModsAt mods idx m
    → ModsAt mods' idx m
ModsAt-Grows mods mods' idx none g h = h
ModsAt-Grows mods mods' idx (some m) g h = (h.0, Grows-get_elem? mods mods' idx g h.1)

pub Represents-Extends :
    (x : External) (b b' : Build) (id : ℕ) (br : BuildRule)
    → Extends b b'
    → Represents x b id br
    → Represents x b' id br
Represents-Extends x b b' id br g h = record {
  rec = h.rec;
  record_at = Grows-get_elem? b.records b'.records id g.records h.record_at;
  action_same = h.action_same;
  mods_at = ModsAt-Grows b.mods b'.mods h.rec.mods_idx br.rule.mods g.mods h.mods_at;
  pattern_at =
      PatternAt-Extends x b b' id (overrides br) br.index_tokens h.rec.kind h.rec.dom_or_re
        h.rec.dom_len br.rule.pattern g h.pattern_at;
}

pub Extends-trans : (a b c : Build) → Extends a b → Extends b c → Extends a c
Extends-trans a b c g h = record {
  records = Grows-trans g.records h.records;
  domain_arena = Grows-trans g.domain_arena h.domain_arena;
  mods = Grows-trans g.mods h.mods;
  regexes = Grows-trans g.regexes h.regexes;
  exact_pairs = Grows-trans g.exact_pairs h.exact_pairs;
  sub_pairs = Grows-trans g.sub_pairs h.sub_pairs;
  override_meta = Grows-trans g.override_meta h.override_meta;
  block_meta = Grows-trans g.block_meta h.block_meta;
}

pub Extends-refl : (b : Build) → Extends b b
Extends-refl b = record {
  records = Grows-refl b.records;
  domain_arena = Grows-refl b.domain_arena;
  mods = Grows-refl b.mods;
  regexes = Grows-refl b.regexes;
  exact_pairs = Grows-refl b.exact_pairs;
  sub_pairs = Grows-refl b.sub_pairs;
  override_meta = Grows-refl b.override_meta;
  block_meta = Grows-refl b.block_meta;
}

-- ===== src/Filter/Gathered.antt =====
-- engine.rs, `from_rules`: the loop over the rules, and the record of each.
use bulwark.Common.{
  ℕ, zero, suc, ◌+◌, ◌%◌, ◌^◌, ◌≤◌, ◌<◌, min, ◌≡◌, refl, ap, subst, ◌∙◌, some, List, [], ◌∷◌, ◌++◌,
  arith, length, get_elem?, All, length-append, get_elem?-append_length, some_injective,
}
use bulwark.Filter.Rule.{BuildRule}
use bulwark.Filter.External.{External}
use bulwark.Filter.Scan.{RuleRecord}
use bulwark.Filter.Engine.Builder.{Build, add_mods, place, Placed, add_rule, gather, no_mods}
use bulwark.Filter.Gather.{
  PatternAt, Grows-refl, Grows-append, Extends, Extends-refl, Extends-trans, overrides, Represents,
  Represents-Extends, PatternAt-Extends, ModsAt-Grows,
}
use bulwark.Filter.Placing.{
  stored_domain, place-Extends, place-PatternAt, place-sizes, add_mods-Extends, add_mods-ModsAt,
  add_mods-sizes,
}

-- The domain bytes that the rules put into the arena.
abbrev pub stored_total : List BuildRule → ℕ
stored_total [] = 0
stored_total (br ∷ rules) = length (stored_domain br.rule.pattern) + stored_total rules

abbrev pub IsShort : BuildRule → Type 0
IsShort br = length (stored_domain br.rule.pattern) < 256

-- The indices and spans that the rules get fit the widths of the records.
pub record Fits (b : Build) (rules : List BuildRule) : Type 0 where
  pub records : length b.records + length rules ≤ no_mods
  pub mods : length b.mods + length rules ≤ no_mods
  pub regexes : length b.regexes + length rules ≤ no_mods
  pub arena : length b.domain_arena + stored_total rules < 2 ^ 32
  pub short : All IsShort rules

module _ (x : External) (b : Build) (br : BuildRule) where
  abbrev pub hashed : Build
  hashed = record b {
    hashed = b.hashed ++ (br.rule.raw, br.rule.list_id, br.rule.action) ∷ [];
    raw_arena = b.raw_arena ++ br.rule.raw;
  }

  abbrev pub with_mods : Build × ℕ
  with_mods = add_mods br.rule.mods hashed

  abbrev pub placed : Placed
  placed =
      place x br.rule.pattern (overrides br) br.index_tokens (length b.records % 2 ^ 32) with_mods.0

  abbrev pub new_record : RuleRecord
  new_record = record {
    raw_start = length b.raw_arena % 2 ^ 32;
    dom_or_re = placed.dom_or_re;
    mods_idx = with_mods.1;
    raw_len = min (length br.rule.raw) 65535;
    list_id = br.rule.list_id % 2 ^ 16;
    dom_len = placed.dom_len;
    action = br.rule.action;
    kind = placed.kind;
  }

  hashed-Extends : Extends b hashed
  hashed-Extends = record {
    records = Grows-refl b.records;
    domain_arena = Grows-refl b.domain_arena;
    mods = Grows-refl b.mods;
    regexes = Grows-refl b.regexes;
    exact_pairs = Grows-refl b.exact_pairs;
    sub_pairs = Grows-refl b.sub_pairs;
    override_meta = Grows-refl b.override_meta;
    block_meta = Grows-refl b.block_meta;
  }

  placed-Extends : Extends placed.build (add_rule x b br)
  unfolding add_rule
  placed-Extends = record {
    records = Grows-append placed.build.records _;
    domain_arena = Grows-refl placed.build.domain_arena;
    mods = Grows-refl placed.build.mods;
    regexes = Grows-refl placed.build.regexes;
    exact_pairs = Grows-refl placed.build.exact_pairs;
    sub_pairs = Grows-refl placed.build.sub_pairs;
    override_meta = Grows-refl placed.build.override_meta;
    block_meta = Grows-refl placed.build.block_meta;
  }

  place_here-Extends : Extends with_mods.0 placed.build
  place_here-Extends = place-Extends x br.rule.pattern (overrides br) br.index_tokens _ with_mods.0

  pub add_rule-Extends : Extends b (add_rule x b br)
  add_rule-Extends = Extends-trans b hashed _ hashed-Extends (
      Extends-trans hashed with_mods.0 _ (add_mods-Extends br.rule.mods hashed)
        (Extends-trans with_mods.0 placed.build _ place_here-Extends placed-Extends))

  pub placed_records : placed.build.records ≡ b.records
  placed_records =
      (place-sizes x br.rule.pattern (overrides br) br.index_tokens (length b.records % 2 ^ 32)
        with_mods.0).0
      ∙ (add_mods-sizes br.rule.mods hashed).0

  pub add_rule-Fits : (rules : List BuildRule) → Fits b (br ∷ rules) → Fits (add_rule x b br) rules
  unfolding add_rule
  add_rule-Fits rules f =
      let (r, m, g, a) =
        place-sizes x br.rule.pattern (overrides br) br.index_tokens (length b.records % 2 ^ 32)
          with_mods.0 in
      let (r', m', g', a') = add_mods-sizes br.rule.mods hashed in
      record {
        records = omega (
          arith,
          f.records,
          length-append placed.build.records (_ ∷ []),
          ap length placed_records,
        );
        mods = omega (arith, f.mods, ap length m, m');
        regexes = omega (arith, f.regexes, g, ap length g');
        arena = omega (arith, f.arena, a, ap length a');
        short = f.short.1;
      }

  pub length-add_rule : length (add_rule x b br).records ≡ suc (length b.records)
  unfolding add_rule
  length-add_rule =
      omega (arith, length-append placed.build.records (_ ∷ []), ap length placed_records)

  add_rule-Represents :
      (rules : List BuildRule)
      → Fits b (br ∷ rules)
      → Represents x (add_rule x b br) (length b.records) br
  unfolding add_rule
  add_rule-Represents rules f =
      let (r', m', g', a') = add_mods-sizes br.rule.mods hashed in
      let id_same : length b.records % 2 ^ 32 ≡ length b.records = omega (arith, f.records) in
      record {
        rec = new_record;
        record_at =
            ap (λ l. get_elem? (l ++ new_record ∷ []) (length b.records)) placed_records
            ∙ get_elem?-append_length b.records [] new_record;
        action_same = refl;
        mods_at =
            ModsAt-Grows with_mods.0.mods placed.build.mods with_mods.1 br.rule.mods
              place_here-Extends.mods (add_mods-ModsAt br.rule.mods hashed (omega (arith, f.mods)));
        pattern_at =
            PatternAt-Extends x placed.build (add_rule x b br) (length b.records) (overrides br)
              br.index_tokens placed.kind placed.dom_or_re placed.dom_len br.rule.pattern
              placed-Extends
              (subst
                (λ i.
                  PatternAt x placed.build i (overrides br) br.index_tokens placed.kind
                    placed.dom_or_re placed.dom_len br.rule.pattern)
                id_same
                (place-PatternAt x br.rule.pattern (overrides br) br.index_tokens
                  (length b.records % 2 ^ 32) with_mods.0 (omega (arith, f.regexes, ap length g'))
                  (omega (arith, f.arena, ap length a')) f.short.0));
      }

module _ (x : External) where
  pub gather-Extends : (rules : List BuildRule) (b : Build) → Extends b (gather x b rules)
  unfolding gather
  gather-Extends [] b = Extends-refl b
  gather-Extends (br ∷ rules) b =
      Extends-trans b (add_rule x b br) _ (add_rule-Extends x b br)
        (gather-Extends rules (add_rule x b br))

  pub length-gather :
      (rules : List BuildRule) (b : Build)
      → length (gather x b rules).records ≡ length b.records + length rules
  unfolding gather
  length-gather [] b = omega arith
  length-gather (br ∷ rules) b =
      omega (arith, length-add_rule x b br, length-gather rules (add_rule x b br))

  pub gather-Represents :
      (rules : List BuildRule) (b : Build) (i : ℕ) (br : BuildRule)
      → Fits b rules
      → get_elem? rules i ≡ some br
      → Represents x (gather x b rules) (length b.records + i) br
  unfolding gather
  gather-Represents [] b i br f e = cc
  gather-Represents (c ∷ rules) b zero br f e =
      let same : c ≡ br = some_injective e in
      subst (λ j. Represents x (gather x b (c ∷ rules)) j br) (omega arith)
        (subst (Represents x (gather x b (c ∷ rules)) (length b.records)) same (
          Represents-Extends x (add_rule x b c) _ (length b.records) c
            (gather-Extends rules (add_rule x b c)) (add_rule-Represents x b c rules f)))
  gather-Represents (c ∷ rules) b (suc i) br f e =
      subst (λ j. Represents x (gather x b (c ∷ rules)) j br) (omega (arith, length-add_rule x b c))
        (gather-Represents rules (add_rule x b c) i br (add_rule-Fits x b c rules f) e)

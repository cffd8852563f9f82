-- ===== src/Filter/Parsing/Answers.antt =====
-- parser.rs: the answers of rewrite rules.
use bulwark.Common.{
  ◌≡◌, refl, subst, ◌≢◌, ◌⊎◌, inl, inr, Bool, true, false, ◌&&◌, Option, none, some, List, [], ◌∷◌,
  if◌then◌else◌, Bool-cases,
}
use bulwark.Common.Bytes.{Bytes, bytes_eq, codes}
use bulwark.Filter.Text.{trim}
use bulwark.Filter.Rule.{rewrite, RuleMods, mods_is_empty, RewriteData, is_empty}
use bulwark.Filter.Parser.Modifiers.{
  Reading, parse_dnstype, parse_client, parse_ctag, parse_denyallow, parse_dnsrewrite,
}
use bulwark.Filter.Parser.{
  Reads, ModifierResult, next, unknown, bad, read_or_bad, read_modifier, read_modifiers, key_value,
}
use bulwark.Filter.Parsing.Patterns.{HasAnswer}

-- A rewrite is read only with its answer.
abbrev IsAnswered : Reads → Type 0
IsAnswered r = r.action ≡ rewrite → (answer : RewriteData) × (r.mods.rewrite ≡ some answer)

abbrev pub Keeps : ModifierResult → Type 0
Keeps m = (r : Reads) → m ≡ next r → IsAnswered r

Keeps-if : (b : Bool) (m n : ModifierResult) → Keeps m → Keeps n → Keeps (if b then m else n)
Keeps-if true m n h k = h
Keeps-if false m n h k = k

next_injective : {r r' : Reads} → next r ≡ next r' → r ≡ r'
next_injective e = cc

Keeps-next : (r : Reads) → IsAnswered r → Keeps (next r)
Keeps-next r h r' e = subst IsAnswered (next_injective e) h

Keeps-read_or_bad {ℓ} :
    {A : Type ℓ} (parsed : Option A) (f : A → Reads)
    → ((v : A) → IsAnswered (f v))
    → Keeps (read_or_bad parsed f)
Keeps-read_or_bad none f h r e = cc
Keeps-read_or_bad (some v) f h r e = Keeps-next (f v) (h v) r e

read_modifier-IsAnswered :
    (rd : Reading) (key value : Bytes) (r : Reads)
    → IsAnswered r
    → Keeps (read_modifier rd key value r)
unfolding read_modifier
read_modifier-IsAnswered rd key value r h =
    Keeps-if (bytes_eq key (codes "important")) _ _ (Keeps-next _ h) (
      Keeps-if (bytes_eq key (codes "badfilter")) _ _ (Keeps-next _ h) (
        Keeps-if (bytes_eq key (codes "dnstype")) _ _
          (Keeps-read_or_bad (parse_dnstype value) _ (λ v. h))
          (Keeps-if (bytes_eq key (codes "client")) _ _
            (Keeps-read_or_bad (parse_client rd value) _ (λ v. h))
            (Keeps-if (bytes_eq key (codes "ctag")) _ _
              (Keeps-read_or_bad (parse_ctag value) _ (λ v. h))
              (Keeps-if (bytes_eq key (codes "denyallow")) _ _
                (Keeps-read_or_bad (parse_denyallow value) _ (λ v. h))
                (Keeps-if (bytes_eq key (codes "dnsrewrite")) _ _
                  (Keeps-read_or_bad (parse_dnsrewrite rd value) _ (λ v is. (v, refl)))
                  (λ r' e. cc)))))))

data_cases : (m : ModifierResult) → ((r : Reads) × (m ≡ next r)) ⊎ ((m ≡ unknown) ⊎ (m ≡ bad))
data_cases (next r) = inl (r, refl)
data_cases unknown = inr (inl refl)
data_cases bad = inr (inr refl)

pub read_modifiers-IsAnswered :
    (rd : Reading) (toks : List Bytes) (r : Reads) → IsAnswered r → Keeps (read_modifiers rd toks r)
unfolding read_modifiers
read_modifiers-IsAnswered rd [] r h r' e = Keeps-next r h r' e
read_modifiers-IsAnswered rd (raw ∷ toks) r h r' e = elim (Bool-cases (is_empty (trim raw))) [
  | inl blank ↦ read_modifiers-IsAnswered rd toks r h r' (rw blank at e)
  | inr word ↦
      let kv = key_value (trim raw) in
      elim (data_cases (read_modifier rd kv.0 kv.1 r)) [
        | inl (r'', is) ↦
            read_modifiers-IsAnswered rd toks r'' (read_modifier-IsAnswered rd kv.0 kv.1 r h r'' is)
              r' (rw (word, is, read_modifiers) at e)
        | inr (inl is) ↦ absurd (unknown_next (rw (word, is, read_modifiers) at e))
        | inr (inr is) ↦ absurd (bad_next (rw (word, is, read_modifiers) at e))
      ]
]
  where
    unknown_next : {r : Reads} → unknown ≢ next r
    unknown_next k = cc

    bad_next : {r : Reads} → bad ≢ next r
    bad_next k = cc

and_false : (b : Bool) → b && false ≡ false
and_false true = refl
and_false false = refl

pub adblock_rule-HasAnswer :
    (r : Reads)
    → IsAnswered r
    → HasAnswer r.action (if mods_is_empty r.mods then none else some r.mods)
unfolding mods_is_empty
adblock_rule-HasAnswer r h is =
    let (answer, there_is) = h is in
    (r.mods, answer, rw (answered r.mods answer there_is) refl, there_is)
  where
    answered :
        (m : RuleMods) (answer : RewriteData) → m.rewrite ≡ some answer → mods_is_empty m ≡ false
    answered m answer k = rw (k, mods_is_empty) (and_false _)

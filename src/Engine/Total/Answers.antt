-- ===== src/Engine/Total/Answers.antt =====
-- lib.rs, `filter_answers`: it returns if no check panics.
use bulwark.Common.{◌≡◌, refl, ◌≢◌, Option, none, some, List, [], ◌∷◌}
use bulwark.Common.Bytes.{Bytes, codes}
use bulwark.Net.{IpAddr, v4, v6}
use bulwark.Dns.{SvcParam, ipv4_hint, ipv6_hint, other_param, RData, Record}
use bulwark.Filter.Text.{trim_end_matches}
use bulwark.Filter.Rule.{ClientInfo}
use bulwark.Filter.Engine.{check}
use bulwark.Filter.Engine.Builder.{Verdict, allowed, blocked, rewritten, panic, FilterEngine}
use bulwark.Filter.External.{External}
use bulwark.Clients.{ResolvedClient}
use bulwark.Engine.Answers.{
  client_info, block_of, find_block, param_block, hint_block, record_block, filter_answers,
}

-- A call that returns.
abbrev pub Returns {ℓ} : {A : Type ℓ} → Option A → Type ℓ
Returns {A = A} o = (a : A) × (o ≡ some a)

pub find_block-Returns {ℓ κ} :
    {A : Type ℓ} {B : Type κ} (f : A → Option (Option B)) (xs : List A)
    → ((a : A) → Returns (f a))
    → Returns (find_block f xs)
find_block-Returns f [] h = (none, refl)
find_block-Returns {B = B} f (x ∷ xs) h =
    let (found, is) = h x in by_found found is (find_block-Returns f xs h)
  where
    by_found :
        (found : Option B)
        → f x ≡ some found
        → Returns (find_block f xs)
        → Returns (find_block f (x ∷ xs))
    by_found none is (b, e) = (b, rw (is, find_block) e)
    by_found (some b) is rest = (some b, rw (is, find_block) refl)

block_of-Returns : (v : Verdict) → v ≢ panic → Returns (block_of v)
block_of-Returns (blocked info) h = (some info, refl)
block_of-Returns (allowed info) h = (none, refl)
block_of-Returns (rewritten info answer) h = (none, refl)
block_of-Returns panic h = absurd (h refl)

module _ (x : External) (ip_text : IpAddr → Bytes) (filter : FilterEngine) (client : ResolvedClient)
    (never : (text rtype : Bytes) (c : ClientInfo) → check x filter text rtype c ≢ panic) where
  blocks-Returns :
      (text rtype : Bytes) → Returns (block_of (check x filter text rtype (client_info client)))
  blocks-Returns text rtype = block_of-Returns _ (never text rtype (client_info client))

  param_block-Returns : (p : SvcParam) → Returns (param_block x ip_text filter client p)
  unfolding param_block
  param_block-Returns (ipv4_hint ips) =
      find_block-Returns _ ips (λ i. blocks-Returns (ip_text (v4 i)) (codes "HTTPS"))
  param_block-Returns (ipv6_hint ips) =
      find_block-Returns _ ips (λ i. blocks-Returns (ip_text (v6 i)) (codes "HTTPS"))
  param_block-Returns other_param = (none, refl)

  hint_block-Returns : (ps : List SvcParam) → Returns (hint_block x ip_text filter client ps)
  unfolding hint_block
  hint_block-Returns ps = find_block-Returns _ ps param_block-Returns

  record_block-Returns : (r : RData) → Returns (record_block x ip_text filter client r)
  unfolding record_block
  record_block-Returns (RData.cname name) =
      blocks-Returns (trim_end_matches b'.' name) (codes "CNAME")
  record_block-Returns (RData.a i) = blocks-Returns (ip_text (v4 i)) (codes "A")
  record_block-Returns (RData.aaaa i) = blocks-Returns (ip_text (v6 i)) (codes "AAAA")
  record_block-Returns (RData.https params) = hint_block-Returns params
  record_block-Returns (RData.svcb params) = hint_block-Returns params
  record_block-Returns (RData.ptr name) = (none, refl)
  record_block-Returns (RData.txt text) = (none, refl)
  record_block-Returns (RData.mx preference exchange) = (none, refl)
  record_block-Returns (RData.soa s) = (none, refl)
  record_block-Returns (RData.other bytes) = (none, refl)

  pub filter_answers-Returns :
      (answers : List Record) → Returns (filter_answers x ip_text filter client answers)
  unfolding filter_answers
  filter_answers-Returns answers =
      find_block-Returns _ answers (λ (rec : Record). record_block-Returns rec.rdata)

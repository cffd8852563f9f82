-- ===== src/Cache/Keys.antt =====
-- cache.rs: equality of `QueryKey`s.
use bulwark.Common.{ℕ, ◌≡◌, refl, sym, subst, ◌∙◌, ◌≢◌, Bool, true, false, not, ◌&&◌, ◌==◌, ==_iff}
use bulwark.Common.Bytes.{bytes_eq, bytes_eq_iff}
use bulwark.Cache.Snapshot.{QueryKey}

abbrev pub bool_eq : Bool → Bool → Bool
bool_eq true b = b
bool_eq false b = not b

abbrev pub key_eq : QueryKey → QueryKey → Bool
key_eq k j =
    bytes_eq k.name j.name
    && (k.rtype == j.rtype
        && (k.class == j.class
            && (bool_eq k.dnssec_ok j.dnssec_ok
                && bool_eq k.checking_disabled j.checking_disabled)))

and_both : (a b : Bool) → a && b ≡ true → (a ≡ true) × (b ≡ true)
and_both true b e = (refl, e)
and_both false b e = cc

bool_eq_sound : (a b : Bool) → bool_eq a b ≡ true → a ≡ b
bool_eq_sound true true e = refl
bool_eq_sound true false e = cc
bool_eq_sound false true e = cc
bool_eq_sound false false e = refl

bool_eq_refl : (b : Bool) → bool_eq b b ≡ true
bool_eq_refl true = refl
bool_eq_refl false = refl

nat_eq_refl : (n : ℕ) → n == n ≡ true
nat_eq_refl n = (==_iff n n).1 refl

pub key_eq_refl : (k : QueryKey) → key_eq k k ≡ true
key_eq_refl k = rw ((bytes_eq_iff k.name k.name).1 refl) (
    rw (nat_eq_refl k.rtype)
      (rw (nat_eq_refl k.class) (rw (bool_eq_refl k.dnssec_ok) (bool_eq_refl k.checking_disabled))))

pub key_eq_sound : (k j : QueryKey) → key_eq k j ≡ true → k ≡ j
key_eq_sound k j e =
    let (same_name, e₁) = and_both (bytes_eq k.name j.name) _ e in
    let (same_rtype, e₂) = and_both (k.rtype == j.rtype) _ e₁ in
    let (same_class, e₃) = and_both (k.class == j.class) _ e₂ in
    let (same_do, same_cd) = and_both (bool_eq k.dnssec_ok j.dnssec_ok) _ e₃ in
    let name = (bytes_eq_iff k.name j.name).0 same_name in
    let rtype = (==_iff k.rtype j.rtype).0 same_rtype in
    let class = (==_iff k.class j.class).0 same_class in
    let dnssec_ok = bool_eq_sound k.dnssec_ok j.dnssec_ok same_do in
    let checking_disabled = bool_eq_sound k.checking_disabled j.checking_disabled same_cd in
    λ i. record {
      name = name i;
      rtype = rtype i;
      class = class i;
      dnssec_ok = dnssec_ok i;
      checking_disabled = checking_disabled i;
    }

pub key_eq-false : (k j : QueryKey) → key_eq k j ≡ false → k ≢ j
key_eq-false k j h e = false_true (sym h ∙ subst (λ i. key_eq k i ≡ true) e (key_eq_refl k))
  where
    false_true : false ≢ true
    false_true i = cc

-- ===== src/Clients/Longest.antt =====
-- clients.rs, `build` and `best_match`: hosts by index, and networks by prefix length.
use bulwark.Common.{
  ℕ, ◌+◌, ◌≤◌, ◌<◌, max, ◌≡◌, refl, sym, ap, subst, ◌∙◌, ◌≢◌, ◌⊎◌, inl, inr, true, Option, none,
  some, List, [], ◌∷◌, ◌++◌, arith, ltb, leb, ltb→lt, leb→le, Bool-cases, Option-cases, length, In,
  here, there, length-append, some_injective,
}
use bulwark.Common.Bytes.{Bytes}
use bulwark.Net.{IpAddr, IpNet, ip_eq}
use bulwark.Clients.{
  ClientConfig, ClientEntry, ClientMatcher, AddressText, find_host, or_insert, add_ids, add_client,
  add_clients, build, max_of, widest, better_entry, best_from, best_match,
}

-- Every host points at one of the first `n` entries.
abbrev Below : ℕ → List (IpAddr × ℕ) → Type 0
Below n hosts = (ip : IpAddr) (idx : ℕ) → find_host ip hosts ≡ some idx → idx < n

or_insert-Below :
    (a : IpAddr) (idx n : ℕ) (hosts : List (IpAddr × ℕ))
    → idx < n
    → Below n hosts
    → Below n (or_insert a idx hosts)
unfolding or_insert find_host
or_insert-Below a idx n hosts lt below ip i h = elim (Option-cases (find_host a hosts)) [
  | inr (old, there_is) ↦ below ip i (rw (there_is, or_insert) at h)
  | inl nothing ↦ inserted (rw (nothing, or_insert) at h)
]
  where
    inserted : find_host ip ((a, idx) ∷ hosts) ≡ some i → i < n
    inserted k = elim (Bool-cases (ip_eq a ip)) [
      | inl same ↦ subst (λ j. j < n) (some_injective (rw same at k)) lt
      | inr other ↦ below ip i (rw other at k)
    ]

add_ids-Below :
    (t : AddressText) (idx n : ℕ) (ids : List Bytes) (acc : List (IpAddr × ℕ) × List IpNet)
    → idx < n
    → Below n acc.0
    → Below n (add_ids t idx ids acc).0
unfolding add_ids
add_ids-Below t idx n [] acc lt below = below
add_ids-Below t idx n (id ∷ ids) (hosts, nets) lt below = elim (Option-cases (t.parse_ip id)) [
  | inr (ip, is_ip) ↦
      rw (is_ip, add_ids)
        (add_ids-Below t idx n ids (or_insert ip idx hosts, nets) lt
          (or_insert-Below ip idx n hosts lt below))
  | inl no_ip ↦ elim (Option-cases (t.parse_net id)) [
    | inr (net, is_net) ↦
        rw (no_ip, is_net, add_ids) (add_ids-Below t idx n ids (hosts, nets ++ net ∷ []) lt below)
    | inl no_net ↦ rw (no_ip, no_net, add_ids) (add_ids-Below t idx n ids (hosts, nets) lt below)
  ]
]

add_clients-Below :
    (t : AddressText) (clients : List ClientConfig) (m : ClientMatcher)
    → Below (length m.entries) m.hosts
    → Below (length (add_clients t m clients).entries) (add_clients t m clients).hosts
unfolding add_clients add_client
add_clients-Below t [] m below = below
add_clients-Below t (c ∷ clients) m below =
    let larger : length (add_client t m c).entries ≡ length m.entries + 1 =
      length-append m.entries (_ ∷ []) in
    add_clients-Below t clients (add_client t m c) (
      subst (λ n. Below n (add_client t m c).hosts) (sym larger)
        (add_ids-Below t (length m.entries) (length m.entries + 1) c.ids (m.hosts, []) (omega arith)
          (λ ip idx h. omega (arith, below ip idx h))))

-- Every host of a built matcher is filed under the index of one of its entries, so that the
-- access by that index is in bounds.
pub build-in_range :
    (t : AddressText) (clients : List ClientConfig) (ip : IpAddr) (idx : ℕ)
    → find_host ip (build t clients).hosts ≡ some idx
    → idx < length (build t clients).entries
unfolding build find_host
build-in_range t clients ip idx h =
    add_clients-Below t clients (record { hosts = []; entries = [] }) (λ b i n. cc) ip idx h

module _ (t : AddressText) (ip : IpAddr) where
  best_from-le :
      (entries : List ClientEntry) (b p : ℕ) (old e : ClientEntry)
      → best_from t ip entries (some (b, old)) ≡ some (p, e)
      → b ≤ p
  unfolding best_from better_entry
  best_from-le [] b p old e h = ground (arith, some_injective h)
  best_from-le (c ∷ entries) b p old e h = elim (Option-cases (widest t ip c.nets)) [
    | inl nothing ↦ best_from-le entries b p old e (rw (nothing, best_from, better_entry) at h)
    | inr (n, there_is) ↦ elim (Bool-cases (ltb b n)) [
      | inl wider ↦ omega (
        arith,
        ltb→lt b n wider,
        best_from-le entries n p c e (rw wider at (rw (there_is, best_from, better_entry) at h)),
      )
      | inr narrower ↦
          best_from-le entries b p old e
            (rw narrower at (rw (there_is, best_from, better_entry) at h))
    ]
  ]

  -- A network of the list contains the address, with the given prefix.
  abbrev Holds : ℕ → List IpNet → Type 0
  Holds p nets = (n : IpNet) × In n nets × (t.contains n ip ≡ true) × (n.prefix_len ≡ p)

  widest-Holds : (nets : List IpNet) (p : ℕ) → widest t ip nets ≡ some p → Holds p nets
  unfolding widest
  widest-Holds [] p h = cc
  widest-Holds (n ∷ nets) p h = elim (Bool-cases (t.contains n ip)) [
    | inr outside ↦
        let (m, mm, m_in, m_len) = widest-Holds nets p (rw outside at h) in
        (m, there mm, m_in, m_len)
    | inl inside ↦ elim (Option-cases (widest t ip nets)) [
      | inl nothing ↦ (
        n,
        here refl,
        inside,
        some_injective (ap (λ o. some (max_of n.prefix_len o)) (sym nothing) ∙ rw inside at h),
      )
      | inr (q, there_is) ↦
          let larger : max n.prefix_len q ≡ p =
            some_injective
              (ap (λ o. some (max_of n.prefix_len o)) (sym there_is) ∙ rw inside at h) in
          elim (Bool-cases (leb q n.prefix_len)) [
            | inl first ↦ (n, here refl, inside, omega (arith, leb→le q n.prefix_len first))
            | inr later ↦
                let (m, mm, m_in, m_len) = widest-Holds nets q there_is in
                (m, there mm, m_in, m_len ∙ ground arith)
          ]
    ]
  ]

  widest-some :
      (nets : List IpNet) (n : IpNet)
      → In n nets
      → t.contains n ip ≡ true
      → (p : ℕ) × (widest t ip nets ≡ some p) × (n.prefix_len ≤ p)
  unfolding widest
  widest-some [] n m inside = elim m [ ]
  widest-some (k ∷ nets) n (here e) inside =
      let k_in : t.contains k ip ≡ true = ap (λ j. t.contains j ip) (sym e) ∙ inside in
      (
        max_of k.prefix_len (widest t ip nets),
        rw k_in refl,
        max_of-le n.prefix_len k.prefix_len (widest t ip nets) (ap (λ j. j.prefix_len) e),
      )
    where
      max_of-le : (a b : ℕ) (o : Option ℕ) → a ≡ b → a ≤ max_of b o
      max_of-le a b none h = omega arith
      max_of-le a b (some q) h = omega arith
  widest-some (k ∷ nets) n (there m) inside =
      let (p, h, le) = widest-some nets n m inside in
      elim (Bool-cases (t.contains k ip)) [
        | inl k_in ↦ (max k.prefix_len p, rw (k_in, h) refl, omega (arith, le))
        | inr k_out ↦ (p, rw k_out h, le)
      ]

  best_from-bound :
      (entries : List ClientEntry) (best : Option (ℕ × ClientEntry)) (p n : ℕ) (e c : ClientEntry)
      → best_from t ip entries best ≡ some (p, e)
      → In c entries
      → widest t ip c.nets ≡ some n
      → n ≤ p
  unfolding best_from better_entry
  best_from-bound [] best p n e c h m is = elim m [ ]
  best_from-bound (k ∷ entries) best p n e c h (there m) is =
      best_from-bound entries (better_entry (widest t ip k.nets) k best) p n e c h m is
  best_from-bound (k ∷ entries) best p n e c h (here same) is =
      let k_is : widest t ip k.nets ≡ some n = ap (λ j. widest t ip j.nets) (sym same) ∙ is in
      with_best best (rw (k_is, best_from) at h)
    where
      with_best :
          (o : Option (ℕ × ClientEntry))
          → best_from t ip entries (better_entry (some n) k o) ≡ some (p, e)
          → n ≤ p
      with_best none g = best_from-le entries n p k e g
      with_best (some (b, old)) g = elim (Bool-cases (ltb b n)) [
        | inl wider ↦ best_from-le entries n p k e (rw (wider, better_entry) at g)
        | inr narrower ↦
            let kept = best_from-le entries b p old e (rw (narrower, better_entry) at g) in
            ground (arith, kept)
      ]

  chosen :
      (k e : ClientEntry) (n p : ℕ) (entries : List ClientEntry)
      → widest t ip k.nets ≡ some n
      → ◌≡◌ {A = Option (ℕ × ClientEntry)} (some (n, k)) (some (p, e))
      → In e (k ∷ entries) × (widest t ip e.nets ≡ some p)
  chosen k e n p entries is eq =
      let pair = some_injective eq in
      let same : k ≡ e = ap (λ (x : ℕ × ClientEntry). x.1) pair in
      (
        here (sym same),
        ap (λ j. widest t ip j.nets) (sym same) ∙ is ∙ ap (λ (x : ℕ × ClientEntry). some x.0) pair,
      )

  better_entry-from :
      (k e : ClientEntry) (p : ℕ) (entries : List ClientEntry) (w : Option ℕ)
      (o : Option (ℕ × ClientEntry))
      → widest t ip k.nets ≡ w
      → better_entry w k o ≡ some (p, e)
      → (o ≡ some (p, e)) ⊎ (In e (k ∷ entries) × (widest t ip e.nets ≡ some p))
  unfolding better_entry
  better_entry-from k e p entries none o is g = inl g
  better_entry-from k e p entries (some n) none is g = inr (chosen k e n p entries is g)
  better_entry-from k e p entries (some n) (some (b, old)) is g = elim (Bool-cases (ltb b n)) [
    | inl wider ↦ inr (chosen k e n p entries is (rw (wider, better_entry) at g))
    | inr narrower ↦ inl (rw (narrower, better_entry) at g)
  ]

  best_from-from :
      (entries : List ClientEntry) (best : Option (ℕ × ClientEntry)) (p : ℕ) (e : ClientEntry)
      → best_from t ip entries best ≡ some (p, e)
      → (best ≡ some (p, e)) ⊎ (In e entries × (widest t ip e.nets ≡ some p))
  unfolding best_from
  best_from-from [] best p e h = inl h
  best_from-from (k ∷ entries) best p e h =
      elim (best_from-from entries (better_entry (widest t ip k.nets) k best) p e h) [
        | inr (m, is) ↦ inr (there m, is)
        | inl now ↦ better_entry-from k e p entries (widest t ip k.nets) best refl now
      ]

  -- The entry found has a network around the address, and no entry has a narrower one.
  pub record Longest (m : ClientMatcher) (e : ClientEntry) : Type 0 where
    pub net : IpNet
    pub net_in : In net e.nets
    pub inside : t.contains net ip ≡ true
    pub configured : In e m.entries
    pub longest :
        (c : ClientEntry) (n : IpNet)
        → In c m.entries
        → In n c.nets
        → t.contains n ip ≡ true
        → n.prefix_len ≤ net.prefix_len

  -- If the address is no configured host and an entry is found, the entry is a configured one
  -- with a network that contains the address, and no network of any entry that contains the
  -- address has a longer prefix.
  pub best_match-Longest :
      (m : ClientMatcher) (e : ClientEntry)
      → find_host ip m.hosts ≡ none
      → best_match t m ip ≡ some e
      → Longest m e
  unfolding best_match
  best_match-Longest m e no_host h = elim (Option-cases (best_from t ip m.entries none)) [
    | inl nothing ↦ absurd (none_some (rw nothing at (rw (no_host, best_match) at h)))
    | inr ((p, c), there_is) ↦
        let same : c ≡ e = some_injective (rw there_is at (rw (no_host, best_match) at h)) in
        subst (Longest m) same (elim (best_from-from m.entries none p c there_is) [
          | inl before ↦ absurd (none_pair before)
          | inr (mc, is) ↦
              let (n, mn, n_in, n_len) = widest-Holds c.nets p is in
              record {
                net = n;
                net_in = mn;
                inside = n_in;
                configured = mc;
                longest = λ d k md mk k_in.
                    let (q, q_is, le) = widest-some d.nets k mk k_in in
                    omega
                      (arith, n_len, le, best_from-bound m.entries none p q c d there_is md q_is);
              }
        ])
  ]
    where
      none_some : none ≢ some e
      none_some g = cc

      none_pair : {x : ℕ × ClientEntry} → none ≢ some x
      none_pair g = cc

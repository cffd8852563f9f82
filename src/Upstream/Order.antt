-- ===== src/Upstream/Order.antt =====
-- pool.rs, `UpstreamPool::ordered`: the order in which upstreams are tried.
use bulwark.Common.{
  ℕ, suc, ◌+◌, ◌≡◌, refl, sym, ap, ◌∙◌, ◌≢◌, ◌⊎◌, inl, inr, Bool, true, false, Option, none, some,
  List, [], ◌∷◌, arith, ◌==◌, if◌then◌else◌, Bool-cases, Option-cases, >>=-eq-some, In, here, there,
  some_injective,
}
use bulwark.Upstream.Health.{F64, Health, routing_latency_if_eligible}
use bulwark.Upstream.Pool.{
  Upstream, UpstreamPool, bool_then, key_leb, sort_key, insert_by_key, sort_by_key, take_out,
  hold_leader, holds, set_ranks, ordered,
}

-- How often an upstream stands in a list, by its slot.
abbrev pub times : {F : Type 0} → ℕ → List (Upstream F) → ℕ
times n [] = 0
times n (u ∷ us) = (if u.slot == n then 1 else 0) + times n us

module _ (f : F64) where
  times-insert_by_key :
      (n : ℕ) (u : Upstream f.carrier) (vs : List (Upstream f.carrier))
      → times n (insert_by_key f u vs) ≡ times n (u ∷ vs)
  unfolding insert_by_key
  times-insert_by_key n u [] = refl
  times-insert_by_key n u (v ∷ vs) =
      elim (Bool-cases (key_leb (sort_key f u.health) (sort_key f v.health))) [
        | inl front ↦ rw front refl
        | inr behind ↦ rw behind (omega (arith, times-insert_by_key n u vs))
      ]

  times-sort_by_key :
      (n : ℕ) (us : List (Upstream f.carrier)) → times n (sort_by_key f us) ≡ times n us
  unfolding sort_by_key
  times-sort_by_key n [] = refl
  times-sort_by_key n (u ∷ us) =
      times-insert_by_key n u (sort_by_key f us)
      ∙ ap (λ m. (if u.slot == n then 1 else 0) + m) (times-sort_by_key n us)

  none-some : {p : Upstream f.carrier × List (Upstream f.carrier)} → none ≢ some p
  none-some e = cc

  times-take_out :
      (n slot : ℕ) (us : List (Upstream f.carrier)) (held : Upstream f.carrier)
      (rest : List (Upstream f.carrier))
      → take_out f slot us ≡ some (held, rest)
      → times n (held ∷ rest) ≡ times n us
  unfolding take_out
  times-take_out n slot [] held rest h = cc
  times-take_out n slot (u ∷ us) held rest h = elim (Bool-cases (u.slot == slot)) [
    | inl found ↦ ap (λ p. times n (p.0 ∷ p.1)) (sym (some_injective (rw found at h)))
    | inr other ↦
        let ((g, gs), later, is) = >>=-eq-some (take_out f slot us) _ (rw other at h) in
        ap (λ p. times n (p.0 ∷ p.1)) (sym (some_injective is))
        ∙ omega (arith, times-take_out n slot us g gs later)
  ]

  times-set_ranks :
      (n i : ℕ) (held : Bool) (us : List (Upstream f.carrier))
      → times n (set_ranks f i held us) ≡ times n us
  unfolding set_ranks
  times-set_ranks n i held [] = refl
  times-set_ranks n i held (u ∷ us) =
      ap (λ m. (if u.slot == n then 1 else 0) + m) (times-set_ranks n (suc i) held us)

  -- What `hold_leader` leaves: the list, or the leader in front of the others.
  data Held (v : List (Upstream f.carrier)) : List (Upstream f.carrier) → Type 0 where
    as_is : Held v v
    led :
        (best held : Upstream f.carrier) (later rest : List (Upstream f.carrier)) (cur : ℕ)
        → v ≡ best ∷ later
        → take_out f cur later ≡ some (held, rest)
        → holds f
            (routing_latency_if_eligible f held.health)
            (routing_latency_if_eligible f best.health)
          ≡ true
        → Held v (held ∷ best ∷ rest)

  hold_leader-Held :
      (leader : Option ℕ) (v : List (Upstream f.carrier)) → Held v (hold_leader f leader v).0
  unfolding hold_leader
  hold_leader-Held none v = as_is
  hold_leader-Held (some cur) [] = as_is
  hold_leader-Held (some cur) (best ∷ v) = elim (Bool-cases (best.slot == cur)) [
    | inl same ↦ rw (same, hold_leader) as_is
    | inr other ↦ elim (Option-cases (take_out f cur v)) [
      | inl gone ↦ rw (other, gone, hold_leader) as_is
      | inr ((held, rest), is) ↦
          elim (Bool-cases (
            holds f (routing_latency_if_eligible f held.health)
              (routing_latency_if_eligible f best.health))) [
                | inl keeps ↦
                    rw (other, is, keeps, hold_leader) (led best held v rest cur refl is keeps)
                | inr drops ↦ rw (other, is, drops, hold_leader) as_is
              ]
    ]
  ]

  times-Held : (n : ℕ) (v w : List (Upstream f.carrier)) → Held v w → times n w ≡ times n v
  times-Held n v _ as_is = refl
  times-Held n v _ (led best held later rest cur is out keeps) =
      rw is (omega (arith, times-take_out n cur later held rest out))

  -- The order in which upstreams are tried holds each upstream as often as the pool does: none is
  -- left out and none comes twice because of the held leader.
  pub times-ordered :
      (pool : UpstreamPool f.carrier) (n : ℕ) → times n (ordered f pool).0 ≡ times n pool.upstreams
  unfolding ordered
  times-ordered pool n =
      let v = sort_by_key f pool.upstreams in
      let held = hold_leader f pool.current_leader v in
      times-set_ranks n 0 held.1 held.0
      ∙ times-Held n v held.0 (hold_leader-Held pool.current_leader v)
      ∙ times-sort_by_key n pool.upstreams

  abbrev pub AnyUp : List (Upstream f.carrier) → Type 0
  AnyUp us = (u : Upstream f.carrier) × In u us × (u.health.up ≡ true)

  -- The first of a list is up.
  abbrev pub UpFirst : List (Upstream f.carrier) → Type 0
  UpFirst [] = ⊥
  UpFirst (u ∷ us) = u.health.up ≡ true

  key_leb-down :
      (a b : Health f.carrier)
      → a.up ≡ false
      → b.up ≡ true
      → key_leb (sort_key f a) (sort_key f b) ≡ false
  unfolding key_leb sort_key bool_then
  key_leb-down a b down up = rw (down, up, key_leb) refl

  key_leb-up :
      (a b : Health f.carrier)
      → a.up ≡ true
      → b.up ≡ false
      → key_leb (sort_key f a) (sort_key f b) ≡ true
  unfolding key_leb sort_key bool_then
  key_leb-up a b up down = rw (up, down, key_leb) refl

  true-false : true ≢ false
  true-false e = cc

  insert_by_key-UpFirst :
      (u : Upstream f.carrier) (vs : List (Upstream f.carrier))
      → (u.health.up ≡ true) ⊎ UpFirst vs
      → UpFirst (insert_by_key f u vs)
  unfolding insert_by_key
  insert_by_key-UpFirst u [] h = elim h [ inl up ↦ up | inr none_there ↦ absurd none_there ]
  insert_by_key-UpFirst u (v ∷ vs) h =
      elim (Bool-cases (key_leb (sort_key f u.health) (sort_key f v.health))) [
        | inl front ↦
            rw (front, insert_by_key)
              (elim (Bool-cases u.health.up) [
                | inl up ↦ up
                | inr down ↦ elim h [
                  | inl up ↦ up
                  | inr v_up ↦
                      absurd (true-false (sym front ∙ key_leb-down u.health v.health down v_up))
                ]
              ])
        | inr behind ↦
            rw (behind, insert_by_key)
              (elim (Bool-cases v.health.up) [
                | inl up ↦ up
                | inr down ↦ elim h [
                  | inl u_up ↦
                      absurd (true-false (sym (key_leb-up u.health v.health u_up down) ∙ behind))
                  | inr up ↦ up
                ]
              ])
      ]

  sort_by_key-UpFirst : (us : List (Upstream f.carrier)) → AnyUp us → UpFirst (sort_by_key f us)
  unfolding sort_by_key
  sort_by_key-UpFirst [] (u, m, up) = elim m [ ]
  sort_by_key-UpFirst (v ∷ us) (u, here e, up) =
      insert_by_key-UpFirst v (sort_by_key f us)
        (inl (ap (λ (w : Upstream f.carrier). w.health.up) (sym e) ∙ up))
  sort_by_key-UpFirst (v ∷ us) (u, there m, up) =
      insert_by_key-UpFirst v (sort_by_key f us) (inr (sort_by_key-UpFirst us (u, m, up)))

  eligible_up :
      (h : Health f.carrier) (best : Option f.carrier)
      → holds f (routing_latency_if_eligible f h) best ≡ true
      → h.up ≡ true
  unfolding routing_latency_if_eligible
  eligible_up h best e = elim (Bool-cases h.up) [
    | inl up ↦ up
    | inr down ↦ absurd (false_true (none_holds best (rw (down, routing_latency_if_eligible) at e)))
  ]
    where
      false_true : false ≢ true
      false_true k = cc

      none_holds : (b : Option f.carrier) → holds f none b ≡ true → false ≡ true
      none_holds none k = k
      none_holds (some c) k = k

  Held-UpFirst : (v w : List (Upstream f.carrier)) → Held v w → UpFirst v → UpFirst w
  Held-UpFirst v _ as_is h = h
  Held-UpFirst v _ (led best held later rest cur is out keeps) h =
      eligible_up held.health (routing_latency_if_eligible f best.health) keeps

  set_ranks-UpFirst :
      (i : ℕ) (held : Bool) (us : List (Upstream f.carrier))
      → UpFirst us
      → UpFirst (set_ranks f i held us)
  unfolding set_ranks
  set_ranks-UpFirst i held [] h = h
  set_ranks-UpFirst i held (u ∷ us) h = h

  -- If any upstream of the pool is up, the first one tried is up: the held leader too is in front
  -- only if it is.
  pub ordered-UpFirst :
      (pool : UpstreamPool f.carrier) → AnyUp pool.upstreams → UpFirst (ordered f pool).0
  unfolding ordered
  ordered-UpFirst pool h =
      let v = sort_by_key f pool.upstreams in
      let held = hold_leader f pool.current_leader v in
      set_ranks-UpFirst 0 held.1 held.0 (
        Held-UpFirst v held.0 (hold_leader-Held pool.current_leader v)
          (sort_by_key-UpFirst pool.upstreams h))

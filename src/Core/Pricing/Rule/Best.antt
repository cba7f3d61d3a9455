-- ===== src/Core/Pricing/Rule/Best.antt =====
-- That `best_model_price` finds the rule that fits best.
use mathlib.Core.Path.{subst}
use mathlib.Core.List.{Memᴰ}
use hsin_rs.Prelude.{
  ◌≤◌, true, false, Option, none, some, List, [], ◌∷◌, Text, All, ◌≡◌, ◌⊎◌, inl, inr, refl, sym,
  arith, Bool-cases, Option-cases,
}
use hsin_rs.Core.Pricing.Rule.{
  ModelPrice, Rank, specificity, rank_lt, consider, best_from, best_model_price,
}

abbrev ◌≼◌ : Rank → Rank → Type 0
a ≼ b = rank_lt b a ≡ false

infix 50 ◌≼◌
≼_refl : (a : Rank) → a ≼ a
unfolding rank_lt
≼_refl a = ground arith

≼_trans : (a b c : Rank) → a ≼ b → b ≼ c → a ≼ c
unfolding rank_lt
≼_trans a b c h k = ground arith

≼_of_lt : (a b : Rank) → rank_lt a b ≡ true → a ≼ b
unfolding rank_lt
≼_of_lt a b h = ground arith

-- A rule of rank `q` is preferred to one of rank `r`: by its scope, then by its source, then by
-- the length that it matches.
abbrev pub Preferred : Rank → Rank → Type 0
Preferred r q =
    (r.scoped ≤ q.scoped)
    × (r.scoped ≡ q.scoped → r.source ≤ q.source)
    × (r.scoped ≡ q.scoped → r.source ≡ q.source → r.length ≤ q.length)

preferred : (r q : Rank) → r ≼ q → Preferred r q
unfolding rank_lt
preferred r q h = (ground arith, λ e. ground arith, λ e f. ground arith)

All_at : {A : Type 0} (P : A → Type 0) (xs : List A) {y : A} → All P xs → Memᴰ y xs → P y
All_at P [] h m = elim m [ ]
All_at P (x ∷ xs) h (Memᴰ.head e) = subst P (sym e) h.0
All_at P (x ∷ xs) h (Memᴰ.tail m) = All_at P xs h.1 m

module _ {F : Type 0} (provider : Option Text) (model : Text) where
  -- The rule `p`, where it applies, fits no better than `q`.
  abbrev AtMost : Rank → ModelPrice F → Type 0
  AtMost q p = (r : Rank) → specificity p provider model ≡ some r → r ≼ q

  -- What `best_from` returns, from what it starts with.
  record IsBest (start : Option (Rank × ModelPrice F)) (prices : List (ModelPrice F)) (q : Rank)
      (x : ModelPrice F) : Type 0 where
    from : (start ≡ some (q, x)) ⊎ (Memᴰ x prices × (specificity x provider model ≡ some q))
    over_start : (r : Rank) (y : ModelPrice F) → start ≡ some (r, y) → r ≼ q
    over_all : All (AtMost q) prices

  later :
      {start : Option (Rank × ModelPrice F)} {p : ModelPrice F} {prices : List (ModelPrice F)}
      {q : Rank} {x : ModelPrice F}
      → Memᴰ x prices × (specificity x provider model ≡ some q)
      → (start ≡ some (q, x)) ⊎ (Memᴰ x (p ∷ prices) × (specificity x provider model ≡ some q))
  later m = inr (Memᴰ.tail m.0, m.1)

  now :
      (p : ModelPrice F) (prices : List (ModelPrice F)) (r q : Rank) (x : ModelPrice F)
      → specificity p provider model ≡ some r
      → ◌≡◌ {A = Option (Rank × ModelPrice F)} (some (r, p)) (some (q, x))
      → Memᴰ x (p ∷ prices) × (specificity x provider model ≡ some q)
  now p prices r q x hp e =
      let px : p ≡ x = cc in let rq : r ≡ q = cc in (Memᴰ.head (sym px), rw (← px, ← rq) hp)

  same_rank :
      (p : ModelPrice F) (r q : Rank) → specificity p provider model ≡ some r → r ≼ q → AtMost q p
  same_rank p r q hp h r' e = let rr : r ≡ r' = cc in rw (← rr) h

  step :
      (start : Option (Rank × ModelPrice F)) (o : Option Rank) (p : ModelPrice F)
      (prices : List (ModelPrice F)) {q : Rank} {x : ModelPrice F}
      → specificity p provider model ≡ o
      → IsBest (consider start o p) prices q x
      → IsBest start (p ∷ prices) q x
  step start none p prices hp ih = record {
    from = elim ih.from [ inl e ↦ inl e | inr m ↦ later m ];
    over_start = ih.over_start;
    over_all = (λ r e. cc, ih.over_all);
  }
  step none (some r) p prices {q} {x} hp ih = record {
    from = elim ih.from [ inl e ↦ inr (now p prices r q x hp e) | inr m ↦ later m ];
    over_start = λ s y e. cc;
    over_all = (same_rank p r q hp (ih.over_start r p refl), ih.over_all);
  }
  step (some (s, y)) (some r) p prices {q} {x} hp ih = elim (Bool-cases (rank_lt r s)) [
    | inl e ↦
        let kept : IsBest (some (s, y)) prices q x = rw e at ih in
        let top = kept.over_start s y refl in
        record {
          from = elim kept.from [ inl k ↦ inl k | inr m ↦ later m ];
          over_start = kept.over_start;
          over_all = (same_rank p r q hp (≼_trans r s q (≼_of_lt r s e) top), kept.over_all);
        }
    | inr e ↦
        let new : IsBest (some (r, p)) prices q x = rw e at ih in
        let top = new.over_start r p refl in
        record {
          from = elim new.from [ inl k ↦ inr (now p prices r q x hp k) | inr m ↦ later m ];
          over_start = λ s' y' k. let ss : s ≡ s' = cc in rw (← ss) (≼_trans s r q e top);
          over_all = (same_rank p r q hp top, new.over_all);
        }
  ]

  best_from-IsBest :
      (start : Option (Rank × ModelPrice F)) (prices : List (ModelPrice F)) {q : Rank}
      {x : ModelPrice F}
      → best_from start prices provider model ≡ some (q, x)
      → IsBest start prices q x
  unfolding best_from
  best_from-IsBest start [] {q} {x} h = record {
    from = inl h;
    over_start = λ r y e. let rq : r ≡ q = cc in rw rq (≼_refl q);
    over_all = tt;
  }
  best_from-IsBest start (p ∷ prices) h =
      step start (specificity p provider model) p prices refl
        (best_from-IsBest (consider start (specificity p provider model) p) prices h)

  consider-none :
      (start : Option (Rank × ModelPrice F)) (o : Option Rank) (p : ModelPrice F)
      → consider start o p ≡ none
      → (start ≡ none) × (o ≡ none)
  consider-none start none p h = (h, refl)
  consider-none none (some r) p h = cc
  consider-none (some (s, y)) (some r) p h = ground arith

  best_from-none :
      (start : Option (Rank × ModelPrice F)) (prices : List (ModelPrice F))
      → best_from start prices provider model ≡ none
      → (start ≡ none) × All (λ p. specificity p provider model ≡ none) prices
  unfolding best_from
  best_from-none start [] h = (h, tt)
  best_from-none start (p ∷ prices) h =
      let (c, rest) = best_from-none (consider start (specificity p provider model) p) prices h in
      let (s, o) = consider-none start (specificity p provider model) p c in (s, (o, rest))

  -- If some rule of the list applies to the provider and the model, the result is a rule of the
  -- list that applies, and no rule that applies is preferred to it: its scope is no wider, then its
  -- source no weaker, then its match no shorter.
  pub best_model_price-Preferred :
      (prices : List (ModelPrice F)) (y : ModelPrice F) {r : Rank}
      → Memᴰ y prices
      → specificity y provider model ≡ some r
      → (x : ModelPrice F) × (q : Rank) × (best_model_price prices provider model ≡ some x)
        × Memᴰ x prices
        × (specificity x provider model ≡ some q)
        × Preferred r q
  unfolding best_model_price
  best_model_price-Preferred prices y {r} m h =
      elim (Option-cases (best_from none prices provider model)) [
        | inl e ↦ absurd (clash (All_at _ prices (best_from-none none prices e).1 m))
        | inr e ↦ found e.0.0 e.0.1 e.1
      ]
    where
      clash : specificity y provider model ≡ none → ⊥
      clash k = cc

      none_some : {A : Type 0} {a : A} → none ≡ some a → ⊥
      none_some k = cc

      found :
          (q : Rank) (x : ModelPrice F)
          → best_from none prices provider model ≡ some (q, x)
          → (x : ModelPrice F) × (q : Rank) × (best_model_price prices provider model ≡ some x)
            × Memᴰ x prices
            × (specificity x provider model ≡ some q)
            × Preferred r q
      found q x e =
          let best = best_from-IsBest none prices e in
          let applies : Memᴰ x prices × (specificity x provider model ≡ some q) = elim best.from [
            | inl k ↦ absurd (none_some k)
            | inr k ↦ k
          ] in
          (
            x,
            q,
            rw e,
            applies.0,
            applies.1,
            preferred r q (All_at (AtMost q) prices best.over_all m r h),
          )

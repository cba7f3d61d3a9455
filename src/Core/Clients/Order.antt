-- ===== src/Core/Clients/Order.antt =====
-- What valid client settings give: a display order that shows every visible client once.
use mathlib.Core.List.{Perm, Permᴰ}
use mathlib.Core.List.Perm
use hsin_rs.Prelude.{
  ◌<◌, ◌≡◌, ◌⊎◌, inl, inr, refl, List, [], ◌∷◌, Bool, true, false, leb, arith, ◌&&◌, ◌==◌, all_of,
  length, is_nil, keep,
}
use hsin_rs.Core.Enums.{ClientKind, codex, claude}
use hsin_rs.Core.Clients.Settings.{
  ClientSettings, is_valid, visible_in_order, count_client, contains_client,
}

order_forms :
    (o : List ClientKind)
    → (length o == 2) ≡ true
    → (count_client codex o == 1) ≡ true
    → (o ≡ codex ∷ claude ∷ []) ⊎ (o ≡ claude ∷ codex ∷ [])
order_forms [] h k = cc
order_forms (x ∷ []) h k = cc
order_forms (codex ∷ codex ∷ []) h k = cc
order_forms (codex ∷ claude ∷ []) h k = inl refl
order_forms (claude ∷ codex ∷ []) h k = inr refl
order_forms (claude ∷ claude ∷ []) h k = cc
order_forms (x ∷ y ∷ z ∷ o) h k = absurd (ground arith)

-- Valid settings list both clients, in either order.
pub order_cases :
    (s : ClientSettings)
    → is_valid s ≡ true
    → (s.order ≡ codex ∷ claude ∷ []) ⊎ (s.order ≡ claude ∷ codex ∷ [])
unfolding is_valid
order_cases s h = order_forms s.order (ground arith) (ground arith)

abbrev Visible : List ClientKind → Type 0
Visible v =
    (v ≡ codex ∷ []) ⊎ (v ≡ claude ∷ []) ⊎ (v ≡ codex ∷ claude ∷ []) ⊎ (v ≡ claude ∷ codex ∷ [])

Visible-forms :
    (v : List ClientKind)
    → is_nil v ≡ false
    → leb (length v) 2 ≡ true
    → all_of (λ client. count_client client v == 1) v ≡ true
    → Visible v
Visible-forms [] h k c = cc
Visible-forms (codex ∷ []) h k c = inl refl
Visible-forms (claude ∷ []) h k c = inr (inl refl)
Visible-forms (codex ∷ codex ∷ []) h k c = cc
Visible-forms (codex ∷ claude ∷ []) h k c = inr (inr (inl refl))
Visible-forms (claude ∷ codex ∷ []) h k c = inr (inr (inr refl))
Visible-forms (claude ∷ claude ∷ []) h k c = cc
Visible-forms (x ∷ y ∷ z ∷ v) h k c = absurd (ground arith)

all_of_right :
    (p q : ClientKind → Bool) (v : List ClientKind)
    → all_of (λ c. p c && q c) v ≡ true
    → all_of q v ≡ true
all_of_right p q [] h = refl
all_of_right p q (x ∷ v) h = ground (arith, all_of_right p q v)

visible_cases : (s : ClientSettings) → is_valid s ≡ true → Visible s.visible
unfolding is_valid
visible_cases s h = Visible-forms s.visible (ground arith) (ground arith) (
    all_of_right (contains_client s.order) (λ client. count_client client s.visible == 1) s.visible
      (ground arith))

shown_perm :
    (o v : List ClientKind)
    → (o ≡ codex ∷ claude ∷ []) ⊎ (o ≡ claude ∷ codex ∷ [])
    → Visible v
    → Perm (keep (λ client. contains_client v client) o) v
shown_perm o v (inl a) (inl b) = rw (a, b) (Perm.refl _)
shown_perm o v (inl a) (inr (inl b)) = rw (a, b) (Perm.refl _)
shown_perm o v (inl a) (inr (inr (inl b))) = rw (a, b) (Perm.refl _)
shown_perm o v (inl a) (inr (inr (inr b))) = rw (a, b) (∣ Permᴰ.swap refl refl ∣₁)
shown_perm o v (inr a) (inl b) = rw (a, b) (Perm.refl _)
shown_perm o v (inr a) (inr (inl b)) = rw (a, b) (Perm.refl _)
shown_perm o v (inr a) (inr (inr (inl b))) = rw (a, b) (∣ Permᴰ.swap refl refl ∣₁)
shown_perm o v (inr a) (inr (inr (inr b))) = rw (a, b) (Perm.refl _)

shown_pos :
    (o v : List ClientKind)
    → (o ≡ codex ∷ claude ∷ []) ⊎ (o ≡ claude ∷ codex ∷ [])
    → Visible v
    → 0 < length (keep (λ client. contains_client v client) o)
shown_pos o v a b = ground arith

-- With valid settings, the clients shown are the visible ones, each as often, in some order, and
-- there is at least one.
pub visible_in_order-perm :
    (s : ClientSettings)
    → is_valid s ≡ true
    → Perm (visible_in_order s) s.visible × (0 < length (visible_in_order s))
unfolding visible_in_order
visible_in_order-perm s h =
    let o = order_cases s h in
    let v = visible_cases s h in (shown_perm s.order s.visible o v, shown_pos s.order s.visible o v)

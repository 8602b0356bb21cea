-- ===== src/Cards/Kept.antt =====
-- What every method of apps/api/src/cards/cards.service.ts keeps of the cards.
use tenzopay.Base.{
  String, str_eq, str_eq_iff, Option, none, some, false, Bool-cases, inl, inr, List, [], ◌∷◌, All,
  ◌≡◌, ◌≢◌, refl, sym, ap, subst, ◌∙◌,
}
use tenzopay.Actions.{IsPreorder}
use tenzopay.Asa.State.{closed}
use tenzopay.Cards.State.{Card, Deck, find_card, update_card, with_cards}
use tenzopay.Cards.Control.{exceeds}

-- The same card of the same user at the issuer, and nothing else changes once it is closed.
pub record Kept (c d : Card) : Type 0 where
  pub id : d.id ≡ c.id
  pub user_id : d.user_id ≡ c.user_id
  pub token : d.provider_card_token ≡ c.provider_card_token
  pub final : c.status ≡ closed → d ≡ c

Kept-refl : (c : Card) → Kept c c
Kept-refl c = record { id = refl; user_id = refl; token = refl; final = λ h. refl }

Kept-trans : (c d e : Card) → Kept c d → Kept d e → Kept c e
Kept-trans c d e p q = record {
  id = q.id ∙ p.id;
  user_id = q.user_id ∙ p.user_id;
  token = q.token ∙ p.token;
  final = λ h. let same = p.final h in q.final (ap (λ (x : Card). x.status) same ∙ h) ∙ same;
}

-- A daily limit is no greater than the monthly one.
abbrev pub IsLimited : Card → Type 0
IsLimited c = exceeds c.daily c.monthly ≡ false

-- Every card is still there and kept, and the limits of all stay in order.
pub record IsStep (s t : Deck) : Type 0 where
  pub cards :
      (id : String) (c : Card)
      → find_card id s.cards ≡ some c
      → (d : Card) × (find_card id t.cards ≡ some d) × Kept c d
  pub limited : All IsLimited s.cards → All IsLimited t.cards

pub same_cards : {s t : Deck} → t.cards ≡ s.cards → IsStep s t
same_cards e = record {
  cards = λ id c h. (c, ap (find_card id) e ∙ h, Kept-refl c);
  limited = λ v. subst (All IsLimited) (sym e) v;
}

instance pub IsStep-IsPreorder : IsPreorder IsStep
IsStep-IsPreorder = record {
  same = λ s. same_cards refl;
  chain = λ s t u p q. record {
    cards = λ id c h.
        let (d, g, x) = p.cards id c h in
        let (e, k, y) = q.cards id d g in (e, k, Kept-trans c d e x y);
    limited = λ v. q.limited (p.limited v);
  };
}

some_card : {c d : Card} → some c ≡ some d → c ≡ d
some_card h = cc (h)

module _ (id : String) (f : Card → Card) where
  update-find :
      (cs : List Card) (whom : String) (c x : Card)
      → find_card id cs ≡ some c
      → Kept c (f c)
      → find_card whom cs ≡ some x
      → (d : Card) × (find_card whom (update_card id f cs) ≡ some d) × Kept x d
  unfolding find_card update_card
  update-find [] whom c x h k g = cc (h)
  update-find (y ∷ cs) whom c x h k g = elim (Bool-cases (str_eq y.id id)) [
    | inl same ↦
        let a : some y ≡ some c = rw same at h in
        let m : Kept y (f y) = subst (λ z. Kept z (f z)) (sym (some_card a)) k in
        let n : str_eq (f y).id whom ≡ str_eq y.id whom = ap (λ z. str_eq z whom) m.id in
        elim (Bool-cases (str_eq y.id whom)) [
          | inl here ↦
              let b : some y ≡ some x = rw here at g in
              rw (same, n, here) (f y, refl, subst (λ z. Kept z (f y)) (some_card b) m)
          | inr there ↦ rw (same, n, there) (x, rw there at g, Kept-refl x)
        ]
    | inr apart ↦ elim (Bool-cases (str_eq y.id whom)) [
      | inl here ↦
          let b : some y ≡ some x = rw here at g in
          rw (apart, here) (y, refl, subst (λ z. Kept z y) (some_card b) (Kept-refl y))
      | inr there ↦ rw (apart, there) (update-find cs whom c x (rw apart at h) k (rw there at g))
    ]
  ]

  update-limited :
      (cs : List Card) (c : Card)
      → find_card id cs ≡ some c
      → (IsLimited c → IsLimited (f c))
      → All IsLimited cs
      → All IsLimited (update_card id f cs)
  unfolding find_card update_card
  update-limited [] c h k v = tt
  update-limited (y ∷ cs) c h k v = elim (Bool-cases (str_eq y.id id)) [
    | inl same ↦
        let a : some y ≡ some c = rw same at h in
        rw same (subst (λ z. IsLimited z → IsLimited (f z)) (sym (some_card a)) k v.0, v.1)
    | inr apart ↦ rw apart (v.0, update-limited cs c (rw apart at h) k v.1)
  ]

pub update-IsStep :
    (id : String) (f : Card → Card) (c : Card) (s : Deck)
    → find_card id s.cards ≡ some c
    → Kept c (f c)
    → (IsLimited c → IsLimited (f c))
    → IsStep s (with_cards (update_card id f) s)
update-IsStep id f c s h k m = record {
  cards = λ whom x g. update-find id f s.cards whom c x h k g;
  limited = update-limited id f s.cards c h m;
}

taken : (o : Option Card) (c : Card) → o ≡ none → o ≢ some c
taken o c h e = cc (h, e)

-- A new row with a fresh id.
pub new_card-IsStep :
    (row : Card) (s : Deck)
    → find_card row.id s.cards ≡ none
    → IsLimited row
    → IsStep s (record s { cards = row ∷ s.cards })
unfolding find_card
new_card-IsStep row s fresh m = record {
  cards = λ id c h. elim (Bool-cases (str_eq row.id id)) [
    | inl same ↦
        let p : row.id ≡ id = (str_eq_iff row.id id).0 same in
        absurd (taken _ c fresh (ap (λ k. find_card k s.cards) p ∙ h))
    | inr apart ↦ (c, rw apart h, Kept-refl c)
  ];
  limited = λ v. (m, v);
}

-- ===== src/Cards/Upserted.antt =====
-- The row of a new card (`create` of apps/api/src/cards/cards.service.ts), and the ceiling of open cards.
use tenzopay.Base.{
  ℕ, suc, ℤ, pos, ltb_ℤ, leb_ℤ, Option, none, some, Bool, false, ◌&&◌, ◌∷◌, ◌≡◌, refl, sym, ap, ◌∙◌,
  arith,
}
use tenzopay.Effects.{Thrown, Result, ok, err}
use tenzopay.Queries.{read-P}
use tenzopay.Cards.State.{Card, Deck, find_card, find_token}
use tenzopay.Cards.Create.{insert_row, upsert_row, upsert}

-- The rows behind the issuer's answer: with an error they are as before; else the result is the row that
-- had the issuer's token before, or a new one in front of the others.
pub data Kind (s : Deck) (row d : Card) (t : Deck) : Type 0 where
  known_card :
      find_token row.provider_card_token s.cards ≡ some d → t.cards ≡ s.cards → Kind s row d t
  fresh_card :
      find_token row.provider_card_token s.cards ≡ none
      → find_card row.id s.cards ≡ none
      → d ≡ row
      → t.cards ≡ row ∷ s.cards
      → Kind s row d t

abbrev pub IsUpserted : Deck → Card → Result Card × Deck → Type 0
IsUpserted s row (ok d, t) = Kind s row d t
IsUpserted s row (err e, t) = t.cards ≡ s.cards

module _ (s : Deck) (row : Card) (t : Deck) (e : t.cards ≡ s.cards) where
  inserted :
      (p : Option Card)
      → find_token row.provider_card_token s.cards ≡ none
      → find_card row.id t.cards ≡ p
      → IsUpserted s row (insert_row row p t)
  inserted (some taken) h g = e
  inserted none h g = fresh_card h (ap (find_card row.id) (sym e) ∙ g) refl (ap (λ cs. row ∷ cs) e)

  upserted :
      (o : Option Card)
      → find_token row.provider_card_token s.cards ≡ o
      → IsUpserted s row (upsert_row row o t)
  unfolding upsert_row
  upserted (some old) h = known_card h e
  upserted none h = inserted _ h refl

  pub upsert-IsUpserted : (fault : Option Thrown) → IsUpserted s row (upsert fault row t)
  unfolding upsert
  upsert-IsUpserted fault =
      read-P (IsUpserted s row) t fault _ (upsert_row row) (λ x. e)
        (upserted _ (ap (find_token row.provider_card_token) (sym e)))

pub moved :
    (s : Deck) (row d : Card) (t u : Deck) → u.cards ≡ t.cards → Kind s row d t → Kind s row d u
moved s row d t u e (known_card h k) = known_card h (e ∙ k)
moved s row d t u e (fresh_card h g p k) = fresh_card h g p (e ∙ k)

-- Whether more cards are open than the ceiling allows.
abbrev pub is_over : ℤ → ℕ → Bool
is_over max_cards n = ltb_ℤ (pos 0) max_cards && ltb_ℤ max_cards (pos n)

pub one_more :
    (max_cards : ℤ) (n : ℕ)
    → (ltb_ℤ (pos 0) max_cards && leb_ℤ max_cards (pos n)) ≡ false
    → is_over max_cards (suc n) ≡ false
one_more max_cards n h = ground (arith, h)

pub no_more :
    (max_cards : ℤ) (n : ℕ)
    → (ltb_ℤ (pos 0) max_cards && leb_ℤ max_cards (pos n)) ≡ false
    → is_over max_cards n ≡ false
no_more max_cards n h = ground (arith, h)

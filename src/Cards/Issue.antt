-- ===== src/Cards/Issue.antt =====
-- A new card (`create` of apps/api/src/cards/cards.service.ts): what holds of the rows behind each way
-- out, and what the ledger has taken.
use tenzopay.Base.{
  ℤ, pos, ltb_ℤ, leb_ℤ, String, str_eq_iff, Option, Bool, true, false, not, ◌&&◌, if◌then◌else◌,
  ◌≡◌, refl, sym, ap, ◌∙◌,
}
use tenzopay.Effects.{app_error, Result, ok, err, Action, pure, throw, continue, ◌>>=◌, ◌>>◌}
use tenzopay.Queries.{read-P, with_result-P}
use tenzopay.Settings.Service.{get}
use tenzopay.Cards.State.{
  Card, Deck, Run, card_error, on_office, read_fee, ProviderCard, day, month, card_created,
  find_holder, count_cards, upsert_card, or_else,
}
use tenzopay.Cards.Create.{
  CreateCardInput, to_cents, is_accepted, card_limit_for, open_count, idempotency_key,
  charge_issuance, attach_velocity_rule, if_set, tell, new_card, keep_card, issue, create_under,
  create,
}
use tenzopay.Cards.Quiet.{
  after_quiet, after_known, after_silent, IsSilent, both-IsSilent, office-IsKept, charge-IsKept,
  attach-IsSilent, tell-IsSilent, ceiling-IsKept,
}
use tenzopay.Cards.Upserted.{
  Kind, known_card, fresh_card, IsUpserted, upsert-IsUpserted, moved, is_over, one_more, no_more,
}

module _ (run : Run) (user : String) (input : CreateCardInput) (s : Deck) where
  after : Card → ProviderCard → Action Deck (Unit {0})
  after card issued =
      attach_velocity_rule run card.id issued.card_token (if_set (to_cents input.daily_usd)) day
      >> attach_velocity_rule run card.id issued.card_token (if_set (to_cents input.monthly_usd))
          month
      >> tell run user card_created card.id

  after-IsSilent : (card : Card) (issued : ProviderCard) → IsSilent (after card issued)
  unfolding after
  after-IsSilent card issued =
      both-IsSilent _ _
        (both-IsSilent _ _ (attach-IsSilent run _ _ _ _) (attach-IsSilent run _ _ _ _))
        (tell-IsSilent run _ _ _)

  finished :
      (issued : ProviderCard) (r : Result Card × Deck)
      → IsUpserted s (new_card run user input issued) r
      → IsUpserted s
          (new_card run user input issued)
          (continue (λ card. after card issued >> pure card) r)
  finished issued (err e, t) k = k
  finished issued (ok d, t) k =
      after_silent (IsUpserted s (new_card run user input issued)) t (after d issued) (λ x. pure d)
        (after-IsSilent d issued) (λ u q. moved s _ d t u q k)

  keep_card-IsUpserted :
      (issued : ProviderCard) (t : Deck)
      → t.cards ≡ s.cards
      → IsUpserted s (new_card run user input issued) (keep_card run user input issued t)
  unfolding keep_card after
  keep_card-IsUpserted issued t e =
      finished issued _
        (upsert-IsUpserted s (new_card run user input issued) t e (run.fault upsert_card))

  counted :
      (max_cards : ℤ) (d : Card) (t : Deck) (issued : ProviderCard)
      → (ltb_ℤ (pos 0) max_cards && leb_ℤ max_cards (pos (open_count user s.cards))) ≡ false
      → Kind s (new_card run user input issued) d t
      → is_over max_cards (open_count user t.cards) ≡ false
  unfolding open_count
  counted max_cards d t issued h (known_card g k) = rw k (no_more max_cards _ h)
  counted max_cards d t issued h (fresh_card g p q k) =
      rw (k, (str_eq_iff user user).1 refl) (one_more max_cards (open_count user s.cards) h)

  abbrev pub limit_of : Option ℤ
  limit_of = or_else (to_cents input.monthly_usd) (to_cents input.daily_usd)

  module _ (hash : String) where
    -- What holds behind `create`.
    abbrev pub IsCreated : Result Card × Deck → Type 0
    IsCreated (err e, t) = t.cards ≡ s.cards
    IsCreated (ok d, t) =
        (is_accepted user s.holders ≡ true)
        × (max_cards : ℤ) × ((card_limit_for run user s).0 ≡ ok max_cards)
        × (is_over max_cards (open_count user t.cards) ≡ false)
        × (issued : ProviderCard) × (run.create_virtual_card (idempotency_key user hash) limit_of
            ≡ ok issued)
        × Kind s (new_card run user input issued) d t

    module _ (accepted : is_accepted user s.holders ≡ true) (max_cards : ℤ)
        (limit : (card_limit_for run user s).0 ≡ ok max_cards)
        (room : (ltb_ℤ (pos 0) max_cards && leb_ℤ max_cards (pos (open_count user s.cards)))
          ≡ false) where
      kept :
          (issued : ProviderCard) (r : Result Card × Deck)
          → run.create_virtual_card (idempotency_key user hash) limit_of ≡ ok issued
          → IsUpserted s (new_card run user input issued) r
          → IsCreated r
      kept issued (err e, t) h k = k
      kept issued (ok d, t) h k =
          (accepted, max_cards, limit, counted max_cards d t issued room k, issued, h, k)

      issued-IsCreated : (t : Deck) → t.cards ≡ s.cards → IsCreated (issue run user hash input t)
      unfolding issue
      issued-IsCreated t e =
          after_quiet IsCreated t
            (λ (x : Deck). on_office (get (run.fault read_fee) "fee.card_issuance" x.office) x) _
            (office-IsKept (get (run.fault read_fee) "fee.card_issuance")) (λ x u k. k ∙ e)
            (λ fee u k.
              after_quiet IsCreated u (charge_issuance run user (idempotency_key user hash) fee) _
                (charge-IsKept run user (idempotency_key user hash) fee) (λ x v q. q ∙ k ∙ e)
                (λ x v q.
                  with_result-P IsCreated v
                    (run.create_virtual_card (idempotency_key user hash) limit_of)
                    (keep_card run user input) (λ x. q ∙ k ∙ e)
                    (λ issued h. kept issued _ h (keep_card-IsUpserted issued v (q ∙ k ∙ e)))))

    module _ (accepted : is_accepted user s.holders ≡ true) (max_cards : ℤ)
        (limit : (card_limit_for run user s).0 ≡ ok max_cards) (t : Deck)
        (e : t.cards ≡ s.cards) where
      counted_once :
          (full : Bool)
          → (ltb_ℤ (pos 0) max_cards && leb_ℤ max_cards (pos (open_count user t.cards))) ≡ full
          → IsCreated (
              (if full
                  then throw (card_error "Your plan allows no more open cards.")
                  else issue run user hash input)
                t)
      counted_once true h = e
      counted_once false h =
          issued-IsCreated accepted max_cards limit
            (ap (λ cs. ltb_ℤ (pos 0) max_cards && leb_ℤ max_cards (pos (open_count user cs)))
                (sym e)
              ∙ h)
            t e

      under-IsCreated : IsCreated (create_under run user hash input max_cards t)
      unfolding create_under
      under-IsCreated =
          read-P IsCreated t (run.fault count_cards) _ _ (λ x. e) (counted_once _ refl)

    asked :
        (b : Bool)
        → is_accepted user s.holders ≡ b
        → IsCreated (
            (if not b
                then throw
                    (app_error "FORBIDDEN" "Complete identity verification before creating a card.")
                else card_limit_for run user >>= create_under run user hash input)
              s)
    asked false h = refl
    asked true h =
        after_known IsCreated s (card_limit_for run user) (create_under run user hash input)
          (ceiling-IsKept run user) (λ x t e. e)
          (λ max_cards t limit e. under-IsCreated h max_cards limit t e)

    pub create-IsCreated : IsCreated (create run user hash input s)
    unfolding create
    create-IsCreated = read-P IsCreated s (run.fault find_holder) _ _ (λ x. refl) (asked _ refl)

-- ===== src/Cards/Owned.antt =====
-- Freezing, closing and limiting a card (`setStatus` and `updateLimits` of
-- apps/api/src/cards/cards.service.ts): what holds of the rows behind each way out.
use tenzopay.Base.{
  String, str_eq, str_eq_iff, Option, none, some, Bool, true, false, Bool-cases, inl, inr,
  if◌then◌else◌, List, [], ◌∷◌, ◌≡◌, refl, sym, ap, subst, ◌∙◌,
}
use tenzopay.Effects.{Thrown, Result, ok, err, Action, pure, continue, ◌>>◌}
use tenzopay.Queries.{write, read-P, write-P, with_result-P}
use tenzopay.Actions.{bind-IsKept, write-IsKept}
use tenzopay.Cards.State.{
  Card, card_frozen, find_card_row, delete_rules, update_limits, day, month, update_status, Deck,
  Run, with_cards, or_else, find_card, if_owned, find_owned, update_card,
}
use tenzopay.Cards.Create.{is_closed, tell, attach_velocity_rule, if_set}
use tenzopay.Cards.Control.{
  CardAction, target_of, action_refusal, with_status, apply_status, if_allowed, set_found_status,
  set_status, UpdateCardLimitsInput, next_limit, exceeds, with_limits, drop_rules, replace_limits,
  update_open, update_found, update_card_limits,
}
use tenzopay.Cards.Kept.{IsStep-IsPreorder}
use tenzopay.Cards.Quiet.{
  SameCards-IsPreorder, same, after_quiet, IsSilent, silent-IsKept, after_silent, nothing-IsSilent,
  attach-IsSilent, tell-IsSilent,
}

some_card : {c d : Card} → some c ≡ some d → c ≡ d
some_card h = cc (h)

pub find-id : (id : String) (cs : List Card) (c : Card) → find_card id cs ≡ some c → c.id ≡ id
unfolding find_card
find-id id [] c h = cc (h)
find-id id (x ∷ cs) c h = elim (Bool-cases (str_eq x.id id)) [
  | inl here ↦
      let a : some x ≡ some c = rw here at h in
      subst (λ y. y.id ≡ id) (some_card a) ((str_eq_iff x.id id).0 here)
  | inr there ↦ find-id id cs c (rw there at h)
]

if_owned-some : (user : String) (o : Option Card) (c : Card) → if_owned user o ≡ some c → o ≡ some c
if_owned-some user none c h = cc (h)
if_owned-some user (some x) c h = elim (Bool-cases (str_eq x.user_id user)) [
  | inl own ↦ rw own at h
  | inr alien ↦ let a : none ≡ some c = rw alien at h in cc (a)
]

pub owned_here :
    (user id : String) (cs : List Card) (c : Card)
    → find_owned user id cs ≡ some c
    → find_card c.id cs ≡ some c
unfolding find_owned
owned_here user id cs c h =
    let a = if_owned-some user (find_card id cs) c h in
    subst (λ k. find_card k cs ≡ some c) (sym (find-id id cs c a)) a

-- The rows behind a method that changes the one row `c` by `f`: with an error no row is changed, and else
-- only that one, which is the user's, and whose new state is the result.
abbrev pub IsChanged :
    (user id : String) (s : Deck) (Ok : Card → Type 0) (f : Card → Card → Card)
    → Result Card × Deck
    → Type 0
IsChanged user id s Ok f (ok d, t) =
    (c : Card) × (find_owned user id s.cards ≡ some c)
    × Ok c
    × (d ≡ f c c)
    × (t.cards ≡ update_card c.id (f c) s.cards)
IsChanged user id s Ok f (err e, t) = t.cards ≡ s.cards

module _ (run : Run) (user id : String) (s : Deck) where
  -- The write of the row, a step that never fails, and the result.
  written :
      (Ok : Card → Type 0) (f : Card → Card → Card) (fault : Option Thrown)
      (m : Action Deck (Unit {0})) (c : Card) (t : Deck)
      → IsSilent m
      → find_owned user id s.cards ≡ some c
      → Ok c
      → t.cards ≡ s.cards
      → IsChanged user id s Ok f
          ((write fault (with_cards (update_card c.id (f c))) >> m >> pure (f c c)) t)
  written Ok f fault m c t q own h e =
      write-P (λ r. IsChanged user id s Ok f (continue (λ x. pure (f c c)) r)) t fault
        (with_cards (update_card c.id (f c))) (λ x. m) (λ x. e)
        (after_silent (IsChanged user id s Ok f) (with_cards (update_card c.id (f c)) t) m
          (λ x. pure (f c c)) q (λ u k. (c, own, h, refl, k ∙ ap (update_card c.id (f c)) e)))

  module _ (action : CardAction) where
    abbrev pub IsAllowed : Card → Type 0
    IsAllowed c =
        (action_refusal action c.status ≡ none)
        × (run.set_card_state c.provider_card_token (target_of action) ≡ ok tt)

    abbrev pub Status : Result Card × Deck → Type 0
    Status = IsChanged user id s IsAllowed (λ c. with_status run.now (target_of action))

    noted :
        (c : Card) (b : Bool)
        → IsSilent (if b then tell run c.user_id card_frozen c.id else pure tt)
    noted c true = tell-IsSilent run _ _ _
    noted c false = nothing-IsSilent

    applied :
        (c : Card)
        → find_owned user id s.cards ≡ some c
        → action_refusal action c.status ≡ none
        → Status (apply_status run c (target_of action) s)
    unfolding apply_status
    applied c own h =
        with_result-P Status s (run.set_card_state c.provider_card_token (target_of action)) _
          (λ e. refl)
          (λ u accepted.
            written IsAllowed (λ c. with_status run.now (target_of action))
              (run.fault update_status) _ c s (noted c _) own (h, accepted) refl)

    allowed :
        (c : Card) (o : Option String)
        → find_owned user id s.cards ≡ some c
        → action_refusal action c.status ≡ o
        → Status (if_allowed run action c o s)
    allowed c (some message) own h = refl
    allowed c none own h = applied c own h

    found :
        (o : Option Card)
        → find_owned user id s.cards ≡ o
        → Status (set_found_status run action o s)
    unfolding set_found_status
    found none own = refl
    found (some c) own = allowed c _ own refl

    pub set_status-Status : Status (set_status run user id action s)
    unfolding set_status
    set_status-Status = read-P Status s (run.fault find_card_row) _ _ (λ e. refl) (found _ refl)

  module _ (input : UpdateCardLimitsInput) where
    abbrev pub limited : Card → Card → Card
    limited c =
        with_limits (next_limit input.daily c.daily) (next_limit input.monthly c.monthly)
          (next_limit input.per_transaction c.per_transaction)

    abbrev pub IsInOrder : Card → Type 0
    IsInOrder c =
        (is_closed c.status ≡ false)
        × (exceeds (next_limit input.daily c.daily) (next_limit input.monthly c.monthly) ≡ false)

    abbrev pub Limits : Result Card × Deck → Type 0
    Limits = IsChanged user id s IsInOrder limited

    replaced :
        (c : Card)
        → find_owned user id s.cards ≡ some c
        → IsInOrder c
        → Limits (
            replace_limits run c
              (next_limit input.daily c.daily)
              (next_limit input.monthly c.monthly)
              (next_limit input.per_transaction c.per_transaction)
              s)
    unfolding replace_limits
    replaced c own h =
        after_quiet (λ r. Limits (continue (λ x. pure (limited c c)) r)) s
          (write (run.fault delete_rules) (λ s. record s { rules = drop_rules c.id s.rules })
            >> attach_velocity_rule run c.id c.provider_card_token
                (if_set (next_limit input.daily c.daily)) day
            >> attach_velocity_rule run c.id c.provider_card_token
                (if_set (next_limit input.monthly c.monthly)) month)
          _
          (bind-IsKept _ _
            (bind-IsKept _ _ (write-IsKept _ _ (λ t. same refl))
              (λ x. silent-IsKept _ (attach-IsSilent run _ _ _ _)))
            (λ x. silent-IsKept _ (attach-IsSilent run _ _ _ _)))
          (λ e t k. k)
          (λ a t k.
            write-P Limits t (run.fault update_limits) (with_cards (update_card c.id (limited c)))
              (λ x. pure (limited c c)) (λ e. k)
              (c, own, h, refl, ap (update_card c.id (limited c)) k))

    opened :
        (c : Card)
        → find_owned user id s.cards ≡ some c
        → is_closed c.status ≡ false
        → Limits (update_open run input c s)
    unfolding update_open
    opened c own h =
        elim (Bool-cases
          (exceeds (next_limit input.daily c.daily) (next_limit input.monthly c.monthly))) [
            | inl over ↦ rw over refl
            | inr within ↦ rw within (
                with_result-P Limits s
                  (run.update_card_limit c.provider_card_token
                    (or_else (next_limit input.monthly c.monthly) (next_limit input.daily c.daily)))
                  (λ u.
                    replace_limits run c (next_limit input.daily c.daily)
                      (next_limit input.monthly c.monthly)
                      (next_limit input.per_transaction c.per_transaction))
                  (λ e. refl) (λ u a. replaced c own (h, within)))
          ]

    found-Limits :
        (o : Option Card) → find_owned user id s.cards ≡ o → Limits (update_found run input o s)
    unfolding update_found
    found-Limits none own = refl
    found-Limits (some c) own = elim (Bool-cases (is_closed c.status)) [
      | inl over ↦ rw over refl
      | inr still ↦ rw still (opened c own still)
    ]

    -- A change of limits, with any failing queries and answers of the issuer: if it returns, then the card
    -- is the user's, it was not closed, the limits that it has now, of which those not asked for are the
    -- old ones, are in order, and that row alone has changed, to the row that is returned. If it throws, no
    -- row has changed.
    pub update_card_limits-Limits : Limits (update_card_limits run user id input s)
    unfolding update_card_limits
    update_card_limits-Limits =
        read-P Limits s (run.fault find_card_row) _ _ (λ e. refl) (found-Limits _ refl)

-- ===== src/Cards/Reach.antt =====
-- The methods of apps/api/src/cards/cards.service.ts, run in any order, with other writers of the other
-- tables in between.
use tenzopay.Base.{
  ℕ, String, Option, none, some, Bool, true, false, if◌then◌else◌, ◌∷◌, All, ◌≡◌, ◌≢◌, refl, sym,
  ap, subst, ◌∙◌,
}
use tenzopay.Effects.{Result, ok, err, pure, throw}
use tenzopay.Queries.{read-P, with_result, with_result-P}
use tenzopay.Asa.State.{closed}
use tenzopay.Cards.State.{
  Card, Deck, Run, find_card, update_card, with_cards, card_error, find_card_row,
}
use tenzopay.Cards.Create.{CreateCardInput, to_cents, is_closed, new_card, create}
use tenzopay.Cards.Control.{
  CardAction, target_of, action_refusal, with_status, set_status, UpdateCardLimitsInput, exceeds,
  next_limit, with_limits, reveal_found, update_card_limits, create_reveal_session,
}
use tenzopay.Cards.Kept.{
  Kept, IsLimited, IsStep, IsStep-IsPreorder, same_cards, update-IsStep, new_card-IsStep,
}
use tenzopay.Cards.Owned.{
  IsChanged, IsAllowed, IsInOrder, limited, owned_here, set_status-Status,
  update_card_limits-Limits,
}
use tenzopay.Cards.Upserted.{Kind, known_card, fresh_card}
use tenzopay.Cards.Issue.{IsCreated, create-IsCreated}

not_refused : (message : String) → some message ≢ none
not_refused message h = cc (h)

-- One thing that happens. The routes accept an input whose daily limit is no greater than its monthly one.
pub data Event (s t : Deck) : Type 0 where
  elsewhere : t.cards ≡ s.cards → Event s t
  created :
      (run : Run) (user hash : String) (input : CreateCardInput)
      → exceeds (to_cents input.daily_usd) (to_cents input.monthly_usd) ≡ false
      → t ≡ (create run user hash input s).1
      → Event s t
  changed :
      (run : Run) (user id : String) (action : CardAction)
      → t ≡ (set_status run user id action s).1
      → Event s t
  limits_set :
      (run : Run) (user id : String) (input : UpdateCardLimitsInput)
      → t ≡ (update_card_limits run user id input s).1
      → Event s t
  revealed :
      (run : Run) (user id : String) → t ≡ (create_reveal_session run user id s).1 → Event s t

-- A course of events.
pub data Course (s : Deck) : Deck → Type 0 where
  start : Course s s
  next : {t : Deck} (u : Deck) → Course s t → Event t u → Course s u

changed_step :
    (user id : String) (s : Deck) (Ok : Card → Type 0) (f : Card → Card → Card)
    (r : Result Card × Deck)
    → ((c : Card) → Ok c → Kept c (f c c))
    → ((c : Card) → Ok c → IsLimited c → IsLimited (f c c))
    → IsChanged user id s Ok f r
    → IsStep s r.1
changed_step user id s Ok f (err e, t) k l h = same_cards h
changed_step user id s Ok f (ok d, t) k l (c, own, g, x, e) =
    IsStep-IsPreorder.chain s (with_cards (update_card c.id (f c)) s) t
      (update-IsStep c.id (f c) c s (owned_here user id s.cards c own) (k c g) (l c g))
      (same_cards e)

module _ (run : Run) (user : String) (s : Deck) where
  fresh_step : (row d : Card) (t : Deck) → IsLimited row → Kind s row d t → IsStep s t
  fresh_step row d t m (known_card h e) = same_cards e
  fresh_step row d t m (fresh_card h g p e) =
      IsStep-IsPreorder.chain s (record s { cards = row ∷ s.cards }) t (new_card-IsStep row s g m)
        (same_cards e)

  created_step :
      (hash : String) (input : CreateCardInput) (r : Result Card × Deck)
      → exceeds (to_cents input.daily_usd) (to_cents input.monthly_usd) ≡ false
      → IsCreated run user input s hash r
      → IsStep s r.1
  created_step hash input (err e, t) m h = same_cards h
  created_step hash input (ok d, t) m (accepted, max_cards, limit, room, issued, h, k) =
      fresh_step (new_card run user input issued) d t m k

  shown_if :
      (c : Card) (over : Bool)
      → IsStep s
          ((if over
              then throw {S = Deck} {A = String}
                  (card_error "Card details are not available for a closed card.")
              else with_result (run.create_reveal_session c.provider_card_token) (λ url. pure url))
            s).1
  shown_if c true = same_cards refl
  shown_if c false =
      with_result-P (λ (r : Result String × Deck). IsStep s r.1) s
        (run.create_reveal_session c.provider_card_token) (λ url. pure url) (λ e. same_cards refl)
        (λ url h. same_cards refl)

  shown : (o : Option Card) → IsStep s (reveal_found run o s).1
  shown none = same_cards refl
  shown (some c) = shown_if c (is_closed c.status)

  revealed_step : (id : String) → IsStep s (create_reveal_session run user id s).1
  unfolding create_reveal_session
  revealed_step id =
      read-P (λ (r : Result String × Deck). IsStep s r.1) s (run.fault find_card_row) _
        (reveal_found run) (λ e. same_cards refl) (shown _)

closed_refused :
    (action : CardAction) (c : Card) → c.status ≡ closed → ¬ (action_refusal action c.status ≡ none)
closed_refused action c h g = not_refused _ (sym (ap (action_refusal action) h) ∙ g)

status-Kept :
    (now : ℕ) (action : CardAction) (c : Card)
    → action_refusal action c.status ≡ none
    → Kept c (with_status now (target_of action) c)
status-Kept now action c g = record {
  id = refl;
  user_id = refl;
  token = refl;
  final = λ h. absurd (closed_refused action c h g);
}

open_true : is_closed closed ≢ false
open_true h = cc (h)

limits-Kept :
    (input : UpdateCardLimitsInput) (c : Card)
    → is_closed c.status ≡ false
    → Kept c (
        with_limits
          (next_limit input.daily c.daily)
          (next_limit input.monthly c.monthly)
          (next_limit input.per_transaction c.per_transaction)
          c)
limits-Kept input c g = record {
  id = refl;
  user_id = refl;
  token = refl;
  final = λ h. absurd (open_true (sym (ap is_closed h) ∙ g));
}

event-IsStep : (s t : Deck) → Event s t → IsStep s t
event-IsStep s t (elsewhere e) = same_cards e
event-IsStep s t (created run user hash input m e) =
    subst (IsStep s) (sym e)
      (created_step run user s hash input _ m (create-IsCreated run user input s hash))
event-IsStep s t (changed run user id action e) = subst (IsStep s) (sym e) (
    changed_step user id s (IsAllowed run user id s action)
      (λ c. with_status run.now (target_of action)) _ (λ c g. status-Kept run.now action c g.0)
      (λ c g m. m) (set_status-Status run user id s action))
event-IsStep s t (limits_set run user id input e) = subst (IsStep s) (sym e) (
    changed_step user id s (IsInOrder run user id s input) (limited run user id s input) _
      (λ c g. limits-Kept input c g.0) (λ c g m. g.1)
      (update_card_limits-Limits run user id s input))
event-IsStep s t (revealed run user id e) = subst (IsStep s) (sym e) (revealed_step run user s id)

course-IsStep : (s t : Deck) → Course s t → IsStep s t
course-IsStep s t start = same_cards refl
course-IsStep s t (next {t = u} x p e) =
    IsStep-IsPreorder.chain s u x (course-IsStep s u p) (event-IsStep u x e)

-- In every course of the methods on cards, with inputs as the routes accept them, any failing queries, any
-- answers of the issuer, and other writers of the other tables in between, a card stays the same user's and keeps the issuer's token, and
-- one that is closed is never changed again. If no card has a daily limit above its monthly one, none has
-- behind the course.
pub Course-Kept :
    (s t : Deck) (id : String) (c : Card)
    → Course s t
    → find_card id s.cards ≡ some c
    → All IsLimited s.cards
    → (d : Card) × (find_card id t.cards ≡ some d) × Kept c d × All IsLimited t.cards
Course-Kept s t id c course h v =
    let step = course-IsStep s t course in
    let (d, g, k) = step.cards id c h in (d, g, k, step.limited v)

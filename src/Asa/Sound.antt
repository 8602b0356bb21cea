-- ===== src/Asa/Sound.antt =====
-- The invariant of the decisions of apps/api/src/webhooks/asa.service.ts: a posted hold behind every
-- recorded approval; and the steps that keep it.
use tenzopay.Base.{
  ℕ, ℤ, String, str_eq, str_eq_iff, ◌<>◌, Option, Option-cases, none, some, Bool-cases, inl, inr,
  ◌∷◌, ◌≡◌, refl, sym, ap, subst, ◌∙◌, arith,
}
use tenzopay.Effects.{Thrown, Result, ok, err}
use tenzopay.Ledger.Books.{Books, find_transaction}
use tenzopay.Ledger.Invariant.{IsValid}
use tenzopay.Ledger.Safety.{Extends}
use tenzopay.Ledger.Methods.{Weather}
use tenzopay.Ledger.CallSafety.{IsHonest, Final, drifted}
use tenzopay.Asa.State.{
  AuthorizationDecision, approved, insufficient_funds, velocity_exceeded, error, Card,
  AuthorizationEvent, Desk, find_event, find_card, spent_today, card_paused, card_closed,
  CardStatus, active, frozen, closed, UserStatus,
}
use tenzopay.Asa.State
use tenzopay.Asa.Payload.{AsaRequest, AsaResult, Order, read_order, is_foreign, to_response_result}
use tenzopay.Asa.Payload
use tenzopay.Asa.Decide.{Call, record_event, event_row, finish, upsert_pending, on_books}

-- The hold of an authorization is posted.
abbrev pub IsHeld : String → Books → Type 0
IsHeld token b = (id : ℕ) × (find_transaction ("auth:" <> token) b.transactions ≡ some id)

-- Valid books, and a posted hold behind every recorded approval.
pub record IsSound (s : Desk) : Type 0 where
  pub valid : IsValid s.books
  pub held : (token : String) → find_event token s.events ≡ some approved → IsHeld token s.books

-- What must be true of the books behind a decision, and behind an answer.
abbrev pub Decided : AuthorizationDecision → String → Books → Type 0
Decided approved token b = IsHeld token b
Decided _ token b = Unit

abbrev pub Answered : AsaResult → String → Books → Type 0
Answered Payload.approved token b = IsHeld token b
Answered _ token b = Unit

pub answered :
    (d : AuthorizationDecision) (token : String) (s : Books)
    → Decided d token s
    → Answered (to_response_result d) token s
unfolding to_response_result
answered approved token s h = h
answered State.insufficient_funds token s h = tt
answered State.velocity_exceeded token s h = tt
answered State.card_paused token s h = tt
answered State.card_closed token s h = tt
answered State.unauthorized_merchant token s h = tt
answered State.suspected_fraud token s h = tt
answered State.error token s h = tt

pub decided :
    (d : AuthorizationDecision) (token : String) (s : Desk)
    → IsSound s
    → find_event token s.events ≡ some d
    → Decided d token s.books
decided approved token s v h = v.held token h
decided State.insufficient_funds token s v h = tt
decided State.velocity_exceeded token s v h = tt
decided State.card_paused token s v h = tt
decided State.card_closed token s v h = tt
decided State.unauthorized_merchant token s v h = tt
decided State.suspected_fraud token s v h = tt
decided State.error token s v h = tt

-- How a part of the decision ends.
abbrev pub Ends : String → Result AsaResult × Desk → Type 0
Ends token (ok r, s) = IsSound s × Answered r token s.books
Ends token (err e, s) = IsSound s

row-IsHeld :
    (row : AuthorizationEvent) (s : Desk) (token : String)
    → IsSound s
    → Decided row.decision row.provider_event_token s.books
    → find_event token (row ∷ s.events) ≡ some approved
    → IsHeld token s.books
unfolding find_event
row-IsHeld row s token v d h = elim (Bool-cases (str_eq row.provider_event_token token)) [
  | inl same ↦
      let here : some row.decision ≡ some approved = rw same at h in
      let same_decision : row.decision ≡ approved = cc (here) in
      subst (λ t. IsHeld t s.books) ((str_eq_iff row.provider_event_token token).0 same)
        (subst (λ x. Decided x row.provider_event_token s.books) same_decision d)
  | inr apart ↦ v.held token (rw apart at h)
]

pub record_event-IsSound :
    (fault : Option Thrown) (row : AuthorizationEvent) (s : Desk)
    → IsSound s
    → Decided row.decision row.provider_event_token s.books
    → IsSound (record_event fault row s)
unfolding record_event
record_event-IsSound (some e) row s v d = v
record_event-IsSound none row s v d =
    elim (Option-cases (find_event row.provider_event_token s.events)) [
      | inl fresh ↦
          rw (fresh, record_event)
            (record { valid = v.valid; held = λ t h. row-IsHeld row s t v d h })
      | inr (x, known) ↦ rw (known, record_event) v
    ]

record_event-books :
    (fault : Option Thrown) (row : AuthorizationEvent) (s : Desk)
    → (record_event fault row s).books ≡ s.books
unfolding record_event
record_event-books (some e) row s = refl
record_event-books none row s = elim (Option-cases (find_event row.provider_event_token s.events)) [
  | inl fresh ↦ rw (fresh, record_event)
  | inr (x, known) ↦ rw (known, record_event)
]

module _ (call : Call) (order : Order) (user : String) where
  pub finish-Ends :
      (d : AuthorizationDecision) (reason : Option String) (balance : Option ℤ) (s : Desk)
      → IsSound s
      → Decided d order.event_token s.books
      → Ends order.event_token (finish call order user d reason balance s)
  unfolding finish
  finish-Ends d reason balance s v h =
      let row = event_row order (some user) d reason balance in
      let s' = record_event call.record_fault row s in
      (
        record_event-IsSound call.record_fault row s v h,
        answered d order.event_token s'.books (
            subst (Decided d order.event_token) (sym (record_event-books call.record_fault row s))
              h),
      )

-- Only the transactions change.
pub same_desk : {s t : Desk} → t.books ≡ s.books → t.events ≡ s.events → IsSound s → IsSound t
same_desk p q v = record {
  valid = subst IsValid (sym p) v.valid;
  held = λ token h. subst (IsHeld token) (sym p) (v.held token (ap (find_event token) (sym q) ∙ h));
}

module _ (call : Call) (payload : AsaRequest) (order : Order) (card : Card) (fee : ℤ)
    (s : Desk) where
  pub upsert_pending-books : (upsert_pending call payload order card fee s).books ≡ s.books
  unfolding upsert_pending
  upsert_pending-books = ground arith

  pub upsert_pending-events : (upsert_pending call payload order card fee s).events ≡ s.events
  unfolding upsert_pending
  upsert_pending-events = ground arith

-- The books move on, and lose nothing that was posted.
pub moved_on :
    (s : Desk) (b : Books)
    → IsSound s
    → IsValid b
    → Extends s.books b
    → IsSound (record s { books = b })
moved_on s b v u x = record {
  valid = u;
  held = λ token h. let (id, posted) = v.held token h in (id, x.kept ("auth:" <> token) id posted);
}

-- A call of the ledger that ends as its methods do, under honest others.
pub on_books-IsSound :
    {A : Type 0} (w : Weather) (honest : IsHonest w) (s : Desk) (v : IsSound s) (key : String)
    (id_of : A → ℕ) (r : Result A × Books)
    → Final w s.books key id_of r
    → IsSound (on_books r s).1
unfolding on_books
on_books-IsSound w honest s v key id_of (ok h, b) g = moved_on s b v g.valid g.extends
on_books-IsSound w honest s v key id_of (err e, b) t =
    let d = drifted w honest s.books v.valid t in moved_on s b v d.valid d.extends

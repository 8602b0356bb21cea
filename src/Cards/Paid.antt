-- ===== src/Cards/Paid.antt =====
-- No card without its fee (`create` of apps/api/src/cards/cards.service.ts, over the ledger and the
-- settings).
use tenzopay.Base.{ℕ, ℤ, pos, leb_ℤ, String, ◌<>◌, some, true, ◌⊎◌, ◌≡◌}
use tenzopay.Effects.{Result, ok, err}
use tenzopay.Ledger.Books
use tenzopay.Ledger.Books.{Books, find_transaction}
use tenzopay.Ledger.Invariant.{IsValid}
use tenzopay.Ledger.CallSafety.{IsHonest}
use tenzopay.Settings.Service.{get}
use tenzopay.Cards.State.{Card, Deck, Run, read_fee}
use tenzopay.Cards.Create.{CreateCardInput, idempotency_key}
use tenzopay.Cards.Quiet.{SameBooks-IsPreorder}

module _ (run : Run) where
  module _ (user : String) (input : CreateCardInput) (hash : String) (s : Deck)
      (honest : IsHonest run.weather) (v : IsValid s.books) where
    abbrev fee_key : String
    fee_key = "fee:issuance:" <> idempotency_key user hash

    -- The fee is nothing, or posted.
    abbrev IsCovered : ℤ → Books → Type 0
    IsCovered fee b =
        IsValid b
        × ((leb_ℤ fee (pos 0) ≡ true)
            ⊎ ((id : ℕ) × (find_transaction fee_key b.transactions ≡ some id)))

    abbrev pub IsPaid : Result Card × Deck → Type 0
    IsPaid (ok d, t) =
        (fee : ℤ) × ((get (run.fault read_fee) "fee.card_issuance" s.office).0 ≡ ok fee)
        × IsCovered fee t.books
    IsPaid (err e, t) = IsValid t.books

    module _ (fee : ℤ)
        (read_as : (get (run.fault read_fee) "fee.card_issuance" s.office).0 ≡ ok fee) where
      abbrev Charged : Result (Unit {0}) × Deck → Type 0
      Charged (ok x, t) = IsCovered fee t.books
      Charged (err e, t) = IsValid t.books

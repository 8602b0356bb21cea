-- ===== src/Deposits/Reach.antt =====
-- Everything that can happen to the tables of apps/api/src/deposits/deposits.service.ts: its methods and
-- `processAlchemy` of apps/api/src/webhooks/webhooks.service.ts, run in any order, and honest writers of
-- the ledger in between.
use tenzopay.Base.{ℕ, suc, String, Option, none, some, List, [], ◌∷◌, ◌≡◌, sym, subst}
use tenzopay.Effects.{Thrown, Result}
use tenzopay.Actions.{IsKept, bind-IsKept, pure-IsKept, with_result-IsKept}
use tenzopay.Webhooks.Alchemy.{ChainConfig, Activity, transfer_of, record_if, process_alchemy}
use tenzopay.Ledger.Books.{Books}
use tenzopay.Ledger.CallSafety.{Honest, IsHonest}
use tenzopay.Deposits.State.{
  DepositSource, onchain, TokenTransfer, Deposit, DepositAddress, Vault, Config, Run, find_deposit,
}
use tenzopay.Deposits.Advance.{advance_confirmations, advance_all_pending}
use tenzopay.Deposits.Record.{record_transfer, Turn, reconcile_address}
use tenzopay.Deposits.Watch.{watch_credited_for_reorg}
use tenzopay.Deposits.Sound.{IsSound, moved_on}
use tenzopay.Deposits.Carries.{Successor, Carries-refl, IsStep, IsStep-IsPreorder}
use tenzopay.Deposits.Forward.{advance-IsStep}
use tenzopay.Deposits.Safety.{
  advance_all_pending-IsKept, record_transfer-IsKept, IsHonestTurn, reconcile_address-IsKept,
}
use tenzopay.Deposits.WatchSafety.{watch_credited-IsKept}

-- One thing that happens.
pub data Event (s t : Vault) : Type 0 where
  elsewhere : (f : Books → Books) → Honest f → t ≡ record s { books = f s.books } → Event s t
  assigned : (addresses : List DepositAddress) → t ≡ record s { addresses = addresses } → Event s t
  recorded :
      (config : Config) (run again : Run) (transfer : TokenTransfer) (source : DepositSource)
      (id : String)
      → IsHonest run.weather
      → IsHonest again.weather
      → t ≡ (record_transfer config run again transfer source id s).1
      → Event s t
  advanced :
      (run : Run) (id : String)
      → IsHonest run.weather
      → t ≡ (advance_confirmations run id s).1
      → Event s t
  walked :
      (fault : Option Thrown) (runs : String → Run)
      → ((id : String) → IsHonest (runs id).weather)
      → t ≡ (advance_all_pending fault runs s).1
      → Event s t
  swept :
      (config : Config) (fault : Option Thrown) (page : Result (List TokenTransfer))
      (turns : ℕ → Turn) (address_id : String)
      → ((n : ℕ) → IsHonestTurn (turns n))
      → t ≡ (reconcile_address config fault page turns address_id s).1
      → Event s t
  watched :
      (config : Config) (now hours : ℕ) (fault : Option Thrown) (runs : String → Run)
      → ((id : String) → IsHonest (runs id).weather)
      → t ≡ (watch_credited_for_reorg config now hours fault runs s).1
      → Event s t
  reported :
      (config : ChainConfig) (turns : ℕ → Turn) (items : List Activity)
      → ((n : ℕ) → IsHonestTurn (turns n))
      → t ≡ (process_alchemy config turns 0 items s).1
      → Event s t

module _ (config : ChainConfig) (turns : ℕ → Turn) (honest : (n : ℕ) → IsHonestTurn (turns n)) where
  record_if-IsKept :
      (n : ℕ) (o : Option TokenTransfer) → IsKept IsStep (record_if config (turns n) o)
  record_if-IsKept n none = pure-IsKept tt
  record_if-IsKept n (some transfer) =
      bind-IsKept _ _
        (record_transfer-IsKept config.deposits (turns n).run (turns n).again (honest n).run
          (honest n).again transfer onchain (turns n).new_id)
        (λ id. pure-IsKept tt)

  process_alchemy-IsKept :
      (n : ℕ) (items : List Activity) → IsKept IsStep (process_alchemy config turns n items)
  unfolding process_alchemy
  process_alchemy-IsKept n [] = pure-IsKept tt
  process_alchemy-IsKept n (item ∷ items) =
      bind-IsKept _ _ (with_result-IsKept (transfer_of config item) _ (record_if-IsKept n))
        (λ x. process_alchemy-IsKept (suc n) items)

-- A course of events.
pub data Course (s : Vault) : Vault → Type 0 where
  start : Course s s
  next : {t : Vault} (u : Vault) → Course s t → Event t u → Course s u

event-IsStep : (s t : Vault) → Event s t → IsStep s t
event-IsStep s t (elsewhere f honest e) = subst (IsStep s) (sym e) (record {
  sound =
      λ v. moved_on s (f s.books) v (honest.valid s.books v.valid) (honest.extends s.books v.valid);
  carries = Carries-refl s.deposits;
})
event-IsStep s t (assigned addresses e) = subst (IsStep s) (sym e) (record {
  sound = λ v. record { valid = v.valid; backed = v.backed };
  carries = Carries-refl s.deposits;
})
event-IsStep s t (recorded config run again transfer source id p q e) =
    subst (IsStep s) (sym e)
      ((record_transfer-IsKept config run again p q transfer source id).leaves s)
event-IsStep s t (advanced run id p e) =
    subst (IsStep s) (sym e) ((advance-IsStep run p id).leaves s)
event-IsStep s t (walked fault runs p e) =
    subst (IsStep s) (sym e) ((advance_all_pending-IsKept fault runs p).leaves s)
event-IsStep s t (swept config fault page turns address_id p e) =
    subst (IsStep s) (sym e)
      ((reconcile_address-IsKept config fault page turns address_id p).leaves s)
event-IsStep s t (watched config now hours fault runs p e) =
    subst (IsStep s) (sym e) ((watch_credited-IsKept config now hours fault runs p).leaves s)
event-IsStep s t (reported config turns items p e) =
    subst (IsStep s) (sym e) ((process_alchemy-IsKept config turns p 0 items).leaves s)

Course-IsStep : {s t : Vault} → Course s t → IsStep s t
Course-IsStep {s} start = IsStep-IsPreorder.same s
Course-IsStep {s} (next {t} u c e) =
    IsStep-IsPreorder.chain s t u (Course-IsStep c) (event-IsStep t u e)

-- In every course of the methods on deposits and of reports of the chain, with failing queries and nodes
-- and with other honest writers of the ledger, from a sound state: the books stay valid, and every deposit row keeps the
-- ledger behind it, that is, a row that notes a ledger transaction has its credit posted under that id,
-- a CONFIRMED row notes one, and a row that notes one is either CONFIRMED or ORPHANED with its reversal
-- posted.
pub Course-IsSound : (s t : Vault) → IsSound s → Course s t → IsSound t
Course-IsSound s t v c = (Course-IsStep c).sound v

-- In every such course no deposit row is lost or goes back: it keeps its id, user, amount and currency,
-- and its status is never an earlier one in the order PENDING, DETECTED, CONFIRMING, CONFIRMED or FAILED,
-- ORPHANED.
pub Course-Carries :
    (s t : Vault) (id : String) (d : Deposit)
    → Course s t
    → find_deposit id s.deposits ≡ some d
    → (e : Deposit) × (find_deposit id t.deposits ≡ some e) × Successor d e
Course-Carries s t id d c h = (Course-IsStep c).carries id d h

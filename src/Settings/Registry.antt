-- ===== src/Settings/Registry.antt =====
-- The registry of the operational settings, and the tables that a change writes
-- (apps/api/src/settings/settings.service.ts). Descriptions, which nothing reads, are left out.
use tenzopay.Base.{String, Option, List, [], ◌∷◌}
use tenzopay.Texts.{Text}

pub data SettingType : Type 0 where
  minor integer bps : SettingType

pub data SettingGroup : Type 0 where
  cost fee limits_group : SettingGroup

pub data AdminRole : Type 0 where
  super_admin admin finance risk support : AdminRole

pub record SettingDefinition : Type 0 where
  pub key : String
  pub label : String
  pub type : SettingType
  pub group : SettingGroup
  pub default : Text
  pub roles : List AdminRole

-- A row of `setting`.
pub record Setting : Type 0 where
  pub key : String
  pub value : Text
  pub updated_by_id : Option String

-- What a row of `admin_actions`, and one of `audit_logs`, says of a change.
pub record Change : Type 0 where
  pub admin_id : String
  pub key : String
  pub before : Text
  pub after : Text
  pub reason : Text

pub record Office : Type 0 where
  pub settings : List Setting
  pub admin_actions : List Change
  pub audit_logs : List Change

unfoldable pub registry : List SettingDefinition
registry =
    record {
      key = "cost.card_issuance";
      label = "Cost per card issued";
      type = minor;
      group = cost;
      default = 48 ∷ [];
      roles = admin ∷ finance ∷ [];
    }
    ∷ record {
      key = "cost.card_monthly";
      label = "Cost per active card, monthly";
      type = minor;
      group = cost;
      default = 48 ∷ [];
      roles = admin ∷ finance ∷ [];
    }
    ∷ record {
      key = "cost.transaction";
      label = "Cost per settled transaction";
      type = minor;
      group = cost;
      default = 48 ∷ [];
      roles = admin ∷ finance ∷ [];
    }
    ∷ record {
      key = "cost.deposit";
      label = "Cost per confirmed deposit";
      type = minor;
      group = cost;
      default = 48 ∷ [];
      roles = admin ∷ finance ∷ [];
    }
    ∷ record {
      key = "cost.fixed_monthly";
      label = "Fixed monthly cost";
      type = minor;
      group = cost;
      default = 48 ∷ [];
      roles = admin ∷ finance ∷ [];
    }
    ∷ record {
      key = "fee.deposit.bps";
      label = "Deposit fee";
      type = bps;
      group = fee;
      default = 48 ∷ [];
      roles = admin ∷ finance ∷ [];
    }
    ∷ record {
      key = "fee.deposit.flat";
      label = "Deposit fee, flat part";
      type = minor;
      group = fee;
      default = 48 ∷ [];
      roles = admin ∷ finance ∷ [];
    }
    ∷ record {
      key = "fee.deposit.min";
      label = "Deposit fee, minimum";
      type = minor;
      group = fee;
      default = 48 ∷ [];
      roles = admin ∷ finance ∷ [];
    }
    ∷ record {
      key = "fee.deposit.max";
      label = "Deposit fee, cap";
      type = minor;
      group = fee;
      default = 48 ∷ [];
      roles = admin ∷ finance ∷ [];
    }
    ∷ record {
      key = "fee.transaction.flat";
      label = "Transaction fee, flat part";
      type = minor;
      group = fee;
      default = 48 ∷ [];
      roles = admin ∷ finance ∷ [];
    }
    ∷ record {
      key = "fee.transaction.bps";
      label = "Transaction fee, percentage";
      type = bps;
      group = fee;
      default = 48 ∷ [];
      roles = admin ∷ finance ∷ [];
    }
    ∷ record {
      key = "fee.card_issuance";
      label = "Card issuance fee";
      type = minor;
      group = fee;
      default = 48 ∷ [];
      roles = admin ∷ finance ∷ [];
    }
    ∷ record {
      key = "fee.fx.bps";
      label = "FX margin";
      type = bps;
      group = fee;
      default = 48 ∷ [];
      roles = admin ∷ finance ∷ [];
    }
    ∷ record {
      key = "fee.plan.team";
      label = "Team plan, monthly";
      type = minor;
      group = fee;
      default = 48 ∷ [];
      roles = admin ∷ finance ∷ [];
    }
    ∷ record {
      key = "fee.plan.business";
      label = "Business plan, monthly";
      type = minor;
      group = fee;
      default = 48 ∷ [];
      roles = admin ∷ finance ∷ [];
    }
    ∷ record {
      key = "billing.dunning_days";
      label = "Days to retry a failed plan charge";
      type = integer;
      group = limits_group;
      default = 55 ∷ [];
      roles = admin ∷ [];
    }
    ∷ record {
      key = "limits.cards.starter";
      label = "Open cards on Starter";
      type = integer;
      group = limits_group;
      default = 51 ∷ [];
      roles = admin ∷ [];
    }
    ∷ record {
      key = "limits.cards.team";
      label = "Open cards on Team";
      type = integer;
      group = limits_group;
      default = 50 ∷ 48 ∷ [];
      roles = admin ∷ [];
    }
    ∷ record {
      key = "limits.cards.business";
      label = "Open cards on Business";
      type = integer;
      group = limits_group;
      default = 48 ∷ [];
      roles = admin ∷ [];
    }
    ∷ []

-- ===== src/Settings/Tests.antt =====
-- Runs of apps/api/src/settings/settings.service.ts.
use tenzopay.Base.{str_eq, none, some, [], ◌∷◌, ◌≡◌, refl}
use tenzopay.Effects.{ok}
use tenzopay.Texts.{
  units, trim, trim_start, trim_end, is_space, read_digits, all_digits, to_decimal, put_digits,
}
use tenzopay.Settings.Registry.{SettingDefinition, Office, registry, finance, fee, bps, admin}
use tenzopay.Settings.Service.{find_definition, parse, Order, set}
use tenzopay.Settings.Change.{ReadsBack}
use tenzopay.Settings.Range.{set-ReadsBack}

abbrev office : Office
office = record { settings = []; admin_actions = []; audit_logs = [] }

abbrev order : Order
order = record {
  admin_id = "a1";
  admin_role = finance;
  key = "fee.deposit.bps";
  value = some (units " 0150 ");
  reason = some (units "new price list");
}

abbrev deposit_bps : SettingDefinition
deposit_bps = record {
  key = "fee.deposit.bps";
  label = "Deposit fee";
  type = bps;
  group = fee;
  default = units "0";
  roles = admin ∷ finance ∷ [];
}

known : find_definition "fee.deposit.bps" registry ≡ some deposit_bps
unfolding find_definition registry str_eq
known = refl

parse_blanks : parse deposit_bps (some (units " 0150 ")) ≡ ok (units "150")
unfolding parse trim trim_start trim_end is_space all_digits read_digits to_decimal put_digits
parse_blanks = refl

set-ReadsBack_example : ReadsBack order (set (λ q. none) order office)
set-ReadsBack_example = set-ReadsBack (λ q. none) order deposit_bps office known

-- ===== src/Tests/Plans.antt =====
-- Parsing and printing of action plans at the sample plan.
use cadrig.Base.{◌≡◌, refl, ok}
use cadrig.Contracts.{plan_from_dict, plan_to_dict, kind_of, require_identifier}
use cadrig.Contracts.Parsing.{IsValid, plan_from_dict-IsValid}
use cadrig.Contracts.RoundTrip.{plan_from_dict-plan_to_dict}
use cadrig.Base.Dict
use cadrig.Base.Text.{is_blank}
use cadrig.Tests.Samples.{create_plan}

create_plan_parses : plan_from_dict (plan_to_dict create_plan) ≡ ok create_plan
unfolding plan_from_dict plan_to_dict Dict.get Dict.put is_blank kind_of require_identifier
create_plan_parses = refl

plan_from_dict-IsValid_example : IsValid create_plan
plan_from_dict-IsValid_example =
    plan_from_dict-IsValid (plan_to_dict create_plan) create_plan create_plan_parses

plan_from_dict-plan_to_dict_example : plan_from_dict (plan_to_dict create_plan) ≡ ok create_plan
plan_from_dict-plan_to_dict_example =
    plan_from_dict-plan_to_dict create_plan plan_from_dict-IsValid_example

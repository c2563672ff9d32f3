-- ===== src/Risk/Tests.antt =====
-- Ratios and shocks at concrete inputs.
use pms_backend.Base.{◌≡◌, refl, false, none, some, List, [], ◌∷◌, if◌then◌else◌}
use pms_backend.Base.Int.{pos, negsuc, ◌+ℤ◌, ◌*ℤ◌, ltb_ℤ}
use pms_backend.Fault.{Result, ok, err, stress_bucket, shock_count, stress_source_invalid}
use pms_backend.Number.{Sign, less, more, num, int}
use pms_backend.Text.{Text, codes, is_currency, text_eq, text_lt, includes}
use pms_backend.Text.Uuid.{is_uuid}
use pms_backend.Engine.Fixed.{fixed}
use pms_backend.Decimal.{running}
use pms_backend.Money.{Money, apply_sign, parse, add, from_minor_units, to_decimal_string}
use pms_backend.Risk.{
  DcrInput, DcrResult, within_limit, StressShock, StressResult, ratio_units, format_ratio,
  round_half_up, calculate_dcr, is_bucket, shock_points, impact_units, stress_one, stress_all,
  execute_stress_scenario,
}
use pms_backend.Risk.Rerun.{
  Values, FullEngineStressSnapshot, FullEngineStressResult, find_value,
  execute_full_engine_stress_scenario,
}
use pms_backend.Risk.Shocked.{Reran, execute_full_engine_stress_scenario-Reran}
use pms_backend.Risk.Ratio.{Rated, calculate_dcr_sound}
use pms_backend.Risk.Stress.{AnswersAll, execute_stress_scenario_sound}

unfoldable measuring : Unit {0}
unfolding running is_currency text_eq includes ◌+ℤ◌ ◌*ℤ◌ parse add from_minor_units
    to_decimal_string ratio_units format_ratio round_half_up calculate_dcr is_bucket shock_points
    impact_units stress_one stress_all execute_stress_scenario apply_sign
measuring = tt

abbrev third : DcrInput
third = record {
  capital_duration_amount = codes "2";
  risk_weighted_duration_amount = codes "3";
  currency = codes "TND";
  amount_scale = num 2;
  threshold = codes "0.5";
}

abbrev third_result : DcrResult
third_result = record {
  value = codes "0.666667";
  threshold = codes "0.500000";
  state = within_limit;
}

third_calculated : calculate_dcr third ≡ ok third_result
unfolding measuring
third_calculated = refl

calculate_dcr_sound_example : Rated third third_result
calculate_dcr_sound_example = calculate_dcr_sound third third_result third_calculated

abbrev shocks : List StressShock
shocks =
    record { bucket = codes "DOWN"; basis_points = int (negsuc 249) }
    ∷ record { bucket = codes "UP"; basis_points = num 100 }
    ∷ []

abbrev results : List StressResult
results =
    record {
      bucket = codes "DOWN";
      basis_points = negsuc 249;
      stressed_amount = codes "9.75";
      impact_amount = codes "-0.25";
    }
    ∷ record {
      bucket = codes "UP";
      basis_points = pos 100;
      stressed_amount = codes "10.10";
      impact_amount = codes "0.10";
    }
    ∷ []

shocks_executed : execute_stress_scenario (codes "10") (codes "TND") (num 2) shocks ≡ ok results
unfolding measuring
shocks_executed = refl

repeated_bucket_refused :
    execute_stress_scenario (codes "10") (codes "TND") (num 2) (
      record { bucket = codes "UP"; basis_points = num 1 }
      ∷ record { bucket = codes "UP"; basis_points = num 2 }
      ∷ [])
    ≡ err stress_bucket
unfolding measuring
repeated_bucket_refused = refl

execute_stress_scenario_sound_example :
    (base : Money) × (parse (codes "10") (codes "TND") (num 2) ≡ ok base)
    × (ltb_ℤ base.minor_units (pos 0) ≡ false)
    × AnswersAll base (codes "TND") (num 2) shocks results
execute_stress_scenario_sound_example =
    execute_stress_scenario_sound (codes "10") (codes "TND") (num 2) shocks results shocks_executed

-- An engine that gives back the value of a bucket, and a checksum that is the text itself.
abbrev values : Values
values = (codes "UP", codes "10") ∷ (codes "DOWN", codes "8") ∷ (codes "NAME", codes "pool") ∷ []

abbrev shocked : Values
shocked =
    (codes "UP", codes "10.100000000000")
    ∷ (codes "DOWN", codes "7.800000000000")
    ∷ (codes "NAME", codes "pool")
    ∷ []

abbrev snapshot : FullEngineStressSnapshot
snapshot = record { source_run_id = codes "0b8f4c3e-1a2b-4c3d-9e4f-5a6b7c8d9e0f"; values = values }

abbrev engine : Values → Result Text
engine vs = elim (find_value (codes "UP") vs) [ none ↦ err shock_count | some v ↦ ok v ]

abbrev first_name : Text → Values → Text → Text
first_name run [] result = []
first_name run ((name, value) ∷ vs) result = name

abbrev by_text : Text → Text → Sign
by_text a b = if text_lt b a then more else less

abbrev reran : FullEngineStressResult Text
reran = record {
  source_run_id = codes "0b8f4c3e-1a2b-4c3d-9e4f-5a6b7c8d9e0f";
  shocked_values = shocked;
  engine_result = codes "10.100000000000";
  output_checksum_sha256 = codes "DOWN";
}

run_again :
    execute_full_engine_stress_scenario fixed first_name (λ s. s) by_text engine snapshot shocks
    ≡ ok reran
unfolding execute_full_engine_stress_scenario measuring is_uuid fixed find_value text_lt
run_again = refl

-- Only the numeric values can be shocked.
text_not_shocked :
    execute_full_engine_stress_scenario fixed first_name
      (λ s. s)
      by_text
      engine
      snapshot
      (record { bucket = codes "NAME"; basis_points = num 1 } ∷ [])
    ≡ err stress_source_invalid
unfolding execute_full_engine_stress_scenario measuring is_uuid fixed find_value text_lt
text_not_shocked = refl

execute_full_engine_stress_scenario-Reran_example :
    Reran fixed first_name (λ s. s) by_text engine snapshot shocks reran
execute_full_engine_stress_scenario-Reran_example =
    execute_full_engine_stress_scenario-Reran fixed first_name (λ s. s) by_text engine snapshot
      shocks reran run_again

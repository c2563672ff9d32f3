-- ===== src/Risk/Rerun.antt =====
-- `executeFullEngineStressScenario` of src/modules/risk-alm/domain/stress-scenario.ts: an engine is
-- run again on a snapshot with shocked values. decimal.js, the engine, SHA-256, `localeCompare` and
-- `JSON.stringify` of the object that is hashed are parameters.
use pms_backend.Base.{
  ◌||◌, not, Option, none, some, List, [], ◌∷◌, ltb, ◌==◌, if◌then◌else◌, length,
}
use pms_backend.Base.Int.{ℤ, pos}
use pms_backend.Fault.{
  Result, ok, err, ◌>>=◌, ◌>>◌, throw_if, stress_run_not_uuid, shock_count, stress_bucket,
  stress_source_invalid, stressed_negative,
}
use pms_backend.Number.{Sign}
use pms_backend.Text.{Text, text_eq, includes}
use pms_backend.Text.Uuid.{is_uuid}
use pms_backend.Decimal.{match_unsigned}
use pms_backend.Engine.{Decimals, is_matched}
use pms_backend.Audit.{sort_from}
use pms_backend.Risk.{StressShock, is_bucket, shock_points}

-- The values by their names, each name once.
abbrev pub Values : Type 0
Values = List (Text × Text)

pub record FullEngineStressSnapshot : Type 0 where
  pub source_run_id : Text
  pub values : Values

pub record FullEngineStressResult (T : Type 0) : Type 0 where
  pub source_run_id : Text
  pub shocked_values : Values
  pub engine_result : T
  pub output_checksum_sha256 : Text

-- `snapshot.values[shock.bucket]`: no inherited property has the name of a bucket.
unfoldable pub find_value : Text → Values → Option Text
find_value key [] = none
find_value key ((k, v) ∷ values) = if text_eq k key then some v else find_value key values

-- `shockedValues[shock.bucket] = text`
unfoldable pub set_value : Text → Text → Values → Values
set_value key text [] = (key, text) ∷ []
set_value key text ((k, v) ∷ values) =
    let rest = set_value key text values in
    if text_eq k key then (k, text) ∷ values else (k, v) ∷ rest

-- The check of `source`.
unfoldable pub numeric_source : Option Text → Result Text
numeric_source none = err stress_source_invalid
numeric_source (some source) =
    if is_matched (match_unsigned source) then ok source else err stress_source_invalid

-- `canonical`, hashed.
module _ {T : Type 0} (stringify : Text → Values → T → Text) (sha256 : Text → Text)
    (locale_compare : Text → Text → Sign) where
  unfoldable pub checksum : Text → Values → T → Text
  unfolding sort_from
  checksum run shocked result = sha256 (stringify run (sort_from locale_compare [] shocked) result)

module _ (d : Decimals) where
  open d use {Value, of_text, of_units, plus, times, divided_by, is_negative, formatted}

  -- `stressed`
  abbrev pub stressed_value : Text → ℤ → Value
  stressed_value source points =
      times (of_text source)
        (plus (of_units (pos 1)) (divided_by (of_units points) (of_units (pos 10000))))

  -- The text of one shock.
  unfoldable pub shock_value : Values → StressShock → Result Text
  unfolding shock_points find_value numeric_source
  shock_value values shock = do
    points ← shock_points shock.basis_points
    source ← numeric_source (find_value shock.bucket values)
    throw_if (is_negative (stressed_value source points)) stressed_negative
    ok (formatted (stressed_value source points) 12)

  -- The loop over the shocks, with the set `seen`.
  unfoldable pub shock_values : Values → List Text → List StressShock → Values → Result Values
  unfolding is_bucket shock_value set_value
  shock_values values seen [] shocked = ok shocked
  shock_values values seen (shock ∷ shocks) shocked = do
    throw_if (not (is_bucket shock.bucket) || includes seen shock.bucket) stress_bucket
    text ← shock_value values shock
    shock_values values (shock.bucket ∷ seen) shocks (set_value shock.bucket text shocked)

  module _ {T : Type 0} (stringify : Text → Values → T → Text) (sha256 : Text → Text)
      (locale_compare : Text → Text → Sign) (rerun : Values → Result T) where
    -- `executeFullEngineStressScenario`
    unfoldable pub execute_full_engine_stress_scenario :
        FullEngineStressSnapshot → List StressShock → Result (FullEngineStressResult T)
    unfolding shock_values checksum
    execute_full_engine_stress_scenario snapshot shocks = do
      throw_if (not (is_uuid snapshot.source_run_id)) stress_run_not_uuid
      throw_if (length shocks == 0 || ltb 100 (length shocks)) shock_count
      shocked ← shock_values snapshot.values [] shocks snapshot.values
      result ← rerun shocked
      ok (record {
        source_run_id = snapshot.source_run_id;
        shocked_values = shocked;
        engine_result = result;
        output_checksum_sha256 =
            checksum stringify sha256 locale_compare snapshot.source_run_id shocked result;
      })

-- ===== src/Risk/Shocked.antt =====
-- The values on which the engine is run again.
use pms_backend.Base.{
  ◌≤◌, ◌≡◌, refl, sym, ap, ◌∙◌, subst, true, false, ◌||◌, not, Bool-cases, inl, inr, Option, none,
  some, List, [], ◌∷◌, map, arith, length, ltb, ◌==◌, if◌then◌else◌,
}
use pms_backend.Base.Int.{ℤ, magnitude}
use pms_backend.Fault.{
  Result, ok, throw_if, >>=_returns, ok_injective, stress_run_not_uuid, shock_count, stress_bucket,
  stressed_negative,
}
use pms_backend.Number.{Sign, int}
use pms_backend.Text.{Text, text_eq, text_eq_iff, text_eq_refl, includes}
use pms_backend.Text.Uuid.{is_uuid}
use pms_backend.Decimal.{match_unsigned}
use pms_backend.Money.Amounts.{not_thrown}
use pms_backend.Engine.{Decimals, is_matched}
use pms_backend.Risk.{StressShock, is_bucket, shock_points}
use pms_backend.Risk.Stress.{points_read}
use pms_backend.Risk.Rerun.{
  Values, FullEngineStressSnapshot, FullEngineStressResult, find_value, set_value, numeric_source,
  stressed_value, shock_value, shock_values, checksum, execute_full_engine_stress_scenario,
}

abbrev pub names : Values → List Text
names = map (λ (v : Text × Text). v.0)

abbrev pub buckets : List StressShock → List Text
buckets = map (λ (s : StressShock). s.bucket)

find_value-set_value :
    (key k text : Text) (values : Values)
    → find_value k (set_value key text values)
      ≡ (if text_eq key k then some text else find_value k values)
unfolding find_value set_value
find_value-set_value key k text [] = refl
find_value-set_value key k text ((j, v) ∷ values) = ground (
  arith,
  text_eq_iff key k,
  text_eq_iff j k,
  text_eq_iff j key,
  find_value-set_value key k text values,
)

-- A write to a name that is there adds none.
names-set_value :
    (key text : Text) (values : Values)
    → includes (names values) key ≡ true
    → names (set_value key text values) ≡ names values
unfolding set_value includes
names-set_value key text [] h = cc
names-set_value key text ((j, v) ∷ values) h = elim (Bool-cases (text_eq j key)) [
  | inl here ↦ rw here refl
  | inr other ↦ rw other (ap (λ ns. j ∷ ns) (names-set_value key text values (ground arith)))
]

includes_of_find :
    (key : Text) (values : Values) {v : Text}
    → find_value key values ≡ some v
    → includes (names values) key ≡ true
unfolding find_value includes
includes_of_find key [] h = cc
includes_of_find key ((j, w) ∷ values) {v} h = ground (arith, includes_of_find key values {v = v})

numeric_read :
    (o : Option Text) (source : Text)
    → numeric_source o ≡ ok source
    → (o ≡ some source) × (is_matched (match_unsigned source) ≡ true)
unfolding numeric_source
numeric_read none source h = cc
numeric_read (some s) source h = ground arith

module _ (d : Decimals) where
  -- How a shock is answered: its points are a whole number within the limits, the snapshot has a
  -- numeric value for its bucket, the product is not negative, and `text` is its print.
  pub record Answered (values : Values) (shock : StressShock) (text : Text) : Type 0 where
    pub points : ℤ
    pub source : Text
    pub whole : shock.basis_points ≡ int points
    pub within : magnitude points ≤ 10000
    pub present : find_value shock.bucket values ≡ some source
    pub numeric : is_matched (match_unsigned source) ≡ true
    pub not_negative : d.is_negative (stressed_value d source points) ≡ false
    pub printed : text ≡ d.formatted (stressed_value d source points) 12

  -- Every shock is answered in the values that the engine gets, each bucket once.
  abbrev pub AllAnswered : Values → Values → List StressShock → Type 0
  AllAnswered values shocked [] = Unit {0}
  AllAnswered values shocked (s ∷ ss) =
      ((text : Text) × (find_value s.bucket shocked ≡ some text) × Answered values s text)
      × (is_bucket s.bucket ≡ true)
      × (includes (buckets ss) s.bucket ≡ false)
      × AllAnswered values shocked ss

  shock_value-Answered :
      (values : Values) (shock : StressShock) (text : Text)
      → shock_value d values shock ≡ ok text
      → Answered values shock text
  unfolding shock_value
  shock_value-Answered values shock text h =
      let (points, sp, h1) = >>=_returns (shock_points shock.basis_points) _ h in
      let (source, sn, h2) = >>=_returns (numeric_source (find_value shock.bucket values)) _ h1 in
      let negative = d.is_negative (stressed_value d source points) in
      let (_, ng, h3) = >>=_returns (throw_if negative stressed_negative) _ h2 in
      let (whole, within) = points_read shock.basis_points points sp in
      let (present, numeric) = numeric_read (find_value shock.bucket values) source sn in
      record {
        points = points;
        source = source;
        whole = whole;
        within = within;
        present = present;
        numeric = numeric;
        not_negative = not_thrown negative stressed_negative ng;
        printed = sym (ok_injective h3);
      }

  -- What the loop does to the values: a name that has been seen is not written again.
  pub record Shocked (values : Values) (seen : List Text) (shocks : List StressShock)
      (before after : Values) : Type 0 where
    pub answered : AllAnswered values after shocks
    pub others :
        (key : Text)
        → includes (buckets shocks) key ≡ false
        → find_value key after ≡ find_value key before
    pub fresh : (key : Text) → includes seen key ≡ true → includes (buckets shocks) key ≡ false
    pub same_names : names before ≡ names values → names after ≡ names values

  shock_values-Shocked :
      (values : Values) (seen : List Text) (shocks : List StressShock) (before after : Values)
      → shock_values d values seen shocks before ≡ ok after
      → Shocked values seen shocks before after
  unfolding shock_values includes
  shock_values-Shocked values seen [] before after h = record {
    answered = tt;
    others = λ key _. ap (find_value key) (sym (ok_injective h));
    fresh = λ key _. refl;
    same_names = λ e. ap names (sym (ok_injective h)) ∙ e;
  }
  shock_values-Shocked values seen (s ∷ ss) before after h =
      let refused = not (is_bucket s.bucket) || includes seen s.bucket in
      let (_, accepted, h1) = >>=_returns (throw_if refused stress_bucket) _ h in
      let (text, one, h2) = >>=_returns (shock_value d values s) _ h1 in
      let rest =
        shock_values-Shocked values (s.bucket ∷ seen) ss (set_value s.bucket text before) after
          h2 in
      let valid : refused ≡ false = not_thrown refused stress_bucket accepted in
      let new = rest.fresh s.bucket (ground (arith, text_eq_refl s.bucket)) in
      let a = shock_value-Answered values s text one in
      record {
        answered = (
          (
            text,
            rest.others s.bucket new
                ∙ find_value-set_value s.bucket s.bucket text before
                ∙ rw (text_eq_refl s.bucket) refl,
            a,
          ),
          ground arith,
          new,
          rest.answered,
        );
        others = λ key out.
            let other : text_eq s.bucket key ≡ false = ground arith in
            rest.others key (ground arith)
            ∙ find_value-set_value s.bucket key text before
            ∙ rw other refl;
        fresh = λ key old.
            let later = rest.fresh key (ground arith) in
            let unseen : includes seen s.bucket ≡ false = ground arith in
            elim (Bool-cases (text_eq s.bucket key)) [
              | inl same ↦
                  absurd (cc (ap (includes seen) ((text_eq_iff s.bucket key).0 same), unseen, old))
              | inr other ↦ rw other later
            ];
        same_names = λ e. rest.same_names (
            names-set_value s.bucket text before (
              subst (λ ns. includes ns s.bucket ≡ true) (sym e)
                (includes_of_find s.bucket values a.present))
            ∙ e);
      }

  module _ {T : Type 0} (stringify : Text → Values → T → Text) (sha256 : Text → Text)
      (locale_compare : Text → Text → Sign) (rerun : Values → Result T) where
    -- The shocked values are in the place of their sources, every other value is as it was, under the
    -- same names in the same order; the engine ran on them, and the checksum is that of its run.
    pub record Reran (snapshot : FullEngineStressSnapshot) (shocks : List StressShock)
        (r : FullEngineStressResult T) : Type 0 where
      pub answered : AllAnswered snapshot.values r.shocked_values shocks
      pub others :
          (key : Text)
          → includes (buckets shocks) key ≡ false
          → find_value key r.shocked_values ≡ find_value key snapshot.values
      pub same_names : names r.shocked_values ≡ names snapshot.values
      pub run : rerun r.shocked_values ≡ ok r.engine_result
      pub hashed :
          r.output_checksum_sha256
          ≡ checksum stringify sha256 locale_compare snapshot.source_run_id r.shocked_values
              r.engine_result

    -- A scenario that returns has run the engine on the snapshot with each shocked value in the place
    -- of its source and every other one as it was, under the same names in the same order; each shock
    -- is within its limits, on a bucket of its own with a numeric source, and its product is printed
    -- and not negative. The checksum is that of the run, these values and the engine's result.
    pub execute_full_engine_stress_scenario-Reran :
        (snapshot : FullEngineStressSnapshot) (shocks : List StressShock)
        (r : FullEngineStressResult T)
        → execute_full_engine_stress_scenario d stringify sha256 locale_compare rerun snapshot
            shocks
          ≡ ok r
        → Reran snapshot shocks r
    unfolding execute_full_engine_stress_scenario
    execute_full_engine_stress_scenario-Reran snapshot shocks r h =
        let (_, _, h1) =
          >>=_returns (throw_if (not (is_uuid snapshot.source_run_id)) stress_run_not_uuid) _ h in
        let (_, _, h2) =
          >>=_returns (throw_if (length shocks == 0 || ltb 100 (length shocks)) shock_count) _ h1 in
        let (shocked, looped, h3) =
          >>=_returns (shock_values d snapshot.values [] shocks snapshot.values) _ h2 in
        let (result, run, h4) = >>=_returns (rerun shocked) _ h3 in
        let all = shock_values-Shocked snapshot.values [] shocks snapshot.values shocked looped in
        subst (Reran snapshot shocks) (ok_injective h4) (record {
          answered = all.answered;
          others = all.others;
          same_names = all.same_names refl;
          run = run;
          hashed = refl;
        })

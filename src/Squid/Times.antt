-- ===== src/Squid/Times.antt =====
-- squid-exporter/convert.go, `ConvertSquidServiceTimes`.
use Prim.Native.String.{◌++◌ as ◌<>◌}
use neco_containers.Base.{String, Option, none, Result, ok, err, List, [], ◌∷◌, Map}
use neco_containers.Squid.{Texts, Failure, set, Outcome, convert, ignored, failing, rest_of}

module _ {E V : Type 0} (t : Texts E V) where
  time_name : String → String → String → String
  time_name name percentile minutes =
      "squid_service_times_"
      <> (name
          <> ("{percentile=\""
              <> (percentile <> ("\", duration_minutes=\"" <> (minutes <> "\"}")))))

  time_values : String → String → Result E V → Result E V → Outcome E V
  unfolding failing time_name
  time_values name percentile (err e) r = failing t [] e
  time_values name percentile (ok v5) (err e) = failing t [] e
  time_values name percentile (ok v5) (ok v60) = record {
    writes = set (time_name name percentile "5") v5 ∷ set (time_name name percentile "60") v60 ∷ [];
    error = none;
  }

  time_columns : String → List String → Outcome E V
  unfolding ignored time_values
  time_columns name [] = ignored t
  time_columns name (p ∷ []) = ignored t
  time_columns name (p ∷ a ∷ []) = ignored t
  time_columns name (p ∷ a ∷ b ∷ []) =
      time_values name (t.remove_percent (t.trim_space p)) (t.parse_float (t.trim_space a))
        (t.parse_float (t.trim_space b))
  time_columns name (p ∷ a ∷ b ∷ x ∷ xs) = ignored t

  time_parts : List String → Outcome E V
  unfolding ignored time_columns
  time_parts [] = ignored t
  time_parts (name ∷ []) = ignored t
  time_parts (name ∷ columns ∷ []) =
      time_columns (t.replace_symbols (t.to_lower (t.trim_space name)))
        (t.split_spaces (t.trim_left columns))
  time_parts (name ∷ columns ∷ x ∷ xs) = ignored t

  -- One line of ConvertSquidServiceTimes.
  unfoldable pub time_line : String → Outcome E V
  unfolding time_parts
  time_line line = time_parts (t.split line ":")

  unfoldable pub convert_squid_service_times : List String → Map V → Option (Failure E) × Map V
  unfolding convert time_line rest_of
  convert_squid_service_times lines registry = convert t time_line (rest_of t lines) registry

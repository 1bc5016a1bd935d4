-- ===== src/Squid.antt =====
-- squid-exporter/convert.go: the loop of the conversions and `ConvertSquidCounter`, over the lines that bufio.Scanner gives. Numbers
-- are values of any type.
pub mod Info
pub mod Times
pub mod Laws
use Prim.Native.String.{◌++◌ as ◌<>◌}
use neco_containers.Base.{
  String, ◌==◌, Option, none, some, Result, ok, err, List, [], ◌∷◌, Map, lookup, insert, is_some,
  if◌then◌else◌,
}

-- strings, strconv, fmt.Sscanf and regexp. `sscanf_minutes` reads "5min: %f%%, 60min: %f%%"; `hundredth`
-- is a division by 100.
pub record Texts (E V : Type 0) : Type 0 where
  pub split : String → String → List String
  pub cut : String → String → Option (String × String)
  pub cut_suffix : String → String → Option String
  pub trim_space : String → String
  pub trim_left : String → String
  pub to_lower : String → String
  pub dots_to_underscores : String → String
  pub replace_symbols : String → String
  pub remove_percent : String → String
  pub split_spaces : String → List String
  pub parse_float : String → Result E V
  pub sscanf_minutes : String → Result E (V × V)
  pub zero_value : V
  pub hundredth : V → V

pub data Failure (E : Type 0) : Type 0 where
  parse : E → Failure E
  inappropriate_format : String → String → Failure E

-- What a line does to the registry of metrics: a counter is created, with zero where it is new, or
-- set.
pub data Write (V : Type 0) : Type 0 where
  create : String → Write V
  set : String → V → Write V

-- The writes of a line, and the error that ends the conversion.
pub record Outcome (E V : Type 0) : Type 0 where
  pub writes : List (Write V)
  pub error : Option (Failure E)

module _ {E V : Type 0} (t : Texts E V) where
  unfoldable pub write : Write V → Map V → Map V
  write (create name) registry =
      if is_some (lookup name registry) then registry else insert name t.zero_value registry
  write (set name v) registry = insert name v registry

  unfoldable pub write_all : List (Write V) → Map V → Map V
  unfolding write
  write_all [] registry = registry
  write_all (w ∷ ws) registry = write_all ws (write w registry)

  -- A loop over lines: the first error ends it.
  unfoldable pub convert : (String → Outcome E V) → List String → Map V → Option (Failure E) × Map V
  unfolding write_all
  convert f [] registry = (none, registry)
  convert f (l ∷ ls) registry =
      let next = convert f ls (write_all (f l).writes registry) in
      elim (f l).error [ none ↦ next | some e ↦ (some e, write_all (f l).writes registry) ]

  unfoldable pub ignored : Outcome E V
  ignored = record { writes = []; error = none }

  unfoldable pub failing : List (Write V) → E → Outcome E V
  failing ws e = record { writes = ws; error = some (parse e) }

  counter_value : String → Result E V → Outcome E V
  unfolding failing
  counter_value name (err e) = failing [] e
  counter_value name (ok v) = record {
    writes = set ("squid_counters_" <> (name <> "_total")) v ∷ [];
    error = none;
  }

  counter_parts : List String → Outcome E V
  unfolding ignored counter_value
  counter_parts [] = ignored
  counter_parts (name ∷ []) = ignored
  counter_parts (name ∷ value ∷ []) =
      counter_value (t.trim_space (t.dots_to_underscores name)) (t.parse_float (t.trim_space value))
  counter_parts (name ∷ value ∷ x ∷ xs) = ignored

  -- One line of ConvertSquidCounter.
  unfoldable pub counter_line : String → Outcome E V
  unfolding counter_parts
  counter_line line = counter_parts (t.split line "=")

  -- The first line is skipped.
  unfoldable pub rest_of : List String → List String
  rest_of [] = []
  rest_of (l ∷ ls) = ls

  unfoldable pub convert_squid_counter : List String → Map V → Option (Failure E) × Map V
  unfolding convert counter_line rest_of
  convert_squid_counter lines registry = convert counter_line (rest_of lines) registry

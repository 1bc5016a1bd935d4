-- ===== src/Squid/Info.antt =====
-- squid-exporter/convert.go, `ConvertSquidInfo`.
use Prim.Native.String.{◌++◌ as ◌<>◌}
use neco_containers.Base.{
  String, ◌==◌, Option, none, some, ok, err, List, [], ◌∷◌, Map, if◌then◌else◌,
}
use neco_containers.Squid.{
  Texts, Failure, inappropriate_format, create, set, Outcome, convert, ignored, failing,
}

module _ {E V : Type 0} (t : Texts E V) where
  -- fnFloat, which creates the counter first
  fn_float : String → String → Outcome E V
  unfolding failing
  fn_float name value = elim (t.parse_float value) [
    | err e ↦ failing t (create name ∷ []) e
    | ok v ↦ record { writes = create name ∷ set name v ∷ []; error = none }
  ]

  fn_minutes : String → String → Outcome E V
  unfolding failing
  fn_minutes name value = elim (t.sscanf_minutes value) [
    | err e ↦ failing t [] e
    | ok v ↦ record {
      writes =
          set (name <> "{duration_minutes=\"5\"}") (t.hundredth v.0)
          ∷ set (name <> "{duration_minutes=\"60\"}") (t.hundredth v.1)
          ∷ [];
      error = none;
    }
  ]

  ill_formed : String → String → Outcome E V
  ill_formed name value = record { writes = []; error = some (inappropriate_format name value) }

  used_ratio : String → String → Outcome E V
  unfolding failing
  used_ratio name used = elim (t.parse_float used) [
    | err e ↦ failing t (create name ∷ []) e
    | ok v ↦ record { writes = create name ∷ set name (t.hundredth v) ∷ []; error = none }
  ]

  used_part : String → String → Option (String × String) → Outcome E V
  unfolding ill_formed used_ratio
  used_part name value none = ill_formed name value
  used_part name value (some (v1, v2)) = elim (t.cut_suffix (t.trim_space v1) "% used") [
    | none ↦ ill_formed name value
    | some used ↦ used_ratio name used
  ]

  fn_used_free : String → String → Outcome E V
  unfolding used_part
  fn_used_free name value = used_part name value (t.cut value ",")

  by_title : String → String → Outcome E V
  unfolding fn_float fn_minutes fn_used_free ignored
  by_title title value =
      if title == "Hits as % of all requests"
      then fn_minutes "squid_info_cache_hit_requests_ratio" value
      else if title == "Hits as % of bytes sent"
      then fn_minutes "squid_info_cache_hit_bytes_ratio" value
      else if title == "Memory hits as % of hit requests"
      then fn_minutes "squid_info_cache_memory_hit_requests_ratio" value
      else if title == "Disk hits as % of hit requests"
      then fn_minutes "squid_info_cache_disk_hit_requests_ratio" value
      else if title == "Storage Swap capacity"
      then fn_used_free "squid_info_cache_disk_swap_capacity_ratio" value
      else if title == "Storage Mem capacity"
      then fn_used_free "squid_info_cache_memory_swap_capacity_ratio" value
      else if title == "Maximum number of file descriptors"
      then fn_float "squid_info_filefd_maximum" value
      else if title == "Largest file desc currently in use"
      then fn_float "squid_info_filefd_used_peak" value
      else if title == "Number of file desc currently in use"
      then fn_float "squid_info_filefd_used" value
      else if title == "Files queued for open"
      then fn_float "squid_info_filefd_queued" value
      else if title == "Available number of file descriptors"
      then fn_float "squid_info_filefd_available" value
      else if title == "Reserved number of file descriptors"
      then fn_float "squid_info_filefd_reserved" value
      else if title == "Store Disk files open"
      then fn_float "squid_info_filefd_store_disk" value
      else ignored t

  titled : Option (String × String) → Outcome E V
  unfolding by_title ignored
  titled none = ignored t
  titled (some (title, value)) = by_title (t.trim_space title) (t.trim_space value)

  -- One line of ConvertSquidInfo.
  unfoldable pub info_line : String → Outcome E V
  unfolding titled
  info_line line = titled (t.cut line ":")

  unfoldable pub convert_squid_info : List String → Map V → Option (Failure E) × Map V
  unfolding convert info_line
  convert_squid_info lines registry = convert t info_line lines registry
